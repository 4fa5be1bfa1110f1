-- ===== src/Deployments/Vaults/Saved.antt =====
-- What the deployments of Deployments.Vaults save is what their getters find.
use code4rena_may.Base.{String, Bool, List, [], ◌∷◌}
use code4rena_may.Deployments.{Deployer}
use code4rena_may.Deployments.Saved.{IsArchive, Pair, AllSaved, saved}
use code4rena_may.Deployments.Vaults.{
  deploy_based_mimatic_beefy_vault_impl, deploy_tomb_ftm_beefy_vault_impl,
  deploy_tomb_mimatic_beefy_vault_impl, deploy_vault_helper, deploy_yearn_boo_vault_impl,
  deploy_yearn_fbeets_vault_impl, deploy_yearn_vault_impl, deploy_yearn_wbtc_vault_impl,
  deploy_yearn_weth_vault_impl, get_based_mimatic_beefy_vault_impl, get_deploy_vault_helper,
  get_tomb_ftm_beefy_vault_impl, get_tomb_mimatic_beefy_vault_impl, get_yearn_boo_vault_impl,
  get_yearn_fbeets_vault_impl, get_yearn_vault_impl, get_yearn_wbtc_vault_impl,
  get_yearn_weth_vault_impl,
}

module _ (D : Deployer) (one : String) (args : List String) (verify : Bool) where
  abbrev pub pairs : List (Pair D)
  pairs =
      (deploy_yearn_vault_impl D verify, get_yearn_vault_impl D)
      ∷ (deploy_yearn_weth_vault_impl D verify, get_yearn_weth_vault_impl D)
      ∷ (deploy_yearn_wbtc_vault_impl D verify, get_yearn_wbtc_vault_impl D)
      ∷ (deploy_yearn_boo_vault_impl D verify, get_yearn_boo_vault_impl D)
      ∷ (deploy_tomb_ftm_beefy_vault_impl D verify, get_tomb_ftm_beefy_vault_impl D)
      ∷ (deploy_tomb_mimatic_beefy_vault_impl D verify, get_tomb_mimatic_beefy_vault_impl D)
      ∷ (deploy_based_mimatic_beefy_vault_impl D verify, get_based_mimatic_beefy_vault_impl D)
      ∷ (deploy_yearn_fbeets_vault_impl D verify, get_yearn_fbeets_vault_impl D)
      ∷ (deploy_vault_helper D args verify, get_deploy_vault_helper D)
      ∷ []

  pub pairs-AllSaved : IsArchive D → AllSaved D pairs
  unfolding deploy_based_mimatic_beefy_vault_impl deploy_tomb_ftm_beefy_vault_impl
      deploy_tomb_mimatic_beefy_vault_impl deploy_vault_helper deploy_yearn_boo_vault_impl
      deploy_yearn_fbeets_vault_impl deploy_yearn_vault_impl deploy_yearn_wbtc_vault_impl
      deploy_yearn_weth_vault_impl get_based_mimatic_beefy_vault_impl get_deploy_vault_helper
      get_tomb_ftm_beefy_vault_impl get_tomb_mimatic_beefy_vault_impl get_yearn_boo_vault_impl
      get_yearn_fbeets_vault_impl get_yearn_vault_impl get_yearn_wbtc_vault_impl
      get_yearn_weth_vault_impl
  pairs-AllSaved I = (
    saved D I "YearnVaultImpl" verify _ _,
    (
      saved D I "YearnWETHVaultImpl" verify _ _,
      (
        saved D I "YearnWBTCVaultImpl" verify _ _,
        (
          saved D I "YearnBOOVaultImpl" verify _ _,
          (
            saved D I "TombFtmBeefyVaultImpl" verify _ _,
            (
              saved D I "TombMiMaticBeefyVaultImpl" verify _ _,
              (
                saved D I "BasedMiMaticBeefyVaultImpl" verify _ _,
                (
                  saved D I "YearnFBEETSVaultImpl" verify _ _,
                  (saved D I "DeployVaultHelper" verify _ _, tt),
                ),
              ),
            ),
          ),
        ),
      ),
    ),
  )
