-- ===== src/Deployments/Oracles/Saved.antt =====
-- What the deployments of Deployments.Oracles save is what their getters find.
use code4rena_may.Base.{String, Bool, List, [], ◌∷◌}
use code4rena_may.Deployments.{Deployer}
use code4rena_may.Deployments.Saved.{IsArchive, Pair, AllSaved, saved}
use code4rena_may.Deployments.Oracles.{
  deploy_based_mimatic_lp_oracle, deploy_based_oracle, deploy_beets_oracle, deploy_boo_oracle,
  deploy_fbeets_oracle, deploy_price_oracle, deploy_reth_wsteth_lp_oracle,
  deploy_tomb_ftm_lp_oracle, deploy_tomb_mimatic_lp_oracle, deploy_tomb_oracle,
  get_based_mimatic_lp_oracle, get_based_oracle, get_beets_oracle, get_boo_oracle,
  get_fbeets_oracle, get_price_oracle, get_reth_wsteth_lp_oracle, get_tomb_ftm_lp_oracle,
  get_tomb_mimatic_lp_oracle, get_tomb_oracle,
}

module _ (D : Deployer) (one : String) (args : List String) (verify : Bool) where
  abbrev pub pairs : List (Pair D)
  pairs =
      (deploy_price_oracle D verify, get_price_oracle D)
      ∷ (deploy_boo_oracle D verify, get_boo_oracle D)
      ∷ (deploy_tomb_oracle D verify, get_tomb_oracle D)
      ∷ (deploy_tomb_ftm_lp_oracle D verify, get_tomb_ftm_lp_oracle D)
      ∷ (deploy_tomb_mimatic_lp_oracle D verify, get_tomb_mimatic_lp_oracle D)
      ∷ (deploy_fbeets_oracle D verify, get_fbeets_oracle D)
      ∷ (deploy_beets_oracle D verify, get_beets_oracle D)
      ∷ (deploy_based_oracle D verify, get_based_oracle D)
      ∷ (deploy_based_mimatic_lp_oracle D verify, get_based_mimatic_lp_oracle D)
      ∷ (deploy_reth_wsteth_lp_oracle D verify, get_reth_wsteth_lp_oracle D)
      ∷ []

  pub pairs-AllSaved : IsArchive D → AllSaved D pairs
  unfolding deploy_based_mimatic_lp_oracle deploy_based_oracle deploy_beets_oracle deploy_boo_oracle
      deploy_fbeets_oracle deploy_price_oracle deploy_reth_wsteth_lp_oracle
      deploy_tomb_ftm_lp_oracle deploy_tomb_mimatic_lp_oracle deploy_tomb_oracle
      get_based_mimatic_lp_oracle get_based_oracle get_beets_oracle get_boo_oracle get_fbeets_oracle
      get_price_oracle get_reth_wsteth_lp_oracle get_tomb_ftm_lp_oracle get_tomb_mimatic_lp_oracle
      get_tomb_oracle
  pairs-AllSaved I = (
    saved D I "PriceOracle" verify _ _,
    (
      saved D I "BooOracle" verify _ _,
      (
        saved D I "TombOracle" verify _ _,
        (
          saved D I "TombFtmLPOracle" verify _ _,
          (
            saved D I "TombMiMaticLPOracle" verify _ _,
            (
              saved D I "FBeetsOracle" verify _ _,
              (
                saved D I "BeetsOracle" verify _ _,
                (
                  saved D I "BasedOracle" verify _ _,
                  (
                    saved D I "BasedMiMaticLPOracle" verify _ _,
                    (saved D I "RETHWstETHLPOracle" verify _ _, tt),
                  ),
                ),
              ),
            ),
          ),
        ),
      ),
    ),
  )
