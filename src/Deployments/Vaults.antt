-- ===== src/Deployments/Vaults.antt =====
-- helpers/contracts-deployments.ts and contracts-getters.ts: the implementations of the vaults.
pub mod Saved
use code4rena_may.Base.{String, Bool, Option, List, [], ◌∷◌}
use code4rena_may.Effects.{Action, ◌>>=◌}
use code4rena_may.Deployments.{Deployer, with_save_and_verify, connect_at}

module _ (D : Deployer) where
  unfoldable pub deploy_convex_rocket_pool_eth_vault_impl : Bool → Action D.World String
  deploy_convex_rocket_pool_eth_vault_impl verify =
      D.deploy_with "ConvexCurveLPVault" [] >>= λ instance1.
      with_save_and_verify D instance1 "ConvexRocketPoolETHVaulttImpl" [] verify

  unfoldable pub deploy_convex_frax3crv_vault_impl : Bool → Action D.World String
  deploy_convex_frax3crv_vault_impl verify = D.deploy_with "ConvexCurveLPVault" [] >>= λ instance1.
      with_save_and_verify D instance1 "ConvexFRAX3CRVVaultImpl" [] verify

  unfoldable pub deploy_convex_steth_vault_impl : Bool → Action D.World String
  deploy_convex_steth_vault_impl verify = D.deploy_with "ConvexCurveLPVault" [] >>= λ instance1.
      with_save_and_verify D instance1 "ConvexSTETHVaultImpl" [] verify

  unfoldable pub deploy_convex_dola3crv_vault_impl : Bool → Action D.World String
  deploy_convex_dola3crv_vault_impl verify = D.deploy_with "ConvexCurveLPVault" [] >>= λ instance1.
      with_save_and_verify D instance1 "ConvexDOLA3CRVVaultImpl" [] verify

  unfoldable pub deploy_yearn_vault_impl : Bool → Action D.World String
  deploy_yearn_vault_impl verify = D.deploy_with "YearnVault" [] >>= λ instance1.
      with_save_and_verify D instance1 "YearnVaultImpl" [] verify

  unfoldable pub deploy_yearn_weth_vault_impl : Bool → Action D.World String
  deploy_yearn_weth_vault_impl verify = D.deploy_with "YearnWETHVault" [] >>= λ instance1.
      with_save_and_verify D instance1 "YearnWETHVaultImpl" [] verify

  unfoldable pub deploy_yearn_wbtc_vault_impl : Bool → Action D.World String
  deploy_yearn_wbtc_vault_impl verify = D.deploy_with "YearnWBTCVault" [] >>= λ instance1.
      with_save_and_verify D instance1 "YearnWBTCVaultImpl" [] verify

  unfoldable pub deploy_yearn_boo_vault_impl : Bool → Action D.World String
  deploy_yearn_boo_vault_impl verify = D.deploy_with "YearnBOOVault" [] >>= λ instance1.
      with_save_and_verify D instance1 "YearnBOOVaultImpl" [] verify

  unfoldable pub deploy_tomb_ftm_beefy_vault_impl : Bool → Action D.World String
  deploy_tomb_ftm_beefy_vault_impl verify = D.deploy_with "TombFtmBeefyVault" [] >>= λ instance1.
      with_save_and_verify D instance1 "TombFtmBeefyVaultImpl" [] verify

  unfoldable pub deploy_tomb_mimatic_beefy_vault_impl : Bool → Action D.World String
  deploy_tomb_mimatic_beefy_vault_impl verify =
      D.deploy_with "TombMimaticBeefyVault" [] >>= λ instance1.
      with_save_and_verify D instance1 "TombMiMaticBeefyVaultImpl" [] verify

  unfoldable pub deploy_based_mimatic_beefy_vault_impl : Bool → Action D.World String
  deploy_based_mimatic_beefy_vault_impl verify =
      D.deploy_with "BasedMimaticBeefyVault" [] >>= λ instance1.
      with_save_and_verify D instance1 "BasedMiMaticBeefyVaultImpl" [] verify

  unfoldable pub deploy_yearn_fbeets_vault_impl : Bool → Action D.World String
  deploy_yearn_fbeets_vault_impl verify = D.deploy_with "YearnFBEETSVault" [] >>= λ instance1.
      with_save_and_verify D instance1 "YearnFBEETSVaultImpl" [] verify

  unfoldable pub deploy_yearn_link_vault_impl : Bool → Action D.World String
  deploy_yearn_link_vault_impl verify = D.deploy_with "YearnLINKVault" [] >>= λ instance1.
      with_save_and_verify D instance1 "YearnLINKVaultImpl" [] verify

  unfoldable pub deploy_yearn_crv_vault_impl : Bool → Action D.World String
  deploy_yearn_crv_vault_impl verify = D.deploy_with "YearnCRVVault" [] >>= λ instance1.
      with_save_and_verify D instance1 "YearnCRVVaultImpl" [] verify

  unfoldable pub deploy_yearn_spell_vault_impl : Bool → Action D.World String
  deploy_yearn_spell_vault_impl verify = D.deploy_with "YearnSPELLVault" [] >>= λ instance1.
      with_save_and_verify D instance1 "YearnSPELLVaultImpl" [] verify

  unfoldable pub deploy_vault_helper : List String → Bool → Action D.World String
  deploy_vault_helper args verify = D.deploy_with "DeployVaultHelper" args >>= λ instance1.
      with_save_and_verify D instance1 "DeployVaultHelper" args verify

  unfoldable pub get_lido_vault_impl : Option String → Action D.World String
  get_lido_vault_impl address = connect_at D "LidoVaultImpl" address

  unfoldable pub get_yearn_reth_wsteth_vault_impl : Option String → Action D.World String
  get_yearn_reth_wsteth_vault_impl address = connect_at D "YearnRETHWstETHVaultImpl" address

  unfoldable pub get_yearn_vault_impl : Option String → Action D.World String
  get_yearn_vault_impl address = connect_at D "YearnVaultImpl" address

  unfoldable pub get_yearn_weth_vault_impl : Option String → Action D.World String
  get_yearn_weth_vault_impl address = connect_at D "YearnWETHVaultImpl" address

  unfoldable pub get_yearn_wbtc_vault_impl : Option String → Action D.World String
  get_yearn_wbtc_vault_impl address = connect_at D "YearnWBTCVaultImpl" address

  unfoldable pub get_yearn_boo_vault_impl : Option String → Action D.World String
  get_yearn_boo_vault_impl address = connect_at D "YearnBOOVaultImpl" address

  unfoldable pub get_tomb_ftm_beefy_vault_impl : Option String → Action D.World String
  get_tomb_ftm_beefy_vault_impl address = connect_at D "TombFtmBeefyVaultImpl" address

  unfoldable pub get_tomb_mimatic_beefy_vault_impl : Option String → Action D.World String
  get_tomb_mimatic_beefy_vault_impl address = connect_at D "TombMiMaticBeefyVaultImpl" address

  unfoldable pub get_tomb_mimatic_beefy_vault : Option String → Action D.World String
  get_tomb_mimatic_beefy_vault address = connect_at D "TombMiMaticBeefyVault" address

  unfoldable pub get_based_mimatic_beefy_vault_impl : Option String → Action D.World String
  get_based_mimatic_beefy_vault_impl address = connect_at D "BasedMiMaticBeefyVaultImpl" address

  unfoldable pub get_yearn_fbeets_vault_impl : Option String → Action D.World String
  get_yearn_fbeets_vault_impl address = connect_at D "YearnFBEETSVaultImpl" address

  unfoldable pub get_deploy_vault_helper : Option String → Action D.World String
  get_deploy_vault_helper address = connect_at D "DeployVaultHelper" address
