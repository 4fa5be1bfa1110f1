-- ===== src/Deployments/Oracles.antt =====
-- helpers/contracts-deployments.ts and contracts-getters.ts: the oracles.
pub mod Saved
use code4rena_may.Base.{String, Bool, Option, List, [], ◌∷◌}
use code4rena_may.Effects.{Action, ◌>>=◌}
use code4rena_may.Deployments.{Deployer, with_save_and_verify, connect_at}

module _ (D : Deployer) where
  unfoldable pub deploy_price_oracle : Bool → Action D.World String
  deploy_price_oracle verify = D.deploy_with "PriceOracle" [] >>= λ instance1.
      with_save_and_verify D instance1 "PriceOracle" [] verify

  unfoldable pub deploy_lending_rate_oracle : Bool → Action D.World String
  deploy_lending_rate_oracle verify = D.deploy_with "LendingRateOracle" [] >>= λ instance1.
      with_save_and_verify D instance1 "LendingRateOracle" [] verify

  unfoldable pub deploy_boo_oracle : Bool → Action D.World String
  deploy_boo_oracle verify = D.deploy_with "BooOracle" [] >>= λ instance1.
      with_save_and_verify D instance1 "BooOracle" [] verify

  unfoldable pub deploy_tomb_oracle : Bool → Action D.World String
  deploy_tomb_oracle verify = D.deploy_with "TombOracle" [] >>= λ instance1.
      with_save_and_verify D instance1 "TombOracle" [] verify

  unfoldable pub deploy_tomb_ftm_lp_oracle : Bool → Action D.World String
  deploy_tomb_ftm_lp_oracle verify = D.deploy_with "TombFtmLPOracle" [] >>= λ instance1.
      with_save_and_verify D instance1 "TombFtmLPOracle" [] verify

  unfoldable pub deploy_tomb_mimatic_lp_oracle : Bool → Action D.World String
  deploy_tomb_mimatic_lp_oracle verify = D.deploy_with "TombMiMaticLPOracle" [] >>= λ instance1.
      with_save_and_verify D instance1 "TombMiMaticLPOracle" [] verify

  unfoldable pub deploy_fbeets_oracle : Bool → Action D.World String
  deploy_fbeets_oracle verify = D.deploy_with "FBeetsOracle" [] >>= λ instance1.
      with_save_and_verify D instance1 "FBeetsOracle" [] verify

  unfoldable pub deploy_beets_oracle : Bool → Action D.World String
  deploy_beets_oracle verify = D.deploy_with "BeetsOracle" [] >>= λ instance1.
      with_save_and_verify D instance1 "BeetsOracle" [] verify

  unfoldable pub deploy_based_oracle : Bool → Action D.World String
  deploy_based_oracle verify = D.deploy_with "BasedOracle" [] >>= λ instance1.
      with_save_and_verify D instance1 "BasedOracle" [] verify

  unfoldable pub deploy_based_mimatic_lp_oracle : Bool → Action D.World String
  deploy_based_mimatic_lp_oracle verify = D.deploy_with "BasedMiMaticLPOracle" [] >>= λ instance1.
      with_save_and_verify D instance1 "BasedMiMaticLPOracle" [] verify

  unfoldable pub deploy_reth_wsteth_lp_oracle : Bool → Action D.World String
  deploy_reth_wsteth_lp_oracle verify = D.deploy_with "CrvREthWstETHOracle" [] >>= λ instance1.
      with_save_and_verify D instance1 "RETHWstETHLPOracle" [] verify

  unfoldable pub deploy_frax3crvp_oracle : Bool → Action D.World String
  deploy_frax3crvp_oracle verify = D.deploy_with "FRAX3CRVOracle" [] >>= λ instance1.
      with_save_and_verify D instance1 "FRAX3CRVOracle" [] verify

  unfoldable pub deploy_stecrv_oracle : Bool → Action D.World String
  deploy_stecrv_oracle verify = D.deploy_with "STECRVOracle" [] >>= λ instance1.
      with_save_and_verify D instance1 "STECRVOracle" [] verify

  unfoldable pub deploy_dola3crv_oracle : Bool → Action D.World String
  deploy_dola3crv_oracle verify = D.deploy_with "DOLA3CRVOracle" [] >>= λ instance1.
      with_save_and_verify D instance1 "DOLA3CRVOracle" [] verify

  unfoldable pub get_price_oracle : Option String → Action D.World String
  get_price_oracle address = connect_at D "PriceOracle" address

  unfoldable pub get_sturdy_oracle : Option String → Action D.World String
  get_sturdy_oracle address = connect_at D "SturdyOracle" address

  unfoldable pub get_boo_oracle : Option String → Action D.World String
  get_boo_oracle address = connect_at D "BooOracle" address

  unfoldable pub get_tomb_oracle : Option String → Action D.World String
  get_tomb_oracle address = connect_at D "TombOracle" address

  unfoldable pub get_tomb_ftm_lp_oracle : Option String → Action D.World String
  get_tomb_ftm_lp_oracle address = connect_at D "TombFtmLPOracle" address

  unfoldable pub get_tomb_mimatic_lp_oracle : Option String → Action D.World String
  get_tomb_mimatic_lp_oracle address = connect_at D "TombMiMaticLPOracle" address

  unfoldable pub get_based_oracle : Option String → Action D.World String
  get_based_oracle address = connect_at D "BasedOracle" address

  unfoldable pub get_based_mimatic_lp_oracle : Option String → Action D.World String
  get_based_mimatic_lp_oracle address = connect_at D "BasedMiMaticLPOracle" address

  unfoldable pub get_beets_oracle : Option String → Action D.World String
  get_beets_oracle address = connect_at D "BeetsOracle" address

  unfoldable pub get_fbeets_oracle : Option String → Action D.World String
  get_fbeets_oracle address = connect_at D "FBeetsOracle" address

  unfoldable pub get_reth_wsteth_lp_oracle : Option String → Action D.World String
  get_reth_wsteth_lp_oracle address = connect_at D "RETHWstETHLPOracle" address
