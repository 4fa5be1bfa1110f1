-- ===== src/Deployments/Mocks.antt =====
-- helpers/contracts-deployments.ts and contracts-getters.ts: the mocks of the test markets.
pub mod Saved
use code4rena_may.Base.{String, Bool, Option, List, [], ◌∷◌}
use code4rena_may.Effects.{Action, ◌>>=◌}
use code4rena_may.Deployments.{Deployer, with_save_and_verify, connect_at}

module _ (D : Deployer) where
  unfoldable pub deploy_mock_aggregator : String → Bool → Action D.World String
  deploy_mock_aggregator price verify = D.deploy_with "MockAggregator" (price ∷ []) >>= λ instance1.
      with_save_and_verify D instance1 "MockAggregator" (price ∷ []) verify

  unfoldable pub deploy_weth_mocked : Bool → Action D.World String
  deploy_weth_mocked verify = D.deploy_with "WETH9Mocked" [] >>= λ instance1.
      with_save_and_verify D instance1 "WETHMocked" [] verify

  unfoldable pub deploy_mock_dai : String → Bool → Action D.World String
  deploy_mock_dai chain_id verify = D.deploy_with "Dai" (chain_id ∷ []) >>= λ instance1.
      with_save_and_verify D instance1 "DAIToken" (chain_id ∷ []) verify

  unfoldable pub deploy_mock_usdc : List String → Bool → Action D.World String
  deploy_mock_usdc args verify = D.deploy_with "Usdc" args >>= λ instance1.
      with_save_and_verify D instance1 "USDCToken" args verify

  unfoldable pub deploy_mock_usdt : List String → Bool → Action D.World String
  deploy_mock_usdt args verify = D.deploy_with "Usdt" args >>= λ instance1.
      with_save_and_verify D instance1 "USDTToken" args verify

  unfoldable pub deploy_mock_yvwftm : List String → Bool → Action D.World String
  deploy_mock_yvwftm args verify = D.deploy_with "MockyvWFTM" args >>= λ instance1.
      with_save_and_verify D instance1 "MockyvWFTM" args verify

  unfoldable pub deploy_mock_yvweth : List String → Bool → Action D.World String
  deploy_mock_yvweth args verify = D.deploy_with "MockyvWETH" args >>= λ instance1.
      with_save_and_verify D instance1 "MockyvWETH" args verify

  unfoldable pub deploy_mock_yvwbtc : List String → Bool → Action D.World String
  deploy_mock_yvwbtc args verify = D.deploy_with "MockyvWBTC" args >>= λ instance1.
      with_save_and_verify D instance1 "MockyvWBTC" args verify

  unfoldable pub deploy_mock_yvboo : List String → Bool → Action D.World String
  deploy_mock_yvboo args verify = D.deploy_with "MockyvBOO" args >>= λ instance1.
      with_save_and_verify D instance1 "MockyvBOO" args verify

  unfoldable pub deploy_mock_weth_for_ftm : List String → Bool → Action D.World String
  deploy_mock_weth_for_ftm args verify = D.deploy_with "MockWETHForFTM" args >>= λ instance1.
      with_save_and_verify D instance1 "MockWETHForFTM" args verify

  unfoldable pub deploy_mock_wbtc_for_ftm : List String → Bool → Action D.World String
  deploy_mock_wbtc_for_ftm args verify = D.deploy_with "MockWBTCForFTM" args >>= λ instance1.
      with_save_and_verify D instance1 "MockWBTCForFTM" args verify

  unfoldable pub deploy_mock_boo_for_ftm : List String → Bool → Action D.World String
  deploy_mock_boo_for_ftm args verify = D.deploy_with "MockBOOForFTM" args >>= λ instance1.
      with_save_and_verify D instance1 "MockBOOForFTM" args verify

  unfoldable pub deploy_mock_moo_tomb_ftm : List String → Bool → Action D.World String
  deploy_mock_moo_tomb_ftm args verify = D.deploy_with "MockMooTOMBFTM" args >>= λ instance1.
      with_save_and_verify D instance1 "MockMooTOMBFTM" args verify

  unfoldable pub deploy_mock_moo_tomb_mimatic : List String → Bool → Action D.World String
  deploy_mock_moo_tomb_mimatic args verify =
      D.deploy_with "MockMooTOMBMIMATIC" args >>= λ instance1.
      with_save_and_verify D instance1 "MockMooTOMBMIMATIC" args verify

  unfoldable pub deploy_mock_moo_based_mimatic : List String → Bool → Action D.World String
  deploy_mock_moo_based_mimatic args verify =
      D.deploy_with "MockMooBASEDMIMATIC" args >>= λ instance1.
      with_save_and_verify D instance1 "MockMooBASEDMIMATIC" args verify

  unfoldable pub get_weth_mocked : Option String → Action D.World String
  get_weth_mocked address = connect_at D "WETHMocked" address

  unfoldable pub get_mock_a_token : Option String → Action D.World String
  get_mock_a_token address = connect_at D "MockAToken" address

  unfoldable pub get_mock_variable_debt_token : Option String → Action D.World String
  get_mock_variable_debt_token address = connect_at D "MockVariableDebtToken" address

  unfoldable pub get_mock_stable_debt_token : Option String → Action D.World String
  get_mock_stable_debt_token address = connect_at D "MockStableDebtToken" address

  unfoldable pub get_mock_yvwftm : Option String → Action D.World String
  get_mock_yvwftm address = connect_at D "MockyvWFTM" address

  unfoldable pub get_mock_yvweth : Option String → Action D.World String
  get_mock_yvweth address = connect_at D "MockyvWETH" address

  unfoldable pub get_mock_yvwbtc : Option String → Action D.World String
  get_mock_yvwbtc address = connect_at D "MockyvWBTC" address

  unfoldable pub get_mock_yvboo : Option String → Action D.World String
  get_mock_yvboo address = connect_at D "MockyvBOO" address

  unfoldable pub get_mock_moo_tomb_ftm : Option String → Action D.World String
  get_mock_moo_tomb_ftm address = connect_at D "MockMooTOMBFTM" address

  unfoldable pub get_mock_moo_tomb_mimatic : Option String → Action D.World String
  get_mock_moo_tomb_mimatic address = connect_at D "MockMooTOMBMIMATIC" address

  unfoldable pub get_mock_moo_based_mimatic : Option String → Action D.World String
  get_mock_moo_based_mimatic address = connect_at D "MockMooBASEDMIMATIC" address

  unfoldable pub get_mock_wbtc_for_ftm : Option String → Action D.World String
  get_mock_wbtc_for_ftm address = connect_at D "MockWBTCForFTM" address
