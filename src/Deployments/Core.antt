-- ===== src/Deployments/Core.antt =====
-- helpers/contracts-deployments.ts and contracts-getters.ts: the pool, the tokens and their helpers.
pub mod Saved
use code4rena_may.Base.{String, Bool, Option, List, [], ◌∷◌}
use code4rena_may.Effects.{Action, ◌>>=◌}
use code4rena_may.Deployments.{Deployer, with_save_and_verify, connect_at}

module _ (D : Deployer) where
  unfoldable pub deploy_lending_pool_addresses_provider : String → Bool → Action D.World String
  deploy_lending_pool_addresses_provider market_id verify =
      D.deploy_with "LendingPoolAddressesProvider" (market_id ∷ []) >>= λ instance1.
      with_save_and_verify D instance1 "LendingPoolAddressesProvider" (market_id ∷ []) verify

  unfoldable pub deploy_lending_pool_addresses_provider_registry : Bool → Action D.World String
  deploy_lending_pool_addresses_provider_registry verify =
      D.deploy_with "LendingPoolAddressesProviderRegistry" [] >>= λ instance1.
      with_save_and_verify D instance1 "LendingPoolAddressesProviderRegistry" [] verify

  unfoldable pub deploy_lending_pool_configurator_impl : Bool → Action D.World String
  deploy_lending_pool_configurator_impl verify =
      D.deploy_with "LendingPoolConfigurator" [] >>= λ instance1.
      with_save_and_verify D instance1 "LendingPoolConfiguratorImpl" [] verify

  unfoldable pub deploy_reserve_logic_library : Bool → Action D.World String
  deploy_reserve_logic_library verify = D.deploy_with "ReserveLogic" [] >>= λ instance1.
      with_save_and_verify D instance1 "ReserveLogic" [] verify

  unfoldable pub deploy_lending_pool_collateral_manager_impl : Bool → Action D.World String
  deploy_lending_pool_collateral_manager_impl verify =
      D.deploy_with "LendingPoolCollateralManager" [] >>= λ instance1.
      with_save_and_verify D instance1 "LendingPoolCollateralManagerImpl" [] verify

  unfoldable pub deploy_sturdy_protocol_data_provider : String → Bool → Action D.World String
  deploy_sturdy_protocol_data_provider addresses_provider verify =
      D.deploy_with "SturdyProtocolDataProvider" (addresses_provider ∷ []) >>= λ instance1.
      with_save_and_verify D instance1 "SturdyProtocolDataProvider" (addresses_provider ∷ []) verify

  unfoldable pub deploy_default_reserve_interest_rate_strategy :
      List String → Bool → Action D.World String
  deploy_default_reserve_interest_rate_strategy args verify =
      D.deploy_with "DefaultReserveInterestRateStrategy" args >>= λ instance1.
      with_save_and_verify D instance1 "DefaultReserveInterestRateStrategy" args verify

  unfoldable pub deploy_generic_stable_debt_token : Bool → Action D.World String
  deploy_generic_stable_debt_token verify = D.deploy_with "StableDebtToken" [] >>= λ instance1.
      with_save_and_verify D instance1 "StableDebtToken" [] verify

  unfoldable pub deploy_generic_variable_debt_token : Bool → Action D.World String
  deploy_generic_variable_debt_token verify = D.deploy_with "VariableDebtToken" [] >>= λ instance1.
      with_save_and_verify D instance1 "VariableDebtToken" [] verify

  unfoldable pub deploy_generic_a_token_impl : Bool → Action D.World String
  deploy_generic_a_token_impl verify =
      D.deploy_with "AToken" [] >>= λ instance1. with_save_and_verify D instance1 "AToken" [] verify

  unfoldable pub deploy_collateral_a_token_impl : Bool → Action D.World String
  deploy_collateral_a_token_impl verify = D.deploy_with "ATokenForCollateral" [] >>= λ instance1.
      with_save_and_verify D instance1 "ATokenForCollateral" [] verify

  unfoldable pub deploy_stable_and_variable_tokens_helper :
      List String → Bool → Action D.World String
  deploy_stable_and_variable_tokens_helper args verify =
      D.deploy_with "StableAndVariableTokensHelper" args >>= λ instance1.
      with_save_and_verify D instance1 "StableAndVariableTokensHelper" args verify

  unfoldable pub deploy_a_tokens_and_rates_helper : List String → Bool → Action D.World String
  deploy_a_tokens_and_rates_helper args verify =
      D.deploy_with "ATokensAndRatesHelper" args >>= λ instance1.
      with_save_and_verify D instance1 "ATokensAndRatesHelper" args verify

  unfoldable pub deploy_wallet_balancer_provider : Bool → Action D.World String
  deploy_wallet_balancer_provider verify = D.deploy_with "WalletBalanceProvider" [] >>= λ instance1.
      with_save_and_verify D instance1 "WalletBalanceProvider" [] verify

  unfoldable pub deploy_ui_incentive_data_provider : Bool → Action D.World String
  deploy_ui_incentive_data_provider verify =
      D.deploy_with "UiIncentiveDataProvider" [] >>= λ instance1.
      with_save_and_verify D instance1 "UiIncentiveDataProvider" [] verify

  unfoldable pub deploy_sturdy_incentives_controller_impl :
      List String → Bool → Action D.World String
  deploy_sturdy_incentives_controller_impl args verify =
      D.deploy_with "StakedTokenIncentivesController" args >>= λ instance1.
      with_save_and_verify D instance1 "StakedTokenIncentivesControllerImpl" args verify

  unfoldable pub deploy_sturdy_token_impl : Bool → Action D.World String
  deploy_sturdy_token_impl verify = D.deploy_with "SturdyToken" [] >>= λ instance1.
      with_save_and_verify D instance1 "SturdyTokenImpl" [] verify

  unfoldable pub get_swapin_erc20 : Option String → Action D.World String
  get_swapin_erc20 address = connect_at D "SwapinERC20" address

  unfoldable pub get_sturdy_protocol_data_provider : Option String → Action D.World String
  get_sturdy_protocol_data_provider address = connect_at D "SturdyProtocolDataProvider" address

  unfoldable pub get_reserve_logic : Option String → Action D.World String
  get_reserve_logic address = connect_at D "ReserveLogic" address

  unfoldable pub get_generic_logic : Option String → Action D.World String
  get_generic_logic address = connect_at D "GenericLogic" address

  unfoldable pub get_a_tokens_and_rates_helper : Option String → Action D.World String
  get_a_tokens_and_rates_helper address = connect_at D "ATokensAndRatesHelper" address

  unfoldable pub get_lending_pool_impl : Option String → Action D.World String
  get_lending_pool_impl address = connect_at D "LendingPoolImpl" address

  unfoldable pub get_lending_pool_configurator_impl : Option String → Action D.World String
  get_lending_pool_configurator_impl address = connect_at D "LendingPoolConfiguratorImpl" address

  unfoldable pub get_lending_pool_collateral_manager : Option String → Action D.World String
  get_lending_pool_collateral_manager address = connect_at D "LendingPoolCollateralManager" address

  unfoldable pub get_lending_pool : Option String → Action D.World String
  get_lending_pool address = connect_at D "LendingPool" address

  unfoldable pub get_wallet_provider : Option String → Action D.World String
  get_wallet_provider address = connect_at D "WalletBalanceProvider" address

  unfoldable pub get_ui_pool_data_provider : Option String → Action D.World String
  get_ui_pool_data_provider address = connect_at D "UiPoolDataProvider" address

  unfoldable pub get_ui_incentive_data_provider : Option String → Action D.World String
  get_ui_incentive_data_provider address = connect_at D "UiIncentiveDataProvider" address

  unfoldable pub get_sturdy_token_impl : Option String → Action D.World String
  get_sturdy_token_impl address = connect_at D "SturdyTokenImpl" address

  unfoldable pub get_sturdy_token : Option String → Action D.World String
  get_sturdy_token address = connect_at D "SturdyToken" address

  unfoldable pub get_generic_a_token_impl : Option String → Action D.World String
  get_generic_a_token_impl address = connect_at D "AToken" address

  unfoldable pub get_collateral_a_token_impl : Option String → Action D.World String
  get_collateral_a_token_impl address = connect_at D "ATokenForCollateral" address

  unfoldable pub get_liquidator : Option String → Action D.World String
  get_liquidator address = connect_at D "Liquidator" address
