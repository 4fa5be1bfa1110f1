-- ===== src/Deployments/Core/Saved.antt =====
-- What the deployments of Deployments.Core save is what their getters find.
use code4rena_may.Base.{String, Bool, List, [], ◌∷◌}
use code4rena_may.Deployments.{Deployer}
use code4rena_may.Deployments.Saved.{IsArchive, Pair, AllSaved, saved}
use code4rena_may.Deployments.Core.{
  deploy_a_tokens_and_rates_helper, deploy_collateral_a_token_impl, deploy_generic_a_token_impl,
  deploy_lending_pool_configurator_impl, deploy_reserve_logic_library,
  deploy_sturdy_protocol_data_provider, deploy_sturdy_token_impl, deploy_ui_incentive_data_provider,
  deploy_wallet_balancer_provider, get_a_tokens_and_rates_helper, get_collateral_a_token_impl,
  get_generic_a_token_impl, get_lending_pool_configurator_impl, get_reserve_logic,
  get_sturdy_protocol_data_provider, get_sturdy_token_impl, get_ui_incentive_data_provider,
  get_wallet_provider,
}

module _ (D : Deployer) (one : String) (args : List String) (verify : Bool) where
  abbrev pub pairs : List (Pair D)
  pairs =
      (deploy_lending_pool_configurator_impl D verify, get_lending_pool_configurator_impl D)
      ∷ (deploy_reserve_logic_library D verify, get_reserve_logic D)
      ∷ (deploy_sturdy_protocol_data_provider D one verify, get_sturdy_protocol_data_provider D)
      ∷ (deploy_generic_a_token_impl D verify, get_generic_a_token_impl D)
      ∷ (deploy_collateral_a_token_impl D verify, get_collateral_a_token_impl D)
      ∷ (deploy_a_tokens_and_rates_helper D args verify, get_a_tokens_and_rates_helper D)
      ∷ (deploy_wallet_balancer_provider D verify, get_wallet_provider D)
      ∷ (deploy_ui_incentive_data_provider D verify, get_ui_incentive_data_provider D)
      ∷ (deploy_sturdy_token_impl D verify, get_sturdy_token_impl D)
      ∷ []

  pub pairs-AllSaved : IsArchive D → AllSaved D pairs
  unfolding deploy_a_tokens_and_rates_helper deploy_collateral_a_token_impl
      deploy_generic_a_token_impl deploy_lending_pool_configurator_impl deploy_reserve_logic_library
      deploy_sturdy_protocol_data_provider deploy_sturdy_token_impl
      deploy_ui_incentive_data_provider deploy_wallet_balancer_provider
      get_a_tokens_and_rates_helper get_collateral_a_token_impl get_generic_a_token_impl
      get_lending_pool_configurator_impl get_reserve_logic get_sturdy_protocol_data_provider
      get_sturdy_token_impl get_ui_incentive_data_provider get_wallet_provider
  pairs-AllSaved I = (
    saved D I "LendingPoolConfiguratorImpl" verify _ _,
    (
      saved D I "ReserveLogic" verify _ _,
      (
        saved D I "SturdyProtocolDataProvider" verify _ _,
        (
          saved D I "AToken" verify _ _,
          (
            saved D I "ATokenForCollateral" verify _ _,
            (
              saved D I "ATokensAndRatesHelper" verify _ _,
              (
                saved D I "WalletBalanceProvider" verify _ _,
                (
                  saved D I "UiIncentiveDataProvider" verify _ _,
                  (saved D I "SturdyTokenImpl" verify _ _, tt),
                ),
              ),
            ),
          ),
        ),
      ),
    ),
  )
