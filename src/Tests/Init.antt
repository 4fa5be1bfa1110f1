-- ===== src/Tests/Init.antt =====
-- The properties of the initialisation helpers at networks that record what is sent.
use mathlib.Core.List.{append_assoc, append-nil}
use mathlib.Core.Path.{fun_ext}
use text.Mathlib.Text.{◌==◌ as str_eq}
use code4rena_may.Base.{◌≡◌, refl, sym, ap, ◌∙◌, String, true, false, List, [], ◌∷◌, ◌++◌, Option}
use code4rena_may.Base.Int.{ℤ, pos}
use code4rena_may.Effects.{ok, ◌>>=◌, ◌>>◌}
use code4rena_may.Helpers.Oracles.{Oracles, MarketRates, set_initial_market_rates}
use code4rena_may.Helpers.Oracles.Batches.{IsElementwise, firsts, seconds}
use code4rena_may.Helpers.Oracles.Rates.{resolved, send_rates, set_initial_market_rates-refines}
use code4rena_may.Helpers.Init.{Configuration, ConfigInput, configure_reserves_by_helper}
use code4rena_may.Helpers.Init.Configured.{
  inputs_of, send_inputs, configure_reserves_by_helper-refines,
}
use code4rena_may.Helpers.Init.Reserves.{Chain, Names}
use code4rena_may.Market.{SymbolMap, ReserveParams, ATokenImpl}

abbrev pairs : List String → List ℤ → List (String × ℤ)
pairs [] rs = []
pairs (t ∷ ts) [] = []
pairs (t ∷ ts) (r ∷ rs) = (t, r) ∷ pairs ts rs

pairs_lem : (ps : List (String × ℤ)) → pairs (firsts ps) (seconds ps) ≡ ps
pairs_lem [] = refl
pairs_lem (p ∷ ps) = ap (λ l. p ∷ l) (pairs_lem ps)

-- The world is what was sent, a change of the owner with the rate 0.
abbrev recording : Oracles
recording = record {
  World = List (String × ℤ);
  helper = λ w. (ok "helper", w);
  transfer_ownership = λ a w. (ok tt, w ++ (a, pos 0) ∷ []);
  set_oracle_borrow_rates = λ ts rs o w. (ok tt, w ++ pairs ts rs);
  set_oracle_ownership = λ o a w. (ok tt, w ++ (a, pos 0) ∷ []);
  set_asset_price = λ a p w. (ok tt, w ++ (a, p) ∷ []);
  Aggregator = ℤ;
  deploy_mock_aggregator = λ p v w. (ok p, w);
}

abbrev elementwise :
    IsElementwise (λ tokens rates. recording.set_oracle_borrow_rates tokens rates "oracle")
elementwise = record {
  call-nil = fun_ext (λ w. ap (λ l. (ok tt, l)) (append-nil w));
  call-append = λ ps qs. fun_ext (λ w.
      ap (λ l. (ok tt, w ++ l)) (pairs_lem (ps ++ qs))
      ∙ ap (λ l. (ok tt, l)) (sym (append_assoc w ps qs))
      ∙ sym (
          ap (λ l. (ok tt, (w ++ l) ++ pairs (firsts qs) (seconds qs))) (pairs_lem ps)
          ∙ ap (λ l. (ok tt, (w ++ ps) ++ l)) (pairs_lem qs)));
}

abbrev market_rates : SymbolMap MarketRates
market_rates =
    ("DAI", record { borrow_rate = pos 3 }) ∷ ("USDC", record { borrow_rate = pos 4 }) ∷ []

abbrev addresses : SymbolMap String
addresses = ("USDC", "0xc") ∷ ("DAI", "0xd") ∷ []

set_initial_market_rates-refines_example :
    set_initial_market_rates recording market_rates addresses "oracle" "admin" ≡ (
      recording.helper >>= λ helper.
      send_rates recording (resolved market_rates addresses) helper "oracle" "admin")
set_initial_market_rates-refines_example =
    set_initial_market_rates-refines recording market_rates addresses "oracle" "admin" elementwise

-- The world is what was configured, and the administrators.
abbrev configuring : Configuration
configuring = record {
  World = List ConfigInput × List String;
  addresses_provider = λ w. (ok tt, w);
  rates_helper = λ w. (ok "helper", w);
  usage_as_collateral_enabled = λ token w. (ok (str_eq token "0xc"), w);
  set_pool_admin = λ a w. (ok tt, (w.0, w.1 ++ a ∷ []));
  configure_reserves = λ is w. (ok tt, (w.0 ++ is, w.1));
}

abbrev reserve : ReserveParams
reserve = record {
  borrowing_enabled = true;
  stable_borrow_rate_enabled = false;
  reserve_decimals = pos 18;
  base_ltv_as_collateral = pos 7500;
  liquidation_threshold = pos 8000;
  liquidation_bonus = pos 10_500;
  collateral_enabled = true;
  a_token_impl = ATokenImpl.a_token;
  reserve_factor = pos 1000;
  emission_per_second = pos 5;
  strategy = record {
    name = "s";
    optimal_utilization_rate = pos 1;
    base_variable_borrow_rate = pos 0;
    variable_rate_slope1 = pos 1;
    variable_rate_slope2 = pos 2;
    stable_rate_slope1 = pos 1;
    stable_rate_slope2 = pos 2;
    capacity = pos 0;
  };
}

abbrev reserves : SymbolMap ReserveParams
reserves = ("DAI", reserve) ∷ ("USDC", reserve) ∷ ("LINK", reserve) ∷ []

configure_reserves_by_helper-refines_example :
    configure_reserves_by_helper configuring reserves addresses "admin" ≡ (
      configuring.addresses_provider
      >> (configuring.rates_helper >>= λ helper w.
          send_inputs configuring helper "admin"
            (inputs_of (λ token. str_eq token "0xc") reserves addresses)
            w))
configure_reserves_by_helper-refines_example =
    configure_reserves_by_helper-refines configuring (λ w token. str_eq token "0xc")
      (λ token w. refl) reserves addresses "admin"

-- The world is the emissions of the last configuration.
abbrev chain : Chain
chain = record {
  World = List (Option ℤ);
  stable_and_variable_tokens_helper = λ w. (ok tt, w);
  lending_pool_addresses_provider = λ w. (ok "provider", w);
  deploy_generic_stable_debt_token = λ w. (ok "stable", w);
  deploy_generic_variable_debt_token = λ w. (ok "variable", w);
  sturdy_incentives_controller = λ w. (ok "incentives", w);
  deploy_generic_a_token_impl = λ v w. (ok "aToken", w);
  deploy_collateral_a_token_impl = λ v w. (ok "collateral", w);
  raw_insert_contract_address_in_db = λ k a w. (ok tt, w);
  deploy_default_reserve_interest_rate_strategy = λ r v w. (ok "strategy", w);
  lending_pool_configurator_proxy = λ w. (ok tt, w);
  lending_pool = λ w. (ok tt, w);
  batch_init_reserve = λ is w. (ok tt, w);
  get_reserve_data = λ a w. (ok ("a", "v"), w);
  configure_assets = λ ts es w. (ok tt, es);
}

abbrev names : Names
names = record {
  a_token_name_prefix = "aToken";
  stable_debt_token_name_prefix = "stable";
  variable_debt_token_name_prefix = "variable";
  symbol_prefix = "";
}
