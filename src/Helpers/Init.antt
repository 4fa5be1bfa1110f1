-- ===== src/Helpers/Init.antt =====
-- helpers/init-helpers.ts: the configuration of the reserves, and the pairs of the price oracle. The
-- console and the gas limits are left out.
pub mod Reserves
pub mod Configured
use text.Mathlib.Text.{◌==◌ as str_eq}
use code4rena_may.Base.{
  String, Bool, true, false, List, [], ◌∷◌, ◌++◌, Option, some, none, if◌then◌else◌,
}
use code4rena_may.Base.Int.{ℤ, negsuc, eq_ℤ}
use code4rena_may.Effects.{Action, pure, throw, ◌>>=◌, ◌>>◌, for_each}
use code4rena_may.Helpers.Misc.{chunk}
use code4rena_may.Helpers.Oracles.{found}
use code4rena_may.Helpers.Verification.{truthy}
use code4rena_may.Market.{SymbolMap, ReserveParams, lookup}

pub record ConfigInput : Type 0 where
  pub asset : String
  pub base_ltv : ℤ
  pub liquidation_threshold : ℤ
  pub liquidation_bonus : ℤ
  pub reserve_factor : ℤ
  pub stable_borrowing_enabled : Bool
  pub borrowing_enabled : Bool
  pub collateral_enabled : Bool

-- The contracts that `configureReservesByHelper` calls; the getters give their addresses.
pub record Configuration : Type 1 where
  pub World : Type 0
  pub addresses_provider : Action World (Unit {0})
  pub rates_helper : Action World String
  pub usage_as_collateral_enabled : String → Action World Bool
  pub set_pool_admin : String → Action World (Unit {0})
  pub configure_reserves : List ConfigInput → Action World (Unit {0})

-- The arrays that the loop fills.
pub record Inputs : Type 0 where
  pub tokens : List String
  pub symbols : List String
  pub input_params : List ConfigInput

abbrev pub config_input : String → ReserveParams → ConfigInput
config_input token params = record {
  asset = token;
  base_ltv = params.base_ltv_as_collateral;
  liquidation_threshold = params.liquidation_threshold;
  liquidation_bonus = params.liquidation_bonus;
  reserve_factor = params.reserve_factor;
  stable_borrowing_enabled = params.stable_borrow_rate_enabled;
  borrowing_enabled = params.borrowing_enabled;
  collateral_enabled = params.collateral_enabled;
}

unfoldable pub push_input : Inputs → String → String → ReserveParams → Inputs
push_input inputs token symbol params = record {
  tokens = inputs.tokens ++ token ∷ [];
  symbols = inputs.symbols ++ symbol ∷ [];
  input_params = inputs.input_params ++ config_input token params ∷ [];
}

module _ (C : Configuration) where
  -- One round of the loop.
  unfoldable pub collect_one :
      String → ReserveParams → SymbolMap String → Inputs → Action C.World Inputs
  collect_one symbol params addresses inputs =
      if truthy (lookup symbol addresses)
      then (if eq_ℤ (params.base_ltv_as_collateral) (negsuc 0)
          then pure inputs
          else (found (lookup symbol addresses) >>= λ token.
              C.usage_as_collateral_enabled token >>= λ already_enabled.
              if already_enabled
              then pure inputs
              else pure (push_input inputs token symbol params)))
      else pure inputs

  unfoldable pub collect_inputs :
      SymbolMap ReserveParams → SymbolMap String → Inputs → Action C.World Inputs
  collect_inputs [] addresses inputs = pure inputs
  collect_inputs ((symbol, params) ∷ rest) addresses inputs =
      collect_one symbol params addresses inputs >>= collect_inputs rest addresses

  unfoldable pub configure_collected : String → String → Inputs → Action C.World (Unit {0})
  configure_collected helper admin inputs = elim (inputs.tokens) [
    | [] ↦ pure tt
    | token ∷ others ↦
        C.set_pool_admin helper
        >> (for_each (C.configure_reserves) (chunk (inputs.input_params) 20)
            >> C.set_pool_admin admin)
  ]

  unfoldable pub configure_reserves_by_helper :
      SymbolMap ReserveParams → SymbolMap String → String → Action C.World (Unit {0})
  configure_reserves_by_helper reserves_params addresses admin =
      C.addresses_provider
      >> (C.rates_helper >>= λ helper.
          collect_inputs reserves_params addresses
            (record { tokens = []; symbols = []; input_params = [] })
          >>= configure_collected helper admin)

-- The entries of the object without the keys `ETH`, `USD` and `WETH`.
unfoldable pub without_eth : SymbolMap String → SymbolMap String
without_eth [] = []
without_eth ((symbol, address) ∷ rest) =
    let others = without_eth rest in
    if str_eq symbol "ETH"
    then others
    else if str_eq symbol "USD"
    then others
    else if str_eq symbol "WETH"
    then others
    else (symbol, address) ∷ others

-- `none` where the entry of an aggregator that is missing is taken apart.
unfoldable pub pairs_of : SymbolMap String → SymbolMap String → Option (List (String × String))
pairs_of [] aggregators = some []
pairs_of ((symbol, token) ∷ rest) aggregators =
    let others = pairs_of rest aggregators in
    elim (lookup symbol aggregators) [
      | none ↦ none
      | some aggregator ↦ elim others [ none ↦ none | some ps ↦ some ((token, aggregator) ∷ ps) ]
    ]

abbrev pub unzipped : List (String × String) → List String × List String
unzipped [] = ([], [])
unzipped ((a, b) ∷ ps) = let (as1, bs) = unzipped ps in (a ∷ as1, b ∷ bs)

pub get_pairs_token_aggregator :
    SymbolMap String → SymbolMap String → Option (List String × List String)
get_pairs_token_aggregator all_assets aggregators =
    elim (pairs_of (without_eth all_assets) aggregators) [
      | none ↦ none
      | some ps ↦ some (unzipped ps)
    ]
