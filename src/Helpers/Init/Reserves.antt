-- ===== src/Helpers/Init/Reserves.antt =====
-- `initReservesByHelper` of helpers/init-helpers.ts: the strategies and the inputs of the reserves, their
-- initialisation in batches of four, and their incentives. The console and the gas count, which
-- stays 0, are left out.
pub mod Emissions
pub mod Configured
use Prim.Native.String.{◌++◌ as ◌+s+◌}
use text.Mathlib.Text.{◌==◌ as str_eq}
use code4rena_may.Base.{
  ℕ, suc, ◌+◌, ◌*◌, String, Bool, List, [], ◌∷◌, ◌++◌, Option, some, none, if◌then◌else◌,
}
use code4rena_may.Base.Int.{ℤ}
use code4rena_may.Base.Lists.{get_elem?}
use code4rena_may.Effects.{Action, pure, throw, ◌>>=◌, ◌>>◌, unawaited}
use code4rena_may.Helpers.Misc.{chunk, assign}
use code4rena_may.Helpers.Verification.{truthy}
use code4rena_may.Market.{SymbolMap, ReserveParams, InterestRateStrategyParams, ATokenImpl, lookup}

-- A field that the arrays or the maps have no value for is `none`, which is `undefined`.
pub record InitInput : Type 0 where
  pub a_token_impl : String
  pub stable_debt_token_impl : String
  pub variable_debt_token_impl : String
  pub underlying_asset_decimals : Option ℤ
  pub interest_rate_strategy_address : Option String
  pub yield_address : String
  pub underlying_asset : Option String
  pub treasury : String
  pub incentives_controller : String
  pub underlying_asset_name : String
  pub a_token_name : String
  pub a_token_symbol : String
  pub variable_debt_token_name : String
  pub variable_debt_token_symbol : String
  pub stable_debt_token_name : String
  pub stable_debt_token_symbol : String
  pub params : String

-- The entry of `rateStrategies`: the provider's address and the six numbers of the strategy.
abbrev pub StrategyRates : Type 0
StrategyRates = String × List ℤ

-- The getters, the deployments and the contracts that the function calls, each contract by its address.
pub record Chain : Type 1 where
  pub World : Type 0
  pub stable_and_variable_tokens_helper : Action World (Unit {0})
  pub lending_pool_addresses_provider : Action World String
  pub deploy_generic_stable_debt_token : Action World String
  pub deploy_generic_variable_debt_token : Action World String
  pub sturdy_incentives_controller : Action World String
  pub deploy_generic_a_token_impl : Bool → Action World String
  pub deploy_collateral_a_token_impl : Bool → Action World String
  pub raw_insert_contract_address_in_db : String → String → Action World (Unit {0})
  pub deploy_default_reserve_interest_rate_strategy : StrategyRates → Bool → Action World String
  pub lending_pool_configurator_proxy : Action World (Unit {0})
  pub lending_pool : Action World (Unit {0})
  pub batch_init_reserve : List InitInput → Action World (Unit {0})
  -- The addresses of the aToken and of the variable debt token.
  pub get_reserve_data : Option String → Action World (String × String)
  pub configure_assets : List String → List (Option ℤ) → Action World (Unit {0})

pub data TokenType : Type 0 where
  generic collateral : TokenType

-- The objects and the arrays that the first loop fills.
pub record Collected : Type 0 where
  pub strategy_addresses : SymbolMap String
  pub strategy_address_per_asset : SymbolMap (Option String)
  pub a_token_type : SymbolMap TokenType
  pub reserve_tokens : List String
  pub reserve_init_decimals : List ℤ
  pub reserve_symbols : List String
  pub emission_per_seconds : List ℤ

-- The entries with one of the two implementations.
unfoldable pub with_impl : SymbolMap ReserveParams → SymbolMap ReserveParams
with_impl [] = []
with_impl ((symbol, params) ∷ rest) = elim (params.a_token_impl) [
  | ATokenImpl.a_token ↦ (symbol, params) ∷ with_impl rest
  | ATokenImpl.a_token_for_collateral ↦ (symbol, params) ∷ with_impl rest
  | ATokenImpl.other_contract ↦ with_impl rest
]

abbrev pub with_type : String → ATokenImpl → SymbolMap TokenType → SymbolMap TokenType
with_type symbol ATokenImpl.a_token types = assign symbol TokenType.generic types
with_type symbol ATokenImpl.a_token_for_collateral types = assign symbol TokenType.collateral types
with_type symbol ATokenImpl.other_contract types = types

abbrev pub strategy_rates : String → InterestRateStrategyParams → StrategyRates
strategy_rates provider s = (
  provider,
  s.optimal_utilization_rate ∷ s.base_variable_borrow_rate ∷ s.variable_rate_slope1
      ∷ s.variable_rate_slope2 ∷ s.stable_rate_slope1 ∷ s.stable_rate_slope2 ∷ [],
)

-- `yieldAddresses[symbol] || ZERO_ADDRESS`
abbrev pub yield_or_zero : Option String → String
yield_or_zero none = "0x0000000000000000000000000000000000000000"
yield_or_zero (some a) = if str_eq a "" then "0x0000000000000000000000000000000000000000" else a

abbrev pub read : SymbolMap (Option String) → String → Option String
read m symbol = elim (lookup symbol m) [ none ↦ none | some v ↦ v ]

-- The assignments and the pushes at the end of a round of the first loop.
unfoldable pub push_reserve :
    Collected → String → String → ReserveParams → SymbolMap String → Collected
push_reserve c symbol token params deployed = record {
  strategy_addresses = deployed;
  strategy_address_per_asset =
      assign symbol (lookup (params.strategy.name) deployed) (c.strategy_address_per_asset);
  a_token_type = with_type symbol (params.a_token_impl) (c.a_token_type);
  reserve_tokens = c.reserve_tokens ++ token ∷ [];
  reserve_init_decimals = c.reserve_init_decimals ++ params.reserve_decimals ∷ [];
  reserve_symbols = c.reserve_symbols ++ symbol ∷ [];
  emission_per_seconds = c.emission_per_seconds ++ params.emission_per_second ∷ [];
}

module _ (C : Chain) where
  -- The strategy is deployed unless its name has an address already.
  unfoldable pub ensure_strategy :
      String
      → InterestRateStrategyParams
      → Bool
      → SymbolMap String
      → Action C.World (SymbolMap String)
  ensure_strategy provider strategy verify deployed =
      if truthy (lookup (strategy.name) deployed)
      then pure deployed
      else (C.deploy_default_reserve_interest_rate_strategy (strategy_rates provider strategy)
            verify
          >>= λ address.
              unawaited (C.raw_insert_contract_address_in_db (strategy.name) address)
              >> pure (assign (strategy.name) address deployed))

  -- One round of the loop, with the token's address.
  unfoldable pub collect_reserve :
      Option String → String → ReserveParams → String → Bool → Collected → Action C.World Collected
  collect_reserve none symbol params provider verify c = pure c
  collect_reserve (some token) symbol params provider verify c =
      if str_eq token ""
      then pure c
      else (ensure_strategy provider (params.strategy) verify (c.strategy_addresses) >>= λ deployed.
          pure (push_reserve c symbol token params deployed))

  unfoldable pub collect_reserves :
      SymbolMap ReserveParams
      → SymbolMap String
      → String
      → Bool
      → Collected
      → Action C.World Collected
  collect_reserves [] token_addresses provider verify c = pure c
  collect_reserves ((symbol, params) ∷ rest) token_addresses provider verify c =
      collect_reserve (lookup symbol token_addresses) symbol params provider verify c
      >>= collect_reserves rest token_addresses provider verify

  -- The rounds of the inner loop over one chunk, at the token index `j` of the chunk `k`.
  unfoldable pub read_tokens :
      List ℤ
      → ℕ
      → ℕ
      → List InitInput
      → List String
      → List (Option ℤ)
      → Action C.World (List String × List (Option ℤ))
  read_tokens per_second k j [] tokens emissions = pure (tokens, emissions)
  read_tokens per_second k j (input ∷ inputs) tokens emissions =
      C.get_reserve_data (input.underlying_asset) >>= λ (response : String × String).
      read_tokens per_second k (suc j) inputs (tokens ++ response.0 ∷ response.1 ∷ [])
        (emissions ++ get_elem? per_second (k * 4 + j) ∷ get_elem? per_second (k * 4 + j) ∷ [])

  -- The outer loop, at the chunk index `k`.
  unfoldable pub init_chunks :
      List ℤ
      → ℕ
      → List (List InitInput)
      → List String
      → List (Option ℤ)
      → Action C.World (List String × List (Option ℤ))
  init_chunks per_second k [] tokens emissions = pure (tokens, emissions)
  init_chunks per_second k (inputs ∷ rest) tokens emissions =
      C.batch_init_reserve inputs
      >> (read_tokens per_second k 0 inputs tokens emissions
          >>= λ (done : List String × List (Option ℤ)).
              init_chunks per_second (suc k) rest (done.0) (done.1))

-- The arguments of the call that only name things.
pub record Names : Type 0 where
  pub a_token_name_prefix : String
  pub stable_debt_token_name_prefix : String
  pub variable_debt_token_name_prefix : String
  pub symbol_prefix : String

pub record Addresses : Type 0 where
  pub a_token : String
  pub collateral_a_token : String
  pub stable_debt_token : String
  pub variable_debt_token : String
  pub treasury : String
  pub incentives : String

-- `aTokenType[symbol] === 'generic'`
abbrev pub token_to_use : Option TokenType → Addresses → String
token_to_use (some TokenType.generic) a = a.a_token
token_to_use (some TokenType.collateral) a = a.collateral_a_token
token_to_use none a = a.collateral_a_token

unfoldable pub init_input :
    Collected → SymbolMap String → Names → Addresses → ℕ → String → InitInput
init_input c yields names a i symbol = record {
  a_token_impl = token_to_use (lookup symbol (c.a_token_type)) a;
  stable_debt_token_impl = a.stable_debt_token;
  variable_debt_token_impl = a.variable_debt_token;
  underlying_asset_decimals = get_elem? (c.reserve_init_decimals) i;
  interest_rate_strategy_address = read (c.strategy_address_per_asset) symbol;
  yield_address = yield_or_zero (lookup symbol yields);
  underlying_asset = get_elem? (c.reserve_tokens) i;
  treasury = a.treasury;
  incentives_controller = a.incentives;
  underlying_asset_name = symbol;
  a_token_name = names.a_token_name_prefix +s+ (" " +s+ symbol);
  a_token_symbol = "s" +s+ (names.symbol_prefix +s+ symbol);
  variable_debt_token_name =
      names.variable_debt_token_name_prefix +s+ (" " +s+ (names.symbol_prefix +s+ symbol));
  variable_debt_token_symbol = "variableDebt" +s+ (names.symbol_prefix +s+ symbol);
  stable_debt_token_name = names.stable_debt_token_name_prefix +s+ (" " +s+ symbol);
  stable_debt_token_symbol = "stableDebt" +s+ (names.symbol_prefix +s+ symbol);
  params = "0x10";
}

-- The loop over `reserveSymbols`, at the index `i`.
unfoldable pub init_inputs :
    Collected → SymbolMap String → Names → Addresses → ℕ → List String → List InitInput
init_inputs c yields names a i [] = []
init_inputs c yields names a i (symbol ∷ symbols) =
    init_input c yields names a i symbol ∷ init_inputs c yields names a (suc i) symbols

module _ (C : Chain) where
  -- From the initialisation of the reserves on.
  unfoldable pub init_collected :
      Collected → SymbolMap String → Names → Addresses → Action C.World (Unit {0})
  init_collected c yields names a =
      C.lending_pool_configurator_proxy
      >> (C.lending_pool
          >> (init_chunks C (c.emission_per_seconds) 0
                (chunk (init_inputs c yields names a 0 (c.reserve_symbols)) 4) [] []
              >>= λ (done : List String × List (Option ℤ)). C.configure_assets (done.0) (done.1)))

  unfoldable pub init_reserves_by_helper :
      SymbolMap ReserveParams
      → SymbolMap String
      → Names
      → String
      → SymbolMap String
      → Bool
      → Action C.World (Unit {0})
  init_reserves_by_helper reserves_params token_addresses names treasury yields verify =
      C.stable_and_variable_tokens_helper
      >> (C.lending_pool_addresses_provider >>= λ provider.
          C.deploy_generic_stable_debt_token >>= λ stable_debt_token.
          C.deploy_generic_variable_debt_token >>= λ variable_debt_token.
          C.sturdy_incentives_controller >>= λ incentives.
          C.deploy_generic_a_token_impl verify >>= λ a_token.
          unawaited (C.raw_insert_contract_address_in_db "aTokenImpl" a_token)
          >> (C.deploy_collateral_a_token_impl verify >>= λ collateral_a_token.
              unawaited
                (C.raw_insert_contract_address_in_db "aTokenForCollateralImpl" collateral_a_token)
              >> (collect_reserves C (with_impl reserves_params) token_addresses provider verify
                    (record {
                      strategy_addresses = [];
                      strategy_address_per_asset = [];
                      a_token_type = [];
                      reserve_tokens = [];
                      reserve_init_decimals = [];
                      reserve_symbols = [];
                      emission_per_seconds = [];
                    })
                  >>= λ c. init_collected c yields names (record {
                    a_token = a_token;
                    collateral_a_token = collateral_a_token;
                    stable_debt_token = stable_debt_token;
                    variable_debt_token = variable_debt_token;
                    treasury = treasury;
                    incentives = incentives;
                  }))))
