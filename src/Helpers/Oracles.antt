-- ===== src/Helpers/Oracles.antt =====
-- helpers/oracles-helpers.ts: the first rates and prices of the oracles, and the mocks of the aggregators.
-- The console is left out; a contract's answer that the code does not read is `tt`.
pub mod Batches
pub mod Rates
use text.Mathlib.Text.{◌==◌ as str_eq}
use code4rena_may.Base.{String, Bool, List, [], ◌∷◌, ◌++◌, Option, some, none, if◌then◌else◌}
use code4rena_may.Base.Int.{ℤ}
use code4rena_may.Effects.{Action, pure, throw, ◌>>=◌, ◌>>◌, for_pairs}
use code4rena_may.Helpers.Misc.{chunk, keys, assign}
use code4rena_may.Market.{SymbolMap, lookup}

-- The contracts and the deployment that the code calls. `helper` is the address that
-- `getStableAndVariableTokensHelper` gives; the oracle's address is an argument where it is sent.
pub record Oracles : Type 1 where
  pub World : Type 0
  pub helper : Action World String
  pub transfer_ownership : String → Action World (Unit {0})
  pub set_oracle_borrow_rates : List String → List ℤ → String → Action World (Unit {0})
  pub set_oracle_ownership : String → String → Action World (Unit {0})
  pub set_asset_price : String → ℤ → Action World (Unit {0})
  pub Aggregator : Type 0
  pub deploy_mock_aggregator : ℤ → Option Bool → Action World Aggregator

pub record MarketRates : Type 0 where
  pub borrow_rate : ℤ

-- The arrays that the first loop fills.
pub record Arrays : Type 0 where
  pub asset_addresses : List String
  pub borrow_rates : List ℤ
  pub symbols : List String

-- The value of the entry that `findIndex` gives; the entry at -1 is `undefined`, and taking it apart
-- throws.
abbrev pub found : {W A : Type 0} → Option A → Action W A
found none = throw "TypeError"
found (some a) = pure a

module _ (O : Oracles) where
  unfoldable pub collect : SymbolMap MarketRates → SymbolMap String → Arrays → Action O.World Arrays
  collect [] addresses arrays = pure arrays
  collect ((symbol, rates) ∷ rest) addresses arrays = found (lookup symbol addresses) >>= λ address.
      collect rest addresses (record {
        asset_addresses = arrays.asset_addresses ++ address ∷ [];
        borrow_rates = arrays.borrow_rates ++ rates.borrow_rate ∷ [];
        symbols = arrays.symbols ++ symbol ∷ [];
      })

  -- From the cut into chunks on.
  unfoldable pub send_chunks : String → String → String → Arrays → Action O.World (Unit {0})
  send_chunks helper oracle admin arrays =
      O.transfer_ownership helper
      >> (for_pairs (λ tokens rates. O.set_oracle_borrow_rates tokens rates oracle)
            (chunk (arrays.asset_addresses) 20) (chunk (arrays.borrow_rates) 20)
          >> O.set_oracle_ownership oracle admin)

  unfoldable pub set_initial_market_rates :
      SymbolMap MarketRates → SymbolMap String → String → String → Action O.World (Unit {0})
  set_initial_market_rates market_rates addresses oracle admin = O.helper >>= λ helper.
      collect market_rates addresses
        (record { asset_addresses = []; borrow_rates = []; symbols = [] })
      >>= send_chunks helper oracle admin

  unfoldable pub set_initial_asset_prices :
      SymbolMap ℤ → SymbolMap String → Action O.World (Unit {0})
  set_initial_asset_prices [] addresses = pure tt
  set_initial_asset_prices ((symbol, price) ∷ rest) addresses =
      let later = set_initial_asset_prices rest addresses in
      found (lookup symbol addresses) >>= λ address.
      if str_eq address "" then later else O.set_asset_price address price >> later

  unfoldable pub set_asset_prices : SymbolMap ℤ → SymbolMap String → Action O.World (Unit {0})
  set_asset_prices [] addresses = pure tt
  set_asset_prices ((symbol, price) ∷ rest) addresses =
      found (lookup symbol addresses) >>= λ address.
      O.set_asset_price address price >> set_asset_prices rest addresses

  -- The loop over the keys, with the aggregators deployed so far.
  unfoldable pub deploy_mocks :
      List String
      → SymbolMap ℤ
      → Option Bool
      → SymbolMap O.Aggregator
      → Action O.World (SymbolMap O.Aggregator)
  deploy_mocks [] prices verify aggregators = pure aggregators
  deploy_mocks (name ∷ names) prices verify aggregators =
      if str_eq name "ETH"
      then deploy_mocks names prices verify aggregators
      else (found (lookup name prices) >>= λ price.
          O.deploy_mock_aggregator price verify >>= λ aggregator.
          deploy_mocks names prices verify (assign name aggregator aggregators))

  pub deploy_mock_aggregators : SymbolMap ℤ → Option Bool → Action O.World (SymbolMap O.Aggregator)
  deploy_mock_aggregators initial_prices verify =
      deploy_mocks (keys initial_prices) initial_prices verify []

  pub deploy_all_mock_aggregators :
      SymbolMap ℤ → Option Bool → Action O.World (SymbolMap O.Aggregator)
  deploy_all_mock_aggregators initial_prices verify =
      deploy_mocks (keys initial_prices) initial_prices verify []
