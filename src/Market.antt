-- ===== src/Market.antt =====
-- The data that the calculations read and produce: helpers/types.ts and
-- test-suites/test-ftm/helpers/utils/interfaces/index.ts. `BN` is the type of big numbers. A
-- configuration value that the source keeps as a decimal string is the integer that it denotes.
pub mod RateMode
pub mod Embed
use code4rena_may.Base.{String, Bool, Option, List, some, none, [], ◌∷◌, if◌then◌else◌}
use code4rena_may.Base.Int.{ℤ}
use text.Mathlib.Text.{◌==◌ as str_eq}

pub record InterestRateStrategyParams : Type 0 where
  pub name : String
  pub optimal_utilization_rate : ℤ
  pub base_variable_borrow_rate : ℤ
  pub variable_rate_slope1 : ℤ
  pub variable_rate_slope2 : ℤ
  pub stable_rate_slope1 : ℤ
  pub stable_rate_slope2 : ℤ
  pub capacity : ℤ

pub data ATokenImpl : Type 0 where
  a_token a_token_for_collateral other_contract : ATokenImpl

pub record ReserveParams : Type 0 where
  pub borrowing_enabled : Bool
  pub stable_borrow_rate_enabled : Bool
  pub reserve_decimals : ℤ
  pub base_ltv_as_collateral : ℤ
  pub liquidation_threshold : ℤ
  pub liquidation_bonus : ℤ
  pub collateral_enabled : Bool
  pub a_token_impl : ATokenImpl
  pub reserve_factor : ℤ
  pub emission_per_second : ℤ
  pub strategy : InterestRateStrategyParams

-- An object of the language whose keys are strings, in the order of its keys.
abbrev pub SymbolMap {ℓ} : Type ℓ → Type ℓ
SymbolMap T = List (String × T)

module _ {ℓ} {T : Type ℓ} where
  -- The value of the first entry with the key; `none` is `undefined`.
  unfoldable pub lookup : String → SymbolMap T → Option T
  lookup k [] = none
  lookup k ((j, v) ∷ m) = if str_eq j k then some v else lookup k m

pub record ReserveData (BN : Type 0) : Type 0 where
  pub address : String
  pub symbol : String
  pub decimals : BN
  pub total_liquidity : BN
  pub available_liquidity : BN
  pub total_stable_debt : BN
  pub total_variable_debt : BN
  pub principal_stable_debt : BN
  pub scaled_variable_debt : BN
  pub average_stable_borrow_rate : BN
  pub variable_borrow_rate : BN
  pub stable_borrow_rate : BN
  pub utilization_rate : BN
  pub liquidity_index : BN
  pub variable_borrow_index : BN
  pub a_token_address : String
  pub market_stable_rate : BN
  pub last_update_timestamp : BN
  pub total_stable_debt_last_updated : BN
  pub liquidity_rate : BN

-- The object that a calculation builds from `<ReserveData>{}`: the fields that every calculation
-- sets, and the one that only some of them set (`none` where it stays `undefined`).
pub record ExpectedReserveData (BN : Type 0) : Type 0 where
  pub address : String
  pub total_liquidity : BN
  pub available_liquidity : BN
  pub total_stable_debt : BN
  pub total_variable_debt : BN
  pub principal_stable_debt : BN
  pub scaled_variable_debt : BN
  pub average_stable_borrow_rate : BN
  pub variable_borrow_rate : BN
  pub stable_borrow_rate : BN
  pub utilization_rate : BN
  pub liquidity_index : BN
  pub variable_borrow_index : BN
  pub liquidity_rate : BN
  pub last_update_timestamp : Option BN

-- The last two fields are keys that the interface admits by its index signature (`none` where they
-- are `undefined`).
pub record UserReserveData (BN : Type 0) : Type 0 where
  pub scaled_a_token_balance : BN
  pub current_a_token_balance : BN
  pub current_stable_debt : BN
  pub current_variable_debt : BN
  pub principal_stable_debt : BN
  pub scaled_variable_debt : BN
  pub liquidity_rate : BN
  pub stable_borrow_rate : BN
  pub stable_rate_last_updated : BN
  pub usage_as_collateral_enabled : Bool
  pub wallet_balance : BN
  pub variable_borrow_index : Option BN
  pub principal_variable_debt : Option BN
