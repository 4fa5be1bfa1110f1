-- ===== src/Actions/Equality.antt =====
-- `almostEqualOrEqual` and `expectEqual` of actions.ts. The pairs of values stand in the order of the
-- keys of the data that was read; of these every value is there, so the first assertion holds. The
-- second, `expect(expected[key] != undefined, ...)`, asserts nothing.
use Prim.Native.String.{◌++◌ as ◌<>◌}
use text.Mathlib.Text.{◌==◌ as str_eq}
use code4rena_may.Base.{String, Bool, true, false, ◌||◌, not, List, [], ◌∷◌, if◌then◌else◌}
use code4rena_may.Base.Int.{ℤ, pos}
use code4rena_may.BigNumber.{BigNumber}
use code4rena_may.Effects.{Action, pure, throw, for_each}
use code4rena_may.Market.{ReserveData, ExpectedReserveData, UserReserveData}
use code4rena_may.Actions.{Chain}

-- `expected[key]` and `actual[key]`, by what they are.
pub data Comparison (BN : Type 0) : Type 0 where
  number : (expected : BN) (actual : BN) → Comparison BN
  other : (expected : String) (actual : String) → Comparison BN
  flag : (expected : Bool) (actual : Bool) → Comparison BN
  -- A key that is skipped.
  accessory : Comparison BN

abbrev pub bool_eq : Bool → Bool → Bool
bool_eq true b = b
bool_eq false b = not b

abbrev pub among : String → List String → Bool
among k [] = false
among k (j ∷ js) = str_eq k j || among k js

module _ (B : BigNumber) where
  open B use {BN, of_string, plus, decimal_places_down, eq}

  abbrev pub plus_int : BN → ℤ → BN
  plus_int x n = plus x (of_string n)

  abbrev pub almost_equal_or_equal : BN → BN → Bool
  almost_equal_or_equal expected actual =
      let a = decimal_places_down actual in
      let e = decimal_places_down expected in
      eq a e
      || eq (plus_int a (pos 1)) e
      || eq a (plus_int e (pos 1))
      || eq (plus_int a (pos 2)) e
      || eq a (plus_int e (pos 2))
      || eq (plus_int a (pos 3)) e
      || eq a (plus_int e (pos 3))

  -- What the assertion tests.
  unfoldable pub passes : Comparison BN → Bool
  passes (number expected actual) = almost_equal_or_equal expected actual
  passes (other expected actual) = str_eq actual expected
  passes (flag expected actual) = bool_eq actual expected
  passes accessory = true

  abbrev pub message : String → Comparison BN → String
  message key (number e a) =
      "expected #{act} to be almost equal or equal #{exp} for property " <> key
  message key _ = "expected #{act} to be equal #{exp} for property " <> key

  abbrev pub assert_key : {W : Type 0} → String × Comparison BN → Action W (Unit {0})
  assert_key (key, c) = if passes c then pure tt else throw (message key c)

  unfoldable pub compare_reserve :
      ReserveData BN → ExpectedReserveData BN → List (String × Comparison BN)
  compare_reserve a e =
      ("totalLiquidity", number e.total_liquidity a.total_liquidity)
      ∷ ("utilizationRate", number e.utilization_rate a.utilization_rate)
      ∷ ("availableLiquidity", number e.available_liquidity a.available_liquidity)
      ∷ ("totalStableDebt", number e.total_stable_debt a.total_stable_debt)
      ∷ ("totalVariableDebt", number e.total_variable_debt a.total_variable_debt)
      ∷ ("liquidityRate", number e.liquidity_rate a.liquidity_rate)
      ∷ ("variableBorrowRate", number e.variable_borrow_rate a.variable_borrow_rate)
      ∷ ("stableBorrowRate", number e.stable_borrow_rate a.stable_borrow_rate)
      ∷ (
        "averageStableBorrowRate",
        number e.average_stable_borrow_rate a.average_stable_borrow_rate,
      )
      ∷ ("liquidityIndex", number e.liquidity_index a.liquidity_index)
      ∷ ("variableBorrowIndex", number e.variable_borrow_index a.variable_borrow_index)
      ∷ ("lastUpdateTimestamp", accessory)
      ∷ ("totalStableDebtLastUpdated", accessory)
      ∷ ("principalStableDebt", number e.principal_stable_debt a.principal_stable_debt)
      ∷ ("scaledVariableDebt", number e.scaled_variable_debt a.scaled_variable_debt)
      ∷ ("address", other e.address a.address)
      ∷ ("aTokenAddress", accessory)
      ∷ ("symbol", accessory)
      ∷ ("decimals", accessory)
      ∷ ("marketStableRate", accessory)
      ∷ []

  unfoldable pub compare_user :
      UserReserveData BN → UserReserveData BN → List (String × Comparison BN)
  compare_user a e =
      ("scaledATokenBalance", number e.scaled_a_token_balance a.scaled_a_token_balance)
      ∷ ("currentATokenBalance", number e.current_a_token_balance a.current_a_token_balance)
      ∷ ("currentStableDebt", number e.current_stable_debt a.current_stable_debt)
      ∷ ("currentVariableDebt", number e.current_variable_debt a.current_variable_debt)
      ∷ ("principalStableDebt", number e.principal_stable_debt a.principal_stable_debt)
      ∷ ("scaledVariableDebt", number e.scaled_variable_debt a.scaled_variable_debt)
      ∷ ("stableBorrowRate", number e.stable_borrow_rate a.stable_borrow_rate)
      ∷ ("liquidityRate", number e.liquidity_rate a.liquidity_rate)
      ∷ (
        "usageAsCollateralEnabled",
        flag e.usage_as_collateral_enabled a.usage_as_collateral_enabled,
      )
      ∷ ("stableRateLastUpdated", number e.stable_rate_last_updated a.stable_rate_last_updated)
      ∷ ("walletBalance", number e.wallet_balance a.wallet_balance)
      ∷ []

  -- The keys that `...remained` leaves.
  abbrev pub without : List String → List (String × Comparison BN) → List (String × Comparison BN)
  without keys [] = []
  without keys ((k, c) ∷ cs) =
      let rest = without keys cs in if among k keys then rest else (k, c) ∷ rest

  module _ (C : Chain B) where
    unfoldable pub expect_equal : List (String × Comparison BN) → Action C.World (Unit {0})
    expect_equal cs = if C.skip_integrity_check then pure tt else for_each assert_key cs

    -- `expect(test).to.equal(true)`
    unfoldable pub expect_true : Bool → Action C.World (Unit {0})
    expect_true test = if test then pure tt else throw "expected false to equal true"
