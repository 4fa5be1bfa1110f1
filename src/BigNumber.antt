-- ===== src/BigNumber.antt =====
-- The library bignumber.js, which the calculations call and which is not part of the repository: a
-- parameter of the model. A string or a number that the code hands to it is always the canonical
-- decimal form of an integer, and stands here as that integer.
pub mod Laws
pub mod Concrete
use code4rena_may.Base.{ℕ, ◌+◌, ◌^◌, ◌≡◌, ◌≢◌, Bool, not}
use code4rena_may.Base.Int.{ℤ, pos, ◌+ℤ◌, ◌-ℤ◌, ◌*ℤ◌, neg_ℤ, abs_ℕ, quot_ℤ, eq_ℤ, lt_ℤ}

-- The methods that the code calls.
pub record BigNumber : Type 1 where
  pub BN : Type 0
  -- `new BigNumber(s)`
  pub of_string : ℤ → BN
  pub plus : BN → BN → BN
  pub minus : BN → BN → BN
  pub multiplied_by : BN → BN → BN
  -- `x.multipliedBy(0.5)`
  pub halved : BN → BN
  pub div : BN → BN → BN
  pub exponentiated_by : BN → ℕ → BN
  -- `decimalPlaces(0)` and `decimalPlaces(0, BigNumber.ROUND_DOWN)`
  pub decimal_places : BN → BN
  pub decimal_places_down : BN → BN
  pub negated : BN → BN
  pub abs : BN → BN
  pub eq : BN → BN → Bool
  pub lt : BN → BN → Bool
  pub gt : BN → BN → Bool
  pub lte : BN → BN → Bool
  -- `toFixed(0)`, `toFixed()` and `toString()`
  pub to_fixed0 : BN → ℤ
  pub to_fixed : BN → ℤ
  pub to_string : BN → ℤ

-- What the documentation of bignumber.js promises at integers, under the setting
-- `BigNumber.config({ DECIMAL_PLACES: 0, ROUNDING_MODE: BigNumber.ROUND_DOWN })` that the scenario
-- suites make: sums, differences and products are exact, and a division is rounded towards zero.
-- Nothing is assumed of a division by zero.
pub record IsExact (B : BigNumber) : Type 0 where
  pub plus_int : (a b : ℤ) → B.plus (B.of_string a) (B.of_string b) ≡ B.of_string (a +ℤ b)
  pub minus_int : (a b : ℤ) → B.minus (B.of_string a) (B.of_string b) ≡ B.of_string (a -ℤ b)
  pub multiplied_by_int :
      (a b : ℤ) → B.multiplied_by (B.of_string a) (B.of_string b) ≡ B.of_string (a *ℤ b)
  pub halved_int : (n : ℕ) → B.halved (B.of_string (pos (n + n))) ≡ B.of_string (pos n)
  pub div_int :
      (a b : ℤ) → b ≢ pos 0 → B.div (B.of_string a) (B.of_string b) ≡ B.of_string (quot_ℤ a b)
  pub exponentiated_by_int :
      (a n : ℕ) → B.exponentiated_by (B.of_string (pos a)) n ≡ B.of_string (pos (a ^ n))
  pub decimal_places_int : (a : ℤ) → B.decimal_places (B.of_string a) ≡ B.of_string a
  pub decimal_places_down_int : (a : ℤ) → B.decimal_places_down (B.of_string a) ≡ B.of_string a
  pub negated_int : (a : ℤ) → B.negated (B.of_string a) ≡ B.of_string (neg_ℤ a)
  pub abs_int : (a : ℤ) → B.abs (B.of_string a) ≡ B.of_string (pos (abs_ℕ a))
  pub eq_int : (a b : ℤ) → B.eq (B.of_string a) (B.of_string b) ≡ eq_ℤ a b
  pub lt_int : (a b : ℤ) → B.lt (B.of_string a) (B.of_string b) ≡ lt_ℤ a b
  pub gt_int : (a b : ℤ) → B.gt (B.of_string a) (B.of_string b) ≡ lt_ℤ b a
  pub lte_int : (a b : ℤ) → B.lte (B.of_string a) (B.of_string b) ≡ not (lt_ℤ b a)
  pub to_fixed0_int : (a : ℤ) → B.to_fixed0 (B.of_string a) ≡ a
  pub to_fixed_int : (a : ℤ) → B.to_fixed (B.of_string a) ≡ a
  pub to_string_int : (a : ℤ) → B.to_string (B.of_string a) ≡ a
