-- ===== src/BigNumber/Laws.antt =====
-- The laws of the library at natural numbers, in the form that the calculations use.
use code4rena_may.Base.{ℕ, ◌+◌, ◌-◌, ◌*◌, ◌/◌, ◌≤◌, ◌<◌, ◌≡◌, ◌≢◌, ◌∙◌, ap, arith, ltb, ◌==◌}
use code4rena_may.Base.Int.{pos, ◌+ℤ◌, ◌-ℤ◌, ◌*ℤ◌, quot_ℤ, eq_ℤ, lt_ℤ}
use code4rena_may.BigNumber.{BigNumber, IsExact}

abbrev pub nat : (B : BigNumber) → ℕ → B.BN
nat B n = B.of_string (pos n)

pos_add : (a b : ℕ) → pos a +ℤ pos b ≡ pos (a + b)
pos_add a b = ground arith

pos_sub : (a b : ℕ) → b ≤ a → pos a -ℤ pos b ≡ pos (a - b)
pos_sub a b h = ground arith

pos_mul : (a b : ℕ) → pos a *ℤ pos b ≡ pos (a * b)
pos_mul a b = ground arith

pos_quot : (a b : ℕ) → quot_ℤ (pos a) (pos b) ≡ pos (a / b)
pos_quot a b = ground arith

pos_ne_zero : (b : ℕ) → 0 < b → pos b ≢ pos 0
pos_ne_zero b h = ground arith

pos_eq : (a b : ℕ) → eq_ℤ (pos a) (pos b) ≡ (a == b)
pos_eq a b = ground arith

pos_lt : (a b : ℕ) → lt_ℤ (pos a) (pos b) ≡ ltb a b
pos_lt a b = ground arith

module _ {B : BigNumber} (L : IsExact B) where
  pub plus-nat : (a b : ℕ) → B.plus (nat B a) (nat B b) ≡ nat B (a + b)
  plus-nat a b = L.plus_int (pos a) (pos b) ∙ ap B.of_string (pos_add a b)

  pub minus-nat : (a b : ℕ) → b ≤ a → B.minus (nat B a) (nat B b) ≡ nat B (a - b)
  minus-nat a b h = L.minus_int (pos a) (pos b) ∙ ap B.of_string (pos_sub a b h)

  pub multiplied_by-nat : (a b : ℕ) → B.multiplied_by (nat B a) (nat B b) ≡ nat B (a * b)
  multiplied_by-nat a b = L.multiplied_by_int (pos a) (pos b) ∙ ap B.of_string (pos_mul a b)

  pub div-nat : (a b : ℕ) → 0 < b → B.div (nat B a) (nat B b) ≡ nat B (a / b)
  div-nat a b h = L.div_int (pos a) (pos b) (pos_ne_zero b h) ∙ ap B.of_string (pos_quot a b)

  pub decimal_places_down-nat : (a : ℕ) → B.decimal_places_down (nat B a) ≡ nat B a
  decimal_places_down-nat a = L.decimal_places_down_int (pos a)

  pub eq-nat : (a b : ℕ) → B.eq (nat B a) (nat B b) ≡ (a == b)
  eq-nat a b = L.eq_int (pos a) (pos b) ∙ pos_eq a b

  pub lt-nat : (a b : ℕ) → B.lt (nat B a) (nat B b) ≡ ltb a b
  lt-nat a b = L.lt_int (pos a) (pos b) ∙ pos_lt a b

  pub gt-nat : (a b : ℕ) → B.gt (nat B a) (nat B b) ≡ ltb b a
  gt-nat a b = L.gt_int (pos a) (pos b) ∙ pos_lt b a
