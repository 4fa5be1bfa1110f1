-- ===== src/Actions/Tolerance.antt =====
-- The tolerance of the comparisons.
use code4rena_may.Base.{ℕ, ◌+◌, ◌≡◌, ◌∙◌, sym, arith, ◌||◌, leb, ◌==◌}
use code4rena_may.Base.Int.{ℤ, pos, negsuc, ◌+ℤ◌, ◌-ℤ◌, eq_ℤ, abs_ℕ, pos_part, neg_part}
use code4rena_may.BigNumber.{BigNumber, IsExact}
use code4rena_may.Actions.Equality.{almost_equal_or_equal}

eq_shift :
    (a b : ℤ) (k : ℕ)
    → eq_ℤ (a +ℤ pos k) b ≡ (pos_part a + neg_part b + k == pos_part b + neg_part a)
eq_shift (pos a) (pos b) k = ground arith
eq_shift (negsuc a) (pos b) k = ground arith
eq_shift (pos a) (negsuc b) k = ground arith
eq_shift (negsuc a) (negsuc b) k = ground arith

shift_eq :
    (a b : ℤ) (k : ℕ)
    → eq_ℤ a (b +ℤ pos k) ≡ (pos_part a + neg_part b == pos_part b + neg_part a + k)
shift_eq (pos a) (pos b) k = ground arith
shift_eq (negsuc a) (pos b) k = ground arith
shift_eq (pos a) (negsuc b) k = ground arith
shift_eq (negsuc a) (negsuc b) k = ground arith

abs_within :
    (a b : ℤ)
    → leb (abs_ℕ (a -ℤ b)) 3
      ≡ leb (abs_ℕ (pos (pos_part a + neg_part b) -ℤ pos (pos_part b + neg_part a))) 3
abs_within a b = ground arith

near :
    (x y : ℕ)
    → ((x == y)
        || (x + 1 == y)
        || (x == y + 1)
        || (x + 2 == y)
        || (x == y + 2)
        || (x + 3 == y)
        || (x == y + 3))
      ≡ leb (abs_ℕ (pos x -ℤ pos y)) 3
near x y = ground arith

module _ {B : BigNumber} (L : IsExact B) where
  -- Two integers are almost equal or equal if and only if they differ by at most 3.
  pub almost_equal_or_equal-within :
      (e a : ℤ) → almost_equal_or_equal B (B.of_string e) (B.of_string a) ≡ leb (abs_ℕ (a -ℤ e)) 3
  almost_equal_or_equal-within e a =
      simp (L.decimal_places_down_int, L.plus_int, L.eq_int, eq_shift, shift_eq)
        (near (pos_part a + neg_part e) (pos_part e + neg_part a) ∙ sym (abs_within a e))
