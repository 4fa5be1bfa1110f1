-- ===== src/BigNumber/Concrete.antt =====
-- The integers are an instance of the interface, and meet what is assumed of it.
use code4rena_may.Base.{ℕ, ◌+◌, ◌^◌, ◌≡◌, refl, arith, not}
use code4rena_may.Base.Int.{ℤ, pos, pos_part, ◌+ℤ◌, ◌-ℤ◌, ◌*ℤ◌, neg_ℤ, abs_ℕ, quot_ℤ, eq_ℤ, lt_ℤ}
use code4rena_may.BigNumber.{BigNumber, IsExact}

abbrev pub integers : BigNumber
integers = record {
  BN = ℤ;
  of_string = λ a. a;
  plus = λ a b. a +ℤ b;
  minus = λ a b. a -ℤ b;
  multiplied_by = λ a b. a *ℤ b;
  halved = λ a. quot_ℤ a (pos 2);
  div = λ a b. quot_ℤ a b;
  exponentiated_by = λ a n. pos (pos_part a ^ n);
  decimal_places = λ a. a;
  decimal_places_down = λ a. a;
  negated = neg_ℤ;
  abs = λ a. pos (abs_ℕ a);
  eq = eq_ℤ;
  lt = lt_ℤ;
  gt = λ a b. lt_ℤ b a;
  lte = λ a b. not (lt_ℤ b a);
  to_fixed0 = λ a. a;
  to_fixed = λ a. a;
  to_string = λ a. a;
}

halves : (n : ℕ) → quot_ℤ (pos (n + n)) (pos 2) ≡ pos n
halves n = ground arith

pub integers-IsExact : IsExact integers
integers-IsExact = record {
  plus_int = λ a b. refl;
  minus_int = λ a b. refl;
  multiplied_by_int = λ a b. refl;
  halved_int = halves;
  div_int = λ a b h. refl;
  exponentiated_by_int = λ a n. refl;
  decimal_places_int = λ a. refl;
  decimal_places_down_int = λ a. refl;
  negated_int = λ a. refl;
  abs_int = λ a. refl;
  eq_int = λ a b. refl;
  lt_int = λ a b. refl;
  gt_int = λ a b. refl;
  lte_int = λ a b. refl;
  to_fixed0_int = λ a. refl;
  to_fixed_int = λ a. refl;
  to_string_int = λ a. refl;
}
