-- ===== src/Calculations/Interest/Exact.antt =====
-- The interest at natural numbers, with the clock not before the last update.
use code4rena_may.Base.{
  ℕ, ◌-◌, ◌/◌, ◌≤◌, ◌<◌, ◌≡◌, arith, ltb, ◌==◌, true, false, Bool-cases, inl, inr,
}
use code4rena_may.BigNumber.{BigNumber, IsExact}
use code4rena_may.BigNumber.Laws.{
  nat, plus-nat, minus-nat, multiplied_by-nat, div-nat, eq-nat, gt-nat,
}
use code4rena_may.Constants.{ray_value}
use code4rena_may.Math.Numbers.{linear_n, compounded_n}
use code4rena_may.Math.Exact.{ray_mul-nat}
use code4rena_may.Calculations.Interest.{calc_linear_interest, calc_compounded_interest}

year_pos : 0 < 31_536_000
year_pos = omega arith

two_pos : 0 < 2
two_pos = omega arith

six_pos : 0 < 6
six_pos = omega arith

one-le : (t : ℕ) → (t == 0) ≡ false → 1 ≤ t
one-le t e = ground arith

two-le : (t : ℕ) → ltb 2 t ≡ true → 2 ≤ t
two-le t e = ground arith

module _ {B : BigNumber} (L : IsExact B) where
  div_year : (a : ℕ) → B.div (nat B a) (nat B 31_536_000) ≡ nat B (a / 31_536_000)
  div_year a = div-nat L a 31_536_000 year_pos

  div_two : (a : ℕ) → B.div (nat B a) (nat B 2) ≡ nat B (a / 2)
  div_two a = div-nat L a 2 two_pos

  div_six : (a : ℕ) → B.div (nat B a) (nat B 6) ≡ nat B (a / 6)
  div_six a = div-nat L a 6 six_pos

  pub linear-nat :
      (rate now last : ℕ)
      → last ≤ now
      → calc_linear_interest B (nat B rate) (nat B now) (nat B last)
        ≡ nat B (linear_n rate (now - last))
  unfolding calc_linear_interest
  linear-nat rate now last h = simp (
    calc_linear_interest,
    minus-nat L now last h,
    multiplied_by-nat L,
    div_year,
    ray_value L,
    plus-nat L,
  )

  pub compounded-nat :
      (rate now last : ℕ)
      → last ≤ now
      → calc_compounded_interest B (nat B rate) (nat B now) (nat B last)
        ≡ nat B (compounded_n rate (now - last))
  unfolding calc_compounded_interest
  compounded-nat rate now last h =
      let t = now - last in
      elim (Bool-cases (t == 0)) [
        | inl e ↦ simp (calc_compounded_interest, minus-nat L now last h, eq-nat L, e, ray_value L)
        | inr e ↦ elim (Bool-cases (ltb 2 t)) [
          | inl f ↦ simp (
            calc_compounded_interest,
            minus-nat L now last h,
            eq-nat L,
            gt-nat L,
            e,
            f,
            minus-nat L t 1 (one-le t e),
            minus-nat L t 2 (two-le t f),
            div_year,
            ray_mul-nat L,
            multiplied_by-nat L,
            ray_value L,
            plus-nat L,
            div_two,
            div_six,
          )
          | inr f ↦ simp (
            calc_compounded_interest,
            minus-nat L now last h,
            eq-nat L,
            gt-nat L,
            e,
            f,
            minus-nat L t 1 (one-le t e),
            div_year,
            ray_mul-nat L,
            multiplied_by-nat L,
            ray_value L,
            plus-nat L,
            div_two,
            div_six,
          )
        ]
      ]
