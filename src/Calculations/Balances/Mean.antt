-- ===== src/Calculations/Balances/Mean.antt =====
-- The average rate of the stable debts is a weighted mean.
use native.Mathlib.Nat.{le-div_iff_mul-le, div-le_of_le-mul, mul-le-mul_right}
use code4rena_may.Base.{
  ℕ, ◌+◌, ◌*◌, ◌/◌, ◌≤◌, ◌<◌, ◌≡◌, arith, ◌==◌, false, Bool-cases, inl, inr, if◌then◌else◌,
}
use code4rena_may.BigNumber.{BigNumber, IsExact}
use code4rena_may.BigNumber.Laws.{nat, plus-nat, multiplied_by-nat, div-nat, eq-nat}
use code4rena_may.Calculations.Balances.{
  calc_expected_average_stable_borrow_rate, calc_expected_user_stable_rate,
}

abbrev mean_n : ℕ → ℕ → ℕ → ℕ → ℕ
mean_n a x b y = (a * x + b * y) / (x + y)

le_quotient : (q n d : ℕ) → 0 < d → q * d ≤ n → q ≤ n / d
le_quotient q n d h = (le-div_iff_mul-le h).1

mean-low : (low a x b y : ℕ) → 0 < x + y → low ≤ a → low ≤ b → low ≤ mean_n a x b y
mean-low low a x b y h ha hb =
    le_quotient low _ _ h (omega (arith, mul-le-mul_right x ha, mul-le-mul_right y hb))

mean-high : (high a x b y : ℕ) → a ≤ high → b ≤ high → mean_n a x b y ≤ high
mean-high high a x b y ha hb =
    div-le_of_le-mul (x + y) (omega (arith, mul-le-mul_right x ha, mul-le-mul_right y hb))

positive-ne : (n : ℕ) → 0 < n → (n == 0) ≡ false
positive-ne n h = ground arith

-- The average, with or without debt after the change.
abbrev pub average_n : ℕ → ℕ → ℕ → ℕ → ℕ
average_n rate debt amount rate_new =
    if debt + amount == 0 then 0 else mean_n rate debt rate_new amount

none-positive : (n : ℕ) → (n == 0) ≡ false → 0 < n
none-positive n h = ground arith

module _ {B : BigNumber} (L : IsExact B) where
  pub average-nat :
      (rate debt amount rate_new : ℕ)
      → calc_expected_average_stable_borrow_rate B
          (nat B rate)
          (nat B debt)
          (nat B amount)
          (nat B rate_new)
        ≡ nat B (average_n rate debt amount rate_new)
  unfolding calc_expected_average_stable_borrow_rate
  average-nat rate debt amount rate_new = elim (Bool-cases (debt + amount == 0)) [
    | inl e ↦
        simp
          (calc_expected_average_stable_borrow_rate, multiplied_by-nat L, plus-nat L, eq-nat L, e)
    | inr e ↦ simp (
      calc_expected_average_stable_borrow_rate,
      multiplied_by-nat L,
      plus-nat L,
      eq-nat L,
      e,
      L.decimal_places_down_int,
      λ (x : ℕ). div-nat L x (debt + amount) (none-positive (debt + amount) e),
    )
  ]

  -- When a natural number is added to a stable debt, and the sum is not zero, the average stable rate
  -- of a reserve and the stable rate of a user are one number, which lies between any bounds on the
  -- two rates that are averaged.
  pub average_rate-bounded :
      (low high rate debt rate_new amount : ℕ)
      → 0 < debt + amount
      → low ≤ rate
      → low ≤ rate_new
      → rate ≤ high
      → rate_new ≤ high
      → (m : ℕ) × (calc_expected_average_stable_borrow_rate B
            (nat B rate)
            (nat B debt)
            (nat B amount)
            (nat B rate_new)
          ≡ nat B m)
        × (calc_expected_user_stable_rate B
              (nat B debt)
              (nat B rate)
              (nat B amount)
              (nat B rate_new)
            ≡ nat B m)
        × (low ≤ m)
        × (m ≤ high)
  unfolding calc_expected_average_stable_borrow_rate calc_expected_user_stable_rate
  average_rate-bounded low high rate debt rate_new amount h l1 l2 h1 h2 =
      let order : debt * rate + amount * rate_new ≡ rate * debt + rate_new * amount = omega arith in
      (
        mean_n rate debt rate_new amount,
        simp (
          calc_expected_average_stable_borrow_rate,
          multiplied_by-nat L,
          plus-nat L,
          eq-nat L,
          positive-ne (debt + amount) h,
          L.decimal_places_down_int,
          λ (x : ℕ). div-nat L x (debt + amount) h,
        ),
        simp (
          calc_expected_user_stable_rate,
          multiplied_by-nat L,
          plus-nat L,
          order,
          λ (x : ℕ). div-nat L x (debt + amount) h,
        ),
        mean-low low rate debt rate_new amount h l1 l2,
        mean-high high rate debt rate_new amount h1 h2,
      )
