-- ===== src/Calculations/Interest/Growth.antt =====
-- Interest never shrinks an index or a balance.
use native.Mathlib.Nat.{mul-le-mul, mul-le-mul_left, mul-le-mul_right, le_trans}
use code4rena_may.Base.{
  ℕ, ◌/◌, ◌-◌, ◌*◌, ◌≤◌, ◌≡◌, arith, ◌==◌, Bool, true, false, Bool-cases, inl, inr,
}
use code4rena_may.BigNumber.{BigNumber, IsExact}
use code4rena_may.BigNumber.Laws.{nat}
use code4rena_may.Math.Numbers.{ray_n, mul_ray, minus_two, linear_n, binomial_n, compounded_n}
use code4rena_may.Math.Rounding.{le-mul_ray, div_mono, mul_ray_mono_left}
use code4rena_may.Market.{ReserveData}
use code4rena_may.Market.Embed.{reserve}
use code4rena_may.Calculations.Interest.{
  calc_expected_liquidity_index, calc_expected_variable_borrow_index,
  calc_expected_reserve_normalized_income, calc_expected_total_stable_debt,
}
use code4rena_may.Calculations.Interest.Indexes.{
  accrued_n, liquidity_index_n, normalized_income_n, variable_index_n, stable_debt_n,
  liquidity_index-nat, normalized_income-nat, variable_index-nat, total_stable_debt-nat,
}

linear-le : (rate t : ℕ) → ray_n ≤ linear_n rate t
linear-le rate t = omega arith

pub compounded-le : (rate t : ℕ) → ray_n ≤ compounded_n rate t
compounded-le rate t = elim (Bool-cases (t == 0)) [ inl e ↦ ground arith | inr e ↦ ground arith ]

accrued-le : (b : Bool) (factor index : ℕ) → ray_n ≤ factor → index ≤ accrued_n b factor index
accrued-le true factor index h = omega arith
accrued-le false factor index h = le-mul_ray factor index h

div_mul_mono : (a b c d m : ℕ) → a ≤ b → c ≤ d → a * c * m ≤ b * d * m
div_mul_mono a b c d m h k = mul-le-mul_right m (mul-le-mul h k)

minus_two_mono : (t s : ℕ) → t ≤ s → minus_two t ≤ minus_two s
minus_two_mono t s h = ground arith

linear_mono : (rate t s : ℕ) → t ≤ s → linear_n rate t ≤ linear_n rate s
linear_mono rate t s h =
    omega (arith, div_mono (rate * t) (rate * s) 31_536_000 (mul-le-mul_left rate h))

pairs_mono : (t s : ℕ) → t ≤ s → t * (t - 1) ≤ s * (s - 1)
pairs_mono t s h = mul-le-mul h (omega arith)

binomial_mono : (x t s : ℕ) → t ≤ s → binomial_n x t ≤ binomial_n x s
binomial_mono x t s h =
    let p2 = mul_ray x x in
    let p3 = mul_ray (mul_ray x x) x in
    let pairs = pairs_mono t s h in
    let first = mul-le-mul_left x h in
    let second = div_mono _ _ 2 (mul-le-mul_right p2 pairs) in
    let third = div_mono _ _ 6 (div_mul_mono _ _ _ _ p3 pairs (minus_two_mono t s h)) in
    omega (arith, first, second, third)

running : (rate t : ℕ) → (t == 0) ≡ false → compounded_n rate t ≡ binomial_n (rate / 31_536_000) t
running rate t e = simp (e)

later : (t s : ℕ) → t ≤ s → (t == 0) ≡ false → (s == 0) ≡ false
later t s h e = ground arith

compounded_mono : (rate t s : ℕ) → t ≤ s → compounded_n rate t ≤ compounded_n rate s
compounded_mono rate t s h = elim (Bool-cases (t == 0)) [
  | inl e ↦ ground (arith, compounded-le rate s)
  | inr e ↦
      rw (running rate t e)
        (rw (running rate s (later t s h e)) (binomial_mono (rate / 31_536_000) t s h))
]

accrued_mono : (b : Bool) (f g index : ℕ) → f ≤ g → accrued_n b f index ≤ accrued_n b g index
accrued_mono true f g index h = omega arith
accrued_mono false f g index h = mul_ray_mono_left f g index h

module _ {B : BigNumber} (L : IsExact B) where
  -- At a time that is not before the last update, the liquidity index and the normalized income
  -- are at least the index of the reserve.
  pub liquidity_index-grows :
      (r : ReserveData ℕ) (now : ℕ)
      → r.last_update_timestamp ≤ now
      → (i : ℕ) × (n : ℕ) × (calc_expected_liquidity_index B (reserve B r) (nat B now) ≡ nat B i)
        × (calc_expected_reserve_normalized_income B (reserve B r) (nat B now) ≡ nat B n)
        × (r.liquidity_index ≤ i)
        × (r.liquidity_index ≤ n)
  liquidity_index-grows r now h =
      let grows = linear-le r.liquidity_rate (now - r.last_update_timestamp) in
      (
        liquidity_index_n r now,
        normalized_income_n r now,
        liquidity_index-nat L r now h,
        normalized_income-nat L r now h,
        accrued-le (r.utilization_rate == 0) _ r.liquidity_index grows,
        accrued-le (r.liquidity_rate == 0) _ r.liquidity_index grows,
      )

  -- At a time that is not before the last update, the variable borrow index is at least the index of
  -- the reserve, and it does not fall as the time goes on.
  pub variable_index-grows :
      (r : ReserveData ℕ) (now later : ℕ)
      → r.last_update_timestamp ≤ now
      → now ≤ later
      → (i : ℕ) × (j : ℕ) × (calc_expected_variable_borrow_index B (reserve B r) (nat B now)
          ≡ nat B i)
        × (calc_expected_variable_borrow_index B (reserve B r) (nat B later) ≡ nat B j)
        × (r.variable_borrow_index ≤ i)
        × (i ≤ j)
  variable_index-grows r now later h k =
      let last = r.last_update_timestamp in
      (
        variable_index_n r now,
        variable_index_n r later,
        variable_index-nat L r now h,
        variable_index-nat L r later (le_trans h k),
        accrued-le (r.total_variable_debt == 0) _ r.variable_borrow_index
            (compounded-le r.variable_borrow_rate (now - last)),
        accrued_mono (r.total_variable_debt == 0) _ _ r.variable_borrow_index
            (compounded_mono r.variable_borrow_rate (now - last) (later - last) (omega arith)),
      )

  -- At a time that is not before the last update, the total stable debt is at least the principal,
  -- and it does not fall as the time goes on.
  pub total_stable_debt-grows :
      (principal rate last now later : ℕ)
      → last ≤ now
      → now ≤ later
      → (d : ℕ) × (e : ℕ) × (calc_expected_total_stable_debt B
            (nat B principal)
            (nat B rate)
            (nat B last)
            (nat B now)
          ≡ nat B d)
        × (calc_expected_total_stable_debt B
              (nat B principal)
              (nat B rate)
              (nat B last)
              (nat B later)
            ≡ nat B e)
        × (principal ≤ d)
        × (d ≤ e)
  total_stable_debt-grows principal rate last now later h k = (
    stable_debt_n principal rate last now,
    stable_debt_n principal rate last later,
    total_stable_debt-nat L principal rate last now h,
    total_stable_debt-nat L principal rate last later (le_trans h k),
    le-mul_ray _ principal (compounded-le rate (now - last)),
    mul_ray_mono_left _ _ principal
        (compounded_mono rate (now - last) (later - last) (omega arith)),
  )
