-- ===== src/Calculations/Interest/Indexes.antt =====
-- The indexes and the accrued debts at natural numbers.
use code4rena_may.Base.{ℕ, ◌-◌, ◌≤◌, ◌≡◌, ◌==◌, if◌then◌else◌, Bool, Bool-cases, inl, inr}
use code4rena_may.BigNumber.{BigNumber, IsExact}
use code4rena_may.BigNumber.Laws.{nat, eq-nat}
use code4rena_may.Math.Numbers.{mul_ray, linear_n, compounded_n}
use code4rena_may.Math.Exact.{ray_mul-nat}
use code4rena_may.Market.{ReserveData}
use code4rena_may.Market.Embed.{reserve}
use code4rena_may.Calculations.Interest.{
  calc_expected_liquidity_index, calc_expected_variable_borrow_index,
  calc_expected_reserve_normalized_income, calc_expected_reserve_normalized_debt,
  calc_expected_total_stable_debt,
}
use code4rena_may.Calculations.Interest.Exact.{linear-nat, compounded-nat}

-- An index after it has accrued at a factor, unless it is idle.
abbrev pub accrued_n : Bool → ℕ → ℕ → ℕ
accrued_n idle factor index = if idle then index else mul_ray factor index

abbrev pub liquidity_index_n : ReserveData ℕ → ℕ → ℕ
liquidity_index_n r now =
    accrued_n (r.utilization_rate == 0) (linear_n r.liquidity_rate (now - r.last_update_timestamp))
      r.liquidity_index

abbrev pub normalized_income_n : ReserveData ℕ → ℕ → ℕ
normalized_income_n r now =
    accrued_n (r.liquidity_rate == 0) (linear_n r.liquidity_rate (now - r.last_update_timestamp))
      r.liquidity_index

abbrev pub variable_index_n : ReserveData ℕ → ℕ → ℕ
variable_index_n r now =
    accrued_n (r.total_variable_debt == 0)
      (compounded_n r.variable_borrow_rate (now - r.last_update_timestamp)) r.variable_borrow_index

abbrev pub normalized_debt_n : ℕ → ℕ → ℕ → ℕ → ℕ
normalized_debt_n rate index last now = accrued_n (rate == 0) (compounded_n rate (now - last)) index

abbrev pub stable_debt_n : ℕ → ℕ → ℕ → ℕ → ℕ
stable_debt_n principal rate last now = mul_ray (compounded_n rate (now - last)) principal

module _ {B : BigNumber} (L : IsExact B) where
  pub liquidity_index-nat :
      (r : ReserveData ℕ) (now : ℕ)
      → r.last_update_timestamp ≤ now
      → calc_expected_liquidity_index B (reserve B r) (nat B now) ≡ nat B (liquidity_index_n r now)
  unfolding calc_expected_liquidity_index
  liquidity_index-nat r now h = elim (Bool-cases (r.utilization_rate == 0)) [
    | inl e ↦ simp (calc_expected_liquidity_index, eq-nat L, e)
    | inr e ↦ simp (
      calc_expected_liquidity_index,
      eq-nat L,
      e,
      linear-nat L r.liquidity_rate now r.last_update_timestamp h,
      ray_mul-nat L,
    )
  ]

  pub normalized_income-nat :
      (r : ReserveData ℕ) (now : ℕ)
      → r.last_update_timestamp ≤ now
      → calc_expected_reserve_normalized_income B (reserve B r) (nat B now)
        ≡ nat B (normalized_income_n r now)
  unfolding calc_expected_reserve_normalized_income
  normalized_income-nat r now h = elim (Bool-cases (r.liquidity_rate == 0)) [
    | inl e ↦ simp (calc_expected_reserve_normalized_income, eq-nat L, e)
    | inr e ↦ simp (
      calc_expected_reserve_normalized_income,
      eq-nat L,
      e,
      linear-nat L r.liquidity_rate now r.last_update_timestamp h,
      ray_mul-nat L,
    )
  ]

  pub variable_index-nat :
      (r : ReserveData ℕ) (now : ℕ)
      → r.last_update_timestamp ≤ now
      → calc_expected_variable_borrow_index B (reserve B r) (nat B now)
        ≡ nat B (variable_index_n r now)
  unfolding calc_expected_variable_borrow_index
  variable_index-nat r now h = elim (Bool-cases (r.total_variable_debt == 0)) [
    | inl e ↦ simp (calc_expected_variable_borrow_index, eq-nat L, e)
    | inr e ↦ simp (
      calc_expected_variable_borrow_index,
      eq-nat L,
      e,
      compounded-nat L r.variable_borrow_rate now r.last_update_timestamp h,
      ray_mul-nat L,
    )
  ]

  pub normalized_debt-nat :
      (rate index last now : ℕ)
      → last ≤ now
      → calc_expected_reserve_normalized_debt B (nat B rate) (nat B index) (nat B last) (nat B now)
        ≡ nat B (normalized_debt_n rate index last now)
  unfolding calc_expected_reserve_normalized_debt
  normalized_debt-nat rate index last now h = elim (Bool-cases (rate == 0)) [
    | inl e ↦ simp (calc_expected_reserve_normalized_debt, eq-nat L, e)
    | inr e ↦ simp (
      calc_expected_reserve_normalized_debt,
      eq-nat L,
      e,
      compounded-nat L rate now last h,
      ray_mul-nat L,
    )
  ]

  pub total_stable_debt-nat :
      (principal rate last now : ℕ)
      → last ≤ now
      → calc_expected_total_stable_debt B (nat B principal) (nat B rate) (nat B last) (nat B now)
        ≡ nat B (stable_debt_n principal rate last now)
  unfolding calc_expected_total_stable_debt
  total_stable_debt-nat principal rate last now h =
      simp (calc_expected_total_stable_debt, compounded-nat L rate now last h, ray_mul-nat L)
