-- ===== src/Calculations/Balances/Exact.antt =====
-- The balances at natural numbers.
use code4rena_may.Base.{
  ℕ, ◌+◌, ◌-◌, ◌≤◌, ◌<◌, ◌≡◌, ◌∙◌, ap, ◌==◌, ◌||◌, if◌then◌else◌, Bool-cases, inl, inr,
}
use code4rena_may.BigNumber.{BigNumber, IsExact}
use code4rena_may.BigNumber.Laws.{nat, plus-nat, minus-nat, eq-nat}
use code4rena_may.Math.Numbers.{mul_ray, div_ray, compounded_n}
use code4rena_may.Math.Exact.{ray_mul-nat, ray_div-nat}
use code4rena_may.Math.{ray_mul}
use code4rena_may.Market.{ReserveData, UserReserveData}
use code4rena_may.Market.Embed.{reserve, user}
use code4rena_may.Calculations.Interest.Exact.{compounded-nat}
use code4rena_may.Calculations.Interest.Indexes.{
  normalized_income_n, normalized_debt_n, normalized_income-nat, normalized_debt-nat,
}
use code4rena_may.Calculations.Balances.{
  calc_expected_scaled_a_token_balance, calc_expected_a_token_balance,
  calc_expected_variable_debt_token_balance, calc_expected_stable_debt_token_balance,
}

abbrev pub a_token_balance_n : ReserveData ℕ → UserReserveData ℕ → ℕ → ℕ
a_token_balance_n r u now = mul_ray u.scaled_a_token_balance (normalized_income_n r now)

abbrev pub variable_balance_n : ReserveData ℕ → UserReserveData ℕ → ℕ → ℕ
variable_balance_n r u now =
    mul_ray u.scaled_variable_debt
      (normalized_debt_n r.variable_borrow_rate r.variable_borrow_index r.last_update_timestamp now)

abbrev pub stable_balance_n : ℕ → ℕ → ℕ → ℕ → ℕ
stable_balance_n principal rate last now =
    if rate == 0 || now == last || last == 0
    then principal
    else mul_ray principal (compounded_n rate (now - last))

module _ {B : BigNumber} (L : IsExact B) where
  pub a_token_balance-nat :
      (r : ReserveData ℕ) (u : UserReserveData ℕ) (now : ℕ)
      → r.last_update_timestamp ≤ now
      → calc_expected_a_token_balance B (reserve B r) (user B u) (nat B now)
        ≡ nat B (a_token_balance_n r u now)
  unfolding calc_expected_a_token_balance
  a_token_balance-nat r u now h =
      ap (ray_mul B (nat B u.scaled_a_token_balance)) (normalized_income-nat L r now h)
      ∙ ray_mul-nat L u.scaled_a_token_balance (normalized_income_n r now)

  pub variable_balance-nat :
      (r : ReserveData ℕ) (u : UserReserveData ℕ) (now : ℕ)
      → r.last_update_timestamp ≤ now
      → calc_expected_variable_debt_token_balance B (reserve B r) (user B u) (nat B now)
        ≡ nat B (variable_balance_n r u now)
  unfolding calc_expected_variable_debt_token_balance
  variable_balance-nat r u now h =
      ap (ray_mul B (nat B u.scaled_variable_debt)) (
        normalized_debt-nat L r.variable_borrow_rate r.variable_borrow_index r.last_update_timestamp
          now h)
      ∙ ray_mul-nat L u.scaled_variable_debt _

  pub stable_balance-nat :
      (principal rate last now : ℕ)
      → last ≤ now
      → calc_expected_stable_debt_token_balance B
          (nat B principal)
          (nat B rate)
          (nat B last)
          (nat B now)
        ≡ nat B (stable_balance_n principal rate last now)
  unfolding calc_expected_stable_debt_token_balance
  stable_balance-nat principal rate last now h =
      elim (Bool-cases (rate == 0 || now == last || last == 0)) [
        | inl e ↦ simp (calc_expected_stable_debt_token_balance, eq-nat L, e)
        | inr e ↦ simp (
          calc_expected_stable_debt_token_balance,
          eq-nat L,
          e,
          compounded-nat L rate now last h,
          ray_mul-nat L,
        )
      ]

  pub scaled-nat :
      (u : UserReserveData ℕ) (i added taken : ℕ)
      → 0 < i
      → div_ray taken i ≤ u.scaled_a_token_balance + div_ray added i
      → calc_expected_scaled_a_token_balance B (user B u) (nat B i) (nat B added) (nat B taken)
        ≡ nat B (u.scaled_a_token_balance + div_ray added i - div_ray taken i)
  unfolding calc_expected_scaled_a_token_balance
  scaled-nat u i added taken h le = simp (
    calc_expected_scaled_a_token_balance,
    ray_div-nat L added i h,
    ray_div-nat L taken i h,
    plus-nat L,
    minus-nat L (u.scaled_a_token_balance + div_ray added i) (div_ray taken i) le,
  )
