-- ===== src/Calculations/Reserve/Accounting/Lent.antt =====
-- The data after a borrow at the variable rate add up.
use native.Mathlib.Nat.{le_trans}
use code4rena_may.Base.{ℕ, ◌+◌, ◌-◌, ◌≤◌, ◌<◌, ◌≡◌, ◌∙◌, ap, refl, some}
use code4rena_may.Base.Int.{pos}
use code4rena_may.BigNumber.{BigNumber, IsExact}
use code4rena_may.BigNumber.Laws.{nat, plus-nat, minus-nat}
use code4rena_may.Math.Numbers.{mul_ray, div_ray}
use code4rena_may.Math.Curve.{Curve, IsKinked, utilization_n, variable_rate_n}
use code4rena_may.Math.Exact.{ray_mul-nat, ray_div-nat}
use code4rena_may.Math.{ray_mul, ray_div}
use code4rena_may.Market.{SymbolMap, ReserveParams, ReserveData, ExpectedReserveData, lookup}
use code4rena_may.Market.RateMode.{variable}
use code4rena_may.Market.Embed.{reserve}
use code4rena_may.Calculations.Interest.{
  calc_expected_variable_borrow_index, calc_expected_reserve_normalized_debt,
}
use code4rena_may.Calculations.Interest.Indexes.{
  variable_index_n, normalized_debt_n, variable_index-nat, total_stable_debt-nat,
  normalized_debt-nat,
}
use code4rena_may.Calculations.Balances.Exact.{stable_balance_n, stable_balance-nat}
use code4rena_may.Calculations.Rates.{rates_of}
use code4rena_may.Calculations.Rates.Exact.{HasCurve, rates_of-nat}
use code4rena_may.Calculations.Reserve.Borrow.{
  after_variable_borrow, calc_expected_reserve_data_after_borrow,
}
use code4rena_may.Calculations.Reserve.Accounting.Settled.{
  IsSettled, returns, total_sv, utilization_at, settle,
}

module _ {B : BigNumber} (L : IsExact B) {c : Curve} (kinked : IsKinked c)
    (reserves_params : SymbolMap ReserveParams) (r : ReserveData ℕ) (params : ReserveParams)
    (found : lookup r.symbol reserves_params ≡ some params) (curve : HasCurve params.strategy c)
    (factor : ℕ) (ef : params.reserve_factor ≡ pos factor) (small : factor ≤ 10_000) (time now : ℕ)
    (h : r.last_update_timestamp ≤ time) (k : r.total_stable_debt_last_updated ≤ time)
    (later : time ≤ now) (amount : ℕ) (le : amount ≤ r.available_liquidity)
    (positive : 0 < variable_index_n r time) where
  -- The available liquidity, the debts and the variable rate right after the action.
  abbrev available_n : ℕ
  available_n = r.available_liquidity - amount

  abbrev stable_n : ℕ
  stable_n =
      stable_balance_n r.principal_stable_debt r.average_stable_borrow_rate
        r.total_stable_debt_last_updated time

  abbrev scaled_n : ℕ
  scaled_n = r.scaled_variable_debt + div_ray amount (variable_index_n r time)

  abbrev variable_n : ℕ
  variable_n = mul_ray scaled_n (variable_index_n r time)

  abbrev rate_n : ℕ
  rate_n =
      variable_rate_n c (utilization_n stable_n variable_n (available_n + stable_n + variable_n))

  rate_at :
      {x y z : B.BN} (u s v : ℕ)
      → x ≡ nat B u
      → y ≡ nat B s
      → z ≡ nat B v
      → (rates_of B params
          (nat B r.market_stable_rate)
          x
          y
          z
          (nat B r.average_stable_borrow_rate)).2
        ≡ nat B (variable_rate_n c u)
  rate_at {x} {y} {z} u s v hx hy hz =
      let m = nat B r.market_stable_rate in
      let average = nat B r.average_stable_borrow_rate in
      ap (λ t. (rates_of B params m t y z average).2) hx
      ∙ ap (λ t. (rates_of B params m (nat B u) t z average).2) hy
      ∙ ap (λ t. (rates_of B params m (nat B u) (nat B s) t average).2) hz
      ∙ ap (λ t. t.2)
          (rates_of-nat L kinked curve params factor refl ef small r.market_stable_rate u s v
            r.average_stable_borrow_rate)

  index_eq :
      calc_expected_variable_borrow_index B (reserve B r) (nat B time)
      ≡ nat B (variable_index_n r time)
  index_eq = variable_index-nat L r time h

  scaled_eq :
      B.plus (nat B r.scaled_variable_debt) (
        ray_div B (nat B amount) (calc_expected_variable_borrow_index B (reserve B r) (nat B time)))
      ≡ nat B scaled_n
  scaled_eq =
      ap (λ i. B.plus (nat B r.scaled_variable_debt) (ray_div B (nat B amount) i)) index_eq
      ∙ ap (B.plus (nat B r.scaled_variable_debt))
          (ray_div-nat L amount (variable_index_n r time) positive)
      ∙ plus-nat L r.scaled_variable_debt (div_ray amount (variable_index_n r time))

  times : {x y : B.BN} (a b : ℕ) → x ≡ nat B a → y ≡ nat B b → ray_mul B x y ≡ nat B (mul_ray a b)
  times {x} a b hx hy = ap (ray_mul B x) hy ∙ ap (λ t. ray_mul B t (nat B b)) hx ∙ ray_mul-nat L a b

  debt_at :
      {x y : B.BN} (rate i : ℕ)
      → x ≡ nat B rate
      → y ≡ nat B i
      → calc_expected_reserve_normalized_debt B x y (nat B time) (nat B now)
        ≡ nat B (normalized_debt_n rate i time now)
  debt_at {x} rate i hx hy =
      ap (λ t. calc_expected_reserve_normalized_debt B x t (nat B time) (nat B now)) hy
      ∙ ap (λ t. calc_expected_reserve_normalized_debt B t (nat B i) (nat B time) (nat B now)) hx
      ∙ normalized_debt-nat L rate i time now later

  -- At a time not before the last updates, where the reserve has the parameters of a curve with a
  -- kink strictly between zero and one ray and a reserve factor of at most one, the amount is at most the available liquidity
  -- and the accrued index is positive, borrowing at the variable rate takes the amount from the
  -- available liquidity, and the data add up at any time after the action.
  pub borrow_variable-IsSettled :
      (d : ExpectedReserveData B.BN) × (calc_expected_reserve_data_after_borrow B reserves_params
          (pos amount)
          variable
          (reserve B r)
          (nat B time)
          (nat B now)
        ≡ some d)
      × IsSettled B (r.available_liquidity - amount) d
  unfolding calc_expected_reserve_data_after_borrow after_variable_borrow
  borrow_variable-IsSettled =
      let i = variable_index_n r time in
      let available = minus-nat L r.available_liquidity amount le in
      let stable_then =
        stable_balance-nat L r.principal_stable_debt r.average_stable_borrow_rate
          r.total_stable_debt_last_updated time k in
      let variable_then = times scaled_n i scaled_eq index_eq in
      let used =
        utilization_at L available_n stable_n variable_n available stable_then variable_then
          (total_sv L available_n stable_n variable_n available stable_then variable_then) in
      let rate = rate_at _ stable_n variable_n used stable_then variable_then in
      let variable_now = times scaled_n _ scaled_eq (debt_at rate_n i rate index_eq) in
      let stable_now =
        total_stable_debt-nat L r.principal_stable_debt r.average_stable_borrow_rate
          r.total_stable_debt_last_updated now (le_trans k later) in
      (
        _,
        returns B reserves_params r.symbol params found _ _ _ _ _ _,
        settle L _ available_n _ _ available stable_now variable_now
            (total_sv L available_n _ _ available stable_now variable_now) refl,
      )
