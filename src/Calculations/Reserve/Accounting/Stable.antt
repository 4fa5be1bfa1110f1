-- ===== src/Calculations/Reserve/Accounting/Stable.antt =====
-- The data after a borrow at the stable rate add up.
use code4rena_may.Base.{ℕ, ◌+◌, ◌-◌, ◌≤◌, ◌≡◌, ◌∙◌, ap, refl, some}
use code4rena_may.Base.Int.{pos}
use code4rena_may.BigNumber.{BigNumber, IsExact}
use code4rena_may.BigNumber.Laws.{nat, plus-nat, minus-nat}
use code4rena_may.Math.Numbers.{mul_ray}
use code4rena_may.Math.Curve.{Curve, IsKinked, utilization_n, variable_rate_n}
use code4rena_may.Math.Exact.{ray_mul-nat}
use code4rena_may.Math.{ray_mul}
use code4rena_may.Market.{SymbolMap, ReserveParams, ReserveData, ExpectedReserveData, lookup}
use code4rena_may.Market.RateMode.{stable}
use code4rena_may.Market.Embed.{reserve}
use code4rena_may.Calculations.Interest.{
  calc_expected_variable_borrow_index, calc_expected_reserve_normalized_debt,
  calc_expected_total_stable_debt,
}
use code4rena_may.Calculations.Interest.Indexes.{
  variable_index_n, stable_debt_n, normalized_debt_n, variable_index-nat, total_stable_debt-nat,
  normalized_debt-nat,
}
use code4rena_may.Calculations.Balances.{calc_expected_average_stable_borrow_rate}
use code4rena_may.Calculations.Balances.Mean.{average_n, average-nat}
use code4rena_may.Calculations.Rates.{rates_of}
use code4rena_may.Calculations.Rates.Exact.{HasCurve, rates_of-nat}
use code4rena_may.Calculations.Reserve.Borrow.{
  after_stable_borrow, calc_expected_reserve_data_after_borrow,
}
use code4rena_may.Calculations.Reserve.Accounting.Settled.{
  IsSettled, returns, total_sv, total_vs, utilization_at, settle,
}

module _ {B : BigNumber} (L : IsExact B) {c : Curve} (kinked : IsKinked c)
    (reserves_params : SymbolMap ReserveParams) (r : ReserveData ℕ) (params : ReserveParams)
    (found : lookup r.symbol reserves_params ≡ some params) (curve : HasCurve params.strategy c)
    (factor : ℕ) (ef : params.reserve_factor ≡ pos factor) (small : factor ≤ 10_000) (time now : ℕ)
    (h : r.last_update_timestamp ≤ time) (k : r.total_stable_debt_last_updated ≤ time)
    (later : time ≤ now) (amount : ℕ) (le : amount ≤ r.available_liquidity) where
  -- The available liquidity, the debts and the rates right after the action.
  abbrev available_n : ℕ
  available_n = r.available_liquidity - amount

  abbrev debt_n : ℕ
  debt_n =
      stable_debt_n r.principal_stable_debt r.average_stable_borrow_rate
        r.total_stable_debt_last_updated time

  abbrev principal_n : ℕ
  principal_n = debt_n + amount

  abbrev mean : ℕ
  mean = average_n r.average_stable_borrow_rate debt_n amount r.stable_borrow_rate

  abbrev variable_n : ℕ
  variable_n = mul_ray r.scaled_variable_debt (variable_index_n r time)

  abbrev rate_n : ℕ
  rate_n =
      variable_rate_n c
        (utilization_n principal_n variable_n (available_n + principal_n + variable_n))

  rate_at :
      {x y z w : B.BN} (u s v a : ℕ)
      → x ≡ nat B u
      → y ≡ nat B s
      → z ≡ nat B v
      → w ≡ nat B a
      → (rates_of B params (nat B r.market_stable_rate) x y z w).2 ≡ nat B (variable_rate_n c u)
  rate_at {x} {y} {z} {w} u s v a hx hy hz hw =
      let m = nat B r.market_stable_rate in
      ap (λ t. (rates_of B params m t y z w).2) hx
      ∙ ap (λ t. (rates_of B params m (nat B u) t z w).2) hy
      ∙ ap (λ t. (rates_of B params m (nat B u) (nat B s) t w).2) hz
      ∙ ap (λ t. (rates_of B params m (nat B u) (nat B s) (nat B v) t).2) hw
      ∙ ap (λ t. t.2)
          (rates_of-nat L kinked curve params factor refl ef small r.market_stable_rate u s v a)

  index_eq :
      calc_expected_variable_borrow_index B (reserve B r) (nat B time)
      ≡ nat B (variable_index_n r time)
  index_eq = variable_index-nat L r time h

  times : {x y : B.BN} (a b : ℕ) → x ≡ nat B a → y ≡ nat B b → ray_mul B x y ≡ nat B (mul_ray a b)
  times {x} a b hx hy = ap (ray_mul B x) hy ∙ ap (λ t. ray_mul B t (nat B b)) hx ∙ ray_mul-nat L a b

  debt_at :
      {x y : B.BN} (rate i : ℕ)
      → x ≡ nat B rate
      → y ≡ nat B i
      → calc_expected_reserve_normalized_debt B x y (nat B time) (nat B now)
        ≡ nat B (normalized_debt_n rate i time now)
  debt_at {x} rate i hx hy =
      ap (λ t. calc_expected_reserve_normalized_debt B x t (nat B time) (nat B now)) hy
      ∙ ap (λ t. calc_expected_reserve_normalized_debt B t (nat B i) (nat B time) (nat B now)) hx
      ∙ normalized_debt-nat L rate i time now later

  total_at :
      {x y : B.BN} (p rate : ℕ)
      → x ≡ nat B p
      → y ≡ nat B rate
      → calc_expected_total_stable_debt B x y (nat B time) (nat B now)
        ≡ nat B (stable_debt_n p rate time now)
  total_at {x} p rate hx hy =
      ap (λ t. calc_expected_total_stable_debt B x t (nat B time) (nat B now)) hy
      ∙ ap (λ t. calc_expected_total_stable_debt B t (nat B rate) (nat B time) (nat B now)) hx
      ∙ total_stable_debt-nat L p rate time now later

  -- At a time not before the last updates, where the reserve has the parameters of a curve with a
  -- kink strictly between zero and one ray and a reserve factor of at most one, and the amount is at most the available
  -- liquidity, borrowing at the stable rate takes the amount from the available liquidity, and the
  -- data add up at any time after the action.
  pub borrow_stable-IsSettled :
      (d : ExpectedReserveData B.BN) × (calc_expected_reserve_data_after_borrow B reserves_params
          (pos amount)
          stable
          (reserve B r)
          (nat B time)
          (nat B now)
        ≡ some d)
      × IsSettled B (r.available_liquidity - amount) d
  unfolding calc_expected_reserve_data_after_borrow after_stable_borrow
  borrow_stable-IsSettled =
      let i = variable_index_n r time in
      let scaled = r.scaled_variable_debt in
      let available = minus-nat L r.available_liquidity amount le in
      let debt =
        total_stable_debt-nat L r.principal_stable_debt r.average_stable_borrow_rate
          r.total_stable_debt_last_updated time k in
      let principal = ap (λ t. B.plus t (nat B amount)) debt ∙ plus-nat L debt_n amount in
      let average =
        ap
          (λ t.
            calc_expected_average_stable_borrow_rate B (nat B r.average_stable_borrow_rate) t
              (nat B amount) (nat B r.stable_borrow_rate))
          debt
        ∙ average-nat L r.average_stable_borrow_rate debt_n amount r.stable_borrow_rate in
      let variable_then = times scaled i refl index_eq in
      let used =
        utilization_at L available_n principal_n variable_n available principal variable_then
          (total_sv L available_n principal_n variable_n available principal variable_then) in
      let rate = rate_at _ principal_n variable_n mean used principal variable_then average in
      let variable_now = times scaled _ refl (debt_at rate_n i rate index_eq) in
      let stable_now = total_at principal_n mean principal average in
      (
        _,
        returns B reserves_params r.symbol params found _ _ _ _ _ _,
        settle L _ available_n _ _ available stable_now variable_now
            (total_vs L available_n _ _ available stable_now variable_now) refl,
      )
