-- ===== src/Contracts/Agreement.antt =====
-- The calculations predict what the contracts compute.
use code4rena_may.Base.{
  ℕ, ◌+◌, ◌*◌, ◌≤◌, ◌<◌, ◌≡◌, ap, sym, ◌∙◌, refl, arith, ltb, true, false, some, String, lt→ltb,
  le→ltb-false,
}
use code4rena_may.Base.Int.{pos}
use code4rena_may.BigNumber.{BigNumber, IsExact}
use code4rena_may.BigNumber.Laws.{nat}
use code4rena_may.Math.Numbers.{ray_n, mul_ray, div_ray}
use code4rena_may.Math.Curve.{
  Curve, IsKinked, utilization_n, stable_rate_n, variable_rate_n, overall_n, liquidity_rate_n,
}
use code4rena_may.Math.Curve.Order.{orders-close}
use code4rena_may.Math.Exact.{ray_mul-nat, ray_div-nat, percent_mul-nat}
use code4rena_may.Math as Methods
use code4rena_may.Market.{SymbolMap, ReserveParams, lookup}
use code4rena_may.Calculations.Interest.{calc_linear_interest, calc_compounded_interest}
use code4rena_may.Calculations.Interest.Exact.{linear-nat, compounded-nat}
use code4rena_may.Calculations.Rates.{calc_expected_utilization_rate, calc_expected_interest_rates}
use code4rena_may.Calculations.Rates.Exact.{
  HasCurve, utilization-nat, rates_of-nat, interest_rates-found,
}
use code4rena_may.Contracts.Reverts.{uint_mod}
use code4rena_may.Contracts.WadRayMath.{
  ray_mul, ray_div, percent_mul, ray_mul-Returns, ray_div-Returns, percent_mul-Returns,
  ray_div-eq-some,
}
use code4rena_may.Contracts.MathUtils.{
  calculate_linear_interest, calculate_compounded_interest, linear-Returns, compounded-Returns,
  linear-eq-some, compounded-eq-some,
}
use code4rena_may.Contracts.RateStrategy.{calculate_interest_rates}
use code4rena_may.Contracts.RateStrategy.Words.{IsWord, calculate-Returns}

module _ {B : BigNumber} (L : IsExact B) where
  -- Whenever calculateCompoundedInterest of the contracts returns, at a time that fits a word,
  -- calcCompoundedInterest gives the same number.
  pub compounded_interest-agrees :
      (rate last now r : ℕ)
      → now < uint_mod
      → calculate_compounded_interest rate last now ≡ some r
      → calc_compounded_interest B (nat B rate) (nat B now) (nat B last) ≡ nat B r
  compounded_interest-agrees rate last now r h e =
      compounded-nat L rate now last (compounded-eq-some rate last now e)
      ∙ ap (nat B) (sym (compounded-Returns rate last now h r e).0)

  -- Whenever calculateLinearInterest of the contracts returns, at a time that fits a word,
  -- calcLinearInterest gives the same number.
  pub linear_interest-agrees :
      (rate last now r : ℕ)
      → now < uint_mod
      → calculate_linear_interest rate last now ≡ some r
      → calc_linear_interest B (nat B rate) (nat B now) (nat B last) ≡ nat B r
  linear_interest-agrees rate last now r h e =
      linear-nat L rate now last (linear-eq-some rate last now e)
      ∙ ap (nat B) (sym (linear-Returns rate last now h r e).0)

  -- Whenever rayMul of the contracts returns, rayMul of the test helpers gives the same number.
  pub ray_mul-agrees :
      (a b r : ℕ) → ray_mul a b ≡ some r → Methods.ray_mul B (nat B a) (nat B b) ≡ nat B r
  ray_mul-agrees a b r e = ray_mul-nat L a b ∙ ap (nat B) (sym (ray_mul-Returns a b r e).0)

  -- Whenever rayDiv of the contracts returns, for a divisor that fits a word, rayDiv of the test
  -- helpers gives the same number.
  pub ray_div-agrees :
      (a b r : ℕ)
      → b < uint_mod
      → ray_div a b ≡ some r
      → Methods.ray_div B (nat B a) (nat B b) ≡ nat B r
  ray_div-agrees a b r h e =
      ray_div-nat L a b (ray_div-eq-some a b r e) ∙ ap (nat B) (sym (ray_div-Returns a b h r e).0)

  -- Whenever percentMul of the contracts returns, percentMul of the test helpers gives the same
  -- number.
  pub percent_mul-agrees :
      (a b r : ℕ) → percent_mul a b ≡ some r → Methods.percent_mul B (nat B a) (nat B b) ≡ nat B r
  percent_mul-agrees a b r e =
      percent_mul-nat L a b ∙ ap (nat B) (sym (percent_mul-Returns a b r e).0)

  module _ {c : Curve} (k : IsKinked c) (w : IsWord c) (reserves_params : SymbolMap ReserveParams)
      (symbol : String) (params : ReserveParams)
      (found : lookup symbol reserves_params ≡ some params) (h : HasCurve params.strategy c)
      (factor : ℕ) (ef : params.reserve_factor ≡ pos factor) (le : factor ≤ 10_000)
      (market available s v average : ℕ) (hm : market < uint_mod) (ha : available < uint_mod)
      (hs : s < uint_mod) (hv : v < uint_mod) where
    -- The rates that the calculations predict, as numbers.
    predicted :
        calc_expected_interest_rates B reserves_params symbol
          (nat B market)
          (calc_expected_utilization_rate B (nat B s) (nat B v) (nat B (available + s + v)))
          (nat B s)
          (nat B v)
          (nat B average)
        ≡ some (
          nat B (
              liquidity_rate_n
                (overall_n s v (variable_rate_n c (utilization_n s v (available + s + v))) average)
                (utilization_n s v (available + s + v))
                factor),
          nat B (stable_rate_n c market (utilization_n s v (available + s + v))),
          nat B (variable_rate_n c (utilization_n s v (available + s + v))),
        )
    predicted =
        interest_rates-found B reserves_params symbol _ _ _ _ _ params found
        ∙ ap some (
            simp (
              utilization-nat L s v (available + s + v) (omega arith),
              rates_of-nat L k h params factor refl ef le,
            ))

    -- For a known symbol whose strategy is a curve with a kink strictly between zero and one ray and
    -- whose reserve factor is at most one, above the optimal utilization, and for parameters, debts and liquidity that fit words,
    -- calcExpectedInterestRates gives the three rates that calculateInterestRates of the contract
    -- returns.
    pub interest_rates-agree :
        (l sr vr : ℕ)
        → c.optimal < utilization_n s v (available + s + v)
        → calculate_interest_rates c market available s v average factor ≡ some (l, sr, vr)
        → calc_expected_interest_rates B reserves_params symbol
            (nat B market)
            (calc_expected_utilization_rate B (nat B s) (nat B v) (nat B (available + s + v)))
            (nat B s)
            (nat B v)
            (nat B average)
          ≡ some (nat B l, nat B sr, nat B vr)
    interest_rates-agree l sr vr above e =
        let u = utilization_n s v (available + s + v) in
        let are =
          calculate-Returns w market available s v average factor hm ha hs hv (l, sr, vr) e in
        let kink : ltb c.optimal u ≡ true = lt→ltb c.optimal u above in
        let variable_eq : variable_rate_n c u ≡ vr = simp (kink, are.variable_eq) in
        let stable_eq : stable_rate_n c market u ≡ sr = sym are.stable_eq in
        let liquidity_eq : liquidity_rate_n (overall_n s v (variable_rate_n c u) average) u factor
            ≡ l =
          ap (λ x. liquidity_rate_n (overall_n s v x average) u factor) variable_eq
          ∙ sym are.liquidity_eq in
        cc (predicted, variable_eq, stable_eq, liquidity_eq)

    -- For a known symbol whose strategy is a curve with a kink strictly between zero and one ray and
    -- whose reserve factor is at most one, up to the optimal utilization, for parameters, debts and liquidity that fit words, a first variable slope of at most one ray
    -- and an optimal utilization of at least half a ray, calcExpectedInterestRates gives the stable
    -- rate that calculateInterestRates of the contract returns, and a variable rate that differs
    -- from the contract's by at most 2.
    pub interest_rates-close :
        (l sr vr : ℕ)
        → utilization_n s v (available + s + v) ≤ c.optimal
        → c.variable_slope1 ≤ ray_n
        → ray_n ≤ 2 * c.optimal
        → calculate_interest_rates c market available s v average factor ≡ some (l, sr, vr)
        → (l' : ℕ) × (vr' : ℕ) × (calc_expected_interest_rates B reserves_params symbol
              (nat B market)
              (calc_expected_utilization_rate B (nat B s) (nat B v) (nat B (available + s + v)))
              (nat B s)
              (nat B v)
              (nat B average)
            ≡ some (nat B l', nat B sr, nat B vr'))
          × (vr' ≤ vr + 2)
          × (vr ≤ vr' + 2)
    interest_rates-close l sr vr below slope half e =
        let u = utilization_n s v (available + s + v) in
        let are =
          calculate-Returns w market available s v average factor hm ha hs hv (l, sr, vr) e in
        let kink : ltb c.optimal u ≡ false = le→ltb-false c.optimal u below in
        let rate : ℕ = variable_rate_n c u in
        let stable_eq : stable_rate_n c market u ≡ sr = sym are.stable_eq in
        let close = orders-close u c.optimal c.variable_slope1 k.optimal_pos slope half in
        let contract_eq : vr ≡ c.base + div_ray (mul_ray u c.variable_slope1) c.optimal =
          simp (are.variable_eq, kink) in
        let rate_eq : rate ≡ c.base + mul_ray (div_ray u c.optimal) c.variable_slope1 =
          simp (kink) in
        (
          liquidity_rate_n (overall_n s v rate average) u factor,
          rate,
          cc (predicted, stable_eq),
          omega (arith, close.0, close.1),
          omega (arith, close.0, close.1),
        )
