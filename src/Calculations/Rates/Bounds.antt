-- ===== src/Calculations/Rates/Bounds.antt =====
-- The range of the rates that the calculations give, and their order.
use code4rena_may.Base.{ℕ, ◌+◌, ◌≤◌, ◌≡◌}
use code4rena_may.Base.Int.{pos}
use code4rena_may.BigNumber.{BigNumber, IsExact}
use code4rena_may.BigNumber.Laws.{nat}
use code4rena_may.Math.Numbers.{ray_n}
use code4rena_may.Math.Curve.{
  Curve, IsKinked, utilization_n, stable_rate_n, variable_rate_n, overall_n, liquidity_rate_n,
}
use code4rena_may.Math.Curve.Bounds.{
  utilization-le, stable-bounds, variable-bounds, stable_mono, variable_mono, liquidity_rate-le,
}
use code4rena_may.Market.{ReserveParams, InterestRateStrategyParams}
use code4rena_may.Calculations.Rates.{calc_expected_utilization_rate, borrow_rates, rates_of}
use code4rena_may.Calculations.Rates.Exact.{
  HasCurve, utilization-nat, overall-nat, borrow_rates-nat, rates_of-nat,
}
use code4rena_may.Calculations.Rates.{calc_expected_overall_borrow_rate}

module _ {B : BigNumber} (L : IsExact B) where
  -- Where the debts are covered by the liquidity, the utilization rate is a
  -- number between zero and one ray.
  pub utilization_rate-bounded :
      (stable variable liquidity : ℕ)
      → stable + variable ≤ liquidity
      → (u : ℕ) × (calc_expected_utilization_rate B
            (nat B stable)
            (nat B variable)
            (nat B liquidity)
          ≡ nat B u)
        × (u ≤ ray_n)
  utilization_rate-bounded stable variable liquidity covered = (
    utilization_n stable variable liquidity,
    utilization-nat L stable variable liquidity covered,
    utilization-le stable variable liquidity covered,
  )

  module _ {s : InterestRateStrategyParams} {c : Curve} (k : IsKinked c) (h : HasCurve s c) where
    -- On a curve with a kink strictly between zero and one ray, at a utilization of at most one ray,
    -- the stable rate lies between the market rate and the
    -- market rate with both slopes, and the variable rate between the base rate and the base rate
    -- with both slopes.
    pub borrow_rates-bounded :
        (market u : ℕ)
        → u ≤ ray_n
        → (sr : ℕ) × (vr : ℕ) × (borrow_rates B s (nat B market) (nat B u) ≡ (nat B sr, nat B vr))
          × (market ≤ sr)
          × (sr ≤ market + c.stable_slope1 + c.stable_slope2)
          × (c.base ≤ vr)
          × (vr ≤ c.base + c.variable_slope1 + c.variable_slope2)
    borrow_rates-bounded market u le =
        let (stable_low, stable_high) = stable-bounds k market u le in
        let (variable_low, variable_high) = variable-bounds k u le in
        (
          stable_rate_n c market u,
          variable_rate_n c u,
          borrow_rates-nat L k h market u,
          stable_low,
          stable_high,
          variable_low,
          variable_high,
        )

    -- On a curve with a kink strictly between zero and one ray, neither borrow rate falls as the
    -- utilization rises.
    pub borrow_rates-monotone :
        (market u w : ℕ)
        → u ≤ w
        → (su : ℕ) × (vu : ℕ) × (sw : ℕ) × (vw : ℕ) × (borrow_rates B s (nat B market) (nat B u)
            ≡ (nat B su, nat B vu))
          × (borrow_rates B s (nat B market) (nat B w) ≡ (nat B sw, nat B vw))
          × (su ≤ sw)
          × (vu ≤ vw)
    borrow_rates-monotone market u w le = (
      stable_rate_n c market u,
      variable_rate_n c u,
      stable_rate_n c market w,
      variable_rate_n c w,
      borrow_rates-nat L k h market u,
      borrow_rates-nat L k h market w,
      stable_mono c market u w le,
      variable_mono c u w le,
    )

    -- On a curve with a kink strictly between zero and one ray, with a reserve factor of at most one
    -- and at a utilization of at most one ray, the rate that depositors earn is at most the overall
    -- rate that borrowers pay, at the variable rate that is set with it.
    pub liquidity_rate-covered :
        (params : ReserveParams) (factor : ℕ)
        → params.strategy ≡ s
        → params.reserve_factor ≡ pos factor
        → factor ≤ 10_000
        → (market u stable variable average : ℕ) → u ≤ ray_n
        → (l : ℕ) × (sr : ℕ) × (vr : ℕ) × (o : ℕ) × (rates_of B params
              (nat B market)
              (nat B u)
              (nat B stable)
              (nat B variable)
              (nat B average)
            ≡ (nat B l, nat B sr, nat B vr))
          × (calc_expected_overall_borrow_rate B
                (nat B stable)
                (nat B variable)
                (nat B vr)
                (nat B average)
              ≡ nat B o)
          × (l ≤ o)
    liquidity_rate-covered params factor es ef le market u stable variable average small =
        let vr = variable_rate_n c u in
        let o = overall_n stable variable vr average in
        (
          liquidity_rate_n o u factor,
          stable_rate_n c market u,
          vr,
          o,
          rates_of-nat L k h params factor es ef le market u stable variable average,
          overall-nat L stable variable vr average,
          liquidity_rate-le o u factor small,
        )
