-- ===== src/Calculations/Rates/Exact.antt =====
-- The rates at natural numbers are those of the curve.
use code4rena_may.Base.{
  ℕ, ◌+◌, ◌-◌, ◌*◌, ◌^◌, ◌≤◌, ◌<◌, ◌≡◌, arith, ltb, ◌==◌, ◌&&◌, false, Bool-cases, inl, inr, String,
  some, none, ltb→lt,
}
use code4rena_may.Base.Int.{pos}
use code4rena_may.BigNumber.{BigNumber, IsExact}
use code4rena_may.BigNumber.Laws.{nat, plus-nat, minus-nat, eq-nat, gt-nat}
use code4rena_may.Constants.{ray_value}
use code4rena_may.Math.Numbers.{ray_n, mul_ray, div_ray}
use code4rena_may.Math.Curve.{
  Curve, IsKinked, utilization_n, excess_n, stable_rate_n, variable_rate_n, overall_n,
  liquidity_rate_n,
}
use code4rena_may.Math.Exact.{ray_mul-nat, ray_div-nat, wad_to_ray-nat, percent_mul-nat}
use code4rena_may.Market.{InterestRateStrategyParams, ReserveParams, SymbolMap, lookup}
use code4rena_may.Calculations.Rates.{
  calc_expected_overall_borrow_rate, calc_expected_utilization_rate, rates_above, rates_below,
  borrow_rates, rates_of, calc_expected_interest_rates,
}

-- A strategy of the configuration has the parameters of the curve.
pub record HasCurve (s : InterestRateStrategyParams) (c : Curve) : Type 0 where
  pub optimal_eq : s.optimal_utilization_rate ≡ pos c.optimal
  pub base_eq : s.base_variable_borrow_rate ≡ pos c.base
  pub variable_slope1_eq : s.variable_rate_slope1 ≡ pos c.variable_slope1
  pub variable_slope2_eq : s.variable_rate_slope2 ≡ pos c.variable_slope2
  pub stable_slope1_eq : s.stable_rate_slope1 ≡ pos c.stable_slope1
  pub stable_slope2_eq : s.stable_rate_slope2 ≡ pos c.stable_slope2

liquidity_pos : (s v l : ℕ) → (s == 0 && v == 0) ≡ false → s + v ≤ l → 0 < l
liquidity_pos s v l e h = ground arith

scaled_pos : (t : ℕ) → (t == 0) ≡ false → 0 < t * 10 ^ 9
scaled_pos t e = ground arith

gap_pos : {c : Curve} → IsKinked c → 0 < ray_n - c.optimal
gap_pos k = omega arith

le_of_lt : {a b : ℕ} → a < b → a ≤ b
le_of_lt h = omega arith

-- The calculation succeeds exactly at the symbols that have parameters.
module _ (B : BigNumber) (reserves_params : SymbolMap ReserveParams) (symbol : String)
    (market u s v average : B.BN) where
  pub interest_rates-found :
      (params : ReserveParams)
      → lookup symbol reserves_params ≡ some params
      → calc_expected_interest_rates B reserves_params symbol market u s v average
        ≡ some (rates_of B params market u s v average)
  unfolding calc_expected_interest_rates
  interest_rates-found params found = simp (calc_expected_interest_rates, found)

  pub interest_rates-missing :
      lookup symbol reserves_params ≡ none
      → calc_expected_interest_rates B reserves_params symbol market u s v average ≡ none
  unfolding calc_expected_interest_rates
  interest_rates-missing missing = simp (calc_expected_interest_rates, missing)

module _ {B : BigNumber} (L : IsExact B) where
  pub utilization-nat :
      (stable variable liquidity : ℕ)
      → stable + variable ≤ liquidity
      → calc_expected_utilization_rate B (nat B stable) (nat B variable) (nat B liquidity)
        ≡ nat B (utilization_n stable variable liquidity)
  unfolding calc_expected_utilization_rate
  utilization-nat stable variable liquidity h = elim (Bool-cases (stable == 0 && variable == 0)) [
    | inl e ↦ simp (calc_expected_utilization_rate, eq-nat L, e)
    | inr e ↦ simp (
      calc_expected_utilization_rate,
      eq-nat L,
      e,
      plus-nat L,
      ray_div-nat L (stable + variable) liquidity (liquidity_pos stable variable liquidity e h),
    )
  ]

  pub overall-nat :
      (stable variable variable_rate average_rate : ℕ)
      → calc_expected_overall_borrow_rate B
          (nat B stable)
          (nat B variable)
          (nat B variable_rate)
          (nat B average_rate)
        ≡ nat B (overall_n stable variable variable_rate average_rate)
  unfolding calc_expected_overall_borrow_rate
  overall-nat stable variable variable_rate average_rate =
      elim (Bool-cases (stable + variable == 0)) [
        | inl e ↦ simp (calc_expected_overall_borrow_rate, plus-nat L, eq-nat L, e)
        | inr e ↦ simp (
          calc_expected_overall_borrow_rate,
          plus-nat L,
          eq-nat L,
          e,
          wad_to_ray-nat L,
          ray_mul-nat L,
          λ (x : ℕ). ray_div-nat L x ((stable + variable) * 10 ^ 9) (scaled_pos _ e),
        )
      ]

  module _ {s : InterestRateStrategyParams} {c : Curve} (k : IsKinked c) (h : HasCurve s c) where
    rates_above-nat :
        (market u : ℕ)
        → c.optimal ≤ u
        → rates_above B s (nat B market) (nat B u) ≡ (
          nat B (market + c.stable_slope1 + mul_ray c.stable_slope2 (excess_n c u)),
          nat B (c.base + c.variable_slope1 + mul_ray c.variable_slope2 (excess_n c u)),
        )
    unfolding rates_above
    rates_above-nat market u le = simp (
      rates_above,
      ray_value L,
      h.optimal_eq,
      h.base_eq,
      h.variable_slope1_eq,
      h.variable_slope2_eq,
      h.stable_slope1_eq,
      h.stable_slope2_eq,
      minus-nat L u c.optimal le,
      minus-nat L ray_n c.optimal (le_of_lt k.optimal_lt),
      ray_div-nat L (u - c.optimal) (ray_n - c.optimal) (gap_pos k),
      ray_mul-nat L,
      plus-nat L,
    )

    rates_below-nat :
        (market u : ℕ)
        → rates_below B s (nat B market) (nat B u) ≡ (
          nat B (market + mul_ray c.stable_slope1 (div_ray u c.optimal)),
          nat B (c.base + mul_ray (div_ray u c.optimal) c.variable_slope1),
        )
    unfolding rates_below
    rates_below-nat market u = simp (
      rates_below,
      h.optimal_eq,
      h.base_eq,
      h.variable_slope1_eq,
      h.stable_slope1_eq,
      ray_div-nat L u c.optimal k.optimal_pos,
      ray_mul-nat L,
      plus-nat L,
    )

    pub borrow_rates-nat :
        (market u : ℕ)
        → borrow_rates B s (nat B market) (nat B u)
          ≡ (nat B (stable_rate_n c market u), nat B (variable_rate_n c u))
    unfolding borrow_rates
    borrow_rates-nat market u = elim (Bool-cases (ltb c.optimal u)) [
      | inl e ↦
          simp (borrow_rates, h.optimal_eq, gt-nat L, e)
            (rates_above-nat market u (le_of_lt (ltb→lt c.optimal u e)))
      | inr e ↦ simp (borrow_rates, h.optimal_eq, gt-nat L, e) (rates_below-nat market u)
    ]

    pub rates_of-nat :
        (params : ReserveParams) (factor : ℕ)
        → params.strategy ≡ s
        → params.reserve_factor ≡ pos factor
        → factor ≤ 10_000
        → (market u stable variable average : ℕ)
        → rates_of B params (nat B market) (nat B u) (nat B stable) (nat B variable) (nat B average)
          ≡ (
            nat B (
                liquidity_rate_n
                  (overall_n stable variable (variable_rate_n c u) average)
                  u
                  factor),
            nat B (stable_rate_n c market u),
            nat B (variable_rate_n c u),
          )
    unfolding rates_of
    rates_of-nat params factor es ef le market u stable variable average = simp (
      rates_of,
      es,
      ef,
      borrow_rates-nat market u,
      overall-nat,
      ray_mul-nat L,
      minus-nat L 10_000 factor le,
      percent_mul-nat L,
    )
