-- ===== src/Contracts/RateStrategy/Words.antt =====
-- What calculateInterestRates returns, if it does not revert: the rates of the curve.
use mathlib.Core.Option.{some-injective}
use code4rena_may.Base.{
  Bool, true, false, Bool-cases, inl, inr, ◌&&◌, ℕ, ◌+◌, ◌*◌, ◌^◌, ◌<◌, ◌≡◌, ap, subst, ◌∙◌, arith,
  some, ltb, ◌==◌, if◌then◌else◌,
}
use code4rena_may.Math.Numbers.{ray_n, mul_ray, div_ray}
use code4rena_may.Math.Curve.{
  Curve, utilization_n, stable_rate_n, contract_variable_rate_n, overall_n, liquidity_rate_n,
  excess_n,
}
use code4rena_may.Contracts.Reverts.{uint_mod, Returns, Returns-bind, Returns-if, some-Holds, Holds}
use code4rena_may.Contracts.SafeMath.{add, sub, add-Returns, sub-Returns}
use code4rena_may.Contracts.RateStrategy.{
  weighted_rate, overall_borrow_rate, utilization_ratio, utilization_of, rates_above, rates_below,
  calculate_interest_rates,
}
use code4rena_may.Contracts.WadRayMath.{
  ray_mul, ray_div, wad_to_ray, percent_mul, ray_mul-Returns, ray_div-Returns, wad_to_ray-Returns,
  percent_mul-Returns,
}

-- Every parameter is a word of the machine.
pub record IsWord (c : Curve) : Type 0 where
  pub optimal_fits : c.optimal < uint_mod
  pub base_fits : c.base < uint_mod
  pub variable_slope1_fits : c.variable_slope1 < uint_mod
  pub variable_slope2_fits : c.variable_slope2 < uint_mod
  pub stable_slope1_fits : c.stable_slope1 < uint_mod
  pub stable_slope2_fits : c.stable_slope2 < uint_mod

ray_fits : ray_n < uint_mod
ray_fits = omega arith

zero_fits : 0 < uint_mod
zero_fits = omega arith

ten_fits : 10_000 < uint_mod
ten_fits = omega arith

-- The two rates that the contract reaches are those of its curve, and fit.
abbrev HoldsBoth : ℕ → ℕ → ℕ × ℕ → Type 0
HoldsBoth s v r = Holds s r.0 × Holds v r.1

both : (s v a b : ℕ) → Holds s a → Holds v b → Returns (HoldsBoth s v) (some (a, b))
both s v a b h k r e = subst (HoldsBoth s v) (some-injective _ _ e) (h, k)

rates_below-Returns :
    {c : Curve} (w : IsWord c) (market u : ℕ)
    → market < uint_mod
    → Returns
        (HoldsBoth
          (market + mul_ray c.stable_slope1 (div_ray u c.optimal))
          (c.base + div_ray (mul_ray u c.variable_slope1) c.optimal))
        (rates_below c market u)
unfolding rates_below
rates_below-Returns {c} w market u hm =
    Returns-bind (ray_div u c.optimal) _ (ray_div-Returns u c.optimal w.optimal_fits) λ a ha.
      Returns-bind (ray_mul c.stable_slope1 a) _ (ray_mul-Returns c.stable_slope1 a) λ b hb.
        Returns-bind (add market b) _ (add-Returns market b hm hb.1) λ s hs.
          Returns-bind (ray_mul u c.variable_slope1) _ (ray_mul-Returns u c.variable_slope1) λ p hp.
            Returns-bind (ray_div p c.optimal) _ (ray_div-Returns p c.optimal w.optimal_fits)
              λ q hq.
                Returns-bind (add c.base q) _ (add-Returns c.base q w.base_fits hq.1)
                  λ v hv. both _ _ s v (cc (hs.0, hb.0, ha.0), hs.1) (cc (hv.0, hq.0, hp.0), hv.1)

rates_above-Returns :
    {c : Curve} (w : IsWord c) (market u : ℕ)
    → market < uint_mod
    → u < uint_mod
    → Returns
        (HoldsBoth
          (market + c.stable_slope1 + mul_ray c.stable_slope2 (excess_n c u))
          (c.base + c.variable_slope1 + mul_ray c.variable_slope2 (excess_n c u)))
        (rates_above c market u)
unfolding rates_above
rates_above-Returns {c} w market u hm hu =
    Returns-bind (sub ray_n c.optimal) _ (sub-Returns ray_n c.optimal ray_fits) λ g hg.
      Returns-bind (sub u c.optimal) _ (sub-Returns u c.optimal hu) λ o ho.
        Returns-bind (ray_div o g) _ (ray_div-Returns o g hg.1) λ x hx.
          Returns-bind (add market c.stable_slope1) _
            (add-Returns market c.stable_slope1 hm w.stable_slope1_fits)
            λ a ha.
              Returns-bind (ray_mul c.stable_slope2 x) _ (ray_mul-Returns c.stable_slope2 x) λ b hb.
                Returns-bind (add a b) _ (add-Returns a b ha.1 hb.1) λ s hs.
                  Returns-bind (add c.base c.variable_slope1) _
                    (add-Returns c.base c.variable_slope1 w.base_fits w.variable_slope1_fits)
                    λ d hd.
                      Returns-bind (ray_mul c.variable_slope2 x) _
                        (ray_mul-Returns c.variable_slope2 x)
                        λ y hy. Returns-bind (add d y) _ (add-Returns d y hd.1 hy.1) λ v hv.
                          both _ _ s v (cc (hs.0, ha.0, hb.0, hx.0, ho.0, hg.0), hs.1)
                            (cc (hv.0, hd.0, hy.0, hx.0, ho.0, hg.0), hv.1)

rates-Returns :
    {c : Curve} (w : IsWord c) (market u : ℕ)
    → market < uint_mod
    → u < uint_mod
    → Returns
        (HoldsBoth (stable_rate_n c market u) (contract_variable_rate_n c u))
        (if ltb c.optimal u then rates_above c market u else rates_below c market u)
rates-Returns {c} w market u hm hu = go (ltb c.optimal u)
  where
    go :
        (b : Bool)
        → Returns
            (HoldsBoth
              (if b
                then market + c.stable_slope1 + mul_ray c.stable_slope2 (excess_n c u)
                else market + mul_ray c.stable_slope1 (div_ray u c.optimal))
              (if b
                then c.base + c.variable_slope1 + mul_ray c.variable_slope2 (excess_n c u)
                else c.base + div_ray (mul_ray u c.variable_slope1) c.optimal))
            (if b then rates_above c market u else rates_below c market u)
    go true = rates_above-Returns w market u hm hu
    go false = rates_below-Returns w market u hm

weighted-Returns :
    (s v rate average total : ℕ)
    → Returns
        (Holds
          (div_ray (mul_ray (v * 10 ^ 9) rate + mul_ray (s * 10 ^ 9) average) (total * 10 ^ 9)))
        (weighted_rate s v rate average total)
unfolding weighted_rate
weighted-Returns s v rate average total =
    Returns-bind (wad_to_ray v) _ (wad_to_ray-Returns v) λ a ha.
      Returns-bind (ray_mul a rate) _ (ray_mul-Returns a rate) λ b hb.
        Returns-bind (wad_to_ray s) _ (wad_to_ray-Returns s) λ c hc.
          Returns-bind (ray_mul c average) _ (ray_mul-Returns c average) λ d hd.
            Returns-bind (add b d) _ (add-Returns b d hb.1 hd.1) λ e he.
              Returns-bind (wad_to_ray total) _ (wad_to_ray-Returns total) λ f hf r q.
                let (eq, small) = ray_div-Returns e f hf.1 r q in
                (cc (eq, he.0, hb.0, hd.0, ha.0, hc.0, hf.0), small)

overall-Returns :
    (s v rate average : ℕ)
    → s < uint_mod
    → v < uint_mod
    → Returns (Holds (overall_n s v rate average)) (overall_borrow_rate s v rate average)
unfolding overall_borrow_rate
overall-Returns s v rate average hs hv = Returns-bind (add s v) _ (add-Returns s v hs hv) λ t ht.
    subst
      (λ x.
        Returns
          (Holds (
            if x == 0
            then 0
            else div_ray (mul_ray (v * 10 ^ 9) rate + mul_ray (s * 10 ^ 9) average) (x * 10 ^ 9)))
          (if t == 0 then some 0 else weighted_rate s v rate average t))
      ht.0
      (Returns-if (t == 0) (some 0) (weighted_rate s v rate average t) 0 _ (some-Holds 0 zero_fits)
        (weighted-Returns s v rate average t))

-- The utilization, by the sum of the debts.
abbrev sum_utilization_n : ℕ → ℕ → ℕ
sum_utilization_n debt available = if debt == 0 then 0 else div_ray debt (available + debt)

utilization-Returns :
    (debt available : ℕ)
    → debt < uint_mod
    → available < uint_mod
    → Returns (Holds (sum_utilization_n debt available)) (utilization_of debt available)
unfolding utilization_of utilization_ratio
utilization-Returns debt available hd ha =
    Returns-if (debt == 0) (some 0) _ 0 _ (some-Holds 0 zero_fits) (
      Returns-bind (add available debt) _ (add-Returns available debt ha hd)
        λ t ht r e. let (eq, small) = ray_div-Returns debt t ht.1 r e in (cc (eq, ht.0), small))

sum_utilization-eq :
    (s v available : ℕ)
    → sum_utilization_n (s + v) available ≡ utilization_n s v (available + s + v)
sum_utilization-eq s v available =
    let assoc : available + (s + v) ≡ available + s + v = omega arith in
    elim (Bool-cases (s + v == 0)) [
      | inl e ↦ ground arith
      | inr e ↦ let f : (s == 0 && v == 0) ≡ false = ground arith in simp (e, f, assoc)
    ]

-- What the contract returns, in terms of the curve.
pub record AreRates (c : Curve) (market u s v average factor : ℕ) (r : ℕ × ℕ × ℕ) : Type 0 where
  pub liquidity_eq : r.0 ≡ liquidity_rate_n (overall_n s v r.2 average) u factor
  pub stable_eq : r.1 ≡ stable_rate_n c market u
  pub variable_eq : r.2 ≡ contract_variable_rate_n c u

pub calculate-Returns :
    {c : Curve} (w : IsWord c) (market available s v average factor : ℕ)
    → market < uint_mod
    → available < uint_mod
    → s < uint_mod
    → v < uint_mod
    → Returns
        (AreRates c market (utilization_n s v (available + s + v)) s v average factor)
        (calculate_interest_rates c market available s v average factor)
unfolding calculate_interest_rates
calculate-Returns {c} w market available s v average factor hm ha hs hv =
    Returns-bind (add s v) _ (add-Returns s v hs hv) λ t ht.
      Returns-bind (utilization_of t available) _ (utilization-Returns t available ht.1 ha) λ u hu.
        Returns-bind _ _ (rates-Returns w market u hm hu.1) λ rates hr.
          Returns-bind (overall_borrow_rate s v rates.1 average) _
            (overall-Returns s v rates.1 average hs hv)
            λ o ho. Returns-bind (ray_mul o u) _ (ray_mul-Returns o u) λ g hg.
              Returns-bind (sub 10_000 factor) _ (sub-Returns 10_000 factor ten_fits) λ k hk.
                Returns-bind (percent_mul g k) _ (percent_mul-Returns g k) λ l hl. λ r e.
                  let u_eq : u ≡ utilization_n s v (available + s + v) =
                    hu.0
                    ∙ ap (λ x. sum_utilization_n x available) ht.0
                    ∙ sum_utilization-eq s v available in
                  subst
                    (AreRates c market (utilization_n s v (available + s + v)) s v average factor)
                    (some-injective _ _ e)
                    record {
                      liquidity_eq = cc (hl.0, hg.0, hk.0, ho.0, u_eq);
                      stable_eq = hr.0.0 ∙ ap (stable_rate_n c market) u_eq;
                      variable_eq = hr.1.0 ∙ ap (contract_variable_rate_n c) u_eq;
                    }
