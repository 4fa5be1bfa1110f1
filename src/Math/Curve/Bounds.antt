-- ===== src/Math/Curve/Bounds.antt =====
-- The range of the curve and its order, on natural numbers.
use native.Mathlib.Nat.{le_trans}
use code4rena_may.Base.{ℕ, ◌+◌, ◌-◌, ◌≤◌, inl, inr, Bool-cases, ltb, ltb-false→le, arith}
use code4rena_may.Math.Numbers.{ray_n, mul_ray, div_ray}
use code4rena_may.Math.Rounding.{
  div_ray-le, div_ray_mono, mul_ray-le, mul_ray-le_left, mul_ray_mono, mul_ray_mono_left,
  mul_percent-le,
}
use code4rena_may.Math.Curve.{
  Curve, IsKinked, utilization_n, excess_n, stable_rate_n, variable_rate_n, liquidity_rate_n,
}

pub utilization-le : (s v liquidity : ℕ) → s + v ≤ liquidity → utilization_n s v liquidity ≤ ray_n
utilization-le s v liquidity h = ground (arith, div_ray-le (s + v) liquidity)

pub excess-le : {c : Curve} → IsKinked c → (u : ℕ) → u ≤ ray_n → excess_n c u ≤ ray_n
excess-le {c} k u h = div_ray-le (u - c.optimal) (ray_n - c.optimal) (omega arith)

pub stable-bounds :
    {c : Curve}
    → IsKinked c
    → (market u : ℕ) → u ≤ ray_n
    → (market ≤ stable_rate_n c market u)
      × (stable_rate_n c market u ≤ market + c.stable_slope1 + c.stable_slope2)
stable-bounds {c} k market u h = elim (Bool-cases (ltb c.optimal u)) [
  | inl e ↦ ground (arith, mul_ray-le c.stable_slope2 (excess_n c u) (excess-le k u h))
  | inr e ↦ ground (
    arith,
    mul_ray-le c.stable_slope1 (div_ray u c.optimal)
        (div_ray-le u c.optimal (ltb-false→le c.optimal u e)),
  )
]

pub variable-bounds :
    {c : Curve}
    → IsKinked c
    → (u : ℕ) → u ≤ ray_n
    → (c.base ≤ variable_rate_n c u)
      × (variable_rate_n c u ≤ c.base + c.variable_slope1 + c.variable_slope2)
variable-bounds {c} k u h = elim (Bool-cases (ltb c.optimal u)) [
  | inl e ↦ ground (arith, mul_ray-le c.variable_slope2 (excess_n c u) (excess-le k u h))
  | inr e ↦ ground (
    arith,
    mul_ray-le_left (div_ray u c.optimal) c.variable_slope1
        (div_ray-le u c.optimal (ltb-false→le c.optimal u e)),
  )
]

excess_mono : (c : Curve) (u w : ℕ) → u ≤ w → excess_n c u ≤ excess_n c w
excess_mono c u w h = div_ray_mono (u - c.optimal) (w - c.optimal) (ray_n - c.optimal) (omega arith)

pub stable_mono :
    (c : Curve) (market u w : ℕ) → u ≤ w → stable_rate_n c market u ≤ stable_rate_n c market w
stable_mono c market u w h = ground (
  arith,
  mul_ray_mono c.stable_slope2 (excess_n c u) (excess_n c w) (excess_mono c u w h),
  mul_ray_mono c.stable_slope1 (div_ray u c.optimal) (div_ray w c.optimal)
      (div_ray_mono u w c.optimal h),
  λ (e : u ≤ c.optimal).
      mul_ray-le c.stable_slope1 (div_ray u c.optimal) (div_ray-le u c.optimal e),
)

pub variable_mono : (c : Curve) (u w : ℕ) → u ≤ w → variable_rate_n c u ≤ variable_rate_n c w
variable_mono c u w h = ground (
  arith,
  mul_ray_mono c.variable_slope2 (excess_n c u) (excess_n c w) (excess_mono c u w h),
  mul_ray_mono_left (div_ray u c.optimal) (div_ray w c.optimal) c.variable_slope1
      (div_ray_mono u w c.optimal h),
  λ (e : u ≤ c.optimal).
      mul_ray-le_left (div_ray u c.optimal) c.variable_slope1 (div_ray-le u c.optimal e),
)

pub liquidity_rate-le :
    (overall u factor : ℕ) → u ≤ ray_n → liquidity_rate_n overall u factor ≤ overall
liquidity_rate-le overall u factor h =
    le_trans (mul_percent-le (mul_ray overall u) (10_000 - factor) (omega arith))
      (mul_ray-le overall u h)
