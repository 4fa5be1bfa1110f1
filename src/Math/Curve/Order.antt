-- ===== src/Math/Curve/Order.antt =====
-- The two orders in which the variable rate below the kink is computed: the quotient first, as the
-- calculations do, and the product first, as the contract does.
use native.Mathlib.Nat.{mul-le-mul_left, mul-le-mul_right}
use code4rena_may.Base.{ℕ, ◌+◌, ◌*◌, ◌≤◌, ◌<◌, ◌⊎◌, inl, inr, arith}
use code4rena_may.Math.Numbers.{ray_n, mul_ray, div_ray}
use code4rena_may.Math.Rounding.{mul_ray-low, mul_ray-high, div_ray-low, div_ray-high}

cancel : (a b o : ℕ) → 0 < o → 2 * (a * o) ≤ 2 * (b * o) + 5 * o → a ≤ b + 2
cancel a b o h le = elim (split a b) [ inl k ↦ k | inr k ↦ omega (arith, mul-le-mul_right o k) ]
  where
    split : (a b : ℕ) → (a ≤ b + 2) ⊎ (b + 3 ≤ a)
    split a b = ground arith

at_most : (a b : ℕ) → 2 * (a * b) ≤ 2 * (mul_ray a b * ray_n) + ray_n
at_most a b = omega (arith, mul_ray-high a b)

module _ (u o slope : ℕ) (h : 0 < o) (small : slope ≤ ray_n) (half : ray_n ≤ 2 * o) where
  abbrev quotient_first : ℕ
  quotient_first = mul_ray (div_ray u o) slope

  abbrev product_first : ℕ
  product_first = div_ray (mul_ray u slope) o

  quotient_first-low : 2 * (quotient_first * o) ≤ 2 * (u * slope) + 2 * o
  quotient_first-low = omega (
    arith,
    mul-le-mul_left o (mul_ray-low (div_ray u o) slope),
    mul-le-mul_left slope (div_ray-low u o),
    mul-le-mul_left o small,
  )

  quotient_first-high : 2 * (u * slope) ≤ 2 * (quotient_first * o) + 2 * o
  quotient_first-high = omega (
    arith,
    mul-le-mul_left o (at_most (div_ray u o) slope),
    mul-le-mul_left slope (div_ray-high u o h),
    mul-le-mul_left o small,
  )

  product_first-low : 2 * (product_first * o) ≤ 2 * (u * slope) + 3 * o
  product_first-low = omega (arith, div_ray-low (mul_ray u slope) o, mul_ray-low u slope)

  product_first-high : 2 * (u * slope) ≤ 2 * (product_first * o) + 3 * o
  product_first-high = omega (arith, div_ray-high (mul_ray u slope) o h, mul_ray-high u slope)

  pub orders-close : (quotient_first ≤ product_first + 2) × (product_first ≤ quotient_first + 2)
  orders-close = (
    cancel quotient_first product_first o h (omega (arith, quotient_first-low, product_first-high)),
    cancel product_first quotient_first o h (omega (arith, quotient_first-high, product_first-low)),
  )
