-- ===== src/Math/Nearest.antt =====
-- The fixed-point methods round to the nearest number, and scaling by an index can be undone.
use code4rena_may.Base.{ℕ, ◌+◌, ◌*◌, ◌≤◌, ◌<◌, ◌≡◌, ◌∙◌, ap, arith}
use code4rena_may.BigNumber.{BigNumber, IsExact}
use code4rena_may.BigNumber.Laws.{nat}
use code4rena_may.Math.Numbers.{ray_n, mul_ray, div_ray}
use code4rena_may.Math.Rounding.{
  mul_ray-low, mul_ray-high, div_ray-low, div_ray-high, unscaled-low, unscaled-high, rescaled,
}
use code4rena_may.Math.Exact.{ray_mul-nat, ray_div-nat}
use code4rena_may.Math.{ray_mul, ray_div}

module _ {B : BigNumber} (L : IsExact B) where
  -- `rayMul` gives a number at a distance of at most one half from the product divided by one ray,
  -- and a product that lies halfway is rounded up.
  pub ray_mul-nearest :
      (a b : ℕ)
      → (r : ℕ) × (ray_mul B (nat B a) (nat B b) ≡ nat B r)
        × (2 * (r * ray_n) ≤ 2 * (a * b) + ray_n)
        × (2 * (a * b) < 2 * (r * ray_n) + ray_n)
  ray_mul-nearest a b = (mul_ray a b, ray_mul-nat L a b, mul_ray-low a b, mul_ray-high a b)

  -- `rayDiv` by a positive number gives a number at a distance of at most one half from the
  -- quotient times one ray.
  pub ray_div-nearest :
      (a b : ℕ)
      → 0 < b
      → (r : ℕ) × (ray_div B (nat B a) (nat B b) ≡ nat B r)
        × (2 * (r * b) ≤ 2 * (a * ray_n) + b)
        × (2 * (a * ray_n) ≤ 2 * (r * b) + b)
  ray_div-nearest a b h = (div_ray a b, ray_div-nat L a b h, div_ray-low a b, div_ray-high a b h)

  -- An amount that is divided by a positive index below three rays and multiplied by the index
  -- again changes by at most one unit.
  pub ray_mul-ray_div :
      (a i : ℕ)
      → 0 < i
      → i < 3 * ray_n
      → (r : ℕ) × (ray_mul B (ray_div B (nat B a) (nat B i)) (nat B i) ≡ nat B r)
        × (a ≤ r + 1)
        × (r ≤ a + 1)
  ray_mul-ray_div a i h k = (
    mul_ray (div_ray a i) i,
    ap (λ x. ray_mul B x (nat B i)) (ray_div-nat L a i h) ∙ ray_mul-nat L (div_ray a i) i,
    unscaled-low a i h k,
    unscaled-high a i k,
  )

  -- A scaled balance that is multiplied by an index of at least one ray and divided by the index
  -- again is the same.
  pub ray_div-ray_mul :
      (s i : ℕ) → ray_n ≤ i → ray_div B (ray_mul B (nat B s) (nat B i)) (nat B i) ≡ nat B s
  ray_div-ray_mul s i h =
      ap (λ x. ray_div B x (nat B i)) (ray_mul-nat L s i)
      ∙ ray_div-nat L (mul_ray s i) i (omega arith)
      ∙ ap (nat B) (rescaled s i h)
