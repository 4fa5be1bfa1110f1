-- ===== src/Math/Rounding.antt =====
-- How the fixed-point products and quotients round, on natural numbers.
use native.Mathlib.Nat.{
  mul-le-mul_left, mul-le-mul_right, div-mul-le_self, lt-div-mul-add, le-div_iff_mul-le,
  div-lt_iff_lt-mul, div-zero, div-eq_of_lt-le,
}
use code4rena_may.Base.{ℕ, zero, suc, ◌+◌, ◌*◌, ◌/◌, ◌≤◌, ◌<◌, ◌≡◌, ◌⊎◌, inl, inr, arith}
use code4rena_may.Math.Numbers.{ray_n, half_ray_n, mul_ray, div_ray, mul_percent}

-- The quotient of `half + n`, as bounds on the numerator.
pub quotient-low : (n d : ℕ) → n / d * d ≤ n
quotient-low n d = div-mul-le_self n d

pub quotient-high : (n d : ℕ) → 0 < d → n < n / d * d + d
quotient-high n d h = lt-div-mul-add h

-- A half of `b` is lost in `b / 2` at most once.
pub half-bounds : (b : ℕ) → (2 * (b / 2) ≤ b) × (b ≤ 2 * (b / 2) + 1)
half-bounds b = (omega arith, omega arith)

pub mul_ray-low : (a b : ℕ) → 2 * (mul_ray a b * ray_n) ≤ 2 * (a * b) + ray_n
mul_ray-low a b = omega (arith, quotient-low (half_ray_n + a * b) ray_n)

pub mul_ray-high : (a b : ℕ) → 2 * (a * b) < 2 * (mul_ray a b * ray_n) + ray_n
mul_ray-high a b = omega (arith, quotient-high (half_ray_n + a * b) ray_n)

pub div_ray-low : (a b : ℕ) → 2 * (div_ray a b * b) ≤ 2 * (a * ray_n) + b
div_ray-low a b = omega (arith, quotient-low (b / 2 + a * ray_n) b, half-bounds b)

pub div_ray-high : (a b : ℕ) → 0 < b → 2 * (a * ray_n) ≤ 2 * (div_ray a b * b) + b
div_ray-high a b h = omega (arith, quotient-high (b / 2 + a * ray_n) b h, half-bounds b)

pub div_mono : (n m c : ℕ) → n ≤ m → n / c ≤ m / c
div_mono n m zero h = omega (arith, div-zero n)
div_mono n m (suc c) h =
    (le-div_iff_mul-le (omega arith)).1 (omega (arith, div-mul-le_self n (suc c)))

-- A factor below one shrinks a product, one above it does not.
pub mul_ray-le : (a b : ℕ) → b ≤ ray_n → mul_ray a b ≤ a
mul_ray-le a b h = omega (arith, mul_ray-low a b, mul-le-mul_left a h)

pub mul_ray-le_left : (a b : ℕ) → a ≤ ray_n → mul_ray a b ≤ b
mul_ray-le_left a b h = omega (arith, mul_ray-low a b, mul-le-mul_right b h)

pub le-mul_ray : (a b : ℕ) → ray_n ≤ a → b ≤ mul_ray a b
le-mul_ray a b h = omega (arith, mul_ray-high a b, mul-le-mul_right b h)

pub mul_ray_mono : (a b c : ℕ) → b ≤ c → mul_ray a b ≤ mul_ray a c
mul_ray_mono a b c h = div_mono _ _ ray_n (omega (arith, mul-le-mul_left a h))

pub mul_ray_mono_left : (a b c : ℕ) → a ≤ b → mul_ray a c ≤ mul_ray b c
mul_ray_mono_left a b c h = div_mono _ _ ray_n (omega (arith, mul-le-mul_right c h))

below : (n k m : ℕ) → 0 < k → n < m * k → n / k < m
below n k m h = (div-lt_iff_lt-mul h).1

pub div_ray-le : (a b : ℕ) → a ≤ b → div_ray a b ≤ ray_n
div_ray-le a zero h = omega (arith, div-zero (zero / 2 + a * ray_n))
div_ray-le a (suc b) h =
    let numerator : suc b / 2 + a * ray_n < suc ray_n * suc b = omega arith in
    let bound : div_ray a (suc b) < suc ray_n =
      below _ (suc b) (suc ray_n) (omega arith) numerator in
    omega arith

pub div_ray_mono : (a b c : ℕ) → a ≤ b → div_ray a c ≤ div_ray b c
div_ray_mono a b c h = div_mono _ _ c (omega arith)

pub mul_percent-le : (a b : ℕ) → b ≤ 10_000 → mul_percent a b ≤ a
mul_percent-le a b h = omega (arith, quotient-low (5000 + a * b) 10_000, mul-le-mul_left a h)

-- A balance that is scaled by an index and multiplied by it again.
pub unscaled-low : (a i : ℕ) → 0 < i → i < 3 * ray_n → a ≤ mul_ray (div_ray a i) i + 1
unscaled-low a i h k = omega (arith, mul_ray-high (div_ray a i) i, div_ray-high a i h)

pub unscaled-high : (a i : ℕ) → i < 3 * ray_n → mul_ray (div_ray a i) i ≤ a + 1
unscaled-high a i k = omega (arith, mul_ray-low (div_ray a i) i, div_ray-low a i)

lt_or_eq : (a b : ℕ) → a ≤ b → (a < b) ⊎ (a ≡ b)
lt_or_eq a b h = ground arith

-- A scaled balance survives the way to the balance and back.
pub rescaled : (s i : ℕ) → ray_n ≤ i → div_ray (mul_ray s i) i ≡ s
rescaled s i h = elim (lt_or_eq ray_n i h) [
  | inl k ↦ div-eq_of_lt-le i (omega (arith, mul_ray-high s i)) (omega (arith, mul_ray-low s i))
  | inr e ↦ rw (← e) (
      div-eq_of_lt-le ray_n (omega (arith, mul_ray-high s ray_n))
        (omega (arith, mul_ray-low s ray_n)))
]
