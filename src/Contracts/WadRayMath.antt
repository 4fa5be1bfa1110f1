-- ===== src/Contracts/WadRayMath.antt =====
-- contracts/protocol/libraries/math/WadRayMath.sol and PercentageMath.sol.
use native.Mathlib.Nat.{div-le_self, div-mul-le_self, mul-le-mul, le_refl}
use code4rena_may.Base.{
  ℕ, ◌+◌, ◌-◌, ◌*◌, ◌/◌, ◌%◌, ◌^◌, ◌≤◌, ◌<◌, ◌≡◌, arith, ◌||◌, true, Option, some, none, leb, ◌==◌,
  if◌then◌else◌, ap,
}
use code4rena_may.Contracts.Reverts.{uint_mod, max_uint, Returns, Holds}
use code4rena_may.Math.Numbers.{ray_n, half_ray_n, mul_ray, div_ray, mul_percent}

unfoldable pub ray_mul : ℕ → ℕ → Option ℕ
ray_mul a b =
    if a == 0 || b == 0
    then some 0
    else (if leb a ((max_uint - half_ray_n) / b)
        then some ((((a * b) % uint_mod + half_ray_n) % uint_mod) / ray_n)
        else none)

unfoldable pub ray_div : ℕ → ℕ → Option ℕ
ray_div a b =
    let half_b = b / 2 in
    if b == 0
    then none
    else (if leb a ((max_uint - half_b) / ray_n)
        then some ((((a * ray_n) % uint_mod + half_b) % uint_mod) / b)
        else none)

unfoldable pub wad_to_ray : ℕ → Option ℕ
wad_to_ray a =
    let result = (a * 10 ^ 9) % uint_mod in if result / 10 ^ 9 == a then some result else none

unfoldable pub percent_mul : ℕ → ℕ → Option ℕ
percent_mul value percentage =
    if value == 0 || percentage == 0
    then some 0
    else (if leb value ((max_uint - 5000) / percentage)
        then some ((((value * percentage) % uint_mod + 5000) % uint_mod) / 10_000)
        else none)

-- The guards keep the unchecked products and sums in range.
guarded : (a b h : ℕ) → h ≤ max_uint → a ≤ (max_uint - h) / b → a * b + h ≤ max_uint
guarded a b h small g = omega (arith, mul-le-mul g (le_refl b), div-mul-le_self (max_uint - h) b)

zero_product : (a b : ℕ) → (a == 0 || b == 0) ≡ true → a * b ≡ 0
zero_product a b h = grind arith

fits : (n h : ℕ) → n + h ≤ max_uint → (n % uint_mod + h) % uint_mod ≡ n + h
fits n h le = omega arith

pub ray_mul-Returns : (a b : ℕ) → Returns (Holds (mul_ray a b)) (ray_mul a b)
unfolding ray_mul
ray_mul-Returns a b r e =
    ground (arith, zero_product a b, guarded a b half_ray_n, fits (a * b) half_ray_n)

quotient : (n m b : ℕ) → n ≡ m → m ≤ max_uint → Holds (m / b) (n / b)
quotient n m b e le = (ap (λ x. x / b) e, omega (arith, div-le_self n b))

pub ray_div-Returns : (a b : ℕ) → b < uint_mod → Returns (Holds (div_ray a b)) (ray_div a b)
unfolding ray_div
ray_div-Returns a b hb r e = ground (
  arith,
  guarded a ray_n (b / 2),
  fits (a * ray_n) (b / 2),
  quotient (((a * ray_n) % uint_mod + b / 2) % uint_mod) (b / 2 + a * ray_n) b,
)

pub wad_to_ray-Returns : (a : ℕ) → Returns (Holds (a * 10 ^ 9)) (wad_to_ray a)
unfolding wad_to_ray
wad_to_ray-Returns a r e = ground arith

pub percent_mul-Returns : (a b : ℕ) → Returns (Holds (mul_percent a b)) (percent_mul a b)
unfolding percent_mul
percent_mul-Returns a b r e = ground (arith, zero_product a b, guarded a b 5000, fits (a * b) 5000)

-- A division by zero reverts.
pub ray_div-eq-some : (a b r : ℕ) → ray_div a b ≡ some r → 0 < b
unfolding ray_div
ray_div-eq-some a b r e = ground arith
