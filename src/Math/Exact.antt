-- ===== src/Math/Exact.antt =====
-- The fixed-point methods at natural numbers: each is one rounded quotient.
use code4rena_may.Base.{ℕ, ◌+◌, ◌*◌, ◌/◌, ◌^◌, ◌<◌, ◌≡◌, arith}
use code4rena_may.BigNumber.{BigNumber, IsExact}
use code4rena_may.BigNumber.Laws.{nat, plus-nat, multiplied_by-nat, div-nat}
use code4rena_may.Math.Numbers.{ray_n, mul_ray, div_ray, mul_wad, div_wad, mul_percent, div_percent}
use code4rena_may.Constants.{half_wad_value, ray_value, half_ray_value}
use code4rena_may.Math.{
  wad_mul, wad_div, ray_mul, ray_div, ray_to_wad, wad_to_ray, percent_mul, percent_div,
  half_ray_unit, half_wad_unit, half_percentage_unit,
}

ray_pos : 0 < ray_n
ray_pos = omega arith

wad_pos : 0 < 10 ^ 18
wad_pos = omega arith

ratio_pos : 0 < 10 ^ 9
ratio_pos = omega arith

percent_pos : 0 < 10_000
percent_pos = omega arith

two_pos : 0 < 2
two_pos = omega arith

module _ {B : BigNumber} (L : IsExact B) where
  div_two : (a : ℕ) → B.div (nat B a) (nat B 2) ≡ nat B (a / 2)
  div_two a = div-nat L a 2 two_pos

  div_by_ray : (a : ℕ) → B.div (nat B a) (nat B ray_n) ≡ nat B (a / ray_n)
  div_by_ray a = div-nat L a ray_n ray_pos

  div_by_wad : (a : ℕ) → B.div (nat B a) (nat B (10 ^ 18)) ≡ nat B (a / 10 ^ 18)
  div_by_wad a = div-nat L a (10 ^ 18) wad_pos

  div_by_ratio : (a : ℕ) → B.div (nat B a) (nat B (10 ^ 9)) ≡ nat B (a / 10 ^ 9)
  div_by_ratio a = div-nat L a (10 ^ 9) ratio_pos

  div_by_percent : (a : ℕ) → B.div (nat B a) (nat B 10_000) ≡ nat B (a / 10_000)
  div_by_percent a = div-nat L a 10_000 percent_pos

  pub ray_mul-nat : (a b : ℕ) → ray_mul B (nat B a) (nat B b) ≡ nat B (mul_ray a b)
  unfolding ray_mul half_ray_unit
  ray_mul-nat a b = simp (
    ray_mul,
    half_ray_unit,
    half_ray_value L,
    ray_value L,
    L.decimal_places_down_int,
    multiplied_by-nat L,
    plus-nat L,
    div_by_ray,
  )

  pub ray_div-nat : (a b : ℕ) → 0 < b → ray_div B (nat B a) (nat B b) ≡ nat B (div_ray a b)
  unfolding ray_div
  ray_div-nat a b h = simp (
    ray_div,
    ray_value L,
    L.decimal_places_down_int,
    multiplied_by-nat L,
    plus-nat L,
    div_two,
    λ (x : ℕ). div-nat L x b h,
  )

  pub wad_mul-nat : (a b : ℕ) → wad_mul B (nat B a) (nat B b) ≡ nat B (mul_wad a b)
  unfolding wad_mul half_wad_unit
  wad_mul-nat a b = simp (
    wad_mul,
    half_wad_unit,
    half_wad_value L,
    L.decimal_places_down_int,
    multiplied_by-nat L,
    plus-nat L,
    div_by_wad,
  )

  pub wad_div-nat : (a b : ℕ) → 0 < b → wad_div B (nat B a) (nat B b) ≡ nat B (div_wad a b)
  unfolding wad_div
  wad_div-nat a b h = simp (
    wad_div,
    L.decimal_places_down_int,
    multiplied_by-nat L,
    plus-nat L,
    div_two,
    λ (x : ℕ). div-nat L x b h,
  )

  pub percent_mul-nat : (a b : ℕ) → percent_mul B (nat B a) (nat B b) ≡ nat B (mul_percent a b)
  unfolding percent_mul half_percentage_unit
  percent_mul-nat a b = simp (
    percent_mul,
    half_percentage_unit,
    L.decimal_places_down_int,
    multiplied_by-nat L,
    plus-nat L,
    div_by_percent,
  )

  pub percent_div-nat :
      (a b : ℕ) → 0 < b → percent_div B (nat B a) (nat B b) ≡ nat B (div_percent a b)
  unfolding percent_div
  percent_div-nat a b h = simp (
    percent_div,
    L.decimal_places_down_int,
    multiplied_by-nat L,
    plus-nat L,
    div_two,
    λ (x : ℕ). div-nat L x b h,
  )

  pub wad_to_ray-nat : (a : ℕ) → wad_to_ray B (nat B a) ≡ nat B (a * 10 ^ 9)
  unfolding wad_to_ray
  wad_to_ray-nat a = simp (wad_to_ray, L.decimal_places_down_int, multiplied_by-nat L)

  pub ray_to_wad-nat : (a : ℕ) → ray_to_wad B (nat B a) ≡ nat B ((5 * 10 ^ 8 + a) / 10 ^ 9)
  unfolding ray_to_wad
  ray_to_wad-nat a = simp (ray_to_wad, L.decimal_places_down_int, plus-nat L, div_two, div_by_ratio)
