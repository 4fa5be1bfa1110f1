-- ===== src/Math.antt =====
-- test-suites/test-ftm/helpers/utils/math.ts (and the same file of test-sturdy): the fixed-point
-- methods that the suites add to BigNumber. The receiver `this` is the first argument.
pub mod Numbers
pub mod Curve
pub mod Exact
pub mod Rounding
pub mod Nearest
use code4rena_may.Base.Int.{pos}
use code4rena_may.BigNumber.{BigNumber}
use code4rena_may.Constants.{
  percentage_factor, half_percentage, wad, half_wad, ray, half_ray, wad_ray_ratio,
}

module _ (B : BigNumber) where
  open B use {BN, of_string, plus, multiplied_by, div, decimal_places, decimal_places_down}

  pub ray_unit : BN
  ray_unit = decimal_places (of_string (ray B))

  pub wad_unit : BN
  wad_unit = decimal_places (of_string wad)

  unfoldable pub half_ray_unit : BN
  half_ray_unit = decimal_places_down (of_string (half_ray B))

  pub half_wad_unit : BN
  half_wad_unit = decimal_places_down (of_string (half_wad B))

  pub wad_mul : BN → BN → BN
  wad_mul this b =
      decimal_places_down (div (plus half_wad_unit (multiplied_by this b)) (of_string wad))

  pub wad_div : BN → BN → BN
  wad_div this a =
      let half_a = decimal_places_down (div a (of_string (pos 2))) in
      decimal_places_down (div (plus half_a (multiplied_by this (of_string wad))) a)

  unfoldable pub ray_mul : BN → BN → BN
  ray_mul this a =
      decimal_places_down (div (plus half_ray_unit (multiplied_by this a)) (of_string (ray B)))

  unfoldable pub ray_div : BN → BN → BN
  ray_div this a =
      let half_a = decimal_places_down (div a (of_string (pos 2))) in
      decimal_places_down
        (div (decimal_places_down (plus half_a (multiplied_by this (of_string (ray B))))) a)

  pub ray_to_wad : BN → BN
  ray_to_wad this =
      let half_ratio = div (of_string wad_ray_ratio) (of_string (pos 2)) in
      decimal_places_down (div (plus half_ratio this) (of_string wad_ray_ratio))

  unfoldable pub wad_to_ray : BN → BN
  wad_to_ray this = decimal_places_down (multiplied_by this (of_string wad_ray_ratio))

  unfoldable pub half_percentage_unit : BN
  half_percentage_unit = decimal_places_down (of_string half_percentage)

  unfoldable pub percent_mul : BN → BN → BN
  percent_mul this b =
      decimal_places_down
        (div (plus half_percentage_unit (multiplied_by this b)) (of_string percentage_factor))

  pub percent_div : BN → BN → BN
  percent_div this a =
      let half_a = decimal_places_down (div a (of_string (pos 2))) in
      decimal_places_down (div (plus half_a (multiplied_by this (of_string percentage_factor))) a)
