-- ===== src/Constants.antt =====
-- helpers/constants.ts: the fixed-point units and the protocol constants. A constant that the source
-- keeps as a decimal string is the integer that the string denotes.
use code4rena_may.Base.{◌*◌, ◌^◌, ◌≡◌, ◌∙◌, ap}
use code4rena_may.Base.Int.{ℤ, pos}
use code4rena_may.BigNumber.{BigNumber, IsExact}

abbrev pub percentage_factor : ℤ
percentage_factor = pos 10_000

abbrev pub half_percentage : ℤ
half_percentage = pos 5000

abbrev pub wad : ℤ
wad = pos (10 ^ 18)

abbrev pub wad_ray_ratio : ℤ
wad_ray_ratio = pos (10 ^ 9)

abbrev pub max_uint_amount : ℤ
max_uint_amount = pos 115792089237316195423570985008687907853269984665640564039457584007913129639935

abbrev pub one_year : ℤ
one_year = pos 31_536_000

module _ (B : BigNumber) where
  pub half_wad : ℤ
  half_wad = B.to_string (B.halved (B.of_string wad))

  unfoldable pub ray : ℤ
  ray = B.to_fixed (B.exponentiated_by (B.of_string (pos 10)) 27)

  unfoldable pub half_ray : ℤ
  unfolding ray
  half_ray = B.to_fixed (B.halved (B.of_string ray))

module _ {B : BigNumber} (L : IsExact B) where
  pub half_wad_value : half_wad B ≡ pos (5 * 10 ^ 17)
  unfolding half_wad
  half_wad_value = ap B.to_string (L.halved_int (5 * 10 ^ 17)) ∙ L.to_string_int (pos (5 * 10 ^ 17))

  pub ray_value : ray B ≡ pos (10 ^ 27)
  unfolding ray
  ray_value = ap B.to_fixed (L.exponentiated_by_int 10 27) ∙ L.to_fixed_int (pos (10 ^ 27))

  pub half_ray_value : half_ray B ≡ pos (5 * 10 ^ 26)
  unfolding half_ray
  half_ray_value =
      ap (λ s. B.to_fixed (B.halved (B.of_string s))) ray_value
      ∙ ap B.to_fixed (L.halved_int (5 * 10 ^ 26))
      ∙ L.to_fixed_int (pos (5 * 10 ^ 26))
