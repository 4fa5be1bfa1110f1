-- ===== src/Math/Numbers.antt =====
-- The formulas of the calculations and of the contracts on natural numbers: fixed-point products and
-- quotients rounded half up, and the interest that a rate per year gives after `t` seconds.
use code4rena_may.Base.{ℕ, ◌+◌, ◌-◌, ◌*◌, ◌/◌, ◌^◌, ltb, ◌==◌, if◌then◌else◌}

abbrev pub ray_n : ℕ
ray_n = 10 ^ 27

abbrev pub half_ray_n : ℕ
half_ray_n = 5 * 10 ^ 26

abbrev pub mul_ray : ℕ → ℕ → ℕ
mul_ray a b = (half_ray_n + a * b) / ray_n

abbrev pub div_ray : ℕ → ℕ → ℕ
div_ray a b = (b / 2 + a * ray_n) / b

abbrev pub mul_wad : ℕ → ℕ → ℕ
mul_wad a b = (5 * 10 ^ 17 + a * b) / 10 ^ 18

abbrev pub div_wad : ℕ → ℕ → ℕ
div_wad a b = (b / 2 + a * 10 ^ 18) / b

abbrev pub div_percent : ℕ → ℕ → ℕ
div_percent a b = (b / 2 + a * 10_000) / b

abbrev pub mul_percent : ℕ → ℕ → ℕ
mul_percent a b = (5000 + a * b) / 10_000

abbrev pub linear_n : ℕ → ℕ → ℕ
linear_n rate t = rate * t / 31_536_000 + ray_n

abbrev pub minus_two : ℕ → ℕ
minus_two t = if ltb 2 t then t - 2 else 0

abbrev pub binomial_n : ℕ → ℕ → ℕ
binomial_n x t =
    ray_n
    + x * t
    + t * (t - 1) * mul_ray x x / 2
    + t * (t - 1) * minus_two t * mul_ray (mul_ray x x) x / 6

abbrev pub compounded_n : ℕ → ℕ → ℕ
compounded_n rate t = if t == 0 then ray_n else binomial_n (rate / 31_536_000) t
