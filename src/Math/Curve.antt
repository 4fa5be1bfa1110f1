-- ===== src/Math/Curve.antt =====
-- The interest-rate curve of a reserve on natural numbers.
pub mod Bounds
pub mod Order
use code4rena_may.Base.{ℕ, ◌+◌, ◌-◌, ◌*◌, ◌^◌, ◌≤◌, ◌<◌, ltb, ◌==◌, ◌&&◌, if◌then◌else◌}
use code4rena_may.Math.Numbers.{ray_n, mul_ray, div_ray, mul_percent}

-- The parameters of a strategy, in ray.
pub record Curve : Type 0 where
  pub optimal : ℕ
  pub base : ℕ
  pub variable_slope1 : ℕ
  pub variable_slope2 : ℕ
  pub stable_slope1 : ℕ
  pub stable_slope2 : ℕ

-- The kink of the curve lies strictly between no use and full use.
pub record IsKinked (c : Curve) : Type 0 where
  pub optimal_pos : 0 < c.optimal
  pub optimal_lt : c.optimal < ray_n

abbrev pub utilization_n : ℕ → ℕ → ℕ → ℕ
utilization_n stable variable liquidity =
    if stable == 0 && variable == 0 then 0 else div_ray (stable + variable) liquidity

abbrev pub excess_n : Curve → ℕ → ℕ
excess_n c u = div_ray (u - c.optimal) (ray_n - c.optimal)

abbrev pub stable_rate_n : Curve → ℕ → ℕ → ℕ
stable_rate_n c market u =
    if ltb c.optimal u
    then market + c.stable_slope1 + mul_ray c.stable_slope2 (excess_n c u)
    else market + mul_ray c.stable_slope1 (div_ray u c.optimal)

abbrev pub variable_rate_n : Curve → ℕ → ℕ
variable_rate_n c u =
    if ltb c.optimal u
    then c.base + c.variable_slope1 + mul_ray c.variable_slope2 (excess_n c u)
    else c.base + mul_ray (div_ray u c.optimal) c.variable_slope1

-- The contract takes the product first.
abbrev pub contract_variable_rate_n : Curve → ℕ → ℕ
contract_variable_rate_n c u =
    if ltb c.optimal u
    then c.base + c.variable_slope1 + mul_ray c.variable_slope2 (excess_n c u)
    else c.base + div_ray (mul_ray u c.variable_slope1) c.optimal

abbrev pub overall_n : ℕ → ℕ → ℕ → ℕ → ℕ
overall_n stable variable variable_rate average_rate =
    if stable + variable == 0
    then 0
    else div_ray
        (mul_ray (variable * 10 ^ 9) variable_rate + mul_ray (stable * 10 ^ 9) average_rate)
        ((stable + variable) * 10 ^ 9)

abbrev pub liquidity_rate_n : ℕ → ℕ → ℕ → ℕ
liquidity_rate_n overall u reserve_factor =
    mul_percent (mul_ray overall u) (10_000 - reserve_factor)
