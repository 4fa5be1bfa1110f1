-- ===== src/Contracts/RateStrategy.antt =====
-- contracts/protocol/lendingpool/DefaultReserveInterestRateStrategy.sol: calculateInterestRates. The
-- market rate of the oracle and the liquidity of the aToken are arguments.
pub mod Words
use code4rena_may.Base.{
  Bool, true, false, ℕ, ◌+◌, ◌-◌, ◌*◌, ◌^◌, ◌<◌, ◌≡◌, ap, subst, ◌∙◌, arith, Option, some, none,
  ◌>>=◌, ltb, ◌==◌, if◌then◌else◌,
}
use code4rena_may.Math.Numbers.{ray_n, mul_ray, div_ray}
use code4rena_may.Math.Curve.{
  Curve, utilization_n, stable_rate_n, contract_variable_rate_n, overall_n, liquidity_rate_n,
  excess_n,
}
use code4rena_may.Contracts.Reverts.{uint_mod, Returns, Returns-bind, Returns-if, some-Holds, Holds}
use code4rena_may.Contracts.SafeMath.{add, sub, add-Returns, sub-Returns}
use code4rena_may.Contracts.WadRayMath.{
  ray_mul, ray_div, wad_to_ray, percent_mul, ray_mul-Returns, ray_div-Returns, wad_to_ray-Returns,
  percent_mul-Returns,
}

-- The average of the two rates, weighted by the debts, which add up to `total_debt`.
unfoldable pub weighted_rate : ℕ → ℕ → ℕ → ℕ → ℕ → Option ℕ
weighted_rate total_stable_debt total_variable_debt current_variable_borrow_rate
      current_average_stable_borrow_rate total_debt =
    do
      variable_ray ← wad_to_ray total_variable_debt
      weighted_variable_rate ← ray_mul variable_ray current_variable_borrow_rate
      stable_ray ← wad_to_ray total_stable_debt
      weighted_stable_rate ← ray_mul stable_ray current_average_stable_borrow_rate
      weights ← add weighted_variable_rate weighted_stable_rate
      debt_ray ← wad_to_ray total_debt
      ray_div weights debt_ray

unfoldable pub overall_borrow_rate : ℕ → ℕ → ℕ → ℕ → Option ℕ
overall_borrow_rate total_stable_debt total_variable_debt current_variable_borrow_rate
      current_average_stable_borrow_rate =
    do
      total_debt ← add total_stable_debt total_variable_debt
      (if total_debt == 0
          then some 0
          else weighted_rate total_stable_debt total_variable_debt current_variable_borrow_rate
              current_average_stable_borrow_rate total_debt)

unfoldable pub utilization_ratio : ℕ → ℕ → Option ℕ
utilization_ratio total_debt available_liquidity = do
  total ← add available_liquidity total_debt
  ray_div total_debt total

unfoldable pub utilization_of : ℕ → ℕ → Option ℕ
utilization_of total_debt available_liquidity =
    if total_debt == 0 then some 0 else utilization_ratio total_debt available_liquidity

-- The stable and the variable rate above the optimal utilization, and below it. The difference
-- `excess` is the constant EXCESS_UTILIZATION_RATE that the constructor computes.
unfoldable pub rates_above : Curve → ℕ → ℕ → Option (ℕ × ℕ)
rates_above c market u = do
  excess ← sub ray_n c.optimal
  over ← sub u c.optimal
  ratio ← ray_div over excess
  stable_base ← add market c.stable_slope1
  stable_part ← ray_mul c.stable_slope2 ratio
  stable ← add stable_base stable_part
  variable_base ← add c.base c.variable_slope1
  variable_part ← ray_mul c.variable_slope2 ratio
  variable ← add variable_base variable_part
  some (stable, variable)

unfoldable pub rates_below : Curve → ℕ → ℕ → Option (ℕ × ℕ)
rates_below c market u = do
  ratio ← ray_div u c.optimal
  stable_part ← ray_mul c.stable_slope1 ratio
  stable ← add market stable_part
  product ← ray_mul u c.variable_slope1
  variable_part ← ray_div product c.optimal
  variable ← add c.base variable_part
  some (stable, variable)

unfoldable pub calculate_interest_rates : Curve → ℕ → ℕ → ℕ → ℕ → ℕ → ℕ → Option (ℕ × ℕ × ℕ)
calculate_interest_rates c market available_liquidity total_stable_debt total_variable_debt
      average_stable_borrow_rate reserve_factor =
    do
      total_debt ← add total_stable_debt total_variable_debt
      u ← utilization_of total_debt available_liquidity
      rates ← if ltb c.optimal u then rates_above c market u else rates_below c market u
      overall ←
          overall_borrow_rate total_stable_debt total_variable_debt rates.1
            average_stable_borrow_rate
      gross ← ray_mul overall u
      kept ← sub 10_000 reserve_factor
      liquidity ← percent_mul gross kept
      some (liquidity, rates.0, rates.1)
