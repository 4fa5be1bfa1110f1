-- ===== src/Calculations/Rates.antt =====
-- Utilization, and the interest rates that the strategy of a reserve sets from it.
pub mod Exact
pub mod Bounds
use code4rena_may.Base.{String, ◌&&◌, Option, some, ◌>>=◌, if◌then◌else◌}
use code4rena_may.Base.Int.{pos}
use code4rena_may.BigNumber.{BigNumber}
use code4rena_may.Constants.{ray, percentage_factor}
use code4rena_may.Math.{ray_mul, ray_div, wad_to_ray, percent_mul}
use code4rena_may.Market.{SymbolMap, ReserveParams, InterestRateStrategyParams, lookup}

module _ (B : BigNumber) where
  open B use {BN, of_string, plus, minus, eq, gt}

  unfoldable pub calc_expected_overall_borrow_rate : BN → BN → BN → BN → BN
  calc_expected_overall_borrow_rate total_stable_debt total_variable_debt
        current_variable_borrow_rate current_average_stable_borrow_rate =
      let total_borrows = plus total_stable_debt total_variable_debt in
      let weighted_variable_rate =
        ray_mul B (wad_to_ray B total_variable_debt) current_variable_borrow_rate in
      let weighted_stable_rate =
        ray_mul B (wad_to_ray B total_stable_debt) current_average_stable_borrow_rate in
      if eq total_borrows (of_string (pos 0))
      then of_string (pos 0)
      else ray_div B (plus weighted_variable_rate weighted_stable_rate) (wad_to_ray B total_borrows)

  unfoldable pub calc_expected_utilization_rate : BN → BN → BN → BN
  calc_expected_utilization_rate total_stable_debt total_variable_debt total_liquidity =
      if eq total_stable_debt (of_string (pos 0)) && eq total_variable_debt (of_string (pos 0))
      then of_string (pos 0)
      else ray_div B (plus total_stable_debt total_variable_debt) total_liquidity

  -- The two branches of `calcExpectedInterestRates`, on the stable and on the variable rate.
  pub rates_above : InterestRateStrategyParams → BN → BN → BN × BN
  rates_above s market_stable_rate utilization_rate =
      let excess_rate = minus (of_string (ray B)) (of_string s.optimal_utilization_rate) in
      let excess_utilization_rate_ratio =
        ray_div B (minus utilization_rate (of_string s.optimal_utilization_rate)) excess_rate in
      (
        plus (plus market_stable_rate (of_string s.stable_rate_slope1))
            (ray_mul B (of_string s.stable_rate_slope2) excess_utilization_rate_ratio),
        plus (plus (of_string s.base_variable_borrow_rate) (of_string s.variable_rate_slope1))
            (ray_mul B (of_string s.variable_rate_slope2) excess_utilization_rate_ratio),
      )

  unfoldable pub rates_below : InterestRateStrategyParams → BN → BN → BN × BN
  rates_below s market_stable_rate utilization_rate =
      let optimal_rate = of_string s.optimal_utilization_rate in
      (
        plus market_stable_rate
            (ray_mul B (of_string s.stable_rate_slope1) (ray_div B utilization_rate optimal_rate)),
        plus (of_string s.base_variable_borrow_rate) (
            ray_mul B (ray_div B utilization_rate optimal_rate) (of_string s.variable_rate_slope1)),
      )

  unfoldable pub borrow_rates : InterestRateStrategyParams → BN → BN → BN × BN
  borrow_rates s market_stable_rate utilization_rate =
      if gt utilization_rate (of_string s.optimal_utilization_rate)
      then rates_above s market_stable_rate utilization_rate
      else rates_below s market_stable_rate utilization_rate

  -- The three rates of a reserve whose parameters are known.
  unfoldable pub rates_of : ReserveParams → BN → BN → BN → BN → BN → BN × BN × BN
  rates_of params market_stable_rate utilization_rate total_stable_debt total_variable_debt
        average_stable_borrow_rate =
      let (stable_borrow_rate, variable_borrow_rate) =
        borrow_rates params.strategy market_stable_rate utilization_rate in
      let expected_overall_rate =
        calc_expected_overall_borrow_rate total_stable_debt total_variable_debt variable_borrow_rate
          average_stable_borrow_rate in
      let liquidity_rate =
        percent_mul B (ray_mul B expected_overall_rate utilization_rate)
          (minus (of_string percentage_factor) (of_string params.reserve_factor)) in
      (liquidity_rate, stable_borrow_rate, variable_borrow_rate)

  -- `[liquidityRate, stableBorrowRate, variableBorrowRate]`. A symbol that `reservesParams` does not
  -- have makes the destructuring of `undefined` throw.
  unfoldable pub calc_expected_interest_rates :
      SymbolMap ReserveParams → String → BN → BN → BN → BN → BN → Option (BN × BN × BN)
  calc_expected_interest_rates reserves_params reserve_symbol market_stable_rate utilization_rate
        total_stable_debt total_variable_debt average_stable_borrow_rate =
      do
        params ← lookup reserve_symbol reserves_params
        some (
            rates_of params market_stable_rate utilization_rate total_stable_debt
              total_variable_debt average_stable_borrow_rate)
