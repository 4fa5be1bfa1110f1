-- ===== src/Calculations/Reserve/Rebalance.antt =====
-- calcExpectedReserveDataAfterStableRateRebalance.
use code4rena_may.Base.{Option, some, none, ◌>>=◌}
use code4rena_may.BigNumber.{BigNumber}
use code4rena_may.Math.{ray_mul}
use code4rena_may.Market.{
  SymbolMap, ReserveParams, ReserveData, ExpectedReserveData, UserReserveData,
}
use code4rena_may.Calculations.Interest.{
  calc_expected_liquidity_index, calc_expected_variable_borrow_index,
  calc_expected_total_stable_debt,
}
use code4rena_may.Calculations.Balances.{
  calc_expected_average_stable_borrow_rate_rebalance, user_stable_debt,
}
use code4rena_may.Calculations.Rates.{calc_expected_utilization_rate, calc_expected_interest_rates}

module _ (B : BigNumber) (reserves_params : SymbolMap ReserveParams) where
  open B use {BN, plus, minus, negated}

  unfoldable pub calc_expected_reserve_data_after_stable_rate_rebalance :
      ReserveData BN → UserReserveData BN → BN → Option (ExpectedReserveData BN)
  calc_expected_reserve_data_after_stable_rate_rebalance before user tx_timestamp = do
    let stable_debt_of_user = user_stable_debt B user tx_timestamp
    let variable_borrow_index = calc_expected_variable_borrow_index B before tx_timestamp
    let total_variable_debt = ray_mul B before.scaled_variable_debt variable_borrow_index
    let total_stable_debt =
        calc_expected_total_stable_debt B before.principal_stable_debt
          before.average_stable_borrow_rate before.total_stable_debt_last_updated tx_timestamp
    let total_liquidity =
        plus (plus before.available_liquidity total_stable_debt) total_variable_debt
    -- The stable liquidity is taken out at the old rate, and put back at the new one.
    let avg_rate_before =
        calc_expected_average_stable_borrow_rate_rebalance B before.average_stable_borrow_rate
          total_stable_debt (negated stable_debt_of_user) user.stable_borrow_rate
    let average_stable_borrow_rate =
        calc_expected_average_stable_borrow_rate_rebalance B avg_rate_before
          (minus total_stable_debt stable_debt_of_user) stable_debt_of_user
          before.stable_borrow_rate
    let utilization_rate =
        calc_expected_utilization_rate B total_stable_debt total_variable_debt total_liquidity
    rates ←
        calc_expected_interest_rates B reserves_params before.symbol before.market_stable_rate
          utilization_rate total_stable_debt total_variable_debt average_stable_borrow_rate
    some (record {
      address = before.address;
      total_liquidity = total_liquidity;
      available_liquidity = before.available_liquidity;
      total_stable_debt = total_stable_debt;
      total_variable_debt = total_variable_debt;
      principal_stable_debt = total_stable_debt;
      scaled_variable_debt = before.scaled_variable_debt;
      average_stable_borrow_rate = average_stable_borrow_rate;
      variable_borrow_rate = rates.2;
      stable_borrow_rate = rates.1;
      utilization_rate = utilization_rate;
      liquidity_index = calc_expected_liquidity_index B before tx_timestamp;
      variable_borrow_index = variable_borrow_index;
      liquidity_rate = rates.0;
      last_update_timestamp = none;
    })
