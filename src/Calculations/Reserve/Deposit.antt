-- ===== src/Calculations/Reserve/Deposit.antt =====
-- calcExpectedReserveDataAfterDeposit and calcExpectedReserveDataAfterDepositCollateral.
use code4rena_may.Base.{Option, some, none, ◌>>=◌}
use code4rena_may.Base.Int.{ℤ}
use code4rena_may.BigNumber.{BigNumber}
use code4rena_may.Math.{ray_div}
use code4rena_may.Market.{SymbolMap, ReserveParams, ReserveData, ExpectedReserveData}
use code4rena_may.Calculations.Interest.{
  calc_expected_liquidity_index, calc_expected_variable_borrow_index,
  calc_expected_total_stable_debt, calc_expected_total_variable_debt,
}
use code4rena_may.Calculations.Rates.{calc_expected_utilization_rate, calc_expected_interest_rates}

module _ (B : BigNumber) (reserves_params : SymbolMap ReserveParams) where
  open B use {BN, of_string, plus}

  unfoldable pub calc_expected_reserve_data_after_deposit :
      ℤ → ReserveData BN → BN → Option (ExpectedReserveData BN)
  calc_expected_reserve_data_after_deposit amount_deposited before tx_timestamp = do
    let total_liquidity = plus before.total_liquidity (of_string amount_deposited)
    let available_liquidity = plus before.available_liquidity (of_string amount_deposited)
    let variable_borrow_index = calc_expected_variable_borrow_index B before tx_timestamp
    let total_stable_debt =
        calc_expected_total_stable_debt B before.principal_stable_debt
          before.average_stable_borrow_rate before.total_stable_debt_last_updated tx_timestamp
    let total_variable_debt = calc_expected_total_variable_debt B before variable_borrow_index
    let utilization_rate =
        calc_expected_utilization_rate B total_stable_debt total_variable_debt total_liquidity
    rates ←
        calc_expected_interest_rates B reserves_params before.symbol before.market_stable_rate
          utilization_rate total_stable_debt total_variable_debt before.average_stable_borrow_rate
    some (record {
      address = before.address;
      total_liquidity = total_liquidity;
      available_liquidity = available_liquidity;
      total_stable_debt = total_stable_debt;
      total_variable_debt = total_variable_debt;
      principal_stable_debt = before.principal_stable_debt;
      scaled_variable_debt = before.scaled_variable_debt;
      average_stable_borrow_rate = before.average_stable_borrow_rate;
      variable_borrow_rate = rates.2;
      stable_borrow_rate = rates.1;
      utilization_rate = utilization_rate;
      liquidity_index = calc_expected_liquidity_index B before tx_timestamp;
      variable_borrow_index = variable_borrow_index;
      liquidity_rate = rates.0;
      last_update_timestamp = none;
    })

  -- The amount is scaled by the liquidity index that the reserve has after the action.
  unfoldable pub calc_expected_reserve_data_after_deposit_collateral :
      ℤ → ReserveData BN → ReserveData BN → BN → Option (ExpectedReserveData BN)
  calc_expected_reserve_data_after_deposit_collateral amount_deposited before after tx_timestamp =
      do
        let scaled_amount = ray_div B (of_string amount_deposited) after.liquidity_index
        let total_liquidity = plus before.total_liquidity scaled_amount
        let available_liquidity = plus before.available_liquidity scaled_amount
        let variable_borrow_index = calc_expected_variable_borrow_index B before tx_timestamp
        let total_stable_debt =
            calc_expected_total_stable_debt B before.principal_stable_debt
              before.average_stable_borrow_rate before.total_stable_debt_last_updated tx_timestamp
        let total_variable_debt = calc_expected_total_variable_debt B before variable_borrow_index
        let utilization_rate =
            calc_expected_utilization_rate B total_stable_debt total_variable_debt total_liquidity
        rates ←
            calc_expected_interest_rates B reserves_params before.symbol before.market_stable_rate
              utilization_rate total_stable_debt total_variable_debt
              before.average_stable_borrow_rate
        some (record {
          address = before.address;
          total_liquidity = total_liquidity;
          available_liquidity = available_liquidity;
          total_stable_debt = total_stable_debt;
          total_variable_debt = total_variable_debt;
          principal_stable_debt = before.principal_stable_debt;
          scaled_variable_debt = before.scaled_variable_debt;
          average_stable_borrow_rate = before.average_stable_borrow_rate;
          variable_borrow_rate = rates.2;
          stable_borrow_rate = rates.1;
          utilization_rate = utilization_rate;
          liquidity_index = calc_expected_liquidity_index B after tx_timestamp;
          variable_borrow_index = variable_borrow_index;
          liquidity_rate = rates.0;
          last_update_timestamp = none;
        })
