-- ===== src/Calculations/Reserve/Withdraw.antt =====
-- calcExpectedReserveDataAfterWithdraw and calcExpectedReserveDataAfterWithdrawCollateral.
use code4rena_may.Base.{Option, some, none, ◌>>=◌, if◌then◌else◌}
use code4rena_may.Base.Int.{ℤ, eq_ℤ}
use code4rena_may.BigNumber.{BigNumber}
use code4rena_may.Constants.{max_uint_amount}
use code4rena_may.Math.{ray_mul, ray_div}
use code4rena_may.Market.{
  SymbolMap, ReserveParams, ReserveData, ExpectedReserveData, UserReserveData,
}
use code4rena_may.Calculations.Interest.{
  calc_expected_liquidity_index, calc_expected_variable_borrow_index,
  calc_expected_total_stable_debt,
}
use code4rena_may.Calculations.Balances.{calc_expected_a_token_balance}
use code4rena_may.Calculations.Rates.{calc_expected_utilization_rate, calc_expected_interest_rates}

module _ (B : BigNumber) (reserves_params : SymbolMap ReserveParams) where
  open B use {BN, of_string, plus, minus, to_fixed, to_string}

  unfoldable pub calc_expected_reserve_data_after_withdraw :
      ℤ → ReserveData BN → UserReserveData BN → BN → Option (ExpectedReserveData BN)
  calc_expected_reserve_data_after_withdraw amount_given before user tx_timestamp = do
    let amount_withdrawn =
        (if eq_ℤ amount_given max_uint_amount
          then to_fixed (calc_expected_a_token_balance B before user tx_timestamp)
          else amount_given)
    let available_liquidity = minus before.available_liquidity (of_string amount_withdrawn)
    let variable_borrow_index = calc_expected_variable_borrow_index B before tx_timestamp
    let total_stable_debt =
        calc_expected_total_stable_debt B before.principal_stable_debt
          before.average_stable_borrow_rate before.total_stable_debt_last_updated tx_timestamp
    let total_variable_debt = ray_mul B before.scaled_variable_debt variable_borrow_index
    let total_liquidity =
        plus
          (plus (minus before.available_liquidity (of_string amount_withdrawn)) total_variable_debt)
          total_stable_debt
    let utilization_rate =
        calc_expected_utilization_rate B total_stable_debt total_variable_debt total_liquidity
    rates ←
        calc_expected_interest_rates B reserves_params before.symbol before.market_stable_rate
          utilization_rate total_stable_debt total_variable_debt before.average_stable_borrow_rate
    some (record {
      address = before.address;
      total_liquidity = total_liquidity;
      available_liquidity = available_liquidity;
      total_stable_debt = total_stable_debt;
      total_variable_debt = total_variable_debt;
      principal_stable_debt = before.principal_stable_debt;
      scaled_variable_debt = before.scaled_variable_debt;
      average_stable_borrow_rate = before.average_stable_borrow_rate;
      variable_borrow_rate = rates.2;
      stable_borrow_rate = rates.1;
      utilization_rate = utilization_rate;
      liquidity_index = calc_expected_liquidity_index B before tx_timestamp;
      variable_borrow_index = variable_borrow_index;
      liquidity_rate = rates.0;
      last_update_timestamp = none;
    })

  unfoldable pub calc_expected_reserve_data_after_withdraw_collateral :
      ℤ
      → ReserveData BN
      → ReserveData BN
      → UserReserveData BN
      → BN
      → Option (ExpectedReserveData BN)
  calc_expected_reserve_data_after_withdraw_collateral amount_given before after user tx_timestamp =
      do
        let amount_withdrawn =
            (if eq_ℤ amount_given max_uint_amount
              then to_string user.scaled_a_token_balance
              else amount_given)
        let scaled_amount = ray_div B (of_string amount_withdrawn) after.liquidity_index
        let available_liquidity = minus before.available_liquidity scaled_amount
        let variable_borrow_index = calc_expected_variable_borrow_index B before tx_timestamp
        let total_stable_debt =
            calc_expected_total_stable_debt B before.principal_stable_debt
              before.average_stable_borrow_rate before.total_stable_debt_last_updated tx_timestamp
        let total_variable_debt = ray_mul B before.scaled_variable_debt variable_borrow_index
        let total_liquidity =
            plus (plus (minus before.available_liquidity scaled_amount) total_variable_debt)
              total_stable_debt
        let utilization_rate =
            calc_expected_utilization_rate B total_stable_debt total_variable_debt total_liquidity
        rates ←
            calc_expected_interest_rates B reserves_params before.symbol before.market_stable_rate
              utilization_rate total_stable_debt total_variable_debt
              before.average_stable_borrow_rate
        some (record {
          address = before.address;
          total_liquidity = total_liquidity;
          available_liquidity = available_liquidity;
          total_stable_debt = total_stable_debt;
          total_variable_debt = total_variable_debt;
          principal_stable_debt = before.principal_stable_debt;
          scaled_variable_debt = before.scaled_variable_debt;
          average_stable_borrow_rate = before.average_stable_borrow_rate;
          variable_borrow_rate = rates.2;
          stable_borrow_rate = rates.1;
          utilization_rate = utilization_rate;
          liquidity_index = calc_expected_liquidity_index B after tx_timestamp;
          variable_borrow_index = variable_borrow_index;
          liquidity_rate = rates.0;
          last_update_timestamp = none;
        })
