-- ===== src/Calculations/Reserve/Borrow.antt =====
-- calcExpectedReserveDataAfterBorrow, a function for each rate mode.
use code4rena_may.Base.{Option, some, ◌>>=◌, if◌then◌else◌}
use code4rena_may.Base.Int.{ℤ}
use code4rena_may.BigNumber.{BigNumber}
use code4rena_may.Math.{ray_mul, ray_div}
use code4rena_may.Market.{SymbolMap, ReserveParams, ReserveData, ExpectedReserveData}
use code4rena_may.Market.RateMode.{RateMode, is_stable}
use code4rena_may.Calculations.Interest.{
  calc_expected_liquidity_index, calc_expected_variable_borrow_index,
  calc_expected_total_stable_debt, calc_expected_reserve_normalized_debt,
}
use code4rena_may.Calculations.Balances.{
  calc_expected_average_stable_borrow_rate, calc_expected_stable_debt_token_balance,
}
use code4rena_may.Calculations.Rates.{calc_expected_utilization_rate, calc_expected_interest_rates}

module _ (B : BigNumber) (reserves_params : SymbolMap ReserveParams) where
  open B use {BN, of_string, plus, minus}

  -- The branch `borrowRateMode == RateMode.Stable`.
  unfoldable pub after_stable_borrow :
      BN → ReserveData BN → BN → BN → Option (ExpectedReserveData BN)
  after_stable_borrow amount before tx_timestamp current_timestamp = do
    let variable_borrow_index = calc_expected_variable_borrow_index B before tx_timestamp
    let available_liquidity = minus before.available_liquidity amount
    let variable_debt_after_tx = ray_mul B before.scaled_variable_debt variable_borrow_index
    let stable_debt_until_tx =
        calc_expected_total_stable_debt B before.principal_stable_debt
          before.average_stable_borrow_rate before.total_stable_debt_last_updated tx_timestamp
    let principal_stable_debt = plus stable_debt_until_tx amount
    let average_stable_borrow_rate =
        calc_expected_average_stable_borrow_rate B before.average_stable_borrow_rate
          stable_debt_until_tx amount before.stable_borrow_rate
    let total_liquidity_after_tx =
        plus (plus available_liquidity principal_stable_debt) variable_debt_after_tx
    let utilization_rate_after_tx =
        calc_expected_utilization_rate B principal_stable_debt variable_debt_after_tx
          total_liquidity_after_tx
    rates ←
        calc_expected_interest_rates B reserves_params before.symbol before.market_stable_rate
          utilization_rate_after_tx principal_stable_debt variable_debt_after_tx
          average_stable_borrow_rate
    let total_stable_debt =
        calc_expected_total_stable_debt B principal_stable_debt average_stable_borrow_rate
          tx_timestamp current_timestamp
    let total_variable_debt = ray_mul B before.scaled_variable_debt (
        calc_expected_reserve_normalized_debt B rates.2 variable_borrow_index tx_timestamp
          current_timestamp)
    let total_liquidity = plus (plus available_liquidity total_variable_debt) total_stable_debt
    some (record {
      address = before.address;
      total_liquidity = total_liquidity;
      available_liquidity = available_liquidity;
      total_stable_debt = total_stable_debt;
      total_variable_debt = total_variable_debt;
      principal_stable_debt = principal_stable_debt;
      scaled_variable_debt = before.scaled_variable_debt;
      average_stable_borrow_rate = average_stable_borrow_rate;
      variable_borrow_rate = rates.2;
      stable_borrow_rate = rates.1;
      utilization_rate =
          calc_expected_utilization_rate B total_stable_debt total_variable_debt total_liquidity;
      liquidity_index = calc_expected_liquidity_index B before tx_timestamp;
      variable_borrow_index = variable_borrow_index;
      liquidity_rate = rates.0;
      last_update_timestamp = some tx_timestamp;
    })

  -- The other branch.
  unfoldable pub after_variable_borrow :
      BN → ReserveData BN → BN → BN → Option (ExpectedReserveData BN)
  after_variable_borrow amount before tx_timestamp current_timestamp = do
    let variable_borrow_index = calc_expected_variable_borrow_index B before tx_timestamp
    let available_liquidity = minus before.available_liquidity amount
    let total_stable_debt_after_tx =
        calc_expected_stable_debt_token_balance B before.principal_stable_debt
          before.average_stable_borrow_rate before.total_stable_debt_last_updated tx_timestamp
    let total_stable_debt =
        calc_expected_total_stable_debt B before.principal_stable_debt
          before.average_stable_borrow_rate before.total_stable_debt_last_updated current_timestamp
    let scaled_variable_debt =
        plus before.scaled_variable_debt (ray_div B amount variable_borrow_index)
    let total_variable_debt_after_tx = ray_mul B scaled_variable_debt variable_borrow_index
    let utilization_rate_after_tx =
        calc_expected_utilization_rate B total_stable_debt_after_tx total_variable_debt_after_tx
          (plus (plus available_liquidity total_stable_debt_after_tx) total_variable_debt_after_tx)
    rates ←
        calc_expected_interest_rates B reserves_params before.symbol before.market_stable_rate
          utilization_rate_after_tx total_stable_debt_after_tx total_variable_debt_after_tx
          before.average_stable_borrow_rate
    let total_variable_debt = ray_mul B scaled_variable_debt (
        calc_expected_reserve_normalized_debt B rates.2 variable_borrow_index tx_timestamp
          current_timestamp)
    let total_liquidity = plus (plus available_liquidity total_stable_debt) total_variable_debt
    some (record {
      address = before.address;
      total_liquidity = total_liquidity;
      available_liquidity = available_liquidity;
      total_stable_debt = total_stable_debt;
      total_variable_debt = total_variable_debt;
      principal_stable_debt = before.principal_stable_debt;
      scaled_variable_debt = scaled_variable_debt;
      average_stable_borrow_rate = before.average_stable_borrow_rate;
      variable_borrow_rate = rates.2;
      stable_borrow_rate = rates.1;
      utilization_rate =
          calc_expected_utilization_rate B total_stable_debt total_variable_debt total_liquidity;
      liquidity_index = calc_expected_liquidity_index B before tx_timestamp;
      variable_borrow_index = variable_borrow_index;
      liquidity_rate = rates.0;
      last_update_timestamp = some tx_timestamp;
    })

  unfoldable pub calc_expected_reserve_data_after_borrow :
      ℤ → RateMode → ReserveData BN → BN → BN → Option (ExpectedReserveData BN)
  calc_expected_reserve_data_after_borrow amount_borrowed borrow_rate_mode before tx_timestamp
        current_timestamp =
      if is_stable borrow_rate_mode
      then after_stable_borrow (of_string amount_borrowed) before tx_timestamp current_timestamp
      else after_variable_borrow (of_string amount_borrowed) before tx_timestamp current_timestamp
