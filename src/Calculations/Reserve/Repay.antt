-- ===== src/Calculations/Reserve/Repay.antt =====
-- calcExpectedReserveDataAfterRepay.
use code4rena_may.Base.{Option, some, ◌>>=◌, if◌then◌else◌}
use code4rena_may.Base.Int.{ℤ, pos}
use code4rena_may.BigNumber.{BigNumber}
use code4rena_may.Constants.{max_uint_amount}
use code4rena_may.Math.{ray_mul, ray_div}
use code4rena_may.Market.{
  SymbolMap, ReserveParams, ReserveData, ExpectedReserveData, UserReserveData,
}
use code4rena_may.Market.RateMode.{RateMode, is_stable}
use code4rena_may.Calculations.Interest.{
  calc_expected_liquidity_index, calc_expected_variable_borrow_index,
  calc_expected_total_stable_debt,
}
use code4rena_may.Calculations.Balances.{
  calc_expected_average_stable_borrow_rate, calc_expected_variable_debt_token_balance,
  user_stable_debt,
}
use code4rena_may.Calculations.Rates.{calc_expected_utilization_rate, calc_expected_interest_rates}

-- The debts that the two branches of the rate mode set.
pub record RepaidDebt (BN : Type 0) : Type 0 where
  pub principal_stable_debt : BN
  pub total_stable_debt : BN
  pub average_stable_borrow_rate : BN
  pub scaled_variable_debt : BN
  pub total_variable_debt : BN

module _ (B : BigNumber) where
  open B use {BN, of_string, plus, minus, negated, abs, eq, lt}

  -- The amount, with the largest integer standing for the whole debt.
  unfoldable pub amount_to_repay : ℤ → RateMode → BN → BN → BN
  amount_to_repay amount_repaid mode user_stable_debt user_variable_debt =
      if eq (abs (of_string amount_repaid)) (of_string max_uint_amount)
      then (if is_stable mode then user_stable_debt else user_variable_debt)
      else of_string amount_repaid

  -- The stable debt that is left and its average rate: both are erased where accumulation errors
  -- make one of them negative.
  unfoldable pub stable_debt_left : BN → ReserveData BN → UserReserveData BN → BN → BN × BN
  stable_debt_left amount before user tx_timestamp =
      let expected_debt =
        calc_expected_total_stable_debt B before.principal_stable_debt
          before.average_stable_borrow_rate before.total_stable_debt_last_updated tx_timestamp in
      let total_stable_debt = minus expected_debt amount in
      let average_stable_borrow_rate =
        calc_expected_average_stable_borrow_rate B before.average_stable_borrow_rate expected_debt
          (negated amount) user.stable_borrow_rate in
      let erased : BN × BN = (of_string (pos 0), of_string (pos 0)) in
      if lt total_stable_debt (of_string (pos 0))
      then erased
      else (if lt average_stable_borrow_rate (of_string (pos 0))
          then erased
          else (total_stable_debt, average_stable_borrow_rate))

  unfoldable pub repaid_debt :
      BN → RateMode → ReserveData BN → UserReserveData BN → BN → BN → RepaidDebt BN
  repaid_debt amount mode before user variable_borrow_index tx_timestamp =
      let (stable_debt, average_rate) = stable_debt_left amount before user tx_timestamp in
      let scaled_left =
        minus before.scaled_variable_debt (ray_div B amount variable_borrow_index) in
      let stable : RepaidDebt BN = record {
        principal_stable_debt = stable_debt;
        total_stable_debt = stable_debt;
        average_stable_borrow_rate = average_rate;
        scaled_variable_debt = before.scaled_variable_debt;
        total_variable_debt = ray_mul B before.scaled_variable_debt variable_borrow_index;
      } in
      let variable : RepaidDebt BN = record {
        principal_stable_debt = before.principal_stable_debt;
        total_stable_debt = before.total_stable_debt;
        average_stable_borrow_rate = before.average_stable_borrow_rate;
        scaled_variable_debt = scaled_left;
        total_variable_debt = ray_mul B scaled_left variable_borrow_index;
      } in
      if is_stable mode then stable else variable

  module _ (reserves_params : SymbolMap ReserveParams) where
    unfoldable pub calc_expected_reserve_data_after_repay :
        ℤ → RateMode → ReserveData BN → UserReserveData BN → BN → Option (ExpectedReserveData BN)
    calc_expected_reserve_data_after_repay amount_repaid mode before user tx_timestamp = do
      let amount =
          amount_to_repay amount_repaid mode (user_stable_debt B user tx_timestamp)
            (calc_expected_variable_debt_token_balance B before user tx_timestamp)
      let variable_borrow_index = calc_expected_variable_borrow_index B before tx_timestamp
      let debt = repaid_debt amount mode before user variable_borrow_index tx_timestamp
      let available_liquidity = plus before.available_liquidity amount
      let total_liquidity =
          plus (plus available_liquidity debt.total_stable_debt) debt.total_variable_debt
      let utilization_rate =
          calc_expected_utilization_rate B debt.total_stable_debt debt.total_variable_debt
            total_liquidity
      rates ←
          calc_expected_interest_rates B reserves_params before.symbol before.market_stable_rate
            utilization_rate debt.total_stable_debt debt.total_variable_debt
            debt.average_stable_borrow_rate
      some (record {
        address = before.address;
        total_liquidity = total_liquidity;
        available_liquidity = available_liquidity;
        total_stable_debt = debt.total_stable_debt;
        total_variable_debt = debt.total_variable_debt;
        principal_stable_debt = debt.principal_stable_debt;
        scaled_variable_debt = debt.scaled_variable_debt;
        average_stable_borrow_rate = debt.average_stable_borrow_rate;
        variable_borrow_rate = rates.2;
        stable_borrow_rate = rates.1;
        utilization_rate = utilization_rate;
        liquidity_index = calc_expected_liquidity_index B before tx_timestamp;
        variable_borrow_index = variable_borrow_index;
        liquidity_rate = rates.0;
        last_update_timestamp = some tx_timestamp;
      })
