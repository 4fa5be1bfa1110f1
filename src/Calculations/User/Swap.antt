-- ===== src/Calculations/User/Swap.antt =====
-- calcExpectedUserDataAfterSwapRateMode and calcExpectedUserDataAfterStableRateRebalance: both start
-- from a copy of the data before.
use code4rena_may.Base.{if◌then◌else◌}
use code4rena_may.Base.Int.{pos}
use code4rena_may.BigNumber.{BigNumber}
use code4rena_may.Math.{ray_mul, ray_div}
use code4rena_may.Market.{ReserveData, UserReserveData}
use code4rena_may.Market.RateMode.{RateMode, is_stable}
use code4rena_may.Calculations.Balances.{
  calc_expected_a_token_balance, calc_expected_variable_debt_token_balance,
  calc_expected_user_stable_rate, user_stable_debt,
}

module _ (B : BigNumber) where
  open B use {BN, of_string, plus}

  pub calc_expected_user_data_after_swap_rate_mode :
      ReserveData BN → ReserveData BN → UserReserveData BN → RateMode → BN → UserReserveData BN
  calc_expected_user_data_after_swap_rate_mode reserve_before reserve_after before mode
        tx_timestamp =
      let stable_debt_balance = user_stable_debt B before tx_timestamp in
      let variable_debt_balance =
        calc_expected_variable_debt_token_balance B reserve_before before tx_timestamp in
      let scaled_debt =
        plus before.scaled_variable_debt
          (ray_div B stable_debt_balance reserve_after.variable_borrow_index) in
      let stable_debt = plus before.current_stable_debt variable_debt_balance in
      let copied : UserReserveData BN = record before {
        current_a_token_balance =
            calc_expected_a_token_balance B reserve_before before tx_timestamp;
        liquidity_rate = reserve_after.liquidity_rate;
      } in
      if is_stable mode
      then record copied {
        current_stable_debt = of_string (pos 0);
        principal_stable_debt = of_string (pos 0);
        stable_borrow_rate = of_string (pos 0);
        scaled_variable_debt = scaled_debt;
        current_variable_debt = ray_mul B scaled_debt reserve_after.variable_borrow_index;
        stable_rate_last_updated = of_string (pos 0);
      }
      else record copied {
        principal_stable_debt = stable_debt;
        current_stable_debt = stable_debt;
        stable_borrow_rate =
            calc_expected_user_stable_rate B stable_debt_balance before.stable_borrow_rate
              variable_debt_balance reserve_before.stable_borrow_rate;
        stable_rate_last_updated = tx_timestamp;
        current_variable_debt = of_string (pos 0);
        scaled_variable_debt = of_string (pos 0);
      }

  pub calc_expected_user_data_after_stable_rate_rebalance :
      ReserveData BN → ReserveData BN → UserReserveData BN → BN → UserReserveData BN
  calc_expected_user_data_after_stable_rate_rebalance reserve_before reserve_after before
        tx_timestamp =
      let stable_debt = user_stable_debt B before tx_timestamp in
      record before {
        principal_stable_debt = stable_debt;
        current_stable_debt = stable_debt;
        current_variable_debt =
            calc_expected_variable_debt_token_balance B reserve_before before tx_timestamp;
        stable_rate_last_updated = tx_timestamp;
        principal_variable_debt = before.principal_variable_debt;
        stable_borrow_rate = reserve_after.average_stable_borrow_rate;
        liquidity_rate = reserve_after.liquidity_rate;
        current_a_token_balance =
            calc_expected_a_token_balance B reserve_before before tx_timestamp;
      }
