-- ===== src/Calculations/User/Withdraw.antt =====
-- calcExpectedUserDataAfterWithdraw and calcExpectedUserDataAfterWithdrawCollateral.
use code4rena_may.Base.{Bool, true, false, none, if◌then◌else◌}
use code4rena_may.Base.Int.{ℤ, pos, eq_ℤ}
use code4rena_may.BigNumber.{BigNumber}
use code4rena_may.Constants.{max_uint_amount}
use code4rena_may.Market.{ReserveData, UserReserveData}
use code4rena_may.Calculations.Balances.{
  calc_expected_scaled_a_token_balance, calc_expected_a_token_balance,
  calc_expected_variable_debt_token_balance, user_stable_debt,
}

module _ (B : BigNumber) where
  open B use {BN, of_string, plus, minus, exponentiated_by, eq, to_fixed0}

  -- The largest integer stands for the whole balance.
  unfoldable pub amount_to_withdraw : ℤ → BN → ℤ
  amount_to_withdraw amount_given a_token_balance =
      if eq_ℤ amount_given max_uint_amount then to_fixed0 a_token_balance else amount_given

  -- If the user is withdrawing everything, the use as collateral ends.
  unfoldable pub collateral_after_withdraw : UserReserveData BN → BN → Bool
  collateral_after_withdraw before current_a_token_balance =
      if eq before.current_a_token_balance (of_string (pos 0))
      then true
      else (if eq current_a_token_balance (of_string (pos 0))
          then false
          else before.usage_as_collateral_enabled)

  unfoldable pub calc_expected_user_data_after_withdraw :
      ℤ → ReserveData BN → ReserveData BN → UserReserveData BN → BN → UserReserveData BN
  calc_expected_user_data_after_withdraw amount_given reserve_before reserve_after before
        tx_timestamp =
      let a_token_balance = calc_expected_a_token_balance B reserve_before before tx_timestamp in
      let amount_withdrawn = amount_to_withdraw amount_given a_token_balance in
      let current_a_token_balance = minus a_token_balance (of_string amount_withdrawn) in
      record {
        scaled_a_token_balance =
            calc_expected_scaled_a_token_balance B before reserve_after.liquidity_index
              (of_string (pos 0)) (of_string amount_withdrawn);
        current_a_token_balance = current_a_token_balance;
        current_stable_debt = user_stable_debt B before tx_timestamp;
        current_variable_debt =
            calc_expected_variable_debt_token_balance B reserve_before before tx_timestamp;
        principal_stable_debt = before.principal_stable_debt;
        scaled_variable_debt = before.scaled_variable_debt;
        liquidity_rate = reserve_after.liquidity_rate;
        stable_borrow_rate = before.stable_borrow_rate;
        stable_rate_last_updated = before.stable_rate_last_updated;
        usage_as_collateral_enabled = collateral_after_withdraw before current_a_token_balance;
        wallet_balance = plus before.wallet_balance (of_string amount_withdrawn);
        variable_borrow_index = before.variable_borrow_index;
        principal_variable_debt = none;
      }

  pub calc_expected_user_data_after_withdraw_collateral :
      ℤ → ReserveData BN → ReserveData BN → UserReserveData BN → BN → UserReserveData BN
  calc_expected_user_data_after_withdraw_collateral amount_given reserve_before reserve_after before
        tx_timestamp =
      let amount_withdrawn = amount_to_withdraw amount_given before.scaled_a_token_balance in
      let scaled_a_token_balance =
        calc_expected_scaled_a_token_balance B before (exponentiated_by (of_string (pos 10)) 27)
          (of_string (pos 0)) (of_string amount_withdrawn) in
      record {
        scaled_a_token_balance = scaled_a_token_balance;
        current_a_token_balance = scaled_a_token_balance;
        current_stable_debt = user_stable_debt B before tx_timestamp;
        current_variable_debt =
            calc_expected_variable_debt_token_balance B reserve_before before tx_timestamp;
        principal_stable_debt = before.principal_stable_debt;
        scaled_variable_debt = before.scaled_variable_debt;
        liquidity_rate = reserve_after.liquidity_rate;
        stable_borrow_rate = before.stable_borrow_rate;
        stable_rate_last_updated = before.stable_rate_last_updated;
        usage_as_collateral_enabled = collateral_after_withdraw before scaled_a_token_balance;
        wallet_balance = plus before.wallet_balance (of_string amount_withdrawn);
        variable_borrow_index = before.variable_borrow_index;
        principal_variable_debt = none;
      }
