-- ===== src/Calculations/User/Borrow.antt =====
-- calcExpectedUserDataAfterBorrow.
use code4rena_may.Base.{none, if◌then◌else◌}
use code4rena_may.Base.Int.{ℤ}
use code4rena_may.BigNumber.{BigNumber}
use code4rena_may.Math.{ray_mul, ray_div}
use code4rena_may.Market.{ReserveData, UserReserveData}
use code4rena_may.Market.RateMode.{RateMode, is_stable}
use code4rena_may.Calculations.Interest.{calc_expected_reserve_normalized_debt}
use code4rena_may.Calculations.Balances.{
  calc_expected_a_token_balance, calc_expected_stable_debt_token_balance,
  calc_expected_user_stable_rate, user_stable_debt,
}

-- What the two branches of the rate mode set.
pub record BorrowedDebt (BN : Type 0) : Type 0 where
  pub principal_stable_debt : BN
  pub stable_rate_last_updated : BN
  pub stable_borrow_rate : BN
  pub current_stable_debt : BN
  pub scaled_variable_debt : BN

module _ (B : BigNumber) where
  open B use {BN, of_string, plus}

  unfoldable pub borrowed_debt :
      BN
      → RateMode
      → ReserveData BN
      → ReserveData BN
      → UserReserveData BN
      → BN
      → BN
      → BorrowedDebt BN
  borrowed_debt amount mode reserve_before reserve_after before tx_timestamp current_timestamp =
      let stable_debt_until_tx = user_stable_debt B before tx_timestamp in
      let principal = plus stable_debt_until_tx amount in
      let rate =
        calc_expected_user_stable_rate B stable_debt_until_tx before.stable_borrow_rate amount
          reserve_before.stable_borrow_rate in
      let stable : BorrowedDebt BN = record {
        principal_stable_debt = principal;
        stable_rate_last_updated = tx_timestamp;
        stable_borrow_rate = rate;
        current_stable_debt =
            calc_expected_stable_debt_token_balance B principal rate tx_timestamp current_timestamp;
        scaled_variable_debt = before.scaled_variable_debt;
      } in
      let variable : BorrowedDebt BN = record {
        principal_stable_debt = before.principal_stable_debt;
        stable_rate_last_updated = before.stable_rate_last_updated;
        stable_borrow_rate = before.stable_borrow_rate;
        current_stable_debt = user_stable_debt B before current_timestamp;
        scaled_variable_debt =
            plus before.scaled_variable_debt (ray_div B amount reserve_after.variable_borrow_index);
      } in
      if is_stable mode then stable else variable

  -- `reserve_after` is the expected data of the reserve after the action. The variable debt is
  -- calcExpectedVariableDebtTokenBalance of the scaled debt after the action.
  unfoldable pub calc_expected_user_data_after_borrow :
      ℤ
      → RateMode
      → ReserveData BN
      → ReserveData BN
      → UserReserveData BN
      → BN
      → BN
      → UserReserveData BN
  calc_expected_user_data_after_borrow amount_borrowed mode reserve_before reserve_after before
        tx_timestamp current_timestamp =
      let debt =
        borrowed_debt (of_string amount_borrowed) mode reserve_before reserve_after before
          tx_timestamp current_timestamp in
      record {
        scaled_a_token_balance = before.scaled_a_token_balance;
        current_a_token_balance =
            calc_expected_a_token_balance B reserve_after before current_timestamp;
        current_stable_debt = debt.current_stable_debt;
        current_variable_debt = ray_mul B debt.scaled_variable_debt (
            calc_expected_reserve_normalized_debt B reserve_after.variable_borrow_rate
              reserve_after.variable_borrow_index reserve_after.last_update_timestamp
              current_timestamp);
        principal_stable_debt = debt.principal_stable_debt;
        scaled_variable_debt = debt.scaled_variable_debt;
        liquidity_rate = reserve_after.liquidity_rate;
        stable_borrow_rate = debt.stable_borrow_rate;
        stable_rate_last_updated = debt.stable_rate_last_updated;
        usage_as_collateral_enabled = before.usage_as_collateral_enabled;
        wallet_balance = plus before.wallet_balance (of_string amount_borrowed);
        variable_borrow_index = none;
        principal_variable_debt = none;
      }
