-- ===== src/Calculations/User/Repay.antt =====
-- calcExpectedUserDataAfterRepay.
use code4rena_may.Base.{String, none, if◌then◌else◌}
use code4rena_may.Base.Int.{ℤ, pos}
use code4rena_may.BigNumber.{BigNumber}
use code4rena_may.Math.{ray_mul, ray_div}
use code4rena_may.Market.{ReserveData, UserReserveData}
use code4rena_may.Market.RateMode.{RateMode, is_stable}
use code4rena_may.Calculations.Balances.{
  calc_expected_a_token_balance, calc_expected_variable_debt_token_balance, user_stable_debt,
}
use code4rena_may.Calculations.Reserve.Repay.{amount_to_repay}
use text.Mathlib.Text.{◌==◌ as str_eq}

-- What the two branches of the rate mode set.
pub record UserDebtLeft (BN : Type 0) : Type 0 where
  pub scaled_variable_debt : BN
  pub current_variable_debt : BN
  pub principal_stable_debt : BN
  pub current_stable_debt : BN
  pub stable_borrow_rate : BN
  pub stable_rate_last_updated : BN

module _ (B : BigNumber) where
  open B use {BN, of_string, minus, eq}

  unfoldable pub user_debt_left :
      BN → RateMode → ReserveData BN → UserReserveData BN → BN → BN → BN → UserDebtLeft BN
  user_debt_left total_repaid mode reserve_after before stable_debt variable_debt tx_timestamp =
      let stable_left = minus stable_debt total_repaid in
      let repaid_all = eq stable_left (of_string (pos 0)) in
      let scaled_left =
        minus before.scaled_variable_debt
          (ray_div B total_repaid reserve_after.variable_borrow_index) in
      let stable : UserDebtLeft BN = record {
        scaled_variable_debt = before.scaled_variable_debt;
        current_variable_debt = variable_debt;
        principal_stable_debt = stable_left;
        current_stable_debt = stable_left;
        stable_borrow_rate = if repaid_all then of_string (pos 0) else before.stable_borrow_rate;
        stable_rate_last_updated = if repaid_all then of_string (pos 0) else tx_timestamp;
      } in
      let variable : UserDebtLeft BN = record {
        scaled_variable_debt = scaled_left;
        current_variable_debt = ray_mul B scaled_left reserve_after.variable_borrow_index;
        principal_stable_debt = stable_debt;
        current_stable_debt = before.principal_stable_debt;
        stable_borrow_rate = before.stable_borrow_rate;
        stable_rate_last_updated = before.stable_rate_last_updated;
      } in
      if is_stable mode then stable else variable

  unfoldable pub calc_expected_user_data_after_repay :
      ℤ
      → RateMode
      → ReserveData BN
      → ReserveData BN
      → UserReserveData BN
      → String
      → String
      → BN
      → BN
      → UserReserveData BN
  calc_expected_user_data_after_repay amount_repaid mode reserve_before reserve_after before user
        on_behalf_of tx_timestamp current_timestamp =
      let variable_debt =
        calc_expected_variable_debt_token_balance B reserve_before before current_timestamp in
      let stable_debt = user_stable_debt B before current_timestamp in
      let total_repaid = amount_to_repay B amount_repaid mode stable_debt variable_debt in
      let debt =
        user_debt_left total_repaid mode reserve_after before stable_debt variable_debt
          tx_timestamp in
      record {
        scaled_a_token_balance = before.scaled_a_token_balance;
        current_a_token_balance =
            calc_expected_a_token_balance B reserve_before before tx_timestamp;
        current_stable_debt = debt.current_stable_debt;
        current_variable_debt = debt.current_variable_debt;
        principal_stable_debt = debt.principal_stable_debt;
        scaled_variable_debt = debt.scaled_variable_debt;
        liquidity_rate = reserve_after.liquidity_rate;
        stable_borrow_rate = debt.stable_borrow_rate;
        stable_rate_last_updated = debt.stable_rate_last_updated;
        usage_as_collateral_enabled = before.usage_as_collateral_enabled;
        -- Only the wallet of a user who repays for himself is the one that is read.
        wallet_balance =
            if str_eq user on_behalf_of
            then minus before.wallet_balance total_repaid
            else before.wallet_balance;
        variable_borrow_index = none;
        principal_variable_debt = none;
      }
