-- ===== src/Calculations/User/Deposit.antt =====
-- calcExpectedUserDataAfterDeposit, calcExpectedUserDataAfterDepositCollateral and
-- calcExpectedUserDataAfterSetUseAsCollateral. Where a field is assigned several times, the record
-- holds the last value: the principal stable debt ends as the balance of the variable debt.
use code4rena_may.Base.{String, Bool, true, false, ◌&&◌, some, none, if◌then◌else◌}
use code4rena_may.Base.Int.{ℤ, pos}
use code4rena_may.BigNumber.{BigNumber}
use code4rena_may.Market.{SymbolMap, ReserveParams, ReserveData, UserReserveData, lookup}
use code4rena_may.Calculations.Balances.{
  calc_expected_scaled_a_token_balance, calc_expected_a_token_balance,
  calc_expected_variable_debt_token_balance, user_stable_debt,
}

-- `config.ReservesConfig[reserveSymbol]?.collateralEnabled`, where `undefined` is falsy.
unfoldable pub collateral_enabled : SymbolMap ReserveParams → String → Bool
collateral_enabled reserves_config reserve_symbol = elim (lookup reserve_symbol reserves_config) [
  | none ↦ false
  | some params ↦ params.collateral_enabled
]

module _ (B : BigNumber) where
  open B use {BN, of_string, plus, minus, exponentiated_by, eq}

  -- The first deposit into a reserve that may serve as collateral switches the use on.
  unfoldable pub collateral_after_deposit :
      SymbolMap ReserveParams → String → UserReserveData BN → Bool
  collateral_after_deposit reserves_config reserve_symbol before =
      if collateral_enabled reserves_config reserve_symbol
        && eq before.current_a_token_balance (of_string (pos 0))
      then true
      else before.usage_as_collateral_enabled

  unfoldable pub calc_expected_user_data_after_deposit :
      SymbolMap ReserveParams
      → ℤ
      → ReserveData BN
      → ReserveData BN
      → UserReserveData BN
      → BN
      → String
      → UserReserveData BN
  calc_expected_user_data_after_deposit reserves_config amount_deposited reserve_before
        reserve_after before tx_timestamp reserve_symbol =
      let variable_debt =
        calc_expected_variable_debt_token_balance B reserve_before before tx_timestamp in
      record {
        scaled_a_token_balance =
            calc_expected_scaled_a_token_balance B before reserve_after.liquidity_index
              (of_string amount_deposited) (of_string (pos 0));
        current_a_token_balance =
            plus (calc_expected_a_token_balance B reserve_before before tx_timestamp)
              (of_string amount_deposited);
        current_stable_debt = user_stable_debt B before tx_timestamp;
        current_variable_debt = variable_debt;
        principal_stable_debt = variable_debt;
        scaled_variable_debt = before.scaled_variable_debt;
        liquidity_rate = reserve_after.liquidity_rate;
        stable_borrow_rate = before.stable_borrow_rate;
        stable_rate_last_updated = before.stable_rate_last_updated;
        usage_as_collateral_enabled =
            collateral_after_deposit reserves_config reserve_symbol before;
        wallet_balance = minus before.wallet_balance (of_string amount_deposited);
        variable_borrow_index = before.variable_borrow_index;
        principal_variable_debt = none;
      }

  pub calc_expected_user_data_after_deposit_collateral :
      SymbolMap ReserveParams
      → ℤ
      → ReserveData BN
      → ReserveData BN
      → UserReserveData BN
      → BN
      → String
      → UserReserveData BN
  calc_expected_user_data_after_deposit_collateral reserves_config amount_deposited reserve_before
        reserve_after before tx_timestamp reserve_symbol =
      let variable_debt =
        calc_expected_variable_debt_token_balance B reserve_before before tx_timestamp in
      let scaled_a_token_balance =
        calc_expected_scaled_a_token_balance B before (exponentiated_by (of_string (pos 10)) 27)
          (of_string amount_deposited) (of_string (pos 0)) in
      record {
        scaled_a_token_balance = scaled_a_token_balance;
        current_a_token_balance = scaled_a_token_balance;
        current_stable_debt = user_stable_debt B before tx_timestamp;
        current_variable_debt = variable_debt;
        principal_stable_debt = variable_debt;
        scaled_variable_debt = before.scaled_variable_debt;
        liquidity_rate = reserve_after.liquidity_rate;
        stable_borrow_rate = before.stable_borrow_rate;
        stable_rate_last_updated = before.stable_rate_last_updated;
        usage_as_collateral_enabled =
            collateral_after_deposit reserves_config reserve_symbol before;
        wallet_balance = minus before.wallet_balance (of_string amount_deposited);
        variable_borrow_index = before.variable_borrow_index;
        principal_variable_debt = none;
      }

  pub calc_expected_user_data_after_set_use_as_collateral :
      Bool → UserReserveData BN → UserReserveData BN
  calc_expected_user_data_after_set_use_as_collateral use_as_collateral before = record before {
    usage_as_collateral_enabled = use_as_collateral;
  }
