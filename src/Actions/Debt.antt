-- ===== src/Actions/Debt.antt =====
-- `delegateBorrowAllowance`, `borrow`, `repay` and `setUseAsCollateral` of actions.ts.
use text.Mathlib.Text.{◌==◌ as str_eq}
use code4rena_may.Base.{String, Option, none, some, if◌then◌else◌, ◌&&◌}
use code4rena_may.Base.Int.{pos, eq_ℤ}
use code4rena_may.BigNumber.{BigNumber}
use code4rena_may.Constants.{one_year}
use code4rena_may.Effects.{Action, pure, throw, ◌>>=◌, ◌>>◌}
use code4rena_may.Helpers.Verification.{truthy}
use code4rena_may.Market.RateMode.{RateMode}
use code4rena_may.Calculations.Reserve.Borrow.{calc_expected_reserve_data_after_borrow}
use code4rena_may.Calculations.Reserve.Repay.{calc_expected_reserve_data_after_repay}
use code4rena_may.Calculations.User.Borrow.{calc_expected_user_data_after_borrow}
use code4rena_may.Calculations.User.Repay.{calc_expected_user_data_after_repay}
use code4rena_may.Calculations.User.Deposit.{calc_expected_user_data_after_set_use_as_collateral}
use code4rena_may.Actions.{Chain, Call}
use code4rena_may.Actions.Reads.{
  defined, get_stable_debt_token, get_variable_debt_token, convert_to_currency_decimals,
  advance_time_and_block, get_reserve_address_from_symbol, get_contracts_data, amount_or_all,
  value_of,
}
use code4rena_may.Actions.Equality.{compare_user, expect_equal}
use code4rena_may.Actions.Steps.{
  as_reserve_data, by_expectation, transact, compare_both, transact_then_compare,
}

-- The string of a scenario as a value of `RateMode`.
unfoldable pub as_rate_mode : String → RateMode
as_rate_mode mode =
    if str_eq mode "0"
    then RateMode.none
    else if str_eq mode "1"
    then RateMode.stable
    else if str_eq mode "2"
    then RateMode.variable
    else RateMode.improper

module _ {B : BigNumber} (C : Chain B) where
  open B use {BN, of_string, multiplied_by, div}

  unfoldable pub delegate_borrow_allowance :
      String
      → String
      → String
      → Option C.User
      → String
      → String
      → Option String
      → Action C.World (Unit {0})
  delegate_borrow_allowance reserve amount interest_rate_mode user receiver expected_result
        revert_message =
      get_reserve_address_from_symbol C reserve >>= λ reserve_address.
      convert_to_currency_decimals C reserve_address amount >>= λ amount_to_delegate.
      C.pool_tokens reserve_address >>= λ tokens.
      (if str_eq interest_rate_mode "1"
        then get_stable_debt_token C tokens.stable_debt_token_address
        else get_variable_debt_token C tokens.variable_debt_token_address)
      >>= λ debt_token. defined C user >>= λ u.
          let call = Call.approve_delegation debt_token receiver amount_to_delegate in
          let success =
            transact C u call
            >> (C.borrow_allowance debt_token (C.address u) receiver >>= λ allowance.
                if eq_ℤ allowance amount_to_delegate
                then pure tt
                else throw "borrowAllowance is set incorrectly") in
          elim revert_message [
            | none ↦ success
            | some message ↦
                if str_eq expected_result "revert" && truthy (some message)
                then C.expect_reverted_with (C.send u call) message
                else success
          ]

  -- `if (timeTravel) { ... }`: days, in seconds.
  unfoldable pub travel : Option String → Action C.World (Unit {0})
  travel none = pure tt
  travel (some days) =
      if str_eq days ""
      then pure tt
      else advance_time_and_block C (
          C.to_number
            (div (multiplied_by (C.big_number days) (of_string one_year)) (of_string (pos 365))))

  unfoldable pub borrow :
      String
      → String
      → String
      → Option C.User
      → String
      → Option String
      → String
      → Option String
      → Action C.World (Unit {0})
  borrow reserve_symbol amount interest_rate_mode user on_behalf_of time_travel expected_result
        revert_message =
      get_reserve_address_from_symbol C reserve_symbol >>= λ reserve. defined C user >>= λ u.
      get_contracts_data C reserve on_behalf_of (some (C.address u)) >>= λ before.
      convert_to_currency_decimals C reserve amount >>= λ amount_to_borrow.
      let call = Call.borrow reserve amount_to_borrow interest_rate_mode on_behalf_of in
      by_expectation C expected_result
        (transact_then_compare C u call (travel time_travel)
          (get_contracts_data C reserve on_behalf_of (some (C.address u)))
          (compare_both C
            (λ after time.
              calc_expected_reserve_data_after_borrow B C.reserves_params amount_to_borrow
                (as_rate_mode interest_rate_mode) before.reserve_data time after.timestamp)
            (λ after expected time.
              calc_expected_user_data_after_borrow B amount_to_borrow
                (as_rate_mode interest_rate_mode) before.reserve_data (as_reserve_data C expected)
                before.user_data time after.timestamp)))
        (C.expect_reverted (C.send u call) revert_message)

  -- The hexadecimal numerals of the amounts are the integers that they denote.
  unfoldable pub repay :
      String
      → String
      → String
      → Option C.User
      → Option C.User
      → Option String
      → String
      → Option String
      → Action C.World (Unit {0})
  repay reserve_symbol amount rate_mode user on_behalf_of send_value expected_result
        revert_message =
      get_reserve_address_from_symbol C reserve_symbol >>= λ reserve.
      defined C on_behalf_of >>= λ debtor.
      get_contracts_data C reserve (C.address debtor) none >>= λ before.
      amount_or_all C reserve amount >>= λ amount_to_repay.
      value_of C reserve send_value >>= λ value.
      let call = Call.repay reserve amount_to_repay rate_mode (C.address debtor) value in
      by_expectation C expected_result
        (defined C user >>= λ u.
          transact_then_compare C u call (pure tt)
            (get_contracts_data C reserve (C.address debtor) none)
            (compare_both C
              (λ after time.
                calc_expected_reserve_data_after_repay B C.reserves_params amount_to_repay
                  (as_rate_mode rate_mode) before.reserve_data before.user_data time)
              (λ after expected time.
                calc_expected_user_data_after_repay B amount_to_repay (as_rate_mode rate_mode)
                  before.reserve_data (as_reserve_data C expected) before.user_data (C.address u)
                  (C.address debtor) time after.timestamp)))
        (defined C user >>= λ u. C.expect_reverted (C.send u call) revert_message)

  unfoldable pub set_use_as_collateral :
      String → Option C.User → String → String → Option String → Action C.World (Unit {0})
  set_use_as_collateral reserve_symbol user use_as_collateral expected_result revert_message =
      get_reserve_address_from_symbol C reserve_symbol >>= λ reserve. defined C user >>= λ u.
      get_contracts_data C reserve (C.address u) none >>= λ before.
      let call =
        Call.set_user_use_reserve_as_collateral reserve
          (str_eq (C.to_lower_case use_as_collateral) "true") in
      by_expectation C expected_result
        (transact_then_compare C u call (pure tt) (get_contracts_data C reserve (C.address u) none)
          (λ after time. expect_equal B C (
            compare_user B after.user_data (
              calc_expected_user_data_after_set_use_as_collateral B
                (str_eq (C.to_locale_lower_case use_as_collateral) "true") before.user_data))))
        (C.expect_reverted (C.send u call) revert_message)
