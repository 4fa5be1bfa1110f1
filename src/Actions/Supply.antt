-- ===== src/Actions/Supply.antt =====
-- `mint`, `approve`, `approveVault`, `deposit`, `depositCollateral`, `withdraw` and
-- `withdrawCollateral` of actions.ts.
use text.Mathlib.Text.{◌==◌ as str_eq}
use code4rena_may.Base.{String, [], ◌∷◌, Option, none, some, if◌then◌else◌}
use code4rena_may.Base.Int.{ℤ, pos}
use code4rena_may.BigNumber.{BigNumber}
use code4rena_may.Effects.{Action, ◌>>=◌, ◌>>◌}
use code4rena_may.Calculations.Reserve.Deposit.{
  calc_expected_reserve_data_after_deposit, calc_expected_reserve_data_after_deposit_collateral,
}
use code4rena_may.Calculations.Reserve.Withdraw.{
  calc_expected_reserve_data_after_withdraw, calc_expected_reserve_data_after_withdraw_collateral,
}
use code4rena_may.Calculations.User.Deposit.{
  calc_expected_user_data_after_deposit, calc_expected_user_data_after_deposit_collateral,
}
use code4rena_may.Calculations.User.Withdraw.{
  calc_expected_user_data_after_withdraw, calc_expected_user_data_after_withdraw_collateral,
}
use code4rena_may.Actions.{Chain, Call}
use code4rena_may.Actions.Reads.{
  defined, get_mintable_erc20, convert_to_currency_decimals, impersonate_accounts_hardhat,
  get_reserve_address_from_symbol, get_contracts_data, get_data_before_action, amount_or_all,
  value_of,
}
use code4rena_may.Actions.Steps.{
  as_reserve_data, by_expectation, transact, compare_both, transact_and_compare,
}
use code4rena_may.Actions.Equality.{
  compare_reserve, compare_user, without, expect_equal, expect_true,
}

-- `'100000000000000000000000000000'`
abbrev pub allowance : ℤ
allowance = pos 100_000_000_000_000_000_000_000_000_000

module _ {B : BigNumber} (C : Chain B) where
  open B use {BN, of_string, minus, lte}

  -- The owner of the tokens, and the token.
  unfoldable pub mint_source : String → Option (String × String)
  mint_source reserve_symbol =
      if str_eq reserve_symbol "USDC"
      then some ("0x93C08a3168fC469F3fC165cd3A471D19a37ca19e", C.usdc)
      else if str_eq reserve_symbol "DAI"
      then some ("0x6Bf97f2534be2242dDb3A29bfb24d498212DcdED", C.dai)
      else if str_eq reserve_symbol "yvWFTM"
      then some ("0x4901C740607E415685b4d09E4Aa960329cd183Ca", C.wftm)
      else none

  unfoldable pub mint : String → String → Option C.User → Action C.World (Unit {0})
  mint reserve_symbol amount user = defined C (mint_source reserve_symbol) >>= λ source.
      convert_to_currency_decimals C source.1 amount >>= λ deposit_amount.
      impersonate_accounts_hardhat C (source.0 ∷ [])
      >> (C.signer_at source.0 >>= λ signer. defined C user >>= λ u.
          transact C signer (Call.transfer source.1 (C.address u) deposit_amount))

  unfoldable pub approve : String → Option C.User → Action C.World (Unit {0})
  approve reserve_symbol user = get_reserve_address_from_symbol C reserve_symbol >>= λ reserve.
      get_mintable_erc20 C (some reserve) >>= λ token.
      defined C user >>= λ u. transact C u (Call.approve token C.pool_address allowance)

  unfoldable pub approve_vault : String → Option C.User → Action C.World (Unit {0})
  approve_vault reserve_symbol user = get_mintable_erc20 C (some C.wftm) >>= λ token.
      defined C user >>= λ u. transact C u (Call.approve token C.yearn_vault allowance)

  unfoldable pub deposit :
      String
      → String
      → Option C.User
      → String
      → Option String
      → String
      → Option String
      → Action C.World (Unit {0})
  deposit reserve_symbol amount sender on_behalf_of send_value expected_result revert_message =
      get_reserve_address_from_symbol C reserve_symbol >>= λ reserve.
      convert_to_currency_decimals C reserve amount >>= λ amount_to_deposit.
      defined C sender >>= λ u.
      get_contracts_data C reserve on_behalf_of (some (C.address u)) >>= λ before.
      value_of C reserve send_value >>= λ value.
      let call = Call.deposit reserve amount_to_deposit on_behalf_of value in
      by_expectation C expected_result
        (transact_and_compare C u call
          (get_contracts_data C reserve on_behalf_of (some (C.address u)))
          (compare_both C
            (λ after time.
              calc_expected_reserve_data_after_deposit B C.reserves_params amount_to_deposit
                before.reserve_data time)
            (λ after expected time.
              calc_expected_user_data_after_deposit B C.reserves_config amount_to_deposit
                before.reserve_data (as_reserve_data C expected) before.user_data time
                reserve_symbol)))
        (C.expect_reverted (C.send u call) revert_message)

  -- `x.minus(y).lte(n)`
  abbrev pub at_most : BN → BN → ℤ → Action C.World (Unit {0})
  at_most x y n = expect_true B C (lte (minus x y) (of_string n))

  unfoldable pub deposit_collateral :
      String
      → String
      → Option C.User
      → String
      → Option String
      → String
      → Option String
      → Action C.World (Unit {0})
  deposit_collateral reserve_symbol amount sender on_behalf_of send_value expected_result
        revert_message =
      get_reserve_address_from_symbol C reserve_symbol >>= λ reserve.
      convert_to_currency_decimals C reserve amount >>= λ amount_to_deposit.
      defined C sender >>= λ u.
      get_contracts_data C reserve on_behalf_of (some (C.address u)) >>= λ before.
      value_of C C.wftm send_value >>= λ value.
      by_expectation C expected_result
        (transact_and_compare C u (Call.deposit_collateral C.wftm amount_to_deposit value)
          (get_contracts_data C reserve on_behalf_of (some (C.address u)))
          (λ after time.
            defined C (
              calc_expected_reserve_data_after_deposit_collateral B C.reserves_params
                amount_to_deposit before.reserve_data after.reserve_data time)
            >>= λ expected.
                let actual = after.reserve_data in
                let user = after.user_data in
                let expected_user =
                  calc_expected_user_data_after_deposit_collateral B C.reserves_config
                    amount_to_deposit before.reserve_data (as_reserve_data C expected)
                    before.user_data time reserve_symbol in
                expect_equal B C (
                  without B ("totalLiquidity" ∷ "availableLiquidity" ∷ [])
                    (compare_reserve B actual expected))
                >> (at_most expected.total_liquidity actual.total_liquidity (pos 10_000)
                    >> (at_most expected.available_liquidity actual.available_liquidity (pos 10_000)
                        >> (expect_equal B C (
                              without B ("scaledATokenBalance" ∷ "currentATokenBalance" ∷ [])
                                (compare_user B user expected_user))
                            >> (at_most expected_user.scaled_a_token_balance
                                  user.scaled_a_token_balance (pos 1000)
                                >> at_most expected_user.current_a_token_balance
                                    user.current_a_token_balance (pos 1000)))))))
        (C.expect_reverted (C.send u (Call.deposit_collateral reserve amount_to_deposit value))
          revert_message)

  unfoldable pub withdraw :
      String → String → Option C.User → String → Option String → Action C.World (Unit {0})
  withdraw reserve_symbol amount user expected_result revert_message = defined C user >>= λ u.
      get_data_before_action C reserve_symbol (C.address u) >>= λ data1.
      let (reserve, before) = data1 in
      amount_or_all C reserve amount >>= λ amount_to_withdraw.
      let call = Call.withdraw reserve amount_to_withdraw (C.address u) in
      by_expectation C expected_result
        (transact_and_compare C u call (get_contracts_data C reserve (C.address u) none) (
          compare_both C
            (λ after time.
              calc_expected_reserve_data_after_withdraw B C.reserves_params amount_to_withdraw
                before.reserve_data before.user_data time)
            (λ after expected time.
              calc_expected_user_data_after_withdraw B amount_to_withdraw before.reserve_data
                (as_reserve_data C expected) before.user_data time)))
        (C.expect_reverted (C.send u call) revert_message)

  unfoldable pub withdraw_collateral :
      String → String → Option C.User → String → Option String → Action C.World (Unit {0})
  withdraw_collateral reserve_symbol amount user expected_result revert_message =
      defined C user >>= λ u. get_data_before_action C reserve_symbol (C.address u) >>= λ data1.
      let (reserve, before) = data1 in
      amount_or_all C C.wftm amount >>= λ amount_to_withdraw.
      by_expectation C expected_result
        (transact_and_compare C u (Call.withdraw_collateral C.wftm amount_to_withdraw (C.address u))
          (get_contracts_data C reserve (C.address u) none)
          (λ after time.
            defined C (
              calc_expected_reserve_data_after_withdraw_collateral B C.reserves_params
                amount_to_withdraw before.reserve_data after.reserve_data before.user_data time)
            >>= λ expected.
                let user_after = after.user_data in
                let expected_user =
                  calc_expected_user_data_after_withdraw_collateral B amount_to_withdraw
                    before.reserve_data (as_reserve_data C expected) before.user_data time in
                let remained =
                  without B ("walletBalance" ∷ []) (compare_user B user_after expected_user) in
                expect_equal B C (compare_reserve B after.reserve_data expected)
                >> (expect_equal B C remained
                    >> (at_most user_after.wallet_balance expected_user.wallet_balance (pos 1000)
                        >> expect_equal B C remained))))
        (C.expect_reverted
          (C.send u (Call.withdraw_collateral reserve amount_to_withdraw (C.address u)))
          revert_message)
