-- ===== src/Actions/Sturdy.antt =====
-- test-suites/test-sturdy/helpers/actions.ts and utils/helpers.ts: what differs from test-ftm. The
-- collateral goes to the vault of Lido, is measured in the reserve's own asset, and is compared as in a
-- deposit or a withdrawal. The other functions of these files are the text of test-ftm.
use text.Mathlib.Text.{◌==◌ as str_eq}
use mathlib.Core.Logic.{◌↔◌}
use code4rena_may.Base.{
  String, [], ◌∷◌, Option, none, some, ◌≡◌, refl, sym, ap, false, if◌then◌else◌,
}
use code4rena_may.Base.Int.{ℤ}
use code4rena_may.BigNumber.{BigNumber}
use code4rena_may.Effects.{Action, ok, step, pure, ◌>>=◌, ◌>>◌}
use code4rena_may.Helpers.Verification.{truthy}
use code4rena_may.Market.{UserReserveData, lookup}
use code4rena_may.Calculations.Reserve.Deposit.{calc_expected_reserve_data_after_deposit}
use code4rena_may.Calculations.Reserve.Withdraw.{calc_expected_reserve_data_after_withdraw}
use code4rena_may.Calculations.User.Deposit.{calc_expected_user_data_after_deposit}
use code4rena_may.Calculations.User.Withdraw.{calc_expected_user_data_after_withdraw}
use code4rena_may.Actions.{Chain, Call}
use code4rena_may.Actions.Reads.{
  ContractsData, defined, get_a_token, get_mintable_erc20, convert_to_currency_decimals,
  impersonate_accounts_hardhat, get_a_token_user_data, get_reserve_data, time_latest, user_of,
  amount_or_all, value_of, is_yv_wftm,
}
use code4rena_may.Actions.Reads
use code4rena_may.Actions.Steps.{
  as_reserve_data, by_expectation, transact, compare_both, transact_and_compare,
}
use code4rena_may.Actions.Supply.{allowance}
use code4rena_may.Actions.Checked.{Accepted, transact_and_compare-ok, ok-transact_and_compare}
use code4rena_may.Actions.Verdicts.{decides}

module _ {B : BigNumber} (C : Chain B) where
  open B use {BN}

  unfoldable pub get_reserve_address_from_symbol : String → Action C.World String
  get_reserve_address_from_symbol symbol =
      let asset = lookup symbol C.reserve_assets in
      if truthy asset
      then get_mintable_erc20 C asset
      else (C.db_address symbol >>= λ saved.
          defined C saved >>= λ address. get_mintable_erc20 C (some address))

  unfoldable pub get_user_data : String → String → String → Action C.World (UserReserveData BN)
  get_user_data reserve user sender = C.user_reserve_data reserve user >>= λ reply.
      get_a_token_user_data C reserve user >>= λ scaled.
      get_mintable_erc20 C (some reserve) >>= λ token.
      C.balance_of token (if str_eq sender "" then user else sender) >>= λ wallet.
      pure (user_of C reply scaled wallet)

  unfoldable pub get_contracts_data :
      String → String → Option String → Action C.World (ContractsData BN)
  get_contracts_data reserve user sender =
      get_user_data reserve user
        (elim sender [ none ↦ user | some s ↦ if str_eq s "" then user else s ])
      >>= λ user_data. get_reserve_data C reserve >>= λ reserve_data. time_latest C >>= λ timestamp.
          pure
            (record { reserve_data = reserve_data; user_data = user_data; timestamp = timestamp })

  unfoldable pub get_data_before_action :
      String → String → Action C.World (String × ContractsData BN)
  get_data_before_action reserve_symbol user =
      get_reserve_address_from_symbol reserve_symbol >>= λ reserve.
      get_contracts_data reserve user none >>= λ data1.
      get_a_token C data1.reserve_data.a_token_address >>= λ a_token. pure (reserve, data1)

  -- `lido_vault` and `lido` are of `testEnv`.
  module _ (lido_vault : String) (lido : String) where
    unfoldable pub mint_source : String → Option (String × String)
    mint_source reserve_symbol =
        if str_eq reserve_symbol "USDC"
        then some ("0x47ac0Fb4F2D84898e4D9E7b4DaB3C24507a6D503", C.usdc)
        else if str_eq reserve_symbol "DAI"
        then some ("0x4967ec98748efb98490663a65b16698069a1eb35", C.dai)
        else if str_eq reserve_symbol "stETH"
        then some ("0x06920C9fC643De77B99cB7670A944AD31eaAA260", lido)
        else none

    unfoldable pub mint : String → String → Option C.User → Action C.World (Unit {0})
    mint reserve_symbol amount user = defined C (mint_source reserve_symbol) >>= λ source.
        convert_to_currency_decimals C source.1 amount >>= λ deposit_amount.
        impersonate_accounts_hardhat C (source.0 ∷ [])
        >> (C.signer_at source.0 >>= λ signer. defined C user >>= λ u.
            transact C signer (Call.transfer source.1 (C.address u) deposit_amount))

    unfoldable pub approve_vault : String → Option C.User → Action C.World (Unit {0})
    approve_vault reserve_symbol user =
        get_reserve_address_from_symbol reserve_symbol >>= λ reserve.
        get_mintable_erc20 C (some reserve) >>= λ token.
        defined C user >>= λ u. transact C u (Call.approve token lido_vault allowance)

  unfoldable pub deposit_collateral :
      String
      → String
      → Option C.User
      → String
      → Option String
      → String
      → Option String
      → Action C.World (Unit {0})
  deposit_collateral reserve_symbol amount sender on_behalf_of send_value expected_result
        revert_message =
      get_reserve_address_from_symbol reserve_symbol >>= λ reserve.
      convert_to_currency_decimals C reserve amount >>= λ amount_to_deposit.
      defined C sender >>= λ u.
      get_contracts_data reserve on_behalf_of (some (C.address u)) >>= λ before.
      value_of C reserve send_value >>= λ value.
      let call = Call.deposit_collateral reserve amount_to_deposit value in
      by_expectation C expected_result
        (transact_and_compare C u call
          (get_contracts_data reserve on_behalf_of (some (C.address u)))
          (compare_both C
            (λ after time.
              calc_expected_reserve_data_after_deposit B C.reserves_params amount_to_deposit
                before.reserve_data time)
            (λ after expected time.
              calc_expected_user_data_after_deposit B C.reserves_config amount_to_deposit
                before.reserve_data (as_reserve_data C expected) before.user_data time
                reserve_symbol)))
        (C.expect_reverted (C.send u call) revert_message)

  unfoldable pub withdraw_collateral :
      String → String → Option C.User → String → Option String → Action C.World (Unit {0})
  withdraw_collateral reserve_symbol amount user expected_result revert_message =
      defined C user >>= λ u. get_data_before_action reserve_symbol (C.address u) >>= λ data1.
      let (reserve, before) = data1 in
      amount_or_all C reserve amount >>= λ amount_to_withdraw.
      let call = Call.withdraw_collateral reserve amount_to_withdraw (C.address u) in
      by_expectation C expected_result
        (transact_and_compare C u call (get_contracts_data reserve (C.address u) none) (
          compare_both C
            (λ after time.
              calc_expected_reserve_data_after_withdraw B C.reserves_params amount_to_withdraw
                before.reserve_data before.user_data time)
            (λ after expected time.
              calc_expected_user_data_after_withdraw B amount_to_withdraw before.reserve_data
                (as_reserve_data C expected) before.user_data time)))
        (C.expect_reverted (C.send u call) revert_message)

  -- Where the configuration has no asset yvWFTM, the user's data are read as in test-ftm.
  pub get_user_data-same :
      (reserve user sender : String) (w : C.World)
      → lookup "yvWFTM" C.reserve_assets ≡ none
      → get_user_data reserve user sender w ≡ Reads.get_user_data C reserve user sender w
  unfolding get_user_data Reads.get_user_data
  get_user_data-same reserve user sender w h =
      let not_yv_wftm : is_yv_wftm C reserve ≡ false = rw (h, is_yv_wftm) refl in
      ap
        (λ b.
          (C.user_reserve_data reserve user >>= λ reply.
          get_a_token_user_data C reserve user >>= λ scaled.
          get_mintable_erc20 C (some reserve) >>= λ token.
          (if b then get_mintable_erc20 C (some C.config_wftm) else pure token) >>= λ token1.
          C.balance_of token1 (if str_eq sender "" then user else sender) >>= λ wallet.
          pure (user_of C reply scaled wallet))
            w)
        (sym not_yv_wftm)

  -- Where the integrity checks are on and the reserve, the amount, the data before and the value are
  -- read, a deposit of collateral into the vault of Lido that is expected to succeed passes if and
  -- only if the vault accepts it and what is read after it agrees with the calculations of a deposit,
  -- field by field: each number, cut off at the point, is the calculated one or 1, 2 or 3 away from
  -- it, and the address and the use as collateral are the same.
  pub deposit_collateral-Accepted :
      (checked : C.skip_integrity_check ≡ false) (symbol amount on_behalf_of : String)
      (send_value message : Option String) (user : C.User) (reserve : String) (amount1 : ℤ)
      (before : ContractsData B.BN) (value : Option ℤ) (w w1 w2 w3 w4 end : C.World)
      → get_reserve_address_from_symbol symbol w ≡ (ok reserve, w1)
      → convert_to_currency_decimals C reserve amount w1 ≡ (ok amount1, w2)
      → get_contracts_data reserve on_behalf_of (some (C.address user)) w2 ≡ (ok before, w3)
      → value_of C reserve send_value w3 ≡ (ok value, w4)
      → (deposit_collateral symbol amount (some user) on_behalf_of send_value "success" message w
          ≡ (ok tt, end))
        ↔ Accepted C checked user
            (Call.deposit_collateral reserve amount1 value)
            (get_contracts_data reserve on_behalf_of (some (C.address user)))
            (λ after time.
              calc_expected_reserve_data_after_deposit B C.reserves_params amount1
                before.reserve_data time)
            (λ after expected time.
              calc_expected_user_data_after_deposit B C.reserves_config amount1 before.reserve_data
                (as_reserve_data C expected)
                before.user_data
                time
                symbol)
            w4
            end
  unfolding deposit_collateral
  deposit_collateral-Accepted checked symbol amount on_behalf_of send_value message user reserve
        amount1 before value w w1 w2 w3 w4 end e1 e2 e3 e4 =
      decides (step _ e1 (step _ e2 (step _ e3 (step _ e4 refl))))
        (transact_and_compare-ok C checked user _ _ _ _ w4 end)
        (ok-transact_and_compare C checked user _ _ _ _ w4 end)
