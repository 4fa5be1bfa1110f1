-- ===== src/Actions/Verdicts.antt =====
-- Which runs of `deposit`, `withdraw`, `borrow` and `repay` of actions.ts pass: all those, and only
-- those, in which the contracts agree with the calculations.
use code4rena_may.Base.{String, ◌≡◌, ◌∙◌, refl, sym, false, Option, none, some}
use code4rena_may.Base.Int.{ℤ}
use mathlib.Core.Logic.{◌↔◌}
use code4rena_may.BigNumber.{BigNumber}
use code4rena_may.Effects.{ok, step, pure}
use code4rena_may.Calculations.Reserve.Deposit.{calc_expected_reserve_data_after_deposit}
use code4rena_may.Calculations.Reserve.Withdraw.{calc_expected_reserve_data_after_withdraw}
use code4rena_may.Calculations.Reserve.Borrow.{calc_expected_reserve_data_after_borrow}
use code4rena_may.Calculations.Reserve.Repay.{calc_expected_reserve_data_after_repay}
use code4rena_may.Calculations.User.Deposit.{calc_expected_user_data_after_deposit}
use code4rena_may.Calculations.User.Withdraw.{calc_expected_user_data_after_withdraw}
use code4rena_may.Calculations.User.Borrow.{calc_expected_user_data_after_borrow}
use code4rena_may.Calculations.User.Repay.{calc_expected_user_data_after_repay}
use code4rena_may.Actions.{Chain, Call}
use code4rena_may.Actions.Reads.{
  ContractsData, convert_to_currency_decimals, get_reserve_address_from_symbol, get_contracts_data,
  get_data_before_action, amount_or_all, value_of,
}
use code4rena_may.Actions.Steps.{as_reserve_data}
use code4rena_may.Actions.Supply.{deposit, withdraw}
use code4rena_may.Actions.Debt.{as_rate_mode, travel, borrow, repay}
use code4rena_may.Actions.Checked.{
  Accepted, AcceptedThen, transact_and_compare-ok, ok-transact_and_compare,
  transact_then_compare-ok, ok-transact_then_compare,
}

pub decides :
    {A : Type 0} {x y r : A} {P : Type 0} → x ≡ y → (y ≡ r → P) → (P → y ≡ r) → (x ≡ r) ↔ P
decides e f g = (λ h. f (sym e ∙ h), λ p. e ∙ g p)

module _ {B : BigNumber} (C : Chain B) (checked : C.skip_integrity_check ≡ false) where
  -- Where the integrity checks are on and the reserve, the amount, the data before and the value are
  -- read, a deposit that is expected to succeed passes if and only if the pool accepts the deposit
  -- and what is read after it agrees with the calculations,
  -- field by field: each number, cut off at the point, is the calculated one or 1, 2 or 3 away from
  -- it, and the address and the use as collateral are the same.
  pub deposit-Accepted :
      (symbol amount on_behalf_of : String) (send_value message : Option String) (user : C.User)
      (reserve : String) (amount1 : ℤ) (before : ContractsData B.BN) (value : Option ℤ)
      (w w1 w2 w3 w4 end : C.World)
      → get_reserve_address_from_symbol C symbol w ≡ (ok reserve, w1)
      → convert_to_currency_decimals C reserve amount w1 ≡ (ok amount1, w2)
      → get_contracts_data C reserve on_behalf_of (some (C.address user)) w2 ≡ (ok before, w3)
      → value_of C reserve send_value w3 ≡ (ok value, w4)
      → (deposit C symbol amount (some user) on_behalf_of send_value "success" message w
          ≡ (ok tt, end))
        ↔ Accepted C checked user
            (Call.deposit reserve amount1 on_behalf_of value)
            (get_contracts_data C reserve on_behalf_of (some (C.address user)))
            (λ after time.
              calc_expected_reserve_data_after_deposit B C.reserves_params amount1
                before.reserve_data time)
            (λ after expected time.
              calc_expected_user_data_after_deposit B C.reserves_config amount1 before.reserve_data
                (as_reserve_data C expected)
                before.user_data
                time
                symbol)
            w4
            end
  unfolding deposit
  deposit-Accepted symbol amount on_behalf_of send_value message user reserve amount1 before value w
        w1 w2 w3 w4 end e1 e2 e3 e4 =
      decides (step _ e1 (step _ e2 (step _ e3 (step _ e4 refl))))
        (transact_and_compare-ok C checked user _ _ _ _ w4 end)
        (ok-transact_and_compare C checked user _ _ _ _ w4 end)

  -- Where the integrity checks are on and the reserve, the data before and the amount are read, a
  -- withdrawal that is expected to succeed passes if and only if the pool accepts the withdrawal and
  -- what is read after it agrees with the calculations,
  -- field by field: each number, cut off at the point, is the calculated one or 1, 2 or 3 away from
  -- it, and the address and the use as collateral are the same.
  pub withdraw-Accepted :
      (symbol amount : String) (message : Option String) (user : C.User) (reserve : String)
      (amount1 : ℤ) (before : ContractsData B.BN) (w w1 w2 end : C.World)
      → get_data_before_action C symbol (C.address user) w ≡ (ok (reserve, before), w1)
      → amount_or_all C reserve amount w1 ≡ (ok amount1, w2)
      → (withdraw C symbol amount (some user) "success" message w ≡ (ok tt, end))
        ↔ Accepted C checked user
            (Call.withdraw reserve amount1 (C.address user))
            (get_contracts_data C reserve (C.address user) none)
            (λ after time.
              calc_expected_reserve_data_after_withdraw B C.reserves_params amount1
                before.reserve_data before.user_data time)
            (λ after expected time.
              calc_expected_user_data_after_withdraw B amount1 before.reserve_data
                (as_reserve_data C expected)
                before.user_data
                time)
            w2
            end
  unfolding withdraw
  withdraw-Accepted symbol amount message user reserve amount1 before w w1 w2 end e1 e2 =
      decides (step _ e1 (step _ e2 refl)) (transact_and_compare-ok C checked user _ _ _ _ w2 end)
        (ok-transact_and_compare C checked user _ _ _ _ w2 end)

  -- Where the integrity checks are on and the reserve, the data before and the amount are read, a
  -- borrowing that is expected to succeed passes if and only if the pool accepts it and what is read
  -- after it, and after the time that the scenario lets pass, agrees with the calculations,
  -- field by field: each number, cut off at the point, is the calculated one or 1, 2 or 3 away from
  -- it, and the address and the use as collateral are the same.
  pub borrow-Accepted :
      (symbol amount mode on_behalf_of : String) (time_travel message : Option String)
      (user : C.User) (reserve : String) (amount1 : ℤ) (before : ContractsData B.BN)
      (w w1 w2 w3 end : C.World)
      → get_reserve_address_from_symbol C symbol w ≡ (ok reserve, w1)
      → get_contracts_data C reserve on_behalf_of (some (C.address user)) w1 ≡ (ok before, w2)
      → convert_to_currency_decimals C reserve amount w2 ≡ (ok amount1, w3)
      → (borrow C symbol amount mode (some user) on_behalf_of time_travel "success" message w
          ≡ (ok tt, end))
        ↔ AcceptedThen C checked user
            (Call.borrow reserve amount1 mode on_behalf_of)
            (travel C time_travel)
            (get_contracts_data C reserve on_behalf_of (some (C.address user)))
            (λ after time.
              calc_expected_reserve_data_after_borrow B C.reserves_params amount1
                (as_rate_mode mode)
                before.reserve_data
                time
                after.timestamp)
            (λ after expected time.
              calc_expected_user_data_after_borrow B amount1
                (as_rate_mode mode)
                before.reserve_data
                (as_reserve_data C expected)
                before.user_data
                time
                after.timestamp)
            w3
            end
  unfolding borrow
  borrow-Accepted symbol amount mode on_behalf_of time_travel message user reserve amount1 before w
        w1 w2 w3 end e1 e2 e3 =
      decides (step _ e1 (step _ e2 (step _ e3 refl)))
        (transact_then_compare-ok C checked user _ _ _ _ _ w3 end)
        (ok-transact_then_compare C checked user _ _ _ _ _ w3 end)

  -- Where the integrity checks are on and the reserve, the data before, the amount and the value are
  -- read, a repayment that is expected to succeed passes if and only if the pool accepts it and what
  -- is read after it agrees with the calculations,
  -- field by field: each number, cut off at the point, is the calculated one or 1, 2 or 3 away from
  -- it, and the address and the use as collateral are the same.
  pub repay-Accepted :
      (symbol amount mode : String) (send_value message : Option String) (user debtor : C.User)
      (reserve : String) (amount1 : ℤ) (before : ContractsData B.BN) (value : Option ℤ)
      (w w1 w2 w3 w4 end : C.World)
      → get_reserve_address_from_symbol C symbol w ≡ (ok reserve, w1)
      → get_contracts_data C reserve (C.address debtor) none w1 ≡ (ok before, w2)
      → amount_or_all C reserve amount w2 ≡ (ok amount1, w3)
      → value_of C reserve send_value w3 ≡ (ok value, w4)
      → (repay C symbol amount mode (some user) (some debtor) send_value "success" message w
          ≡ (ok tt, end))
        ↔ AcceptedThen C checked user
            (Call.repay reserve amount1 mode (C.address debtor) value)
            (pure tt)
            (get_contracts_data C reserve (C.address debtor) none)
            (λ after time.
              calc_expected_reserve_data_after_repay B C.reserves_params amount1
                (as_rate_mode mode)
                before.reserve_data
                before.user_data
                time)
            (λ after expected time.
              calc_expected_user_data_after_repay B amount1
                (as_rate_mode mode)
                before.reserve_data
                (as_reserve_data C expected)
                before.user_data
                (C.address user)
                (C.address debtor)
                time
                after.timestamp)
            w4
            end
  unfolding repay
  repay-Accepted symbol amount mode send_value message user debtor reserve amount1 before value w w1
        w2 w3 w4 end e1 e2 e3 e4 =
      decides (step _ e1 (step _ e2 (step _ e3 (step _ e4 refl))))
        (transact_then_compare-ok C checked user _ _ _ _ _ w4 end)
        (ok-transact_then_compare C checked user _ _ _ _ _ w4 end)
