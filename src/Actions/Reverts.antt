-- ===== src/Actions/Reverts.antt =====
-- Which runs of the actions of actions.ts pass that are expected to revert.
use text.Mathlib.Text.{◌==◌ as str_eq}
use text.Mathlib.TextEquality.{eq_iff}
use code4rena_may.Base.{
  String, ◌≡◌, ◌∙◌, refl, sym, ap, false, Option, none, some, ◌⊎◌, inl, inr, Bool-cases,
}
use code4rena_may.Base.Int.{ℤ}
use mathlib.Core.Logic.{◌↔◌}
use code4rena_may.BigNumber.{BigNumber}
use code4rena_may.Effects.{Result, Action, ok, thrown, step, continue-ok, thrown-ok}
use code4rena_may.Actions.{Chain, Call}
use code4rena_may.Actions.Reads.{
  ContractsData, convert_to_currency_decimals, get_reserve_address_from_symbol, get_contracts_data,
  get_data_before_action, amount_or_all, value_of,
}
use code4rena_may.Actions.Steps.{by_expectation, transact_and_compare}
use code4rena_may.Actions.Supply.{deposit, withdraw_collateral}
use code4rena_may.Actions.Debt.{borrow, delegate_borrow_allowance}

module _ {B : BigNumber} (C : Chain B) where
  -- What the documentation of the matcher `reverted` promises: it passes if and only if the promise
  -- is rejected with an error that is a revert. The message of `expect` is not compared with it.
  pub record IsMatcher (IsRevert : String → Type 0) : Type 0 where
    pub reverted_lem :
        (p : Action C.World C.Tx) (message : Option String) (w w1 : C.World)
        → (C.expect_reverted p message w ≡ (ok tt, w1))
          ↔ ((e : String) × (p w ≡ (thrown e, w1)) × IsRevert e)

  -- The promise of the transaction is rejected with a revert.
  abbrev pub Rejected : (String → Type 0) → C.User → Call → C.World → C.World → Type 0
  Rejected IsRevert user call w w1 =
      (e : String) × (C.send user call w ≡ (thrown e, w1)) × IsRevert e

  along : {x y r : Result (Unit {0}) × C.World} {P : Type 0} → x ≡ y → (y ≡ r) ↔ P → (x ≡ r) ↔ P
  along e p = (λ h. p.0 (sym e ∙ h), λ q. e ∙ p.1 q)

  -- What a run that passes has done, by the expected result.
  passes-cases :
      (expected : String) (success revert : Action C.World (Unit {0})) (w end : C.World)
      → by_expectation C expected success revert w ≡ (ok tt, end)
      → ((expected ≡ "success") × (success w ≡ (ok tt, end)))
        ⊎ (((expected ≡ "revert") × (revert w ≡ (ok tt, end)))
            ⊎ ((str_eq expected "success" ≡ false)
                × (str_eq expected "revert" ≡ false)
                × (w ≡ end)))
  passes-cases expected success revert w end h = elim (Bool-cases (str_eq expected "success")) [
    | inl e ↦ inl ((eq_iff expected "success").0 e, simp (e) at h)
    | inr e ↦ elim (Bool-cases (str_eq expected "revert")) [
      | inl k ↦ inr (inl ((eq_iff expected "revert").0 k, simp (e, k) at h))
      | inr k ↦
          let same : (ok tt, w) ≡ (ok tt, end) = simp (e, k) at h in
          inr (inr (e, k, ap (λ p. p.1) same))
    ]
  ]

  -- The contracts have accepted the call.
  abbrev pub Sent : C.User → Call → C.World → Type 0
  Sent user call w = (tx : C.Tx) × (v : C.World) × (C.send user call w ≡ (ok tx, v))

  transact_and_compare-Sent :
      (user : C.User) (call : Call) (read : Action C.World (ContractsData B.BN))
      (compare : ContractsData B.BN → B.BN → Action C.World (Unit {0})) (w end : C.World)
      → transact_and_compare C user call read compare w ≡ (ok tt, end)
      → Sent user call w
  unfolding transact_and_compare
  transact_and_compare-Sent user call read compare w end h =
      let (tx, v, sent, rest) = continue-ok _ (C.send user call w) tt end h in (tx, v, sent)

  -- What a deposit that passes as a success has read, and that the pool has accepted it.
  record Reads (symbol amount on_behalf_of : String) (user : C.User) (send_value : Option String)
      (w : C.World) : Type 0 where
    reserve : String
    amount1 : ℤ
    before : ContractsData B.BN
    value : Option ℤ
    w1 : C.World
    w2 : C.World
    w3 : C.World
    w4 : C.World
    reserve_eq : get_reserve_address_from_symbol C symbol w ≡ (ok reserve, w1)
    amount_eq : convert_to_currency_decimals C reserve amount w1 ≡ (ok amount1, w2)
    before_eq :
        get_contracts_data C reserve on_behalf_of (some (C.address user)) w2 ≡ (ok before, w3)
    value_eq : value_of C reserve send_value w3 ≡ (ok value, w4)
    sent : Sent user (Call.deposit reserve amount1 on_behalf_of value) w4

  deposit-Reads :
      (symbol amount on_behalf_of : String) (user : C.User) (send_value message : Option String)
      (w end : C.World)
      → deposit C symbol amount (some user) on_behalf_of send_value "success" message w
        ≡ (ok tt, end)
      → Reads symbol amount on_behalf_of user send_value w
  unfolding deposit
  deposit-Reads symbol amount on_behalf_of user send_value message w end h =
      let (reserve, w1, e1, h1) =
        continue-ok _ (get_reserve_address_from_symbol C symbol w) tt end h in
      let (amount1, w2, e2, h2) =
        continue-ok _ (convert_to_currency_decimals C reserve amount w1) tt end h1 in
      let (before, w3, e3, h3) =
        continue-ok _ (get_contracts_data C reserve on_behalf_of (some (C.address user)) w2) tt end
          h2 in
      let (value, w4, e4, h4) = continue-ok _ (value_of C reserve send_value w3) tt end h3 in
      record {
        reserve = reserve;
        amount1 = amount1;
        before = before;
        value = value;
        w1 = w1;
        w2 = w2;
        w3 = w3;
        w4 = w4;
        reserve_eq = e1;
        amount_eq = e2;
        before_eq = e3;
        value_eq = e4;
        sent = transact_and_compare-Sent user _ _ _ w4 end h4;
      }

  module _ {IsRevert : String → Type 0} (M : IsMatcher IsRevert) where
    -- Where the reserve, the amount, the data before and the value are read, a deposit that is
    -- expected to revert passes if and only if the transaction is rejected with a revert: with any
    -- one, whatever the message is that the scenario expects.
    pub deposit-Rejected :
        (symbol amount on_behalf_of : String) (send_value message : Option String) (user : C.User)
        (reserve : String) (amount1 : ℤ) (before : ContractsData B.BN) (value : Option ℤ)
        (w w1 w2 w3 w4 end : C.World)
        → get_reserve_address_from_symbol C symbol w ≡ (ok reserve, w1)
        → convert_to_currency_decimals C reserve amount w1 ≡ (ok amount1, w2)
        → get_contracts_data C reserve on_behalf_of (some (C.address user)) w2 ≡ (ok before, w3)
        → value_of C reserve send_value w3 ≡ (ok value, w4)
        → (deposit C symbol amount (some user) on_behalf_of send_value "revert" message w
            ≡ (ok tt, end))
          ↔ Rejected IsRevert user (Call.deposit reserve amount1 on_behalf_of value) w4 end
    unfolding deposit
    deposit-Rejected symbol amount on_behalf_of send_value message user reserve amount1 before value
          w w1 w2 w3 w4 end e1 e2 e3 e4 =
        along (step _ e1 (step _ e2 (step _ e3 (step _ e4 refl)))) (
          M.reverted_lem (C.send user (Call.deposit reserve amount1 on_behalf_of value)) message w4
            end)

    -- Where the reserve, the data before and the amount are read, a borrowing that is expected to
    -- revert passes if and only if the transaction is rejected with a revert: with any one, whatever
    -- the message is that the scenario expects.
    pub borrow-Rejected :
        (symbol amount mode on_behalf_of : String) (time_travel message : Option String)
        (user : C.User) (reserve : String) (amount1 : ℤ) (before : ContractsData B.BN)
        (w w1 w2 w3 end : C.World)
        → get_reserve_address_from_symbol C symbol w ≡ (ok reserve, w1)
        → get_contracts_data C reserve on_behalf_of (some (C.address user)) w1 ≡ (ok before, w2)
        → convert_to_currency_decimals C reserve amount w2 ≡ (ok amount1, w3)
        → (borrow C symbol amount mode (some user) on_behalf_of time_travel "revert" message w
            ≡ (ok tt, end))
          ↔ Rejected IsRevert user (Call.borrow reserve amount1 mode on_behalf_of) w3 end
    unfolding borrow
    borrow-Rejected symbol amount mode on_behalf_of time_travel message user reserve amount1 before
          w w1 w2 w3 end e1 e2 e3 =
        along (step _ e1 (step _ e2 (step _ e3 refl))) (
          M.reverted_lem (C.send user (Call.borrow reserve amount1 mode on_behalf_of)) message w3
            end)

    -- Where the reserve, the data before and the amount are read, a withdrawal of collateral that is
    -- expected to revert passes if and only if the vault rejects a withdrawal of the reserve's own
    -- asset, although a withdrawal that is expected to succeed asks for the asset WFTM.
    pub withdraw_collateral-Rejected :
        (symbol amount : String) (message : Option String) (user : C.User) (reserve : String)
        (amount1 : ℤ) (before : ContractsData B.BN) (w w1 w2 end : C.World)
        → get_data_before_action C symbol (C.address user) w ≡ (ok (reserve, before), w1)
        → amount_or_all C C.wftm amount w1 ≡ (ok amount1, w2)
        → (withdraw_collateral C symbol amount (some user) "revert" message w ≡ (ok tt, end))
          ↔ Rejected IsRevert user
              (Call.withdraw_collateral reserve amount1 (C.address user))
              w2
              end
    unfolding withdraw_collateral
    withdraw_collateral-Rejected symbol amount message user reserve amount1 before w w1 w2 end e1
          e2 =
        along (step _ e1 (step _ e2 refl)) (
          M.reverted_lem (C.send user (Call.withdraw_collateral reserve amount1 (C.address user)))
            message w2 end)

    -- Where the matcher `reverted` keeps its promise, and the reserve, the data before and the amount
    -- are read, a withdrawal of collateral that passes has expected success, and the vault has
    -- accepted a withdrawal of the asset WFTM; or it has expected a revert, and the vault has
    -- rejected a withdrawal of the reserve's own asset with a revert; or its expected result is
    -- neither, and the run ends in the world in which the amount was read.
    pub withdraw_collateral-Asset :
        (symbol amount expected : String) (message : Option String) (user : C.User)
        (reserve : String) (amount1 : ℤ) (before : ContractsData B.BN) (w w1 w2 end : C.World)
        → get_data_before_action C symbol (C.address user) w ≡ (ok (reserve, before), w1)
        → amount_or_all C C.wftm amount w1 ≡ (ok amount1, w2)
        → withdraw_collateral C symbol amount (some user) expected message w ≡ (ok tt, end)
        → ((expected ≡ "success")
            × Sent user (Call.withdraw_collateral C.wftm amount1 (C.address user)) w2)
          ⊎ (((expected ≡ "revert")
                × Rejected IsRevert user
                    (Call.withdraw_collateral reserve amount1 (C.address user))
                    w2
                    end)
              ⊎ ((str_eq expected "success" ≡ false)
                  × (str_eq expected "revert" ≡ false)
                  × (w2 ≡ end)))
    unfolding withdraw_collateral
    withdraw_collateral-Asset symbol amount expected message user reserve amount1 before w w1 w2 end
          e1 e2 h =
        elim (passes-cases expected _ _ w2 end (sym (step _ e1 (step _ e2 refl)) ∙ h)) [
          | inl (is, run) ↦ inl (is, transact_and_compare-Sent user _ _ _ w2 end run)
          | inr (inl (is, run)) ↦ inr (inl (is, (M.reverted_lem _ message w2 end).0 run))
          | inr (inr (e, k, same)) ↦ inr (inr (e, k, same))
        ]

    -- Where the matcher `reverted` keeps its promise, a deposit that passes in a world where success
    -- is expected does not pass in that world where a revert is expected, whatever the two messages
    -- are.
    pub deposit-Exclusive :
        (symbol amount on_behalf_of : String) (user : C.User)
        (send_value message message1 : Option String) (w end end1 : C.World)
        → deposit C symbol amount (some user) on_behalf_of send_value "success" message w
          ≡ (ok tt, end)
        → ¬ (
            deposit C symbol amount (some user) on_behalf_of send_value "revert" message1 w
            ≡ (ok tt, end1))
    deposit-Exclusive symbol amount on_behalf_of user send_value message message1 w end end1 h k =
        let r = deposit-Reads symbol amount on_behalf_of user send_value message w end h in
        let (e, rejected, is) =
          (deposit-Rejected symbol amount on_behalf_of send_value message1 user r.reserve r.amount1
              r.before r.value w r.w1 r.w2 r.w3 r.w4 end1 r.reserve_eq r.amount_eq r.before_eq
              r.value_eq).0
            k in
        let (tx, v, sent) = r.sent in thrown-ok (ap (λ p. p.0) (sym rejected ∙ sent))

  -- A delegation that is expected to revert, but for which the scenario gives no message, is run as
  -- one that is expected to succeed.
  pub delegate_borrow_allowance-unnamed :
      (reserve amount mode receiver : String) (user : Option C.User) (w : C.World)
      → delegate_borrow_allowance C reserve amount mode user receiver "revert" none w
        ≡ delegate_borrow_allowance C reserve amount mode user receiver "success" none w
  unfolding delegate_borrow_allowance
  delegate_borrow_allowance-unnamed reserve amount mode receiver user w = refl
