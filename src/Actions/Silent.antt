-- ===== src/Actions/Silent.antt =====
-- What an action does whose expected result is neither `success` nor `revert`.
use text.Mathlib.Text.{◌==◌ as str_eq}
use mathlib.Core.Bool.{true≢false}
use code4rena_may.Base.{
  ℕ, String, Bool, true, false, ◌≡◌, refl, sym, List, Option, none, some, inl, inr, Bool-cases,
}
use code4rena_may.BigNumber.{BigNumber}
use code4rena_may.Effects.{Action as Run, ◌>>=◌}
use code4rena_may.Helpers.Verification.{truthy}
use code4rena_may.Scenario.{Args, Action}
use code4rena_may.Scenario.Engine.{
  Name, names, case_of, given, address_of, on_behalf, rate_mode, dispatch, choose, execute_action,
}
use code4rena_may.Actions.{Chain}
use code4rena_may.Actions.Steps.{by_expectation}
use code4rena_may.Actions.Supply.{deposit, deposit_collateral, withdraw, withdraw_collateral}
use code4rena_may.Actions.Debt.{borrow, repay, set_use_as_collateral}
use code4rena_may.Actions.Keeps.{
  Keeps, Reading, bind-Keeps, if-Keeps, result-Keeps, pure-Keeps, defined-Keeps, convert-Keeps,
  address-Keeps, contracts-Keeps, before-Keeps, amount-Keeps, value-Keeps,
}
use code4rena_may.Actions.Engine.{operations}

-- The actions that compare what they expect with what they find.
abbrev pub has_expectation : Name → Bool
has_expectation Name.mint = false
has_expectation Name.approve = false
has_expectation Name.approve_vault = false
has_expectation Name.delegate_borrow_allowance = false
has_expectation _ = true

module _ {B : BigNumber} (C : Chain B) (sent : C.World → ℕ) (R : Reading C sent) (e : String)
    (h : str_eq e "success" ≡ false) (k : str_eq e "revert" ≡ false) where
  abbrev KeepsC : {A : Type 0} → Run C.World A → Type 0
  KeepsC m = Keeps sent m

  neither-Keeps :
      (success revert : Run C.World (Unit {0})) → KeepsC (by_expectation C e success revert)
  neither-Keeps success revert = simp (h, k) (pure-Keeps sent tt)

  deposit-Keeps :
      (symbol amount : String) (sender : Option C.User) (on_behalf_of : String)
      (send_value message : Option String)
      → KeepsC (deposit C symbol amount sender on_behalf_of send_value e message)
  unfolding deposit
  deposit-Keeps symbol amount sender on_behalf_of send_value message =
      bind-Keeps sent (address-Keeps C sent R symbol) (λ reserve.
        bind-Keeps sent (convert-Keeps C sent R reserve amount) (λ a.
          bind-Keeps sent (defined-Keeps C sent R sender) (λ u.
            bind-Keeps sent (contracts-Keeps C sent R reserve on_behalf_of _) (λ before.
              bind-Keeps sent (value-Keeps C sent R reserve send_value) (λ v. neither-Keeps _ _)))))

  deposit_collateral-Keeps :
      (symbol amount : String) (sender : Option C.User) (on_behalf_of : String)
      (send_value message : Option String)
      → KeepsC (deposit_collateral C symbol amount sender on_behalf_of send_value e message)
  unfolding deposit_collateral
  deposit_collateral-Keeps symbol amount sender on_behalf_of send_value message =
      bind-Keeps sent (address-Keeps C sent R symbol) (λ reserve.
        bind-Keeps sent (convert-Keeps C sent R reserve amount) (λ a.
          bind-Keeps sent (defined-Keeps C sent R sender) (λ u.
            bind-Keeps sent (contracts-Keeps C sent R reserve on_behalf_of _) (λ before.
              bind-Keeps sent (value-Keeps C sent R C.wftm send_value) (λ v. neither-Keeps _ _)))))

  withdraw-Keeps :
      (symbol amount : String) (user : Option C.User) (message : Option String)
      → KeepsC (withdraw C symbol amount user e message)
  unfolding withdraw
  withdraw-Keeps symbol amount user message = bind-Keeps sent (defined-Keeps C sent R user) (λ u.
      bind-Keeps sent (before-Keeps C sent R symbol _)
        (λ d. bind-Keeps sent (amount-Keeps C sent R (d.0) amount) (λ a. neither-Keeps _ _)))

  withdraw_collateral-Keeps :
      (symbol amount : String) (user : Option C.User) (message : Option String)
      → KeepsC (withdraw_collateral C symbol amount user e message)
  unfolding withdraw_collateral
  withdraw_collateral-Keeps symbol amount user message =
      bind-Keeps sent (defined-Keeps C sent R user) (λ u.
        bind-Keeps sent (before-Keeps C sent R symbol _)
          (λ d. bind-Keeps sent (amount-Keeps C sent R C.wftm amount) (λ a. neither-Keeps _ _)))

  borrow-Keeps :
      (symbol amount mode : String) (user : Option C.User) (on_behalf_of : String)
      (time_travel message : Option String)
      → KeepsC (borrow C symbol amount mode user on_behalf_of time_travel e message)
  unfolding borrow
  borrow-Keeps symbol amount mode user on_behalf_of time_travel message =
      bind-Keeps sent (address-Keeps C sent R symbol) (λ reserve.
        bind-Keeps sent (defined-Keeps C sent R user) (λ u.
          bind-Keeps sent (contracts-Keeps C sent R reserve on_behalf_of _) (λ before.
            bind-Keeps sent (convert-Keeps C sent R reserve amount) (λ a. neither-Keeps _ _))))

  repay-Keeps :
      (symbol amount mode : String) (user debtor : Option C.User)
      (send_value message : Option String)
      → KeepsC (repay C symbol amount mode user debtor send_value e message)
  unfolding repay
  repay-Keeps symbol amount mode user debtor send_value message =
      bind-Keeps sent (address-Keeps C sent R symbol) (λ reserve.
        bind-Keeps sent (defined-Keeps C sent R debtor) (λ u.
          bind-Keeps sent (contracts-Keeps C sent R reserve _ none) (λ before.
            bind-Keeps sent (amount-Keeps C sent R reserve amount) (λ a.
              bind-Keeps sent (value-Keeps C sent R reserve send_value) (λ v. neither-Keeps _ _)))))

  set_use-Keeps :
      (symbol : String) (user : Option C.User) (use_as_collateral : String)
      (message : Option String)
      → KeepsC (set_use_as_collateral C symbol user use_as_collateral e message)
  unfolding set_use_as_collateral
  set_use-Keeps symbol user use_as_collateral message =
      bind-Keeps sent (address-Keeps C sent R symbol) (λ reserve.
        bind-Keeps sent (defined-Keeps C sent R user) (λ u.
          bind-Keeps sent (contracts-Keeps C sent R reserve _ none) (λ before. neither-Keeps _ _)))

  given-Keeps : (message : String) (s : Option String) → KeepsC (given message s)
  given-Keeps message none = result-Keeps sent _
  given-Keeps message (some s) =
      if-Keeps sent (str_eq s "") (result-Keeps sent _) (result-Keeps sent _)

  present-Keeps :
      {A : Type 0} (message s : String) (f : String → Run C.World A)
      → KeepsC (f s)
      → KeepsC (given message (some s) >>= f)
  present-Keeps message s f kept = elim (Bool-cases (str_eq s "")) [
    | inl b ↦ record { keeps = λ w. simp (b) refl }
    | inr b ↦ record { keeps = λ w. simp (b) (kept.keeps w) }
  ]

  address_of-Keeps : (u : Option C.User) → KeepsC (address_of (operations C) u)
  address_of-Keeps none = result-Keeps sent _
  address_of-Keeps (some u) = result-Keeps sent _

  on_behalf-Keeps :
      (users : List C.User) (index : Option String) (user : Option C.User)
      → KeepsC (on_behalf (operations C) users index user)
  on_behalf-Keeps users index user =
      if-Keeps sent (truthy index) (address_of-Keeps _) (address_of-Keeps user)

  dispatch-Keeps :
      (n : Name) (reserve : String) (args : Args) (users : List C.User) (user : Option C.User)
      (message : Option String)
      → has_expectation n ≡ true
      → KeepsC (dispatch (operations C) n reserve args users user e message)
  unfolding dispatch
  dispatch-Keeps Name.mint reserve args users user message p = absurd (true≢false (sym p))
  dispatch-Keeps Name.approve reserve args users user message p = absurd (true≢false (sym p))
  dispatch-Keeps Name.approve_vault reserve args users user message p = absurd (true≢false (sym p))
  dispatch-Keeps Name.delegate_borrow_allowance reserve args users user message p =
      absurd (true≢false (sym p))
  dispatch-Keeps Name.deposit_collateral reserve args users user message p =
      bind-Keeps sent (on_behalf-Keeps users args.on_behalf_of user) (λ b.
        bind-Keeps sent (given-Keeps _ args.amount)
          (λ a. deposit_collateral-Keeps reserve a user b args.send_value message))
  dispatch-Keeps Name.deposit reserve args users user message p =
      bind-Keeps sent (on_behalf-Keeps users args.on_behalf_of user) (λ b.
        bind-Keeps sent (given-Keeps _ args.amount)
          (λ a. deposit-Keeps reserve a user b args.send_value message))
  dispatch-Keeps Name.withdraw reserve args users user message p =
      bind-Keeps sent (given-Keeps _ args.amount) (λ a. withdraw-Keeps reserve a user message)
  dispatch-Keeps Name.withdraw_collateral reserve args users user message p =
      bind-Keeps sent (given-Keeps _ args.amount)
        (λ a. withdraw_collateral-Keeps reserve a user message)
  dispatch-Keeps Name.borrow reserve args users user message p =
      bind-Keeps sent (on_behalf-Keeps users args.on_behalf_of user) (λ b.
        bind-Keeps sent (given-Keeps _ args.amount) (λ a.
          borrow-Keeps reserve a (rate_mode args.borrow_rate_mode) user b args.time_travel message))
  dispatch-Keeps Name.repay reserve args users user message p =
      bind-Keeps sent (given-Keeps _ args.amount) (λ a.
        repay-Keeps reserve a (rate_mode args.borrow_rate_mode) user _ args.send_value message)
  dispatch-Keeps Name.set_use_as_collateral reserve args users user message p =
      bind-Keeps sent (given-Keeps _ args.use_as_collateral)
        (λ a. set_use-Keeps reserve user a message)

  choose-Keeps :
      (c : Option Name) (n : Name) (name reserve : String) (args : Args) (users : List C.User)
      (user : Option C.User) (message : Option String)
      → c ≡ some n
      → has_expectation n ≡ true
      → KeepsC (choose (operations C) c name reserve args users user e message)
  unfolding choose
  choose-Keeps c n name reserve args users user message q p =
      rw q (dispatch-Keeps n reserve args users user message p)

  -- Where the calls for an answer leave a count of the world, so does every action whose name is one
  -- of the seven that compare and whose expected result is neither `success` nor `revert`, whether it
  -- returns or throws: if the count is of the transactions, it sends none.
  pub execute_action-Silent :
      (args : Args) (name : String) (n : Name) (message : Option String) (users : List C.User)
      (w : C.World)
      → case_of name names ≡ some n
      → has_expectation n ≡ true
      → let action : Action = record {
        name = some name;
        args = some args;
        expected = some e;
        revert_message = message;
      } in
        sent ((execute_action (operations C) action users w).1) ≡ sent w
  unfolding execute_action
  execute_action-Silent args name n message users w q p =
      (present-Keeps _ name _ (
          bind-Keeps sent (given-Keeps _ args.reserve) (λ reserve.
            bind-Keeps sent (given-Keeps _ args.user) (λ index.
              present-Keeps _ e _ (
                choose-Keeps (case_of name names) n name reserve args users _ message q p))))).keeps
        w
