-- ===== src/Scenario/Stories.antt =====
-- What an action and a story do: one operation for each action, up to the first that throws.
use mathlib.Core.Bool.{true≢false}
use mathlib.Core.Path.{fun_ext}
use Prim.Native.String.{◌++◌ as ◌+s+◌}
use text.Mathlib.Text.{◌==◌ as str_eq}
use text.Mathlib.TextEquality.{eq_iff}
use code4rena_may.Base.ParseInt.{parse_decimal, signed, numeral, digits, digit, trimmed}
use code4rena_may.Base.{
  Bool-cases, ◌≡◌, refl, sym, ap, ◌∙◌, String, false, List, [], ◌∷◌, ◌++◌, Option, some, none, inl,
  inr, Option-cases,
}
use code4rena_may.Effects.{ok, thrown, continue, continue-continue, ◌>>◌, Action as Run}
use code4rena_may.Helpers.Verification.{truthy}
use code4rena_may.Scenario.{Args, Action, Operations}
use code4rena_may.Scenario.Engine.{
  Name, names, case_of, user_at, user_at_decimal, dispatch, choose, execute_action, execute_actions,
}
use code4rena_may.Scenario.Outcomes.{
  supplied, known, case_of?, complete_with, complete, Throws, given-Throws, given-bind-Throws,
  bind-Throws, IsOperation, address_of-Reads, on_behalf-Reads,
}

module _ (O : Operations) where
  no_user :
      (users : List O.User) (index : Option String)
      → truthy index ≡ false
      → user_at_decimal O users index ≡ none
  unfolding user_at_decimal parse_decimal signed numeral digits digit trimmed
  no_user users none h = refl
  no_user users (some index) h = elim (Bool-cases (str_eq index "")) [
    | inl e ↦ rw ((eq_iff index "").0 e) refl
    | inr e ↦ absurd (true≢false (simp (e) at h))
  ]

  dispatch-Throws :
      (n : Name) (reserve : String) (args : Args) (users : List O.User) (user : Option O.User)
      (expected : String) (message : Option String) (w : O.World)
      → supplied n args ≡ false
      → Throws (dispatch O n reserve args users user expected message) w
  unfolding dispatch
  dispatch-Throws Name.mint reserve args users user expected message w h =
      given-Throws _ (args.amount) _ w h
  dispatch-Throws Name.approve reserve args users user expected message w h = absurd (true≢false h)
  dispatch-Throws Name.approve_vault reserve args users user expected message w h =
      absurd (true≢false h)
  dispatch-Throws Name.deposit_collateral reserve args users user expected message w h =
      bind-Throws (on_behalf-Reads O users (args.on_behalf_of) user) _
        (λ a v. given-Throws _ (args.amount) _ v h) w
  dispatch-Throws Name.deposit reserve args users user expected message w h =
      bind-Throws (on_behalf-Reads O users (args.on_behalf_of) user) _
        (λ a v. given-Throws _ (args.amount) _ v h) w
  dispatch-Throws Name.delegate_borrow_allowance reserve args users user expected message w h =
      elim (Bool-cases (truthy (args.to_user))) [
        | inl there ↦
            let missing : truthy (args.amount) ≡ false = simp (there) at h in
            bind-Throws (address_of-Reads O (user_at_decimal O users (args.to_user))) _
              (λ a v. given-Throws _ (args.amount) _ v missing) w
        | inr e ↦ ("TypeError", rw (no_user users (args.to_user) e) refl)
      ]
  dispatch-Throws Name.withdraw reserve args users user expected message w h =
      given-Throws _ (args.amount) _ w h
  dispatch-Throws Name.withdraw_collateral reserve args users user expected message w h =
      given-Throws _ (args.amount) _ w h
  dispatch-Throws Name.borrow reserve args users user expected message w h =
      bind-Throws (on_behalf-Reads O users (args.on_behalf_of) user) _
        (λ a v. given-Throws _ (args.amount) _ v h) w
  dispatch-Throws Name.repay reserve args users user expected message w h =
      given-Throws _ (args.amount) _ w h
  dispatch-Throws Name.set_use_as_collateral reserve args users user expected message w h =
      given-Throws _ (args.use_as_collateral) _ w h

  choose-Throws :
      (c : Option Name) (name reserve : String) (args : Args) (users : List O.User)
      (user : Option O.User) (expected : String) (message : Option String) (w : O.World)
      → known c args ≡ false
      → Throws (choose O c name reserve args users user expected message) w
  unfolding choose
  choose-Throws none name reserve args users user expected message w h =
      ("Invalid action requested: " +s+ name, refl)
  choose-Throws (some n) name reserve args users user expected message w h =
      dispatch-Throws n reserve args users user expected message w h

  -- An action that lacks something that its name asks for, or whose name is not known, throws and
  -- leaves the world as it was.
  pub execute_action-Throws :
      (action : Action) (users : List O.User) (w : O.World)
      → complete action ≡ false
      → Throws (execute_action O action users) w
  unfolding execute_action
  execute_action-Throws action users w h = elim (Option-cases (action.args)) [
    | inl e ↦ ("TypeError", rw e refl)
    | inr (args, e) ↦ rw e (
        given-bind-Throws _ (action.name) _ w (λ name is_name has_name.
          given-bind-Throws _ (args.reserve) _ w (λ reserve is_reserve has_reserve.
            given-bind-Throws _ (args.user) _ w (λ index is_user has_user.
              given-bind-Throws _ (action.expected) _ w (λ expected is_expected has_expected.
                let given_args : complete_with (some args) (action.name) (action.expected) ≡ false =
                  sym (ap (λ a. complete_with a (action.name) (action.expected)) e) ∙ h in
                let unknown : known (case_of name names) args ≡ false =
                  simp (has_name, has_reserve, has_user, has_expected, ap case_of? is_name) at
                    given_args in
                choose-Throws (case_of name names) name reserve args users
                  (user_at O users (some index)) expected (action.revert_message) w unknown)))))
  ]

  execute_actions-append :
      (s t : List Action) (users : List O.User) (w : O.World)
      → execute_actions O (s ++ t) users w
        ≡ (execute_actions O s users >> execute_actions O t users) w
  unfolding execute_actions
  execute_actions-append [] t users w = refl
  execute_actions-append (a ∷ s) t users w =
      let later : execute_actions O (s ++ t) users
          ≡ (execute_actions O s users >> execute_actions O t users) =
        fun_ext (execute_actions-append s t users) in
      ap (λ k. (execute_action O a users >> k) w) later
      ∙ sym (
          continue-continue (λ _. execute_actions O s users) (λ _. execute_actions O t users)
            (execute_action O a users w))

  -- If the actions before an incomplete one are performed without a throw, the story throws in the
  -- world that they leave, and nothing after the incomplete action is performed.
  pub execute_actions-stops :
      (s : List Action) (a : Action) (t : List Action) (users : List O.User) (w w1 : O.World)
      → execute_actions O s users w ≡ (ok tt, w1)
      → complete a ≡ false
      → (e : String) × (execute_actions O (s ++ a ∷ t) users w ≡ (thrown e, w1))
  unfolding execute_actions
  execute_actions-stops s a t users w w1 h missing =
      let (e, stop) = execute_action-Throws a users w1 missing in
      (
        e,
        execute_actions-append s (a ∷ t) users w
            ∙ ap (continue (λ _. execute_actions O (a ∷ t) users)) h
            ∙ ap (continue (λ _. execute_actions O t users)) stop,
      )
