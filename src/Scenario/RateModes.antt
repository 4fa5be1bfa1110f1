-- ===== src/Scenario/RateModes.antt =====
-- The rate mode that an action's `borrowRateMode` selects.
use mathlib.Core.Path.{fun_ext}
use Prim.Native.String.{◌++◌}
use code4rena_may.Base.{String, List, Option, some, none, ◌≡◌, refl, ap}
use code4rena_may.Effects.{Action as Run, ◌>>=◌}
use code4rena_may.Scenario.{Args, Action, Operations}
use code4rena_may.Scenario.Engine.{
  Name, names, given, case_of, user_at, rate_mode, dispatch, choose, execute_action,
}

abbrev pub with_mode : Option String → Args → Args
with_mode mode args = record args { borrow_rate_mode = mode }

abbrev pub with_args : Args → Action → Action
with_args args action = record action { args = some args }

bind-same :
    {W A : Type 0} (m : Run W A) {f g : A → Run W (Unit {0})}
    → ((a : A) → f a ≡ g a)
    → (m >>= f) ≡ (m >>= g)
bind-same m h = ap (λ k. m >>= k) (fun_ext h)

module _ (O : Operations) where
  dispatch-same :
      (n : Name) (m1 m2 : Option String) (reserve : String) (args : Args) (users : List O.User)
      (user : Option O.User) (expected : String) (message : Option String)
      → rate_mode m1 ≡ rate_mode m2
      → dispatch O n reserve (with_mode m1 args) users user expected message
        ≡ dispatch O n reserve (with_mode m2 args) users user expected message
  unfolding dispatch
  dispatch-same Name.mint m1 m2 reserve args users user expected message same = refl
  dispatch-same Name.approve m1 m2 reserve args users user expected message same = refl
  dispatch-same Name.approve_vault m1 m2 reserve args users user expected message same = refl
  dispatch-same Name.deposit_collateral m1 m2 reserve args users user expected message same = refl
  dispatch-same Name.deposit m1 m2 reserve args users user expected message same = refl
  dispatch-same Name.delegate_borrow_allowance m1 m2 reserve args users user expected message same =
      rw same refl
  dispatch-same Name.withdraw m1 m2 reserve args users user expected message same = refl
  dispatch-same Name.withdraw_collateral m1 m2 reserve args users user expected message same = refl
  dispatch-same Name.borrow m1 m2 reserve args users user expected message same = rw same refl
  dispatch-same Name.repay m1 m2 reserve args users user expected message same = rw same refl
  dispatch-same Name.set_use_as_collateral m1 m2 reserve args users user expected message same =
      refl

  choose-same :
      (c : Option Name) (m1 m2 : Option String) (name reserve : String) (args : Args)
      (users : List O.User) (user : Option O.User) (expected : String) (message : Option String)
      → rate_mode m1 ≡ rate_mode m2
      → choose O c name reserve (with_mode m1 args) users user expected message
        ≡ choose O c name reserve (with_mode m2 args) users user expected message
  unfolding choose
  choose-same none m1 m2 name reserve args users user expected message same = refl
  choose-same (some n) m1 m2 name reserve args users user expected message same =
      dispatch-same n m1 m2 reserve args users user expected message same

  -- Two values of `borrowRateMode` that select one rate mode make no difference to an action.
  execute_action-same :
      (action : Action) (args : Args) (m1 m2 : Option String) (users : List O.User)
      → rate_mode m1 ≡ rate_mode m2
      → execute_action O (with_args (with_mode m1 args) action) users
        ≡ execute_action O (with_args (with_mode m2 args) action) users
  unfolding execute_action
  execute_action-same action args m1 m2 users same =
      bind-same (given "Action name is missing" (action.name)) (λ name.
        bind-same (given "Invalid reserve selected for deposit" (args.reserve)) (λ reserve.
          bind-same
            (given ("Invalid user selected to deposit into the " ++ reserve ++ " reserve")
              (args.user))
            (λ index.
              bind-same
                (given ("An expected resut for action " ++ name ++ " is required")
                  (action.expected))
                (λ expected.
                  choose-same (case_of name names) m1 m2 name reserve args users
                    (user_at O users (some index)) expected (action.revert_message) same))))

  -- An action whose `borrowRateMode` is `stable` does what it does with `variable`, and one whose
  -- `borrowRateMode` is `none` does what it does without the key.
  pub execute_action-stable :
      (action : Action) (args : Args) (users : List O.User)
      → (execute_action O (with_args (with_mode (some "stable") args) action) users
          ≡ execute_action O (with_args (with_mode (some "variable") args) action) users)
        × (execute_action O (with_args (with_mode (some "none") args) action) users
            ≡ execute_action O (with_args (with_mode none args) action) users)
  unfolding rate_mode
  execute_action-stable action args users = (
    execute_action-same action args (some "stable") (some "variable") users refl,
    execute_action-same action args (some "none") none users refl,
  )
