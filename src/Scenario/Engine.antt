-- ===== src/Scenario/Engine.antt =====
-- `executeStory` and `executeAction`. A condition like `!x || x === ''` is that `x` is not truthy.
use Prim.Native.String.{◌++◌}
use text.Mathlib.Text.{◌==◌ as str_eq}
use code4rena_may.Base.{String, List, [], ◌∷◌, Option, some, none, if◌then◌else◌}
use code4rena_may.Base.Lists.{get_elem?}
use code4rena_may.Base.ParseInt.{parse_int, parse_decimal}
use code4rena_may.Effects.{Action as Run, pure, throw, ◌>>=◌, ◌>>◌}
use code4rena_may.Helpers.Verification.{truthy}
use code4rena_may.Scenario.{Args, Action, Story, Operations}

-- The cases of `switch (name)`.
pub data Name : Type 0 where
  mint approve approve_vault deposit_collateral deposit delegate_borrow_allowance : Name
  withdraw withdraw_collateral borrow repay set_use_as_collateral : Name

abbrev pub names : List (String × Name)
names =
    ("mint", Name.mint)
    ∷ ("approve", Name.approve)
    ∷ ("approveVault", Name.approve_vault)
    ∷ ("depositCollateral", Name.deposit_collateral)
    ∷ ("deposit", Name.deposit)
    ∷ ("delegateBorrowAllowance", Name.delegate_borrow_allowance)
    ∷ ("withdraw", Name.withdraw)
    ∷ ("withdrawCollateral", Name.withdraw_collateral)
    ∷ ("borrow", Name.borrow)
    ∷ ("repay", Name.repay)
    ∷ ("setUseAsCollateral", Name.set_use_as_collateral)
    ∷ []

abbrev pub case_of : String → List (String × Name) → Option Name
case_of name [] = none
case_of name ((s, n) ∷ rest) = if str_eq name s then some n else case_of name rest

-- RateMode.None, RateMode.Variable, and a value that is no rate mode.
unfoldable pub rate_mode : Option String → String
rate_mode none = "0"
rate_mode (some mode) =
    if str_eq mode ""
    then "0"
    else if str_eq mode "none"
    then "0"
    else if str_eq mode "stable"
    then "2"
    else if str_eq mode "variable"
    then "2"
    else "4"

-- A string that is tested to be there.
abbrev pub given : {W : Type 0} → String → Option String → Run W String
given message none = throw message
given message (some s) = if str_eq s "" then throw message else pure s

module _ (O : Operations) where
  -- `users[parseInt(index)]`
  unfoldable pub user_at : List O.User → Option String → Option O.User
  user_at users none = none
  user_at users (some index) = elim (parse_int index) [ none ↦ none | some i ↦ get_elem? users i ]

  unfoldable pub user_at_decimal : List O.User → Option String → Option O.User
  user_at_decimal users none = none
  user_at_decimal users (some index) = elim (parse_decimal index) [
    | none ↦ none
    | some i ↦ get_elem? users i
  ]

  -- `user.address`, which throws on `undefined`.
  abbrev pub address_of : Option O.User → Run O.World String
  address_of none = throw "TypeError"
  address_of (some u) = pure (O.address u)

  abbrev pub on_behalf : List O.User → Option String → Option O.User → Run O.World String
  on_behalf users index user =
      if truthy index then address_of (user_at users index) else address_of user

  -- The body of the case. The string in front is the reserve.
  unfoldable pub dispatch :
      Name
      → String
      → Args
      → List O.User
      → Option O.User
      → String
      → Option String
      → Run O.World (Unit {0})
  dispatch Name.mint reserve args users user expected revert_message =
      given ("Invalid amount of " ++ reserve ++ " to mint") (args.amount) >>= λ amount.
      O.mint reserve amount user
  dispatch Name.approve reserve args users user expected revert_message = O.approve reserve user
  dispatch Name.approve_vault reserve args users user expected revert_message =
      O.approve_vault reserve user
  dispatch Name.deposit_collateral reserve args users user expected revert_message =
      on_behalf users (args.on_behalf_of) user >>= λ on_behalf_of.
      given ("Invalid amount to deposit into the " ++ reserve ++ " reserve") (args.amount)
      >>= λ amount.
          O.deposit_collateral reserve amount user on_behalf_of (args.send_value) expected
            revert_message
  dispatch Name.deposit reserve args users user expected revert_message =
      on_behalf users (args.on_behalf_of) user >>= λ on_behalf_of.
      given ("Invalid amount to deposit into the " ++ reserve ++ " reserve") (args.amount)
      >>= λ amount.
          O.deposit reserve amount user on_behalf_of (args.send_value) expected revert_message
  dispatch Name.delegate_borrow_allowance reserve args users user expected revert_message =
      address_of (user_at_decimal users (args.to_user)) >>= λ to_user.
      given ("Invalid amount to deposit into the " ++ reserve ++ " reserve") (args.amount)
      >>= λ amount.
          O.delegate_borrow_allowance reserve amount (rate_mode (args.borrow_rate_mode)) user
            to_user expected revert_message
  dispatch Name.withdraw reserve args users user expected revert_message =
      given ("Invalid amount to withdraw from the " ++ reserve ++ " reserve") (args.amount)
      >>= λ amount. O.withdraw reserve amount user expected revert_message
  dispatch Name.withdraw_collateral reserve args users user expected revert_message =
      given ("Invalid amount to withdraw from the " ++ reserve ++ " reserve") (args.amount)
      >>= λ amount. O.withdraw_collateral reserve amount user expected revert_message
  dispatch Name.borrow reserve args users user expected revert_message =
      on_behalf users (args.on_behalf_of) user >>= λ on_behalf_of.
      given ("Invalid amount to borrow from the " ++ reserve ++ " reserve") (args.amount)
      >>= λ amount.
          O.borrow reserve amount (rate_mode (args.borrow_rate_mode)) user on_behalf_of
            (args.time_travel) expected revert_message
  dispatch Name.repay reserve args users user expected revert_message =
      given ("Invalid amount to repay into the " ++ reserve ++ " reserve") (args.amount)
      >>= λ amount.
          O.repay reserve amount (rate_mode (args.borrow_rate_mode)) user
            (if truthy (args.on_behalf_of) then user_at users (args.on_behalf_of) else user)
            (args.send_value) expected revert_message
  dispatch Name.set_use_as_collateral reserve args users user expected revert_message =
      given
        ("A valid value for useAsCollateral needs to be set when calling setUseReserveAsCollateral"
          ++ " on reserve " ++ reserve)
        (args.use_as_collateral)
      >>= λ use_as_collateral.
          O.set_use_as_collateral reserve user use_as_collateral expected revert_message

  -- The case of the name, or the default.
  unfoldable pub choose :
      Option Name
      → String
      → String
      → Args
      → List O.User
      → Option O.User
      → String
      → Option String
      → Run O.World (Unit {0})
  choose none name reserve args users user expected revert_message =
      throw ("Invalid action requested: " ++ name)
  choose (some n) name reserve args users user expected revert_message =
      dispatch n reserve args users user expected revert_message

  unfoldable pub execute_action : Action → List O.User → Run O.World (Unit {0})
  execute_action action users = elim (action.args) [
    | none ↦ throw "TypeError"
    | some args ↦ given "Action name is missing" (action.name) >>= λ name.
        given "Invalid reserve selected for deposit" (args.reserve) >>= λ reserve.
        given ("Invalid user selected to deposit into the " ++ reserve ++ " reserve") (args.user)
        >>= λ user_index.
            given ("An expected resut for action " ++ name ++ " is required") (action.expected)
            >>= λ expected.
                choose (case_of name names) name reserve args users
                  (user_at users (some user_index)) expected (action.revert_message)
  ]

  unfoldable pub execute_actions : List Action → List O.User → Run O.World (Unit {0})
  execute_actions [] users = pure tt
  execute_actions (a ∷ rest) users = execute_action a users >> execute_actions rest users

  unfoldable pub execute_story : Story → List O.User → Run O.World (Unit {0})
  execute_story story users = execute_actions (story.actions) users
