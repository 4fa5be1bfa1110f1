-- ===== src/Tests/Scenario.antt =====
-- The properties of the scenario engine at concrete operations and stories.
use code4rena_may.Base.{ℕ, suc, ◌≡◌, refl, String, List, [], ◌∷◌, ◌++◌, Option, some, none}
use code4rena_may.Base.ParseInt.{parse_int, signed, numeral, digits, digit, trimmed}
use code4rena_may.Effects.{ok, thrown}
use code4rena_may.Scenario.{Args, Action, Operations}
use code4rena_may.Scenario.Engine.{execute_action, execute_actions, choose, dispatch, user_at}
use code4rena_may.Scenario.Outcomes.{Throws}
use code4rena_may.Scenario.Stories.{execute_action-Throws, execute_actions-stops}
use code4rena_may.Scenario.RateModes.{with_mode, with_args, execute_action-stable}

-- Operations that only count themselves.
abbrev counting : Operations
counting = record {
  World = ℕ;
  User = String;
  address = λ u. u;
  mint = λ a b u w. (ok tt, suc w);
  approve = λ a u w. (ok tt, suc w);
  approve_vault = λ a u w. (ok tt, suc w);
  deposit = λ a b u c d e f w. (ok tt, suc w);
  deposit_collateral = λ a b u c d e f w. (ok tt, suc w);
  withdraw = λ a b u c d w. (ok tt, suc w);
  withdraw_collateral = λ a b u c d w. (ok tt, suc w);
  delegate_borrow_allowance = λ a b c u d e f w. (ok tt, suc w);
  borrow = λ a b c u d e f g w. (ok tt, suc w);
  repay = λ a b c u v d e f w. (ok tt, suc w);
  set_use_as_collateral = λ a u b c d w. (ok tt, suc w);
}

abbrev args : Option String → Args
args amount = record {
  reserve = some "DAI";
  user = some "0";
  borrow_rate_mode = some "stable";
  amount = amount;
  send_value = none;
  on_behalf_of = none;
  to_user = none;
  time_travel = none;
  use_as_collateral = none;
}

abbrev action : String → Option String → Action
action name amount = record {
  name = some name;
  args = some (args amount);
  expected = some "success";
  revert_message = none;
}

abbrev users : List String
users = "0xa" ∷ "0xb" ∷ []

runs : execute_action counting (action "borrow" (some "10")) users 0 ≡ (ok tt, 1)
unfolding execute_action choose dispatch user_at parse_int signed numeral digits digit trimmed
runs = refl

execute_action-Throws_example : Throws (execute_action counting (action "borrow" none) users) 0
execute_action-Throws_example = execute_action-Throws counting (action "borrow" none) users 0 refl

-- A delegation to nobody.
delegates_to_nobody :
    Throws (execute_action counting (action "delegateBorrowAllowance" (some "10")) users) 0
delegates_to_nobody =
    execute_action-Throws counting (action "delegateBorrowAllowance" (some "10")) users 0 refl

abbrev story : List Action
story = action "approve" none ∷ action "borrow" (some "10") ∷ []

story_runs : execute_actions counting story users 0 ≡ (ok tt, 2)
unfolding execute_actions execute_action choose dispatch user_at parse_int signed numeral digits
    digit trimmed
story_runs = refl

execute_actions-stops_example :
    (e : String) × (execute_actions counting (story ++ action "borrow" none ∷ story) users 0
      ≡ (thrown e, 2))
execute_actions-stops_example =
    execute_actions-stops counting story (action "borrow" none) story users 0 2 story_runs refl

execute_action-stable_example :
    (execute_action counting
        (with_args (with_mode (some "stable") (args (some "10"))) (action "borrow" none))
        users
      ≡ execute_action counting
          (with_args (with_mode (some "variable") (args (some "10"))) (action "borrow" none))
          users)
    × (execute_action counting
          (with_args (with_mode (some "none") (args (some "10"))) (action "borrow" none))
          users
        ≡ execute_action counting
            (with_args (with_mode none (args (some "10"))) (action "borrow" none))
            users)
execute_action-stable_example =
    execute_action-stable counting (action "borrow" none) (args (some "10")) users
