-- ===== src/Scenario.antt =====
-- test-suites/test-ftm/helpers/scenario-engine.ts: the stories of the scenario files. The operations of
-- actions.ts are an interface, and the console is left out.
pub mod Engine
pub mod Outcomes
pub mod Stories
pub mod RateModes
use code4rena_may.Base.{String, List, Option}
use code4rena_may.Effects.{Action as Run}

-- `action.args`: a key that is missing is `none`.
pub record Args : Type 0 where
  pub reserve : Option String
  pub user : Option String
  pub borrow_rate_mode : Option String
  pub amount : Option String
  pub send_value : Option String
  pub on_behalf_of : Option String
  pub to_user : Option String
  pub time_travel : Option String
  pub use_as_collateral : Option String

pub record Action : Type 0 where
  pub name : Option String
  pub args : Option Args
  pub expected : Option String
  pub revert_message : Option String

pub record Story : Type 0 where
  pub description : String
  pub actions : List Action

-- The operations of actions.ts that the engine calls. A user that is `none` is `undefined`.
pub record Operations : Type 1 where
  pub World : Type 0
  pub User : Type 0
  pub address : User → String
  pub mint : String → String → Option User → Run World (Unit {0})
  pub approve : String → Option User → Run World (Unit {0})
  pub approve_vault : String → Option User → Run World (Unit {0})
  -- The reserve, the amount, the sender, on behalf of whom, the value, what is expected and how it
  -- reverts.
  pub deposit :
      String
      → String
      → Option User
      → String
      → Option String
      → String
      → Option String
      → Run World (Unit {0})
  pub deposit_collateral :
      String
      → String
      → Option User
      → String
      → Option String
      → String
      → Option String
      → Run World (Unit {0})
  pub withdraw : String → String → Option User → String → Option String → Run World (Unit {0})
  pub withdraw_collateral :
      String → String → Option User → String → Option String → Run World (Unit {0})
  -- The third argument is the rate mode.
  pub delegate_borrow_allowance :
      String
      → String
      → String
      → Option User
      → String
      → String
      → Option String
      → Run World (Unit {0})
  pub borrow :
      String
      → String
      → String
      → Option User
      → String
      → Option String
      → String
      → Option String
      → Run World (Unit {0})
  pub repay :
      String
      → String
      → String
      → Option User
      → Option User
      → Option String
      → String
      → Option String
      → Run World (Unit {0})
  pub set_use_as_collateral :
      String → Option User → String → String → Option String → Run World (Unit {0})
