-- ===== src/Actions/Engine.antt =====
-- The actions of actions.ts as the operations that scenario-engine.ts calls.
use code4rena_may.BigNumber.{BigNumber}
use code4rena_may.Scenario.{Operations}
use code4rena_may.Actions.{Chain}
use code4rena_may.Actions.Supply.{
  mint, approve, approve_vault, deposit, deposit_collateral, withdraw, withdraw_collateral,
}
use code4rena_may.Actions.Debt.{delegate_borrow_allowance, borrow, repay, set_use_as_collateral}

abbrev pub operations : {B : BigNumber} → Chain B → Operations
operations {B} C = record {
  World = C.World;
  User = C.User;
  address = C.address;
  mint = mint C;
  approve = approve C;
  approve_vault = approve_vault C;
  deposit = deposit C;
  deposit_collateral = deposit_collateral C;
  withdraw = withdraw C;
  withdraw_collateral = withdraw_collateral C;
  delegate_borrow_allowance = delegate_borrow_allowance C;
  borrow = borrow C;
  repay = repay C;
  set_use_as_collateral = set_use_as_collateral C;
}
