-- ===== src/Calculations/Reserve.antt =====
-- The expected state of a reserve after each action of a user. `reserves_params` is
-- `configuration.reservesParams`, and `none` is a thrown exception.
pub mod Deposit
pub mod Withdraw
pub mod Borrow
pub mod Repay
pub mod Swap
pub mod Rebalance
pub mod Failure
pub mod Accounting
