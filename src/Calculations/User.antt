-- ===== src/Calculations/User.antt =====
-- The expected state of a user after each action. `reserves_config` is the `ReservesConfig` of the
-- pool configuration that `loadPoolConfig` gives.
pub mod Deposit
pub mod Withdraw
pub mod Borrow
pub mod Repay
pub mod Swap
pub mod Closing
