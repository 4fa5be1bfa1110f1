-- ===== src/Calculations/Reserve/Accounting.antt =====
-- The expected data of a reserve add up: the liquidity is what is available and what is lent.
pub mod Settled
pub mod Balanced
pub mod Repaid
pub mod Lent
pub mod Stable
pub mod Swapped
