-- ===== src/Contracts.antt =====
-- The arithmetic of the contracts that the calculations predict. A `uint256` is a number below
-- 2 ^ 256, unchecked operations wrap around, and `none` is a revert.
pub mod Reverts
pub mod SafeMath
pub mod WadRayMath
pub mod MathUtils
pub mod RateStrategy
pub mod Agreement
