-- ===== src/Calculations.antt =====
-- test-suites/test-ftm/helpers/utils/calculations.ts: the reference model of the lending pool that
-- the scenario suites compare the deployed contracts with. (test-sturdy has the same functions but
-- for the three on collateral.) Arguments that a function never reads are left out.
pub mod Interest
pub mod Balances
pub mod Rates
pub mod Reserve
pub mod User
