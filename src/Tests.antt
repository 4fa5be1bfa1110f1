-- ===== src/Tests.antt =====
-- Runs of the code at concrete inputs: a market with one reserve, the integers as big numbers, and
-- an application of each theorem that has hypotheses.
pub mod Data
pub mod Contracts
pub mod Formulas
pub mod Pool
pub mod Helpers
pub mod Scenario
pub mod Init
pub mod Deployments
pub mod Actions
pub mod Linking
