-- ===== src/Helpers.antt =====
-- The TypeScript files of helpers: what the deployment scripts and the suites share.
pub mod Misc
pub mod Verification
pub mod Oracles
pub mod Init
pub mod Linking
