-- ===== src/Lib.antt =====
-- The reference model of the lending pool: what the scenario suites expect of the deployed contracts
-- after each action of a user, and the arithmetic of the contracts that it predicts.
--
-- The suites send an action to the contracts, compute the expected data of the reserve and of the
-- user from the data before, and compare both with what the contracts report. The functions that
-- compute the expected data, test-suites/test-ftm/helpers/utils/calculations.ts, are all modelled:
--   Calculations.Interest   calcLinearInterest, calcCompoundedInterest, the indexes, the accrued totals
--   Calculations.Balances   the balances of a user, the average stable rates
--   Calculations.Rates      the utilization and calcExpectedInterestRates
--   Calculations.Reserve    calcExpectedReserveDataAfter..., a module for each action
--   Calculations.User       calcExpectedUserDataAfter..., a module for each action
-- They stand on
--   BigNumber   bignumber.js as a record of operations, with its documented laws at integers
--   Constants   helpers/constants.ts
--   Math        test-suites/test-ftm/helpers/utils/math.ts: rayMul, rayDiv and their kin
--   Market      helpers/types.ts and .../utils/interfaces/index.ts: reserves, users, rate modes
-- Scenario is the engine of the stories (test-suites/test-ftm/helpers/scenario-engine.ts): Engine has
-- executeStory and executeAction, over the operations of actions.ts as an interface. Actions fills it from
-- test-suites/test-ftm/helpers/actions.ts and utils/helpers.ts beside it:
--   Actions.Reads      what an action reads before and after its transaction
--   Actions.Equality   almostEqualOrEqual and expectEqual
--   Actions.Steps      the transaction and the comparisons that the actions share
--   Actions.Supply     mint, approve, deposit, withdraw and the collateral actions
--   Actions.Debt       delegateBorrowAllowance, borrow, repay and setUseAsCollateral
--   Actions.Sturdy     what differs in the files of that name in test-suites/test-sturdy/helpers
--   Actions.Engine     the actions as the operations of the engine
--
-- Helpers is the code that the deployment scripts call:
--   Helpers.Misc           helpers/misc-utils.ts: chunk
--   Helpers.Verification   helpers/etherscan-verification.ts: the verification with its retries
--   Helpers.Oracles        helpers/oracles-helpers.ts: the first rates and prices of the oracles
--   Helpers.Init           helpers/init-helpers.ts: configureReservesByHelper, getPairsTokenAggregator
--   Helpers.Init.Reserves  helpers/init-helpers.ts: initReservesByHelper
--   Helpers.Linking        helpers/contracts-helpers.ts: linkBytecode
-- Deployments is the part of helpers/contracts-deployments.ts and helpers/contracts-getters.ts that deploys
-- single contracts and connects to them, with a function for each deployment and for each getter, by the
-- names of the source. Deployments.Sturdy and Deployments.Fantom put a contract behind a proxy of the
-- addresses provider; Deployments.Oracles, Core, Vaults and Mocks deploy one contract each time.
--
-- What these parts call outside (contracts, getters, deployments, the clock, files) is a record of operations
-- on an unknown world for each of them. Effects has the type of such code: a result or a thrown
-- message, and the world, which keeps what was done before a throw. What is thrown is taken to be an Error
-- or a text: a thrown value without a message is not modelled. A call without await is done at once, and
-- what it throws does not reach the code.
--
-- The names are those of the source in snake case. A calculation that may throw returns an option, and
-- none is the exception; the only one is the look-up of a symbol without parameters. The configuration
-- objects of the source, which are global there, are arguments.
--
-- Contracts has the arithmetic that the calculations predict: SafeMath
-- (contracts/dependencies/openzeppelin/contracts/SafeMath.sol), WadRayMath (WadRayMath.sol and
-- PercentageMath.sol of contracts/protocol/libraries/math), MathUtils (MathUtils.sol there) and
-- RateStrategy (contracts/protocol/lendingpool/DefaultReserveInterestRateStrategy.sol). A word is a
-- number below 2 ^ 256, unchecked operations wrap around, and none is a revert.
--
-- Base has the shared names and the integers; Math.Numbers and Math.Curve state the
-- formulas on natural numbers, which the modules named Exact, Indexes and Words reach from the code.
-- Tests has concrete runs.
--
-- A string or a number that the code gives to bignumber.js denotes an integer, and stands as that
-- integer. The laws are those of the setting that the suites make, in which a division is rounded
-- towards zero; nothing is assumed of a division by zero.
--
-- Loops over arrays are structural recursion. The retries of a verification run on fuel, and none is
-- the lack of it: fuel above the number of tries is enough (four tries in the code).
--
-- Not modelled: the deployments with libraries or of many contracts, the getters of many contracts, the
-- configuration and the tasks (helpers, tasks, markets) but for the files above, the contracts of the pool,
-- the tokens and the vaults, and the functions of test-sturdy that repeat those of test-ftm.
pub mod Base
pub mod BigNumber
pub mod Constants
pub mod Math
pub mod Market
pub mod Calculations
pub mod Contracts
pub mod Tests
pub mod Effects
pub mod Helpers
pub mod Scenario
pub mod Actions
pub mod Deployments
