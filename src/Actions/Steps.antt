-- ===== src/Actions/Steps.antt =====
-- The steps that the actions of actions.ts share: a transaction, what is read after it, and the two
-- comparisons.
use text.Mathlib.Text.{◌==◌ as str_eq}
use code4rena_may.Base.{String, Option, none, some, if◌then◌else◌}
use code4rena_may.BigNumber.{BigNumber}
use code4rena_may.Effects.{Action, pure, ◌>>=◌, ◌>>◌}
use code4rena_may.Market.{ReserveData, ExpectedReserveData, UserReserveData}
use code4rena_may.Actions.{Chain, Call}
use code4rena_may.Actions.Reads.{ContractsData, defined, get_tx_cost_and_timestamp}
use code4rena_may.Actions.Equality.{compare_reserve, compare_user, expect_equal}

module _ {B : BigNumber} (C : Chain B) where
  open B use {BN}

  -- An expected object as the calculations of a user's data take it: what it lacks they do not read.
  unfoldable pub as_reserve_data : ExpectedReserveData BN → ReserveData BN
  as_reserve_data e = record {
    address = e.address;
    symbol = "";
    decimals = C.undefined;
    total_liquidity = e.total_liquidity;
    available_liquidity = e.available_liquidity;
    total_stable_debt = e.total_stable_debt;
    total_variable_debt = e.total_variable_debt;
    principal_stable_debt = e.principal_stable_debt;
    scaled_variable_debt = e.scaled_variable_debt;
    average_stable_borrow_rate = e.average_stable_borrow_rate;
    variable_borrow_rate = e.variable_borrow_rate;
    stable_borrow_rate = e.stable_borrow_rate;
    utilization_rate = e.utilization_rate;
    liquidity_index = e.liquidity_index;
    variable_borrow_index = e.variable_borrow_index;
    a_token_address = "";
    market_stable_rate = C.undefined;
    last_update_timestamp = elim e.last_update_timestamp [ none ↦ C.undefined | some t ↦ t ];
    total_stable_debt_last_updated = C.undefined;
    liquidity_rate = e.liquidity_rate;
  }

  -- The branches of `expectedResult`.
  abbrev pub by_expectation :
      String → Action C.World (Unit {0}) → Action C.World (Unit {0}) → Action C.World (Unit {0})
  by_expectation expected_result success revert =
      if str_eq expected_result "success"
      then success
      else if str_eq expected_result "revert"
      then revert
      else pure tt

  -- `waitForTx(await call)`, for its effect
  unfoldable pub transact : C.User → Call → Action C.World (Unit {0})
  transact user call = C.send user call >>= λ tx. C.wait tx >>= λ receipt. pure tt

  -- The two comparisons, with the expected data as functions of what is read after the transaction,
  -- the expected data of the reserve and the time of the transaction.
  unfoldable pub compare_both :
      (ContractsData BN → BN → Option (ExpectedReserveData BN))
      → (ContractsData BN → ExpectedReserveData BN → BN → UserReserveData BN)
      → ContractsData BN
      → BN
      → Action C.World (Unit {0})
  compare_both expect_reserve expect_user after time =
      defined C (expect_reserve after time) >>= λ expected.
      expect_equal B C (compare_reserve B after.reserve_data expected)
      >> expect_equal B C (compare_user B after.user_data (expect_user after expected time))

  -- The transaction, what is read after it, and its cost and time.
  unfoldable pub transact_and_compare :
      C.User
      → Call
      → Action C.World (ContractsData BN)
      → (ContractsData BN → BN → Action C.World (Unit {0}))
      → Action C.World (Unit {0})
  transact_and_compare user call read compare = C.send user call >>= λ tx.
      C.wait tx >>= λ tx_result.
      read >>= λ after. get_tx_cost_and_timestamp C tx_result >>= λ tx_info. compare after tx_info.1

  -- The transaction, its cost and time, and what is read after it and after `meanwhile`.
  unfoldable pub transact_then_compare :
      C.User
      → Call
      → Action C.World (Unit {0})
      → Action C.World (ContractsData BN)
      → (ContractsData BN → BN → Action C.World (Unit {0}))
      → Action C.World (Unit {0})
  transact_then_compare user call meanwhile read compare = C.send user call >>= λ tx.
      C.wait tx >>= λ tx_result. get_tx_cost_and_timestamp C tx_result >>= λ tx_info.
      meanwhile >> (read >>= λ after. compare after tx_info.1)
