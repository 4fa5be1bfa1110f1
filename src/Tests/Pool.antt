-- ===== src/Tests/Pool.antt =====
-- The actions on the reserve and on the user at concrete inputs.
use code4rena_may.Base.{◌+◌, ◌-◌, ◌*◌, ◌^◌, ◌≡◌, refl, arith, some, false}
use code4rena_may.Base.Int.{pos}
use code4rena_may.BigNumber.Concrete.{integers, integers-IsExact}
use code4rena_may.BigNumber.Laws.{nat}
use code4rena_may.Constants.{max_uint_amount}
use code4rena_may.Market.{ExpectedReserveData, lookup}
use code4rena_may.Market.RateMode.{stable, variable}
use code4rena_may.Market.Embed.{reserve, user}
use code4rena_may.Calculations.Balances.Exact.{a_token_balance_n}
use code4rena_may.Calculations.Reserve.Withdraw.{calc_expected_reserve_data_after_withdraw}
use code4rena_may.Calculations.Reserve.Borrow.{calc_expected_reserve_data_after_borrow}
use code4rena_may.Calculations.Reserve.Repay.{calc_expected_reserve_data_after_repay}
use code4rena_may.Calculations.Reserve.Failure.{
  swap, is_some, expected_after, expected_after-is_some,
}
use code4rena_may.Calculations.Reserve.Accounting.Settled.{IsSettled}
use code4rena_may.Calculations.Reserve.Accounting.Balanced.{withdraw-IsSettled}
use code4rena_may.Calculations.Reserve.Accounting.Repaid.{repay-IsSettled}
use code4rena_may.Calculations.Reserve.Swap.{calc_expected_reserve_data_after_swap_rate_mode}
use code4rena_may.Calculations.Reserve.Accounting.Swapped.{swap-IsSettled}
use code4rena_may.Calculations.Reserve.Accounting.Stable.{borrow_stable-IsSettled}
use code4rena_may.Calculations.Reserve.Accounting.Lent.{borrow_variable-IsSettled}
use code4rena_may.Calculations.User.Withdraw.{calc_expected_user_data_after_withdraw}
use code4rena_may.Calculations.User.Repay.{calc_expected_user_data_after_repay}
use code4rena_may.Calculations.User.Closing.{withdraw-all, repay_stable-all, repay_variable-all}
use code4rena_may.Tests.Data.{
  market, dai, pool, alice, curve-IsKinked, strategy-HasCurve, dai-found,
}

expected_after-is_some_example :
    is_some (
      expected_after integers market
        (reserve integers pool)
        (nat integers 2000)
        (swap (user integers alice) stable))
    ≡ is_some (lookup "DAI" market)
expected_after-is_some_example =
    expected_after-is_some integers market (reserve integers pool) (nat integers 2000)
      (swap (user integers alice) stable)

withdraw-IsSettled_example :
    (d : ExpectedReserveData integers.BN) × (calc_expected_reserve_data_after_withdraw integers
        market
        (pos (10 ^ 18))
        (reserve integers pool)
        (user integers alice)
        (nat integers 2000)
      ≡ some d)
    × IsSettled integers (500 * 10 ^ 18 - 10 ^ 18) d
withdraw-IsSettled_example =
    withdraw-IsSettled integers-IsExact market pool dai dai-found 2000 (omega arith) (omega arith)
      (user integers alice) (10 ^ 18) (omega arith) (omega arith)

repay-IsSettled_example :
    (d : ExpectedReserveData integers.BN) × (calc_expected_reserve_data_after_repay integers market
        (pos (10 ^ 18))
        variable
        (reserve integers pool)
        (user integers alice)
        (nat integers 1000)
      ≡ some d)
    × IsSettled integers (500 * 10 ^ 18 + 10 ^ 18) d
repay-IsSettled_example =
    repay-IsSettled integers-IsExact pool 1000 (omega arith) market dai dai-found (omega arith)
      (user integers alice) (10 ^ 18) variable (omega arith) (omega arith) (omega arith)

borrow_variable-IsSettled_example :
    (d : ExpectedReserveData integers.BN) × (calc_expected_reserve_data_after_borrow integers market
        (pos (10 ^ 18))
        variable
        (reserve integers pool)
        (nat integers 1000)
        (nat integers 2000)
      ≡ some d)
    × IsSettled integers (500 * 10 ^ 18 - 10 ^ 18) d
borrow_variable-IsSettled_example =
    borrow_variable-IsSettled integers-IsExact curve-IsKinked market pool dai dai-found
      strategy-HasCurve 1000 refl (omega arith) 1000 2000 (omega arith) (omega arith) (omega arith)
      (10 ^ 18) (omega arith) (omega arith)

withdraw-all_example :
    let result =
      calc_expected_user_data_after_withdraw integers max_uint_amount
        (reserve integers pool)
        (reserve integers pool)
        (user integers alice)
        (nat integers 2000) in
    (result.current_a_token_balance ≡ nat integers 0)
    × (result.wallet_balance ≡ nat integers (70 * 10 ^ 18 + a_token_balance_n pool alice 2000))
    × (result.usage_as_collateral_enabled ≡ false)
withdraw-all_example =
    withdraw-all integers-IsExact pool (reserve integers pool) alice 2000 (omega arith) refl

repay_stable-all_example :
    let result =
      calc_expected_user_data_after_repay integers max_uint_amount stable
        (reserve integers pool)
        (reserve integers pool)
        (user integers alice)
        "0x0a"
        "0x0a"
        (nat integers 2000)
        (nat integers 2000) in
    (result.current_stable_debt ≡ nat integers 0)
    × (result.principal_stable_debt ≡ nat integers 0)
    × (result.stable_borrow_rate ≡ nat integers 0)
    × (result.stable_rate_last_updated ≡ nat integers 0)
repay_stable-all_example =
    repay_stable-all integers-IsExact pool (reserve integers pool) alice "0x0a" "0x0a"
      (nat integers 2000) 2000 (omega arith)

repay_variable-all_example :
    let result =
      calc_expected_user_data_after_repay integers max_uint_amount variable
        (reserve integers pool)
        (reserve integers pool)
        (user integers alice)
        "0x0a"
        "0x0b"
        (nat integers 1000)
        (nat integers 1000) in
    (result.scaled_variable_debt ≡ nat integers 0) × (result.current_variable_debt ≡ nat integers 0)
repay_variable-all_example =
    repay_variable-all integers-IsExact pool (reserve integers pool) alice "0x0a" "0x0b"
      (nat integers 1000) 1000 (12 * 10 ^ 26) (omega arith) refl refl (omega arith)

swap-IsSettled_example :
    (d : ExpectedReserveData integers.BN) × (calc_expected_reserve_data_after_swap_rate_mode
        integers market
        (reserve integers pool)
        (user integers alice)
        variable
        (nat integers 1000)
      ≡ some d)
    × IsSettled integers (500 * 10 ^ 18) d
swap-IsSettled_example =
    swap-IsSettled integers-IsExact market pool dai dai-found alice 1000 (omega arith) (omega arith)
      (omega arith) (omega arith) variable (omega arith) (omega arith)

borrow_stable-IsSettled_example :
    (d : ExpectedReserveData integers.BN) × (calc_expected_reserve_data_after_borrow integers market
        (pos (10 ^ 18))
        stable
        (reserve integers pool)
        (nat integers 1000)
        (nat integers 2000)
      ≡ some d)
    × IsSettled integers (500 * 10 ^ 18 - 10 ^ 18) d
borrow_stable-IsSettled_example =
    borrow_stable-IsSettled integers-IsExact curve-IsKinked market pool dai dai-found
      strategy-HasCurve 1000 refl (omega arith) 1000 2000 (omega arith) (omega arith) (omega arith)
      (10 ^ 18) (omega arith)
