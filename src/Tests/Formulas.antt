-- ===== src/Tests/Formulas.antt =====
-- The formulas at concrete inputs.
use code4rena_may.Base.{ℕ, ◌+◌, ◌*◌, ◌^◌, ◌≤◌, ◌≡◌, refl, arith}
use code4rena_may.BigNumber.Concrete.{integers, integers-IsExact}
use code4rena_may.BigNumber.Laws.{nat}
use code4rena_may.Math.{ray_mul, ray_div}
use code4rena_may.Math.Nearest.{ray_mul-ray_div}
use code4rena_may.Market.Embed.{reserve}
use code4rena_may.Calculations.Interest.{calc_expected_variable_borrow_index}
use code4rena_may.Calculations.Interest.Growth.{variable_index-grows}
use code4rena_may.Calculations.Balances.{
  calc_expected_average_stable_borrow_rate, calc_expected_user_stable_rate,
}
use code4rena_may.Calculations.Balances.Mean.{average_rate-bounded}
use code4rena_may.Calculations.Rates.{calc_expected_overall_borrow_rate, borrow_rates, rates_of}
use code4rena_may.Calculations.Rates.Bounds.{borrow_rates-bounded, liquidity_rate-covered}
use code4rena_may.Tests.Data.{strategy, dai, pool, curve-IsKinked, strategy-HasCurve}

ray_mul-ray_div_example :
    (r : ℕ) × (ray_mul integers
        (ray_div integers (nat integers 5) (nat integers (11 * 10 ^ 26)))
        (nat integers (11 * 10 ^ 26))
      ≡ nat integers r)
    × (5 ≤ r + 1)
    × (r ≤ 5 + 1)
ray_mul-ray_div_example =
    ray_mul-ray_div integers-IsExact 5 (11 * 10 ^ 26) (omega arith) (omega arith)

borrow_rates-bounded_example :
    (sr : ℕ) × (vr : ℕ) × (borrow_rates integers strategy
        (nat integers (39 * 10 ^ 24))
        (nat integers (9 * 10 ^ 26))
      ≡ (nat integers sr, nat integers vr))
    × (39 * 10 ^ 24 ≤ sr)
    × (sr ≤ 39 * 10 ^ 24 + 2 * 10 ^ 25 + 75 * 10 ^ 25)
    × (0 ≤ vr)
    × (vr ≤ 0 + 4 * 10 ^ 25 + 75 * 10 ^ 25)
borrow_rates-bounded_example =
    borrow_rates-bounded integers-IsExact curve-IsKinked strategy-HasCurve (39 * 10 ^ 24)
      (9 * 10 ^ 26) (omega arith)

liquidity_rate-covered_example :
    (l : ℕ) × (sr : ℕ) × (vr : ℕ) × (o : ℕ) × (rates_of integers dai
        (nat integers (39 * 10 ^ 24))
        (nat integers (9 * 10 ^ 26))
        (nat integers 400)
        (nat integers 500)
        (nat integers (5 * 10 ^ 25))
      ≡ (nat integers l, nat integers sr, nat integers vr))
    × (calc_expected_overall_borrow_rate integers
          (nat integers 400)
          (nat integers 500)
          (nat integers vr)
          (nat integers (5 * 10 ^ 25))
        ≡ nat integers o)
    × (l ≤ o)
liquidity_rate-covered_example =
    liquidity_rate-covered integers-IsExact curve-IsKinked strategy-HasCurve dai 1000 refl refl
      (omega arith) (39 * 10 ^ 24) (9 * 10 ^ 26) 400 500 (5 * 10 ^ 25) (omega arith)

variable_index-grows_example :
    (i : ℕ) × (j : ℕ) × (calc_expected_variable_borrow_index integers
        (reserve integers pool)
        (nat integers 2000)
      ≡ nat integers i)
    × (calc_expected_variable_borrow_index integers (reserve integers pool) (nat integers 3000)
        ≡ nat integers j)
    × (12 * 10 ^ 26 ≤ i)
    × (i ≤ j)
variable_index-grows_example =
    variable_index-grows integers-IsExact pool 2000 3000 (omega arith) (omega arith)

average_rate-bounded_example :
    (m : ℕ) × (calc_expected_average_stable_borrow_rate integers
        (nat integers 50)
        (nat integers 200)
        (nat integers 100)
        (nat integers 60)
      ≡ nat integers m)
    × (calc_expected_user_stable_rate integers
          (nat integers 200)
          (nat integers 50)
          (nat integers 100)
          (nat integers 60)
        ≡ nat integers m)
    × (50 ≤ m)
    × (m ≤ 60)
average_rate-bounded_example =
    average_rate-bounded integers-IsExact 50 60 50 200 60 100 (omega arith) (omega arith)
      (omega arith) (omega arith) (omega arith)
