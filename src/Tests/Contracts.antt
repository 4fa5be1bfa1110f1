-- ===== src/Tests/Contracts.antt =====
-- The contracts return at these inputs, and the calculations agree.
use code4rena_may.Base.{ℕ, ◌+◌, ◌*◌, ◌^◌, ◌≤◌, ◌≡◌, refl, arith, some}
use code4rena_may.BigNumber.Concrete.{integers, integers-IsExact}
use code4rena_may.BigNumber.Laws.{nat}
use code4rena_may.Contracts.SafeMath.{add, sub, mul}
use code4rena_may.Contracts.WadRayMath.{ray_mul, ray_div, wad_to_ray, percent_mul}
use code4rena_may.Contracts.RateStrategy.{
  weighted_rate, overall_borrow_rate, utilization_ratio, utilization_of, rates_above, rates_below,
  calculate_interest_rates,
}
use code4rena_may.Contracts.MathUtils.{
  calculate_linear_interest, binomial_interest, calculate_compounded_interest,
}
use code4rena_may.Contracts.Agreement.{
  compounded_interest-agrees, interest_rates-agree, interest_rates-close,
}
use code4rena_may.Calculations.Interest.{calc_compounded_interest}
use code4rena_may.Calculations.Rates.{calc_expected_utilization_rate, calc_expected_interest_rates}
use code4rena_may.Tests.Data.{
  curve, market, dai, curve-IsKinked, curve-IsWord, strategy-HasCurve, dai-found,
}

run_above :
    calculate_interest_rates curve
      (39 * 10 ^ 24)
      (100 * 10 ^ 18)
      (400 * 10 ^ 18)
      (500 * 10 ^ 18)
      (5 * 10 ^ 25)
      1000
    ≡ some (20475 * 10 ^ 22, 434 * 10 ^ 24, 415 * 10 ^ 24)
unfolding add sub mul ray_mul ray_div wad_to_ray percent_mul weighted_rate overall_borrow_rate
    utilization_ratio utilization_of rates_above rates_below calculate_interest_rates
run_above = refl

interest_rates-agree_example :
    calc_expected_interest_rates integers market "DAI"
      (nat integers (39 * 10 ^ 24))
      (calc_expected_utilization_rate integers
        (nat integers (400 * 10 ^ 18))
        (nat integers (500 * 10 ^ 18))
        (nat integers (100 * 10 ^ 18 + 400 * 10 ^ 18 + 500 * 10 ^ 18)))
      (nat integers (400 * 10 ^ 18))
      (nat integers (500 * 10 ^ 18))
      (nat integers (5 * 10 ^ 25))
    ≡ some
        (nat integers (20475 * 10 ^ 22), nat integers (434 * 10 ^ 24), nat integers (415 * 10 ^ 24))
interest_rates-agree_example =
    interest_rates-agree integers-IsExact curve-IsKinked curve-IsWord market "DAI" dai dai-found
      strategy-HasCurve 1000 refl (omega arith) (39 * 10 ^ 24) (100 * 10 ^ 18) (400 * 10 ^ 18)
      (500 * 10 ^ 18) (5 * 10 ^ 25) (omega arith) (omega arith) (omega arith) (omega arith)
      (20475 * 10 ^ 22) (434 * 10 ^ 24) (415 * 10 ^ 24) (omega arith) run_above

-- Below the kink the two orders of the operations give different rates.
run_below :
    calculate_interest_rates curve
      (39 * 10 ^ 24)
      (3 * 10 ^ 18)
      (7 * 10 ^ 18)
      (3 * 10 ^ 18)
      (5 * 10 ^ 25)
      1000
    ≡ some (32218934911242603550295858, 58230769230769230769230769, 38461538461538461538461539)
unfolding add sub mul ray_mul ray_div wad_to_ray percent_mul weighted_rate overall_borrow_rate
    utilization_ratio utilization_of rates_above rates_below calculate_interest_rates
run_below = refl

interest_rates-close_example :
    (l' : ℕ) × (vr' : ℕ) × (calc_expected_interest_rates integers market "DAI"
        (nat integers (39 * 10 ^ 24))
        (calc_expected_utilization_rate integers
          (nat integers (7 * 10 ^ 18))
          (nat integers (3 * 10 ^ 18))
          (nat integers (3 * 10 ^ 18 + 7 * 10 ^ 18 + 3 * 10 ^ 18)))
        (nat integers (7 * 10 ^ 18))
        (nat integers (3 * 10 ^ 18))
        (nat integers (5 * 10 ^ 25))
      ≡ some (nat integers l', nat integers 58230769230769230769230769, nat integers vr'))
    × (vr' ≤ 38461538461538461538461539 + 2)
    × (38461538461538461538461539 ≤ vr' + 2)
interest_rates-close_example =
    interest_rates-close integers-IsExact curve-IsKinked curve-IsWord market "DAI" dai dai-found
      strategy-HasCurve 1000 refl (omega arith) (39 * 10 ^ 24) (3 * 10 ^ 18) (7 * 10 ^ 18)
      (3 * 10 ^ 18) (5 * 10 ^ 25) (omega arith) (omega arith) (omega arith) (omega arith)
      32218934911242603550295858 58230769230769230769230769 38461538461538461538461539 (omega arith)
      (omega arith) (omega arith) run_below

run_compounded :
    calculate_compounded_interest (5 * 10 ^ 25) 1000 87_400 ≡ some 1000136995684314615598974400
unfolding add sub mul ray_mul binomial_interest calculate_compounded_interest
run_compounded = refl

compounded_interest-agrees_example :
    calc_compounded_interest integers
      (nat integers (5 * 10 ^ 25))
      (nat integers 87_400)
      (nat integers 1000)
    ≡ nat integers 1000136995684314615598974400
compounded_interest-agrees_example =
    compounded_interest-agrees integers-IsExact (5 * 10 ^ 25) 1000 87_400
      1000136995684314615598974400 (omega arith) run_compounded

run_linear : calculate_linear_interest (5 * 10 ^ 25) 1000 87_400 ≡ some 1000136986301369863013698630
unfolding add sub mul calculate_linear_interest
run_linear = refl

run_ray_mul : ray_mul 7 (15 * 10 ^ 26) ≡ some 11
unfolding ray_mul
run_ray_mul = refl

run_ray_div : ray_div 2 3 ≡ some 666666666666666666666666667
unfolding ray_div
run_ray_div = refl

run_percent_mul : percent_mul 25 9000 ≡ some 23
unfolding percent_mul
run_percent_mul = refl
