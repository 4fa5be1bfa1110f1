-- ===== src/Tests/Data.antt =====
-- The test data: a stable coin with a curve that has its kink at four fifths.
use code4rena_may.Base.{ℕ, ◌*◌, ◌^◌, ◌≡◌, refl, arith, true, some, none, [], ◌∷◌}
use code4rena_may.Base.Int.{pos}
use code4rena_may.Math.Curve.{Curve, IsKinked}
use code4rena_may.Market.{
  SymbolMap, ReserveParams, InterestRateStrategyParams, ReserveData, UserReserveData, a_token,
  lookup,
}
use code4rena_may.Calculations.Rates.Exact.{HasCurve}
use code4rena_may.Contracts.RateStrategy.Words.{IsWord}

abbrev pub curve : Curve
curve = record {
  optimal = 8 * 10 ^ 26;
  base = 0;
  variable_slope1 = 4 * 10 ^ 25;
  variable_slope2 = 75 * 10 ^ 25;
  stable_slope1 = 2 * 10 ^ 25;
  stable_slope2 = 75 * 10 ^ 25;
}

abbrev pub strategy : InterestRateStrategyParams
strategy = record {
  name = "rateStrategyStable";
  optimal_utilization_rate = pos (8 * 10 ^ 26);
  base_variable_borrow_rate = pos 0;
  variable_rate_slope1 = pos (4 * 10 ^ 25);
  variable_rate_slope2 = pos (75 * 10 ^ 25);
  stable_rate_slope1 = pos (2 * 10 ^ 25);
  stable_rate_slope2 = pos (75 * 10 ^ 25);
  capacity = pos 0;
}

abbrev pub dai : ReserveParams
dai = record {
  borrowing_enabled = true;
  stable_borrow_rate_enabled = true;
  reserve_decimals = pos 18;
  base_ltv_as_collateral = pos 7500;
  liquidation_threshold = pos 8000;
  liquidation_bonus = pos 10_500;
  collateral_enabled = true;
  a_token_impl = a_token;
  reserve_factor = pos 1000;
  emission_per_second = pos 0;
  strategy = strategy;
}

abbrev pub market : SymbolMap ReserveParams
market = ("DAI", dai) ∷ []

pub curve-IsKinked : IsKinked curve
curve-IsKinked = record { optimal_pos = omega arith; optimal_lt = omega arith }

pub curve-IsWord : IsWord curve
curve-IsWord = record {
  optimal_fits = omega arith;
  base_fits = omega arith;
  variable_slope1_fits = omega arith;
  variable_slope2_fits = omega arith;
  stable_slope1_fits = omega arith;
  stable_slope2_fits = omega arith;
}

pub strategy-HasCurve : HasCurve strategy curve
strategy-HasCurve = record {
  optimal_eq = refl;
  base_eq = refl;
  variable_slope1_eq = refl;
  variable_slope2_eq = refl;
  stable_slope1_eq = refl;
  stable_slope2_eq = refl;
}

pub dai-found : lookup "DAI" market ≡ some dai
unfolding lookup
dai-found = refl

-- A reserve with liquidity, debts of both kinds and interest.
abbrev pub pool : ReserveData ℕ
pool = record {
  address = "0x01";
  symbol = "DAI";
  decimals = 18;
  total_liquidity = 1000 * 10 ^ 18;
  available_liquidity = 500 * 10 ^ 18;
  total_stable_debt = 200 * 10 ^ 18;
  total_variable_debt = 300 * 10 ^ 18;
  principal_stable_debt = 200 * 10 ^ 18;
  scaled_variable_debt = 300 * 10 ^ 18;
  average_stable_borrow_rate = 5 * 10 ^ 25;
  variable_borrow_rate = 25 * 10 ^ 24;
  stable_borrow_rate = 6 * 10 ^ 25;
  utilization_rate = 5 * 10 ^ 26;
  liquidity_index = 11 * 10 ^ 26;
  variable_borrow_index = 12 * 10 ^ 26;
  a_token_address = "0x02";
  market_stable_rate = 39 * 10 ^ 24;
  last_update_timestamp = 1000;
  total_stable_debt_last_updated = 1000;
  liquidity_rate = 10 ^ 25;
}

abbrev pub alice : UserReserveData ℕ
alice = record {
  scaled_a_token_balance = 100 * 10 ^ 18;
  current_a_token_balance = 110 * 10 ^ 18;
  current_stable_debt = 20 * 10 ^ 18;
  current_variable_debt = 36 * 10 ^ 18;
  principal_stable_debt = 20 * 10 ^ 18;
  scaled_variable_debt = 30 * 10 ^ 18;
  liquidity_rate = 10 ^ 25;
  stable_borrow_rate = 5 * 10 ^ 25;
  stable_rate_last_updated = 1000;
  usage_as_collateral_enabled = true;
  wallet_balance = 70 * 10 ^ 18;
  variable_borrow_index = some (12 * 10 ^ 26);
  principal_variable_debt = none;
}
