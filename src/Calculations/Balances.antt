-- ===== src/Calculations/Balances.antt =====
-- Token balances of a user, and the average stable rates.
pub mod Exact
pub mod Mean
use code4rena_may.Base.{◌||◌, if◌then◌else◌}
use code4rena_may.Base.Int.{pos}
use code4rena_may.BigNumber.{BigNumber}
use code4rena_may.Math.{ray_mul, ray_div, wad_to_ray}
use code4rena_may.Market.{ReserveData, UserReserveData}
use code4rena_may.Calculations.Interest.{
  calc_compounded_interest, calc_expected_reserve_normalized_income,
  calc_expected_reserve_normalized_debt,
}

module _ (B : BigNumber) where
  open B use {BN, of_string, plus, minus, multiplied_by, div, decimal_places_down, eq}

  unfoldable pub calc_expected_scaled_a_token_balance : UserReserveData BN → BN → BN → BN → BN
  calc_expected_scaled_a_token_balance u index amount_added amount_taken =
      minus (plus u.scaled_a_token_balance (ray_div B amount_added index))
        (ray_div B amount_taken index)

  unfoldable pub calc_expected_a_token_balance : ReserveData BN → UserReserveData BN → BN → BN
  calc_expected_a_token_balance r u current_timestamp =
      let index = calc_expected_reserve_normalized_income B r current_timestamp in
      ray_mul B u.scaled_a_token_balance index

  pub calc_expected_average_stable_borrow_rate : BN → BN → BN → BN → BN
  calc_expected_average_stable_borrow_rate avg_stable_rate_before total_stable_debt_before
        amount_changed rate =
      let weighted_total_borrows = multiplied_by avg_stable_rate_before total_stable_debt_before in
      let weighted_amount_borrowed = multiplied_by rate amount_changed in
      let total_borrowed_stable = plus total_stable_debt_before amount_changed in
      if eq total_borrowed_stable (of_string (pos 0))
      then of_string (pos 0)
      else decimal_places_down
          (div (plus weighted_total_borrows weighted_amount_borrowed) total_borrowed_stable)

  pub calc_expected_average_stable_borrow_rate_rebalance : BN → BN → BN → BN → BN
  calc_expected_average_stable_borrow_rate_rebalance avg_stable_rate_before total_stable_debt_before
        amount_changed rate =
      let weighted_total_borrows = ray_mul B avg_stable_rate_before total_stable_debt_before in
      let weighted_amount_borrowed = ray_mul B rate (wad_to_ray B amount_changed) in
      let total_borrowed_stable = plus total_stable_debt_before (wad_to_ray B amount_changed) in
      if eq total_borrowed_stable (of_string (pos 0))
      then of_string (pos 0)
      else decimal_places_down
          (ray_div B (plus weighted_total_borrows weighted_amount_borrowed) total_borrowed_stable)

  unfoldable pub calc_expected_variable_debt_token_balance :
      ReserveData BN → UserReserveData BN → BN → BN
  calc_expected_variable_debt_token_balance r u current_timestamp =
      let normalized_debt =
        calc_expected_reserve_normalized_debt B r.variable_borrow_rate r.variable_borrow_index
          r.last_update_timestamp current_timestamp in
      ray_mul B u.scaled_variable_debt normalized_debt

  unfoldable pub calc_expected_stable_debt_token_balance : BN → BN → BN → BN → BN
  calc_expected_stable_debt_token_balance principal_stable_debt stable_borrow_rate
        stable_rate_last_updated current_timestamp =
      if eq stable_borrow_rate (of_string (pos 0))
        || eq current_timestamp stable_rate_last_updated
        || eq stable_rate_last_updated (of_string (pos 0))
      then principal_stable_debt
      else ray_mul B principal_stable_debt
          (calc_compounded_interest B stable_borrow_rate current_timestamp stable_rate_last_updated)

  -- The stable debt of a user at a time.
  abbrev pub user_stable_debt : UserReserveData BN → BN → BN
  user_stable_debt u timestamp =
      calc_expected_stable_debt_token_balance u.principal_stable_debt u.stable_borrow_rate
        u.stable_rate_last_updated timestamp

  pub calc_expected_user_stable_rate : BN → BN → BN → BN → BN
  calc_expected_user_stable_rate balance_before rate_before amount rate_new =
      div (plus (multiplied_by balance_before rate_before) (multiplied_by amount rate_new))
        (plus balance_before amount)
