-- ===== src/Calculations/Interest.antt =====
-- Interest over time, and the indexes and totals that it drives.
pub mod Exact
pub mod Indexes
pub mod Growth
use code4rena_may.Base.{if◌then◌else◌}
use code4rena_may.Base.Int.{pos}
use code4rena_may.BigNumber.{BigNumber}
use code4rena_may.Constants.{one_year, ray}
use code4rena_may.Math.{ray_mul}
use code4rena_may.Market.{ReserveData}

module _ (B : BigNumber) where
  open B use {BN, of_string, plus, minus, multiplied_by, div, eq, gt}

  unfoldable pub calc_linear_interest : BN → BN → BN → BN
  calc_linear_interest rate current_timestamp last_update_timestamp =
      let time_difference = minus current_timestamp last_update_timestamp in
      plus (div (multiplied_by rate time_difference) (of_string one_year)) (of_string (ray B))

  unfoldable pub calc_compounded_interest : BN → BN → BN → BN
  calc_compounded_interest rate current_timestamp last_update_timestamp =
      let time_difference = minus current_timestamp last_update_timestamp in
      let exp_minus_one = minus time_difference (of_string (pos 1)) in
      let exp_minus_two =
        (if gt time_difference (of_string (pos 2))
          then minus time_difference (of_string (pos 2))
          else of_string (pos 0)) in
      let rate_per_second = div rate (of_string one_year) in
      let base_power_two = ray_mul B rate_per_second rate_per_second in
      let base_power_three = ray_mul B base_power_two rate_per_second in
      let second_term =
        div (multiplied_by (multiplied_by time_difference exp_minus_one) base_power_two)
          (of_string (pos 2)) in
      let third_term =
        div
          (multiplied_by (multiplied_by (multiplied_by time_difference exp_minus_one) exp_minus_two)
            base_power_three)
          (of_string (pos 6)) in
      if eq time_difference (of_string (pos 0))
      then of_string (ray B)
      else plus
          (plus (plus (of_string (ray B)) (multiplied_by rate_per_second time_difference))
            second_term)
          third_term

  unfoldable pub calc_expected_reserve_normalized_income : ReserveData BN → BN → BN
  calc_expected_reserve_normalized_income r current_timestamp =
      if eq r.liquidity_rate (of_string (pos 0))
      then r.liquidity_index
      else ray_mul B
          (calc_linear_interest r.liquidity_rate current_timestamp r.last_update_timestamp)
          r.liquidity_index

  unfoldable pub calc_expected_reserve_normalized_debt : BN → BN → BN → BN → BN
  calc_expected_reserve_normalized_debt variable_borrow_rate variable_borrow_index
        last_update_timestamp current_timestamp =
      if eq variable_borrow_rate (of_string (pos 0))
      then variable_borrow_index
      else ray_mul B
          (calc_compounded_interest variable_borrow_rate current_timestamp last_update_timestamp)
          variable_borrow_index

  unfoldable pub calc_expected_liquidity_index : ReserveData BN → BN → BN
  calc_expected_liquidity_index r timestamp =
      if eq r.utilization_rate (of_string (pos 0))
      then r.liquidity_index
      else ray_mul B (calc_linear_interest r.liquidity_rate timestamp r.last_update_timestamp)
          r.liquidity_index

  unfoldable pub calc_expected_variable_borrow_index : ReserveData BN → BN → BN
  calc_expected_variable_borrow_index r timestamp =
      if eq r.total_variable_debt (of_string (pos 0))
      then r.variable_borrow_index
      else ray_mul B
          (calc_compounded_interest r.variable_borrow_rate timestamp r.last_update_timestamp)
          r.variable_borrow_index

  unfoldable pub calc_expected_total_stable_debt : BN → BN → BN → BN → BN
  calc_expected_total_stable_debt principal_stable_debt average_stable_borrow_rate
        last_update_timestamp current_timestamp =
      ray_mul B
        (calc_compounded_interest average_stable_borrow_rate current_timestamp
          last_update_timestamp)
        principal_stable_debt

  unfoldable pub calc_expected_total_variable_debt : ReserveData BN → BN → BN
  calc_expected_total_variable_debt r expected_variable_debt_index =
      ray_mul B r.scaled_variable_debt expected_variable_debt_index
