-- ===== src/Calculations/Reserve/Swap.antt =====
-- calcExpectedReserveDataAfterSwapRateMode. `mode` is the rate mode before the swap.
use code4rena_may.Base.{Option, some, none, ◌>>=◌, if◌then◌else◌}
use code4rena_may.BigNumber.{BigNumber}
use code4rena_may.Math.{ray_mul, ray_div}
use code4rena_may.Market.{
  SymbolMap, ReserveParams, ReserveData, ExpectedReserveData, UserReserveData,
}
use code4rena_may.Market.RateMode.{RateMode, is_stable}
use code4rena_may.Calculations.Interest.{
  calc_expected_liquidity_index, calc_expected_variable_borrow_index,
  calc_expected_total_stable_debt,
}
use code4rena_may.Calculations.Balances.{
  calc_expected_average_stable_borrow_rate, calc_expected_variable_debt_token_balance,
  user_stable_debt,
}
use code4rena_may.Calculations.Rates.{calc_expected_utilization_rate, calc_expected_interest_rates}

-- The debts that the two branches set: the principal and the total of the stable debt are one.
pub record SwappedDebt (BN : Type 0) : Type 0 where
  pub stable_debt : BN
  pub scaled_variable_debt : BN
  pub average_stable_borrow_rate : BN

module _ (B : BigNumber) where
  open B use {BN, plus, minus, negated}

  unfoldable pub swapped_debt :
      RateMode → ReserveData BN → UserReserveData BN → BN → BN → SwappedDebt BN
  swapped_debt mode before user variable_borrow_index tx_timestamp =
      let variable_debt = calc_expected_variable_debt_token_balance B before user tx_timestamp in
      let stable_debt = user_stable_debt B user tx_timestamp in
      let total_stable_debt_until_tx =
        calc_expected_total_stable_debt B before.principal_stable_debt
          before.average_stable_borrow_rate before.total_stable_debt_last_updated tx_timestamp in
      let stable_left = minus total_stable_debt_until_tx stable_debt in
      let to_variable : SwappedDebt BN = record {
        stable_debt = stable_left;
        scaled_variable_debt =
            plus before.scaled_variable_debt (ray_div B stable_debt variable_borrow_index);
        average_stable_borrow_rate =
            calc_expected_average_stable_borrow_rate B before.average_stable_borrow_rate
              (plus stable_left stable_debt) (negated stable_debt) user.stable_borrow_rate;
      } in
      let to_stable : SwappedDebt BN = record {
        stable_debt = plus total_stable_debt_until_tx variable_debt;
        scaled_variable_debt =
            minus before.scaled_variable_debt (ray_div B variable_debt variable_borrow_index);
        average_stable_borrow_rate =
            calc_expected_average_stable_borrow_rate B before.average_stable_borrow_rate
              before.total_stable_debt variable_debt before.stable_borrow_rate;
      } in
      if is_stable mode then to_variable else to_stable

  module _ (reserves_params : SymbolMap ReserveParams) where
    unfoldable pub calc_expected_reserve_data_after_swap_rate_mode :
        ReserveData BN → UserReserveData BN → RateMode → BN → Option (ExpectedReserveData BN)
    calc_expected_reserve_data_after_swap_rate_mode before user mode tx_timestamp = do
      let variable_borrow_index = calc_expected_variable_borrow_index B before tx_timestamp
      let debt = swapped_debt mode before user variable_borrow_index tx_timestamp
      let total_variable_debt = ray_mul B debt.scaled_variable_debt variable_borrow_index
      let total_liquidity =
          plus (plus before.available_liquidity debt.stable_debt) total_variable_debt
      let utilization_rate =
          calc_expected_utilization_rate B debt.stable_debt total_variable_debt total_liquidity
      rates ←
          calc_expected_interest_rates B reserves_params before.symbol before.market_stable_rate
            utilization_rate debt.stable_debt total_variable_debt debt.average_stable_borrow_rate
      some (record {
        address = before.address;
        total_liquidity = total_liquidity;
        available_liquidity = before.available_liquidity;
        total_stable_debt = debt.stable_debt;
        total_variable_debt = total_variable_debt;
        principal_stable_debt = debt.stable_debt;
        scaled_variable_debt = debt.scaled_variable_debt;
        average_stable_borrow_rate = debt.average_stable_borrow_rate;
        variable_borrow_rate = rates.2;
        stable_borrow_rate = rates.1;
        utilization_rate = utilization_rate;
        liquidity_index = calc_expected_liquidity_index B before tx_timestamp;
        variable_borrow_index = variable_borrow_index;
        liquidity_rate = rates.0;
        last_update_timestamp = none;
      })
