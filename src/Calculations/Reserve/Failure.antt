-- ===== src/Calculations/Reserve/Failure.antt =====
-- When the calculations on a reserve throw.
use code4rena_may.Base.{
  ◌≡◌, ◌∙◌, ap, sym, Bool, true, false, Option, some, none, ◌>>=◌, Option-cases, inl, inr, String,
  if◌then◌else◌,
}
use code4rena_may.Base.Int.{ℤ}
use code4rena_may.BigNumber.{BigNumber}
use code4rena_may.Market.{
  SymbolMap, ReserveParams, ReserveData, ExpectedReserveData, UserReserveData, lookup,
}
use code4rena_may.Market.RateMode.{RateMode, is_stable}
use code4rena_may.Calculations.Rates.{calc_expected_interest_rates}
use code4rena_may.Calculations.Rates.Exact.{interest_rates-found, interest_rates-missing}
use code4rena_may.Calculations.Reserve.Deposit.{
  calc_expected_reserve_data_after_deposit, calc_expected_reserve_data_after_deposit_collateral,
}
use code4rena_may.Calculations.Reserve.Withdraw.{
  calc_expected_reserve_data_after_withdraw, calc_expected_reserve_data_after_withdraw_collateral,
}
use code4rena_may.Calculations.Reserve.Borrow.{
  after_stable_borrow, after_variable_borrow, calc_expected_reserve_data_after_borrow,
}
use code4rena_may.Calculations.Reserve.Repay.{calc_expected_reserve_data_after_repay}
use code4rena_may.Calculations.Reserve.Swap.{calc_expected_reserve_data_after_swap_rate_mode}
use code4rena_may.Calculations.Reserve.Rebalance.{
  calc_expected_reserve_data_after_stable_rate_rebalance,
}

-- The actions on a reserve, with the arguments of their calculations.
pub data Action (BN : Type 0) : Type 0 where
  deposit : ℤ → Action BN
  deposit_collateral : ℤ → ReserveData BN → Action BN
  withdraw : ℤ → UserReserveData BN → Action BN
  withdraw_collateral : ℤ → ReserveData BN → UserReserveData BN → Action BN
  borrow : ℤ → RateMode → BN → Action BN
  repay : ℤ → RateMode → UserReserveData BN → Action BN
  swap : UserReserveData BN → RateMode → Action BN
  rebalance : UserReserveData BN → Action BN

abbrev pub is_some : {A : Type 0} → Option A → Bool
is_some none = false
is_some (some _) = true

module _ (B : BigNumber) (reserves_params : SymbolMap ReserveParams) where
  open B use {BN}

  -- The calculation of an action.
  abbrev pub expected_after : ReserveData BN → BN → Action BN → Option (ExpectedReserveData BN)
  expected_after before time (deposit amount) =
      calc_expected_reserve_data_after_deposit B reserves_params amount before time
  expected_after before time (deposit_collateral amount after) =
      calc_expected_reserve_data_after_deposit_collateral B reserves_params amount before after time
  expected_after before time (withdraw amount user) =
      calc_expected_reserve_data_after_withdraw B reserves_params amount before user time
  expected_after before time (withdraw_collateral amount after user) =
      calc_expected_reserve_data_after_withdraw_collateral B reserves_params amount before after
        user time
  expected_after before time (borrow amount mode current) =
      calc_expected_reserve_data_after_borrow B reserves_params amount mode before time current
  expected_after before time (repay amount mode user) =
      calc_expected_reserve_data_after_repay B reserves_params amount mode before user time
  expected_after before time (swap user mode) =
      calc_expected_reserve_data_after_swap_rate_mode B reserves_params before user mode time
  expected_after before time (rebalance user) =
      calc_expected_reserve_data_after_stable_rate_rebalance B reserves_params before user time

  rates-is_some :
      (symbol : String) (market u s v average : BN) (f : BN × BN × BN → ExpectedReserveData BN)
      → is_some (
          calc_expected_interest_rates B reserves_params symbol market u s v average >>= λ rates.
          some (f rates))
        ≡ is_some (lookup symbol reserves_params)
  rates-is_some symbol market u s v average f =
      elim (Option-cases (lookup symbol reserves_params)) [
        | inl e ↦
            ap (λ o. is_some (o >>= λ rates. some (f rates)))
              (interest_rates-missing B reserves_params symbol market u s v average e)
            ∙ sym (ap (λ o. is_some o) e)
        | inr (params, e) ↦
            ap (λ o. is_some (o >>= λ rates. some (f rates)))
              (interest_rates-found B reserves_params symbol market u s v average params e)
            ∙ sym (ap (λ o. is_some o) e)
      ]

  stable-is_some :
      (amount : BN) (before : ReserveData BN) (time current : BN)
      → is_some (after_stable_borrow B reserves_params amount before time current)
        ≡ is_some (lookup before.symbol reserves_params)
  unfolding after_stable_borrow
  stable-is_some amount before time current = rates-is_some before.symbol _ _ _ _ _ _

  variable-is_some :
      (amount : BN) (before : ReserveData BN) (time current : BN)
      → is_some (after_variable_borrow B reserves_params amount before time current)
        ≡ is_some (lookup before.symbol reserves_params)
  unfolding after_variable_borrow
  variable-is_some amount before time current = rates-is_some before.symbol _ _ _ _ _ _

  borrow-is_some :
      (b : Bool) (amount : BN) (before : ReserveData BN) (time current : BN)
      → is_some (
          if b
          then after_stable_borrow B reserves_params amount before time current
          else after_variable_borrow B reserves_params amount before time current)
        ≡ is_some (lookup before.symbol reserves_params)
  borrow-is_some true = stable-is_some
  borrow-is_some false = variable-is_some

  -- Each calculation on a reserve throws exactly where the configuration has no parameters for the
  -- symbol of the reserve.
  pub expected_after-is_some :
      (before : ReserveData BN) (time : BN) (action : Action BN)
      → is_some (expected_after before time action) ≡ is_some (lookup before.symbol reserves_params)
  unfolding calc_expected_reserve_data_after_deposit
      calc_expected_reserve_data_after_deposit_collateral calc_expected_reserve_data_after_withdraw
      calc_expected_reserve_data_after_withdraw_collateral calc_expected_reserve_data_after_borrow
      calc_expected_reserve_data_after_repay calc_expected_reserve_data_after_swap_rate_mode
      calc_expected_reserve_data_after_stable_rate_rebalance
  expected_after-is_some before time (deposit amount) = rates-is_some before.symbol _ _ _ _ _ _
  expected_after-is_some before time (deposit_collateral amount after) =
      rates-is_some before.symbol _ _ _ _ _ _
  expected_after-is_some before time (withdraw amount user) =
      rates-is_some before.symbol _ _ _ _ _ _
  expected_after-is_some before time (withdraw_collateral amount after user) =
      rates-is_some before.symbol _ _ _ _ _ _
  expected_after-is_some before time (borrow amount mode current) =
      borrow-is_some (is_stable mode) (B.of_string amount) before time current
  expected_after-is_some before time (repay amount mode user) =
      rates-is_some before.symbol _ _ _ _ _ _
  expected_after-is_some before time (swap user mode) = rates-is_some before.symbol _ _ _ _ _ _
  expected_after-is_some before time (rebalance user) = rates-is_some before.symbol _ _ _ _ _ _
