-- ===== src/Calculations/Reserve/Accounting/Balanced.antt =====
-- The data after a withdrawal and after a rebalance add up.
use code4rena_may.Base.{
  ℕ, ◌-◌, ◌^◌, ◌≤◌, ◌<◌, ◌≡◌, ◌∙◌, ap, refl, arith, false, some, if◌then◌else◌,
}
use code4rena_may.Base.Int.{ℤ, pos, eq_ℤ}
use code4rena_may.BigNumber.{BigNumber, IsExact}
use code4rena_may.BigNumber.Laws.{nat, minus-nat}
use code4rena_may.Constants.{max_uint_amount}
use code4rena_may.Math.Numbers.{mul_ray}
use code4rena_may.Math.Exact.{ray_mul-nat}
use code4rena_may.Market.{
  SymbolMap, ReserveParams, ReserveData, UserReserveData, ExpectedReserveData, lookup,
}
use code4rena_may.Market.Embed.{reserve}
use code4rena_may.Calculations.Interest.{calc_expected_variable_borrow_index}
use code4rena_may.Calculations.Interest.Indexes.{
  variable_index_n, stable_debt_n, variable_index-nat, total_stable_debt-nat,
}
use code4rena_may.Calculations.Reserve.Withdraw.{calc_expected_reserve_data_after_withdraw}
use code4rena_may.Calculations.Reserve.Rebalance.{
  calc_expected_reserve_data_after_stable_rate_rebalance,
}
use code4rena_may.Calculations.Reserve.Accounting.Settled.{
  IsSettled, returns, total_sv, total_vs, settle,
}
use code4rena_may.Math.{ray_mul}

not_max : (n : ℕ) → n < 2 ^ 256 - 1 → eq_ℤ (pos n) max_uint_amount ≡ false
not_max n h = ground arith

module _ {B : BigNumber} (L : IsExact B) (reserves_params : SymbolMap ReserveParams)
    (r : ReserveData ℕ) (params : ReserveParams)
    (found : lookup r.symbol reserves_params ≡ some params) (now : ℕ)
    (h : r.last_update_timestamp ≤ now) (k : r.total_stable_debt_last_updated ≤ now) where
  -- The debts of the reserve at the time of the action.
  abbrev stable_n : ℕ
  stable_n =
      stable_debt_n r.principal_stable_debt r.average_stable_borrow_rate
        r.total_stable_debt_last_updated now

  abbrev variable_n : ℕ
  variable_n = mul_ray r.scaled_variable_debt (variable_index_n r now)

  variable_debt :
      ray_mul B
        (nat B r.scaled_variable_debt)
        (calc_expected_variable_borrow_index B (reserve B r) (nat B now))
      ≡ nat B variable_n
  variable_debt =
      ap (λ i. ray_mul B (nat B r.scaled_variable_debt) i) (variable_index-nat L r now h)
      ∙ ray_mul-nat L r.scaled_variable_debt (variable_index_n r now)

  taken :
      (amount : ℕ)
      → amount < 2 ^ 256 - 1
      → amount ≤ r.available_liquidity
      → (balance : ℤ)
      → B.minus
          (nat B r.available_liquidity)
          (B.of_string (if eq_ℤ (pos amount) max_uint_amount then balance else pos amount))
        ≡ nat B (r.available_liquidity - amount)
  taken amount small le balance =
      simp (not_max amount small, minus-nat L r.available_liquidity amount le)

  -- At a time not before the last updates, where the amount is below the largest integer and at most the available liquidity, and the
  -- reserve is known, withdrawing takes the amount from the available liquidity, and the data add
  -- up.
  pub withdraw-IsSettled :
      (user : UserReserveData B.BN) (amount : ℕ)
      → amount < 2 ^ 256 - 1
      → amount ≤ r.available_liquidity
      → (d : ExpectedReserveData B.BN) × (calc_expected_reserve_data_after_withdraw B
            reserves_params
            (pos amount)
            (reserve B r)
            user
            (nat B now)
          ≡ some d)
        × IsSettled B (r.available_liquidity - amount) d
  unfolding calc_expected_reserve_data_after_withdraw
  withdraw-IsSettled user amount small le =
      let a = r.available_liquidity - amount in
      let available = taken amount small le _ in
      let stable =
        total_stable_debt-nat L r.principal_stable_debt r.average_stable_borrow_rate
          r.total_stable_debt_last_updated now k in
      let total = total_vs L a stable_n variable_n available stable variable_debt in
      (
        _,
        returns B reserves_params r.symbol params found _ _ _ _ _ _,
        settle L _ a stable_n variable_n available stable variable_debt total refl,
      )

  -- At a time not before the last updates, where the reserve is known, rebalancing the stable rate of a user leaves the available liquidity
  -- as it is, and the data add up.
  pub rebalance-IsSettled :
      (user : UserReserveData B.BN)
      → (d : ExpectedReserveData B.BN) × (calc_expected_reserve_data_after_stable_rate_rebalance B
            reserves_params
            (reserve B r)
            user
            (nat B now)
          ≡ some d)
        × IsSettled B r.available_liquidity d
  unfolding calc_expected_reserve_data_after_stable_rate_rebalance
  rebalance-IsSettled user =
      let a = r.available_liquidity in
      let stable =
        total_stable_debt-nat L r.principal_stable_debt r.average_stable_borrow_rate
          r.total_stable_debt_last_updated now k in
      let total = total_sv L a stable_n variable_n refl stable variable_debt in
      (
        _,
        returns B reserves_params r.symbol params found _ _ _ _ _ _,
        settle L _ a stable_n variable_n refl stable variable_debt total refl,
      )
