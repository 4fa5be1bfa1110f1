-- ===== src/Calculations/Reserve/Accounting/Swapped.antt =====
-- The data after a swap of the rate mode add up.
use code4rena_may.Base.{
  ℕ, ◌+◌, ◌-◌, ◌≤◌, ◌<◌, ◌≡◌, ◌∙◌, ap, refl, Bool, true, false, some, if◌then◌else◌,
}
use code4rena_may.BigNumber.{BigNumber, IsExact}
use code4rena_may.BigNumber.Laws.{nat, plus-nat, minus-nat}
use code4rena_may.Math.Numbers.{mul_ray, div_ray}
use code4rena_may.Math.Exact.{ray_mul-nat, ray_div-nat}
use code4rena_may.Math.{ray_mul, ray_div}
use code4rena_may.Market.{
  SymbolMap, ReserveParams, ReserveData, UserReserveData, ExpectedReserveData, lookup,
}
use code4rena_may.Market.RateMode.{RateMode, is_stable}
use code4rena_may.Market.Embed.{reserve, user}
use code4rena_may.Calculations.Interest.{
  calc_expected_variable_borrow_index, calc_expected_total_stable_debt,
}
use code4rena_may.Calculations.Interest.Indexes.{
  variable_index_n, stable_debt_n, variable_index-nat, total_stable_debt-nat,
}
use code4rena_may.Calculations.Balances.Exact.{
  variable_balance_n, stable_balance_n, variable_balance-nat, stable_balance-nat,
}
use code4rena_may.Calculations.Reserve.Swap.{
  SwappedDebt, swapped_debt, calc_expected_reserve_data_after_swap_rate_mode,
}
use code4rena_may.Calculations.Reserve.Accounting.Settled.{IsSettled, returns, total_sv, settle}

module _ {B : BigNumber} (L : IsExact B) (reserves_params : SymbolMap ReserveParams)
    (r : ReserveData ℕ) (params : ReserveParams)
    (found : lookup r.symbol reserves_params ≡ some params) (u : UserReserveData ℕ) (now : ℕ)
    (h : r.last_update_timestamp ≤ now) (k : r.total_stable_debt_last_updated ≤ now)
    (j : u.stable_rate_last_updated ≤ now) (positive : 0 < variable_index_n r now) where
  -- The debts of the user and the stable debt of the reserve at the time of the action.
  abbrev user_stable_n : ℕ
  user_stable_n =
      stable_balance_n u.principal_stable_debt u.stable_borrow_rate u.stable_rate_last_updated now

  abbrev user_variable_n : ℕ
  user_variable_n = variable_balance_n r u now

  abbrev stable_n : ℕ
  stable_n =
      stable_debt_n r.principal_stable_debt r.average_stable_borrow_rate
        r.total_stable_debt_last_updated now

  abbrev AreNumbers : SwappedDebt B.BN → Type 0
  AreNumbers d = (s : ℕ) × (v : ℕ) × (d.stable_debt ≡ nat B s) × (d.scaled_variable_debt ≡ nat B v)

  either :
      (b : Bool) (x y : SwappedDebt B.BN)
      → AreNumbers x
      → AreNumbers y
      → AreNumbers (if b then x else y)
  either true x y hx hy = hx
  either false x y hx hy = hy

  share :
      {x : B.BN} (a : ℕ)
      → x ≡ nat B a
      → ray_div B x (calc_expected_variable_borrow_index B (reserve B r) (nat B now))
        ≡ nat B (div_ray a (variable_index_n r now))
  share {x} a e =
      ap (ray_div B x) (variable_index-nat L r now h)
      ∙ ap (λ t. ray_div B t (nat B (variable_index_n r now))) e
      ∙ ray_div-nat L a (variable_index_n r now) positive

  swapped_debt-AreNumbers :
      (mode : RateMode)
      → user_stable_n ≤ stable_n
      → div_ray user_variable_n (variable_index_n r now) ≤ r.scaled_variable_debt
      → AreNumbers (
          swapped_debt B mode
            (reserve B r)
            (user B u)
            (calc_expected_variable_borrow_index B (reserve B r) (nat B now))
            (nat B now))
  unfolding swapped_debt
  swapped_debt-AreNumbers mode hs hv =
      let i = variable_index_n r now in
      let scaled = r.scaled_variable_debt in
      let stable =
        stable_balance-nat L u.principal_stable_debt u.stable_borrow_rate u.stable_rate_last_updated
          now j in
      let variable = variable_balance-nat L r u now h in
      let total : calc_expected_total_stable_debt B (nat B r.principal_stable_debt)
            (nat B r.average_stable_borrow_rate) (nat B r.total_stable_debt_last_updated)
            (nat B now)
          ≡ nat B stable_n =
        total_stable_debt-nat L r.principal_stable_debt r.average_stable_borrow_rate
          r.total_stable_debt_last_updated now k in
      either (is_stable mode) _ _
        (
          stable_n - user_stable_n,
          scaled + div_ray user_stable_n i,
          cc (minus-nat L stable_n user_stable_n hs, total, stable),
          cc (share user_stable_n stable, plus-nat L scaled (div_ray user_stable_n i)),
        )
        (
          stable_n + user_variable_n,
          scaled - div_ray user_variable_n i,
          cc (plus-nat L stable_n user_variable_n, total, variable),
          cc (share user_variable_n variable, minus-nat L scaled (div_ray user_variable_n i) hv),
        )

  -- At a time not before the last updates, where the reserve is known, the index is positive, the stable debt of the user is at most the one
  -- of the reserve and the scaled variable debt of the user at most the one of the reserve, swapping
  -- the rate mode in either direction leaves the available liquidity as it is, and the data add up.
  pub swap-IsSettled :
      (mode : RateMode)
      → user_stable_n ≤ stable_n
      → div_ray user_variable_n (variable_index_n r now) ≤ r.scaled_variable_debt
      → (d : ExpectedReserveData B.BN) × (calc_expected_reserve_data_after_swap_rate_mode B
            reserves_params
            (reserve B r)
            (user B u)
            mode
            (nat B now)
          ≡ some d)
        × IsSettled B r.available_liquidity d
  unfolding calc_expected_reserve_data_after_swap_rate_mode
  swap-IsSettled mode hs hv =
      let a = r.available_liquidity in
      let i = variable_index_n r now in
      let (s, v, stable, scaled) = swapped_debt-AreNumbers mode hs hv in
      let index = variable_index-nat L r now h in
      let variable =
        ap (ray_mul B _) index ∙ ap (λ t. ray_mul B t (nat B i)) scaled ∙ ray_mul-nat L v i in
      (
        _,
        returns B reserves_params r.symbol params found _ _ _ _ _ _,
        settle L _ a s (mul_ray v i) refl stable variable
            (total_sv L a s (mul_ray v i) refl stable variable) refl,
      )
