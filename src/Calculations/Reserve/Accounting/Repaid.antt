-- ===== src/Calculations/Reserve/Accounting/Repaid.antt =====
-- The data after a repayment add up, and no stable debt falls below zero.
use code4rena_may.Base.{
  ℕ, ◌+◌, ◌-◌, ◌^◌, ◌≤◌, ◌<◌, ◌≡◌, ◌⊎◌, inl, inr, ◌∙◌, ap, subst, sym, refl, arith, Bool, true,
  false, some, if◌then◌else◌,
}
use code4rena_may.Base.Int.{pos, ◌-ℤ◌, lt_ℤ, abs_ℕ, eq_ℤ}
use code4rena_may.BigNumber.{BigNumber, IsExact}
use code4rena_may.BigNumber.Laws.{nat, plus-nat, minus-nat}
use code4rena_may.Constants.{max_uint_amount}
use code4rena_may.Math.Numbers.{mul_ray, div_ray}
use code4rena_may.Math.Exact.{ray_mul-nat, ray_div-nat}
use code4rena_may.Market.{
  SymbolMap, ReserveParams, ReserveData, UserReserveData, ExpectedReserveData, lookup,
}
use code4rena_may.Market.RateMode.{RateMode, is_stable}
use code4rena_may.Market.Embed.{reserve}
use code4rena_may.Calculations.Interest.{calc_expected_variable_borrow_index}
use code4rena_may.Calculations.Interest.Indexes.{
  variable_index_n, stable_debt_n, variable_index-nat, total_stable_debt-nat,
}
use code4rena_may.Calculations.Reserve.Repay.{
  calc_expected_reserve_data_after_repay, amount_to_repay, stable_debt_left, repaid_debt,
  RepaidDebt,
}
use code4rena_may.Calculations.Reserve.Accounting.Settled.{IsSettled, returns, total_sv, settle}
use code4rena_may.Math.{ray_mul, ray_div}

abs_not_max : (n : ℕ) → n < 2 ^ 256 - 1 → eq_ℤ (pos (abs_ℕ (pos n))) max_uint_amount ≡ false
abs_not_max n h = ground arith

negative : (e n : ℕ) → e < n → lt_ℤ (pos e -ℤ pos n) (pos 0) ≡ true
negative e n h = ground arith

module _ {B : BigNumber} (L : IsExact B) (r : ReserveData ℕ) (now : ℕ)
    (k : r.total_stable_debt_last_updated ≤ now) where
  -- The stable debt of the reserve at the time of the action.
  abbrev stable_n : ℕ
  stable_n =
      stable_debt_n r.principal_stable_debt r.average_stable_borrow_rate
        r.total_stable_debt_last_updated now

  -- A number below the bound, or nothing.
  abbrev IsLeft : ℕ → B.BN × B.BN → Type 0
  IsLeft left x = (s : ℕ) × (x.0 ≡ nat B s) × (s ≤ left)

  clamped :
      (b : Bool) (x : B.BN × B.BN) (left : ℕ)
      → IsLeft left x
      → IsLeft left (if b then (nat B 0, nat B 0) else x)
  clamped true x left e = (0, refl, omega arith)
  clamped false x left e = e

  le_or_lt : (n e : ℕ) → (n ≤ e) ⊎ (e < n)
  le_or_lt n e = ground arith

  erased_or-IsLeft :
      (e n : ℕ) (b : Bool) (x average : B.BN)
      → x ≡ nat B e
      → IsLeft (e - n) (
          if B.lt (B.minus x (nat B n)) (nat B 0)
          then (nat B 0, nat B 0)
          else (if b then (nat B 0, nat B 0) else (B.minus x (nat B n), average)))
  erased_or-IsLeft e n b x average eq = elim (le_or_lt n e) [
    | inl le ↦ clamped _ _ (e - n) (
        clamped b (B.minus x (nat B n), average) (e - n)
          (e - n, ap (λ y. B.minus y (nat B n)) eq ∙ minus-nat L e n le, omega arith))
    | inr lt ↦
        let below : B.lt (B.minus x (nat B n)) (nat B 0) ≡ true =
          ap (λ y. B.lt (B.minus y (nat B n)) (nat B 0)) eq
          ∙ ap (λ y. B.lt y (nat B 0)) (L.minus_int (pos e) (pos n))
          ∙ L.lt_int (pos e -ℤ pos n) (pos 0)
          ∙ negative e n lt in
        (0, simp (below), omega arith)
  ]

  -- At a time not before the last update of the stable debt, what a repayment leaves of the stable debt of the reserve is a number, and at most the debt less
  -- the amount, or zero where the amount is larger.
  pub stable_debt_left-clamped :
      (user : UserReserveData B.BN) (amount : ℕ)
      → (s : ℕ) × ((stable_debt_left B (nat B amount) (reserve B r) user (nat B now)).0 ≡ nat B s)
        × (s ≤ stable_n - amount)
  unfolding stable_debt_left
  stable_debt_left-clamped user amount = erased_or-IsLeft stable_n amount _ _ _ (
      total_stable_debt-nat L r.principal_stable_debt r.average_stable_borrow_rate
        r.total_stable_debt_last_updated now k)

  module _ (reserves_params : SymbolMap ReserveParams) (params : ReserveParams)
      (found : lookup r.symbol reserves_params ≡ some params)
      (h : r.last_update_timestamp ≤ now) where
    -- The amount is not the largest integer, so it is the amount that is repaid.
    given :
        (amount : ℕ) (mode : RateMode) (x y : B.BN)
        → amount < 2 ^ 256 - 1
        → amount_to_repay B (pos amount) mode x y ≡ nat B amount
    unfolding amount_to_repay
    given amount mode x y small =
        simp (amount_to_repay, L.abs_int, L.eq_int, abs_not_max amount small)

    -- The two debts after the action are numbers.
    abbrev AreNumbers : RepaidDebt B.BN → Type 0
    AreNumbers d =
        (s : ℕ) × (v : ℕ) × (d.total_stable_debt ≡ nat B s) × (d.total_variable_debt ≡ nat B v)

    either :
        (b : Bool) (x y : RepaidDebt B.BN)
        → AreNumbers x
        → AreNumbers y
        → AreNumbers (if b then x else y)
    either true x y hx hy = hx
    either false x y hx hy = hy

    repaid_debt-AreNumbers :
        (user : UserReserveData B.BN) (amount : ℕ) (mode : RateMode)
        → 0 < variable_index_n r now
        → div_ray amount (variable_index_n r now) ≤ r.scaled_variable_debt
        → AreNumbers (
            repaid_debt B
              (nat B amount)
              mode
              (reserve B r)
              user
              (calc_expected_variable_borrow_index B (reserve B r) (nat B now))
              (nat B now))
    unfolding repaid_debt
    repaid_debt-AreNumbers user amount mode positive le =
        let i = variable_index_n r now in
        let scaled = r.scaled_variable_debt in
        let index = variable_index-nat L r now h in
        let (s, stable_eq, _) = stable_debt_left-clamped user amount in
        either (is_stable mode) _ _
          (
            s,
            mul_ray scaled i,
            stable_eq,
            ap (λ x. ray_mul B (nat B scaled) x) index ∙ ray_mul-nat L scaled i,
          )
          (
            r.total_stable_debt,
            mul_ray (scaled - div_ray amount i) i,
            refl,
            ap (λ x. ray_mul B (B.minus (nat B scaled) (ray_div B (nat B amount) x)) x) index
                ∙ ap (λ x. ray_mul B (B.minus (nat B scaled) x) (nat B i))
                    (ray_div-nat L amount i positive)
                ∙ ap (λ x. ray_mul B x (nat B i)) (minus-nat L scaled (div_ray amount i) le)
                ∙ ray_mul-nat L (scaled - div_ray amount i) i,
          )

    -- At a time not before the last updates, where the reserve is known, the amount is below the largest integer, the index is positive and
    -- the scaled amount is at most the scaled variable debt of the reserve, repaying in either rate
    -- mode adds the amount to the available liquidity, and the data add up.
    pub repay-IsSettled :
        (user : UserReserveData B.BN) (amount : ℕ) (mode : RateMode)
        → amount < 2 ^ 256 - 1
        → 0 < variable_index_n r now
        → div_ray amount (variable_index_n r now) ≤ r.scaled_variable_debt
        → (d : ExpectedReserveData B.BN) × (calc_expected_reserve_data_after_repay B reserves_params
              (pos amount)
              mode
              (reserve B r)
              user
              (nat B now)
            ≡ some d)
          × IsSettled B (r.available_liquidity + amount) d
    unfolding calc_expected_reserve_data_after_repay
    repay-IsSettled user amount mode small positive le =
        let amount_eq = given amount mode _ _ small in
        let (s, v, stable, variable) =
          subst
            (λ x. AreNumbers (
              repaid_debt B x mode (reserve B r) user
                (calc_expected_variable_borrow_index B (reserve B r) (nat B now)) (nat B now)))
            (sym amount_eq) (repaid_debt-AreNumbers user amount mode positive le) in
        let available =
          ap (B.plus (nat B r.available_liquidity)) amount_eq
          ∙ plus-nat L r.available_liquidity amount in
        (
          _,
          returns B reserves_params r.symbol params found _ _ _ _ _ _,
          settle L _ (r.available_liquidity + amount) s v available stable variable
              (total_sv L (r.available_liquidity + amount) s v available stable variable) refl,
        )
