-- ===== src/Calculations/User/Closing.antt =====
-- A user who withdraws or repays everything, and a deposit that is taken out again.
use native.Mathlib.Nat.{div-eq_of_lt, le_refl}
use code4rena_may.Base.{
  ℕ, ◌+◌, ◌-◌, ◌≤◌, ◌<◌, ◌≡◌, ◌∙◌, ap, sym, refl, arith, ◌==◌, if◌then◌else◌, false, String,
}
use code4rena_may.Base.Int.{pos}
use code4rena_may.BigNumber.{BigNumber, IsExact}
use code4rena_may.BigNumber.Laws.{nat, plus-nat, minus-nat, eq-nat}
use code4rena_may.Constants.{max_uint_amount}
use code4rena_may.Math.Numbers.{ray_n, mul_ray, div_ray}
use code4rena_may.Math.Rounding.{rescaled}
use code4rena_may.Math.Exact.{ray_mul-nat, ray_div-nat}
use code4rena_may.Math.{ray_mul, ray_div}
use code4rena_may.Market.{ReserveData, UserReserveData}
use code4rena_may.Market.Embed.{reserve, user}
use code4rena_may.Market.RateMode.{RateMode, is_stable, stable, variable}
use code4rena_may.Calculations.Interest.Indexes.{normalized_debt_n}
use code4rena_may.Calculations.Balances.{
  calc_expected_scaled_a_token_balance, calc_expected_a_token_balance, user_stable_debt,
  calc_expected_variable_debt_token_balance,
}
use code4rena_may.Calculations.Balances.Exact.{
  a_token_balance_n, a_token_balance-nat, variable_balance-nat, stable_balance-nat, scaled-nat,
}
use code4rena_may.Calculations.Reserve.Repay.{amount_to_repay}
use code4rena_may.Calculations.User.Withdraw.{
  amount_to_withdraw, collateral_after_withdraw, calc_expected_user_data_after_withdraw,
}
use code4rena_may.Calculations.User.Repay.{user_debt_left, calc_expected_user_data_after_repay}

cancels : (s q z : ℕ) → z ≡ 0 → s + q - z + z - q ≡ s
cancels s q z e = omega arith

sub_self : (b : ℕ) → b - b ≡ 0
sub_self b = omega arith

no_share : (i : ℕ) → 0 < i → div_ray 0 i ≡ 0
no_share i h = div-eq_of_lt (omega arith)

nothing_times : (i : ℕ) → mul_ray 0 i ≡ 0
nothing_times i = omega arith

module _ {B : BigNumber} (L : IsExact B) where
  -- Depositing an amount and withdrawing it again, both at one positive liquidity index, gives the
  -- scaled balance of before.
  pub scaled_balance-restored :
      (u : UserReserveData ℕ) (i amount : ℕ)
      → 0 < i
      → calc_expected_scaled_a_token_balance B
          (record (user B u) {
            scaled_a_token_balance =
                calc_expected_scaled_a_token_balance B
                  (user B u)
                  (nat B i)
                  (nat B amount)
                  (nat B 0);
          })
          (nat B i)
          (nat B 0)
          (nat B amount)
        ≡ nat B u.scaled_a_token_balance
  scaled_balance-restored u i amount h =
      let q = div_ray amount i in
      let z = div_ray 0 i in
      let none_lost : z ≡ 0 = no_share i h in
      let deposited : UserReserveData ℕ = record u {
        scaled_a_token_balance = u.scaled_a_token_balance + q - z;
      } in
      ap
        (λ x.
          calc_expected_scaled_a_token_balance B (record (user B u) { scaled_a_token_balance = x })
            (nat B i) (nat B 0) (nat B amount))
        (scaled-nat L u i amount 0 h (omega arith))
      ∙ scaled-nat L deposited i 0 amount h (omega arith)
      ∙ ap (nat B) (cancels u.scaled_a_token_balance q z none_lost)

  nothing_left : {x y : B.BN} (d : ℕ) → x ≡ nat B d → y ≡ x → B.minus x y ≡ nat B 0
  nothing_left {x} d e f =
      ap (B.minus x) (f ∙ e)
      ∙ ap (λ z. B.minus z (nat B d)) e
      ∙ minus-nat L d d (le_refl d)
      ∙ ap (nat B) (sub_self d)

  withdrawn_all :
      (r : ReserveData ℕ) (u : UserReserveData ℕ) (now : ℕ)
      → r.last_update_timestamp ≤ now
      → B.of_string (
          amount_to_withdraw B max_uint_amount
            (calc_expected_a_token_balance B (reserve B r) (user B u) (nat B now)))
        ≡ nat B (a_token_balance_n r u now)
  unfolding amount_to_withdraw
  withdrawn_all r u now h = ap B.of_string (
      ap B.to_fixed0 (a_token_balance-nat L r u now h)
      ∙ L.to_fixed0_int (pos (a_token_balance_n r u now)))

  -- At a time that is not before the last update, withdrawing the largest integer leaves a balance
  -- of zero, pays the whole balance into the wallet, and ends the use as collateral if there was a
  -- balance before.
  pub withdraw-all :
      (r : ReserveData ℕ) (after : ReserveData B.BN) (u : UserReserveData ℕ) (now : ℕ)
      → r.last_update_timestamp ≤ now
      → (u.current_a_token_balance == 0) ≡ false
      → let result =
          calc_expected_user_data_after_withdraw B max_uint_amount
            (reserve B r)
            after
            (user B u)
            (nat B now) in
        (result.current_a_token_balance ≡ nat B 0)
        × (result.wallet_balance ≡ nat B (u.wallet_balance + a_token_balance_n r u now))
        × (result.usage_as_collateral_enabled ≡ false)
  unfolding calc_expected_user_data_after_withdraw collateral_after_withdraw
  withdraw-all r after u now h positive =
      let b = a_token_balance_n r u now in
      let balance = a_token_balance-nat L r u now h in
      let taken = withdrawn_all r u now h in
      let left : B.minus (calc_expected_a_token_balance B (reserve B r) (user B u) (nat B now)) (
            B.of_string (
              amount_to_withdraw B max_uint_amount
                (calc_expected_a_token_balance B (reserve B r) (user B u) (nat B now))))
          ≡ nat B 0 =
        nothing_left b balance (taken ∙ sym balance) in
      (
        left,
        ap (B.plus (nat B u.wallet_balance)) taken ∙ plus-nat L u.wallet_balance b,
        simp (collateral_after_withdraw, eq-nat L, positive, left),
      )

  repaid_all :
      (mode : RateMode) (x y : B.BN)
      → amount_to_repay B max_uint_amount mode x y ≡ (if is_stable mode then x else y)
  unfolding amount_to_repay
  repaid_all mode x y = simp (amount_to_repay, L.abs_int, L.eq_int)

  -- At a time that is not before the last update of the user's stable rate, repaying the largest
  -- integer in the stable mode clears the stable debt, its rate and its time stamp, whoever repays.
  pub repay_stable-all :
      (r : ReserveData ℕ) (after : ReserveData B.BN) (u : UserReserveData ℕ)
      (payer on_behalf_of : String) (time : B.BN) (now : ℕ)
      → u.stable_rate_last_updated ≤ now
      → let result =
          calc_expected_user_data_after_repay B max_uint_amount stable
            (reserve B r)
            after
            (user B u)
            payer
            on_behalf_of
            time
            (nat B now) in
        (result.current_stable_debt ≡ nat B 0)
        × (result.principal_stable_debt ≡ nat B 0)
        × (result.stable_borrow_rate ≡ nat B 0)
        × (result.stable_rate_last_updated ≡ nat B 0)
  unfolding calc_expected_user_data_after_repay user_debt_left
  repay_stable-all r after u payer on_behalf_of time now h =
      let left : B.minus (user_stable_debt B (user B u) (nat B now)) (
            amount_to_repay B max_uint_amount stable (user_stable_debt B (user B u) (nat B now))
              (calc_expected_variable_debt_token_balance B (reserve B r) (user B u) (nat B now)))
          ≡ nat B 0 =
        nothing_left _
          (stable_balance-nat L u.principal_stable_debt u.stable_borrow_rate
            u.stable_rate_last_updated now h)
          (repaid_all stable _ _) in
      (left, left, simp (left, eq-nat L), simp (left, eq-nat L))

  -- At a time not before the last update, where the variable borrow index of the reserve after the action is the accrued index of before,
  -- and at least one ray, repaying the largest integer in the variable mode clears the scaled and
  -- the current variable debt, whoever repays.
  pub repay_variable-all :
      (r : ReserveData ℕ) (after : ReserveData B.BN) (u : UserReserveData ℕ)
      (payer on_behalf_of : String) (time : B.BN) (now i : ℕ)
      → r.last_update_timestamp ≤ now
      → i
        ≡ normalized_debt_n r.variable_borrow_rate r.variable_borrow_index r.last_update_timestamp
            now
      → after.variable_borrow_index ≡ nat B i
      → ray_n ≤ i
      → let result =
          calc_expected_user_data_after_repay B max_uint_amount variable
            (reserve B r)
            after
            (user B u)
            payer
            on_behalf_of
            time
            (nat B now) in
        (result.scaled_variable_debt ≡ nat B 0) × (result.current_variable_debt ≡ nat B 0)
  unfolding calc_expected_user_data_after_repay user_debt_left
  repay_variable-all r after u payer on_behalf_of time now i h ei index le =
      let scaled = u.scaled_variable_debt in
      let paid =
        repaid_all variable (user_stable_debt B (user B u) (nat B now))
          (calc_expected_variable_debt_token_balance B (reserve B r) (user B u) (nat B now)) in
      let debt : calc_expected_variable_debt_token_balance B (reserve B r) (user B u) (nat B now)
          ≡ nat B (mul_ray scaled i) =
        variable_balance-nat L r u now h ∙ ap (λ j. nat B (mul_ray scaled j)) (sym ei) in
      let share : ray_div B
            (amount_to_repay B max_uint_amount variable (user_stable_debt B (user B u) (nat B now))
              (calc_expected_variable_debt_token_balance B (reserve B r) (user B u) (nat B now)))
            after.variable_borrow_index
          ≡ nat B scaled =
        ap (λ x. ray_div B x after.variable_borrow_index) (paid ∙ debt)
        ∙ ap (ray_div B (nat B (mul_ray scaled i))) index
        ∙ ray_div-nat L (mul_ray scaled i) i (omega arith)
        ∙ ap (nat B) (rescaled scaled i le) in
      let left = nothing_left scaled refl share in
      (
        left,
        ap (λ x. ray_mul B x after.variable_borrow_index) left
            ∙ ap (ray_mul B (nat B 0)) index
            ∙ ray_mul-nat L 0 i
            ∙ ap (nat B) (nothing_times i),
      )
