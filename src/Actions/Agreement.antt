-- ===== src/Actions/Agreement.antt =====
-- When what is read agrees with what is expected, field by field, and the comparisons of
-- Actions.Equality against it.
use text.Mathlib.TextEquality.{eq_iff}
use code4rena_may.Base.{
  ℕ, zero, suc, ◌≤◌, ◌<◌, ◌≡◌, refl, sym, String, Bool, true, false, ◌||◌, List, [], ◌∷◌, ◌⊎◌, inl,
  inr, arith,
}
use mathlib.Core.Bool.{true≢false}
use code4rena_may.Base.Int.{pos}
use code4rena_may.BigNumber.{BigNumber}
use code4rena_may.Market.{ReserveData, ExpectedReserveData, UserReserveData}
use code4rena_may.Actions.Equality.{
  Comparison, passes, bool_eq, almost_equal_or_equal, compare_reserve, compare_user,
}

-- Every comparison of the list passes.
abbrev pub AllPass : (B : BigNumber) → List (String × Comparison B.BN) → Type 0
AllPass B [] = Unit
AllPass B ((key, c) ∷ cs) = (passes B c ≡ true) × AllPass B cs

up_to_three_one : (0 < 1) × (1 ≤ 3)
up_to_three_one = (omega arith, omega arith)

up_to_three_two : (0 < 2) × (2 ≤ 3)
up_to_three_two = (omega arith, omega arith)

up_to_three_three : (0 < 3) × (3 ≤ 3)
up_to_three_three = (omega arith, omega arith)

or-cases : (a b : Bool) → (a || b) ≡ true → (a ≡ true) ⊎ (b ≡ true)
or-cases true b h = inl refl
or-cases false b h = inr h

or_left : {a : Bool} (b : Bool) → a ≡ true → (a || b) ≡ true
or_left b h = simp (h)

or_right : (a : Bool) {b : Bool} → b ≡ true → (a || b) ≡ true
or_right true h = refl
or_right false h = h

bool_eq-same : (a e : Bool) → bool_eq a e ≡ true → a ≡ e
bool_eq-same true e h = sym h
bool_eq-same false true h = absurd (true≢false (sym h))
bool_eq-same false false h = refl

same-bool_eq : (a e : Bool) → a ≡ e → bool_eq a e ≡ true
same-bool_eq true e h = sym h
same-bool_eq false true h = absurd (true≢false (sym h))
same-bool_eq false false h = refl

module _ (B : BigNumber) where
  -- Cut off at the point, the two are equal, or one is 1, 2 or 3 above the other.
  abbrev pub IsClose : B.BN → B.BN → Type 0
  IsClose expected actual =
      let e = B.decimal_places_down expected in
      let a = B.decimal_places_down actual in
      (B.eq a e ≡ true)
      ⊎ ((k : ℕ) × (0 < k)
          × (k ≤ 3)
          × ((B.eq (B.plus a (B.of_string (pos k))) e ≡ true)
              ⊎ (B.eq a (B.plus e (B.of_string (pos k))) ≡ true)))

  almost-IsClose : (e a : B.BN) → almost_equal_or_equal B e a ≡ true → IsClose e a
  almost-IsClose e a h = elim (or-cases _ _ h) [
    | inr p ↦ inr (3, up_to_three_three.0, up_to_three_three.1, inr p)
    | inl h1 ↦ elim (or-cases _ _ h1) [
      | inr p ↦ inr (3, up_to_three_three.0, up_to_three_three.1, inl p)
      | inl h2 ↦ elim (or-cases _ _ h2) [
        | inr p ↦ inr (2, up_to_three_two.0, up_to_three_two.1, inr p)
        | inl h3 ↦ elim (or-cases _ _ h3) [
          | inr p ↦ inr (2, up_to_three_two.0, up_to_three_two.1, inl p)
          | inl h4 ↦ elim (or-cases _ _ h4) [
            | inr p ↦ inr (1, up_to_three_one.0, up_to_three_one.1, inr p)
            | inl h5 ↦ elim (or-cases _ _ h5) [
              | inr p ↦ inr (1, up_to_three_one.0, up_to_three_one.1, inl p)
              | inl p ↦ inl p
            ]
          ]
        ]
      ]
    ]
  ]

  pub IsClose-almost : (e a : B.BN) → IsClose e a → almost_equal_or_equal B e a ≡ true
  IsClose-almost e a (inl p) =
      or_left _ (or_left _ (or_left _ (or_left _ (or_left _ (or_left _ p)))))
  IsClose-almost e a (inr (zero, low, high, p)) = absurd (omega (arith, low))
  IsClose-almost e a (inr (suc zero, low, high, inl p)) =
      or_left _ (or_left _ (or_left _ (or_left _ (or_left _ (or_right _ p)))))
  IsClose-almost e a (inr (suc zero, low, high, inr p)) =
      or_left _ (or_left _ (or_left _ (or_left _ (or_right _ p))))
  IsClose-almost e a (inr (suc (suc zero), low, high, inl p)) =
      or_left _ (or_left _ (or_left _ (or_right _ p)))
  IsClose-almost e a (inr (suc (suc zero), low, high, inr p)) = or_left _ (or_left _ (or_right _ p))
  IsClose-almost e a (inr (suc (suc (suc zero)), low, high, inl p)) = or_left _ (or_right _ p)
  IsClose-almost e a (inr (suc (suc (suc zero)), low, high, inr p)) = or_right _ p
  IsClose-almost e a (inr (suc (suc (suc (suc k))), low, high, p)) = absurd (omega (arith, high))

  -- The fields of a reserve that are compared.
  pub record ReserveAgrees (a : ReserveData B.BN) (e : ExpectedReserveData B.BN) : Type 0 where
    pub total_liquidity : IsClose e.total_liquidity a.total_liquidity
    pub utilization_rate : IsClose e.utilization_rate a.utilization_rate
    pub available_liquidity : IsClose e.available_liquidity a.available_liquidity
    pub total_stable_debt : IsClose e.total_stable_debt a.total_stable_debt
    pub total_variable_debt : IsClose e.total_variable_debt a.total_variable_debt
    pub liquidity_rate : IsClose e.liquidity_rate a.liquidity_rate
    pub variable_borrow_rate : IsClose e.variable_borrow_rate a.variable_borrow_rate
    pub stable_borrow_rate : IsClose e.stable_borrow_rate a.stable_borrow_rate
    pub average_stable_borrow_rate :
        IsClose e.average_stable_borrow_rate a.average_stable_borrow_rate
    pub liquidity_index : IsClose e.liquidity_index a.liquidity_index
    pub variable_borrow_index : IsClose e.variable_borrow_index a.variable_borrow_index
    pub principal_stable_debt : IsClose e.principal_stable_debt a.principal_stable_debt
    pub scaled_variable_debt : IsClose e.scaled_variable_debt a.scaled_variable_debt
    pub address : a.address ≡ e.address

  -- The fields of a user.
  pub record UserAgrees (a : UserReserveData B.BN) (e : UserReserveData B.BN) : Type 0 where
    pub scaled_a_token_balance : IsClose e.scaled_a_token_balance a.scaled_a_token_balance
    pub current_a_token_balance : IsClose e.current_a_token_balance a.current_a_token_balance
    pub current_stable_debt : IsClose e.current_stable_debt a.current_stable_debt
    pub current_variable_debt : IsClose e.current_variable_debt a.current_variable_debt
    pub principal_stable_debt : IsClose e.principal_stable_debt a.principal_stable_debt
    pub scaled_variable_debt : IsClose e.scaled_variable_debt a.scaled_variable_debt
    pub stable_borrow_rate : IsClose e.stable_borrow_rate a.stable_borrow_rate
    pub liquidity_rate : IsClose e.liquidity_rate a.liquidity_rate
    pub usage_as_collateral_enabled : a.usage_as_collateral_enabled ≡ e.usage_as_collateral_enabled
    pub stable_rate_last_updated : IsClose e.stable_rate_last_updated a.stable_rate_last_updated
    pub wallet_balance : IsClose e.wallet_balance a.wallet_balance

  pub reserve-ok :
      (a : ReserveData B.BN) (e : ExpectedReserveData B.BN)
      → AllPass B (compare_reserve B a e)
      → ReserveAgrees a e
  unfolding passes compare_reserve
  reserve-ok a e h =
      let (
        p0,
        (
          p1,
          (
            p2,
            (
              p3,
              (
                p4,
                (
                  p5,
                  (
                    p6,
                    (
                      p7,
                      (
                        p8,
                        (
                          p9,
                          (p10, (p11, (p12, (p13, (p14, (p15, (p16, (p17, (p18, (p19, u)))))))))),
                        ),
                      ),
                    ),
                  ),
                ),
              ),
            ),
          ),
        ),
      ) =
        h in
      record {
        total_liquidity = almost-IsClose e.total_liquidity a.total_liquidity p0;
        utilization_rate = almost-IsClose e.utilization_rate a.utilization_rate p1;
        available_liquidity = almost-IsClose e.available_liquidity a.available_liquidity p2;
        total_stable_debt = almost-IsClose e.total_stable_debt a.total_stable_debt p3;
        total_variable_debt = almost-IsClose e.total_variable_debt a.total_variable_debt p4;
        liquidity_rate = almost-IsClose e.liquidity_rate a.liquidity_rate p5;
        variable_borrow_rate = almost-IsClose e.variable_borrow_rate a.variable_borrow_rate p6;
        stable_borrow_rate = almost-IsClose e.stable_borrow_rate a.stable_borrow_rate p7;
        average_stable_borrow_rate =
            almost-IsClose e.average_stable_borrow_rate a.average_stable_borrow_rate p8;
        liquidity_index = almost-IsClose e.liquidity_index a.liquidity_index p9;
        variable_borrow_index = almost-IsClose e.variable_borrow_index a.variable_borrow_index p10;
        principal_stable_debt = almost-IsClose e.principal_stable_debt a.principal_stable_debt p13;
        scaled_variable_debt = almost-IsClose e.scaled_variable_debt a.scaled_variable_debt p14;
        address = (eq_iff a.address e.address).0 p15;
      }

  pub ok-reserve :
      (a : ReserveData B.BN) (e : ExpectedReserveData B.BN)
      → ReserveAgrees a e
      → AllPass B (compare_reserve B a e)
  unfolding passes compare_reserve
  ok-reserve a e h = (
    IsClose-almost e.total_liquidity a.total_liquidity h.total_liquidity,
    (
      IsClose-almost e.utilization_rate a.utilization_rate h.utilization_rate,
      (
        IsClose-almost e.available_liquidity a.available_liquidity h.available_liquidity,
        (
          IsClose-almost e.total_stable_debt a.total_stable_debt h.total_stable_debt,
          (
            IsClose-almost e.total_variable_debt a.total_variable_debt h.total_variable_debt,
            (
              IsClose-almost e.liquidity_rate a.liquidity_rate h.liquidity_rate,
              (
                IsClose-almost e.variable_borrow_rate a.variable_borrow_rate h.variable_borrow_rate,
                (
                  IsClose-almost e.stable_borrow_rate a.stable_borrow_rate h.stable_borrow_rate,
                  (
                    IsClose-almost e.average_stable_borrow_rate a.average_stable_borrow_rate
                        h.average_stable_borrow_rate,
                    (
                      IsClose-almost e.liquidity_index a.liquidity_index h.liquidity_index,
                      (
                        IsClose-almost e.variable_borrow_index a.variable_borrow_index
                            h.variable_borrow_index,
                        (
                          refl,
                          (
                            refl,
                            (
                              IsClose-almost e.principal_stable_debt a.principal_stable_debt
                                  h.principal_stable_debt,
                              (
                                IsClose-almost e.scaled_variable_debt a.scaled_variable_debt
                                    h.scaled_variable_debt,
                                (
                                  (eq_iff a.address e.address).1 h.address,
                                  (refl, (refl, (refl, (refl, tt)))),
                                ),
                              ),
                            ),
                          ),
                        ),
                      ),
                    ),
                  ),
                ),
              ),
            ),
          ),
        ),
      ),
    ),
  )

  pub user-ok :
      (a : UserReserveData B.BN) (e : UserReserveData B.BN)
      → AllPass B (compare_user B a e)
      → UserAgrees a e
  unfolding passes compare_user
  user-ok a e h =
      let (p0, (p1, (p2, (p3, (p4, (p5, (p6, (p7, (p8, (p9, (p10, u))))))))))) = h in
      record {
        scaled_a_token_balance =
            almost-IsClose e.scaled_a_token_balance a.scaled_a_token_balance p0;
        current_a_token_balance =
            almost-IsClose e.current_a_token_balance a.current_a_token_balance p1;
        current_stable_debt = almost-IsClose e.current_stable_debt a.current_stable_debt p2;
        current_variable_debt = almost-IsClose e.current_variable_debt a.current_variable_debt p3;
        principal_stable_debt = almost-IsClose e.principal_stable_debt a.principal_stable_debt p4;
        scaled_variable_debt = almost-IsClose e.scaled_variable_debt a.scaled_variable_debt p5;
        stable_borrow_rate = almost-IsClose e.stable_borrow_rate a.stable_borrow_rate p6;
        liquidity_rate = almost-IsClose e.liquidity_rate a.liquidity_rate p7;
        usage_as_collateral_enabled =
            bool_eq-same a.usage_as_collateral_enabled e.usage_as_collateral_enabled p8;
        stable_rate_last_updated =
            almost-IsClose e.stable_rate_last_updated a.stable_rate_last_updated p9;
        wallet_balance = almost-IsClose e.wallet_balance a.wallet_balance p10;
      }

  pub ok-user :
      (a : UserReserveData B.BN) (e : UserReserveData B.BN)
      → UserAgrees a e
      → AllPass B (compare_user B a e)
  unfolding passes compare_user
  ok-user a e h = (
    IsClose-almost e.scaled_a_token_balance a.scaled_a_token_balance h.scaled_a_token_balance,
    (
      IsClose-almost e.current_a_token_balance a.current_a_token_balance h.current_a_token_balance,
      (
        IsClose-almost e.current_stable_debt a.current_stable_debt h.current_stable_debt,
        (
          IsClose-almost e.current_variable_debt a.current_variable_debt h.current_variable_debt,
          (
            IsClose-almost e.principal_stable_debt a.principal_stable_debt h.principal_stable_debt,
            (
              IsClose-almost e.scaled_variable_debt a.scaled_variable_debt h.scaled_variable_debt,
              (
                IsClose-almost e.stable_borrow_rate a.stable_borrow_rate h.stable_borrow_rate,
                (
                  IsClose-almost e.liquidity_rate a.liquidity_rate h.liquidity_rate,
                  (
                    same-bool_eq a.usage_as_collateral_enabled e.usage_as_collateral_enabled
                        h.usage_as_collateral_enabled,
                    (
                      IsClose-almost e.stable_rate_last_updated a.stable_rate_last_updated
                          h.stable_rate_last_updated,
                      (IsClose-almost e.wallet_balance a.wallet_balance h.wallet_balance, tt),
                    ),
                  ),
                ),
              ),
            ),
          ),
        ),
      ),
    ),
  )
