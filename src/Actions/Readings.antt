-- ===== src/Actions/Readings.antt =====
-- The available liquidity that the actions read is an integer.
use code4rena_may.Base.{String, ◌≡◌, refl, subst, ap, Option, none}
use code4rena_may.Base.Int.{ℤ}
use code4rena_may.BigNumber.{BigNumber}
use code4rena_may.Effects.{Action, ok, continue-ok, pure, ◌>>=◌}
use code4rena_may.Market.{ReserveData}
use code4rena_may.Actions.{Chain}
use code4rena_may.Actions.Reads.{
  get_contracts_data, get_reserve_data, reserve_of, get_user_data, time_latest,
  get_lending_rate_oracle, get_ierc20_detailed, get_stable_debt_token, get_variable_debt_token,
}

module _ {W : Type 0} where
  -- What the code returns, if it returns, has the property.
  pub record Returns {A : Type 0} (P : A → Type 0) (m : Action W A) : Type 0 where
    pub returns : (w v : W) (a : A) → m w ≡ (ok a, v) → P a

  bind-Returns :
      {A D : Type 0} {P : D → Type 0} (m : Action W A) {k : A → Action W D}
      → ((a : A) → Returns P (k a))
      → Returns P (m >>= k)
  bind-Returns m {k} h = record {
    returns = λ w v d e.
        let (a, u, first, second) = continue-ok k (m w) d v e in (h a).returns u v d second;
  }

  bound-Returns :
      {A D : Type 0} {Q : A → Type 0} {P : D → Type 0} {m : Action W A} {k : A → Action W D}
      → Returns Q m
      → ((a : A) → Q a → Returns P (k a))
      → Returns P (m >>= k)
  bound-Returns {m} {k} q h = record {
    returns = λ w v d e.
        let (a, u, first, second) = continue-ok k (m w) d v e in
        (h a (q.returns w u a first)).returns u v d second;
  }

  pure-Returns : {A : Type 0} {P : A → Type 0} (a : A) → P a → Returns P (pure a)
  pure-Returns {P} a p = record {
    returns = λ w v b e. let same : a ≡ b = cc (ap (λ p. p.0) e) in subst P same p;
  }

module _ {B : BigNumber} (C : Chain B) where
  -- The available liquidity is an integer.
  abbrev pub IsWhole : ReserveData B.BN → Type 0
  IsWhole r = (a : ℤ) × (r.available_liquidity ≡ B.of_string a)

  reserve-IsWhole : (reserve : String) → Returns IsWhole (get_reserve_data C reserve)
  unfolding get_reserve_data reserve_of
  reserve-IsWhole reserve = bind-Returns (C.reserve_data reserve) (λ reply.
      bind-Returns (C.reserve_tokens_addresses reserve) (λ tokens.
        bind-Returns (get_lending_rate_oracle C none) (λ oracle.
          bind-Returns (get_ierc20_detailed C reserve) (λ token.
            bind-Returns (get_stable_debt_token C tokens.stable_debt_token_address) (λ stable.
              bind-Returns (get_variable_debt_token C tokens.variable_debt_token_address)
                (λ variable. bind-Returns (C.principal_supply stable) (λ principal.
                  bind-Returns (C.total_supply_last_updated stable) (λ updated.
                    bind-Returns (C.scaled_total_supply variable) (λ scaled.
                      bind-Returns (C.market_borrow_rate oracle reserve) (λ rate.
                        bind-Returns (C.symbol token) (λ symbol.
                          bind-Returns (C.decimals token) (λ decimals.
                            pure-Returns _ (reply.available_liquidity, refl)))))))))))))

  pub data-IsWhole :
      (reserve user : String) (sender : Option String)
      → Returns (λ d. IsWhole d.reserve_data) (get_contracts_data C reserve user sender)
  unfolding get_contracts_data
  data-IsWhole reserve user sender = bind-Returns (get_user_data C reserve user _) (λ u.
      bound-Returns (reserve-IsWhole reserve)
        (λ r whole. bind-Returns (time_latest C) (λ t. pure-Returns _ whole)))
