-- ===== src/Actions/Keeps.antt =====
-- What the actions read leaves a count of the world as it is.
use text.Mathlib.Text.{◌==◌ as str_eq}
use code4rena_may.Base.{
  ℕ, String, Bool, true, false, ◌≡◌, ◌∙◌, refl, Option, none, some, if◌then◌else◌,
}
use code4rena_may.BigNumber.{BigNumber}
use code4rena_may.Effects.{Result, Action as Run, ok, thrown, continue, pure, ◌>>=◌}
use code4rena_may.Helpers.Verification.{truthy}
use code4rena_may.Market.{lookup}
use code4rena_may.Scenario.Engine.{given}
use code4rena_may.Actions.{Chain}
use code4rena_may.Actions.Reads.{
  defined, instance_at, get_a_token, get_stable_debt_token, get_variable_debt_token,
  get_mintable_erc20, get_ierc20_detailed, get_lending_rate_oracle, convert_to_currency_decimals,
  time_latest, get_reserve_address_from_symbol, get_a_token_user_data, get_reserve_data, is_yv_wftm,
  get_user_data, get_contracts_data, get_data_before_action, amount_or_all, value_of,
}

module _ {W : Type 0} (sent : W → ℕ) where
  -- Whatever it returns, the count stays.
  pub record Keeps {A : Type 0} (m : Run W A) : Type 0 where
    pub keeps : (w : W) → sent ((m w).1) ≡ sent w

  continue-Keeps :
      {A B : Type 0} (k : A → Run W B) (p : Result A × W)
      → ((a : A) → Keeps (k a))
      → sent ((continue k p).1) ≡ sent (p.1)
  continue-Keeps k (ok a, w) h = (h a).keeps w
  continue-Keeps k (thrown e, w) h = refl

  pub bind-Keeps :
      {A B : Type 0} {m : Run W A} {k : A → Run W B}
      → Keeps m
      → ((a : A) → Keeps (k a))
      → Keeps (m >>= k)
  bind-Keeps {m} {k} h hk = record { keeps = λ w. continue-Keeps k (m w) hk ∙ h.keeps w }

  pub if-Keeps :
      {A : Type 0} (b : Bool) {m n : Run W A} → Keeps m → Keeps n → Keeps (if b then m else n)
  if-Keeps true h k = h
  if-Keeps false h k = k

  pub result-Keeps : {A : Type 0} (r : Result A) → Keeps (λ w. (r, w))
  result-Keeps r = record { keeps = λ w. refl }

  pub pure-Keeps : {A : Type 0} (a : A) → Keeps (pure a)
  pure-Keeps a = result-Keeps (ok a)

-- The calls that only read leave the count.
pub record Reading {B : BigNumber} (C : Chain B) (sent : C.World → ℕ) : Type 0 where
  pub db_address_keeps : (id : String) → Keeps sent (C.db_address id)
  pub reserve_data_keeps : (a : String) → Keeps sent (C.reserve_data a)
  pub reserve_tokens_keeps : (a : String) → Keeps sent (C.reserve_tokens_addresses a)
  pub user_reserve_data_keeps : (a b : String) → Keeps sent (C.user_reserve_data a b)
  pub principal_supply_keeps : (a : String) → Keeps sent (C.principal_supply a)
  pub total_supply_keeps : (a : String) → Keeps sent (C.total_supply_last_updated a)
  pub scaled_supply_keeps : (a : String) → Keeps sent (C.scaled_total_supply a)
  pub scaled_balance_keeps : (a b : String) → Keeps sent (C.scaled_balance_of a b)
  pub market_rate_keeps : (a b : String) → Keeps sent (C.market_borrow_rate a b)
  pub symbol_keeps : (a : String) → Keeps sent (C.symbol a)
  pub decimals_keeps : (a : String) → Keeps sent (C.decimals a)
  pub balance_keeps : (a b : String) → Keeps sent (C.balance_of a b)
  pub latest_keeps : Keeps sent C.latest_timestamp

module _ {B : BigNumber} (C : Chain B) (sent : C.World → ℕ) (R : Reading C sent) where
  abbrev KeepsC : {A : Type 0} → Run C.World A → Type 0
  KeepsC m = Keeps sent m

  pub defined-Keeps : {A : Type 0} (o : Option A) → KeepsC (defined C o)
  defined-Keeps none = result-Keeps sent (thrown "TypeError")
  defined-Keeps (some a) = pure-Keeps sent a

  instance_at-Keeps : (id : String) (given : Option String) → KeepsC (instance_at C id given)
  unfolding instance_at
  instance_at-Keeps id given =
      if-Keeps sent (truthy given) (defined-Keeps given)
        (bind-Keeps sent (R.db_address_keeps id) (λ saved. defined-Keeps saved))

  mintable-Keeps : (a : Option String) → KeepsC (get_mintable_erc20 C a)
  unfolding get_mintable_erc20
  mintable-Keeps a = instance_at-Keeps "MintableERC20" a

  detailed-Keeps : (a : String) → KeepsC (get_ierc20_detailed C a)
  unfolding get_ierc20_detailed
  detailed-Keeps a = instance_at-Keeps "IERC20Detailed" (some a)

  a_token-Keeps : (a : String) → KeepsC (get_a_token C a)
  unfolding get_a_token
  a_token-Keeps a = instance_at-Keeps "AToken" (some a)

  pub convert-Keeps : (token amount : String) → KeepsC (convert_to_currency_decimals C token amount)
  unfolding convert_to_currency_decimals
  convert-Keeps token amount =
      bind-Keeps sent (detailed-Keeps token)
        (λ t. bind-Keeps sent (R.decimals_keeps t) (λ d. result-Keeps sent _))

  pub address-Keeps : (symbol : String) → KeepsC (get_reserve_address_from_symbol C symbol)
  unfolding get_reserve_address_from_symbol
  address-Keeps symbol =
      if-Keeps sent (truthy (lookup symbol C.reserve_assets)) (mintable-Keeps _)
        (bind-Keeps sent (R.db_address_keeps symbol) (λ saved. mintable-Keeps saved))

  scaled-Keeps : (reserve user : String) → KeepsC (get_a_token_user_data C reserve user)
  unfolding get_a_token_user_data
  scaled-Keeps reserve user = bind-Keeps sent (R.reserve_tokens_keeps reserve) (λ tokens.
      bind-Keeps sent (a_token-Keeps tokens.a_token_address)
        (λ a_token. R.scaled_balance_keeps a_token user))

  reserve_data-Keeps : (reserve : String) → KeepsC (get_reserve_data C reserve)
  unfolding get_reserve_data get_lending_rate_oracle get_stable_debt_token get_variable_debt_token
  reserve_data-Keeps reserve = bind-Keeps sent (R.reserve_data_keeps reserve) (λ reply.
      bind-Keeps sent (R.reserve_tokens_keeps reserve) (λ tokens.
        bind-Keeps sent (instance_at-Keeps "LendingRateOracle" none) (λ oracle.
          bind-Keeps sent (detailed-Keeps reserve) (λ token.
            bind-Keeps sent (instance_at-Keeps "StableDebtToken" _) (λ stable.
              bind-Keeps sent (instance_at-Keeps "VariableDebtToken" _) (λ variable.
                bind-Keeps sent (R.principal_supply_keeps stable) (λ principal.
                  bind-Keeps sent (R.total_supply_keeps stable) (λ updated.
                    bind-Keeps sent (R.scaled_supply_keeps variable) (λ scaled.
                      bind-Keeps sent (R.market_rate_keeps oracle reserve) (λ rate.
                        bind-Keeps sent (R.symbol_keeps token) (λ symbol.
                          bind-Keeps sent (R.decimals_keeps token)
                            (λ d. result-Keeps sent _))))))))))))

  user_data-Keeps : (reserve user sender : String) → KeepsC (get_user_data C reserve user sender)
  unfolding get_user_data
  user_data-Keeps reserve user sender =
      bind-Keeps sent (R.user_reserve_data_keeps reserve user) (λ reply.
        bind-Keeps sent (scaled-Keeps reserve user) (λ scaled.
          bind-Keeps sent (mintable-Keeps (some reserve)) (λ token.
            bind-Keeps sent
              (if-Keeps sent (is_yv_wftm C reserve) (mintable-Keeps (some C.config_wftm))
                (result-Keeps sent _))
              (λ t. bind-Keeps sent (R.balance_keeps t _) (λ wallet. result-Keeps sent _)))))

  pub contracts-Keeps :
      (reserve user : String) (sender : Option String)
      → KeepsC (get_contracts_data C reserve user sender)
  unfolding get_contracts_data time_latest
  contracts-Keeps reserve user sender = bind-Keeps sent (user_data-Keeps reserve user _) (λ u.
      bind-Keeps sent (reserve_data-Keeps reserve) (λ r.
        bind-Keeps sent (bind-Keeps sent R.latest_keeps (λ t. result-Keeps sent _))
          (λ t. result-Keeps sent _)))

  pub before-Keeps : (symbol user : String) → KeepsC (get_data_before_action C symbol user)
  unfolding get_data_before_action
  before-Keeps symbol user = bind-Keeps sent (address-Keeps symbol) (λ reserve.
      bind-Keeps sent (contracts-Keeps reserve user none)
        (λ d. bind-Keeps sent (a_token-Keeps _) (λ a. result-Keeps sent _)))

  pub amount-Keeps : (token amount : String) → KeepsC (amount_or_all C token amount)
  unfolding amount_or_all
  amount-Keeps token amount =
      if-Keeps sent (str_eq amount "-1") (result-Keeps sent _) (convert-Keeps token amount)

  pub value-Keeps : (token : String) (value : Option String) → KeepsC (value_of C token value)
  unfolding value_of
  value-Keeps token none = pure-Keeps sent none
  value-Keeps token (some v) =
      if-Keeps sent (str_eq v "") (result-Keeps sent _)
        (bind-Keeps sent (convert-Keeps token v) (λ x. result-Keeps sent _))
