-- ===== src/Tests/Actions.antt =====
-- The properties of the actions at a concrete chain: a user of one reserve without debts, where a
-- deposit of 5 and a borrowing of 5 are accepted and everything else is rejected.
use code4rena_may.Calculations.User.Borrow.{borrowed_debt, calc_expected_user_data_after_borrow}
use code4rena_may.Calculations.Reserve.Borrow.{
  calc_expected_reserve_data_after_borrow, after_variable_borrow,
}
use code4rena_may.Calculations.Balances.{
  calc_expected_variable_debt_token_balance, calc_expected_stable_debt_token_balance,
  calc_expected_a_token_balance, calc_expected_scaled_a_token_balance,
}
use code4rena_may.Calculations.User.Deposit.{
  collateral_enabled, collateral_after_deposit, calc_expected_user_data_after_deposit,
}
use code4rena_may.Calculations.Interest.{
  calc_linear_interest, calc_expected_reserve_normalized_debt,
  calc_expected_reserve_normalized_income, calc_expected_liquidity_index,
  calc_expected_variable_borrow_index, calc_expected_total_variable_debt, calc_compounded_interest,
  calc_expected_total_stable_debt,
}
use code4rena_may.Constants.{half_ray, ray}
use code4rena_may.Math.{
  wad_to_ray, half_percentage_unit, percent_mul, half_ray_unit, ray_mul, ray_div,
}
use code4rena_may.Calculations.Rates.{
  rates_below, borrow_rates, calc_expected_overall_borrow_rate, rates_of,
  calc_expected_utilization_rate, calc_expected_interest_rates,
}
use code4rena_may.Calculations.Reserve.Deposit.{calc_expected_reserve_data_after_deposit}
use code4rena_may.Base.{
  ℕ, ◌+◌, ◌-◌, ◌*◌, ◌^◌, ◌≡◌, Option, refl, sym, ap, ◌∙◌, Bool-cases, inl, inr, String, true, false,
  [], ◌∷◌, some, none, leb, if◌then◌else◌, ◌⊎◌,
}
use text.Mathlib.Text.{◌==◌ as str_eq}
use mathlib.Core.Bool.{true≢false}
use mathlib.Core.Logic.{◌↔◌}
use code4rena_may.Base.Int.{ℤ, pos, abs_ℕ, ◌+ℤ◌, ◌-ℤ◌}
use code4rena_may.BigNumber.Concrete.{integers, integers-IsExact}
use code4rena_may.Effects.{Result, ok, thrown, thrown-ok, Action}
use code4rena_may.Tests.Data.{market}
use code4rena_may.Market.{ReserveData, lookup}
use code4rena_may.Actions.Tolerance.{almost_equal_or_equal-within}
use code4rena_may.Actions.Equality.{
  passes, expect_equal, compare_user, compare_reserve, almost_equal_or_equal,
}
use code4rena_may.Actions.Reads.{
  get_tx_cost_and_timestamp, ContractsData, reserve_of, user_of, get_reserve_address_from_symbol,
  get_mintable_erc20, instance_at, get_contracts_data, get_data_before_action, amount_or_all,
  value_of, convert_to_currency_decimals, get_user_data, get_reserve_data, get_a_token_user_data,
  get_a_token, get_ierc20_detailed, get_lending_rate_oracle, get_stable_debt_token,
  get_variable_debt_token, time_latest,
}
use code4rena_may.Actions.Keeps.{Reading}
use code4rena_may.Actions.Steps.{
  transact_then_compare, as_reserve_data, transact_and_compare, compare_both,
}
use code4rena_may.Actions.Supply.{deposit, withdraw_collateral}
use code4rena_may.Actions.Debt.{borrow, as_rate_mode, travel}
use code4rena_may.Actions.Checked.{Accepted}
use code4rena_may.Actions.Verdicts.{deposit-Accepted}
use code4rena_may.Actions.Sturdy
use code4rena_may.Actions.Sturdy.{deposit_collateral-Accepted}
use code4rena_may.Actions.Engine.{operations}
use code4rena_may.Actions.Silent.{execute_action-Silent}
use code4rena_may.Actions.Tracking.{deposit-Tracks, borrow-Tracks, Tracks, TracksThen}
use code4rena_may.Scenario.{Args}
use code4rena_may.Scenario.Engine.{Name, execute_action}
use code4rena_may.Actions.Reverts.{
  IsMatcher, Rejected, Sent, withdraw_collateral-Rejected, withdraw_collateral-Asset,
  deposit-Exclusive,
}
use code4rena_may.Actions.{Chain, Call, ReserveReply, TokensReply, UserReply, Receipt}

data State : Type 0 where
  start deposited borrowed : State

abbrev sent : State → ℕ
sent start = 0
sent _ = 1

abbrev reserve_reply : State → ReserveReply
reserve_reply borrowed = record {
  available_liquidity = pos 995;
  total_stable_debt = pos 0;
  total_variable_debt = pos 5;
  liquidity_rate = pos (1125 * 10 ^ 18);
  variable_borrow_rate = pos (25 * 10 ^ 22);
  stable_borrow_rate = pos (39_125 * 10 ^ 21);
  average_stable_borrow_rate = pos 0;
  liquidity_index = pos (10 ^ 27);
  variable_borrow_index = pos (10 ^ 27);
  last_update_timestamp = pos 1000;
}
reserve_reply n = record {
  available_liquidity = pos (1000 + 5 * sent n);
  total_stable_debt = pos 0;
  total_variable_debt = pos 0;
  liquidity_rate = pos 0;
  variable_borrow_rate = pos 0;
  stable_borrow_rate = pos (39 * 10 ^ 24);
  average_stable_borrow_rate = pos 0;
  liquidity_index = pos (10 ^ 27);
  variable_borrow_index = pos (10 ^ 27);
  last_update_timestamp = pos 1000;
}

abbrev user_reply : State → UserReply
user_reply borrowed = record {
  current_a_token_balance = pos 20;
  current_stable_debt = pos 0;
  current_variable_debt = pos 5;
  principal_stable_debt = pos 0;
  scaled_variable_debt = pos 5;
  stable_borrow_rate = pos 0;
  liquidity_rate = pos (1125 * 10 ^ 18);
  stable_rate_last_updated = pos 0;
  usage_as_collateral_enabled = true;
}
user_reply n = record {
  current_a_token_balance = pos (20 + 5 * sent n);
  current_stable_debt = pos 0;
  current_variable_debt = pos 0;
  principal_stable_debt = pos 0;
  scaled_variable_debt = pos 0;
  stable_borrow_rate = pos 0;
  liquidity_rate = pos 0;
  stable_rate_last_updated = pos 0;
  usage_as_collateral_enabled = true;
}

abbrev scaled_debt : State → ℤ
scaled_debt borrowed = pos 5
scaled_debt n = pos 0

abbrev scaled_tokens : State → ℤ
scaled_tokens borrowed = pos 20
scaled_tokens n = pos (20 + 5 * sent n)

abbrev wallet : State → ℤ
wallet borrowed = pos 105
wallet n = pos (100 - 5 * sent n)

abbrev tokens : TokensReply
tokens = record {
  a_token_address = "0xa1";
  stable_debt_token_address = "0xa2";
  variable_debt_token_address = "0xa3";
}

abbrev receipt : Receipt
receipt = record {
  block_number = some (pos 7);
  transaction_hash = some "0xff";
  cumulative_gas_used = some (pos 21_000);
}

abbrev send : String → Call → Action State ℕ
send user (Call.deposit reserve amount to value) n = (ok 0, deposited)
send user (Call.deposit_collateral asset amount value) n = (ok 0, deposited)
send user (Call.borrow reserve amount mode to) n = (ok 0, borrowed)
send user _ n = (thrown "revert", n)

abbrev rejected : String → Result ℕ × State → Result (Unit {0}) × State
rejected reason (ok tx, n) = (thrown "not reverted", n)
rejected reason (thrown e, n) = if str_eq e reason then (ok tt, n) else (thrown e, n)

abbrev chain : Chain integers
chain = record {
  World = State;
  User = String;
  address = λ u. u;
  signer_at = λ a n. (ok a, n);
  Tx = ℕ;
  send = send;
  wait = λ tx n. (ok receipt, n);
  expect_reverted = λ p message n. rejected "revert" (p n);
  expect_reverted_with = λ p reason n. rejected reason (p n);
  db_address = λ id n. (ok (some "0xd0"), n);
  reserve_data = λ a n. (ok (reserve_reply n), n);
  reserve_tokens_addresses = λ a n. (ok tokens, n);
  user_reserve_data = λ a b n. (ok (user_reply n), n);
  pool_tokens = λ a n. (ok tokens, n);
  principal_supply = λ a n. (ok (pos 0), n);
  total_supply_last_updated = λ a n. (ok (pos 1000), n);
  scaled_total_supply = λ a n. (ok (scaled_debt n), n);
  scaled_balance_of = λ a b n. (ok (scaled_tokens n), n);
  market_borrow_rate = λ a b n. (ok (pos (39 * 10 ^ 24)), n);
  symbol = λ a n. (ok "DAI", n);
  decimals = λ a n. (ok (pos 0), n);
  balance_of = λ a b n. (ok (wallet n), n);
  borrow_allowance = λ a b c n. (ok (pos 0), n);
  parse_units = λ s d. ok (pos 5);
  latest_timestamp = λ n. (ok (pos 1000), n);
  block_timestamp = λ b n. (ok (pos 1000), n);
  gas_price = λ h n. (ok (pos 2), n);
  block_number = λ n. (ok (pos 7), n);
  block_at = λ b n. (ok (some (pos 1000)), n);
  provider_send = λ m x n. (ok tt, n);
  provider_request = λ m x n. (ok tt, n);
  tenderly = none;
  big_number = λ s. pos 1;
  to_number = λ x. x;
  to_lower_case = λ s. s;
  to_locale_lower_case = λ s. s;
  pool_address = "0xp0";
  yearn_vault = "0xp1";
  usdc = "0xp2";
  dai = "0x01";
  wftm = "0xp3";
  skip_integrity_check = false;
  reserves_params = market;
  reserves_config = market;
  reserve_assets = ("DAI", "0x01") ∷ [];
  config_wftm = "0xp3";
  undefined = pos 0;
}

abbrev IsRevert : String → Type 0
IsRevert e = str_eq e "revert" ≡ true

rejected_lem :
    (q : Result ℕ × State) (n : State)
    → (rejected "revert" q ≡ (ok tt, n)) ↔ ((e : String) × (q ≡ (thrown e, n)) × IsRevert e)
rejected_lem (ok tx, m) n =
    (λ h. absurd (thrown-ok (ap (λ p. p.0) h)), λ h. absurd (thrown-ok (sym (ap (λ p. p.0) (h.1)))))
rejected_lem (thrown e, m) n = elim (Bool-cases (str_eq e "revert")) [
  | inl b ↦ (
    λ h. (e, ap (λ p. (thrown e, p.1)) (simp (b) at h), b),
    λ h. simp (b) (ap (λ p. (ok tt, p.1)) (h.1)),
  )
  | inr b ↦ (
    λ h. absurd (thrown-ok (ap (λ p. p.0) (simp (b) at h))),
    λ h.
        let same : e ≡ h.0 = cc (ap (λ p. p.0) (h.1)) in
        absurd (true≢false (sym (h.2) ∙ ap (λ x. str_eq x "revert") (sym same) ∙ b)),
  )
]

matcher : IsMatcher chain IsRevert
matcher = record { reverted_lem = λ p message w w1. rejected_lem (p w) w1 }

reading : Reading chain sent
reading = record {
  db_address_keeps = λ a. record { keeps = λ n. refl };
  reserve_data_keeps = λ a. record { keeps = λ n. refl };
  reserve_tokens_keeps = λ a. record { keeps = λ n. refl };
  user_reserve_data_keeps = λ a b. record { keeps = λ n. refl };
  principal_supply_keeps = λ a. record { keeps = λ n. refl };
  total_supply_keeps = λ a. record { keeps = λ n. refl };
  scaled_supply_keeps = λ a. record { keeps = λ n. refl };
  scaled_balance_keeps = λ a b. record { keeps = λ n. refl };
  market_rate_keeps = λ a b. record { keeps = λ n. refl };
  symbol_keeps = λ a. record { keeps = λ n. refl };
  decimals_keeps = λ a. record { keeps = λ n. refl };
  balance_keeps = λ a b. record { keeps = λ n. refl };
  latest_keeps = record { keeps = λ n. refl };
}

almost_equal_or_equal-within_example :
    almost_equal_or_equal integers (pos 7) (pos 10) ≡ leb (abs_ℕ (pos 10 -ℤ pos 7)) 3
almost_equal_or_equal-within_example =
    almost_equal_or_equal-within integers-IsExact (pos 7) (pos 10)

abbrev reserve_at : State → ReserveData ℤ
reserve_at n =
    reserve_of chain "0x01" (reserve_reply n) tokens (pos 0) (pos 1000) (scaled_debt n)
      (pos (39 * 10 ^ 24)) "DAI" (pos 0)

abbrev data_at : State → ContractsData ℤ
data_at n = record {
  reserve_data = reserve_at n;
  user_data = user_of chain (user_reply n) (scaled_tokens n) (wallet n);
  timestamp = pos 1000;
}

address_read : get_reserve_address_from_symbol chain "DAI" start ≡ (ok "0x01", start)
unfolding get_reserve_address_from_symbol get_mintable_erc20 instance_at lookup
address_read = refl

data_read :
    (user : String) (sender : Option String)
    → get_contracts_data chain "0x01" user sender start ≡ (ok (data_at start), start)
unfolding get_contracts_data get_user_data get_a_token_user_data get_a_token instance_at
    get_mintable_erc20 lookup get_reserve_data get_lending_rate_oracle get_ierc20_detailed
    get_stable_debt_token get_variable_debt_token time_latest
data_read user sender = refl

amount_read : convert_to_currency_decimals chain "0x01" "5" start ≡ (ok (pos 5), start)
unfolding convert_to_currency_decimals get_ierc20_detailed instance_at
amount_read = refl

value_read : value_of chain "0x01" none start ≡ (ok none, start)
unfolding value_of
value_read = refl

all_or_amount_read : amount_or_all chain "0x01" "5" start ≡ (ok (pos 5), start)
unfolding amount_or_all convert_to_currency_decimals get_ierc20_detailed instance_at
all_or_amount_read = refl

wftm_amount_read : amount_or_all chain chain.wftm "5" start ≡ (ok (pos 5), start)
unfolding amount_or_all convert_to_currency_decimals get_ierc20_detailed instance_at
wftm_amount_read = refl

before_read : get_data_before_action chain "DAI" "0xa" start ≡ (ok ("0x01", data_at start), start)
unfolding get_data_before_action get_reserve_address_from_symbol get_contracts_data get_user_data
    get_a_token_user_data get_a_token instance_at get_mintable_erc20 lookup get_reserve_data
    get_lending_rate_oracle get_ierc20_detailed get_stable_debt_token get_variable_debt_token
    time_latest reserve_of
before_read = refl

abbrev args : String → Args
args amount = record {
  reserve = some "DAI";
  user = some "0";
  borrow_rate_mode = some "variable";
  amount = some amount;
  send_value = none;
  on_behalf_of = none;
  to_user = none;
  time_travel = none;
  use_as_collateral = none;
}

execute_action-Silent_example :
    sent (
      (execute_action
        (operations chain)
        (record {
          name = some "deposit";
          args = some (args "5");
          expected = some "succes";
          revert_message = none;
        })
        ("0xa" ∷ [])
        start).1)
    ≡ 0
execute_action-Silent_example =
    execute_action-Silent chain sent reading "succes" refl refl (args "5") "deposit" Name.deposit
      none ("0xa" ∷ []) start refl refl

collateral_rejected :
    withdraw_collateral chain "DAI" "5" (some "0xa") "revert" none start ≡ (ok tt, start)
collateral_rejected =
    (withdraw_collateral-Rejected chain matcher "DAI" "5" none "0xa" "0x01" (pos 5) (data_at start)
        start start start start before_read wftm_amount_read).1
      ("revert", refl, refl)

abbrev reverts : String
reverts = "revert"

withdraw_collateral-Asset_example :
    ((reverts ≡ "success")
      × Sent chain "0xa" (Call.withdraw_collateral chain.wftm (pos 5) "0xa") start)
    ⊎ (((reverts ≡ "revert")
          × Rejected chain IsRevert "0xa"
              (Call.withdraw_collateral "0x01" (pos 5) "0xa")
              start
              start)
        ⊎ ((str_eq reverts "success" ≡ false) × (str_eq reverts reverts ≡ false) × (start ≡ start)))
withdraw_collateral-Asset_example =
    withdraw_collateral-Asset chain matcher "DAI" "5" reverts none "0xa" "0x01" (pos 5)
      (data_at start) start start start start before_read wftm_amount_read collateral_rejected

address_read_sturdy : Sturdy.get_reserve_address_from_symbol chain "DAI" start ≡ (ok "0x01", start)
unfolding Sturdy.get_reserve_address_from_symbol get_mintable_erc20 instance_at lookup
address_read_sturdy = refl

data_read_sturdy :
    (user : String) (sender : Option String)
    → Sturdy.get_contracts_data chain "0x01" user sender start ≡ (ok (data_at start), start)
unfolding Sturdy.get_contracts_data Sturdy.get_user_data get_a_token_user_data get_a_token
    instance_at get_mintable_erc20 lookup get_reserve_data get_lending_rate_oracle
    get_ierc20_detailed get_stable_debt_token get_variable_debt_token time_latest
data_read_sturdy user sender = refl

deposit_collateral_run :
    Sturdy.deposit_collateral chain "DAI" "5" (some "0xa") "0xa" none "success" none start
    ≡ (ok tt, deposited)
unfolding as_reserve_data borrow_rates calc_compounded_interest calc_expected_a_token_balance
    calc_expected_interest_rates calc_expected_liquidity_index calc_expected_overall_borrow_rate
    calc_expected_reserve_data_after_deposit calc_expected_reserve_normalized_debt
    calc_expected_reserve_normalized_income calc_expected_scaled_a_token_balance
    calc_expected_stable_debt_token_balance calc_expected_total_stable_debt
    calc_expected_total_variable_debt calc_expected_user_data_after_deposit
    calc_expected_utilization_rate calc_expected_variable_borrow_index
    calc_expected_variable_debt_token_balance collateral_after_deposit collateral_enabled
    compare_both compare_reserve compare_user convert_to_currency_decimals Sturdy.deposit_collateral
    Sturdy.get_contracts_data Sturdy.get_user_data Sturdy.get_reserve_address_from_symbol
    expect_equal get_a_token get_a_token_user_data get_ierc20_detailed get_lending_rate_oracle
    get_mintable_erc20 get_reserve_data get_stable_debt_token get_tx_cost_and_timestamp
    get_variable_debt_token half_percentage_unit half_ray half_ray_unit instance_at lookup passes
    percent_mul rates_below rates_of ray ray_div ray_mul reserve_of time_latest transact_and_compare
    user_of value_of
deposit_collateral_run = refl

deposit_collateral-Accepted_example :
    (Sturdy.deposit_collateral chain "DAI" "5" (some "0xa") "0xa" none "success" none start
      ≡ (ok tt, deposited))
    ↔ Accepted chain refl "0xa"
        (Call.deposit_collateral "0x01" (pos 5) none)
        (Sturdy.get_contracts_data chain "0x01" "0xa" (some "0xa"))
        (λ after time.
          calc_expected_reserve_data_after_deposit integers market (pos 5) (reserve_at start) time)
        (λ after expected time.
          calc_expected_user_data_after_deposit integers market
            (pos 5)
            (reserve_at start)
            (as_reserve_data chain expected)
            ((data_at start).user_data)
            time
            "DAI")
        start
        deposited
deposit_collateral-Accepted_example =
    deposit_collateral-Accepted chain refl "DAI" "5" "0xa" none none "0xa" "0x01" (pos 5)
      (data_at start) none start start start start start deposited address_read_sturdy amount_read
      (data_read_sturdy "0xa" (some "0xa")) value_read

deposit_run :
    deposit chain "DAI" "5" (some "0xa") "0xa" none "success" none start ≡ (ok tt, deposited)
unfolding as_reserve_data borrow_rates calc_compounded_interest calc_expected_a_token_balance
    calc_expected_interest_rates calc_expected_liquidity_index calc_expected_overall_borrow_rate
    calc_expected_reserve_data_after_deposit calc_expected_reserve_normalized_debt
    calc_expected_reserve_normalized_income calc_expected_scaled_a_token_balance
    calc_expected_stable_debt_token_balance calc_expected_total_stable_debt
    calc_expected_total_variable_debt calc_expected_user_data_after_deposit
    calc_expected_utilization_rate calc_expected_variable_borrow_index
    calc_expected_variable_debt_token_balance collateral_after_deposit collateral_enabled
    compare_both compare_reserve compare_user convert_to_currency_decimals deposit expect_equal
    get_a_token get_a_token_user_data get_contracts_data get_ierc20_detailed get_lending_rate_oracle
    get_mintable_erc20 get_reserve_address_from_symbol get_reserve_data get_stable_debt_token
    get_tx_cost_and_timestamp get_user_data get_variable_debt_token half_percentage_unit half_ray
    half_ray_unit instance_at lookup passes percent_mul rates_below rates_of ray ray_div ray_mul
    reserve_of time_latest transact_and_compare user_of value_of
deposit_run = refl

borrow_run :
    borrow chain "DAI" "5" "2" (some "0xa") "0xa" none "success" none start ≡ (ok tt, borrowed)
unfolding after_variable_borrow as_rate_mode as_reserve_data borrow borrow_rates borrowed_debt
    calc_compounded_interest calc_expected_a_token_balance calc_expected_interest_rates
    calc_expected_liquidity_index calc_expected_overall_borrow_rate
    calc_expected_reserve_data_after_borrow calc_expected_reserve_normalized_debt
    calc_expected_reserve_normalized_income calc_expected_stable_debt_token_balance
    calc_expected_total_stable_debt calc_expected_user_data_after_borrow
    calc_expected_utilization_rate calc_expected_variable_borrow_index calc_linear_interest
    compare_both compare_reserve compare_user convert_to_currency_decimals expect_equal get_a_token
    get_a_token_user_data get_contracts_data get_ierc20_detailed get_lending_rate_oracle
    get_mintable_erc20 get_reserve_address_from_symbol get_reserve_data get_stable_debt_token
    get_tx_cost_and_timestamp get_user_data get_variable_debt_token half_percentage_unit half_ray
    half_ray_unit instance_at lookup passes percent_mul rates_below rates_of ray_div ray_mul
    reserve_of time_latest transact_then_compare travel user_of wad_to_ray
borrow_run = refl

deposit-Tracks_example :
    Tracks integers-IsExact chain refl "0xa"
      (Call.deposit "0x01" (pos 5) "0xa" none)
      (get_contracts_data chain "0x01" "0xa" (some "0xa"))
      (data_at start)
      (λ a. a +ℤ pos 5)
      start
      deposited
deposit-Tracks_example =
    deposit-Tracks integers-IsExact chain refl "DAI" "5" "0xa" none none "0xa" "0x01" (pos 5)
      (data_at start) none start start start start start deposited address_read amount_read
      (data_read "0xa" (some "0xa")) value_read deposit_run

borrow-Tracks_example :
    TracksThen integers-IsExact chain refl "0xa"
      (Call.borrow "0x01" (pos 5) "2" "0xa")
      (travel chain none)
      (get_contracts_data chain "0x01" "0xa" (some "0xa"))
      (data_at start)
      (λ a. a -ℤ pos 5)
      start
      borrowed
borrow-Tracks_example =
    borrow-Tracks integers-IsExact chain refl "DAI" "5" "2" "0xa" none none "0xa" "0x01" (pos 5)
      (data_at start) start start start start borrowed address_read (data_read "0xa" (some "0xa"))
      amount_read borrow_run

deposit-Accepted_example :
    (deposit chain "DAI" "5" (some "0xa") "0xa" none "success" none start ≡ (ok tt, deposited))
    ↔ Accepted chain refl "0xa"
        (Call.deposit "0x01" (pos 5) "0xa" none)
        (get_contracts_data chain "0x01" "0xa" (some "0xa"))
        (λ after time.
          calc_expected_reserve_data_after_deposit integers market (pos 5) (reserve_at start) time)
        (λ after expected time.
          calc_expected_user_data_after_deposit integers market
            (pos 5)
            (reserve_at start)
            (as_reserve_data chain expected)
            ((data_at start).user_data)
            time
            "DAI")
        start
        deposited
deposit-Accepted_example =
    deposit-Accepted chain refl "DAI" "5" "0xa" none none "0xa" "0x01" (pos 5) (data_at start) none
      start start start start start deposited address_read amount_read
      (data_read "0xa" (some "0xa")) value_read

deposit-Exclusive_example : ¬ (
    deposit chain "DAI" "5" (some "0xa") "0xa" none "revert" (some "paused") start ≡ (ok tt, start))
deposit-Exclusive_example =
    deposit-Exclusive chain matcher "DAI" "5" "0xa" "0xa" none none (some "paused") start deposited
      start deposit_run
