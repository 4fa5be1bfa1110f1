-- ===== src/Market/Embed.antt =====
-- Data of a reserve or of a user whose numbers are natural, as data of big numbers.
use code4rena_may.Base.{ℕ, Option, none, some}
use code4rena_may.BigNumber.{BigNumber}
use code4rena_may.BigNumber.Laws.{nat}
use code4rena_may.Market.{ReserveData, UserReserveData}

module _ (B : BigNumber) where
  open B use {BN}

  abbrev pub reserve : ReserveData ℕ → ReserveData BN
  reserve r = record {
    address = r.address;
    symbol = r.symbol;
    decimals = nat B r.decimals;
    total_liquidity = nat B r.total_liquidity;
    available_liquidity = nat B r.available_liquidity;
    total_stable_debt = nat B r.total_stable_debt;
    total_variable_debt = nat B r.total_variable_debt;
    principal_stable_debt = nat B r.principal_stable_debt;
    scaled_variable_debt = nat B r.scaled_variable_debt;
    average_stable_borrow_rate = nat B r.average_stable_borrow_rate;
    variable_borrow_rate = nat B r.variable_borrow_rate;
    stable_borrow_rate = nat B r.stable_borrow_rate;
    utilization_rate = nat B r.utilization_rate;
    liquidity_index = nat B r.liquidity_index;
    variable_borrow_index = nat B r.variable_borrow_index;
    a_token_address = r.a_token_address;
    market_stable_rate = nat B r.market_stable_rate;
    last_update_timestamp = nat B r.last_update_timestamp;
    total_stable_debt_last_updated = nat B r.total_stable_debt_last_updated;
    liquidity_rate = nat B r.liquidity_rate;
  }

  abbrev pub optional : Option ℕ → Option BN
  optional none = none
  optional (some n) = some (nat B n)

  abbrev pub user : UserReserveData ℕ → UserReserveData BN
  user u = record {
    scaled_a_token_balance = nat B u.scaled_a_token_balance;
    current_a_token_balance = nat B u.current_a_token_balance;
    current_stable_debt = nat B u.current_stable_debt;
    current_variable_debt = nat B u.current_variable_debt;
    principal_stable_debt = nat B u.principal_stable_debt;
    scaled_variable_debt = nat B u.scaled_variable_debt;
    liquidity_rate = nat B u.liquidity_rate;
    stable_borrow_rate = nat B u.stable_borrow_rate;
    stable_rate_last_updated = nat B u.stable_rate_last_updated;
    usage_as_collateral_enabled = u.usage_as_collateral_enabled;
    wallet_balance = nat B u.wallet_balance;
    variable_borrow_index = optional u.variable_borrow_index;
    principal_variable_debt = optional u.principal_variable_debt;
  }
