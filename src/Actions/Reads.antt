-- ===== src/Actions/Reads.antt =====
-- What the actions read: test-suites/test-ftm/helpers/utils/helpers.ts, the end of actions.ts, and the
-- getters and conversions that they call. The calls that `Promise.all` starts together are made in
-- their order.
use text.Mathlib.Text.{◌==◌ as str_eq}
use code4rena_may.Base.{String, Bool, false, ◌||◌, not, Option, none, some, List, if◌then◌else◌}
use code4rena_may.Base.Int.{ℤ, pos, ◌+ℤ◌, eq_ℤ}
use code4rena_may.BigNumber.{BigNumber}
use code4rena_may.Constants.{max_uint_amount}
use code4rena_may.Effects.{Result, Action, pure, throw, ◌>>=◌, ◌>>◌, for_each}
use code4rena_may.Helpers.Verification.{truthy}
use code4rena_may.Market.{ReserveData, UserReserveData, lookup}
use code4rena_may.Math.{ray_div}
use code4rena_may.Actions.{Chain, Receipt, ReserveReply, TokensReply, UserReply}

-- `reserveData`, `userData` and `timestamp`
pub record ContractsData (BN : Type 0) : Type 0 where
  pub reserve_data : ReserveData BN
  pub user_data : UserReserveData BN
  pub timestamp : BN

-- The first operand if it is truthy, else the second: `a || b`.
abbrev pub or_else : Option String → Option String → Option String
or_else a b = if truthy a then a else b

module _ {B : BigNumber} (C : Chain B) where
  open B use {BN, of_string, plus, multiplied_by, eq}

  -- What throws on `undefined`.
  abbrev pub defined : {A : Type 0} → Option A → Action C.World A
  defined none = throw "TypeError"
  defined (some a) = pure a

  abbrev pub returned : {A : Type 0} → Result A → Action C.World A
  returned r w = (r, w)

  -- A getter of contracts-getters.ts with an optional address: the contract at the address, or at the
  -- one that is saved under the name.
  unfoldable pub instance_at : String → Option String → Action C.World String
  instance_at id given =
      if truthy given then defined given else (C.db_address id >>= λ saved. defined saved)

  unfoldable pub get_a_token : String → Action C.World String
  get_a_token a = instance_at "AToken" (some a)

  unfoldable pub get_stable_debt_token : String → Action C.World String
  get_stable_debt_token a = instance_at "StableDebtToken" (some a)

  unfoldable pub get_variable_debt_token : String → Action C.World String
  get_variable_debt_token a = instance_at "VariableDebtToken" (some a)

  unfoldable pub get_mintable_erc20 : Option String → Action C.World String
  get_mintable_erc20 a = instance_at "MintableERC20" a

  unfoldable pub get_ierc20_detailed : String → Action C.World String
  get_ierc20_detailed a = instance_at "IERC20Detailed" (some a)

  unfoldable pub get_lending_rate_oracle : Option String → Action C.World String
  get_lending_rate_oracle a = instance_at "LendingRateOracle" a

  unfoldable pub convert_to_currency_decimals : String → String → Action C.World ℤ
  convert_to_currency_decimals token_address amount = get_ierc20_detailed token_address >>= λ token.
      C.decimals token >>= λ decimals. returned (C.parse_units amount decimals)

  unfoldable pub time_latest : Action C.World BN
  time_latest = C.latest_timestamp >>= λ t. pure (of_string t)

  unfoldable pub advance_time_and_block : ℤ → Action C.World (Unit {0})
  advance_time_and_block forward_time = C.block_number >>= λ n. C.block_at n >>= λ block.
      elim block [
        | none ↦
            C.provider_send "evm_increaseTime" (some forward_time)
            >> (C.provider_send "evm_mine" none
                >> C.provider_send "evm_increaseTime" (some (pos 15)))
        | some current_time ↦
            C.provider_send "evm_setNextBlockTimestamp" (some (current_time +ℤ forward_time))
            >> C.provider_send "evm_mine" none
      ]

  unfoldable pub impersonate_accounts_hardhat : List String → Action C.World (Unit {0})
  impersonate_accounts_hardhat accounts = elim C.tenderly [
    | none ↦ for_each (C.provider_request "hardhat_impersonateAccount") accounts
    | some t ↦
        if str_eq t "true"
        then pure tt
        else for_each (C.provider_request "hardhat_impersonateAccount") accounts
  ]

  unfoldable pub get_reserve_address_from_symbol : String → Action C.World String
  get_reserve_address_from_symbol symbol =
      let asset = lookup symbol C.reserve_assets in
      if truthy asset
      then get_mintable_erc20 asset
      else (C.db_address symbol >>= λ saved. get_mintable_erc20 saved)

  unfoldable pub get_a_token_user_data : String → String → Action C.World ℤ
  get_a_token_user_data reserve user = C.reserve_tokens_addresses reserve >>= λ tokens.
      get_a_token tokens.a_token_address >>= λ a_token. C.scaled_balance_of a_token user

  -- The object that getReserveData returns.
  unfoldable pub reserve_of :
      String → ReserveReply → TokensReply → ℤ → ℤ → ℤ → ℤ → String → ℤ → ReserveData BN
  reserve_of reserve reply tokens principal updated scaled rate symbol decimals =
      let available_liquidity = of_string reply.available_liquidity in
      let total_stable_debt = of_string reply.total_stable_debt in
      let total_variable_debt = of_string reply.total_variable_debt in
      let total_liquidity = plus (plus available_liquidity total_stable_debt) total_variable_debt in
      let total_debt = plus total_stable_debt total_variable_debt in
      record {
        address = reserve;
        symbol = symbol;
        decimals = of_string decimals;
        total_liquidity = total_liquidity;
        available_liquidity = available_liquidity;
        total_stable_debt = total_stable_debt;
        total_variable_debt = total_variable_debt;
        principal_stable_debt = of_string principal;
        scaled_variable_debt = of_string scaled;
        average_stable_borrow_rate = of_string reply.average_stable_borrow_rate;
        variable_borrow_rate = of_string reply.variable_borrow_rate;
        stable_borrow_rate = of_string reply.stable_borrow_rate;
        utilization_rate =
            if eq total_liquidity (of_string (pos 0))
            then of_string (pos 0)
            else ray_div B total_debt total_liquidity;
        liquidity_index = of_string reply.liquidity_index;
        variable_borrow_index = of_string reply.variable_borrow_index;
        a_token_address = tokens.a_token_address;
        market_stable_rate = of_string rate;
        last_update_timestamp = of_string reply.last_update_timestamp;
        total_stable_debt_last_updated = of_string updated;
        liquidity_rate = of_string reply.liquidity_rate;
      }

  unfoldable pub get_reserve_data : String → Action C.World (ReserveData BN)
  get_reserve_data reserve = C.reserve_data reserve >>= λ reply.
      C.reserve_tokens_addresses reserve >>= λ tokens. get_lending_rate_oracle none >>= λ oracle.
      get_ierc20_detailed reserve >>= λ token.
      get_stable_debt_token tokens.stable_debt_token_address >>= λ stable.
      get_variable_debt_token tokens.variable_debt_token_address >>= λ variable.
      C.principal_supply stable >>= λ principal. C.total_supply_last_updated stable >>= λ updated.
      C.scaled_total_supply variable >>= λ scaled. C.market_borrow_rate oracle reserve >>= λ rate.
      C.symbol token >>= λ symbol. C.decimals token >>= λ decimals.
      pure (reserve_of reserve reply tokens principal updated scaled rate symbol decimals)

  -- The object that getUserData returns.
  unfoldable pub user_of : UserReply → ℤ → ℤ → UserReserveData BN
  user_of reply scaled wallet = record {
    scaled_a_token_balance = of_string scaled;
    current_a_token_balance = of_string reply.current_a_token_balance;
    current_stable_debt = of_string reply.current_stable_debt;
    current_variable_debt = of_string reply.current_variable_debt;
    principal_stable_debt = of_string reply.principal_stable_debt;
    scaled_variable_debt = of_string reply.scaled_variable_debt;
    liquidity_rate = of_string reply.liquidity_rate;
    stable_borrow_rate = of_string reply.stable_borrow_rate;
    stable_rate_last_updated = of_string reply.stable_rate_last_updated;
    usage_as_collateral_enabled = reply.usage_as_collateral_enabled;
    wallet_balance = of_string wallet;
    variable_borrow_index = none;
    principal_variable_debt = none;
  }

  -- `reserve == reserveAssets.yvWFTM`
  abbrev pub is_yv_wftm : String → Bool
  is_yv_wftm reserve = elim (lookup "yvWFTM" C.reserve_assets) [
    | none ↦ false
    | some a ↦ str_eq reserve a
  ]

  unfoldable pub get_user_data : String → String → String → Action C.World (UserReserveData BN)
  get_user_data reserve user sender = C.user_reserve_data reserve user >>= λ reply.
      get_a_token_user_data reserve user >>= λ scaled.
      get_mintable_erc20 (some reserve) >>= λ token.
      (if is_yv_wftm reserve then get_mintable_erc20 (some C.config_wftm) else pure token)
      >>= λ token. C.balance_of token (if str_eq sender "" then user else sender) >>= λ wallet.
          pure (user_of reply scaled wallet)

  -- The third argument is `sender || user`.
  unfoldable pub get_contracts_data :
      String → String → Option String → Action C.World (ContractsData BN)
  get_contracts_data reserve user sender =
      get_user_data reserve user
        (elim sender [ none ↦ user | some s ↦ if str_eq s "" then user else s ])
      >>= λ user_data. get_reserve_data reserve >>= λ reserve_data. time_latest >>= λ timestamp.
          pure
            (record { reserve_data = reserve_data; user_data = user_data; timestamp = timestamp })

  -- The reserve and its data. The instance of the token, which no action uses, is connected to.
  unfoldable pub get_data_before_action :
      String → String → Action C.World (String × ContractsData BN)
  get_data_before_action reserve_symbol user =
      get_reserve_address_from_symbol reserve_symbol >>= λ reserve.
      get_contracts_data reserve user none >>= λ data1.
      get_a_token data1.reserve_data.a_token_address >>= λ a_token. pure (reserve, data1)

  -- A number that is there and not 0.
  abbrev pub nonzero : Option ℤ → Bool
  nonzero none = false
  nonzero (some n) = not (eq_ℤ n (pos 0))

  -- The cost and the time of a transaction.
  unfoldable pub get_tx_cost_and_timestamp : Receipt → Action C.World (BN × BN)
  get_tx_cost_and_timestamp tx = elim tx.cumulative_gas_used [
    | none ↦ throw "No tx blocknumber"
    | some gas ↦
        if not (nonzero tx.block_number) || not (truthy tx.transaction_hash)
        then throw "No tx blocknumber"
        else (defined tx.block_number >>= λ n. C.block_timestamp n >>= λ time.
            defined tx.transaction_hash >>= λ hash. C.gas_price hash >>= λ price.
            pure (multiplied_by (of_string gas) (of_string price), of_string time))
  ]

  -- `'-1'` is everything; the address is the one whose decimals count.
  unfoldable pub amount_or_all : String → String → Action C.World ℤ
  amount_or_all token amount =
      if str_eq amount "-1" then pure max_uint_amount else convert_to_currency_decimals token amount

  -- `txOptions.value`
  unfoldable pub value_of : String → Option String → Action C.World (Option ℤ)
  value_of token none = pure none
  value_of token (some value) =
      if str_eq value ""
      then pure none
      else (convert_to_currency_decimals token value >>= λ v. pure (some v))
