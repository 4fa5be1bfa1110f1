-- ===== src/Actions.antt =====
-- test-suites/test-ftm/helpers/actions.ts: the actions of a scenario. Each sends a transaction and
-- compares what the contracts then hold with what the calculations expect.
pub mod Reads
pub mod Equality
pub mod Steps
pub mod Supply
pub mod Debt
pub mod Tolerance
pub mod Agreement
pub mod Checked
pub mod Verdicts
pub mod Reverts
pub mod Engine
pub mod Keeps
pub mod Silent
pub mod Readings
pub mod Tracking
pub mod Sturdy
use code4rena_may.Base.{String, Bool, Option}
use code4rena_may.Base.Int.{ℤ}
use code4rena_may.BigNumber.{BigNumber}
use code4rena_may.Effects.{Result, Action}
use code4rena_may.Market.{SymbolMap, ReserveParams}

-- The answers of `SturdyProtocolDataProvider`.
pub record ReserveReply : Type 0 where
  pub available_liquidity : ℤ
  pub total_stable_debt : ℤ
  pub total_variable_debt : ℤ
  pub liquidity_rate : ℤ
  pub variable_borrow_rate : ℤ
  pub stable_borrow_rate : ℤ
  pub average_stable_borrow_rate : ℤ
  pub liquidity_index : ℤ
  pub variable_borrow_index : ℤ
  pub last_update_timestamp : ℤ

pub record TokensReply : Type 0 where
  pub a_token_address : String
  pub stable_debt_token_address : String
  pub variable_debt_token_address : String

pub record UserReply : Type 0 where
  pub current_a_token_balance : ℤ
  pub current_stable_debt : ℤ
  pub current_variable_debt : ℤ
  pub principal_stable_debt : ℤ
  pub scaled_variable_debt : ℤ
  pub stable_borrow_rate : ℤ
  pub liquidity_rate : ℤ
  pub stable_rate_last_updated : ℤ
  pub usage_as_collateral_enabled : Bool

-- `ContractReceipt`: what is missing is `none`.
pub record Receipt : Type 0 where
  pub block_number : Option ℤ
  pub transaction_hash : Option String
  pub cumulative_gas_used : Option ℤ

-- The calls that the actions make. A token is named first. A rate mode is the string of the scenario,
-- the referral code of the pool's calls is always 0, and the last argument that is optional is
-- `txOptions.value`.
pub data Call : Type 0 where
  transfer : (token : String) (to : String) (amount : ℤ) → Call
  approve : (token : String) (spender : String) (amount : ℤ) → Call
  approve_delegation : (token : String) (receiver : String) (amount : ℤ) → Call
  deposit : (reserve : String) (amount : ℤ) (on_behalf_of : String) (value : Option ℤ) → Call
  deposit_collateral : (asset : String) (amount : ℤ) (value : Option ℤ) → Call
  withdraw : (reserve : String) (amount : ℤ) (to : String) → Call
  withdraw_collateral : (asset : String) (amount : ℤ) (to : String) → Call
  borrow : (reserve : String) (amount : ℤ) (mode : String) (on_behalf_of : String) → Call
  repay :
      (reserve : String) (amount : ℤ) (mode : String) (on_behalf_of : String) (value : Option ℤ)
      → Call
  set_user_use_reserve_as_collateral : (reserve : String) (use_as_collateral : Bool) → Call

-- The contracts, hardhat, ethers, the file of the deployed contracts and the configuration of the
-- network. A contract is its address, and a number that the code keeps as a string is the integer.
pub record Chain (B : BigNumber) : Type 1 where
  pub World : Type 0
  -- `SignerWithAddress`
  pub User : Type 0
  pub address : User → String
  -- `ethers.provider.getSigner(address)`
  pub signer_at : String → Action World User
  -- A promise of a transaction, and `tx.wait(1)`
  pub Tx : Type 0
  pub send : User → Call → Action World Tx
  pub wait : Tx → Action World Receipt
  -- `expect(promise, message).to.be.reverted` and `.to.be.revertedWith(reason)`
  pub expect_reverted : Action World Tx → Option String → Action World (Unit {0})
  pub expect_reverted_with : Action World Tx → String → Action World (Unit {0})
  -- `getDb().get(id.network).value()?.address`
  pub db_address : String → Action World (Option String)
  -- The methods of the contracts that are called for their answer
  pub reserve_data : String → Action World ReserveReply
  pub reserve_tokens_addresses : String → Action World TokensReply
  pub user_reserve_data : String → String → Action World UserReply
  pub pool_tokens : String → Action World TokensReply
  pub principal_supply : String → Action World ℤ
  pub total_supply_last_updated : String → Action World ℤ
  pub scaled_total_supply : String → Action World ℤ
  pub scaled_balance_of : String → String → Action World ℤ
  pub market_borrow_rate : String → String → Action World ℤ
  pub symbol : String → Action World String
  pub decimals : String → Action World ℤ
  pub balance_of : String → String → Action World ℤ
  pub borrow_allowance : String → String → String → Action World ℤ
  -- `ethers.utils.parseUnits(amount, decimals)`
  pub parse_units : String → ℤ → Result ℤ
  -- The provider: the latest block's time, the time of a block, the price of a transaction's gas
  pub latest_timestamp : Action World ℤ
  pub block_timestamp : ℤ → Action World ℤ
  pub gas_price : String → Action World ℤ
  pub block_number : Action World ℤ
  -- `none` is a block that is `null`.
  pub block_at : ℤ → Action World (Option ℤ)
  pub provider_send : String → Option ℤ → Action World (Unit {0})
  pub provider_request : String → String → Action World (Unit {0})
  pub tenderly : Option String
  -- `new BigNumber(s)` of a scenario's string, and `toNumber()`
  pub big_number : String → B.BN
  pub to_number : B.BN → ℤ
  pub to_lower_case : String → String
  pub to_locale_lower_case : String → String
  -- `testEnv`
  pub pool_address : String
  pub yearn_vault : String
  pub usdc : String
  pub dai : String
  pub wftm : String
  -- `configuration.skipIntegrityCheck` and `configuration.reservesParams`
  pub skip_integrity_check : Bool
  pub reserves_params : SymbolMap ReserveParams
  -- `loadPoolConfig(ConfigNames.Fantom)`, for the network
  pub reserves_config : SymbolMap ReserveParams
  pub reserve_assets : SymbolMap String
  pub config_wftm : String
  -- `undefined`, which the calculations of a user's data never read
  pub undefined : B.BN
