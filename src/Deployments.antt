-- ===== src/Deployments.antt =====
-- helpers/contracts-deployments.ts and contracts-helpers.ts: how a contract is deployed, saved in the
-- file of the deployed contracts and verified. The console is left out.
pub mod Registered
pub mod Sturdy
pub mod Fantom
pub mod Addresses
pub mod Oracles
pub mod Core
pub mod Vaults
pub mod Mocks
pub mod Saved
pub mod Getters
use text.Mathlib.Text.{◌==◌ as str_eq}
use code4rena_may.Base.{String, Bool, List, Option, none, some, if◌then◌else◌}
use code4rena_may.Effects.{Action, pure, throw, ◌>>=◌, ◌>>◌}

-- `ConfigNames.Sturdy` and `ConfigNames.Fantom`
pub data Market : Type 0 where
  sturdy fantom : Market

-- What the deployments call, on the current network; an instance is its address.
pub record Deployer : Type 1 where
  pub World : Type 0
  -- `getParamPerNetwork(config.field, network)`
  pub param : Market → String → String
  -- The libraries' addresses, by their placeholders.
  pub deploy_yield_manager_libraries : Bool → Action World (List (String × String))
  pub deploy_yearn_reth_wsteth_vault_libraries : Bool → Action World (List (String × String))
  -- `new <name>Factory(libraries, await getFirstSigner()).deploy()`
  pub construct : String → List (String × String) → Action World String
  -- `new <name>Factory(await getFirstSigner()).deploy(...args)`; an argument is its text.
  pub deploy_with : String → List String → Action World String
  pub wait_for_deployment : String → Action World (Unit {0})
  pub verify_contract : String → String → List String → Action World (Unit {0})
  -- `getDb().set(key, { address }).write()` and `getDb().get(key).value()`, for the network
  pub db_set : String → String → Action World (Unit {0})
  pub db_get : String → Action World (Option String)
  -- The addresses provider of the lending pool, with the transactions waited for. A key stands for its
  -- 32 bytes.
  pub addresses_provider : Action World (Unit {0})
  pub set_address_as_proxy : String → String → Action World (Unit {0})
  pub set_address : String → String → Action World (Unit {0})
  pub get_address : String → Action World String

module _ (D : Deployer) where
  unfoldable pub insert_contract_address_in_db : String → String → Action D.World (Unit {0})
  insert_contract_address_in_db id address = D.db_set id address

  unfoldable pub register_contract_in_json_db : String → String → Action D.World (Unit {0})
  register_contract_in_json_db id instance1 = D.db_set id instance1

  unfoldable pub with_save_and_verify : String → String → List String → Bool → Action D.World String
  with_save_and_verify instance1 id args verify =
      D.wait_for_deployment instance1
      >> (register_contract_in_json_db id instance1
          >> ((if verify then D.verify_contract id instance1 args else pure tt) >> pure instance1))

  -- A getter without an address: the file's entry, whose `address` throws if there is none.
  unfoldable pub connect : String → Action D.World String
  connect id = D.db_get id >>= λ entry. elim entry [ none ↦ throw "TypeError" | some a ↦ pure a ]

  -- A getter: `address || (await getDb().get(...).value()).address`
  unfoldable pub connect_at : String → Option String → Action D.World String
  connect_at id none = connect id
  connect_at id (some address) = if str_eq address "" then connect id else pure address
