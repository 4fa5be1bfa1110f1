-- ===== src/Deployments/Addresses.antt =====
-- All deployments behind a proxy.
use code4rena_may.Base.{Bool, List, ◌++◌}
use code4rena_may.Deployments.{Deployer}
use code4rena_may.Deployments.Registered.{IsDatabase, Entry, AllRegister, AllRegister-append}
use code4rena_may.Deployments.Sturdy.Addresses.{
  entries as sturdy_entries, entries-AllRegister as sturdy_entries-AllRegister,
}
use code4rena_may.Deployments.Fantom.Addresses.{
  entries as fantom_entries, entries-AllRegister as fantom_entries-AllRegister,
}

-- The key of the proxy, the id in the file and the deployment.
abbrev pub deployments : (D : Deployer) → Bool → List (Entry D)
deployments D verify = sturdy_entries D verify ++ fantom_entries D verify

-- If the file of the deployed contracts gives what was last written under a key, then for each of
-- the nineteen deployments of the list: where it ends without a throw, it returns an address that
-- the addresses provider gave, in the course of it, for the key under which the list has it, and
-- leaves that address in the file under its id.
pub deployments-AllRegister :
    (D : Deployer) → IsDatabase D → (verify : Bool) → AllRegister D (deployments D verify)
deployments-AllRegister D I verify =
    AllRegister-append D (sturdy_entries D verify) (fantom_entries D verify)
      (sturdy_entries-AllRegister D I verify) (fantom_entries-AllRegister D I verify)
