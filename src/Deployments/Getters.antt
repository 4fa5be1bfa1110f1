-- ===== src/Deployments/Getters.antt =====
-- The deployments that have a getter.
use code4rena_may.Base.{String, Bool, List, ◌++◌}
use code4rena_may.Deployments.{Deployer}
use code4rena_may.Deployments.Saved.{IsArchive, Pair, AllSaved, AllSaved-append}
use code4rena_may.Deployments.Oracles.Saved.{
  pairs as oracle_pairs, pairs-AllSaved as oracle_pairs-AllSaved,
}
use code4rena_may.Deployments.Core.Saved.{
  pairs as core_pairs, pairs-AllSaved as core_pairs-AllSaved,
}
use code4rena_may.Deployments.Vaults.Saved.{
  pairs as vault_pairs, pairs-AllSaved as vault_pairs-AllSaved,
}
use code4rena_may.Deployments.Mocks.Saved.{
  pairs as mock_pairs, pairs-AllSaved as mock_pairs-AllSaved,
}

module _ (D : Deployer) (one : String) (args : List String) (verify : Bool) where
  abbrev vaults_and_mocks : List (Pair D)
  vaults_and_mocks = vault_pairs D one args verify ++ mock_pairs D one args verify

  -- The deployments, at any arguments, with the getters of the same contracts.
  abbrev pub deployments_and_getters : List (Pair D)
  deployments_and_getters =
      oracle_pairs D one args verify ++ (core_pairs D one args verify ++ vaults_and_mocks)

  -- If the file of the deployed contracts gives what was last written under a key, and a
  -- verification leaves what it gives, then for each of the 37 deployments of the list, with any
  -- arguments: where it ends without a throw, its getter without an address then finds the contract
  -- that it returned.
  pub deployments_and_getters-AllSaved : IsArchive D → AllSaved D deployments_and_getters
  deployments_and_getters-AllSaved I =
      let vaults =
        AllSaved-append D (vault_pairs D one args verify) (mock_pairs D one args verify)
          (vault_pairs-AllSaved D one args verify I) (mock_pairs-AllSaved D one args verify I) in
      let core =
        AllSaved-append D (core_pairs D one args verify) vaults_and_mocks
          (core_pairs-AllSaved D one args verify I) vaults in
      AllSaved-append D (oracle_pairs D one args verify)
        (core_pairs D one args verify ++ vaults_and_mocks)
        (oracle_pairs-AllSaved D one args verify I) core
