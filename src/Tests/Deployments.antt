-- ===== src/Tests/Deployments.antt =====
-- The property of the deployments at a deployer whose world is the file of the deployed contracts.
use text.Mathlib.TextPositions.{eq_refl}
use Prim.Native.String.{◌++◌}
use code4rena_may.Base.{String, true, false, [], ◌∷◌, some, if◌then◌else◌, ◌≡◌, refl, ap, subst}
use code4rena_may.Effects.{ok}
use code4rena_may.Market.{SymbolMap, lookup}
use code4rena_may.Deployments.{
  Deployer, with_save_and_verify, insert_contract_address_in_db, connect,
  register_contract_in_json_db,
}
use code4rena_may.Deployments.Registered.{IsDatabase, AllRegister}
use code4rena_may.Deployments.Addresses.{deployments, deployments-AllRegister}
use code4rena_may.Deployments.Saved.{IsArchive, AllSaved}
use code4rena_may.Deployments.Getters.{deployments_and_getters, deployments_and_getters-AllSaved}
use code4rena_may.Deployments.Fantom.{deploy_yearn_vault, get_yearn_vault}

-- The last entry stands in front.
abbrev filing : Deployer
filing = record {
  World = SymbolMap String;
  param = λ m f. f;
  deploy_yield_manager_libraries = λ v w. (ok [], w);
  deploy_yearn_reth_wsteth_vault_libraries = λ v w. (ok [], w);
  construct = λ name ls w. (ok ("new " ++ name), w);
  deploy_with = λ name as1 w. (ok ("new " ++ name), w);
  wait_for_deployment = λ i w. (ok tt, w);
  verify_contract = λ id i as1 w. (ok tt, w);
  db_set = λ k a w. (ok tt, (k, a) ∷ w);
  db_get = λ k w. (ok (lookup k w), w);
  addresses_provider = λ w. (ok tt, w);
  set_address_as_proxy = λ k a w. (ok tt, w);
  set_address = λ k a w. (ok tt, w);
  get_address = λ k w. (ok ("proxy of " ++ k), w);
}

filing-IsDatabase : IsDatabase filing
unfolding lookup
filing-IsDatabase = record {
  get-set = λ key address w v h.
      let file : (key, address) ∷ w ≡ v = ap (λ p. p.1) h in
      subst (λ x. filing.db_get key x ≡ (ok (some address), x)) file
        (ap (λ b. (ok (if b then some address else lookup key w), (key, address) ∷ w))
          (eq_refl key));
}

runs : deploy_yearn_vault filing false [] ≡ (
  ok "proxy of YEARN_VAULT",
  ("YearnVault", "proxy of YEARN_VAULT") ∷ ("YearnVaultImpl", "new YearnVault") ∷ [],
)
unfolding deploy_yearn_vault get_yearn_vault with_save_and_verify insert_contract_address_in_db
    connect register_contract_in_json_db lookup
runs = refl

deployments-AllRegister_example : AllRegister filing (deployments filing false)
deployments-AllRegister_example = deployments-AllRegister filing filing-IsDatabase false

filing-IsArchive : IsArchive filing
filing-IsArchive = record {
  database = filing-IsDatabase;
  get-verify = λ key address id i as1 w v h e.
      subst (λ x. filing.db_get key x ≡ (ok (some address), x)) (ap (λ p. p.1) e) h;
}

deployments_and_getters-AllSaved_example :
    AllSaved filing (deployments_and_getters filing "Sturdy" ("0x01" ∷ "0x02" ∷ []) true)
deployments_and_getters-AllSaved_example =
    deployments_and_getters-AllSaved filing "Sturdy" ("0x01" ∷ "0x02" ∷ []) true filing-IsArchive
