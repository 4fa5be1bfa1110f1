-- ===== src/Deployments/Saved.antt =====
-- A contract that is deployed is the one that its getter finds.
use code4rena_may.Base.{
  String, Bool, true, false, List, [], ◌∷◌, ◌++◌, Option, none, some, ◌≡◌, refl, ap, subst, ◌∙◌,
  if◌then◌else◌,
}
use code4rena_may.Effects.{ok, Action, pure, continue-ok, ◌>>=◌}
use code4rena_may.Deployments.{
  Deployer, with_save_and_verify, register_contract_in_json_db, connect, connect_at,
}
use code4rena_may.Deployments.Registered.{IsDatabase}

-- What was written under a key is read, and a verification leaves what can be read.
pub record IsArchive (D : Deployer) : Type 0 where
  pub database : IsDatabase D
  pub get-verify :
      (key address id instance1 : String) (args : List String) (w v : D.World)
      → D.db_get key w ≡ (ok (some address), w)
      → D.verify_contract id instance1 args w ≡ (ok tt, v)
      → D.db_get key v ≡ (ok (some address), v)

-- If the deployment ends without a throw, the getter without an address finds what it returns.
abbrev pub Saved :
    (D : Deployer) → Action D.World String → (Option String → Action D.World String) → Type 0
Saved D deployment getter =
    (w v : D.World) (address : String)
    → deployment w ≡ (ok address, v)
    → getter none v ≡ (ok address, v)

abbrev pub Pair : Deployer → Type 0
Pair D = Action D.World String × (Option String → Action D.World String)

abbrev pub AllSaved : (D : Deployer) → List (Pair D) → Type 0
AllSaved D [] = Unit
AllSaved D (p ∷ ps) = Saved D (p.0) (p.1) × AllSaved D ps

pub AllSaved-append :
    (D : Deployer) (ps qs : List (Pair D)) → AllSaved D ps → AllSaved D qs → AllSaved D (ps ++ qs)
AllSaved-append D [] qs r s = s
AllSaved-append D (p ∷ ps) qs r s = (r.0, AllSaved-append D ps qs (r.1) s)

module _ (D : Deployer) (I : IsArchive D) where
  found-connect :
      (id address : String) (v : D.World)
      → D.db_get id v ≡ (ok (some address), v)
      → connect_at D id none v ≡ (ok address, v)
  unfolding connect_at connect
  found-connect id address v h = rw h refl

  kept :
      (id instance1 : String) (args : List String) (verify : Bool) (w v : D.World)
      → D.db_get id w ≡ (ok (some instance1), w)
      → (if verify then D.verify_contract id instance1 args else pure tt) w ≡ (ok tt, v)
      → D.db_get id v ≡ (ok (some instance1), v)
  kept id instance1 args true w v h e = I.get-verify id instance1 id instance1 args w v h e
  kept id instance1 args false w v h e =
      subst (λ x. D.db_get id x ≡ (ok (some instance1), x)) (ap (λ p. p.1) e) h

  save-Saved :
      (id instance1 : String) (args : List String) (verify : Bool) (w v : D.World)
      (address : String)
      → with_save_and_verify D instance1 id args verify w ≡ (ok address, v)
      → connect_at D id none v ≡ (ok address, v)
  unfolding with_save_and_verify register_contract_in_json_db
  save-Saved id instance1 args verify w v address h =
      let (u, w1, waited, h1) = continue-ok _ (D.wait_for_deployment instance1 w) address v h in
      let (u1, w2, set, h2) = continue-ok _ (D.db_set id instance1 w1) address v h1 in
      let (u2, w3, verified, h3) =
        continue-ok (λ _. pure instance1)
          ((if verify then D.verify_contract id instance1 args else pure tt) w2) address v h2 in
      let entry =
        kept id instance1 args verify w2 w3 (I.database.get-set id instance1 w1 w2 set) verified in
      let same : w3 ≡ v = ap (λ p. p.1) h3 in
      subst (λ x. connect_at D id none x ≡ (ok instance1, x)) same
        (found-connect id instance1 w3 entry)
      ∙ ap (λ p. (p.0, v)) h3

  pub saved :
      (id : String) (verify : Bool) (args : List String) (deployed : Action D.World String)
      → Saved D (deployed >>= λ i. with_save_and_verify D i id args verify) (connect_at D id)
  saved id verify args deployed w v address h =
      let (i, w1, built, h1) = continue-ok _ (deployed w) address v h in
      save-Saved id i args verify w1 v address h1
