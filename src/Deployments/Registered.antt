-- ===== src/Deployments/Registered.antt =====
-- When a deployment behind a proxy ends, the file and the addresses provider agree.
use code4rena_may.Base.{String, List, [], ◌∷◌, ◌++◌, Option, none, some, ◌≡◌, sym, ap, subst, ◌∙◌}
use code4rena_may.Effects.{
  Result, ok, thrown, Action, pure, throw, continue, continue-ok, ◌>>=◌, ◌>>◌,
}
use code4rena_may.Deployments.{Deployer, insert_contract_address_in_db, connect}

-- The file of the deployed contracts: what was written under a key is read, and reading leaves the world.
pub record IsDatabase (D : Deployer) : Type 0 where
  pub get-set :
      (key address : String) (w v : D.World)
      → D.db_set key address w ≡ (ok tt, v)
      → D.db_get key v ≡ (ok (some address), v)

-- If the run ends without a throw, it returns an address that the provider gave for the key in the
-- course of it, and in the world that it leaves the file has that address under the id.
abbrev pub Registers : (D : Deployer) → String → String → Action D.World String → Type 0
Registers D key id m =
    (w v : D.World) (address : String)
    → m w ≡ (ok address, v)
    → (u u1 : D.World) × (D.get_address key u ≡ (ok address, u1))
      × (D.db_get id v ≡ (ok (some address), v))

module _ (D : Deployer) where
  pub after-Registers :
      {A : Type 0} {key id : String} (m : Action D.World A) {k : A → Action D.World String}
      → ((a : A) → Registers D key id (k a))
      → Registers D key id (m >>= k)
  after-Registers m {k} later w v address h =
      let (a, w1, first, rest) = continue-ok k (m w) address v h in later a w1 v address rest

  given_entry : Option String → Action D.World String
  given_entry entry = elim entry [ none ↦ throw "TypeError" | some a ↦ pure a ]

  returned : Result String × D.World → String
  returned (ok a, w) = a
  returned (thrown e, w) = e

  pub last-Registers :
      IsDatabase D
      → (key id : String)
      → Registers D key id
          (D.get_address key >>= λ proxy. insert_contract_address_in_db D id proxy >> connect D id)
  unfolding insert_contract_address_in_db connect given_entry returned
  last-Registers I key id w v address h =
      let (proxy, u1, got, rest) =
        continue-ok (λ a. insert_contract_address_in_db D id a >> connect D id)
          (D.get_address key w) address v h in
      let (u, w2, set, run) =
        continue-ok (λ _. connect D id) (D.db_set id proxy u1) address v rest in
      let found : D.db_get id w2 ≡ (ok (some proxy), w2) = I.get-set id proxy u1 w2 set in
      let same : (ok proxy, w2) ≡ (ok address, v) = sym (ap (continue given_entry) found) ∙ run in
      let address_same : proxy ≡ address = ap returned same in
      let world_same : w2 ≡ v = ap (λ p. p.1) same in
      (
        w,
        u1,
        got ∙ ap (λ a. (ok a, u1)) address_same,
        subst (λ x. D.db_get id x ≡ (ok (some address), x)) world_same
            (found ∙ ap (λ a. (ok (some a), w2)) address_same),
      )

abbrev pub Entry : Deployer → Type 0
Entry D = String × String × Action D.World String

-- Every deployment of the list registers its address under its key and its id.
abbrev pub AllRegister : (D : Deployer) → List (Entry D) → Type 0
AllRegister D [] = Unit
AllRegister D (e ∷ es) = Registers D (e.0) (e.1) (e.2) × AllRegister D es

pub AllRegister-append :
    (D : Deployer) (es fs : List (Entry D))
    → AllRegister D es
    → AllRegister D fs
    → AllRegister D (es ++ fs)
AllRegister-append D [] fs r s = s
AllRegister-append D (e ∷ es) fs r s = (r.0, AllRegister-append D es fs (r.1) s)
