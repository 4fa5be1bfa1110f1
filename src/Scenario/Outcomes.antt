-- ===== src/Scenario/Outcomes.antt =====
-- What the outcome of an action can be, and the lemmas on code that only reads.
use code4rena_may.Base.{
  ◌≡◌, refl, ap, ◌∙◌, String, Bool, true, false, ◌&&◌, List, Option, some, none, ◌⊎◌, inl, inr,
  Bool-cases, not, arith, if◌then◌else◌,
}
use code4rena_may.Effects.{ok, thrown, Action as Run, continue, ◌>>=◌, thrown-ok}
use code4rena_may.Helpers.Verification.{truthy}
use code4rena_may.Scenario.{Args, Action, Operations}
use code4rena_may.Scenario.Engine.{
  Name, names, case_of, given, address_of, on_behalf, user_at, rate_mode, user_at_decimal,
}
use text.Mathlib.Text.{◌==◌ as str_eq}

-- What the case needs besides the reserve, the user and the expected result.
abbrev pub supplied : Name → Args → Bool
supplied Name.approve args = true
supplied Name.approve_vault args = true
supplied Name.delegate_borrow_allowance args = truthy (args.to_user) && truthy (args.amount)
supplied Name.set_use_as_collateral args = truthy (args.use_as_collateral)
supplied _ args = truthy (args.amount)

abbrev pub known : Option Name → Args → Bool
known none args = false
known (some n) args = supplied n args

abbrev pub case_of? : Option String → Option Name
case_of? none = none
case_of? (some name) = case_of name names

abbrev pub complete_with : Option Args → Option String → Option String → Bool
complete_with none name expected = false
complete_with (some args) name expected =
    truthy name
    && truthy (args.reserve)
    && truthy (args.user)
    && truthy expected
    && known (case_of? name) args

-- Everything that the action's name asks for is there.
abbrev pub complete : Action → Bool
complete action = complete_with (action.args) (action.name) (action.expected)

module _ {W : Type 0} where
  abbrev pub Throws : {A : Type 0} → Run W A → W → Type 0
  Throws m w = (e : String) × (m w ≡ (thrown e, w))

  -- The world stays.
  abbrev pub Reads : {A : Type 0} → Run W A → Type 0
  Reads {A} m = (w : W) → ((a : A) × (m w ≡ (ok a, w))) ⊎ Throws m w

  pub given-Reads : (message : String) (s : Option String) → Reads (given message s)
  given-Reads message none w = inr (message, refl)
  given-Reads message (some s) w = elim (Bool-cases (str_eq s "")) [
    | inl e ↦ inr (message, simp (e))
    | inr e ↦ inl (s, simp (e))
  ]

  pub given-ok :
      (message : String) (s : Option String) (a : String) (w v : W)
      → given message s w ≡ (ok a, v)
      → s ≡ some a
  given-ok message none a w v h = absurd (thrown-ok (ap (λ p. p.0) h))
  given-ok message (some s) a w v h = elim (Bool-cases (str_eq s "")) [
    | inl e ↦ absurd (thrown-ok (ap (λ p. p.0) (simp (e) at h)))
    | inr e ↦ let run : (ok s, w) ≡ (ok a, v) = simp (e) at h in ap some (cc (ap (λ p. p.0) run))
  ]

  pub given_missing :
      (message : String) (s : Option String) (w : W)
      → truthy s ≡ false
      → given message s w ≡ (thrown message, w)
  given_missing message none w h = refl
  given_missing message (some s) w h = ground arith

  pub given-Throws :
      (message : String) (s : Option String) (k : String → Run W (Unit {0})) (w : W)
      → truthy s ≡ false
      → Throws (given message s >>= k) w
  given-Throws message s k w h = (message, ap (continue k) (given_missing message s w h))

  pub given-bind-Throws :
      (message : String) (s : Option String) (k : String → Run W (Unit {0})) (w : W)
      → ((a : String) → s ≡ some a → truthy s ≡ true → Throws (k a) w)
      → Throws (given message s >>= k) w
  given-bind-Throws message none k w h = (message, refl)
  given-bind-Throws message (some a) k w h = elim (Bool-cases (str_eq a "")) [
    | inl e ↦ (message, ap (continue k) (given_missing message (some a) w (ap not e)))
    | inr e ↦
        let (err, q) = h a refl (ap not e) in
        let read : given message (some a) w ≡ (ok a, w) = simp (e) in
        (err, ap (continue k) read ∙ q)
  ]

  module _ {A : Type 0} {m : Run W A} (read : Reads m) (k : A → Run W (Unit {0})) where
    pub bind-Throws : ((a : A) (w : W) → Throws (k a) w) → (w : W) → Throws (m >>= k) w
    bind-Throws thrown_by w = elim (read w) [
      | inl (a, e) ↦ let (err, h) = thrown_by a w in (err, ap (continue k) e ∙ h)
      | inr (err, e) ↦ (err, ap (continue k) e)
    ]

-- A throw in the same world, or what one of the given computations does.
abbrev pub Runs : {W : Type 0} → (Run W (Unit {0}) → Type 0) → Run W (Unit {0}) → W → Type 0
Runs {W} Is r w = Throws r w ⊎ ((op : Run W (Unit {0})) × Is op × (r w ≡ op w))

pub bind-Runs :
    {W A : Type 0} {Is : Run W (Unit {0}) → Type 0} {m : Run W A} (read : Reads m)
    (k : A → Run W (Unit {0}))
    → ((a : A) (w : W) → m w ≡ (ok a, w) → Runs Is (k a) w)
    → (w : W) → Runs Is (m >>= k) w
bind-Runs read k runs w = elim (read w) [
  | inr (err, e) ↦ inl (err, ap (continue k) e)
  | inl (a, e) ↦ elim (runs a w e) [
    | inl (err, h) ↦ inl (err, ap (continue k) e ∙ h)
    | inr (op, is, h) ↦ inr (op, is, ap (continue k) e ∙ h)
  ]
]

module _ (O : Operations) where
  pub address_of-Reads : (u : Option O.User) → Reads (address_of O u)
  address_of-Reads none w = inr ("TypeError", refl)
  address_of-Reads (some u) w = inl (O.address u, refl)

  pub on_behalf-Reads :
      (users : List O.User) (index : Option String) (user : Option O.User)
      → Reads (on_behalf O users index user)
  on_behalf-Reads users index user w = elim (Bool-cases (truthy index)) [
    | inl e ↦ simp (e) (address_of-Reads (user_at O users index) w)
    | inr e ↦ simp (e) (address_of-Reads user w)
  ]

  -- The user is there, with this address.
  abbrev pub IsAddressOf : Option O.User → String → Type 0
  IsAddressOf found address = (who : O.User) × (found ≡ some who) × (O.address who ≡ address)

  -- The address is of the user with the index, or else of the one who acts.
  abbrev pub IsFor : List O.User → Option String → Option O.User → String → Type 0
  IsFor users index user address =
      IsAddressOf (if truthy index then user_at O users index else user) address

  pub address_of-found :
      (found : Option O.User) (address : String) (w v : O.World)
      → address_of O found w ≡ (ok address, v)
      → IsAddressOf found address
  address_of-found none address w v h = absurd (thrown-ok (ap (λ p. p.0) h))
  address_of-found (some who) address w v h = (who, refl, cc (ap (λ p. p.0) h))

  pub on_behalf-found :
      (users : List O.User) (index : Option String) (user : Option O.User) (address : String)
      (w v : O.World)
      → on_behalf O users index user w ≡ (ok address, v)
      → IsFor users index user address
  on_behalf-found users index user address w v h = elim (Bool-cases (truthy index)) [
    | inl e ↦ simp (e) (address_of-found (user_at O users index) address w v (simp (e) at h))
    | inr e ↦ simp (e) (address_of-found user address w v (simp (e) at h))
  ]

  -- The operation of a name, with the arguments that the action gives for it.
  pub data IsOperation (users : List O.User) (reserve : String) (args : Args) (user : Option O.User)
      (expected : String) (message : Option String) : Name → Run O.World (Unit {0}) → Type 0 where
    mints :
        (amount : String)
        → args.amount ≡ some amount
        → IsOperation users reserve args user expected message Name.mint
            (O.mint reserve amount user)
    approves :
        IsOperation users reserve args user expected message Name.approve (O.approve reserve user)
    approves_vault :
        IsOperation users reserve args user expected message Name.approve_vault
          (O.approve_vault reserve user)
    deposits_collateral :
        (amount on_behalf_of : String)
        → args.amount ≡ some amount
        → IsFor users (args.on_behalf_of) user on_behalf_of
        → IsOperation users reserve args user expected message Name.deposit_collateral (
            O.deposit_collateral reserve amount user on_behalf_of
              (args.send_value)
              expected
              message)
    deposits :
        (amount on_behalf_of : String)
        → args.amount ≡ some amount
        → IsFor users (args.on_behalf_of) user on_behalf_of
        → IsOperation users reserve args user expected message Name.deposit
            (O.deposit reserve amount user on_behalf_of (args.send_value) expected message)
    delegates :
        (amount to_user : String)
        → args.amount ≡ some amount
        → IsAddressOf (user_at_decimal O users (args.to_user)) to_user
        → IsOperation users reserve args user expected message Name.delegate_borrow_allowance (
            O.delegate_borrow_allowance reserve amount
              (rate_mode (args.borrow_rate_mode))
              user
              to_user
              expected
              message)
    withdraws :
        (amount : String)
        → args.amount ≡ some amount
        → IsOperation users reserve args user expected message Name.withdraw
            (O.withdraw reserve amount user expected message)
    withdraws_collateral :
        (amount : String)
        → args.amount ≡ some amount
        → IsOperation users reserve args user expected message Name.withdraw_collateral
            (O.withdraw_collateral reserve amount user expected message)
    borrows :
        (amount on_behalf_of : String)
        → args.amount ≡ some amount
        → IsFor users (args.on_behalf_of) user on_behalf_of
        → IsOperation users reserve args user expected message Name.borrow (
            O.borrow reserve amount
              (rate_mode (args.borrow_rate_mode))
              user
              on_behalf_of
              (args.time_travel)
              expected
              message)
    repays :
        (amount : String)
        → args.amount ≡ some amount
        → IsOperation users reserve args user expected message Name.repay (
            O.repay reserve amount
              (rate_mode (args.borrow_rate_mode))
              user
              (if truthy (args.on_behalf_of) then user_at O users (args.on_behalf_of) else user)
              (args.send_value)
              expected
              message)
    sets_use_as_collateral :
        (use_as_collateral : String)
        → args.use_as_collateral ≡ some use_as_collateral
        → IsOperation users reserve args user expected message Name.set_use_as_collateral
            (O.set_use_as_collateral reserve user use_as_collateral expected message)

  -- The operation of the action's name, for its reserve, its user and its expected result.
  pub record IsOperationOf (action : Action) (users : List O.User) (op : Run O.World (Unit {0}))
      : Type 0 where
    pub name : Name
    pub args : Args
    pub reserve : String
    pub index : String
    pub expected : String
    pub name_eq : case_of? action.name ≡ some name
    pub args_eq : action.args ≡ some args
    pub reserve_eq : args.reserve ≡ some reserve
    pub index_eq : args.user ≡ some index
    pub expected_eq : action.expected ≡ some expected
    pub operation :
        IsOperation users reserve args
          (user_at O users (some index))
          expected
          action.revert_message
          name
          op
