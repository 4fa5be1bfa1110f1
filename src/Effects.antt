-- ===== src/Effects.antt =====
-- Code that acts on the outside: the state of the world is passed along, and comes back after a
-- throw too, since what was done stays done.
use code4rena_may.Base.{String, ◌≡◌, refl, ap, ◌∙◌, ◌⊎◌, inl, inr, List, [], ◌∷◌, arith}

pub data Result {ℓ} (A : Type ℓ) : Type ℓ where
  ok : A → Result A
  thrown : String → Result A

pub Result-cases {ℓ} :
    {A : Type ℓ} (r : Result A) → ((a : A) × (r ≡ ok a)) ⊎ ((e : String) × (r ≡ thrown e))
Result-cases (ok a) = inl (a, refl)
Result-cases (thrown e) = inr (e, refl)

pub thrown-ok {ℓ} : {A : Type ℓ} {e : String} {a : A} → thrown e ≡ ok a → ⊥
thrown-ok h = ground (arith, h)

abbrev pub Action : Type 0 → Type 0 → Type 0
Action W A = W → Result A × W

module _ {W : Type 0} where
  abbrev pub pure : {A : Type 0} → A → Action W A
  pure a w = (ok a, w)

  abbrev pub throw : {A : Type 0} → String → Action W A
  throw e w = (thrown e, w)

  -- A call without `await`: that it throws does not stop the code that started it.
  abbrev pub unawaited : {A : Type 0} → Action W A → Action W (Unit {0})
  unawaited m w = (ok tt, (m w).1)

  -- The rest of a computation, after a result.
  abbrev pub continue : {A B : Type 0} → (A → Action W B) → Result A × W → Result B × W
  continue f (ok a, w) = f a w
  continue f (thrown e, w) = (thrown e, w)

  infixl 5 ◌>>=◌ ◌>>◌
  abbrev pub ◌>>=◌ : {A B : Type 0} → Action W A → (A → Action W B) → Action W B
  ◌>>=◌ m f w = continue f (m w)

  abbrev pub ◌>>◌ : {B : Type 0} → Action W (Unit {0}) → Action W B → Action W B
  m >> k = m >>= λ _. k

  pub continue-continue :
      {A B C : Type 0} (f : A → Action W B) (g : B → Action W C) (p : Result A × W)
      → continue g (continue f p) ≡ continue (λ a w. continue g (f a w)) p
  continue-continue f g (ok a, w) = refl
  continue-continue f g (thrown e, w) = refl

  -- The first step ends well.
  pub step :
      {A B : Type 0} (f : A → Action W B) {p : Result A × W} {r : Result B × W} {a : A} {w : W}
      → p ≡ (ok a, w)
      → f a w ≡ r
      → continue f p ≡ r
  step f e h = ap (continue f) e ∙ h

  -- What ends well began well.
  pub continue-ok :
      {A B : Type 0} (f : A → Action W B) (p : Result A × W) (b : B) (w : W)
      → continue f p ≡ (ok b, w)
      → (a : A) × (v : W) × (p ≡ (ok a, v)) × (f a v ≡ (ok b, w))
  continue-ok f (ok a, v) b w e = (a, v, refl, e)
  continue-ok f (thrown x, v) b w e = absurd (thrown-ok (ap (λ p. p.0) e))

  -- `for (let i = 0; i < xs.length; i++) { await f(xs[i]) }`
  abbrev pub for_each : {A : Type 0} → (A → Action W (Unit {0})) → List A → Action W (Unit {0})
  for_each f [] = pure tt
  for_each f (x ∷ xs) = f x >> for_each f xs

  -- The same, with `ys[i]` beside `xs[i]`: where there is none, what is called throws.
  abbrev pub for_pairs :
      {A B : Type 0} → (A → B → Action W (Unit {0})) → List A → List B → Action W (Unit {0})
  for_pairs f [] ys = pure tt
  for_pairs f (x ∷ xs) [] = throw "TypeError"
  for_pairs f (x ∷ xs) (y ∷ ys) = f x y >> for_pairs f xs ys
