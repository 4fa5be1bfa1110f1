-- ===== src/Contracts/Reverts.antt =====
-- Code that may revert: what holds of the value if it returns.
use code4rena_may.Base.{
  ℕ, ◌-◌, ◌^◌, ◌<◌, ◌≡◌, refl, Option, some, none, ◌>>=◌, Bool, true, false, if◌then◌else◌, arith,
}

abbrev pub uint_mod : ℕ
uint_mod = 2 ^ 256

abbrev pub max_uint : ℕ
max_uint = 2 ^ 256 - 1

abbrev pub Returns : {A : Type 0} → (A → Type 0) → Option A → Type 0
Returns {A} P o = (r : A) → o ≡ some r → P r

-- A word of the machine that holds the number `n`.
abbrev pub Holds : ℕ → ℕ → Type 0
Holds n r = (r ≡ n) × (r < uint_mod)

pub Returns-bind :
    {A C : Type 0} {P : A → Type 0} {Q : C → Type 0} (o : Option A) (f : A → Option C)
    → Returns P o
    → ((a : A) → P a → Returns Q (f a))
    → Returns Q (o >>= f)
Returns-bind none f h k r e = cc
Returns-bind (some a) f h k r e = k a (h a refl) r e

pub some-Holds : (n : ℕ) → n < uint_mod → Returns (Holds n) (some n)
some-Holds n h r e = ground arith

pub Returns-if :
    (b : Bool) (o p : Option ℕ) (n m : ℕ)
    → Returns (Holds n) o
    → Returns (Holds m) p
    → Returns (Holds (if b then n else m)) (if b then o else p)
Returns-if true o p n m h k = h
Returns-if false o p n m h k = k

-- The first step of code that returns has returned.
pub >>=-eq-some :
    {A C : Type 0} (o : Option A) (f : A → Option C) {c : C}
    → (o >>= f) ≡ some c
    → (a : A) × (o ≡ some a) × (f a ≡ some c)
>>=-eq-some none f h = cc
>>=-eq-some (some a) f h = (a, refl, h)
