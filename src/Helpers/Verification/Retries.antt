-- ===== src/Helpers/Verification/Retries.antt =====
-- An induction over the tries of `run_task_with_retry`.
use code4rena_may.Base.{
  ℕ, zero, suc, ◌+◌, ◌≤◌, ◌<◌, ◌≡◌, refl, String, Bool, true, false, Option, some, inl, inr, ◌||◌,
  Bool-cases, arith,
}
use code4rena_may.Base.Int.{ℤ, pos, negsuc, pos_part, ◌-ℤ◌, lt_ℤ, eq_ℤ}
use code4rena_may.Effects.{continue, Result, ok, thrown, Action}
use code4rena_may.Helpers.Verification.{
  Platform, Params, attempt, params_left, run_task_with_retry, settle, some_included, ok_errors,
  fatal_errors, without_related,
}

-- The run ends without an error in a world with the property.
abbrev pub Ends : {W : Type 0} → (W → Type 0) → Option (Result (Unit {0}) × W) → Type 0
Ends {W} Q o = (w : W) × (o ≡ some (ok tt, w)) × Q w

Ends-mono :
    {W : Type 0} {Q R : W → Type 0} {o : Option (Result (Unit {0}) × W)}
    → ((w : W) → Q w → R w)
    → Ends Q o
    → Ends R o
Ends-mono f (w, e, q) = (w, e, f w q)

-- What is counted of a world: how often a task was run, and how often the file was removed. The
-- removal does not fail.
pub record IsCounted (P : Platform) (cleanup : Action P.World (Unit {0})) : Type 0 where
  pub runs : P.World → ℕ
  pub cleanups : P.World → ℕ
  pub runs-delay : (ms : ℕ) (w : P.World) → runs (P.delay ms w) ≡ runs w
  pub cleanups-delay : (ms : ℕ) (w : P.World) → cleanups (P.delay ms w) ≡ cleanups w
  pub runs-run :
      (task : String) (p : Params) (w : P.World) → runs ((P.run task p w).1) ≡ suc (runs w)
  pub cleanups-run :
      (task : String) (p : Params) (w : P.World) → cleanups ((P.run task p w).1) ≡ cleanups w
  pub runs-cleanup : (w : P.World) → runs ((cleanup w).1) ≡ runs w
  pub cleanups-cleanup : (w : P.World) → cleanups ((cleanup w).1) ≡ suc (cleanups w)
  pub cleanup_succeeds : (w : P.World) → (cleanup w).0 ≡ ok tt

-- At most `n` more runs, and at most one more removal.
abbrev pub Within :
    {P : Platform} {cleanup : Action P.World (Unit {0})}
    → IsCounted P cleanup
    → ℕ
    → P.World
    → P.World
    → Type 0
Within C n w w1 = (C.runs w1 ≤ n + C.runs w) × (C.cleanups w1 ≤ suc (C.cleanups w))

-- The error is one at which the code gives up.
abbrev pub gives_up : String → Bool
gives_up error = some_included ok_errors error || some_included fatal_errors error

pub settle-gives_up :
    {W : Type 0} (retry : String → W → Option (Result (Unit {0}) × W)) (e : String) (w : W)
    → gives_up e ≡ true
    → settle retry (thrown e) w ≡ some (ok tt, w)
settle-gives_up retry e w g = ground arith

module _ {W : Type 0} (cleanup : Action W (Unit {0})) where
  abbrev pub tried : Result (Unit {0}) → Action W (Unit {0})
  tried (ok u) w = cleanup w
  tried (thrown e) w = (thrown e, w)

  finish :
      (Q : W → Type 0) (retry : String → W → Option (Result (Unit {0}) × W)) (r : Result (Unit {0}))
      (w : W)
      → (cleanup w).0 ≡ ok tt
      → (r ≡ ok tt → Q ((cleanup w).1))
      → ((e : String) → r ≡ thrown e → gives_up e ≡ true → Q w)
      → ((e : String) → r ≡ thrown e → gives_up e ≡ false → Ends Q (retry e w))
      → Ends Q (settle retry ((tried r w).0) ((tried r w).1))
  finish Q retry (ok u) w cleaned done quit again = ((cleanup w).1, rw cleaned, done refl)
  finish Q retry (thrown e) w cleaned done quit again =
      elim (Bool-cases (some_included ok_errors e)) [
        | inl a ↦ (w, simp (a), quit e refl (simp (a)))
        | inr a ↦ elim (Bool-cases (some_included fatal_errors e)) [
          | inl b ↦ (w, simp (a, b), quit e refl (simp (a, b)))
          | inr b ↦ simp (a, b) (again e refl (simp (a, b)))
        ]
      ]

above_one : (n : ℕ) → lt_ℤ (pos 1) (pos (suc (suc n))) ≡ true
above_one n = ground arith

below_one : (n : ℕ) → lt_ℤ (pos 1) (negsuc n) ≡ false
below_one n = ground arith

not_one : (n : ℕ) → eq_ℤ (negsuc n) (pos 1) ≡ false
not_one n = ground arith

pred_pos : (n : ℕ) → pos (suc n) -ℤ pos 1 ≡ pos n
pred_pos n = ground arith

seq_lem :
    {W : Type 0} (cleanup : Action W (Unit {0})) (r : Result (Unit {0})) (w : W)
    → continue (λ _. cleanup) (r, w) ≡ tried cleanup r w
seq_lem cleanup (ok u) w = refl
seq_lem cleanup (thrown e) w = refl

module _ (P : Platform) (cleanup : Action P.World (Unit {0})) where
  -- The arguments of a try with `n` more to come.
  abbrev pub tried_params : ℕ → Params → Params
  tried_params zero p = without_related p
  tried_params (suc n) p = p

  pub attempt_lem :
      (task : String) (p : Params) (n : ℕ) (w : P.World)
      → attempt P task p (pos (suc n)) cleanup w
        ≡ tried cleanup ((P.run task (tried_params n p) w).0) ((P.run task (tried_params n p) w).1)
  unfolding attempt
  attempt_lem task p zero w = let (r, w1) = P.run task (without_related p) w in seq_lem cleanup r w1
  attempt_lem task p (suc n) w =
      let (r, w1) = P.run task p w in simp (above_one n) (seq_lem cleanup r w1)

  module _ (task : String) (ms : ℕ) where
    -- The world after a try, and its outcome.
    abbrev pub after : Params → P.World → P.World
    after p w = (P.run task p (P.delay ms w)).1

    abbrev pub outcome : Params → P.World → Result (Unit {0})
    outcome p w = (P.run task p (P.delay ms w)).0

    module _ (cleaned : (w : P.World) → (cleanup w).0 ≡ ok tt) (Q : ℕ → P.World → P.World → Type 0)
        (last : (w : P.World) → Q 0 w ((cleanup (P.delay ms w)).1))
        (done : (n : ℕ) (p : Params) (w : P.World) → Q (suc n) w ((cleanup (after p w)).1))
        (quit : (n : ℕ) (p : Params) (w : P.World) (e : String)
          → outcome p w ≡ thrown e
          → gives_up e ≡ true
          → Q (suc n) w (after p w))
        (again : (n : ℕ) (p : Params) (w w1 : P.World) → Q n (after p w) w1 → Q (suc n) w w1) where
      tries_end :
          (n m : ℕ) (p : Params) (w : P.World)
          → n ≤ m
          → Ends (Q n w) (run_task_with_retry P (suc m) task p (pos n) ms cleanup w)
      unfolding run_task_with_retry attempt
      tries_end zero m p w le = ((cleanup (P.delay ms w)).1, rw (cleaned (P.delay ms w)), last w)
      tries_end (suc n) zero p w le = absurd (omega (arith, le))
      tries_end (suc n) (suc m) p w le =
          let p1 : Params = tried_params n p in
          let retry : String → P.World → Option (Result (Unit {0}) × P.World) = λ error.
            run_task_with_retry P (suc m) task (params_left P p (pos (suc n)) error)
              (pos (suc n) -ℤ pos 1) ms cleanup in
          let next : (e : String)
              → outcome p1 w ≡ thrown e
              → gives_up e ≡ false
              → Ends (Q (suc n) w) (retry e (after p1 w)) =
            λ e h g. rw (pred_pos n) (
              Ends-mono (again n p1 w)
                (tries_end n m (params_left P p (pos (suc n)) e) (after p1 w) (omega arith))) in
          rw (attempt_lem task p n (P.delay ms w)) (
            finish cleanup (Q (suc n) w) retry (outcome p1 w) (after p1 w) (cleaned (after p1 w))
              (λ h. done n p1 w) (quit n p1 w) next)

      -- Enough fuel for any number of tries, a negative one too.
      pub all_end :
          (times : ℤ) (fuel : ℕ) (p : Params) (w : P.World)
          → pos_part times < fuel
          → Ends (Q (pos_part times) w) (run_task_with_retry P fuel task p times ms cleanup w)
      unfolding run_task_with_retry attempt
      all_end times zero p w lt = absurd (omega (arith, lt))
      all_end (pos n) (suc m) p w lt = tries_end n m p w (omega arith)
      all_end (negsuc n) (suc m) p w lt = (
        (cleanup (P.delay ms w)).1,
        simp (below_one n, not_one n, cleaned (P.delay ms w)),
        last w,
      )
