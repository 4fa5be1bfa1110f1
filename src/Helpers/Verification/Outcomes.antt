-- ===== src/Helpers/Verification/Outcomes.antt =====
-- The loop of retries, and the whole verification: how they end.
use mathlib.Core.Bool.{true≢false}
use Prim.Native.String.{◌++◌}
use code4rena_may.Base.{
  ℕ, suc, ◌<◌, ◌≡◌, refl, sym, ap, ◌∙◌, String, true, false, Option, some, ◌⊎◌, inl, inr, ◌&&◌,
  Bool-cases, arith,
}
use code4rena_may.Base.Int.{ℤ, pos, pos_part, ◌-ℤ◌}
use code4rena_may.Effects.{Result, Result-cases, ok, thrown, Action}
use code4rena_may.Helpers.Verification.Retries.{
  Ends, IsCounted, Within, gives_up, settle-gives_up, tried_params, attempt_lem, after, outcome,
  all_end,
}
use code4rena_may.Helpers.Verification.{
  truthy, unsupported, supported, supported_etherscan_networks, verify_etherscan_contract,
  verify_with_file, swallow, Platform, Params, params_left, run_task_with_retry,
}

module _ (P : Platform) (cleanup : Action P.World (Unit {0})) (C : IsCounted P cleanup) where
  module _ (task : String) (ms : ℕ) (p : Params) (w : P.World) where
    runs-after : C.runs (after P cleanup task ms p w) ≡ suc (C.runs w)
    runs-after = C.runs-run task p (P.delay ms w) ∙ ap suc (C.runs-delay ms w)

    cleanups-after : C.cleanups (after P cleanup task ms p w) ≡ C.cleanups w
    cleanups-after = C.cleanups-run task p (P.delay ms w) ∙ C.cleanups-delay ms w

    runs-removed : C.runs ((cleanup (after P cleanup task ms p w)).1) ≡ suc (C.runs w)
    runs-removed = C.runs-cleanup (after P cleanup task ms p w) ∙ runs-after

    cleanups-removed : C.cleanups ((cleanup (after P cleanup task ms p w)).1) ≡ suc (C.cleanups w)
    cleanups-removed = C.cleanups-cleanup (after P cleanup task ms p w) ∙ ap suc cleanups-after

-- If removing the file does not fail, and the world counts the runs of the task and the removals,
-- then with more fuel than `times` the function returns, whatever the task throws, and without an
-- error: after at most `times` runs of the task (none for a negative `times`), and after at most
-- one removal of the file.
pub run_task_with_retry-Ends :
    (P : Platform) (cleanup : Action P.World (Unit {0})) (C : IsCounted P cleanup) (task : String)
    (params : Params) (times : ℤ) (ms_delay fuel : ℕ) (w : P.World)
    → pos_part times < fuel
    → Ends
        (Within C (pos_part times) w)
        (run_task_with_retry P fuel task params times ms_delay cleanup w)
run_task_with_retry-Ends P cleanup C task params times ms fuel w lt =
    all_end P cleanup task ms C.cleanup_succeeds (Within C)
      (λ w. omega (
        arith,
        C.runs-cleanup (P.delay ms w),
        C.cleanups-cleanup (P.delay ms w),
        C.runs-delay ms w,
        C.cleanups-delay ms w,
      ))
      (λ n p w.
        omega
          (arith, runs-removed P cleanup C task ms p w, cleanups-removed P cleanup C task ms p w))
      (λ n p w e h g.
        omega (arith, runs-after P cleanup C task ms p w, cleanups-after P cleanup C task ms p w))
      (λ n p w w1 q.
        omega
          (arith, q, runs-after P cleanup C task ms p w, cleanups-after P cleanup C task ms p w))
      times fuel params w lt

-- If moreover the task never throws an error at which the code gives up, the file is removed
-- exactly once.
pub run_task_with_retry-removes :
    (P : Platform) (cleanup : Action P.World (Unit {0})) (C : IsCounted P cleanup) (task : String)
    (params : Params) (times : ℤ) (ms_delay fuel : ℕ) (w : P.World)
    → pos_part times < fuel
    → ((p : Params) (v : P.World) (e : String) → (P.run task p v).0 ≡ thrown e → gives_up e ≡ false)
    → Ends
        (λ w1. C.cleanups w1 ≡ suc (C.cleanups w))
        (run_task_with_retry P fuel task params times ms_delay cleanup w)
run_task_with_retry-removes P cleanup C task params times ms fuel w lt retried =
    all_end P cleanup task ms C.cleanup_succeeds (λ n w w1. C.cleanups w1 ≡ suc (C.cleanups w))
      (λ w. C.cleanups-cleanup (P.delay ms w) ∙ ap suc (C.cleanups-delay ms w))
      (λ n p w. cleanups-removed P cleanup C task ms p w)
      (λ n p w e h g. absurd (true≢false (sym g ∙ retried p (P.delay ms w) e h)))
      (λ n p w w1 q. q ∙ ap suc (cleanups-after P cleanup C task ms p w)) times fuel params w lt

-- If the first run of the task throws an error at which the code gives up, the function returns
-- without an error, and the file stays.
pub run_task_with_retry-leaks :
    (P : Platform) (cleanup : Action P.World (Unit {0})) (C : IsCounted P cleanup) (task : String)
    (params : Params) (n ms_delay fuel : ℕ) (w : P.World) (e : String)
    → outcome P cleanup task ms_delay (tried_params P cleanup n params) w ≡ thrown e
    → gives_up e ≡ true
    → Ends
        (λ w1. C.cleanups w1 ≡ C.cleanups w)
        (run_task_with_retry P (suc fuel) task params (pos (suc n)) ms_delay cleanup w)
unfolding run_task_with_retry
run_task_with_retry-leaks P cleanup C task params n ms fuel w e h g =
    let p1 : Params = tried_params P cleanup n params in
    let w1 : P.World = after P cleanup task ms p1 w in
    let retry : String → P.World → Option (Result (Unit {0}) × P.World) = λ error.
      run_task_with_retry P fuel task (params_left P params (pos (suc n)) error)
        (pos (suc n) -ℤ pos 1) ms cleanup in
    rw (attempt_lem P cleanup task params n (P.delay ms w))
      (rw h ((w1, settle-gives_up retry e w1 g, cleanups-after P cleanup C task ms p1 w)))

verify_with_file-swallow :
    (P : Platform)
    → ((f : P.File) → IsCounted P (P.cleanup f))
    → (fuel : ℕ) (address json : String) (libraries : Option String) (w : P.World) → 4 < fuel
    → (w1 : P.World) × (swallow (verify_with_file P fuel address json libraries w)
        ≡ some (ok tt, w1))
unfolding verify_with_file
verify_with_file-swallow P counted fuel address json libraries w lt =
    let (r, w1) = P.file "verify-params-" ".js" w in
    elim (Result-cases r) [
      | inr (e, h) ↦ (w1, rw (h, swallow) refl)
      | inl (f, h) ↦
          let (written, w2) = P.write f ("module.exports = " ++ json ++ ";") w1 in
          elim (Result-cases written) [
            | inr (e, g) ↦ (w2, rw (h, swallow) (rw (g, swallow) refl))
            | inl (u, g) ↦
                let params : Params = record {
                  address = address;
                  libraries = libraries;
                  constructor_args = P.path f;
                  related_sources = true;
                } in
                let (w3, done, q) =
                  run_task_with_retry-Ends P (P.cleanup f) (counted f) "verify" params (pos 4) 3000
                    fuel w2 lt in
                (w3, rw (h, swallow) (rw (g, swallow) (ap swallow done)))
          ]
    ]

-- Where the platform's removal of a file does not fail and its world counts runs and removals of
-- every file, a verification with fuel for the four tries returns. It throws only without a key of
-- the service or on a network that is not supported, and then the world is left as it was.
pub verify_etherscan_contract-returns :
    (P : Platform)
    → ((f : P.File) → IsCounted P (P.cleanup f))
    → (fuel : ℕ) (key : Option String) (network address json : String) (libraries : Option String)
      (w : P.World)
    → 4 < fuel
    → (r : Result (Unit {0})) × (w1 : P.World) × (verify_etherscan_contract P fuel key network
          address json libraries w
        ≡ some (r, w1))
      × (((truthy key && supported network supported_etherscan_networks) ≡ true × (r ≡ ok tt))
          ⊎ ((truthy key && supported network supported_etherscan_networks) ≡ false × (w1 ≡ w)))
unfolding verify_etherscan_contract verify_with_file
verify_etherscan_contract-returns P counted fuel key network address json libraries w lt =
    elim (Bool-cases (truthy key)) [
      | inr a ↦ (thrown "Missing process.env.ETHERSCAN_KEY.", w, simp (a), inr (simp (a), refl))
      | inl a ↦ elim (Bool-cases (supported network supported_etherscan_networks)) [
        | inr b ↦ (thrown (unsupported network), w, simp (a, b), inr (simp (a, b), refl))
        | inl b ↦
            let (w1, e) = verify_with_file-swallow P counted fuel address json libraries w lt in
            (ok tt, w1, simp (a, b) e, inl (simp (a, b), refl))
      ]
    ]
