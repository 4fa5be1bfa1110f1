-- ===== src/Tests/Helpers.antt =====
-- The properties of the deployment helpers at concrete platforms and arrays.
use mathlib.Core.List.{flatten}
use code4rena_may.Base.{
  ℕ, suc, ◌≡◌, refl, ap, subst, String, true, false, List, [], ◌∷◌, map, some, none, ◌⊎◌, arith,
}
use code4rena_may.Base.Int.{pos}
use code4rena_may.Base.ParseInt.{parse_int, parse_decimal, signed, numeral, digits, digit, trimmed}
use code4rena_may.Effects.{Result, ok, thrown}
use code4rena_may.Helpers.Misc.{chunk, chunk_from, chunk_step}
use code4rena_may.Helpers.Misc.Chunks.{Even, chunk-pieces}
use code4rena_may.Helpers.Verification.{
  Platform, Params, run_task_with_retry, verify_etherscan_contract,
}
use code4rena_may.Helpers.Verification.Retries.{Ends, IsCounted, Within, gives_up}
use code4rena_may.Helpers.Verification.Outcomes.{
  run_task_with_retry-Ends, run_task_with_retry-removes, run_task_with_retry-leaks,
  verify_etherscan_contract-returns,
}

abbrev five : List ℕ
five = 1 ∷ 2 ∷ 3 ∷ 4 ∷ 5 ∷ []

five_in_twos : chunk five 2 ≡ (1 ∷ 2 ∷ []) ∷ (3 ∷ 4 ∷ []) ∷ (5 ∷ []) ∷ []
unfolding chunk chunk_from chunk_step
five_in_twos = refl

five_in_none : chunk five 0 ≡ [] ∷ [] ∷ [] ∷ [] ∷ [] ∷ []
unfolding chunk chunk_from chunk_step
five_in_none = refl

chunk-pieces_example :
    (flatten (chunk five 2) ≡ five)
    × Even 2 (chunk five 2)
    × (chunk (map suc five) 2 ≡ map (map suc) (chunk five 2))
chunk-pieces_example = chunk-pieces suc five 1

-- A service that answers every request with the same error.
abbrev answering : String → Platform
answering error = record {
  World = ℕ × ℕ;
  delay = λ ms w. w;
  run = λ task p w. (thrown error, (suc (w.0), w.1));
  File = String;
  file = λ pre post w. (ok "params.js", w);
  path = λ f. f;
  write = λ f text w. (ok tt, w);
  cleanup = λ f w. (ok tt, (w.0, suc (w.1)));
}

abbrev counted : (error f : String) → IsCounted (answering error) ((answering error).cleanup f)
counted error f = record {
  runs = λ w. w.0;
  cleanups = λ w. w.1;
  runs-delay = λ ms w. refl;
  cleanups-delay = λ ms w. refl;
  runs-run = λ task p w. refl;
  cleanups-run = λ task p w. refl;
  runs-cleanup = λ w. refl;
  cleanups-cleanup = λ w. refl;
  cleanup_succeeds = λ w. refl;
}

abbrev params : Params
params = record {
  address = "0xa";
  libraries = none;
  constructor_args = "params.js";
  related_sources = true;
}

abbrev message : Result (Unit {0}) → String
message (ok u) = ""
message (thrown e) = e

busy_retries :
    (e : String) → ◌≡◌ {A = Result (Unit {0})} (thrown "busy") (thrown e) → gives_up e ≡ false
busy_retries e h = subst (λ s. gives_up s ≡ false) (ap message h) refl

run_task_with_retry-Ends_example : Ends (Within (counted "busy" "f") 4 (0, 0)) (
    run_task_with_retry
      (answering "busy")
      5
      "verify"
      params
      (pos 4)
      3000
      ((answering "busy").cleanup "f")
      (0, 0))
run_task_with_retry-Ends_example =
    run_task_with_retry-Ends (answering "busy") ((answering "busy").cleanup "f")
      (counted "busy" "f") "verify" params (pos 4) 3000 5 (0, 0) (omega arith)

run_task_with_retry-removes_example :
    Ends
      (λ (w : ℕ × ℕ). w.1 ≡ 1)
      (run_task_with_retry
        (answering "busy")
        5
        "verify"
        params
        (pos 4)
        3000
        ((answering "busy").cleanup "f")
        (0, 0))
run_task_with_retry-removes_example =
    run_task_with_retry-removes (answering "busy") ((answering "busy").cleanup "f")
      (counted "busy" "f") "verify" params (pos 4) 3000 5 (0, 0) (omega arith)
      (λ p v e h. busy_retries e h)

abbrev verified : String
verified = "Contract source code already verified"

run_task_with_retry-leaks_example :
    Ends
      (λ (w : ℕ × ℕ). w.1 ≡ 0)
      (run_task_with_retry
        (answering verified)
        5
        "verify"
        params
        (pos 4)
        3000
        ((answering verified).cleanup "f")
        (0, 0))
run_task_with_retry-leaks_example =
    run_task_with_retry-leaks (answering verified) ((answering verified).cleanup "f")
      (counted verified "f") "verify" params 3 3000 4 (0, 0) verified refl refl

verify_etherscan_contract-returns_example :
    (r : Result (Unit {0})) × (w1 : ℕ × ℕ) × (verify_etherscan_contract
        (answering "busy")
        5
        (some "key")
        "kovan"
        "0xa"
        "[]"
        none
        (0, 0)
      ≡ some (r, w1))
    × (((true ≡ true) × (r ≡ ok tt)) ⊎ ((true ≡ false) × (w1 ≡ (0, 0))))
verify_etherscan_contract-returns_example =
    verify_etherscan_contract-returns (answering "busy") (counted "busy") 5 (some "key") "kovan"
      "0xa" "[]" none (0, 0) (omega arith)

parsed : parse_int " 0x11" ≡ some 17
unfolding parse_int signed numeral digits digit trimmed
parsed = refl

parsed_decimal : parse_decimal "0x11" ≡ some 0
unfolding parse_decimal signed numeral digits digit trimmed
parsed_decimal = refl

parsed_negative : parse_int "-3" ≡ none
unfolding parse_int signed numeral digits digit trimmed
parsed_negative = refl
