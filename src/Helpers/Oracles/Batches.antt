-- ===== src/Helpers/Oracles/Batches.antt =====
-- Calls in batches against one call with everything.
use mathlib.Core.List.{flatten}
use code4rena_may.Base.{ℕ, suc, ◌≡◌, sym, ap, ◌∙◌, List, [], ◌∷◌, ◌++◌, map}
use code4rena_may.Effects.{Action, pure, ◌>>◌, for_pairs}
use code4rena_may.Helpers.Misc.{chunk}
use code4rena_may.Helpers.Misc.Chunks.{chunk-pieces}

abbrev pub firsts : {A B : Type 0} → List (A × B) → List A
firsts ps = map (λ p. p.0) ps

abbrev pub seconds : {A B : Type 0} → List (A × B) → List B
seconds ps = map (λ p. p.1) ps

-- A call that treats the elements of its two arrays in order: a call with the empty arrays does
-- nothing, and a call with arrays put one after the other is the calls one after the other.
pub record IsElementwise {W A B : Type 0} (f : List A → List B → Action W (Unit {0})) : Type 0 where
  pub call-nil : f [] [] ≡ pure tt
  pub call-append :
      (ps qs : List (A × B))
      → f (firsts (ps ++ qs)) (seconds (ps ++ qs))
        ≡ (f (firsts ps) (seconds ps) >> f (firsts qs) (seconds qs))

module _ {W A B : Type 0} (f : List A → List B → Action W (Unit {0})) (E : IsElementwise f) where
  for_pairs-flatten :
      (cs : List (List (A × B)))
      → for_pairs f (map firsts cs) (map seconds cs)
        ≡ f (firsts (flatten cs)) (seconds (flatten cs))
  unfolding flatten
  for_pairs-flatten [] = sym (E.call-nil)
  for_pairs-flatten (c ∷ cs) =
      ap (λ k. f (firsts c) (seconds c) >> k) (for_pairs-flatten cs)
      ∙ sym (E.call-append c (flatten cs))

  pub for_pairs-chunk :
      (ps : List (A × B)) (m : ℕ)
      → for_pairs f (chunk (firsts ps) (suc m)) (chunk (seconds ps) (suc m))
        ≡ f (firsts ps) (seconds ps)
  for_pairs-chunk ps m =
      let (whole, even, left) = chunk-pieces (λ (p : A × B). p.0) ps m in
      let right : chunk (seconds ps) (suc m) ≡ map seconds (chunk ps (suc m)) =
        (chunk-pieces (λ (p : A × B). p.1) ps m).2 in
      ap (λ cs. for_pairs f cs (chunk (seconds ps) (suc m))) left
      ∙ ap (for_pairs f (map firsts (chunk ps (suc m)))) right
      ∙ for_pairs-flatten (chunk ps (suc m))
      ∙ ap (λ l. f (firsts l) (seconds l)) whole
