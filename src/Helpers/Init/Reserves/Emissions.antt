-- ===== src/Helpers/Init/Reserves/Emissions.antt =====
-- The emissions that the batches of `initReservesByHelper` gather, by index, are those of the reserves.
use native.Mathlib.Nat.{add-zero, zero-add}
use mathlib.Core.List.{append_assoc, append-nil}
use code4rena_may.Base.{
  ℕ, zero, suc, ◌+◌, ◌*◌, ◌≤◌, ◌≡◌, refl, sym, ap, subst, ◌∙◌, String, List, [], ◌∷◌, ◌++◌, map,
  Option, some, ◌⊎◌, inl, inr, arith,
}
use code4rena_may.Base.Int.{ℤ}
use code4rena_may.Base.Lists.{length, take, drop, get_elem?, length-drop, length-take-drop}
use code4rena_may.Effects.{Result, ok, thrown, Action, ◌>>=◌, ◌>>◌, continue-ok}
use code4rena_may.Helpers.Misc.{chunk}
use code4rena_may.Helpers.Misc.Chunks.{groups, chunk-groups, length-take_full, List-cases}
use code4rena_may.Helpers.Init.Reserves.{
  Chain, InitInput, Collected, Names, Addresses, read_tokens, init_chunks, init_inputs,
  init_collected, init_input,
}
use code4rena_may.Market.{SymbolMap}

-- The entries from the index `i` on, `n` of them, each twice.
abbrev pub twice_from : List ℤ → ℕ → ℕ → List (Option ℤ)
twice_from es i zero = []
twice_from es i (suc n) = get_elem? es i ∷ get_elem? es i ∷ twice_from es (suc i) n

-- Each entry twice.
abbrev pub twice : List ℤ → List (Option ℤ)
twice [] = []
twice (e ∷ es) = some e ∷ some e ∷ twice es

twice_from-cons :
    (e : ℤ) (es : List ℤ) (i n : ℕ) → twice_from (e ∷ es) (suc i) n ≡ twice_from es i n
twice_from-cons e es i zero = refl
twice_from-cons e es i (suc n) =
    ap (λ l. get_elem? es i ∷ get_elem? es i ∷ l) (twice_from-cons e es (suc i) n)

twice_from-length : (es : List ℤ) → twice_from es 0 (length es) ≡ twice es
twice_from-length [] = refl
twice_from-length (e ∷ es) =
    ap (λ l. some e ∷ some e ∷ l) (twice_from-cons e es 0 (length es) ∙ twice_from-length es)

suc-add : (i n : ℕ) → suc i + n ≡ i + suc n
suc-add i n = omega arith

suc-sum : (n m : ℕ) → suc n + m ≡ suc (n + m)
suc-sum n m = omega arith

twice_from-add :
    (es : List ℤ) (i n m : ℕ)
    → twice_from es i n ++ twice_from es (i + n) m ≡ twice_from es i (n + m)
twice_from-add es i zero m =
    ap (λ k. twice_from es k m) (add-zero i) ∙ ap (twice_from es i) (sym (zero-add m))
twice_from-add es i (suc n) m =
    ap (λ l. get_elem? es i ∷ get_elem? es i ∷ l)
      (ap (λ k. twice_from es (suc i) n ++ twice_from es k m) (sym (suc-add i n))
        ∙ twice_from-add es (suc i) n m)
    ∙ ap (twice_from es i) (sym (suc-sum n m))

suc-index : (k j : ℕ) → suc (k * 4 + j) ≡ k * 4 + suc j
suc-index k j = omega arith

gathered : {W : Type 0} → Result (List String × List (Option ℤ)) × W → List (Option ℤ)
gathered (ok (tokens, emissions), w) = emissions
gathered (thrown e, w) = []

next_chunk : (k : ℕ) → suc k * 4 ≡ k * 4 + 4
next_chunk k = omega arith

-- One chunk after another: the second is empty, or the first has four.
join :
    (es : List ℤ) (k n m : ℕ)
    → (m ≡ 0) ⊎ (n ≡ 4)
    → twice_from es (k * 4 + 0) n ++ twice_from es (suc k * 4) m ≡ twice_from es (k * 4) (n + m)
join es k n m (inl e) =
    ap (λ i. twice_from es (k * 4 + 0) n ++ twice_from es (suc k * 4) i) e
    ∙ append-nil (twice_from es (k * 4 + 0) n)
    ∙ ap (λ i. twice_from es i n) (add-zero (k * 4))
    ∙ ap (twice_from es (k * 4)) (sym (add-zero n) ∙ ap (λ i. n + i) (sym e))
join es k n m (inr e) =
    ap (λ i. twice_from es i n ++ twice_from es (suc k * 4) m) (add-zero (k * 4))
    ∙ ap (λ i. twice_from es (k * 4) n ++ twice_from es i m)
        (next_chunk k ∙ ap (λ i. k * 4 + i) (sym e))
    ∙ twice_from-add es (k * 4) n m

-- From the first world to the last, the reserves answer with their aToken and their variable debt
-- token, one after the other; the list has both for each.
pub data Answers (C : Chain) : C.World → List (Option String) → List String → C.World → Type 0 where
  none_left : (w : C.World) → Answers C w [] [] w
  answer :
      (w v w1 : C.World) (reserve : Option String) (a_token variable_debt_token : String)
      (reserves : List (Option String)) (tokens : List String)
      → C.get_reserve_data reserve w ≡ (ok (a_token, variable_debt_token), v)
      → Answers C v reserves tokens w1
      → Answers C w (reserve ∷ reserves) (a_token ∷ variable_debt_token ∷ tokens) w1

-- From the first world to the last, each batch is initialised, and then its reserves answer.
pub data Batches (C : Chain)
    : C.World → List (List InitInput) → List String → C.World → Type 0 where
  no_batch : (w : C.World) → Batches C w [] [] w
  batch :
      (w u v w1 : C.World) (inputs : List InitInput) (rest : List (List InitInput))
      (tokens tokens1 : List String)
      → C.batch_init_reserve inputs w ≡ (ok tt, u)
      → Answers C u (map (λ i. i.underlying_asset) inputs) tokens v
      → Batches C v rest tokens1 w1
      → Batches C w (inputs ∷ rest) (tokens ++ tokens1) w1

tokens_given : {W : Type 0} → Result (List String × List (Option ℤ)) × W → List String
tokens_given (ok (tokens, emissions), w) = tokens
tokens_given (thrown e, w) = []

module _ (C : Chain) (es : List ℤ) where
  read_tokens-twice :
      (k j : ℕ) (inputs : List InitInput) (tokens tokens1 : List String)
      (emissions emissions1 : List (Option ℤ)) (w w1 : C.World)
      → read_tokens C es k j inputs tokens emissions w ≡ (ok (tokens1, emissions1), w1)
      → emissions1 ≡ emissions ++ twice_from es (k * 4 + j) (length inputs)
  unfolding read_tokens gathered
  read_tokens-twice k j [] tokens tokens1 emissions emissions1 w w1 h =
      sym (ap gathered h) ∙ sym (append-nil emissions)
  read_tokens-twice k j (x ∷ inputs) tokens tokens1 emissions emissions1 w w1 h =
      let (response, v, first, others) =
        continue-ok
          (λ (r : String × String).
            read_tokens C es k (suc j) inputs (tokens ++ r.0 ∷ r.1 ∷ [])
              (emissions ++ get_elem? es (k * 4 + j) ∷ get_elem? es (k * 4 + j) ∷ []))
          (C.get_reserve_data (x.underlying_asset) w) (tokens1, emissions1) w1 h in
      read_tokens-twice k (suc j) inputs (tokens ++ response.0 ∷ response.1 ∷ []) tokens1
        (emissions ++ get_elem? es (k * 4 + j) ∷ get_elem? es (k * 4 + j) ∷ []) emissions1 v w1
        others
      ∙ append_assoc emissions (get_elem? es (k * 4 + j) ∷ get_elem? es (k * 4 + j) ∷ [])
          (twice_from es (k * 4 + suc j) (length inputs))
      ∙ ap
          (λ i.
            emissions
            ++ get_elem? es (k * 4 + j)
              ∷ get_elem? es (k * 4 + j)
              ∷ twice_from es i (length inputs))
          (sym (suc-index k j))

  init_chunks-twice :
      (fuel k : ℕ) (xs : List InitInput) (tokens tokens1 : List String)
      (emissions emissions1 : List (Option ℤ)) (w w1 : C.World)
      → length xs ≤ fuel
      → init_chunks C es k (groups fuel 4 xs) tokens emissions w ≡ (ok (tokens1, emissions1), w1)
      → emissions1 ≡ emissions ++ twice_from es (k * 4) (length xs)
  unfolding init_chunks gathered
  init_chunks-twice zero k [] tokens tokens1 emissions emissions1 w w1 le h =
      sym (ap gathered h) ∙ sym (append-nil emissions)
  init_chunks-twice (suc fuel) k [] tokens tokens1 emissions emissions1 w w1 le h =
      sym (ap gathered h) ∙ sym (append-nil emissions)
  init_chunks-twice zero k (x ∷ xs) tokens tokens1 emissions emissions1 w w1 le h =
      absurd (omega (arith, le))
  init_chunks-twice (suc fuel) k (x ∷ xs) tokens tokens1 emissions emissions1 w w1 le h =
      let piece : List InitInput = take 4 (x ∷ xs) in
      let rest : List InitInput = drop 4 (x ∷ xs) in
      let chunks : List String × List (Option ℤ) → Action C.World (List String × List (Option ℤ)) =
        λ done. init_chunks C es (suc k) (groups fuel 4 rest) (done.0) (done.1) in
      let (u, v, sent, run) =
        continue-ok (λ _. read_tokens C es k 0 piece tokens emissions >>= chunks)
          (C.batch_init_reserve piece w) (tokens1, emissions1) w1 h in
      let (done, v2, first, others) =
        continue-ok chunks (read_tokens C es k 0 piece tokens emissions v) (tokens1, emissions1) w1
          run in
      let full : (length rest ≡ 0) ⊎ (length piece ≡ 4) = elim (List-cases rest) [
        | inl e ↦ inl (ap length e)
        | inr pos ↦ inr (length-take_full 4 (x ∷ xs) (omega (arith, length-drop 4 (x ∷ xs), pos)))
      ] in
      init_chunks-twice fuel (suc k) rest (done.0) tokens1 (done.1) emissions1 v2 w1
        (omega (arith, length-drop 3 xs, le)) others
      ∙ ap (λ l. l ++ twice_from es (suc k * 4) (length rest))
          (read_tokens-twice k 0 piece tokens (done.0) emissions (done.1) v v2 first)
      ∙ append_assoc emissions (twice_from es (k * 4 + 0) (length piece))
          (twice_from es (suc k * 4) (length rest))
      ∙ ap (λ l. emissions ++ l)
          (join es k (length piece) (length rest) full
            ∙ ap (twice_from es (k * 4)) (length-take-drop 4 (x ∷ xs)))

  init_chunks-emissions :
      (inputs : List InitInput) (tokens : List String) (emissions : List (Option ℤ))
      (w w1 : C.World)
      → length inputs ≡ length es
      → init_chunks C es 0 (chunk inputs 4) [] [] w ≡ (ok (tokens, emissions), w1)
      → emissions ≡ twice es
  init_chunks-emissions inputs tokens emissions w w1 same h =
      init_chunks-twice (length inputs) 0 inputs [] tokens [] emissions w w1 (omega arith)
        (ap (λ cs. init_chunks C es 0 cs [] [] w) (sym (chunk-groups inputs 3)) ∙ h)
      ∙ ap (twice_from es 0) same
      ∙ twice_from-length es

module _ (C : Chain) (es : List ℤ) where
  read_tokens-Answers :
      (k j : ℕ) (inputs : List InitInput) (tokens tokens1 : List String)
      (emissions emissions1 : List (Option ℤ)) (w w1 : C.World)
      → read_tokens C es k j inputs tokens emissions w ≡ (ok (tokens1, emissions1), w1)
      → (new : List String) × (tokens1 ≡ tokens ++ new)
        × Answers C w (map (λ i. i.underlying_asset) inputs) new w1
  unfolding read_tokens tokens_given
  read_tokens-Answers k j [] tokens tokens1 emissions emissions1 w w1 h = (
    [],
    sym (ap tokens_given h) ∙ sym (append-nil tokens),
    subst (Answers C w [] []) (ap (λ p. p.1) h) (none_left w),
  )
  read_tokens-Answers k j (x ∷ inputs) tokens tokens1 emissions emissions1 w w1 h =
      let (response, v, first, others) =
        continue-ok
          (λ (r : String × String).
            read_tokens C es k (suc j) inputs (tokens ++ r.0 ∷ r.1 ∷ [])
              (emissions ++ get_elem? es (k * 4 + j) ∷ get_elem? es (k * 4 + j) ∷ []))
          (C.get_reserve_data (x.underlying_asset) w) (tokens1, emissions1) w1 h in
      let (new, longer, answers) =
        read_tokens-Answers k (suc j) inputs (tokens ++ response.0 ∷ response.1 ∷ []) tokens1
          (emissions ++ get_elem? es (k * 4 + j) ∷ get_elem? es (k * 4 + j) ∷ []) emissions1 v w1
          others in
      (
        response.0 ∷ response.1 ∷ new,
        longer ∙ append_assoc tokens (response.0 ∷ response.1 ∷ []) new,
        answer w v w1 (x.underlying_asset) (response.0) (response.1)
            (map (λ i. i.underlying_asset) inputs) new first answers,
      )

  init_chunks-Batches :
      (k : ℕ) (chunks : List (List InitInput)) (tokens tokens1 : List String)
      (emissions emissions1 : List (Option ℤ)) (w w1 : C.World)
      → init_chunks C es k chunks tokens emissions w ≡ (ok (tokens1, emissions1), w1)
      → (new : List String) × (tokens1 ≡ tokens ++ new) × Batches C w chunks new w1
  unfolding init_chunks tokens_given
  init_chunks-Batches k [] tokens tokens1 emissions emissions1 w w1 h = (
    [],
    sym (ap tokens_given h) ∙ sym (append-nil tokens),
    subst (Batches C w [] []) (ap (λ p. p.1) h) (no_batch w),
  )
  init_chunks-Batches k (piece ∷ rest) tokens tokens1 emissions emissions1 w w1 h =
      let later : List String × List (Option ℤ) → Action C.World (List String × List (Option ℤ)) =
        λ done. init_chunks C es (suc k) rest (done.0) (done.1) in
      let (u, v, sent, run) =
        continue-ok (λ _. read_tokens C es k 0 piece tokens emissions >>= later)
          (C.batch_init_reserve piece w) (tokens1, emissions1) w1 h in
      let (done, v2, first, others) =
        continue-ok later (read_tokens C es k 0 piece tokens emissions v) (tokens1, emissions1) w1
          run in
      let (new, longer, answers) =
        read_tokens-Answers k 0 piece tokens (done.0) emissions (done.1) v v2 first in
      let (new1, longer1, batches) =
        init_chunks-Batches (suc k) rest (done.0) tokens1 (done.1) emissions1 v2 w1 others in
      (
        new ++ new1,
        longer1 ∙ ap (λ l. l ++ new1) longer ∙ append_assoc tokens new new1,
        batch w v v2 w1 piece rest new new1 sent answers batches,
      )

-- The inputs are of the tokens that were collected, in order.
pub init_inputs-tokens :
    (c : Collected) (yields : SymbolMap String) (names : Names) (a : Addresses) (i : ℕ)
    (symbols tokens : List String)
    → length symbols ≡ length tokens
    → ((j : ℕ) → get_elem? (c.reserve_tokens) (i + j) ≡ get_elem? tokens j)
    → map (λ x. x.underlying_asset) (init_inputs c yields names a i symbols) ≡ map some tokens
unfolding init_inputs init_input
init_inputs-tokens c yields names a i [] [] same at = refl
init_inputs-tokens c yields names a i [] (t ∷ tokens) same at = absurd (omega (arith, same))
init_inputs-tokens c yields names a i (s ∷ symbols) [] same at = absurd (omega (arith, same))
init_inputs-tokens c yields names a i (s ∷ symbols) (t ∷ tokens) same at =
    ap (λ x. x ∷ map (λ y. y.underlying_asset) (init_inputs c yields names a (suc i) symbols))
      (ap (get_elem? (c.reserve_tokens)) (sym (add-zero i)) ∙ at 0)
    ∙ ap (λ l. some t ∷ l)
        (init_inputs-tokens c yields names a (suc i) symbols tokens (omega (arith, same))
          (λ j. ap (get_elem? (c.reserve_tokens)) (suc-add i j) ∙ at (suc j)))

length-init_inputs :
    (c : Collected) (yields : SymbolMap String) (names : Names) (a : Addresses) (i : ℕ)
    (symbols : List String)
    → length (init_inputs c yields names a i symbols) ≡ length symbols
unfolding init_inputs
length-init_inputs c yields names a i [] = refl
length-init_inputs c yields names a i (s ∷ symbols) =
    ap suc (length-init_inputs c yields names a (suc i) symbols)

-- If as many emissions as symbols are collected, and the initialisation of the collected reserves
-- in batches ends without a throw, then its last call configured the tokens that the batches gave,
-- with the collected emissions in order, each twice.
pub init_collected-emissions :
    (C : Chain) (c : Collected) (yields : SymbolMap String) (names : Names) (a : Addresses)
    (w w1 : C.World)
    → length (c.reserve_symbols) ≡ length (c.emission_per_seconds)
    → init_collected C c yields names a w ≡ (ok tt, w1)
    → (tokens : List String) × (v : C.World) × (v1 : C.World) × Batches C v
        (chunk (init_inputs c yields names a 0 (c.reserve_symbols)) 4)
        tokens
        v1
      × (C.configure_assets tokens (twice (c.emission_per_seconds)) v1 ≡ (ok tt, w1))
unfolding init_collected
init_collected-emissions C c yields names a w w1 same h =
    let inputs : List InitInput = init_inputs c yields names a 0 (c.reserve_symbols) in
    let es : List ℤ = c.emission_per_seconds in
    let send : List String × List (Option ℤ) → Action C.World (Unit {0}) =
      λ done. C.configure_assets (done.0) (done.1) in
    let batches : Action C.World (List String × List (Option ℤ)) =
      init_chunks C es 0 (chunk inputs 4) [] [] in
    let (u, v, got, run) =
      continue-ok (λ _. C.lending_pool >> (batches >>= send)) (C.lending_pool_configurator_proxy w)
        tt w1 h in
    let (u2, v2, got2, run2) = continue-ok (λ _. batches >>= send) (C.lending_pool v) tt w1 run in
    let (done, v3, ready, last) = continue-ok send (batches v2) tt w1 run2 in
    let (tokens, is_tokens, got_tokens) =
      init_chunks-Batches C es 0 (chunk inputs 4) [] (done.0) [] (done.1) v2 v3 ready in
    (
      done.0,
      v2,
      v3,
      subst (λ l. Batches C v2 (chunk inputs 4) l v3) (sym is_tokens) got_tokens,
      ap (λ e. C.configure_assets (done.0) e v3)
            (sym (
              init_chunks-emissions C es inputs (done.0) (done.1) v2 v3
                (length-init_inputs c yields names a 0 (c.reserve_symbols) ∙ same) ready))
          ∙ last,
    )
