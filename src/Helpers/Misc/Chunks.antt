-- ===== src/Helpers/Misc/Chunks.antt =====
-- `chunk` cuts an array into consecutive pieces.
use mathlib.Core.Bool.{or-true}
use mathlib.Core.List.{flatten, cons≢nil, append-nil, append_assoc}
use native.Mathlib.Nat.{
  mul-add-mod_self_right, mod-eq_of_lt, mul-mod_left, zero-mul, add-zero, add_assoc,
}
use code4rena_may.Base.{
  ℕ, zero, suc, ◌+◌, ◌-◌, ◌*◌, ◌%◌, ◌≤◌, ◌<◌, ◌≡◌, refl, sym, ap, ◌∙◌, ◌==◌, true, false, ◌||◌,
  List, [], ◌∷◌, ◌++◌, map, Bool-cases, inl, inr, arith, ◌⊎◌,
}
use code4rena_may.Base.Lists.{
  length, take, drop, slice, drop-drop, length-drop, length-map, length-take-le, take-append-drop,
  take-map, drop-map,
}
use code4rena_may.Helpers.Misc.{chunk_step, chunk_from, chunk}

-- The reference: pieces of `n`, as long as `fuel` lasts.
abbrev pub groups {ℓ} : {A : Type ℓ} → ℕ → ℕ → List A → List (List A)
groups zero n xs = []
groups (suc fuel) n [] = []
groups (suc fuel) n (x ∷ xs) = take n (x ∷ xs) ∷ groups fuel n (drop n (x ∷ xs))

drop-one : (k : ℕ) → 1 + k ≡ suc k
drop-one k = omega arith

one-step : (r k : ℕ) → r + 1 + k ≡ r + suc k
one-step r k = omega arith

module _ {ℓ} {A : Type ℓ} (arr : List A) where
  step-append :
      (n : ℕ) (prev : List (List A)) (i : ℕ)
      → chunk_step arr n prev i ≡ prev ++ chunk_step arr n [] i
  unfolding chunk_step
  step-append n prev i = elim (Bool-cases (n == 0 || i % n == 0)) [
    | inl e ↦ simp (e)
    | inr e ↦ simp (e, append-nil)
  ]

  from-append :
      (n : ℕ) (prev : List (List A)) (xs : List A) (i : ℕ)
      → chunk_from arr n prev xs i ≡ prev ++ chunk_from arr n [] xs i
  unfolding chunk_from
  from-append n prev [] i = simp (append-nil)
  from-append n prev (x ∷ xs) i =
      from-append n (chunk_step arr n prev i) xs (i + 1)
      ∙ ap (λ l. l ++ chunk_from arr n [] xs (i + 1)) (step-append n prev i)
      ∙ append_assoc prev (chunk_step arr n [] i) (chunk_from arr n [] xs (i + 1))
      ∙ ap (λ l. prev ++ l) (sym (from-append n (chunk_step arr n [] i) xs (i + 1)))

  inside : (n q r : ℕ) → 0 < r → r < n → (n == 0 || (q * n + r) % n == 0) ≡ false
  inside n q r pos lt =
      let e : (q * n + r) % n ≡ r = mul-add-mod_self_right q n r ∙ mod-eq_of_lt lt in ground arith

  skip_one :
      (n q r : ℕ) (xs : List A)
      → 0 < r
      → r < n
      → chunk_from arr n [] xs (q * n + r) ≡ chunk_from arr n [] (drop 1 xs) (q * n + r + 1)
  unfolding chunk_from chunk_step
  skip_one n q r [] pos lt = refl
  skip_one n q r (x ∷ xs) pos lt = simp (inside n q r pos lt)

  skip :
      (k n q r : ℕ) (xs : List A)
      → 0 < r
      → r + k ≤ n
      → chunk_from arr n [] xs (q * n + r) ≡ chunk_from arr n [] (drop k xs) (q * n + (r + k))
  skip zero n q r xs pos le = rw (add-zero r)
  skip (suc k) n q r xs pos le =
      skip_one n q r xs pos (omega arith)
      ∙ ap (chunk_from arr n [] (drop 1 xs)) (add_assoc (q * n) r 1)
      ∙ skip k n q (r + 1) (drop 1 xs) (omega arith) (omega arith)
      ∙ ap (λ l. chunk_from arr n [] l (q * n + (r + 1 + k))) (drop-drop 1 k xs)
      ∙ simp (drop-one k, one-step r k)

  at_start : (n q : ℕ) → (n == 0 || (q * n) % n == 0) ≡ true
  at_start n q = let e : (q * n) % n ≡ 0 = mul-mod_left q n in simp (e, or-true)

  next_start : (m q : ℕ) → q * suc m + (1 + m) ≡ (q + 1) * suc m
  next_start m q = omega arith

  next_drop : (m q : ℕ) → q * suc m + suc m ≡ (q + 1) * suc m
  next_drop m q = omega arith

  first_of : (i n : ℕ) → i + n - i ≡ n
  first_of i n = omega arith

  from_boundary :
      (fuel m q : ℕ) (xs : List A)
      → length xs ≤ fuel
      → xs ≡ drop (q * suc m) arr
      → chunk_from arr (suc m) [] xs (q * suc m) ≡ groups fuel (suc m) xs
  unfolding chunk_from chunk_step
  from_boundary zero m q [] le e = refl
  from_boundary (suc fuel) m q [] le e = refl
  from_boundary zero m q (x ∷ xs) le e = absurd (omega (arith, le))
  from_boundary (suc fuel) m q (x ∷ xs) le e =
      let piece : slice arr (q * suc m) (q * suc m + suc m) ≡ take (suc m) (x ∷ xs) =
        ap (λ k. take k (drop (q * suc m) arr)) (first_of (q * suc m) (suc m))
        ∙ ap (take (suc m)) (sym e) in
      let rest : drop m xs ≡ drop ((q + 1) * suc m) arr =
        ap (drop (suc m)) e
        ∙ drop-drop (q * suc m) (suc m) arr
        ∙ ap (λ k. drop k arr) (next_drop m q) in
      let short : length (drop m xs) ≤ fuel = omega (arith, length-drop m xs, le) in
      let tail : chunk_from arr (suc m) [] xs (q * suc m + 1) ≡ groups fuel (suc m) (drop m xs) =
        skip m (suc m) q 1 xs (omega arith) (omega arith)
        ∙ ap (chunk_from arr (suc m) [] (drop m xs)) (next_start m q)
        ∙ from_boundary fuel m (q + 1) (drop m xs) short rest in
      let first : List (List A) = slice arr (q * suc m) (q * suc m + suc m) ∷ [] in
      let start : chunk_from arr (suc m) [] (x ∷ xs) (q * suc m)
          ≡ chunk_from arr (suc m) first xs (q * suc m + 1) =
        simp (at_start (suc m) q) in
      start ∙ from-append (suc m) first xs (q * suc m + 1) ∙ cc (piece, tail)

-- For a positive size, `chunk` is the reference cut, of pieces taken from the front one after
-- the other until the array is used up.
pub chunk-groups {ℓ} :
    {A : Type ℓ} (arr : List A) (m : ℕ) → chunk arr (suc m) ≡ groups (length arr) (suc m) arr
unfolding chunk
chunk-groups arr m =
    ap (chunk_from arr (suc m) [] arr) (sym (zero-mul (suc m)))
    ∙ from_boundary arr (length arr) m 0 arr (omega arith)
        (ap (λ k. drop k arr) (sym (zero-mul (suc m))))

flatten-groups {ℓ} :
    {A : Type ℓ} (fuel m : ℕ) (xs : List A)
    → length xs ≤ fuel
    → flatten (groups fuel (suc m) xs) ≡ xs
unfolding flatten
flatten-groups zero m [] le = refl
flatten-groups (suc fuel) m [] le = refl
flatten-groups zero m (x ∷ xs) le = absurd (omega (arith, le))
flatten-groups (suc fuel) m (x ∷ xs) le =
    ap (λ l. take (suc m) (x ∷ xs) ++ l)
      (flatten-groups fuel m (drop m xs) (omega (arith, length-drop m xs, le)))
    ∙ take-append-drop (suc m) (x ∷ xs)

-- Every piece has an element and at most `n`, and one that is shorter than `n` is the last.
abbrev pub Even {ℓ} : {A : Type ℓ} → ℕ → List (List A) → Type 0
Even n [] = Unit
Even n (p ∷ []) = 0 < length p × length p ≤ n
Even n (p ∷ q ∷ ps) = (0 < length p × length p ≡ n) × Even n (q ∷ ps)

groups-map {ℓ κ} :
    {A : Type ℓ} {B : Type κ} (f : A → B) (fuel n : ℕ) (xs : List A)
    → groups fuel n (map f xs) ≡ map (map f) (groups fuel n xs)
groups-map f zero n xs = refl
groups-map f (suc fuel) n [] = refl
groups-map f (suc fuel) n (x ∷ xs) =
    ap (λ l. l ∷ groups fuel n (drop n (map f (x ∷ xs)))) (take-map f n (x ∷ xs))
    ∙ ap (λ l. map f (take n (x ∷ xs)) ∷ groups fuel n l) (drop-map f n (x ∷ xs))
    ∙ ap (λ l. map f (take n (x ∷ xs)) ∷ l) (groups-map f fuel n (drop n (x ∷ xs)))

groups-nil {ℓ} : {A : Type ℓ} (fuel n : ℕ) → groups {A = A} fuel n [] ≡ []
groups-nil zero n = refl
groups-nil (suc fuel) n = refl

pub length-take_full {ℓ} :
    {A : Type ℓ} (n : ℕ) (xs : List A) → n ≤ length xs → length (take n xs) ≡ n
length-take_full zero xs le = refl
length-take_full (suc n) [] le = absurd (omega (arith, le))
length-take_full (suc n) (x ∷ xs) le = ap suc (length-take_full n xs (omega (arith, le)))

pub List-cases {ℓ} : {A : Type ℓ} (xs : List A) → (xs ≡ []) ⊎ (0 < length xs)
List-cases [] = inl refl
List-cases (x ∷ xs) = inr (omega arith)

Even-cons {ℓ} :
    {A : Type ℓ} (n : ℕ) (p : List A) (ps : List (List A))
    → 0 < length p
    → length p ≤ n
    → (ps ≡ []) ⊎ (length p ≡ n)
    → Even n ps
    → Even n (p ∷ ps)
Even-cons n p [] pos le last even = (pos, le)
Even-cons n p (q ∷ qs) pos le (inl e) even = absurd (cons≢nil e)
Even-cons n p (q ∷ qs) pos le (inr e) even = ((pos, e), even)

groups-Even {ℓ} : {A : Type ℓ} (fuel m : ℕ) (xs : List A) → Even (suc m) (groups fuel (suc m) xs)
groups-Even zero m xs = tt
groups-Even (suc fuel) m [] = tt
groups-Even (suc fuel) m (x ∷ xs) =
    Even-cons (suc m) (take (suc m) (x ∷ xs)) (groups fuel (suc m) (drop m xs)) (omega arith)
      (length-take-le (suc m) (x ∷ xs))
      (elim (List-cases (drop m xs)) [
        | inl e ↦ inl (ap (groups fuel (suc m)) e ∙ groups-nil fuel (suc m))
        | inr pos ↦ inr (length-take_full (suc m) (x ∷ xs) (omega (arith, length-drop m xs, pos)))
      ])
      (groups-Even fuel m (drop m xs))

-- For a positive size n: the pieces of `chunk` put one after the other are the array; each has
-- an element, and at most n of them; each but the last has n; and cutting commutes with mapping
-- the elements, so that arrays that are images of one array are cut at the same places.
pub chunk-pieces {ℓ κ} :
    {A : Type ℓ} {B : Type κ} (f : A → B) (arr : List A) (m : ℕ)
    → (flatten (chunk arr (suc m)) ≡ arr)
      × Even (suc m) (chunk arr (suc m))
      × (chunk (map f arr) (suc m) ≡ map (map f) (chunk arr (suc m)))
chunk-pieces f arr m =
    let fuel : ℕ = length arr in
    let same : chunk (map f arr) (suc m) ≡ map (map f) (groups fuel (suc m) arr) =
      chunk-groups (map f arr) m
      ∙ ap (λ k. groups k (suc m) (map f arr)) (length-map f arr)
      ∙ groups-map f fuel (suc m) arr in
    rw (chunk-groups arr m)
      ((flatten-groups fuel m arr (omega arith), groups-Even fuel m arr, same))
