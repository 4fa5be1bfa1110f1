-- ===== src/Helpers/Linking/Patches.antt =====
-- Digits that are replaced in place.
use native.Mathlib.Nat.{zero-add}
use code4rena_may.Base.{
  ℕ, zero, suc, ◌+◌, ◌-◌, ◌*◌, ◌≤◌, ◌<◌, ◌≡◌, ◌∙◌, refl, sym, ap, arith, List, [], ◌∷◌, ◌++◌, ◌⊎◌,
  inl, inr,
}
use code4rena_may.Base.Lists.{length, take, drop, get_elem?, length-drop}
use code4rena_may.Helpers.Linking.{Fixup, link_fixup}

-- The places of a fixup, in digits after the prefix `0x`.
abbrev pub from : Fixup → ℕ
from f = 2 + f.start * 2

abbrev pub upto : Fixup → ℕ
upto f = 2 + (f.start + f.size) * 2

module _ {A : Type 0} where
  length-take : (n : ℕ) (xs : List A) → n ≤ length xs → length (take n xs) ≡ n
  length-take zero xs h = refl
  length-take (suc n) [] h = omega (arith, h)
  length-take (suc n) (x ∷ xs) h = ap suc (length-take n xs (omega (arith, h)))

  length-append : (xs ys : List A) → length (xs ++ ys) ≡ length xs + length ys
  length-append [] ys = omega arith
  length-append (x ∷ xs) ys = omega (arith, length-append xs ys)

  get-append_left :
      (xs ys : List A) (i : ℕ) → i < length xs → get_elem? (xs ++ ys) i ≡ get_elem? xs i
  get-append_left [] ys i h = absurd (omega (arith, h))
  get-append_left (x ∷ xs) ys zero h = refl
  get-append_left (x ∷ xs) ys (suc i) h = get-append_left xs ys i (omega (arith, h))

  get-append_right :
      (xs ys : List A) (i : ℕ)
      → length xs ≤ i
      → get_elem? (xs ++ ys) i ≡ get_elem? ys (i - length xs)
  get-append_right [] ys i h = let e : i - 0 ≡ i = omega arith in ap (get_elem? ys) (sym e)
  get-append_right (x ∷ xs) ys zero h = absurd (omega (arith, h))
  get-append_right (x ∷ xs) ys (suc i) h =
      let e : suc i - suc (length xs) ≡ i - length xs = omega arith in
      get-append_right xs ys i (omega (arith, h)) ∙ ap (get_elem? ys) (sym e)

  get-take : (n : ℕ) (xs : List A) (i : ℕ) → i < n → get_elem? (take n xs) i ≡ get_elem? xs i
  get-take zero xs i h = absurd (omega (arith, h))
  get-take (suc n) [] i h = refl
  get-take (suc n) (x ∷ xs) zero h = refl
  get-take (suc n) (x ∷ xs) (suc i) h = get-take n xs i (omega (arith, h))

  get-drop : (n : ℕ) (xs : List A) (i : ℕ) → get_elem? (drop n xs) i ≡ get_elem? xs (n + i)
  get-drop zero xs i = ap (get_elem? xs) (sym (zero-add i))
  get-drop (suc n) [] i = refl
  get-drop (suc n) (x ∷ xs) i =
      let e : suc n + i ≡ suc (n + i) = omega arith in
      get-drop n xs i ∙ ap (get_elem? (x ∷ xs)) (sym e)

  module _ (addr : List A) (f : Fixup) (code : List A)
      (digits : length (drop 2 addr) ≡ upto f - from f) (inside : upto f ≤ length code) where
    before : length (take (from f) code) ≡ from f
    before = length-take (from f) code (omega (arith, inside))

    pub length-link_fixup : length (link_fixup addr f code) ≡ length code
    length-link_fixup = omega (
      arith,
      before,
      inside,
      digits,
      length-append (take (from f) code) (drop 2 addr ++ drop (upto f) code),
      length-append (drop 2 addr) (drop (upto f) code),
      length-drop (upto f) code,
    )

    pub link_fixup-outside :
        (i : ℕ)
        → (i < from f) ⊎ (upto f ≤ i)
        → get_elem? (link_fixup addr f code) i ≡ get_elem? code i
    link_fixup-outside i (inl h) =
        get-append_left (take (from f) code) _ i (omega (arith, h, before))
        ∙ get-take (from f) code i h
    link_fixup-outside i (inr h) =
        let e : upto f + (i - length (take (from f) code) - length (drop 2 addr)) ≡ i =
          omega (arith, before, digits, h) in
        get-append_right (take (from f) code) _ i (omega (arith, h, before))
        ∙ get-append_right (drop 2 addr) _ (i - length (take (from f) code))
            (omega (arith, h, before, digits))
        ∙ get-drop (upto f) code _
        ∙ ap (get_elem? code) e

    pub link_fixup-inside :
        (j : ℕ)
        → j < upto f - from f
        → get_elem? (link_fixup addr f code) (from f + j) ≡ get_elem? (drop 2 addr) j
    link_fixup-inside j h =
        let e : from f + j - length (take (from f) code) ≡ j = omega (arith, before) in
        get-append_right (take (from f) code) _ (from f + j) (omega (arith, before))
        ∙ ap (get_elem? (drop 2 addr ++ drop (upto f) code)) e
        ∙ get-append_left (drop 2 addr) _ j (omega (arith, h, digits))
