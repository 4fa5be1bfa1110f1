-- ===== src/Helpers/Linking/Linked.antt =====
-- linkBytecode against a reading of its result digit by digit.
use code4rena_may.Base.{
  ℕ, ◌+◌, ◌-◌, ◌≤◌, ◌≡◌, ◌∙◌, refl, sym, ap, subst, if◌then◌else◌, arith, ◌&&◌, ltb, leb, List, [],
  ◌∷◌, ◌++◌, Option, none, some, inl, inr, Bool-cases, leb→le, leb-false→lt, ltb→lt, ltb-false→le,
}
use code4rena_may.Base.Lists.{length, drop, get_elem?}
use code4rena_may.Market.{SymbolMap, lookup}
use code4rena_may.Helpers.Linking.{
  Fixup, References, link_fixup, link_library, link_file, link_bytecode,
}
use code4rena_may.Helpers.Linking.Patches.{
  from, upto, length-link_fixup, link_fixup-outside, link_fixup-inside,
}

module _ {A : Type 0} where
  -- The fixups of the libraries that have an address, each with the address, in order.
  abbrev pub library_patches : Option (List A) → List Fixup → List (List A × Fixup)
  library_patches none fixups = []
  library_patches (some addr) [] = []
  library_patches (some addr) (f ∷ fs) = (addr, f) ∷ library_patches (some addr) fs

  abbrev pub file_patches : SymbolMap (List A) → SymbolMap (List Fixup) → List (List A × Fixup)
  file_patches libraries [] = []
  file_patches libraries ((name, fixups) ∷ rest) =
      library_patches (lookup name libraries) fixups ++ file_patches libraries rest

  unfoldable pub patches : SymbolMap (List A) → References → List (List A × Fixup)
  patches libraries [] = []
  patches libraries ((file, references) ∷ rest) =
      file_patches libraries references ++ patches libraries rest

  -- An address has as many digits as its fixup, which ends within `n` digits.
  pub record Fits (n : ℕ) (p : List A × Fixup) : Type 0 where
    pub digits : length (drop 2 p.0) ≡ upto p.1 - from p.1
    pub inside : upto p.1 ≤ n

  unfoldable pub AllFit : ℕ → List (List A × Fixup) → Type 0
  AllFit n [] = Unit {0}
  AllFit n (p ∷ ps) = Fits n p × AllFit n ps

  -- The digit at a place: of the last address that covers it, or else the one before linking.
  unfoldable pub digit_at : List (List A × Fixup) → ℕ → Option A → Option A
  digit_at [] i d = d
  digit_at ((addr, f) ∷ ps) i d =
      digit_at ps i
        (if leb (from f) i && ltb i (upto f) then get_elem? (drop 2 addr) (i - from f) else d)

  apply_all : List (List A × Fixup) → List A → List A
  apply_all [] code = code
  apply_all ((addr, f) ∷ ps) code = apply_all ps (link_fixup addr f code)

  apply_all-append :
      (ps qs : List (List A × Fixup)) (code : List A)
      → apply_all (ps ++ qs) code ≡ apply_all qs (apply_all ps code)
  unfolding apply_all
  apply_all-append [] qs code = refl
  apply_all-append ((addr, f) ∷ ps) qs code = apply_all-append ps qs (link_fixup addr f code)

  link_library-patches :
      (found : Option (List A)) (fixups : List Fixup) (code : List A)
      → link_library found fixups code ≡ apply_all (library_patches found fixups) code
  unfolding apply_all
  link_library-patches none fixups code = refl
  link_library-patches (some addr) [] code = refl
  link_library-patches (some addr) (f ∷ fs) code =
      link_library-patches (some addr) fs (link_fixup addr f code)

  link_file-patches :
      (libraries : SymbolMap (List A)) (references : SymbolMap (List Fixup)) (code : List A)
      → link_file libraries references code ≡ apply_all (file_patches libraries references) code
  unfolding apply_all
  link_file-patches libraries [] code = refl
  link_file-patches libraries ((name, fixups) ∷ rest) code =
      link_file-patches libraries rest (link_library (lookup name libraries) fixups code)
      ∙ ap (apply_all (file_patches libraries rest))
          (link_library-patches (lookup name libraries) fixups code)
      ∙ sym (apply_all-append (library_patches (lookup name libraries) fixups) _ code)

  link_bytecode-patches :
      (libraries : SymbolMap (List A)) (references : References) (code : List A)
      → link_bytecode libraries references code ≡ apply_all (patches libraries references) code
  unfolding apply_all patches link_bytecode
  link_bytecode-patches libraries [] code = refl
  link_bytecode-patches libraries ((file, fixups) ∷ rest) code =
      link_bytecode-patches libraries rest (link_file libraries fixups code)
      ∙ ap (apply_all (patches libraries rest)) (link_file-patches libraries fixups code)
      ∙ sym (apply_all-append (file_patches libraries fixups) _ code)

  link_fixup-digit :
      (addr : List A) (f : Fixup) (code : List A) (i : ℕ)
      → Fits (length code) (addr, f)
      → get_elem? (link_fixup addr f code) i ≡ (
          if leb (from f) i && ltb i (upto f)
          then get_elem? (drop 2 addr) (i - from f)
          else get_elem? code i)
  link_fixup-digit addr f code i fits = elim (Bool-cases (leb (from f) i)) [
    | inl low ↦ elim (Bool-cases (ltb i (upto f))) [
      | inl high ↦
          let e : from f + (i - from f) ≡ i = omega (arith, leb→le (from f) i low) in
          simp (low, high)
            (ap (get_elem? (link_fixup addr f code)) (sym e)
              ∙ link_fixup-inside addr f code fits.digits fits.inside (i - from f)
                  (omega (arith, leb→le (from f) i low, ltb→lt i (upto f) high)))
      | inr high ↦
          simp (low, high)
            (link_fixup-outside addr f code fits.digits fits.inside i
              (inr (ltb-false→le i (upto f) high)))
    ]
    | inr low ↦ simp (low) (
        link_fixup-outside addr f code fits.digits fits.inside i
          (inl (leb-false→lt (from f) i low)))
  ]

  apply_all-digits :
      (ps : List (List A × Fixup)) (code : List A) (i : ℕ)
      → AllFit (length code) ps
      → (length (apply_all ps code) ≡ length code)
        × (get_elem? (apply_all ps code) i ≡ digit_at ps i (get_elem? code i))
  unfolding apply_all AllFit digit_at
  apply_all-digits [] code i fits = (refl, refl)
  apply_all-digits ((addr, f) ∷ ps) code i (fits, rest) =
      let same : length (link_fixup addr f code) ≡ length code =
        length-link_fixup addr f code fits.digits fits.inside in
      let (long, digit) =
        apply_all-digits ps (link_fixup addr f code) i (subst (λ n. AllFit n ps) (sym same) rest) in
      (long ∙ same, digit ∙ ap (digit_at ps i) (link_fixup-digit addr f code i fits))

  -- When every address has as many digits as its fixup and every fixup lies within the bytecode,
  -- linkBytecode keeps the length of the bytecode, and the digit at each place is that of the last
  -- address whose fixup covers the place, or the one that stood there when none does.
  pub link_bytecode-digits :
      (libraries : SymbolMap (List A)) (references : References) (code : List A) (i : ℕ)
      → AllFit (length code) (patches libraries references)
      → (length (link_bytecode libraries references code) ≡ length code)
        × (get_elem? (link_bytecode libraries references code) i
            ≡ digit_at (patches libraries references) i (get_elem? code i))
  link_bytecode-digits libraries references code i fits =
      rw (link_bytecode-patches libraries references code)
        (apply_all-digits (patches libraries references) code i fits)
