-- ===== src/Helpers/Misc.antt =====
-- helpers/misc-utils.ts: the functions on arrays and objects.
pub mod Chunks
use code4rena_may.Base.{
  ℕ, ◌+◌, ◌%◌, ◌==◌, Bool, true, false, not, ◌&&◌, ◌||◌, String, List, [], ◌∷◌, ◌++◌, if◌then◌else◌,
  Option, some, none,
}
use code4rena_may.Base.Lists.{slice}
use code4rena_may.Market.{SymbolMap}
use text.Mathlib.Text.{◌==◌ as str_eq}

module _ {ℓ} {A : Type ℓ} where
  -- One round of `reduce` at the index `i`. A remainder by zero is NaN, which is falsy.
  unfoldable pub chunk_step : List A → ℕ → List (List A) → ℕ → List (List A)
  chunk_step arr chunk_size prev i =
      if chunk_size == 0 || i % chunk_size == 0
      then prev ++ slice arr i (i + chunk_size) ∷ []
      else prev

  unfoldable pub chunk_from : List A → ℕ → List (List A) → List A → ℕ → List (List A)
  chunk_from arr chunk_size prev [] i = prev
  chunk_from arr chunk_size prev (x ∷ xs) i =
      chunk_from arr chunk_size (chunk_step arr chunk_size prev i) xs (i + 1)

  unfoldable pub chunk : List A → ℕ → List (List A)
  chunk arr chunk_size = chunk_from arr chunk_size [] arr 0

-- `Object.keys(o)`
abbrev pub keys {ℓ} : {T : Type ℓ} → SymbolMap T → List String
keys [] = []
keys ((k, v) ∷ m) = k ∷ keys m

-- `o[k] = v`
abbrev pub assign {ℓ} : {T : Type ℓ} → String → T → SymbolMap T → SymbolMap T
assign k v [] = (k, v) ∷ []
assign k v ((j, u) ∷ m) = if str_eq j k then (j, v) ∷ m else (j, u) ∷ assign k v m
