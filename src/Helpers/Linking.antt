-- ===== src/Helpers/Linking.antt =====
-- helpers/contracts-helpers.ts: linkBytecode. A string of hexadecimal digits is the list of its
-- characters, of any type.
pub mod Patches
pub mod Linked
use code4rena_may.Base.{ℕ, ◌+◌, ◌*◌, String, List, [], ◌∷◌, ◌++◌, Option, none, some}
use code4rena_may.Base.Lists.{take, drop}
use code4rena_may.Market.{SymbolMap, lookup}

-- An entry of `linkReferences[fileName][libName]`, in bytes.
pub record Fixup : Type 0 where
  pub start : ℕ
  pub size : ℕ

abbrev pub References : Type 0
References = SymbolMap (SymbolMap (List Fixup))

module _ {A : Type 0} where
  abbrev pub link_fixup : List A → Fixup → List A → List A
  link_fixup addr fixup bytecode =
      take (2 + fixup.start * 2) bytecode
      ++ (drop 2 addr ++ drop (2 + (fixup.start + fixup.size) * 2) bytecode)

  abbrev pub link_fixups : List A → List Fixup → List A → List A
  link_fixups addr [] bytecode = bytecode
  link_fixups addr (f ∷ fs) bytecode = link_fixups addr fs (link_fixup addr f bytecode)

  -- A library without an address is left out.
  abbrev pub link_library : Option (List A) → List Fixup → List A → List A
  link_library none fixups bytecode = bytecode
  link_library (some addr) fixups bytecode = link_fixups addr fixups bytecode

  abbrev pub link_file : SymbolMap (List A) → SymbolMap (List Fixup) → List A → List A
  link_file libraries [] bytecode = bytecode
  link_file libraries ((name, fixups) ∷ rest) bytecode =
      link_file libraries rest (link_library (lookup name libraries) fixups bytecode)

  unfoldable pub link_bytecode : SymbolMap (List A) → References → List A → List A
  link_bytecode libraries [] bytecode = bytecode
  link_bytecode libraries ((file, references) ∷ rest) bytecode =
      link_bytecode libraries rest (link_file libraries references bytecode)
