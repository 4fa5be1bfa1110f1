-- ===== src/Tests/Linking.antt =====
-- linkBytecode on a bytecode with two fixups, whose digits are numbers.
use code4rena_may.Base.{ℕ, ◌≡◌, refl, List, [], ◌∷◌, arith}
use code4rena_may.Base.Lists.{length, get_elem?}
use code4rena_may.Market.{lookup, SymbolMap}
use code4rena_may.Helpers.Linking.{Fixup, References, link_bytecode}
use code4rena_may.Helpers.Linking.Linked.{AllFit, patches, digit_at, link_bytecode-digits}

abbrev fixup : ℕ → Fixup
fixup n = record { start = n; size = 1 }

abbrev libraries : SymbolMap (List ℕ)
libraries = ("ValidationLogic", (0 ∷ 20 ∷ 5 ∷ 6 ∷ [])) ∷ []

abbrev references : References
references =
    ("a.sol", (("GenericLogic", fixup 0 ∷ []) ∷ ("ValidationLogic", fixup 1 ∷ fixup 3 ∷ []) ∷ []))
    ∷ []

abbrev bytecode : List ℕ
bytecode = 0 ∷ 20 ∷ 1 ∷ 1 ∷ 2 ∷ 2 ∷ 3 ∷ 3 ∷ 4 ∷ 4 ∷ []

linked : link_bytecode libraries references bytecode ≡ 0 ∷ 20 ∷ 1 ∷ 1 ∷ 5 ∷ 6 ∷ 3 ∷ 3 ∷ 5 ∷ 6 ∷ []
unfolding link_bytecode lookup
linked = refl

fits : AllFit (length bytecode) (patches libraries references)
unfolding AllFit patches lookup
fits = (
  record { digits = refl; inside = omega arith },
  (record { digits = refl; inside = omega arith }, tt),
)

link_bytecode-digits_example :
    (length (link_bytecode libraries references bytecode) ≡ length bytecode)
    × (get_elem? (link_bytecode libraries references bytecode) 5
        ≡ digit_at (patches libraries references) 5 (get_elem? bytecode 5))
link_bytecode-digits_example = link_bytecode-digits libraries references bytecode 5 fits
