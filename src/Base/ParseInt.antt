-- ===== src/Base/ParseInt.antt =====
-- `parseInt` of the language, as far as an array's index shows it: `none` where the result is NaN or
-- below zero, which is no index.
use Prim.Native.Char.{code}
use Prim.Native.String.{String, [], ◌∷◌}
use code4rena_may.Base.{
  ℕ, ◌+◌, ◌-◌, ◌*◌, Bool, true, false, ◌&&◌, ◌||◌, Option, some, none, ltb, leb, ◌==◌, ◌>>=◌,
  if◌then◌else◌,
}

abbrev pub is_between : ℕ → ℕ → ℕ → Bool
is_between a b n = leb a n && leb n b

-- The code of a space, a control character that counts as one, or a line's end.
abbrev pub is_space : ℕ → Bool
is_space n =
    is_between 9 13 n
    || n == 32
    || n == 160
    || n == 5760
    || is_between 8192 8202 n
    || is_between 8232 8233 n
    || n == 8239
    || n == 8287
    || n == 12288
    || n == 65279

unfoldable pub trimmed : String → String
trimmed [] = []
trimmed (c ∷ s) = let rest = trimmed s in if is_space (code c) then rest else c ∷ s

unfoldable pub digit : ℕ → ℕ → Option ℕ
digit radix n =
    let d =
      if is_between 48 57 n
      then n - 48
      else if is_between 97 122 n
      then n - 87
      else if is_between 65 90 n
      then n - 55
      else 36 in
    if ltb d radix then some d else none

-- The value of the digits in front, and `none` without any.
unfoldable pub digits : ℕ → Option ℕ → String → Option ℕ
digits radix read [] = read
digits radix read (c ∷ s) = elim (digit radix (code c)) [
  | none ↦ read
  | some d ↦ digits radix (some (elim read [ none ↦ d | some n ↦ n * radix + d ])) s
]

-- Without a radix, `0x` in front makes it 16.
unfoldable pub numeral : Bool → String → Option ℕ
numeral any_radix [] = none
numeral any_radix (c ∷ []) = digits 10 none (c ∷ [])
numeral any_radix (c ∷ d ∷ s) =
    if any_radix && code c == 48 && (code d == 120 || code d == 88)
    then digits 16 none s
    else digits 10 none (c ∷ d ∷ s)

unfoldable pub signed : Bool → String → Option ℕ
signed any_radix [] = none
signed any_radix (c ∷ s) =
    if code c == 45
    then (numeral any_radix s >>= λ n. if n == 0 then some 0 else none)
    else numeral any_radix (if code c == 43 then s else c ∷ s)

-- `parseInt(s)`
unfoldable pub parse_int : String → Option ℕ
parse_int s = signed true (trimmed s)

-- `parseInt(s, 10)`
unfoldable pub parse_decimal : String → Option ℕ
parse_decimal s = signed false (trimmed s)
