-- ===== src/Contracts/SafeMath.antt =====
-- contracts/dependencies/openzeppelin/contracts/SafeMath.sol.
use native.Mathlib.Nat.{mul-div-le}
use code4rena_may.Base.{
  ℕ, ◌+◌, ◌-◌, ◌*◌, ◌/◌, ◌%◌, ◌≤◌, ◌<◌, ◌≡◌, arith, Option, some, none, leb, ◌==◌, if◌then◌else◌,
}
use code4rena_may.Contracts.Reverts.{uint_mod, Returns, Holds}

unfoldable pub add : ℕ → ℕ → Option ℕ
add a b = let c = (a + b) % uint_mod in if leb a c then some c else none

unfoldable pub sub : ℕ → ℕ → Option ℕ
sub a b = if leb b a then some (a - b) else none

unfoldable pub mul : ℕ → ℕ → Option ℕ
mul a b =
    let c = (a * b) % uint_mod in if a == 0 then some 0 else (if c / a == b then some c else none)

pub add-Returns : (a b : ℕ) → a < uint_mod → b < uint_mod → Returns (Holds (a + b)) (add a b)
unfolding add
add-Returns a b ha hb r e = ground arith

pub sub-Returns : (a b : ℕ) → a < uint_mod → Returns (Holds (a - b)) (sub a b)
unfolding sub
sub-Returns a b h r e = ground arith

pub sub-eq-some : (a b r : ℕ) → sub a b ≡ some r → b ≤ a
unfolding sub
sub-eq-some a b r e = ground arith

-- The check of `mul` catches every product that has wrapped around.
unwrapped : (a b c : ℕ) → c ≤ a * b → c / a ≡ b → c ≡ a * b
unwrapped a b c h e = let low : a * b ≤ c = rw (← e) (mul-div-le c a) in omega arith

mod-le : (n : ℕ) → n % uint_mod ≤ n
mod-le n = omega arith

pub mul-Returns : (a b : ℕ) → Returns (Holds (a * b)) (mul a b)
unfolding mul
mul-Returns a b r e = ground (arith, unwrapped a b ((a * b) % uint_mod), mod-le (a * b))
