-- ===== src/Contracts/MathUtils.antt =====
-- contracts/protocol/libraries/math/MathUtils.sol. The time of the block is an argument.
use native.Mathlib.Nat.{div-le_self}
use code4rena_may.Base.{
  ◌∙◌, ap, ℕ, ◌+◌, ◌-◌, ◌*◌, ◌/◌, ◌≤◌, ◌<◌, ◌≡◌, arith, Option, some, ◌>>=◌, ltb, ◌==◌,
  if◌then◌else◌, subst,
}
use code4rena_may.Contracts.Reverts.{
  uint_mod, Returns, Returns-bind, Returns-if, some-Holds, Holds, >>=-eq-some,
}
use code4rena_may.Contracts.SafeMath.{
  add, sub, mul, add-Returns, sub-Returns, mul-Returns, sub-eq-some,
}
use code4rena_may.Contracts.WadRayMath.{ray_mul, ray_mul-Returns}
use code4rena_may.Math.Numbers.{ray_n, linear_n, minus_two, binomial_n, compounded_n}

unfoldable pub calculate_linear_interest : ℕ → ℕ → ℕ → Option ℕ
calculate_linear_interest rate last_update_timestamp block_timestamp = do
  time_difference ← sub block_timestamp last_update_timestamp
  scaled ← mul rate time_difference
  add (scaled / 31_536_000) ray_n

-- The binomial approximation, for a period that is not zero.
unfoldable pub binomial_interest : ℕ → ℕ → Option ℕ
binomial_interest rate exp = do
  let exp_minus_one = exp - 1
  let exp_minus_two = if ltb 2 exp then exp - 2 else 0
  let rate_per_second = rate / 31_536_000
  base_power_two ← ray_mul rate_per_second rate_per_second
  base_power_three ← ray_mul base_power_two rate_per_second
  pairs ← mul exp exp_minus_one
  second ← mul pairs base_power_two
  triples ← mul pairs exp_minus_two
  third ← mul triples base_power_three
  simple ← mul rate_per_second exp
  first_two ← add ray_n simple
  first_three ← add first_two (second / 2)
  add first_three (third / 6)

unfoldable pub calculate_compounded_interest : ℕ → ℕ → ℕ → Option ℕ
calculate_compounded_interest rate last_update_timestamp current_timestamp = do
  exp ← sub current_timestamp last_update_timestamp
  if exp == 0 then some ray_n else binomial_interest rate exp

ray_fits : ray_n < uint_mod
ray_fits = omega arith

div-fits : (n k : ℕ) → n < uint_mod → n / k < uint_mod
div-fits n k h = omega (arith, div-le_self n k)

pub linear-Returns :
    (rate last now : ℕ)
    → now < uint_mod
    → Returns (Holds (linear_n rate (now - last))) (calculate_linear_interest rate last now)
unfolding calculate_linear_interest
linear-Returns rate last now h = Returns-bind (sub now last) _ (sub-Returns now last h) λ d hd.
    Returns-bind (mul rate d) _ (mul-Returns rate d) λ s hs r e.
      let (sum, small) =
        add-Returns (s / 31_536_000) ray_n (div-fits s 31_536_000 hs.1) ray_fits r e in
      let product : s ≡ rate * (now - last) = hs.0 ∙ ap (λ x. rate * x) hd.0 in
      (sum ∙ ap (λ x. x / 31_536_000 + ray_n) product, small)

pub binomial-Returns :
    (rate exp : ℕ)
    → Returns (Holds (binomial_n (rate / 31_536_000) exp)) (binomial_interest rate exp)
unfolding binomial_interest
binomial-Returns rate exp =
    let x = rate / 31_536_000 in
    Returns-bind (ray_mul x x) _ (ray_mul-Returns x x) λ p2 h2.
      Returns-bind (ray_mul p2 x) _ (ray_mul-Returns p2 x) λ p3 h3.
        Returns-bind (mul exp (exp - 1)) _ (mul-Returns exp (exp - 1)) λ pairs hp.
          Returns-bind (mul pairs p2) _ (mul-Returns pairs p2) λ second hs.
            Returns-bind (mul pairs (minus_two exp)) _ (mul-Returns pairs (minus_two exp))
              λ triples ht. Returns-bind (mul triples p3) _ (mul-Returns triples p3) λ third hth.
                Returns-bind (mul x exp) _ (mul-Returns x exp) λ simple hx.
                  Returns-bind (add ray_n simple) _ (add-Returns ray_n simple ray_fits hx.1) λ a ha.
                    Returns-bind (add a (second / 2)) _
                      (add-Returns a (second / 2) ha.1 (div-fits second 2 hs.1))
                      λ b hb r e.
                        let (last_sum, small) =
                          add-Returns b (third / 6) hb.1 (div-fits third 6 hth.1) r e in
                        (
                          cc (last_sum, hb.0, ha.0, hx.0, hth.0, ht.0, hs.0, hp.0, h3.0, h2.0),
                          small,
                        )

pub compounded-Returns :
    (rate last now : ℕ)
    → now < uint_mod
    → Returns (Holds (compounded_n rate (now - last))) (calculate_compounded_interest rate last now)
unfolding calculate_compounded_interest
compounded-Returns rate last now h = Returns-bind (sub now last) _ (sub-Returns now last h) λ d hd.
    subst
      (λ t.
        Returns (Holds (compounded_n rate t))
          (if d == 0 then some ray_n else binomial_interest rate d))
      hd.0
      (Returns-if (d == 0) (some ray_n) (binomial_interest rate d) ray_n _
        (some-Holds ray_n ray_fits) (binomial-Returns rate d))

-- Either calculation reverts if the last update lies in the future.
pub linear-eq-some :
    (rate last now : ℕ) {r : ℕ} → calculate_linear_interest rate last now ≡ some r → last ≤ now
unfolding calculate_linear_interest
linear-eq-some rate last now e =
    let (d, done, _) = >>=-eq-some (sub now last) _ e in sub-eq-some now last d done

pub compounded-eq-some :
    (rate last now : ℕ) {r : ℕ} → calculate_compounded_interest rate last now ≡ some r → last ≤ now
unfolding calculate_compounded_interest
compounded-eq-some rate last now e =
    let (d, done, _) = >>=-eq-some (sub now last) _ e in sub-eq-some now last d done
