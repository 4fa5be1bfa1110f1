-- ===== src/Calculations/Reserve/Accounting/Settled.antt =====
-- Data that add up, and the steps that lead there.
use code4rena_may.Base.{ℕ, ◌+◌, ◌≤◌, ◌≡◌, ◌∙◌, ap, arith, some, ◌>>=◌, String}
use code4rena_may.BigNumber.{BigNumber, IsExact}
use code4rena_may.BigNumber.Laws.{nat, plus-nat}
use code4rena_may.Math.Numbers.{ray_n}
use code4rena_may.Math.Curve.{utilization_n}
use code4rena_may.Math.Curve.Bounds.{utilization-le}
use code4rena_may.Market.{SymbolMap, ReserveParams, ExpectedReserveData, lookup}
use code4rena_may.Calculations.Rates.{
  calc_expected_utilization_rate, calc_expected_interest_rates, rates_of,
}
use code4rena_may.Calculations.Rates.Exact.{utilization-nat, interest_rates-found}

-- The available liquidity is `a`, the debts are numbers, the total liquidity is their sum, and the
-- utilization is a number of at most one ray.
pub record IsSettled (B : BigNumber) (a : ℕ) (d : ExpectedReserveData B.BN) : Type 0 where
  pub stable : ℕ
  pub variable : ℕ
  pub utilization : ℕ
  pub available_eq : d.available_liquidity ≡ nat B a
  pub stable_eq : d.total_stable_debt ≡ nat B stable
  pub variable_eq : d.total_variable_debt ≡ nat B variable
  pub total_eq : d.total_liquidity ≡ nat B (a + stable + variable)
  pub utilization_eq : d.utilization_rate ≡ nat B utilization
  pub utilization_le : utilization ≤ ray_n

-- A calculation whose rates are known returns.
module _ (B : BigNumber) (reserves_params : SymbolMap ReserveParams) (symbol : String)
    (params : ReserveParams) (found : lookup symbol reserves_params ≡ some params) where
  pub returns :
      (market u s v average : B.BN) (f : B.BN × B.BN × B.BN → ExpectedReserveData B.BN)
      → (calc_expected_interest_rates B reserves_params symbol market u s v average >>= λ rates.
          some (f rates))
        ≡ some (f (rates_of B params market u s v average))
  returns market u s v average f =
      ap (λ o. o >>= λ rates. some (f rates))
        (interest_rates-found B reserves_params symbol market u s v average params found)

module _ {B : BigNumber} (L : IsExact B) where
  module _ {x y z : B.BN} (a s v : ℕ) (hx : x ≡ nat B a) (hy : y ≡ nat B s) (hz : z ≡ nat B v) where
    pub total_sv : B.plus (B.plus x y) z ≡ nat B (a + s + v)
    total_sv = simp (hx, hy, hz, plus-nat L)

    pub total_vs : B.plus (B.plus x z) y ≡ nat B (a + s + v)
    total_vs = let swap : a + v + s ≡ a + s + v = omega arith in simp (hx, hy, hz, plus-nat L, swap)

    pub utilization_at :
        {t : B.BN}
        → t ≡ nat B (a + s + v)
        → calc_expected_utilization_rate B y z t ≡ nat B (utilization_n s v (a + s + v))
    utilization_at ht = cc (utilization-nat L s v (a + s + v) (omega arith), hy, hz, ht)

  pub covered : (a s v : ℕ) → utilization_n s v (a + s + v) ≤ ray_n
  covered a s v = utilization-le s v (a + s + v) (omega arith)

  -- Data whose total and utilization are computed from their parts add up.
  pub settle :
      (d : ExpectedReserveData B.BN) (a s v : ℕ)
      → d.available_liquidity ≡ nat B a
      → d.total_stable_debt ≡ nat B s
      → d.total_variable_debt ≡ nat B v
      → d.total_liquidity ≡ nat B (a + s + v)
      → d.utilization_rate
        ≡ calc_expected_utilization_rate B d.total_stable_debt d.total_variable_debt
            d.total_liquidity
      → IsSettled B a d
  settle d a s v available stable variable total utilization = record {
    stable = s;
    variable = v;
    utilization = utilization_n s v (a + s + v);
    available_eq = available;
    stable_eq = stable;
    variable_eq = variable;
    total_eq = total;
    utilization_eq = utilization ∙ utilization_at a s v available stable variable total;
    utilization_le = covered a s v;
  }
