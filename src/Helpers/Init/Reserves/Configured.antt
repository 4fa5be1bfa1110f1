-- ===== src/Helpers/Init/Reserves/Configured.antt =====
-- The last call of `initReservesByHelper`: the incentives of exactly the reserves that are kept.
use code4rena_may.Base.{◌≡◌, String, List, [], ◌∷◌, ◌++◌, map, Option, some, none, if◌then◌else◌}
use code4rena_may.Base.Int.{ℤ}
use code4rena_may.Base.Lists.{length}
use code4rena_may.Helpers.Misc.{chunk}
use code4rena_may.Effects.{Result, ok, thrown, Action}
use text.Mathlib.Text.{◌==◌ as str_eq}
use code4rena_may.Helpers.Init.Reserves.{Chain, Collected, InitInput}
use code4rena_may.Helpers.Init.Reserves.Emissions.{twice, Batches}
use code4rena_may.Market.{SymbolMap, ReserveParams, lookup}

-- The emissions of the reserves that have an address, in order.
abbrev pub emission_if : Option String → ℤ → List ℤ → List ℤ
emission_if none e rest = rest
emission_if (some token) e rest = if str_eq token "" then rest else e ∷ rest

abbrev pub emissions_of : SymbolMap ReserveParams → SymbolMap String → List ℤ
emissions_of [] addresses = []
emissions_of ((symbol, params) ∷ rest) addresses =
    emission_if (lookup symbol addresses) (params.emission_per_second) (emissions_of rest addresses)

-- Their addresses.
abbrev pub token_if : Option String → List String → List String
token_if none rest = rest
token_if (some token) rest = if str_eq token "" then rest else token ∷ rest

abbrev pub tokens_of : SymbolMap ReserveParams → SymbolMap String → List String
tokens_of [] addresses = []
tokens_of ((symbol, params) ∷ rest) addresses =
    token_if (lookup symbol addresses) (tokens_of rest addresses)

module _ (C : Chain) where
  -- The emissions and the tokens are longer by those, and there are as many symbols as emissions and
  -- as tokens, if there were.
  abbrev Gathers : Collected → List ℤ → List String → Collected → Type 0
  Gathers c es ts d =
      (d.emission_per_seconds ≡ c.emission_per_seconds ++ es)
      × (d.reserve_tokens ≡ c.reserve_tokens ++ ts)
      × (length (c.reserve_symbols) ≡ length (c.emission_per_seconds)
          → length (d.reserve_symbols) ≡ length (d.emission_per_seconds))
      × (length (c.reserve_symbols) ≡ length (c.reserve_tokens)
          → length (d.reserve_symbols) ≡ length (d.reserve_tokens))

  given_back : {A : Type 0} → A → Result A × C.World → A
  given_back a (ok b, w) = b
  given_back a (thrown e, w) = a

  -- The reserves `ts` are initialised in batches of four, and after each batch their two tokens are
  -- read; then the last call configures these tokens with the emissions `es`, each twice.
  pub record Configures (es : List ℤ) (ts : List String) (end : C.World) : Type 0 where
    pub inputs : List InitInput
    pub tokens : List String
    pub at_first : C.World
    pub at_last : C.World
    pub reserves_eq : map (λ i. i.underlying_asset) inputs ≡ map some ts
    pub batches : Batches C at_first (chunk inputs 4) tokens at_last
    pub last_eq : C.configure_assets tokens (twice es) at_last ≡ (ok tt, end)

  -- If the run ends without a throw, that is how it ends.
  abbrev pub Sends : List ℤ → List String → Action C.World (Unit {0}) → Type 0
  Sends es ts m = (w w1 : C.World) → m w ≡ (ok tt, w1) → Configures es ts w1

  abbrev nothing : Collected
  nothing = record {
    strategy_addresses = [];
    strategy_address_per_asset = [];
    a_token_type = [];
    reserve_tokens = [];
    reserve_init_decimals = [];
    reserve_symbols = [];
    emission_per_seconds = [];
  }
