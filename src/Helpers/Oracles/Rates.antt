-- ===== src/Helpers/Oracles/Rates.antt =====
-- `set_initial_market_rates` against its description without arrays and batches.
use mathlib.Core.List.{append_assoc, append-nil}
use mathlib.Core.Path.{fun_ext}
use code4rena_may.Base.{◌≡◌, refl, ap, ◌∙◌, String, List, [], ◌∷◌, ◌++◌, map, Option, some, none}
use code4rena_may.Base.Int.{ℤ}
use code4rena_may.Effects.{Action, pure, throw, ◌>>=◌, ◌>>◌}
use code4rena_may.Helpers.Oracles.{
  Oracles, MarketRates, Arrays, found, collect, send_chunks, set_initial_market_rates,
}
use code4rena_may.Helpers.Oracles.Batches.{firsts, seconds, IsElementwise, for_pairs-chunk}
use code4rena_may.Market.{SymbolMap, lookup}

abbrev pub cons? : {A : Type 0} → A → Option (List A) → Option (List A)
cons? a none = none
cons? a (some rest) = some (a ∷ rest)

abbrev pub resolve_first :
    Option String → MarketRates → Option (List (String × ℤ)) → Option (List (String × ℤ))
resolve_first none rates rest = none
resolve_first (some address) rates rest = cons? (address, rates.borrow_rate) rest

-- The address and the rate of every symbol, in order, if each has an address.
abbrev pub resolved : SymbolMap MarketRates → SymbolMap String → Option (List (String × ℤ))
resolved [] addresses = some []
resolved ((symbol, rates) ∷ rest) addresses =
    resolve_first (lookup symbol addresses) rates (resolved rest addresses)

module _ (O : Oracles) where
  -- What is sent, once everything is resolved: the helper gets the oracle, sets all rates in one
  -- call, and gives the oracle to the administrator.
  abbrev pub send_rates :
      Option (List (String × ℤ)) → String → String → String → Action O.World (Unit {0})
  send_rates none helper oracle admin = throw "TypeError"
  send_rates (some ps) helper oracle admin =
      O.transfer_ownership helper
      >> (O.set_oracle_borrow_rates (firsts ps) (seconds ps) oracle
          >> O.set_oracle_ownership oracle admin)

  abbrev extended : Option (List (String × ℤ)) → List String → Arrays → Action O.World Arrays
  extended none symbols a = throw "TypeError"
  extended (some ps) symbols a = pure (record {
    asset_addresses = a.asset_addresses ++ firsts ps;
    borrow_rates = a.borrow_rates ++ seconds ps;
    symbols = a.symbols ++ symbols;
  })

  symbols_of : SymbolMap MarketRates → List String
  symbols_of rates = map (λ p. p.0) rates

  pushed : Arrays → String → MarketRates → String → Arrays
  pushed a symbol rates address = record {
    asset_addresses = a.asset_addresses ++ address ∷ [];
    borrow_rates = a.borrow_rates ++ rates.borrow_rate ∷ [];
    symbols = a.symbols ++ symbol ∷ [];
  }

  extended-cons :
      (o : Option (List (String × ℤ))) (symbols : List String) (a : Arrays) (symbol : String)
      (rates : MarketRates) (address : String)
      → extended o symbols (pushed a symbol rates address)
        ≡ extended (cons? (address, rates.borrow_rate) o) (symbol ∷ symbols) a
  unfolding pushed
  extended-cons none symbols a symbol rates address = refl
  extended-cons (some ps) symbols a symbol rates address = simp (append_assoc)

  step :
      (rest : SymbolMap MarketRates) (addresses : SymbolMap String)
      → ((a : Arrays)
          → collect O rest addresses a ≡ extended (resolved rest addresses) (symbols_of rest) a)
      → (rates : MarketRates) (symbol : String) (a : Arrays) (l : Option String)
      → (found l >>= λ address. collect O rest addresses (pushed a symbol rates address))
        ≡ extended (resolve_first l rates (resolved rest addresses)) (symbol ∷ symbols_of rest) a
  step rest addresses others rates symbol a none = refl
  step rest addresses others rates symbol a (some address) =
      others (pushed a symbol rates address)
      ∙ extended-cons (resolved rest addresses) (symbols_of rest) a symbol rates address

  collect-extended :
      (rates : SymbolMap MarketRates) (addresses : SymbolMap String) (a : Arrays)
      → collect O rates addresses a ≡ extended (resolved rates addresses) (symbols_of rates) a
  unfolding collect symbols_of pushed
  collect-extended [] addresses a = simp (append-nil)
  collect-extended ((symbol, rates) ∷ rest) addresses a =
      step rest addresses (collect-extended rest addresses) rates symbol a (lookup symbol addresses)

  send-extended :
      (o : Option (List (String × ℤ))) (symbols : List String) (helper oracle admin : String)
      → IsElementwise (λ tokens rates. O.set_oracle_borrow_rates tokens rates oracle)
      → (extended o symbols (record { asset_addresses = []; borrow_rates = []; symbols = [] })
          >>= send_chunks O helper oracle admin)
        ≡ send_rates o helper oracle admin
  unfolding send_chunks
  send-extended none symbols helper oracle admin E = refl
  send-extended (some ps) symbols helper oracle admin E =
      ap (λ k. O.transfer_ownership helper >> (k >> O.set_oracle_ownership oracle admin))
        (for_pairs-chunk (λ tokens rates. O.set_oracle_borrow_rates tokens rates oracle) E ps 19)

  -- If the helper's contract treats the assets of a call one by one, the function does what its
  -- description does: with a symbol that has no address it throws before it sends anything; else it
  -- makes the helper the owner, sets the rate of every symbol at its address in one call, and gives
  -- the oracle to the administrator.
  pub set_initial_market_rates-refines :
      (rates : SymbolMap MarketRates) (addresses : SymbolMap String) (oracle admin : String)
      → IsElementwise (λ tokens rates. O.set_oracle_borrow_rates tokens rates oracle)
      → set_initial_market_rates O rates addresses oracle admin
        ≡ (O.helper >>= λ helper. send_rates (resolved rates addresses) helper oracle admin)
  unfolding set_initial_market_rates
  set_initial_market_rates-refines rates addresses oracle admin E =
      ap (λ k. O.helper >>= k)
        (fun_ext (λ helper.
          ap (λ m. m >>= send_chunks O helper oracle admin)
            (collect-extended rates addresses
              (record { asset_addresses = []; borrow_rates = []; symbols = [] }))
          ∙ send-extended (resolved rates addresses) (symbols_of rates) helper oracle admin E))
