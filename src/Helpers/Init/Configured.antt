-- ===== src/Helpers/Init/Configured.antt =====
-- `configure_reserves_by_helper` against its description: which reserves, in which order, in which batches.
use mathlib.Core.List.{append_assoc, append-nil, map-append}
use mathlib.Core.Path.{fun_ext}
use code4rena_may.Base.{
  ◌≡◌, refl, sym, ap, ◌∙◌, String, Bool, true, false, not, ◌&&◌, List, [], ◌∷◌, ◌++◌, map, Option,
  some, none, Option-cases, Bool-cases, inl, inr, if◌then◌else◌,
}
use code4rena_may.Base.Int.{negsuc, eq_ℤ}
use code4rena_may.Effects.{ok, Action, pure, ◌>>=◌, ◌>>◌, for_each, continue}
use code4rena_may.Helpers.Misc.{chunk}
use code4rena_may.Helpers.Init.{
  Configuration, ConfigInput, Inputs, config_input, push_input, collect_one, collect_inputs,
  configure_collected, configure_reserves_by_helper,
}
use code4rena_may.Helpers.Verification.{truthy}
use code4rena_may.Market.{SymbolMap, ReserveParams, lookup}

-- The inputs of the reserves that are configured, in order: those with an address that is set, an
-- LTV other than -1, and whose token `enabled` does not say to be enabled as collateral already.
abbrev pub eligible : (String → Bool) → Option String → ReserveParams → Bool
eligible enabled none params = false
eligible enabled (some token) params =
    truthy (some token)
    && not (eq_ℤ (params.base_ltv_as_collateral) (negsuc 0))
    && not (enabled token)

abbrev pub input_if : Bool → Option String → ReserveParams → List ConfigInput → List ConfigInput
input_if true (some token) params rest = config_input token params ∷ rest
input_if true none params rest = rest
input_if false token params rest = rest

abbrev pub inputs_of :
    (String → Bool) → SymbolMap ReserveParams → SymbolMap String → List ConfigInput
inputs_of enabled [] addresses = []
inputs_of enabled ((symbol, params) ∷ rest) addresses =
    let token = lookup symbol addresses in
    input_if (eligible enabled token params) token params (inputs_of enabled rest addresses)

input_if-append :
    (b : Bool) (l : Option String) (params : ReserveParams) (rest : List ConfigInput)
    → input_if b l params [] ++ rest ≡ input_if b l params rest
input_if-append true none params rest = refl
input_if-append true (some token) params rest = refl
input_if-append false l params rest = refl

abbrev assets : List ConfigInput → List String
assets ins = map (λ i. i.asset) ins

abbrev empty : Inputs
empty = record { tokens = []; symbols = []; input_params = [] }

module _ (C : Configuration) where
  -- Nothing to configure, or a call for each batch between the changes of the administrator.
  abbrev pub send_inputs : String → String → List ConfigInput → Action C.World (Unit {0})
  send_inputs helper admin [] = pure tt
  send_inputs helper admin (i ∷ others) =
      C.set_pool_admin helper
      >> (for_each (C.configure_reserves) (chunk (i ∷ others) 20) >> C.set_pool_admin admin)

  -- The run ends in the same world, with the arrays longer by those inputs.
  Collects : Inputs → List ConfigInput → Action C.World Inputs → C.World → Type 0
  Collects a new m w =
      (b : Inputs) × (m w ≡ (ok b, w))
      × (b.input_params ≡ a.input_params ++ new)
      × (b.tokens ≡ a.tokens ++ assets new)

  stays : (a : Inputs) (w : C.World) → Collects a [] (pure a) w
  unfolding Collects
  stays a w = (a, refl, sym (append-nil (a.input_params)), sym (append-nil (a.tokens)))

  module _ (enabled : C.World → String → Bool)
      (reads : (token : String) (w : C.World)
        → C.usage_as_collateral_enabled token w ≡ (ok (enabled w token), w)) where
    asked :
        (token symbol : String) (params : ReserveParams) (a : Inputs) (w : C.World)
        → Collects a
            (input_if (not (enabled w token)) (some token) params [])
            (C.usage_as_collateral_enabled token >>= λ already_enabled.
              if already_enabled then pure a else pure (push_input a token symbol params))
            w
    unfolding Collects push_input
    asked token symbol params a w =
        let rest : Bool → Action C.World Inputs = λ already_enabled.
          if already_enabled then pure a else pure (push_input a token symbol params) in
        elim (Bool-cases (enabled w token)) [
          | inl en ↦ (
            a,
            ap (continue rest) (reads token w) ∙ simp (en),
            simp (en, append-nil),
            simp (en, append-nil),
          )
          | inr en ↦ (
            push_input a token symbol params,
            ap (continue rest) (reads token w) ∙ simp (en),
            simp (en),
            simp (en),
          )
        ]

    collect_one-Collects :
        (symbol : String) (params : ReserveParams) (addresses : SymbolMap String) (a : Inputs)
        (w : C.World)
        → Collects a
            (input_if
              (eligible (enabled w) (lookup symbol addresses) params)
              (lookup symbol addresses)
              params
              [])
            (collect_one C symbol params addresses a)
            w
    unfolding collect_one Collects push_input
    collect_one-Collects symbol params addresses a w =
        elim (Option-cases (lookup symbol addresses)) [
          | inl e ↦ rw e (stays a w)
          | inr (token, e) ↦ elim (Bool-cases (truthy (some token))) [
            | inr t ↦ rw e (simp (t) (stays a w))
            | inl t ↦ elim (Bool-cases (eq_ℤ (params.base_ltv_as_collateral) (negsuc 0))) [
              | inl l ↦ rw e (simp (t, l) (stays a w))
              | inr l ↦ rw e (simp (t, l) (asked token symbol params a w))
            ]
          ]
        ]

    collect_inputs-Collects :
        (reserves : SymbolMap ReserveParams) (addresses : SymbolMap String) (a : Inputs)
        (w : C.World)
        → Collects a
            (inputs_of (enabled w) reserves addresses)
            (collect_inputs C reserves addresses a)
            w
    unfolding collect_inputs Collects
    collect_inputs-Collects [] addresses a w = stays a w
    collect_inputs-Collects ((symbol, params) ∷ rest) addresses a w =
        let (b, run1, params1, tokens1) = collect_one-Collects symbol params addresses a w in
        let token : Option String = lookup symbol addresses in
        let used : Bool = eligible (enabled w) token params in
        let first : List ConfigInput = input_if used token params [] in
        let whole : first ++ inputs_of (enabled w) rest addresses
            ≡ input_if used token params (inputs_of (enabled w) rest addresses) =
          input_if-append used token params (inputs_of (enabled w) rest addresses) in
        let (c, run2, params2, tokens2) = collect_inputs-Collects rest addresses b w in
        (
          c,
          ap (continue (collect_inputs C rest addresses)) run1 ∙ run2,
          params2
              ∙ ap (λ l. l ++ inputs_of (enabled w) rest addresses) params1
              ∙ append_assoc (a.input_params) first (inputs_of (enabled w) rest addresses)
              ∙ ap (λ l. a.input_params ++ l) whole,
          tokens2
              ∙ ap (λ l. l ++ assets (inputs_of (enabled w) rest addresses)) tokens1
              ∙ append_assoc (a.tokens) (assets first)
                  (assets (inputs_of (enabled w) rest addresses))
              ∙ ap (λ l. a.tokens ++ l)
                  (sym (map-append (λ i. i.asset) first (inputs_of (enabled w) rest addresses))
                    ∙ ap assets whole),
        )

    configured :
        (helper admin : String) (new : List ConfigInput) (b : Inputs)
        → b.input_params ≡ new
        → b.tokens ≡ assets new
        → configure_collected C helper admin b ≡ send_inputs helper admin new
    unfolding configure_collected
    configured helper admin [] b params tokens = rw tokens refl
    configured helper admin (i ∷ others) b params tokens = rw tokens (rw params refl)

    -- If whether a token is enabled as collateral is read without a change of the world, the
    -- function does what its description does: from the world in which the getters have answered,
    -- nothing more if no reserve is to be configured; else it makes the helper the administrator,
    -- configures exactly those reserves, in order, a batch of 20 with each call, and makes `admin`
    -- the administrator; a call that throws ends it there.
    pub configure_reserves_by_helper-refines :
        (reserves : SymbolMap ReserveParams) (addresses : SymbolMap String) (admin : String)
        → configure_reserves_by_helper C reserves addresses admin ≡ (
            C.addresses_provider
            >> (C.rates_helper >>= λ helper w.
                send_inputs helper admin (inputs_of (enabled w) reserves addresses) w))
    unfolding configure_reserves_by_helper Collects
    configure_reserves_by_helper-refines reserves addresses admin =
        ap (λ k. C.addresses_provider >> (C.rates_helper >>= k))
          (fun_ext (λ helper. fun_ext (λ w.
            let (b, run, params, tokens) = collect_inputs-Collects reserves addresses empty w in
            ap (continue (configure_collected C helper admin)) run
            ∙ ap (λ m. m w)
                (configured helper admin (inputs_of (enabled w) reserves addresses) b params
                  tokens))))
