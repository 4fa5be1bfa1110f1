-- ===== src/Helpers/Verification.antt =====
-- helpers/etherscan-verification.ts: the verification of a deployed contract, with its retries. The
-- console is left out. `run` and `file` throw what they throw, and every error is its message.
pub mod Retries
pub mod Outcomes
use code4rena_may.Base.{
  ℕ, zero, suc, ◌≤◌, String, Bool, true, false, List, [], ◌∷◌, Option, some, none, if◌then◌else◌,
  leb, ◌||◌, not,
}
use code4rena_may.Base.Int.{ℤ, pos, ◌-ℤ◌, lt_ℤ, eq_ℤ}
use code4rena_may.Effects.{Result, ok, thrown, Action, pure, throw, ◌>>=◌, ◌>>◌}
use Prim.Native.String.{len, find, ◌++◌}
use text.Mathlib.Text.{◌==◌ as str_eq}

-- `message.includes(reason)`
abbrev pub includes : String → String → Bool
includes message reason = leb (find message reason) (len message)

abbrev pub some_included : List String → String → Bool
some_included [] message = false
some_included (reason ∷ reasons) message = includes message reason || some_included reasons message

abbrev pub fatal_errors : List String
fatal_errors =
    "The address provided as argument contains a contract, but its bytecode"
    ∷ "Daily limit of 100 source code submissions reached"
    ∷ "has no bytecode. Is the contract deployed to this network" ∷ "The constructor for" ∷ []

abbrev pub ok_errors : List String
ok_errors = "Contract source code already verified" ∷ []

abbrev pub unable_verify_error : String
unable_verify_error = "Fail - Unable to verify"

abbrev pub supported_etherscan_networks : List String
supported_etherscan_networks = "main" ∷ "ropsten" ∷ "kovan" ∷ "goerli" ∷ "ftm_test" ∷ "ftm" ∷ []

abbrev pub supported : String → List String → Bool
supported network [] = false
supported network (n ∷ ns) = str_eq n network || supported network ns

-- The object of the task's arguments: `related_sources` until the code deletes the key.
pub record Params : Type 0 where
  pub address : String
  pub libraries : Option String
  pub constructor_args : String
  pub related_sources : Bool

abbrev pub without_related : Params → Params
without_related p = record p { related_sources = false }

-- What the code calls outside: the clock, hardhat's tasks and temporary files.
pub record Platform : Type 1 where
  pub World : Type 0
  pub delay : ℕ → World → World
  pub run : String → Params → Action World (Unit {0})
  pub File : Type 0
  pub file : String → String → Action World File
  pub path : File → String
  pub write : File → String → Action World (Unit {0})
  pub cleanup : File → Action World (Unit {0})

-- A value of the environment or of an argument that is set and not empty.
abbrev pub truthy : Option String → Bool
truthy none = false
truthy (some s) = not (str_eq s "")

abbrev pub unsupported : String → String
unsupported network =
    "Current network " ++ network ++ " not supported. Please change to one of the next networks: "
    ++ "main,ropsten,kovan,goerli,ftm_test,ftm"

-- `catch (error) {}`
abbrev pub swallow : {W : Type 0} → Option (Result (Unit {0}) × W) → Option (Result (Unit {0}) × W)
swallow none = none
swallow (some (r, w)) = some (ok tt, w)

-- The `catch` clause, with the retry as an argument.
abbrev pub settle :
    {W : Type 0}
    → (String → W → Option (Result (Unit {0}) × W))
    → Result (Unit {0})
    → W
    → Option (Result (Unit {0}) × W)
settle retry (ok u) w = some (ok tt, w)
settle retry (thrown error) w =
    if some_included ok_errors error
    then some (ok tt, w)
    else if some_included fatal_errors error
    then some (ok tt, w)
    else retry error w

module _ (P : Platform) where
  -- The body of `try`, with the parameters as the deletion on the last try leaves them.
  unfoldable pub attempt :
      String → Params → ℤ → Action P.World (Unit {0}) → Action P.World (Unit {0})
  attempt task params times cleanup =
      if lt_ℤ (pos 1) times
      then P.run task params >> cleanup
      else if eq_ℤ times (pos 1)
      then P.run task (without_related params) >> cleanup
      else cleanup

  unfoldable pub params_left : Params → ℤ → String → Params
  params_left params times error =
      if eq_ℤ times (pos 1) || includes error unable_verify_error
      then without_related params
      else params

  -- `none` when the fuel is used up.
  unfoldable pub run_task_with_retry :
      ℕ
      → String
      → Params
      → ℤ
      → ℕ
      → Action P.World (Unit {0})
      → P.World
      → Option (Result (Unit {0}) × P.World)
  run_task_with_retry zero task params times ms_delay cleanup w = none
  run_task_with_retry (suc fuel) task params times ms_delay cleanup w =
      let (r, w1) = attempt task params times cleanup (P.delay ms_delay w) in
      settle
        (λ error.
          run_task_with_retry fuel task (params_left params times error) (times -ℤ pos 1) ms_delay
            cleanup)
        r w1

  -- The body of the outer `try`: a file for the constructor's arguments, then the task.
  unfoldable pub verify_with_file :
      ℕ → String → String → Option String → P.World → Option (Result (Unit {0}) × P.World)
  verify_with_file fuel address json libraries w =
      let (r, w1) = P.file "verify-params-" ".js" w in
      elim r [
        | thrown e ↦ some (thrown e, w1)
        | ok f ↦
            let (written, w2) = P.write f ("module.exports = " ++ json ++ ";") w1 in
            elim written [
              | thrown e ↦ some (thrown e, w2)
              | ok u ↦
                  run_task_with_retry fuel "verify"
                    (record {
                      address = address;
                      libraries = libraries;
                      constructor_args = P.path f;
                      related_sources = true;
                    })
                    (pos 4) 3000 (P.cleanup f) w2
            ]
      ]

  -- `json` is `JSON.stringify` of the constructor's arguments.
  unfoldable pub verify_etherscan_contract :
      ℕ
      → Option String
      → String
      → String
      → String
      → Option String
      → P.World
      → Option (Result (Unit {0}) × P.World)
  verify_etherscan_contract fuel etherscan_key current_network address json libraries w =
      if not (truthy etherscan_key)
      then some (thrown "Missing process.env.ETHERSCAN_KEY.", w)
      else if not (supported current_network supported_etherscan_networks)
      then some (thrown (unsupported current_network), w)
      else swallow (verify_with_file fuel address json libraries w)

-- The exit status of `checkVerification`; `none` where it returns.
unfoldable pub check_verification : Option String → String → Option ℕ
check_verification etherscan_key current_network =
    if not (truthy etherscan_key)
    then some 3
    else if not (supported current_network supported_etherscan_networks)
    then some 5
    else none
