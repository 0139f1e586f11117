-- ===== src/Process.antt =====
-- How a command of cmd/cli runs: steps on a world that go on with a value, or end the command. With
-- them Execute and getLogger of cmd/cli/main.go.
pub mod Server
use Prim.Native.String.{String}
use logtrace_backend.Common.{
  ◌≡◌, refl, Bool, ◌||◌, ◌==◌, string_eq, if◌then◌else◌, Option, none, some,
}
use logtrace_backend.Domain.{Error, Result, ok, err}
use logtrace_backend.Config.{Config, validate}

-- `RunE` returns an error, the process exits with 1 (`os.Exit(1)` or `logger.Fatal`), or it panics.
pub data Exit : Type 0 where
  returned fatal : Error → Exit
  crashed : Exit

pub data CommandResult (A : Type 0) : Type 0 where
  going : A → CommandResult A
  ended : Exit → CommandResult A

abbrev pub Command : Type 0 → Type 0 → Type 0
Command W A = W → CommandResult A × W

module _ {W A : Type 0} where
  abbrev pub pure : A → Command W A
  pure a w = (going a, w)

  abbrev pub end_by : Exit → Command W A
  end_by x w = (ended x, w)

  -- `if err != nil { return err }` and `if err != nil { logger.Fatal(…) }`, for a call that gives a
  -- value.
  unfoldable pub or_else : (Error → Exit) → Result A → Command W A
  or_else exit (ok a) = pure a
  or_else exit (err e) = end_by (exit e)

  -- The same for a call that may change the world.
  unfoldable pub run_call : (Error → Exit) → (W → Result A × W) → Command W A
  unfolding or_else
  run_call exit run w = let (r, v) = run w in or_else exit r v

infixl 5 ◌>>=◌ ◌>>◌
unfoldable pub ◌>>=◌ : {W A B : Type 0} → Command W A → (A → Command W B) → Command W B
◌>>=◌ m f w = let (r, v) = m w in elim r [ going a ↦ f a v | ended x ↦ (ended x, v) ]

abbrev pub ◌>>◌ : {W B : Type 0} → Command W (Unit {0}) → Command W B → Command W B
m >> k = m >>= λ _. k

abbrev pub given : Result Config → Result (Option Config)
given (err e) = err e
given (ok c) = ok (some c)

abbrev pub checked : (String → Bool) → Result Config → Result (Option Config)
checked parse_address (err e) = err e
checked parse_address (ok c) = given (validate parse_address c)

-- `PersistentPreRunE` of the root command; `read` is what InitializeConfig makes of the files and
-- the variables. There is no configuration for the two commands that need none.
unfoldable pub pre_run : (String → Bool) → String → Result Config → Result (Option Config)
pre_run parse_address name read =
    if name == "version" || name == "export-config" then ok none else checked parse_address read

-- `getLogger`
unfoldable pub get_logger : Result (Unit {0}) → Result (Unit {0}) → String → Result (Unit {0})
get_logger new_production new_development mode =
    if mode == "prod" then new_production else new_development
