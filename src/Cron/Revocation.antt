-- ===== src/Cron/Revocation.antt =====
-- cmd/cli/cron_api_key_revocation.go: the job that deletes expired keys, and its statement.
pub mod Modes
use Prim.Native.String.{String}
use logtrace_backend.Common.{[], ◌∷◌, ◌==◌, string_eq, if◌then◌else◌, Option, none, some}
use logtrace_backend.Domain.{Error, Result, ok, err, ApiKey}
use logtrace_backend.Sql.{where_, Table}
use logtrace_backend.Process.{Exit, returned, fatal, Command, pure, or_else, run_call, ◌>>=◌, ◌>>◌}

unfoldable pub delete_expired_keys : {W : Type 0} → Table ApiKey W → W → Result (Unit {0}) × W
delete_expired_keys keys w =
    keys.update (record { clause = "deleted_at = NOW()"; args = [] } ∷ [])
      (where_ (record { clause = "expires_at < NOW()"; args = [] })
        ∷ where_ (record { clause = "deleted_at IS NULL"; args = [] })
        ∷ [])
      w

-- What the job takes from zap, InitOTELCapabilities, which exits on an error, and `postgres.New`;
-- `nil_with` is `With` of zap on a nil pointer.
pub record Setup (W : Type 0) : Type 0 where
  pub production_logger : Result (Unit {0})
  pub development_logger : Result (Unit {0})
  pub nil_with : Command W (Unit {0})
  pub init_otel : Result (Unit {0})
  pub open_database : Result (Table ApiKey W)

module _ {W : Type 0} (s : Setup W) where
  -- `none` is the nil pointer of a logger that no case of the switch has set. An error of a build is
  -- printed, and the process exits.
  unfoldable pub choose_logger : String → Command W (Option (Unit {0}))
  choose_logger mode =
      if mode == "prod"
      then or_else fatal s.production_logger >>= (λ l. pure (some l))
      else if mode == "dev"
      then or_else fatal s.development_logger >>= (λ l. pure (some l))
      else pure none

  -- `logger.With(…)` on the pointer
  unfoldable pub with_fields : Option (Unit {0}) → Command W (Unit {0})
  with_fields none = s.nil_with
  with_fields (some l) = pure l

  unfoldable pub revoke_api_keys : String → Command W (Unit {0})
  unfolding choose_logger with_fields
  revoke_api_keys mode = do
    logger ← choose_logger mode
    with_fields logger
    or_else fatal s.init_otel
    keys ← or_else returned s.open_database
    run_call returned (delete_expired_keys keys)
