-- ===== src/Cron/Revocation/Modes.antt =====
-- What the job that deletes expired keys does in each mode of the logging.
use Prim.Native.String.{String}
use logtrace_backend.Common.{◌≡◌, ◌≢◌, refl, ◌⊎◌, inl, inr, ◌==◌, string_eq, ==_iff, Bool-cases}
use logtrace_backend.Domain.{ok, ApiKey}
use logtrace_backend.Sql.{Table}
use logtrace_backend.Process.{returned, crashed, ended, end_by, or_else, run_call, ◌>>=◌}
use logtrace_backend.Cron.Revocation.{
  delete_expired_keys, Setup, choose_logger, with_fields, revoke_api_keys,
}

module _ {W : Type 0} (s : Setup W) (crashes : s.nil_with ≡ end_by crashed) where
  no_logger :
      (mode : String) (w : W)
      → mode ≢ "prod"
      → mode ≢ "dev"
      → revoke_api_keys s mode w ≡ (ended crashed, w)
  unfolding revoke_api_keys choose_logger with_fields ◌>>=◌
  no_logger mode w a b = elim (Bool-cases (mode == "prod")) [
    | inl e ↦ absurd (a ((==_iff mode "prod").0 e))
    | inr e ↦ elim (Bool-cases (mode == "dev")) [
      | inl f ↦ absurd (b ((==_iff mode "dev").0 f))
      | inr f ↦ rw (e, f, crashes) refl
    ]
  ]

  -- The logger of a mode that has one was built.
  abbrev HasLogger : String → Type 0
  HasLogger mode =
      ((mode ≡ "prod") × (s.production_logger ≡ ok tt))
      ⊎ ((mode ≡ "dev") × (s.development_logger ≡ ok tt))

  with_logger :
      (mode : String) (keys : Table ApiKey W) (w : W)
      → HasLogger mode
      → s.init_otel ≡ ok tt
      → s.open_database ≡ ok keys
      → revoke_api_keys s mode w ≡ run_call returned (delete_expired_keys keys) w
  unfolding revoke_api_keys choose_logger with_fields ◌>>=◌ or_else
  with_logger mode keys w (inl (e, built)) traced opened = rw (e, built, traced, opened) refl
  with_logger mode keys w (inr (e, built)) traced opened = rw (e, built, traced, opened) refl

  -- Where `With` of zap panics on a nil pointer, the job panics and deletes nothing in every mode but
  -- prod and dev; in these, with its logger, OpenTelemetry and its database set up, it deletes the
  -- expired keys and ends as its statement ends.
  revoke_api_keys-Runs :
      (mode : String) (w : W)
      → (mode ≢ "prod" → mode ≢ "dev" → revoke_api_keys s mode w ≡ (ended crashed, w))
        × ((keys : Table ApiKey W)
            → HasLogger mode
            → s.init_otel ≡ ok tt
            → s.open_database ≡ ok keys
            → revoke_api_keys s mode w ≡ run_call returned (delete_expired_keys keys) w)
  revoke_api_keys-Runs mode w = (no_logger mode w, λ keys. with_logger mode keys w)
