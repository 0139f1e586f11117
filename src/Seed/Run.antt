-- ===== src/Seed/Run.antt =====
-- internal/seed/seeder.go (Run), internal/seed/util.go (parseOrgID), and the command `seed` of
-- cmd/cli/seed.go. What they print is left out. `parse_uuid` is uuid.Parse, `quoted` the verb %q.
pub mod Stored
use Prim.Native.String.{String, ◌++◌}
use logtrace_backend.Common.{Bool, List, [], ◌∷◌, map, ◌==◌, string_eq, if◌then◌else◌}
use logtrace_backend.Domain.{Uuid, Time, Error, other, error_text, Result, ok, err}
use logtrace_backend.Trail.{Event, Session, AuditLog}
use logtrace_backend.Seed.Events.{event_seed_data}
use logtrace_backend.Seed.Sessions.{session_seed_data}
use logtrace_backend.Seed.AuditLogs.{audit_log_seed_data}

abbrev wrapped : {A : Type 0} → String → Result A → Result A
wrapped s (ok a) = ok a
wrapped s (err e) = err (other (s ++ error_text e))

unfoldable pub parse_org_id : (String → Result Uuid) → String → Result Uuid
parse_org_id parse_uuid id = wrapped "organization id must be a valid UUID: " (parse_uuid id)

abbrev pub in_organization : Uuid → Event → Event
in_organization org e = record e { organization_id = org }

abbrev pub session_in : Uuid → Session → Session
session_in org s = record s { organization_id = org }

abbrev pub audit_log_in : Uuid → AuditLog → AuditLog
audit_log_in org a = record a { organization_id = org }

-- A loop of Run, with the text before the error of a record.
unfoldable pub seed_each :
    {A W : Type 0}
    → (A → W → Result (Unit {0}) × W)
    → (A → String)
    → List A
    → W
    → Result (Unit {0}) × W
seed_each create label [] w = (ok tt, w)
seed_each create label (x ∷ xs) w =
    let (r, v) = create x w in
    elim r [
      | err e ↦ (err (other (label x ++ (": " ++ error_text e))), v)
      | ok _ ↦ seed_each create label xs v
    ]

-- The repositories that Run is given, by the method that it calls.
pub record Repositories (W : Type 0) : Type 0 where
  pub create_event : Event → W → Result (Unit {0}) × W
  pub create_session : Session → W → Result (Unit {0}) × W
  pub create_audit_log : AuditLog → W → Result (Unit {0}) × W

abbrev pub and_then :
    {W : Type 0} → Result (Unit {0}) × W → (W → Result (Unit {0}) × W) → Result (Unit {0}) × W
and_then (err e, w) more = (err e, w)
and_then (ok _, w) more = more w

module _ {W : Type 0} (parse_uuid : String → Result Uuid) (quoted : String → String)
    (repos : Repositories W) where
  abbrev pub seed_events : Time → Uuid → W → Result (Unit {0}) × W
  seed_events now org =
      seed_each repos.create_event (λ e. "failed to seed event " ++ quoted e.name)
        (map (in_organization org) (event_seed_data now))

  abbrev pub seed_sessions : Time → Uuid → W → Result (Unit {0}) × W
  seed_sessions now org =
      seed_each repos.create_session (λ s. "failed to seed session for user " ++ quoted s.user_name)
        (map (session_in org) (session_seed_data now))

  abbrev pub seed_audit_logs : Time → Uuid → W → Result (Unit {0}) × W
  seed_audit_logs now org =
      seed_each repos.create_audit_log (λ a. "failed to seed audit log " ++ quoted a.name)
        (map (audit_log_in org) (audit_log_seed_data now))

  abbrev pub seed_all : Time → Uuid → W → Result (Unit {0}) × W
  seed_all now org w =
      and_then (and_then (seed_events now org w) (seed_sessions now org)) (seed_audit_logs now org)

  -- `now` is the clock at the call.
  unfoldable pub run : Time → String → W → Result (Unit {0}) × W
  run now org_id w = elim (wrapped "invalid organization id: " (parse_org_id parse_uuid org_id)) [
    | err e ↦ (err e, w)
    | ok org ↦ seed_all now org w
  ]

-- `RunE` of the command, after the logger and the database were set up or not.
abbrev connected :
    {W : Type 0}
    → (String → Result Uuid)
    → (String → String)
    → Time
    → String
    → W
    → Result (Unit {0})
    → Result (Repositories W)
    → Result (Unit {0}) × W
connected parse_uuid quoted now org_id w (err e) db = (err e, w)
connected parse_uuid quoted now org_id w (ok _) (err e) = (err e, w)
connected parse_uuid quoted now org_id w (ok _) (ok repos) =
    let (r, v) = run parse_uuid quoted repos now org_id w in (wrapped "seed failed: " r, v)

unfoldable pub seed_command :
    {W : Type 0}
    → (String → Result Uuid)
    → (String → String)
    → Result (Unit {0})
    → Result (Repositories W)
    → Time
    → String
    → W
    → Result (Unit {0}) × W
seed_command parse_uuid quoted logger database now org_id w =
    let result =
      connected parse_uuid quoted now org_id w (wrapped "failed to initialise logger: " logger)
        (wrapped "failed to connect to database: " database) in
    if org_id == "" then (err (other "--org-id is required"), w) else result
