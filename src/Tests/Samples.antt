-- ===== src/Tests/Samples.antt =====
-- The sample data: what the comments of internal/seed/data.go promise, and the status of a session.
use logtrace_backend.Common.{◌≡◌, refl, Bool, true, ◌&&◌, List, [], ◌∷◌, map, string_eq}
use logtrace_backend.Domain.{Time}
use logtrace_backend.Trail.{Session}
use logtrace_backend.SessionHandlers.{session_status_is_valid}
use logtrace_backend.Seed.Events.{event_seed_data}
use logtrace_backend.Seed.Sessions.{session_seed_data}
use logtrace_backend.Seed.AuditLogs.{audit_log_seed_data}
use logtrace_backend.Tests.Variables.{all_distinct}

abbrev all_valid : List Session → Bool
all_valid [] = true
all_valid (s ∷ ss) = session_status_is_valid s.status && all_valid ss

event_names_distinct : (now : Time) → all_distinct (map (λ e. e.name) (event_seed_data now)) ≡ true
unfolding event_seed_data all_distinct
event_names_distinct now = refl

session_users_distinct :
    (now : Time) → all_distinct (map (λ s. s.user_name) (session_seed_data now)) ≡ true
unfolding session_seed_data all_distinct
session_users_distinct now = refl

audit_log_names_distinct :
    (now : Time) → all_distinct (map (λ a. a.name) (audit_log_seed_data now)) ≡ true
unfolding audit_log_seed_data all_distinct
audit_log_names_distinct now = refl

session_statuses_valid : (now : Time) → all_valid (session_seed_data now) ≡ true
unfolding session_seed_data session_status_is_valid
session_statuses_valid now = refl
