-- ===== src/Seed.antt =====
-- internal/seed: the sample data, a module for each kind of record, and the run that stores it
-- (Seed/Run). A record here sets the fields that its literal in the source sets; the others are the
-- zero values of Go, where a map that is nil has the JSON text null. A duration is in nanoseconds.
pub mod Events
pub mod Sessions
pub mod AuditLogs
pub mod Run
use logtrace_backend.Common.{ℕ, ◌*◌, none}
use logtrace_backend.Common.Int.{pos}
use logtrace_backend.Domain.{nil_uuid}
use logtrace_backend.Trail.{RequestDetails, Event, Session, AuditLog}

abbrev pub minute : ℕ
minute = 60 * 1000000000

abbrev pub hour : ℕ
hour = 60 * minute

abbrev pub zero_details : RequestDetails
zero_details = record {
  timestamp = 0;
  http_method = "";
  http_endpoint = "";
  http_status_code = pos 0;
  ip_address = "";
  operating_system = "";
  client_user_agent = "";
  geo_ip_location = "";
  request_headers = "null";
  request_duration = "";
  request_id = "";
}

abbrev pub zero_event : Event
zero_event = record {
  id = nil_uuid;
  event_type = "";
  username = "";
  user_id = "";
  organization_id = nil_uuid;
  request_details = zero_details;
  name = "";
  metadata = "null";
  created_at = 0;
}

abbrev pub zero_session : Session
zero_session = record {
  id = nil_uuid;
  user_id = "";
  user_name = "";
  request_details = zero_details;
  login_at = 0;
  organization_id = nil_uuid;
  logout_at = none;
  status = "";
  token = "";
  metadata = "null";
  created_at = 0;
}

abbrev pub zero_audit_log : AuditLog
zero_audit_log = record {
  id = nil_uuid;
  name = "";
  timestamp = 0;
  request_details = zero_details;
  user_id = "";
  description = "";
  user_name = "";
  metadata = "null";
  created_at = 0;
  organization_id = nil_uuid;
}
