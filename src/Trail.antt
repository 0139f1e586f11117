-- ===== src/Trail.antt =====
-- The records of the trail and the options of their repositories (event.go, audit_log.go,
-- session.go). A metadata or header map is the text of its JSON; the columns updated_at and
-- deleted_at, which only the database reads, are left out.
use Prim.Native.String.{String}
use logtrace_backend.Common.{Option}
use logtrace_backend.Common.Int.{ℤ}
use logtrace_backend.Paginator.{Paginator}
use logtrace_backend.Domain.{Uuid, Time}

pub record RequestDetails : Type 0 where
  pub timestamp : Time
  pub http_method : String
  pub http_endpoint : String
  pub http_status_code : ℤ
  pub ip_address : String
  pub operating_system : String
  pub client_user_agent : String
  pub geo_ip_location : String
  pub request_headers : String
  pub request_duration : String
  pub request_id : String

pub record Event : Type 0 where
  pub id : Uuid
  pub event_type : String
  pub username : String
  pub user_id : String
  pub organization_id : Uuid
  pub request_details : RequestDetails
  pub name : String
  pub metadata : String
  pub created_at : Time

pub record ListEventOptions : Type 0 where
  pub id : Uuid
  pub name : String
  pub organization_id : Uuid
  pub paginator : Paginator
  pub http_status : String
  pub http_method : String
  pub start_date : String
  pub end_date : String
  pub username : String
  pub user_id : String
  pub search : String

-- The name of an actor with the number of events.
pub record TopActorMetrics : Type 0 where
  pub name : String
  pub events : ℤ

pub record AuditLog : Type 0 where
  pub id : Uuid
  pub name : String
  pub timestamp : Time
  pub request_details : RequestDetails
  pub user_id : String
  pub description : String
  pub user_name : String
  pub metadata : String
  pub created_at : Time
  pub organization_id : Uuid

pub record FindAuditLogOptions : Type 0 where
  pub organization_id : Uuid
  pub id : Uuid
  pub user_id : String
  pub user_name : String
  pub paginator : Paginator
  pub search : String
  pub start_date : String
  pub end_date : String
  pub client : String
  pub operating_system : String

pub record Session : Type 0 where
  pub id : Uuid
  pub user_id : String
  pub user_name : String
  pub request_details : RequestDetails
  pub login_at : Time
  pub organization_id : Uuid
  pub logout_at : Option Time
  pub status : String
  pub token : String
  pub metadata : String
  pub created_at : Time

pub record FindSessionOptions : Type 0 where
  pub id : Uuid
  pub user_id : Uuid
  pub organization_id : Uuid
  pub token : String

pub record ListSessionsOptions : Type 0 where
  pub paginator : Paginator
  pub organization_id : Uuid
  pub status : String
  pub start_date : String
  pub end_date : String
  pub search : String
