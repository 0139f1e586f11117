-- ===== src/AuditLogHandlers.antt =====
-- server/audit_log.go. The bound request body is an argument, `none` where `render.Bind` fails; so
-- is what `uuid.Parse` makes of the reference in the path, and what `time.Now()` returns.
pub mod Attribution
use Prim.Native.String.{String, ◌++◌}
use logtrace_backend.Common.{
  ℕ, Bool, true, false, ◌&&◌, Option, none, some, List, map, if◌then◌else◌,
}
use logtrace_backend.Common.Int.{ℤ, pos}
use logtrace_backend.GoText.{is_string_empty}
use logtrace_backend.Paginator.{Paginator, paginator_from_request}
use logtrace_backend.Domain.{
  Uuid, nil_uuid, Time, Error, other, error_text, Result, ok, err, Organization,
}
use logtrace_backend.Http.{
  Request, Context, Handler, NoBody, failure, success, success_with, respond, settle, ask, act,
  read, check, present, deref, ◌>>=◌, ◌>>◌, get_organization_from_context,
}
use logtrace_backend.Repositories.{
  OrganizationUser, FindOrganizationUserOptions, OrganizationUserRepository, QueueHandler,
  save_audit_log,
}
use logtrace_backend.OrganizationUsers.{geo_location, with_organization_user}
use logtrace_backend.Trail.{RequestDetails, AuditLog, FindAuditLogOptions}

pub record AuditLogRepository (W : Type 0) : Type 0 where
  pub create : AuditLog → W → Result (Unit {0}) × W
  pub list : FindAuditLogOptions → W → Result AuditLog
  pub list_all : FindAuditLogOptions → W → Result (List AuditLog × ℤ)
  pub metrics : FindAuditLogOptions → W → Result ℤ

-- `auditLogHandler`, the parts that it uses, and services.GeoIPLookup, which gives a country and a
-- city or nothing.
pub record AuditLogServices (W : Type 0) : Type 0 where
  pub audit_logs : AuditLogRepository W
  pub org_users : OrganizationUserRepository W
  pub queue : QueueHandler W
  pub geo_ip_lookup : String → W → Option (String × String)

pub record CreateAuditLogRequest : Type 0 where
  pub name : String
  pub timestamp : String
  pub user_id : String
  pub user_name : String
  pub description : String
  pub request_details : RequestDetails
  pub organization_id : String
  pub metadata : String

unfoldable pub validate_audit_log : CreateAuditLogRequest → Result (Unit {0})
validate_audit_log a =
    if is_string_empty a.name
    then err (other "audit log name is required")
    else if is_string_empty a.user_id && is_string_empty a.user_name
    then err (other "at least one of user_id or username is required")
    else ok tt

-- The audit log of a request, for the actor that is found behind it.
unfoldable pub new_audit_log :
    CreateAuditLogRequest → Option (String × String) → Time → Uuid → AuditLog
new_audit_log req geo now org = record {
  id = nil_uuid;
  name = req.name;
  timestamp = now;
  request_details = record req.request_details { geo_ip_location = geo_location geo };
  user_id = req.user_id;
  description = req.description;
  user_name = req.user_name;
  metadata = req.metadata;
  created_at = 0;
  organization_id = org;
}

-- `req.UserID = orgUser.UserID`, `req.UserName = orgUser.Username`, where one is found.
unfoldable pub as_user : Option OrganizationUser → CreateAuditLogRequest → CreateAuditLogRequest
as_user none req = req
as_user (some u) req = record req { user_id = u.user_id; user_name = u.username }

-- The lookup leaves out the name of the user.
abbrev pub find_options_of : CreateAuditLogRequest → Uuid → FindOrganizationUserOptions
find_options_of req org = record { user_id = req.user_id; username = ""; organization_id = org }

abbrev pub organization_user_of : CreateAuditLogRequest → Uuid → OrganizationUser
organization_user_of req org = record {
  user_id = req.user_id;
  organization_id = org;
  username = req.user_name;
}

-- The options with an organization and nothing else.
abbrev pub of_organization : Uuid → FindAuditLogOptions
of_organization org = record {
  organization_id = org;
  id = nil_uuid;
  user_id = "";
  user_name = "";
  paginator = record { per_page = pos 0; page = pos 0 };
  search = "";
  start_date = "";
  end_date = "";
  client = "";
  operating_system = "";
}

unfoldable pub list_options : Request → Uuid → FindAuditLogOptions
list_options r org = record (of_organization org) {
  paginator = paginator_from_request (r.query "page") (r.query "per_page");
  search = r.query "search";
  start_date = r.query "start_date";
  end_date = r.query "end_date";
  client = r.query "client";
  operating_system = r.query "operating_system";
}

-- The response type `AuditLog`, which leaves out the organization.
pub record AuditLogResponse : Type 0 where
  pub id : Uuid
  pub name : String
  pub user_name : String
  pub description : String
  pub timestamp : Time
  pub ip_address : String
  pub user_id : String
  pub metadata : String
  pub created_at : Time
  pub http_method : String
  pub http_status_code : ℤ
  pub http_endpoint : String
  pub client_user_agent : String
  pub geo_ip_location : String
  pub operating_system : String

unfoldable pub audit_log_response : AuditLog → AuditLogResponse
audit_log_response a = record {
  id = a.id;
  name = a.name;
  user_name = a.user_name;
  description = a.description;
  timestamp = a.timestamp;
  ip_address = a.request_details.ip_address;
  user_id = a.user_id;
  metadata = a.metadata;
  created_at = a.created_at;
  http_method = a.request_details.http_method;
  http_status_code = a.request_details.http_status_code;
  http_endpoint = a.request_details.http_endpoint;
  client_user_agent = a.request_details.client_user_agent;
  geo_ip_location = a.request_details.geo_ip_location;
  operating_system = a.request_details.operating_system;
}

-- `listAllAuditLogs`, with its paging information.
pub record AuditLogPage : Type 0 where
  pub audit_logs : List AuditLogResponse
  pub total : ℤ
  pub page : ℤ
  pub per_page : ℤ

unfoldable pub audit_log_page : FindAuditLogOptions → List AuditLog × ℤ → AuditLogPage
audit_log_page opts found = record {
  audit_logs = map audit_log_response found.0;
  total = found.1;
  page = opts.paginator.page;
  per_page = opts.paginator.per_page;
}

module _ {W : Type 0} (s : AuditLogServices W) where
  unfoldable pub enqueue_audit_log : AuditLog → Handler W NoBody
  enqueue_audit_log audit_log = do
    act (s.queue.add (save_audit_log audit_log)) (λ _. failure 500 "failed to enqueue audit log")
    respond (success 202 "Audit log accepted for processing")

  unfoldable pub create_audit_log : Time → Context → Option CreateAuditLogRequest → Handler W NoBody
  create_audit_log now ctx bound = do
    req ← present bound (failure 400 "invalid request payload")
    settle (validate_audit_log req)
        (λ e. failure 400 ("failed to process request: " ++ error_text e))
    geo ← read (s.geo_ip_lookup req.request_details.ip_address)
    pointer ← get_organization_from_context ctx
    org ← deref pointer
    with_organization_user s.org_users (find_options_of req org.id)
        (organization_user_of req org.id)
        (λ user. enqueue_audit_log (new_audit_log (as_user user req) geo now org.id))

  -- The argument after the context is the reference, parsed. The repository gives no nil audit log
  -- without an error, so the reply with 404 behind the call is never sent.
  unfoldable pub list_audit_log : Context → Option Uuid → Handler W AuditLogResponse
  list_audit_log ctx reference = do
    id ← present reference (failure 400 "invalid audit log reference")
    pointer ← get_organization_from_context ctx
    org ← deref pointer
    audit_log ←
        ask (s.audit_logs.list (record (of_organization org.id) { id = id }))
          (λ _. failure 500 "failed to fetch audit log")
    respond (success_with 200 "Audit log fetched successfully" (audit_log_response audit_log))

  unfoldable pub list_all_audit_logs : Context → Request → Handler W AuditLogPage
  list_all_audit_logs ctx r = do
    pointer ← get_organization_from_context ctx
    org ← deref pointer
    found ←
        ask (s.audit_logs.list_all (list_options r org.id))
          (λ _. failure 500 "failed to list audit logs")
    respond (
        success_with 200 "Audit logs fetched successfully"
          (audit_log_page (list_options r org.id) found))

  unfoldable pub audit_log_metrics : Context → Handler W ℤ
  audit_log_metrics ctx = do
    pointer ← get_organization_from_context ctx
    org ← deref pointer
    count ←
        ask (s.audit_logs.metrics (of_organization org.id))
          (λ _. failure 500 "failed to fetch metrics")
    respond (success_with 200 "Audit log metrics fetched successfully" count)
