-- ===== src/SessionHandlers.antt =====
-- server/session.go: creation through the queue, fetch, listing, metrics and logout. The bound request body is an argument, `none` where `render.Bind` fails.
pub mod Logout
pub mod Recording
use Prim.Native.String.{String, ◌++◌}
use logtrace_backend.Common.{
  ℕ, Bool, true, false, not, ◌||◌, Option, none, some, List, ◌==◌, string_eq, if◌then◌else◌,
}
use logtrace_backend.Common.Int.{ℤ}
use logtrace_backend.Paginator.{Paginator, paginator_from_request}
use logtrace_backend.Domain.{
  Uuid, nil_uuid, Time, Error, other, error_text, is_no_rows, Result, ok, err, Organization,
}
use logtrace_backend.Http.{
  Request, Context, Handler, NoBody, failure, success, success_with, respond, settle, ask, act,
  read, check, present, deref, ◌>>=◌, ◌>>◌, get_organization_from_context, get_user_from_context,
}
use logtrace_backend.Repositories.{
  OrganizationUser, FindOrganizationUserOptions, OrganizationUserRepository, QueueHandler,
  save_session,
}
use logtrace_backend.OrganizationUsers.{geo_location, with_organization_user}
use logtrace_backend.Trail.{RequestDetails, Session, FindSessionOptions, ListSessionsOptions}

-- `SessionRepository`, as far as the handlers here call it.
pub record SessionRepository (W : Type 0) : Type 0 where
  pub list : FindSessionOptions → W → Result Session
  pub list_all : ListSessionsOptions → W → Result (List Session × ℤ)
  pub logout : FindSessionOptions → W → Result (Unit {0}) × W
  pub metrics : FindSessionOptions → W → Result (ℤ × ℤ)

-- What the handlers take from other packages: services.GeoIPLookup, which gives a country and a
-- city or nothing, time.Parse with the layout of the request, and strings.ToLower.
pub record Tools (W : Type 0) : Type 0 where
  pub geo_ip_lookup : String → W → Option (String × String)
  pub parse_login_at : String → Option Time
  pub to_lower : String → String

-- `sessionHandler`, the parts that it uses.
pub record SessionServices (W : Type 0) : Type 0 where
  pub sessions : SessionRepository W
  pub org_users : OrganizationUserRepository W
  pub queue : QueueHandler W

pub record SessionRequest : Type 0 where
  pub login_at : String
  pub status : String
  pub user_id : String
  pub user_name : String
  pub token : String
  pub request_details : RequestDetails
  pub metadata : String

-- `SessionStatus.IsValid`
unfoldable pub session_status_is_valid : String → Bool
session_status_is_valid x = x == "succesful" || x == "failed" || x == "expired" || x == "active"

unfoldable pub validate_session : SessionRequest → Result (Unit {0})
validate_session sr =
    if not (session_status_is_valid sr.status) then err (other "invalid session status") else ok tt

abbrev pub organization_user_of : Session → OrganizationUser
organization_user_of s = record {
  user_id = s.user_id;
  organization_id = s.organization_id;
  username = s.user_name;
}

abbrev pub find_options_of : Session → FindOrganizationUserOptions
find_options_of s = record {
  user_id = s.user_id;
  username = "";
  organization_id = s.organization_id;
}

abbrev pub logout_options : Uuid → String → FindSessionOptions
logout_options org token = record {
  id = nil_uuid;
  user_id = nil_uuid;
  organization_id = org;
  token = token;
}

-- The response type `Session`, which leaves out the organization.
pub record SessionResponse : Type 0 where
  pub id : Uuid
  pub user_id : String
  pub user_name : String
  pub login_at : Time
  pub token : String
  pub logout_at : Option Time
  pub ip_address : String
  pub geo_ip_location : String
  pub status : String
  pub metadata : String
  pub created_at : Time
  pub http_method : String
  pub http_status_code : ℤ
  pub http_endpoint : String
  pub client_user_agent : String
  pub operating_system : String

unfoldable pub session_response : Session → SessionResponse
session_response s = record {
  id = s.id;
  user_id = s.user_id;
  user_name = s.user_name;
  login_at = s.login_at;
  token = s.token;
  logout_at = s.logout_at;
  ip_address = s.request_details.ip_address;
  geo_ip_location = s.request_details.geo_ip_location;
  status = s.status;
  metadata = s.metadata;
  created_at = s.created_at;
  http_method = s.request_details.http_method;
  http_status_code = s.request_details.http_status_code;
  http_endpoint = s.request_details.http_endpoint;
  client_user_agent = s.request_details.client_user_agent;
  operating_system = s.request_details.operating_system;
}

-- `fetchAllSessionsResponse`, with the stored sessions in place of their renderings.
pub record SessionPage : Type 0 where
  pub sessions : List Session
  pub total : ℤ
  pub paging : Paginator

module _ {W : Type 0} (tools : Tools W) (s : SessionServices W) where
  unfoldable pub new_session : SessionRequest → Option (String × String) → Time → Uuid → Session
  new_session req geo login_at org = record {
    id = nil_uuid;
    user_id = req.user_id;
    user_name = req.user_name;
    request_details = record req.request_details { geo_ip_location = geo_location geo };
    login_at = login_at;
    organization_id = org;
    logout_at = none;
    status = tools.to_lower req.status;
    token = req.token;
    metadata = req.metadata;
    created_at = 0;
  }

  unfoldable pub enqueue : Session → Handler W NoBody
  enqueue session = do
    act (s.queue.add (save_session session)) (λ _. failure 500 "failed to enqueue session")
    respond (success 202 "Session accepted for processing")

  -- The user that is found is written to the session and overwritten by the request's again.
  unfoldable pub enqueue_for_user : Session → Handler W NoBody
  enqueue_for_user session =
      with_organization_user s.org_users (find_options_of session) (organization_user_of session)
        (λ user. enqueue session)

  unfoldable pub create_session : Context → Option SessionRequest → Handler W NoBody
  create_session ctx bound = do
    req ← present bound (failure 400 "invalid request payload")
    settle (validate_session req)
        (λ e. failure 400 ("failed to validate request payload: " ++ error_text e))
    geo ← read (tools.geo_ip_lookup req.request_details.ip_address)
    login_at ← present (tools.parse_login_at req.login_at) (failure 400 "invalid login at format")
    pointer ← get_organization_from_context ctx
    org ← deref pointer
    enqueue_for_user (new_session req geo login_at org.id)

  -- The argument after the context is the reference, parsed. The options name the logged-in user.
  unfoldable pub fetch_session : Context → Option Uuid → Handler W SessionResponse
  fetch_session ctx reference = do
    id ← present reference (failure 400 "invalid session ID format")
    user_pointer ← get_user_from_context ctx
    user ← deref user_pointer
    pointer ← get_organization_from_context ctx
    org ← deref pointer
    session ←
        ask
          (s.sessions.list
            (record { id = id; user_id = user.id; organization_id = org.id; token = "" }))
          (λ _. failure 500 "failed to list the session by its ID")
    respond (success_with 200 "Session has been fetched successfully" (session_response session))

  unfoldable pub list_all_sessions : Context → Request → Handler W SessionPage
  list_all_sessions ctx r = do
    pointer ← get_organization_from_context ctx
    org ← deref pointer
    found ←
        ask
          (s.sessions.list_all (record {
            paginator = paginator_from_request (r.query "page") (r.query "per_page");
            organization_id = org.id;
            status = r.query "status";
            start_date = r.query "start_date";
            end_date = r.query "end_date";
            search = r.query "search";
          }))
          (λ _. failure 500 "failed to fetch all sessions")
    respond (
        success_with 200 "Sessions have been fetched successfully" (record {
          sessions = found.0;
          total = found.1;
          paging = paginator_from_request (r.query "page") (r.query "per_page");
        }))

  unfoldable pub session_metrics : Context → Handler W (ℤ × ℤ)
  session_metrics ctx = do
    pointer ← get_organization_from_context ctx
    org ← deref pointer
    counts ←
        ask (s.sessions.metrics (logout_options org.id ""))
          (λ _. failure 500 "failed to fetch sessions metrics")
    respond (success_with 200 "Sessions metrics have been fetched successfully" counts)

  -- The argument after the context is the bound body, a token.
  unfoldable pub logout_session : Context → Option String → Handler W NoBody
  logout_session ctx bound = do
    token ← present bound (failure 400 "invalid request payload")
    check (not (token == "")) (failure 400 "token is required")
    pointer ← get_organization_from_context ctx
    org ← deref pointer
    act (s.sessions.logout (logout_options org.id token))
        (λ _. failure 500 "could not register session logout at this time")
    respond (success 200 "Session logout registered successfully")
