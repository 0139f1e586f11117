-- ===== src/EventHandlers.antt =====
-- server/event.go. The bound request body is an argument, `none` where `render.Bind` fails; so is
-- what `uuid.Parse` makes of the reference in the path.
pub mod Isolation
use Prim.Native.String.{String, ◌++◌}
use logtrace_backend.Common.{◌&&◌, Option, List, map, if◌then◌else◌}
use logtrace_backend.Common.Int.{ℤ, pos}
use logtrace_backend.GoText.{is_string_empty}
use logtrace_backend.Paginator.{paginator_from_request}
use logtrace_backend.Domain.{Uuid, nil_uuid, Time, other, error_text, Result, ok, err}
use logtrace_backend.Http.{
  Request, Context, Handler, NoBody, failure, success, success_with, respond, settle, ask, act,
  read, present, deref, ◌>>=◌, ◌>>◌, get_organization_from_context,
}
use logtrace_backend.Repositories.{
  OrganizationUser, FindOrganizationUserOptions, OrganizationUserRepository, QueueHandler,
  save_event,
}
use logtrace_backend.OrganizationUsers.{geo_location, with_organization_user}
use logtrace_backend.Trail.{RequestDetails, Event, ListEventOptions, TopActorMetrics}

pub record EventRepository (W : Type 0) : Type 0 where
  pub create : Event → W → Result (Unit {0}) × W
  pub list : ListEventOptions → W → Result Event
  pub list_all : ListEventOptions → W → Result (List Event × ℤ)
  pub metrics : ListEventOptions → W → Result ℤ
  pub top_actor_metrics : ListEventOptions → W → Result (List TopActorMetrics)

-- `eventHander`, the parts that it uses, and services.GeoIPLookup, which gives a country and a city
-- or nothing.
pub record EventServices (W : Type 0) : Type 0 where
  pub events : EventRepository W
  pub org_users : OrganizationUserRepository W
  pub queue : QueueHandler W
  pub geo_ip_lookup : String → W → Option (String × String)

pub record CreateEventRequest : Type 0 where
  pub name : String
  pub user_id : String
  pub username : String
  pub request_details : RequestDetails
  pub event_type : String
  pub metadata : String

unfoldable pub validate_event : CreateEventRequest → Result (Unit {0})
validate_event e =
    if is_string_empty e.name
    then err (other "event name is required")
    else if is_string_empty e.username && is_string_empty e.user_id
    then err (other "user information (username or user_id) is required")
    else ok tt

unfoldable pub new_event : CreateEventRequest → Option (String × String) → Uuid → Event
new_event req geo org = record {
  id = nil_uuid;
  event_type = req.event_type;
  username = req.username;
  user_id = req.user_id;
  organization_id = org;
  request_details = record req.request_details { geo_ip_location = geo_location geo };
  name = req.name;
  metadata = req.metadata;
  created_at = 0;
}

abbrev pub find_options_of : Event → FindOrganizationUserOptions
find_options_of e = record {
  user_id = e.user_id;
  username = e.username;
  organization_id = e.organization_id;
}

abbrev pub organization_user_of : Event → OrganizationUser
organization_user_of e = record {
  user_id = e.user_id;
  organization_id = e.organization_id;
  username = e.username;
}

-- The options with an organization and nothing else.
abbrev pub of_organization : Uuid → ListEventOptions
of_organization org = record {
  id = nil_uuid;
  name = "";
  organization_id = org;
  paginator = record { per_page = pos 0; page = pos 0 };
  http_status = "";
  http_method = "";
  start_date = "";
  end_date = "";
  username = "";
  user_id = "";
  search = "";
}

unfoldable pub list_options : Request → Uuid → ListEventOptions
list_options r org = record (of_organization org) {
  paginator = paginator_from_request (r.query "page") (r.query "per_page");
  http_status = r.query "http_status";
  http_method = r.query "http_method";
  start_date = r.query "start_date";
  end_date = r.query "end_date";
  username = r.query "username";
  user_id = r.query "user_id";
  search = r.query "search";
}

-- The response type `Event`, which leaves out the organization.
pub record EventResponse : Type 0 where
  pub id : Uuid
  pub event_type : String
  pub username : String
  pub user_id : String
  pub http_method : String
  pub http_status_code : ℤ
  pub http_endpoint : String
  pub ip_address : String
  pub client_user_agent : String
  pub geo_ip_location : String
  pub name : String
  pub metadata : String
  pub created_at : Time
  pub operating_system : String

unfoldable pub event_response : Event → EventResponse
event_response e = record {
  id = e.id;
  event_type = e.event_type;
  username = e.username;
  user_id = e.user_id;
  http_method = e.request_details.http_method;
  http_status_code = e.request_details.http_status_code;
  http_endpoint = e.request_details.http_endpoint;
  ip_address = e.request_details.ip_address;
  client_user_agent = e.request_details.client_user_agent;
  geo_ip_location = e.request_details.geo_ip_location;
  name = e.name;
  metadata = e.metadata;
  created_at = e.created_at;
  operating_system = e.request_details.operating_system;
}

-- `fetchEventsResponse`, with its paging information.
pub record EventPage : Type 0 where
  pub events : List EventResponse
  pub total : ℤ
  pub per_page : ℤ
  pub page : ℤ

unfoldable pub event_page : ListEventOptions → List Event × ℤ → EventPage
event_page opts found = record {
  events = map event_response found.0;
  total = found.1;
  per_page = opts.paginator.per_page;
  page = opts.paginator.page;
}

module _ {W : Type 0} (s : EventServices W) where
  unfoldable pub enqueue_event : Event → Handler W NoBody
  enqueue_event event = do
    act (s.queue.add (save_event event)) (λ _. failure 500 "failed to enqueue event")
    respond (success 202 "Event accepted for processing")

  -- The user that is found is written to the event and overwritten by the request's again.
  unfoldable pub create_event : Context → Option CreateEventRequest → Handler W NoBody
  create_event ctx bound = do
    req ← present bound (failure 400 "failed to validate payload")
    settle (validate_event req)
        (λ e. failure 400 ("failed to validate request payload: " ++ error_text e))
    geo ← read (s.geo_ip_lookup req.request_details.ip_address)
    pointer ← get_organization_from_context ctx
    org ← deref pointer
    with_organization_user s.org_users (find_options_of (new_event req geo org.id))
        (organization_user_of (new_event req geo org.id))
        (λ user. enqueue_event (new_event req geo org.id))

  -- The argument after the context is the reference, parsed.
  unfoldable pub list_event : Context → Option Uuid → Handler W EventResponse
  list_event ctx reference = do
    id ← present reference (failure 400 "invalid event ID format")
    pointer ← get_organization_from_context ctx
    org ← deref pointer
    event ←
        ask (s.events.list (record (of_organization org.id) { id = id }))
          (λ _. failure 500 "failed to list the event by it's ID")
    respond (success_with 200 "Event has been fetched successfully" (event_response event))

  unfoldable pub list_all_events : Context → Request → Handler W EventPage
  list_all_events ctx r = do
    pointer ← get_organization_from_context ctx
    org ← deref pointer
    found ←
        ask (s.events.list_all (list_options r org.id))
          (λ _. failure 500 "failed to fetch the events")
    respond
        (success_with 200 "Events fetched successfully" (event_page (list_options r org.id) found))

  unfoldable pub event_metrics : Context → Handler W ℤ
  event_metrics ctx = do
    pointer ← get_organization_from_context ctx
    org ← deref pointer
    count ←
        ask (s.events.metrics (of_organization org.id))
          (λ _. failure 500 "failed to fetch events metrics")
    respond (success_with 200 "Events metrics fetched successfully" count)

  unfoldable pub top_actor_metrics : Context → Handler W (List TopActorMetrics)
  top_actor_metrics ctx = do
    pointer ← get_organization_from_context ctx
    org ← deref pointer
    actors ←
        ask (s.events.top_actor_metrics (of_organization org.id))
          (λ _. failure 500 "failed to fetch top actor metrics")
    respond (success_with 200 "Top actor metrics fetched successfully" actors)
