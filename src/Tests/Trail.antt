-- ===== src/Tests/Trail.antt =====
-- The stores over tables in memory.
use Prim.Native.String.{String}
use logtrace_backend.Common.{
  suc, ◌-◌, ◌≡◌, refl, Bool, true, false, none, some, List, length, filter, All, arith, ◌==◌,
  nat_eq, string_eq, Bool-cases, inl, inr, if◌then◌else◌,
}
use logtrace_backend.Common.Int.{pos, ◌-ℤ◌, ◌*ℤ◌, wrap}
use logtrace_backend.GoText.{is_string_empty, trim_space, trim_left, trim_right, is_space}
use logtrace_backend.GoText.Laws.{is_string_empty_iff}
use logtrace_backend.Domain.{Uuid, Error, Result, ok, err, IsErr, ApiKey}
use logtrace_backend.Paginator.{offset}
use logtrace_backend.Paginator.Pages.{page_of, page_rows}
use logtrace_backend.Sql.{
  where_given, where_dates, where_search, Arg, uuid, text, Predicate, Table, Texts,
}
use logtrace_backend.Sql.Laws.{matches}
use logtrace_backend.Trail.{
  Event, ListEventOptions, RequestDetails, Session, FindSessionOptions, AuditLog,
  FindAuditLogOptions,
}
use logtrace_backend.Stores.Events
use logtrace_backend.Stores.Events.Isolation.{events-list_all_isolated}
use logtrace_backend.Stores.Sessions
use logtrace_backend.Stores.AuditLogs
use logtrace_backend.Stores.AuditLogs.Tenants.{audit_logs-ignore_organization}
use logtrace_backend.Stores.ApiKeys
use logtrace_backend.Stores.ApiKeys.Limit.{IsTransaction, IsBounded, api_key-create-IsBounded}
use logtrace_backend.Tests.Fixtures.{first_key}
use logtrace_backend.Tests.Library.{unary, from_unary, from_unary-unary}
use logtrace_backend.Tests.Memory.{memory, memory_laws}

abbrev pub texts : Texts
texts = record { uuid_text = λ id. unary (suc id); escape_string = λ s. s }

pub id_of : String → Uuid
id_of s = from_unary s - 1

pub id_of-uuid_text : (id : Uuid) → id_of (unary (suc id)) ≡ id
unfolding id_of
id_of-uuid_text id = rw (from_unary-unary (suc id)) (omega arith)

pub uuid_text_given : (id : Uuid) → is_string_empty (unary (suc id)) ≡ false
unfolding unary
uuid_text_given id = elim (Bool-cases (is_string_empty (unary (suc id)))) [
  | inl e ↦ absurd (unfold is_space in cc ((is_string_empty_iff (unary (suc id))).0 e).0)
  | inr e ↦ e
]

-- A column is looked at by its condition, and every other condition holds.
abbrev pub same_owner : List Arg → Uuid → Bool
same_owner (List.◌∷◌ (uuid o) List.[]) owner = owner == o
same_owner _ owner = true

abbrev pub owned_by : {Row : Type 0} → (Row → Uuid) → Predicate → Row → Bool
owned_by organization p r = same_owner p.args (organization r)

abbrev pub details : RequestDetails
details = record {
  timestamp = 0;
  http_method = "GET";
  http_endpoint = "/";
  http_status_code = pos 200;
  ip_address = "";
  operating_system = "";
  client_user_agent = "";
  geo_ip_location = "";
  request_headers = "";
  request_duration = "";
  request_id = "";
}

abbrev pub event_of : Uuid → Event
event_of org = record {
  id = 1;
  event_type = "login";
  username = "alice";
  user_id = "7";
  organization_id = org;
  request_details = details;
  name = "login";
  metadata = "";
  created_at = 5;
}

abbrev pub all_events : List Event
all_events = List.◌∷◌ (event_of 3) (List.◌∷◌ (event_of 4) (List.◌∷◌ (event_of 3) List.[]))

abbrev pub of_three : ListEventOptions
of_three = record {
  id = 0;
  name = "";
  organization_id = 3;
  paginator = page_of 20 1;
  http_status = "";
  http_method = "";
  start_date = "";
  end_date = "";
  username = "";
  user_id = "";
  search = "";
}

abbrev pub event_table : Table Event (List Event)
event_table = memory (owned_by (λ e. e.organization_id)) (λ assignments e. e)

abbrev pub found_events : List Event
found_events = List.◌∷◌ (event_of 3) (List.◌∷◌ (event_of 3) List.[])

pub lists_events : Events.list_all texts event_table of_three all_events ≡ ok (found_events, pos 2)
unfolding Events.list_all Events.event_conditions Events.where_status where_given where_dates
    where_search matches unary is_string_empty trim_space trim_left trim_right is_space offset ◌-ℤ◌
    ◌*ℤ◌ wrap
lists_events = refl

events-list_all_isolated_example :
    All (λ e. e.organization_id ≡ 3) found_events
    × (found_events
        ≡ page_rows (page_of 20 1) (
            filter (matches event_table.holds (Events.event_conditions texts of_three)) all_events))
    × (pos 2
        ≡ pos (
            length (
              filter
                (matches event_table.holds (Events.event_conditions texts of_three))
                all_events)))
events-list_all_isolated_example =
    events-list_all_isolated texts event_table (λ w. w) (λ order rs. rs) (λ assignments e. e)
      (memory_laws (owned_by (λ e. e.organization_id)) (λ assignments e. e)) (λ org e. refl)
      of_three 19 0 all_events found_events (pos 2) (uuid_text_given 3) refl (omega arith)
      (omega arith) lists_events

abbrev pub session_of : Uuid → Session
session_of id = record {
  id = id;
  user_id = "7";
  user_name = "alice";
  request_details = details;
  login_at = 5;
  organization_id = 3;
  logout_at = none;
  status = "active";
  token = "t";
  metadata = "";
  created_at = 5;
}

abbrev pub same_id : List Arg → Uuid → Bool
same_id (List.◌∷◌ (text s) List.[]) id = id == id_of s
same_id _ id = true

abbrev pub session_holds : Predicate → Session → Bool
session_holds p s = if p.clause == "id = ?" then same_id p.args s.id else true

abbrev pub session_table : Table Session (List Session)
session_table = memory session_holds (λ assignments s. record s { logout_at = some 9 })

abbrev by_token : FindSessionOptions
by_token = record { id = 0; user_id = 0; organization_id = 3; token = "t" }

abbrev pub two_sessions : List Session
two_sessions = List.◌∷◌ (session_of 1) (List.◌∷◌ (session_of 2) List.[])

logs_out :
    Sessions.logout texts session_table 9 by_token two_sessions
    ≡ (ok tt, (Sessions.logout texts session_table 9 by_token two_sessions).1)
unfolding Sessions.logout
logs_out = refl

abbrev audit_log_of : Uuid → AuditLog
audit_log_of org = record {
  id = 1;
  name = "delete";
  timestamp = 5;
  request_details = details;
  user_id = "7";
  description = "";
  user_name = "alice";
  metadata = "";
  created_at = 5;
  organization_id = org;
}

abbrev logs_of_three : FindAuditLogOptions
logs_of_three = record {
  organization_id = 3;
  id = 1;
  user_id = "";
  user_name = "";
  paginator = page_of 20 1;
  search = "";
  start_date = "";
  end_date = "";
  client = "";
  operating_system = "";
}

abbrev audit_log_table : Table AuditLog (List AuditLog)
audit_log_table = memory (owned_by (λ a. a.organization_id)) (λ assignments a. a)

audit_logs-ignore_organization_example :
    (AuditLogs.list_all texts audit_log_table
        (record logs_of_three { organization_id = 4 })
        (List.◌∷◌ (audit_log_of 3) List.[])
      ≡ AuditLogs.list_all texts audit_log_table logs_of_three (List.◌∷◌ (audit_log_of 3) List.[]))
    × (AuditLogs.list texts audit_log_table
          (record logs_of_three { organization_id = 4 })
          (List.◌∷◌ (audit_log_of 3) List.[])
        ≡ AuditLogs.list texts audit_log_table logs_of_three (List.◌∷◌ (audit_log_of 3) List.[]))
audit_logs-ignore_organization_example =
    audit_logs-ignore_organization texts audit_log_table logs_of_three 4
      (List.◌∷◌ (audit_log_of 3) List.[])

-- A transaction over rows in memory.
abbrev kept : {W : Type 0} → Result (Unit {0}) × W → W → Result (Unit {0}) × W
kept (ok u, w') w = (ok u, w')
kept (err e, w') w = (err e, w)

kept-committed :
    {W : Type 0} (p : Result (Unit {0}) × W) (w w' : W) → kept p w ≡ (ok tt, w') → p ≡ (ok tt, w')
kept-committed (ok u, v) w w' h = h
kept-committed (err e, v) w w' h = absurd (cc)

kept-rolled_back :
    {W : Type 0} (p : Result (Unit {0}) × W) (w w' : W) (e : Error)
    → kept p w ≡ (err e, w')
    → w' ≡ w
kept-rolled_back (ok u, v) w w' e h = absurd (cc)
kept-rolled_back (err x, v) w w' e h = cc

abbrev key_table : Table ApiKey (List ApiKey)
key_table = memory (owned_by (λ k. k.organization_id)) (λ assignments k. k)

abbrev in_tx : ApiKeys.RunInTx (List ApiKey)
in_tx body w = kept (body w) w

in_tx-IsTransaction : IsTransaction in_tx
in_tx-IsTransaction = record {
  committed = λ body w w' h. kept-committed (body w) w w' h;
  rolled_back = λ body w w' e h. kept-rolled_back (body w) w w' e h;
}

api_key-create-IsBounded_example :
    IsBounded key_table (λ w. w) in_tx (ApiKeys.create key_table in_tx first_key List.[]).1
    × (IsErr (ApiKeys.create key_table in_tx first_key List.[]).0
        → (ApiKeys.create key_table in_tx first_key List.[]).1 ≡ List.[])
api_key-create-IsBounded_example =
    api_key-create-IsBounded key_table (λ w. w) in_tx in_tx-IsTransaction (λ cs w n h. cc)
      (λ key w w' h. (key, refl, cc)) (λ org k. refl) first_key List.[] (λ org. omega arith)
