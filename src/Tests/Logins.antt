-- ===== src/Tests/Logins.antt =====
-- The session handlers on concrete requests, over a table in memory.
use logtrace_backend.Common.{◌≡◌, refl, ap, none, some, List, ◌==◌, nat_eq, arith}
use logtrace_backend.Domain.{no_rows, ok}
use logtrace_backend.Http.{reply, success, ◌>>=◌}
use logtrace_backend.Trail.{Session}
use logtrace_backend.Stores.Sessions.{logout}
use logtrace_backend.OrganizationUsers.{with_organization_user}
use logtrace_backend.SessionHandlers.{
  Tools, SessionServices, SessionRequest, session_status_is_valid, validate_session, new_session,
  enqueue, enqueue_for_user, create_session, logout_session,
}
use logtrace_backend.SessionHandlers.Recording.{IsRecorded, create_session-IsRecorded}
use logtrace_backend.SessionHandlers.Logout.{stored_sessions, logout_session-nothing}
use logtrace_backend.Tests.Fixtures.{alice_in_acme}
use logtrace_backend.Tests.Memory.{memory_laws}
use logtrace_backend.Tests.Trail.{
  texts, details, session_of, session_holds, session_table, two_sessions, id_of-uuid_text,
  uuid_text_given,
}

abbrev tools : Tools (List Session)
tools = record {
  geo_ip_lookup = λ ip w. some ("Norway", "Oslo");
  parse_login_at = λ s. some 5;
  to_lower = λ s. s;
}

-- Sessions are taken off the queue at once.
abbrev services : SessionServices (List Session)
services = record {
  sessions = stored_sessions texts session_table 9;
  org_users = record { find = λ opts w. (none, some no_rows); create = λ u w. (ok tt, w) };
  queue = record { add = λ m w. (ok tt, List.◌∷◌ (session_of 3) w) };
}

abbrev signed_in : SessionRequest
signed_in = record {
  login_at = "2026-01-01T00:00:00Z";
  status = "active";
  user_id = "u1";
  user_name = "bob";
  token = "t9";
  request_details = details;
  metadata = "";
}

records :
    create_session tools services alice_in_acme (some signed_in) two_sessions
    ≡ (reply (success 202 "Session accepted for processing"), List.◌∷◌ (session_of 3) two_sessions)
unfolding create_session enqueue_for_user enqueue validate_session session_status_is_valid
    new_session ◌>>=◌ with_organization_user
records = refl

create_session-IsRecorded_example :
    IsRecorded tools services alice_in_acme
      (some signed_in)
      two_sessions
      (create_session tools services alice_in_acme (some signed_in) two_sessions).1
create_session-IsRecorded_example =
    create_session-IsRecorded tools services alice_in_acme (some signed_in) two_sessions
      (rw records refl)

answers :
    (logout_session tools services alice_in_acme (some "t") two_sessions).0
    ≡ reply (success 200 "Session logout registered successfully")
unfolding logout_session logout ◌>>=◌
answers = refl

logout_session-nothing_example :
    (logout_session tools services alice_in_acme (some "t") two_sessions).1 ≡ two_sessions
logout_session-nothing_example =
    logout_session-nothing texts session_table (λ w. w) (λ order rs. rs)
      (λ assignments s. record s { logout_at = some 9 })
      (memory_laws session_holds (λ assignments s. record s { logout_at = some 9 }))
      (λ id s. ap (λ i. s.id == i) (id_of-uuid_text id)) uuid_text_given tools services 9
      alice_in_acme (some "t") two_sessions (λ h. omega arith, (λ h. omega arith, tt)) answers
