-- ===== src/Tests/Recorded.antt =====
-- Events and audit logs on their way to the queue; a world is the queue and the stored events.
use logtrace_backend.Common.{◌≡◌, refl, true, false, none, some, List, [], ◌∷◌}
use logtrace_backend.Common.Int.{pos}
use logtrace_backend.GoText.{is_string_empty, trim_space, trim_left, trim_right, is_space}
use logtrace_backend.Domain.{other, no_rows, user_not_found, Result, ok, err}
use logtrace_backend.Http.{reply, success, ◌>>=◌}
use logtrace_backend.Repositories.{Message, save_event, OrganizationUser}
use logtrace_backend.OrganizationUsers.{with_organization_user}
use logtrace_backend.Sql.{where_, Table}
use logtrace_backend.Trail.{Event}
use logtrace_backend.EventHandlers.{
  EventServices, CreateEventRequest, validate_event, new_event, create_event, enqueue_event,
}
use logtrace_backend.AuditLogHandlers.{
  AuditLogServices, CreateAuditLogRequest, new_audit_log, create_audit_log, enqueue_audit_log,
}
use logtrace_backend.AuditLogHandlers.Attribution.{over_users, create_audit_log-first_user}
use logtrace_backend.Queue.{Client, Codec, Consumer, Middlewares, add, with_middleware}
use logtrace_backend.Queue.Delivery.{IsWatermill, with_middleware-fails_once}
use logtrace_backend.Queue.Pipeline.{over_queue, IsPublished, create_event-IsPublished}
use logtrace_backend.Tests.Fixtures.{alice_in_acme, acme}
use logtrace_backend.Tests.Memory.{memory}
use logtrace_backend.Tests.Trail.{details}

abbrev World : Type 0
World = List Message × List Event

abbrev unreadable : {A : Type 0} → Result A
unreadable = err (other "invalid character")

abbrev read_event : Message → Result Event
read_event (save_event e) = ok e
read_event _ = unreadable

abbrev codec : Codec Message
codec = record {
  encode = λ m. m;
  decode_event = read_event;
  decode_audit_log = λ m. unreadable;
  decode_session = λ m. unreadable;
  decode_user_token = λ m. unreadable;
  decode_billing_trial = λ m. unreadable;
  decode_expired = λ m. unreadable;
}

abbrev client : Client Message World
client = record {
  codec = codec;
  publish = λ topic m w. (ok tt, (m ∷ w.0, w.1));
  create_event = λ e w. (ok tt, (w.0, e ∷ w.1));
  create_audit_log = λ a w. (ok tt, w);
  create_session = λ s w. (ok tt, w);
  users = record {
    create = λ u w. (ok (some u), w);
    list = λ opts w. err user_not_found;
    list_all = λ opts w. ok ([], pos 0);
    update = λ u w. (ok u, w);
  };
  render = λ template values. ok template;
  send = λ m w. (ok tt, w);
  app_url = "https://logtrace.app";
  sender = "no-reply@logtrace.app";
}

abbrev services : EventServices World
services = record {
  events = record {
    create = λ e w. (ok tt, (w.0, e ∷ w.1));
    list = λ opts w. err no_rows;
    list_all = λ opts w. ok (w.1, pos 0);
    metrics = λ opts w. ok (pos 0);
    top_actor_metrics = λ opts w. ok [];
  };
  org_users = record { find = λ opts w. (none, some no_rows); create = λ u w. (ok tt, w) };
  queue = record { add = λ m w. (ok tt, w) };
  geo_ip_lookup = λ ip w. some ("Norway", "Oslo");
}

abbrev login : CreateEventRequest
login = record {
  name = "login";
  user_id = "u1";
  username = "bob";
  request_details = details;
  event_type = "auth";
  metadata = "";
}

abbrev published : World
published = (save_event (new_event login (some ("Norway", "Oslo")) 3) ∷ [], [])

accepts :
    (create_event (over_queue client services (λ e. refl)) alice_in_acme (some login) ([], [])).0
    ≡ reply (success 202 "Event accepted for processing")
unfolding create_event validate_event with_organization_user enqueue_event add is_string_empty
    trim_space trim_left trim_right is_space ◌>>=◌
accepts = refl

create_event-IsPublished_example :
    IsPublished client services
      (λ e. refl)
      alice_in_acme
      (some login)
      ([], [])
      (create_event (over_queue client services (λ e. refl)) alice_in_acme (some login) ([], [])).1
create_event-IsPublished_example =
    create_event-IsPublished client services (λ e. refl) alice_in_acme (some login) ([], []) accepts

-- The middlewares without what they do beside the calls: a failed message is published once.
abbrev salvaged :
    Consumer Message World → Message → Result (Unit {0}) × World → Result (Unit {0}) × World
salvaged publish m (ok _, w) = (ok tt, w)
salvaged publish m (err e, w) = publish m w

abbrev middlewares : Middlewares Message World
middlewares = record {
  retry = λ n h m w. h m w;
  poison_queue = λ publish h m w. salvaged publish m (h m w);
  recoverer = λ h m w. h m w;
}

watermill : IsWatermill middlewares
watermill = record {
  recovers = λ h m w. refl;
  salvages = λ publish h m e w v v' failed sent. rw failed sent;
  keeps = λ publish h m w v passed. rw passed refl;
  settles = λ n h m w v passed. passed;
}

abbrev down : Consumer Message World
down m w = (err (other "connection refused"), w)

abbrev to_poison : Consumer Message World
to_poison m w = (ok tt, (m ∷ w.0, w.1))

with_middleware-fails_once_example :
    with_middleware middlewares to_poison down (save_event (new_event login none 3)) ([], [])
    ≡ (ok tt, (save_event (new_event login none 3) ∷ [], []))
with_middleware-fails_once_example =
    with_middleware-fails_once middlewares watermill to_poison down
      (save_event (new_event login none 3)) (other "connection refused") ([], []) ([], [])
      (save_event (new_event login none 3) ∷ [], []) refl refl

-- Users of organizations; the first of an organization is Carol.
abbrev users : Table OrganizationUser (List OrganizationUser)
users = memory (λ p u. true) (λ s u. u)

abbrev carol : OrganizationUser
carol = record { user_id = "c1"; organization_id = 3; username = "carol" }

abbrev audit_services : AuditLogServices (List OrganizationUser)
audit_services = record {
  audit_logs = record {
    create = λ a w. (ok tt, w);
    list = λ opts w. err no_rows;
    list_all = λ opts w. ok ([], pos 0);
    metrics = λ opts w. ok (pos 0);
  };
  org_users = record { find = λ opts w. (none, some no_rows); create = λ u w. (ok tt, w) };
  queue = record { add = λ m w. (ok tt, w) };
  geo_ip_lookup = λ ip w. none;
}

abbrev by_bob : CreateAuditLogRequest
by_bob = record {
  name = "export";
  timestamp = "";
  user_id = "";
  user_name = "bob";
  description = "";
  request_details = details;
  organization_id = "";
  metadata = "";
}

is_named : (is_string_empty "export" ≡ false) × (is_string_empty "bob" ≡ false)
unfolding is_string_empty trim_space trim_left trim_right is_space
is_named = (refl, refl)

create_audit_log-first_user_example :
    create_audit_log (over_users users audit_services) 9 alice_in_acme (some by_bob) (carol ∷ [])
    ≡ enqueue_audit_log
        (over_users users audit_services)
        (new_audit_log (record by_bob { user_id = "c1"; user_name = "carol" }) none 9 3)
        (carol ∷ [])
unfolding logtrace_backend.Sql.Laws.matches
create_audit_log-first_user_example =
    create_audit_log-first_user users audit_services 9 alice_in_acme by_bob acme carol (carol ∷ [])
      is_named.0 is_named.1 refl refl refl refl
