-- ===== src/Tests/Listing.antt =====
-- A request for the events of an organization, over a table of events in memory.
use logtrace_backend.Common.{
  ◌≡◌, refl, none, some, List, [], ◌∷◌, contains, arith, ◌==◌, nat_eq, Bool-cases, inl, inr, ap,
  ◌∙◌, ==_iff, if◌then◌else◌,
}
use logtrace_backend.Common.Int.{pos}
use logtrace_backend.GoText.{is_string_empty, is_space, trim_space, trim_left, trim_right, split}
use logtrace_backend.Paginator.{paginator_from_request}
use logtrace_backend.Paginator.Pages.{page_of}
use logtrace_backend.Domain.{Uuid, no_rows, organization_not_found, ok, err, Organization}
use logtrace_backend.Http.{
  next, reply, success_with, empty_context, ◌>>=◌, write_user_to_ctx, write_organization_to_ctx,
  does_organization_exist_in_context,
}
use logtrace_backend.Repositories.{UserRepository, OrganizationRepository}
use logtrace_backend.Middleware.{
  find_organization_by_id, token_from_request, user_organization_ids, has_organization_membership,
  selected_organization_id_from_request, resolve_organization_id_for_request,
  require_authentication, require_organization_valid_subscription, subscription_exempt, protected,
  should_skip_organization_selection,
}
use logtrace_backend.Trail.{Event}
use logtrace_backend.Stores.Events.{list_all}
use logtrace_backend.EventHandlers.{
  EventServices, EventPage, list_options, event_page, list_all_events,
}
use logtrace_backend.EventHandlers.Isolation.{over_events, IsOwnPage, list_all_events-IsOwnPage}
use logtrace_backend.Tests.Fixtures.{
  alice, acme, tokens, parse_uuid, session_request, alice_in_acme,
}
use logtrace_backend.Tests.Memory.{memory_laws}
use logtrace_backend.Tests.Trail.{
  texts, uuid_text_given, owned_by, all_events, event_table, found_events, of_three, lists_events,
}

abbrev users : UserRepository (List Event)
users = record {
  create = λ u w. (ok (some u), w);
  list = λ o w. ok alice;
  list_all = λ o w. ok (alice ∷ [], pos 1);
  update = λ u w. (ok u, w);
}

abbrev orgs : OrganizationRepository (List Event)
orgs = record {
  create = λ o w. (ok o, w);
  list = λ o w. if o.id == 3 then ok acme else err organization_not_found;
  update = λ o w. (ok o, w);
  delete = λ o w. (ok tt, w);
  list_all = λ o w. ok (acme ∷ [], pos 1);
}

organization_found :
    (id : Uuid) (o : Organization) (w : List Event)
    → orgs.list (find_organization_by_id id) w ≡ ok o
    → o.id ≡ id
organization_found id o w h = elim (Bool-cases (id == 3)) [
  | inl e ↦ ground (arith, ==_iff id 3)
  | inr e ↦ absurd (ground arith)
]

abbrev services : EventServices (List Event)
services = record {
  events = record {
    create = λ e w. (ok tt, e ∷ w);
    list = λ opts w. err no_rows;
    list_all = λ opts w. ok (w, pos 0);
    metrics = λ opts w. ok (pos 0);
    top_actor_metrics = λ opts w. ok [];
  };
  org_users = record { find = λ opts w. (none, some no_rows); create = λ u w. (ok tt, w) };
  queue = record { add = λ m w. (ok tt, w) };
  geo_ip_lookup = λ ip w. none;
}

first_page :
    paginator_from_request (session_request.query "page") (session_request.query "per_page")
    ≡ page_of 20 1
unfolding paginator_from_request is_string_empty trim_space trim_left trim_right is_space
first_page = refl

abbrev shown_page : EventPage
shown_page = event_page (list_options session_request 3) (found_events, pos 2)

lets_alice_in :
    protected parse_uuid tokens users orgs 10 empty_context session_request all_events
    ≡ (next alice_in_acme, all_events)
unfolding protected require_authentication token_from_request split
    should_skip_organization_selection resolve_organization_id_for_request
    selected_organization_id_from_request has_organization_membership user_organization_ids contains
    trim_space trim_left trim_right is_space write_user_to_ctx write_organization_to_ctx
    require_organization_valid_subscription subscription_exempt does_organization_exist_in_context
    ◌>>=◌
lets_alice_in = refl

options_of_three : list_options session_request 3 ≡ of_three
unfolding list_options
options_of_three = ap (λ q. record of_three { paginator = q }) first_page

shows_events :
    list_all_events
      (over_events texts event_table services)
      alice_in_acme
      session_request
      all_events
    ≡ (reply (success_with 200 "Events fetched successfully" shown_page), all_events)
unfolding list_all_events ◌>>=◌
shows_events =
    let listed : list_all texts event_table (list_options session_request 3) all_events
        ≡ ok (found_events, pos 2) =
      ap (λ q. list_all texts event_table q all_events) options_of_three ∙ lists_events in
    ground (arith, listed)

list_all_events-IsOwnPage_example :
    (◌≡◌ {A = List Event} all_events all_events)
    × IsOwnPage parse_uuid texts tokens users orgs event_table services
        (λ w. w)
        (λ order rs. rs)
        (λ assignments e. e)
        (memory_laws (owned_by (λ e. e.organization_id)) (λ assignments e. e))
        (λ org e. refl)
        uuid_text_given
        organization_found
        10
        alice_in_acme
        session_request
        all_events
        shown_page
list_all_events-IsOwnPage_example =
    list_all_events-IsOwnPage parse_uuid texts tokens users orgs event_table services (λ w. w)
      (λ order rs. rs) (λ assignments e. e)
      (memory_laws (owned_by (λ e. e.organization_id)) (λ assignments e. e)) (λ org e. refl)
      uuid_text_given organization_found 10 alice_in_acme session_request 19 0 shown_page all_events
      all_events all_events refl refl first_page (omega arith) lets_alice_in shows_events
