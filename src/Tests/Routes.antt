-- ===== src/Tests/Routes.antt =====
-- Requests to a route on concrete services.
use mathlib.Core.List.{Memᴰ}
use mathlib.Core.List.Memᴰ.{head, tail}
use logtrace_backend.Common.{ℕ, String, ◌≡◌, refl, true, false, [], ◌∷◌, contains, string_eq}
use logtrace_backend.GoText.{is_string_empty, is_space, trim_space, trim_left, trim_right, split}
use logtrace_backend.Domain.{err, other}
use logtrace_backend.Http.{
  Request, Context, Handler, NoBody, next, reply, respond, failure, success, empty_context, ◌>>=◌,
  write_user_to_ctx, write_organization_to_ctx, does_organization_exist_in_context,
}
use logtrace_backend.Middleware.{
  token_from_request, user_organization_ids, has_organization_membership,
  selected_organization_id_from_request, resolve_organization_id_for_request,
  require_authentication, require_organization_valid_subscription, subscription_exempt,
  should_skip_organization_selection,
}
use logtrace_backend.Routing.{Route, authentication, subscription, routes, pass, pass_all, serve}
use logtrace_backend.Routing.Guards.{
  is_open, Identified, serve-unauthenticated, pass_all-Identified,
}
use logtrace_backend.Tests.Fixtures.{
  users, orgs, keys, tokens, parse_uuid, session_request, alice_in_acme,
}

abbrev event_listing : Route
event_listing = record {
  prefix = "/events";
  guards = authentication ∷ subscription ∷ [];
  method = "GET";
  pattern = "/";
  span_name = "Event.listAll";
}

is_listed : Memᴰ event_listing routes
unfolding routes
is_listed = tail (
    tail (
      tail (
        tail (
          tail (
            tail
              (tail (tail (tail (tail (tail (tail (tail (tail (tail (tail (head refl))))))))))))))))

is_closed : is_open "Event.listAll" ≡ false
unfolding is_open
is_closed = refl

abbrev answer : Route → Context → Request → Handler ℕ NoBody
answer route ctx r = respond (success 200 "ok")

abbrev bare_request : Request
bare_request = record session_request { header = λ name. "" }

has_no_token : token_from_request bare_request ≡ err (other "invalid bearer token structure")
unfolding token_from_request split
has_no_token = refl

has_no_key : is_string_empty "" ≡ true
unfolding is_string_empty trim_space trim_left trim_right is_space
has_no_key = refl

serve-unauthenticated_example :
    (message : String) × (serve parse_uuid tokens users orgs keys answer event_listing 10
        bare_request 0
      ≡ (reply (failure 401 message), 0))
serve-unauthenticated_example =
    serve-unauthenticated parse_uuid tokens users orgs keys answer event_listing 10 bare_request 0
      (other "invalid bearer token structure") is_listed is_closed has_no_token has_no_key

lets_alice_list :
    pass_all parse_uuid tokens users orgs keys event_listing.guards 10 empty_context session_request
      0
    ≡ (next alice_in_acme, 0)
unfolding pass_all pass require_authentication token_from_request split
    should_skip_organization_selection resolve_organization_id_for_request
    selected_organization_id_from_request has_organization_membership user_organization_ids contains
    trim_space trim_left trim_right is_space write_user_to_ctx write_organization_to_ctx
    require_organization_valid_subscription subscription_exempt does_organization_exist_in_context
    ◌>>=◌
lets_alice_list = refl

pass_all-Identified_example :
    Identified parse_uuid tokens users orgs keys 10 session_request 0 0 alice_in_acme
pass_all-Identified_example =
    pass_all-Identified parse_uuid tokens users orgs keys event_listing 10 alice_in_acme
      session_request 0 0 is_listed is_closed lets_alice_list
