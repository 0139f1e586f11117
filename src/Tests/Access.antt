-- ===== src/Tests/Access.antt =====
-- The middlewares and the paginator on concrete requests.
use logtrace_backend.Common.{
  ℕ, ◌≡◌, arith, refl, true, false, none, some, List, [], ◌∷◌, contains, ◌*◌, string_eq,
}
use logtrace_backend.Domain.{ok, User}
use logtrace_backend.Http.{
  Context, next, empty_context, ◌>>=◌, write_user_to_ctx, write_organization_to_ctx,
  does_organization_exist_in_context,
}
use logtrace_backend.GoText.{is_string_empty, is_space, trim_space, trim_left, trim_right, split}
use logtrace_backend.Common.Int.{pos}
use logtrace_backend.Paginator.{offset, paginator_from_request}
use logtrace_backend.Paginator.Bounds.{IsSane, paginator_from_request-IsSane}
use logtrace_backend.Paginator.Pages.{page_of, offset-page_of}
use logtrace_backend.Middleware.{
  user_organization_ids, has_organization_membership, selected_organization_id_from_request,
  resolve_organization_id_for_request, require_authentication, subscription_exempt,
  require_organization_valid_subscription, protected, require_api_key_only, token_from_request,
  should_skip_organization_selection, api_key_token,
}
use logtrace_backend.Middleware.Gates.{IsPlaced, IsAuthenticated, protected_sound}
use logtrace_backend.Tests.Fixtures.{
  alice, acme, users, orgs, keys, tokens, parse_uuid, session_request, service_request,
  alice_in_acme,
}

abbrev fresh : ℕ
fresh = 0

selects_acme : resolve_organization_id_for_request parse_uuid session_request (some alice) ≡ ok 3
unfolding resolve_organization_id_for_request selected_organization_id_from_request
    has_organization_membership user_organization_ids contains trim_space trim_left trim_right
    is_space
selects_acme = refl

abbrev bob : User
bob = record alice { metadata = some (record { organization_id = 3 ∷ []; user_role = "member" }) }

lets_alice_in :
    require_authentication parse_uuid tokens users orgs 10 empty_context session_request 0
    ≡ (next alice_in_acme, 0)
unfolding require_authentication token_from_request split should_skip_organization_selection
    resolve_organization_id_for_request selected_organization_id_from_request
    has_organization_membership user_organization_ids contains trim_space trim_left trim_right
    is_space write_user_to_ctx write_organization_to_ctx ◌>>=◌
lets_alice_in = refl

pays :
    require_organization_valid_subscription {W = ℕ} alice_in_acme session_request 0
    ≡ (next alice_in_acme, 0)
unfolding require_organization_valid_subscription subscription_exempt
    should_skip_organization_selection does_organization_exist_in_context ◌>>=◌
pays = refl

passes_both :
    protected parse_uuid tokens users orgs 10 empty_context session_request 0
    ≡ (next alice_in_acme, 0)
unfolding protected ◌>>=◌
passes_both = rw lets_alice_in pays

needs_both : subscription_exempt "/v1/events" "GET" ≡ false
unfolding subscription_exempt should_skip_organization_selection
needs_both = refl

protected_sound_example :
    (fresh ≡ fresh)
    × (auth : IsAuthenticated parse_uuid tokens users orgs 10 session_request 0 alice_in_acme)
    × (placed : IsPlaced parse_uuid tokens users orgs 0 auth.user alice_in_acme)
    × (placed.organization.is_subscription_active ≡ true)
protected_sound_example =
    protected_sound parse_uuid tokens users orgs 10 empty_context alice_in_acme session_request 0 0
      needs_both passes_both

abbrev acme_only : Context
acme_only = record { user = none; organization = some (some acme) }

takes_key : require_api_key_only keys orgs empty_context service_request 0 ≡ (next acme_only, 1)
unfolding require_api_key_only api_key_token is_string_empty trim_space trim_left trim_right
    is_space write_organization_to_ctx ◌>>=◌
takes_key = refl

paginator_from_request-IsSane_example : IsSane (paginator_from_request "3" "-5")
paginator_from_request-IsSane_example = paginator_from_request-IsSane "3" "-5"

offset-page_of_example : offset (page_of 20 3) ≡ pos (2 * 20)
offset-page_of_example = offset-page_of 20 2 (omega arith) (omega arith)

abbrev three_rows : List ℕ
three_rows = 5 ∷ 6 ∷ 7 ∷ []
