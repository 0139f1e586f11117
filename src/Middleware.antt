-- ===== src/Middleware.antt =====
-- server/middleware.go. A middleware is an action that gives the context with which the next handler
-- runs; where it replies, the next handler does not run. Tracing and logging are left out.
pub mod Membership
pub mod Gates
pub mod KeyGate
use text.Mathlib.Text.{starts_with}
use logtrace_backend.Common.{
  String, Bool, false, ◌&&◌, ◌||◌, not, Option, none, some, List, [], ◌∷◌, ltb, ◌==◌, nat_eq,
  string_eq, contains, if◌then◌else◌,
}
use logtrace_backend.GoText.{split, trim_space, is_string_empty, before_comma_space}
use logtrace_backend.Domain.{
  Uuid, nil_uuid, Time, other, error_text, is_api_key_not_found, Result, ok, err, User,
}
use logtrace_backend.Http.{
  Request, Context, Action, NoBody, failure, pure, settle, ask, check, present, ◌>>=◌, ◌>>◌,
  does_organization_exist_in_context, get_organization_from_context, write_user_to_ctx,
  write_organization_to_ctx,
}
use logtrace_backend.Paginator.{Paginator}
use logtrace_backend.Common.Int.{pos}
use logtrace_backend.Repositories.{
  UserRepository, FindUserOptions, OrganizationRepository, FindOrganizationOptions,
  ApiKeyRepository, JwTokenManager,
}

-- The zero value of a paginator that a caller leaves out.
abbrev pub no_paginator : Paginator
no_paginator = record { per_page = pos 0; page = pos 0 }

abbrev pub find_user_by_id : Uuid → FindUserOptions
find_user_by_id id = record {
  email = "";
  id = id;
  organization_id = nil_uuid;
  paginator = no_paginator;
}

abbrev pub find_organization_by_id : Uuid → FindOrganizationOptions
find_organization_by_id id = record {
  id = id;
  name = "";
  user_id = nil_uuid;
  plan = "";
  paginator = no_paginator;
}

-- `ss[1]` where `strings.Split` gives exactly two parts.
second_of_two : List String → Result String
second_of_two (a ∷ b ∷ []) = ok b
second_of_two _ = err (other "invalid bearer token structure")

unfoldable pub token_from_request : Request → Result String
unfolding second_of_two
token_from_request r = second_of_two (split b' ' (r.header "Authorization"))

unfoldable pub user_organization_ids : Option User → List Uuid
user_organization_ids none = []
user_organization_ids (some user) = elim user.metadata [ none ↦ [] | some m ↦ m.organization_id ]

unfoldable pub has_organization_membership : Option User → Uuid → Bool
unfolding user_organization_ids
has_organization_membership user org_id =
    if org_id == nil_uuid then false else contains (user_organization_ids user) org_id

unfoldable pub should_skip_organization_selection : String → String → Bool
should_skip_organization_selection path method =
    starts_with path "/v1/auth/connect"
    || (path == "/v1/organizations" && method == "POST")
    || path == "/v1/auth/account/me"

-- `errors.New` with these texts; the caller compares the text.
abbrev pub not_a_member : String
not_a_member = "you are not a member of the selected organization"

-- `getIP`; `RemoteAddr` is what the server saw.
first_address : String → Option String
first_address xff = let ip = before_comma_space xff in if is_string_empty ip then none else some ip

unfoldable pub get_ip : Request → String
unfolding first_address
get_ip r =
    let cloudflare_ip = r.header "CF-Connecting-IP" in
    let xff = r.header "X-Forwarded-For" in
    let x_ip = r.header "X-Real-Ip" in
    let by_real_ip = if is_string_empty x_ip then r.remote_addr else x_ip in
    if not (is_string_empty cloudflare_ip)
    then cloudflare_ip
    else if xff == ""
    then by_real_ip
    else elim (first_address xff) [ none ↦ by_real_ip | some ip ↦ ip ]

-- The part of `resolveOrganizationIDForRequest` below the test for no organization at all:
-- `first` and `more` are the user's organizations.
resolve_among : Option User → Uuid → List Uuid → Result Uuid → Result Uuid
resolve_among user first [] (err e) = ok first
resolve_among user first (o ∷ os) (err e) = err e
resolve_among user first more (ok selected) =
    if has_organization_membership user selected
    then ok selected
    else elim more [ [] ↦ ok first | o ∷ os ↦ err (other not_a_member) ]

resolve_from : Option User → List Uuid → Result Uuid → Result Uuid
resolve_from user [] selected = err (other "you must be a member of a organization")
resolve_from user (first ∷ more) selected = resolve_among user first more selected

-- `parse_uuid` stands for `uuid.Parse` of github.com/google/uuid.
module _ (parse_uuid : String → Option Uuid) where
  unfoldable pub selected_organization_id_from_request : Request → Result Uuid
  selected_organization_id_from_request r =
      let selected = trim_space (r.header "X-Organization-ID") in
      if selected == ""
      then err (other "selected organization is required")
      else elim (parse_uuid selected) [
        | none ↦ err (other "invalid selected organization id")
        | some id ↦ ok id
      ]

  unfoldable pub resolve_organization_id_for_request : Request → Option User → Result Uuid
  unfolding resolve_from resolve_among selected_organization_id_from_request
  resolve_organization_id_for_request r user =
      resolve_from user (user_organization_ids user) (selected_organization_id_from_request r)

  module _ {W : Type 0} (jwt : JwTokenManager) (users : UserRepository W)
      (orgs : OrganizationRepository W) where
    -- The branch of `requireAuthentication` for a path that needs an organization.
    with_organization : Context → Request → Option User → Action W NoBody Context
    with_organization ctx r user = do
      selected ←
          settle (resolve_organization_id_for_request r user)
            (λ e. failure (if error_text e == not_a_member then 403 else 428) (error_text e))
      org ←
          ask (orgs.list (find_organization_by_id selected))
            (λ e. failure 500 "an error occurred while fetching organization from database")
      pure (write_organization_to_ctx ctx (some org))

    unfoldable pub require_authentication : Time → Context → Request → Action W NoBody Context
    unfolding with_organization
    require_authentication now ctx r = do
      token ← settle (token_from_request r) (λ e. failure 401 "session key not exists in request")
      tokens ←
          settle (jwt.parse_jw_token now token) (λ e. failure 401 "could not validate JWT token")
      check (not (ltb tokens.expires_at now)) (failure 401 "session is expired")
      user ←
          ask (users.list (find_user_by_id tokens.user_id))
            (λ e. failure 500 "an error occurred while checking user")
      let ctx' = write_user_to_ctx ctx (some user)
      if should_skip_organization_selection r.path r.method
          then pure ctx'
          else with_organization ctx' r (some user)

-- The paths that need no subscription.
unfoldable pub subscription_exempt : String → String → Bool
subscription_exempt path method =
    path == "/v1/organizations/billing"
    || starts_with path "/v1/organizations/switch/"
    || path == "/v1/organizations"
    || path == "/v1/organizations/preferences"
    || path == "/v1/user"
    || should_skip_organization_selection path method

unfoldable pub require_organization_valid_subscription :
    {W : Type 0} → Context → Request → Action W NoBody Context
unfolding does_organization_exist_in_context
require_organization_valid_subscription ctx r =
    if subscription_exempt r.path r.method then pure ctx else do
      check (does_organization_exist_in_context ctx) (failure 428 "Organization is required")
      pointer ← get_organization_from_context ctx
      org ← present pointer (failure 428 "Organization is required")
      check org.is_subscription_active
          (failure 402 "Organization is not active. You need an active subscription")
      pure ctx

module _ (parse_uuid : String → Option Uuid) {W : Type 0} (jwt : JwTokenManager)
    (users : UserRepository W) (orgs : OrganizationRepository W) where
  -- The two middlewares in the order of `setUpRoutes`.
  unfoldable pub protected : Time → Context → Request → Action W NoBody Context
  protected now ctx r = do
    ctx' ← require_authentication parse_uuid jwt users orgs now ctx r
    require_organization_valid_subscription ctx' r

-- The key that a request carries: the header X-API-Key, or else the bearer token.
unfoldable pub api_key_token : Request → Result String
unfolding token_from_request
api_key_token r =
    let token = r.header "X-Api-Key" in
    if is_string_empty token then token_from_request r else ok token

module _ {W : Type 0} (keys : ApiKeyRepository W) (orgs : OrganizationRepository W) where
  -- A failure to store the time of use is only logged.
  touch : Uuid → Action W NoBody (Unit {0})
  touch id w = let (r, w') = keys.update_last_used_at id w in pure tt w'

  unfoldable pub require_api_key_only : Context → Request → Action W NoBody Context
  unfolding touch
  require_api_key_only ctx r = do
    token ←
        settle (api_key_token r)
          (λ e. failure 401 "please provide an API key in the request header")
    key ← ask (keys.fetch_by_value token) (λ e.
        if is_api_key_not_found e
        then failure 401 "API key not found"
        else failure 500 "An error occurred while fetching API key")
    touch key.id
    org ←
        ask (orgs.list (find_organization_by_id key.organization_id))
          (λ e. failure 500 "an error occurred while fetching organization from database")
    pure (write_organization_to_ctx ctx (some org))
