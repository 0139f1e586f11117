-- ===== src/ApiKeys.antt =====
-- server/api_key.go: the handlers that create, list and revoke API keys. The bound request body is
-- an argument, `none` where `render.Bind` fails; so is what `util.GenerateRandom` returns.
pub mod Creation
pub mod Revocation
use Prim.Native.String.{String, ◌++◌, len}
use logtrace_backend.Common.{
  ℕ, Bool, true, false, not, ◌&&◌, Option, none, some, List, map, ltb, ◌==◌, nat_eq, if◌then◌else◌,
}
use logtrace_backend.GoText.{is_string_empty}
use logtrace_backend.Domain.{
  Uuid, nil_uuid, Time, Error, other, error_text, is_api_key_not_found, is_api_key_max_limit,
  Result, ok, err, ApiKey, RevocationType, parse_revocation_type, revocation_type_is_valid,
  is_revoked, Organization, User,
}
use logtrace_backend.Http.{
  Request, Context, Action, Handler, NoBody, Reply, failure, success, success_with, pure, respond,
  settle, ask, act, read, check, present, deref, ◌>>=◌, ◌>>◌, get_organization_from_context,
  get_user_from_context,
}
use logtrace_backend.Repositories.{ApiKeyRepository, ApiKeyOptions}
use logtrace_backend.Middleware.{has_organization_membership}

-- What the handlers take from packages outside the repository, and from the configuration:
-- bluemonday's strict policy, `logtrace.HashKey` (an HMAC in hexadecimal) and `cfg.APIKey.HashSecret`.
pub record Tools : Type 0 where
  pub sanitize : String → String
  pub hash_key : String → String → String
  pub hash_secret : String
  pub parse_uuid : String → Option Uuid

-- `createAPIKeyRequest.Validate`, with the name that it leaves in the request. `len` counts bytes.
unfoldable pub validate_create : (String → String) → String → Result String
validate_create sanitize name =
    if is_string_empty name
    then err (other "please provide the name of the api key")
    else if ltb (len name) 3
    then err (other "name must be more than 3 characters")
    else if ltb 20 (len name)
    then err (other "name must be less than 20 characters")
    else ok (sanitize name)

-- `err != nil && !errors.Is(err, ErrAPIKeyNotFound)`
abbrev is_lookup_failure : Option Error → Bool
is_lookup_failure none = false
is_lookup_failure (some e) = not (is_api_key_not_found e)

abbrev is_present : {A : Type 0} → Option A → Bool
is_present none = false
is_present (some _) = true

abbrev pub new_api_key : Uuid → Uuid → String → String → ApiKey
new_api_key org user value name = record {
  id = nil_uuid;
  created_by = user;
  value = value;
  name = name;
  organization_id = org;
  last_used_at = none;
  expires_at = none;
  created_at = 0;
}

-- The entry of a key in the listing: its value is not shown.
pub record Key : Type 0 where
  pub id : Uuid
  pub name : String
  pub last_used_at : Option Time
  pub created_at : Time
  pub expires_at : Option Time

unfoldable pub to_key : ApiKey → Key
to_key k = record {
  id = k.id;
  name = k.name;
  last_used_at = k.last_used_at;
  created_at = k.created_at;
  expires_at = k.expires_at;
}

abbrev pub key_options : Uuid → Uuid → Option ApiKey → Option RevocationType → ApiKeyOptions
key_options id org key strategy = record {
  id = id;
  user_id = nil_uuid;
  organization_id = org;
  api_key = key;
  revocation_type = strategy;
}

-- `"lg_" + HashKey(…)`
abbrev pub encrypted_value : Tools → String → String
encrypted_value tools random = "lg_" ++ tools.hash_key tools.hash_secret random

module _ (tools : Tools) {W : Type 0} (keys : ApiKeyRepository W) where
  unfoldable pub create_with : Organization → Option User → String → String → Handler W String
  create_with organization user name random = do
    (existing, e) ← read (keys.fetch_by_name name organization.id)
    check (not (is_lookup_failure e)) (failure 500 "could not verify api key name")
    check (not (is_present existing)) (failure 400 "api key with the same name already exists")
    creator ← deref user
    act (keys.create (new_api_key organization.id creator.id (encrypted_value tools random) name))
        (λ x.
          if is_api_key_max_limit x
          then failure 400 (error_text x)
          else failure 500 "could not create api key")
    respond (success_with 200 "api key created" (encrypted_value tools random))

  unfoldable pub create : Context → Option String → String → Handler W String
  create ctx bound random = do
    organization ← get_organization_from_context ctx
    user ← get_user_from_context ctx
    body ← present bound (failure 400 "invalid request body")
    name ← settle (validate_create tools.sanitize body) (λ e. failure 400 (error_text e))
    org ← deref organization
    create_with org user name random

  unfoldable pub list : Context → Handler W (List Key)
  unfolding to_key
  list ctx = do
    organization ← get_organization_from_context ctx
    org ← deref organization
    found ←
        ask (keys.list (key_options nil_uuid org.id none none))
          (λ _. failure 500 "could not list api keys")
    respond (success_with 200 "api keys fetched successfully" (map to_key found))

  -- From the key that the repository found to the end of `revoke`.
  unfoldable pub revoke_found : Time → Organization → String → ApiKey → Handler W NoBody
  revoke_found now org strategy key = do
    check (key.organization_id == org.id) (failure 403 "unauthorized")
    check (not (is_revoked now key)) (failure 400 "api key already revoked")
    act (keys.revoke (key_options nil_uuid nil_uuid (some key) (parse_revocation_type strategy)))
        (λ e.
          if is_api_key_max_limit e
          then failure 400 (error_text e)
          else failure 500 "could not revoke api key")
    respond (success 200 "api key revoked")

  -- The argument after the request is its bound body, the strategy.
  unfoldable pub revoke : Time → Context → Request → Option String → Handler W NoBody
  revoke now ctx r bound = do
    organization ← get_organization_from_context ctx
    user ← get_user_from_context ctx
    org ← deref organization
    check (has_organization_membership user org.id) (failure 403 "unauthorized")
    strategy ← present bound (failure 400 "invalid request body")
    check (revocation_type_is_valid strategy)
        (failure 400 "please provide a valid revocation strategy")
    check (not (is_string_empty (r.url_param "reference")))
        (failure 400 "invalid api key reference")
    api_key_id ←
        present (tools.parse_uuid (r.url_param "reference"))
          (failure 400 "invalid api key reference")
    key ← ask (keys.fetch (key_options api_key_id nil_uuid none none)) (λ e.
        if is_api_key_not_found e
        then failure 404 (error_text e)
        else failure 500 "could not fetch api key")
    revoke_found now org strategy key
