-- ===== src/Middleware/KeyGate.antt =====
-- What requireAPIKeyOnly lets through.
use logtrace_backend.Common.{String, ◌≡◌, some, arith, inl, inr}
use logtrace_backend.Domain.{Organization, ApiKey, ok, Result-cases}
use logtrace_backend.Http.{Request, Context, next, ◌>>=◌, write_organization_to_ctx}
use logtrace_backend.Repositories.{OrganizationRepository, ApiKeyRepository}
use logtrace_backend.Middleware.{find_organization_by_id, api_key_token, require_api_key_only}

-- The API key that requireAPIKeyOnly found, the organization of the key in the context, and the
-- world after the time of use was stored.
pub record IsKeyed {W : Type 0} (keys : ApiKeyRepository W) (orgs : OrganizationRepository W)
    (r : Request) (w w' : W) (ctx ctx' : Context) : Type 0 where
  pub token : String
  pub key : ApiKey
  pub organization : Organization
  pub presented : api_key_token r ≡ ok token
  pub fetched : keys.fetch_by_value token w ≡ ok key
  pub touched : w' ≡ (keys.update_last_used_at key.id w).1
  pub found : orgs.list (find_organization_by_id key.organization_id) w' ≡ ok organization
  pub stored : ctx'.organization ≡ some (some organization)
  pub same_user : ctx'.user ≡ ctx.user

module _ {W : Type 0} (keys : ApiKeyRepository W) (orgs : OrganizationRepository W) where
  IsKeyed-with :
      (ctx ctx' : Context) (r : Request) (token : String) (key : ApiKey) (w w' : W)
      → api_key_token r ≡ ok token
      → keys.fetch_by_value token w ≡ ok key
      → require_api_key_only keys orgs ctx r w ≡ (next ctx', w')
      → IsKeyed keys orgs r w w' ctx ctx'
  unfolding require_api_key_only write_organization_to_ctx ◌>>=◌
  IsKeyed-with ctx ctx' r token key w w' presented fetched h =
      let v = (keys.update_last_used_at key.id w).1 in
      elim (Result-cases (orgs.list (find_organization_by_id key.organization_id) v)) [
        | inr (x, e) ↦ absurd (ground arith)
        | inl (org, found) ↦
            let touched : w' ≡ v = ground arith in
            record {
              token = token;
              key = key;
              organization = org;
              presented = presented;
              fetched = fetched;
              touched = touched;
              found = rw touched found;
              stored = ground arith;
              same_user = ground arith;
            }
      ]

  -- A request that requireAPIKeyOnly lets through presented a key that the repository finds, its
  -- context holds the organization of that key and the user it held before, and only the key's time
  -- of use was written.
  pub require_api_key_only-IsKeyed :
      (ctx ctx' : Context) (r : Request) (w w' : W)
      → require_api_key_only keys orgs ctx r w ≡ (next ctx', w')
      → IsKeyed keys orgs r w w' ctx ctx'
  require_api_key_only-IsKeyed ctx ctx' r w w' h = elim (Result-cases (api_key_token r)) [
    | inr (x, e) ↦ absurd (unfold require_api_key_only ◌>>=◌ in ground arith)
    | inl (token, presented) ↦ elim (Result-cases (keys.fetch_by_value token w)) [
      | inr (x, e) ↦ absurd (unfold require_api_key_only ◌>>=◌ in ground arith)
      | inl (key, fetched) ↦ IsKeyed-with ctx ctx' r token key w w' presented fetched h
    ]
  ]
