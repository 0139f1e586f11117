-- ===== src/ApiKeys/Revocation.antt =====
-- What revoke does.
use logtrace_backend.Common.{
  ◌≡◌, ◌≢◌, refl, true, false, not, Option, none, some, ◌⊎◌, inl, inr, arith, String, ◌==◌, nat_eq,
  ==_iff,
}
use logtrace_backend.Domain.{
  nil_uuid, Uuid, Result, ok, Time, Organization, ApiKey, User, is_revoked, parse_revocation_type,
  revocation_type_is_valid,
}
use logtrace_backend.Http.{Context, Request, Step, NoBody, reply, success}
use logtrace_backend.Http.Rules.{
  Ends, Ends-check, Ends-present, Ends-deref, Ends-ask, Ends-run, Ends-respond,
}
use logtrace_backend.Repositories.{ApiKeyRepository}
use logtrace_backend.Middleware.{has_organization_membership}
use logtrace_backend.ApiKeys.{Tools, key_options, revoke, revoke_found}

module _ (tools : Tools) {W : Type 0} (keys : ApiKeyRepository W) where
  -- The call of the repository by which `revoke` may write, and what was checked before it.
  pub record IsRevocation (now : Time) (ctx : Context) (r : Request) (bound : Option String) (w : W)
      (s : Step NoBody ⊥) (w' : W) : Type 0 where
    pub organization : Organization
    pub user : Option User
    pub id : Uuid
    pub key : ApiKey
    pub strategy : String
    pub in_context : ctx.organization ≡ some (some organization)
    pub by_user : ctx.user ≡ some user
    pub member : has_organization_membership user organization.id ≡ true
    pub asked : bound ≡ some strategy
    pub valid : revocation_type_is_valid strategy ≡ true
    pub named : tools.parse_uuid (r.url_param "reference") ≡ some id
    pub fetched : keys.fetch (key_options id nil_uuid none none) w ≡ ok key
    pub own : key.organization_id ≡ organization.id
    pub not_yet : is_revoked now key ≡ false
    pub written :
        w'
        ≡ (keys.revoke
            (key_options nil_uuid nil_uuid (some key) (parse_revocation_type strategy))
            w).1
    pub answered :
        s ≡ reply (success 200 "api key revoked")
        → keys.revoke (key_options nil_uuid nil_uuid (some key) (parse_revocation_type strategy)) w
          ≡ (ok tt, w')

  abbrev pub Outcome : Time → Context → Request → Option String → W → Step NoBody ⊥ → W → Type 0
  Outcome now ctx r bound w s w' =
      ((w' ≡ w) × (s ≢ reply (success 200 "api key revoked"))) ⊎ IsRevocation now ctx r bound w s w'

  revoke_found-Ends :
      (now : Time) (ctx : Context) (r : Request) (w : W) (organization : Organization)
      (user : Option User) (id : Uuid) (bound : Option String) (strategy : String) (key : ApiKey)
      → bound ≡ some strategy
      → ctx.organization ≡ some (some organization)
      → ctx.user ≡ some user
      → has_organization_membership user organization.id ≡ true
      → revocation_type_is_valid strategy ≡ true
      → tools.parse_uuid (r.url_param "reference") ≡ some id
      → keys.fetch (key_options id nil_uuid none none) w ≡ ok key
      → Ends (Outcome now ctx r bound w) (revoke_found tools keys now organization strategy key) w
  unfolding revoke_found
  revoke_found-Ends now ctx r w organization user id bound strategy key asked c u member valid named
        fetched =
      Ends-check (key.organization_id == organization.id) _ (inl (refl, λ h. cc)) λ own.
        Ends-check (not (is_revoked now key)) _ (inl (refl, λ h. cc)) λ fresh.
          Ends-run _ _ (λ e f. inr (revocation own fresh _ (λ h. absurd (ground arith))))
            (λ f. Ends-respond _ (inr (revocation own fresh _ (λ h. ground arith))))
    where
      call : Result (Unit {0}) × W
      call =
          keys.revoke (key_options nil_uuid nil_uuid (some key) (parse_revocation_type strategy)) w

      revocation :
          key.organization_id == organization.id ≡ true
          → not (is_revoked now key) ≡ true
          → (s : Step NoBody ⊥)
          → (s ≡ reply (success 200 "api key revoked") → call ≡ (ok tt, call.1))
          → IsRevocation now ctx r bound w s call.1
      revocation own fresh s answered = record {
        organization = organization;
        user = user;
        id = id;
        key = key;
        strategy = strategy;
        in_context = c;
        by_user = u;
        member = member;
        valid = valid;
        named = named;
        fetched = fetched;
        own = (==_iff _ _).0 own;
        not_yet = ground arith;
        written = refl;
        asked = asked;
        answered = answered;
      }

  revoke-Ends :
      (now : Time) (ctx : Context) (r : Request) (bound : Option String) (w : W)
      → Ends (Outcome now ctx r bound w) (revoke tools keys now ctx r bound) w
  unfolding revoke
  revoke-Ends now ctx r bound w = Ends-deref ctx.organization (inl (refl, λ h. cc)) λ pointer held.
      Ends-deref ctx.user (inl (refl, λ h. cc)) λ user by_user.
        Ends-deref pointer (inl (refl, λ h. cc)) λ organization some_organization.
          Ends-check _ _ (inl (refl, λ h. cc)) λ member.
            Ends-present bound _ (inl (refl, λ h. cc)) λ strategy bound_to.
              Ends-check _ _ (inl (refl, λ h. cc)) λ valid.
                Ends-check _ _ (inl (refl, λ h. cc)) λ nonempty.
                  Ends-present _ _ (inl (refl, λ h. cc)) λ id named.
                    Ends-ask _ _ (λ e f. inl (refl, λ h. ground arith))
                      λ key fetched.
                        revoke_found-Ends now ctx r w organization user id bound strategy key
                          bound_to (cc) by_user member valid named fetched

  -- Revoking writes only by one call of the repository, on the key that the request names, and only
  -- where the caller is a member of the organization in the context, the key is of that
  -- organization, it is not revoked already, and the strategy is valid; it answers with success only where that
  -- call succeeded. Otherwise the world is as it was and the reply is not the success.
  pub revoke_authorised :
      (now : Time) (ctx : Context) (r : Request) (bound : Option String) (w : W)
      → (((revoke tools keys now ctx r bound w).1 ≡ w)
          × ((revoke tools keys now ctx r bound w).0 ≢ reply (success 200 "api key revoked")))
        ⊎ IsRevocation now ctx r bound w
            (revoke tools keys now ctx r bound w).0
            (revoke tools keys now ctx r bound w).1
  revoke_authorised now ctx r bound w = (revoke-Ends now ctx r bound w).at
