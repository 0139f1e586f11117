-- ===== src/Auth/Members/Roles.antt =====
-- Whose role is revoked, and who is invited.
use logtrace_backend.Common.{◌≡◌, ◌≢◌, refl, true, some, ◌⊎◌, inl, inr, arith}
use logtrace_backend.Domain.{Uuid, ok, User, UserMetadata, Organization}
use logtrace_backend.Http.{Context, Request, NoBody, Step, reply, success}
use logtrace_backend.Http.Rules.{
  Ends, Ends-present, Ends-deref, Ends-ask, Ends-check, Ends-act, Ends-respond,
}
use logtrace_backend.Middleware.{find_user_by_id, has_organization_membership}
use logtrace_backend.Auth.{Tools, Services}
use logtrace_backend.Auth.Members.{revoke_user_role, as_member}

module _ (tools : Tools) {W : Type 0} (s : Services W) where
  -- The call that writes the new role, and what was checked before it.
  pub record IsDemotion (ctx : Context) (r : Request) (w w' : W) : Type 0 where
    pub id : Uuid
    pub user : User
    pub org : Organization
    pub metadata : UserMetadata
    pub named : tools.parse_uuid (r.url_param "reference") ≡ some id
    pub found : s.users.list (find_user_by_id id) w ≡ ok user
    pub in_context : ctx.organization ≡ some (some org)
    pub member : has_organization_membership (some user) org.id ≡ true
    pub role : user.metadata ≡ some metadata
    pub written : w' ≡ (s.users.update (as_member user metadata) w).1

  abbrev Outcome : Context → Request → W → Step NoBody ⊥ → W → Type 0
  Outcome ctx r w step w' =
      ((w' ≡ w) × (step ≢ reply (success 200 "user role revoked successfully")))
      ⊎ IsDemotion ctx r w w'

  revoke_user_role-Ends :
      (ctx : Context) (r : Request) (w : W)
      → Ends (Outcome ctx r w) (revoke_user_role tools s ctx r) w
  unfolding revoke_user_role
  revoke_user_role-Ends ctx r w = Ends-present _ _ (inl (refl, λ h. cc)) λ id named.
      Ends-ask _ _ (λ e f. inl (refl, λ h. ground arith))
        λ user found. Ends-deref ctx.organization (inl (refl, λ h. cc)) λ pointer held.
          Ends-deref pointer (inl (refl, λ h. cc)) λ org some_org.
            Ends-check _ _ (inl (refl, λ h. cc)) λ member.
              Ends-deref user.metadata (inl (refl, λ h. cc)) λ metadata role.
                let done : IsDemotion ctx r w (s.users.update (as_member user metadata) w).1 =
                  record {
                    id = id;
                    user = user;
                    org = org;
                    metadata = metadata;
                    named = named;
                    found = found;
                    in_context = cc;
                    member = member;
                    role = role;
                    written = refl;
                  } in
                Ends-act _ _ (λ e f. inr done) (λ updated f. Ends-respond _ (inr done))

  -- Revoking a role writes only the user that the request names, with the role "member", and only
  -- where that user is a member of the organization in the context. Otherwise the world is as it was
  -- and the reply is not the success.
  pub revoke_user_role_authorised :
      (ctx : Context) (r : Request) (w : W)
      → Outcome ctx r w (revoke_user_role tools s ctx r w).0 (revoke_user_role tools s ctx r w).1
  revoke_user_role_authorised ctx r w = (revoke_user_role-Ends ctx r w).at
