-- ===== src/OrganizationUsers/Registered.antt =====
-- The user behind a record, once the rest of a Create handler runs.
use logtrace_backend.Common.{◌≡◌, ap, Option, none, some, inl, inr, Option-cases}
use logtrace_backend.Domain.{ok}
use logtrace_backend.Http.{Handler, Step, reply, failure}
use logtrace_backend.Http.Rules.{Ends, Ends-read, Ends-check, Ends-run}
use logtrace_backend.Repositories.{
  OrganizationUser, FindOrganizationUserOptions, OrganizationUserRepository,
}
use logtrace_backend.OrganizationUsers.{with_organization_user}

module _ {W : Type 0} (org_users : OrganizationUserRepository W) where
  -- The user that the options found, in the same world, or none, after the new one was created.
  pub data IsRegistered (opts : FindOrganizationUserOptions) (new : OrganizationUser) (w : W)
      : Option OrganizationUser → W → Type 0 where
    found :
        (u : OrganizationUser)
        → (org_users.find opts w).0 ≡ some u
        → IsRegistered opts new w (some u) w
    created :
        (v : W)
        → (org_users.find opts w).0 ≡ none
        → org_users.create new w ≡ (ok tt, v)
        → IsRegistered opts new w none v

  module _ {B : Type 0} {P : Step B ⊥ → W → Type 0} where
    pub Ends-with_organization_user :
        (opts : FindOrganizationUserOptions) (new : OrganizationUser)
        (rest : Option OrganizationUser → Handler W B) (w : W)
        → P (reply (failure 500 "failed to find organization user")) w
        → ((v : W) → P (reply (failure 500 "failed to create organization user")) v)
        → ((user : Option OrganizationUser) (v : W)
            → IsRegistered opts new w user v
            → Ends P (rest user) v)
        → Ends P (with_organization_user org_users opts new rest) w
    unfolding with_organization_user
    Ends-with_organization_user opts new rest w unfound uncreated later = Ends-read _ _ (
        Ends-check _ _ unfound λ looked_up. elim (Option-cases (org_users.find opts w).0) [
          | inr (u, f) ↦ rw f (later (some u) w (found u f))
          | inl f ↦ rw f (
              Ends-run _ _ (λ e g. uncreated _)
                (λ g. later none _ (created _ f (ap (λ x. (x, (org_users.create new w).1)) g))))
        ])
