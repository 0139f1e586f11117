-- ===== src/Organizations/Creation.antt =====
-- What the creation of an organization writes.
use logtrace_backend.Common.{
  ◌≡◌, ◌≢◌, refl, ap, Option, some, [], ◌∷◌, ◌++◌, ◌⊎◌, inl, inr, Option-cases,
}
use logtrace_backend.Domain.{Uuid, Time, ok, User, Organization}
use logtrace_backend.Http.{Context, NoBody, Step, reply, success}
use logtrace_backend.Http.Rules.{
  Ends, Ends-present, Ends-deref, Ends-settle, Ends-act, Ends-respond,
}
use logtrace_backend.Middleware.{user_organization_ids}
use logtrace_backend.Organizations.{
  OrganizationServices, CreateOrgRequest, validate_create, new_free_organization, with_membership,
  create_organization,
}

module _ {W : Type 0} (s : OrganizationServices W) where
  -- The organization that the repository gave back and the user that was updated to be one of its members.
  pub record IsCreation (now : Time) (ctx : Context) (bound : Option CreateOrgRequest) (w w' : W)
      : Type 0 where
    pub req : CreateOrgRequest
    pub org : Organization
    pub user : User
    pub written : User
    pub after_org : W
    pub bound_to : bound ≡ some req
    pub valid : validate_create req ≡ ok tt
    pub by_user : ctx.user ≡ some (some user)
    pub stored : s.orgs.create (new_free_organization now req) w ≡ (ok org, after_org)
    pub updated : s.users.update (with_membership org.id user) after_org ≡ (ok written, w')
    pub members :
        user_organization_ids (some (with_membership org.id user))
        ≡ user_organization_ids (some user) ++ (org.id ∷ [])

  abbrev Outcome : Time → Context → Option CreateOrgRequest → W → Step NoBody ⊥ → W → Type 0
  Outcome now ctx bound w step w' =
      (step ≢ reply (success 201 "Organization created successfully"))
      ⊎ IsCreation now ctx bound w w'

  members_grow :
      (org : Uuid) (user : User)
      → user_organization_ids (some (with_membership org user))
        ≡ user_organization_ids (some user) ++ (org ∷ [])
  unfolding user_organization_ids with_membership
  members_grow org user = elim (Option-cases user.metadata) [
    | inl e ↦ rw e refl
    | inr (m, e) ↦ rw e refl
  ]

  create_organization-Ends :
      (now : Time) (ctx : Context) (bound : Option CreateOrgRequest) (w : W)
      → Ends (Outcome now ctx bound w) (create_organization s now ctx bound) w
  unfolding create_organization
  create_organization-Ends now ctx bound w = Ends-present bound _ (inl (λ h. cc)) λ req bound_to.
      Ends-settle _ _ (λ e f. inl (λ h. cc))
        λ u valid.
          Ends-act _ _ (λ e f. inl (λ h. cc))
            λ org created. Ends-deref ctx.user (inl (λ h. cc)) λ pointer held.
              Ends-deref pointer (inl (λ h. cc)) λ user some_user.
                Ends-act _ _ (λ e f. inl (λ h. cc))
                  λ written updated. Ends-respond _ (
                    inr (record {
                      req = req;
                      org = org;
                      user = user;
                      written = written;
                      after_org = _;
                      bound_to = bound_to;
                      valid = valid;
                      by_user = cc;
                      stored =
                          ap (λ x. (x, (s.orgs.create (new_free_organization now req) w).1))
                            created;
                      updated =
                          ap
                            (λ x. (
                              x,
                              (s.users.update (with_membership org.id user)
                                  (s.orgs.create (new_free_organization now req) w).1).1,
                            ))
                            updated;
                      members = members_grow org.id user;
                    }))

  -- A creation that is answered with success was valid, called the repository with an organization on
  -- the free plan, and updated the user in the context to belong to the one that came back beside
  -- the organizations before.
  pub create_organization-IsCreation :
      (now : Time) (ctx : Context) (bound : Option CreateOrgRequest) (w : W)
      → (create_organization s now ctx bound w).0
        ≡ reply (success 201 "Organization created successfully")
      → IsCreation now ctx bound w (create_organization s now ctx bound w).1
  create_organization-IsCreation now ctx bound w h =
      elim (create_organization-Ends now ctx bound w).at [
        | inl refused ↦ absurd (refused h)
        | inr done ↦ done
      ]
