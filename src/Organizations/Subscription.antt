-- ===== src/Organizations/Subscription.antt =====
-- How an organization comes to an active subscription: by its creation, and by its update.
use Prim.Native.String.{String}
use logtrace_backend.Common.{
  ◌≡◌, refl, ap, ◌∙◌, Bool, true, false, Option, some, Bool-cases, inl, inr,
}
use logtrace_backend.Domain.{Uuid, Time, ok, error_text, Result-cases, Organization}
use logtrace_backend.Repositories.{JwTokenManager}
use logtrace_backend.Http.{
  Context, Request, NoBody, Step, next, reply, success, success_with, ◌>>=◌,
  does_organization_exist_in_context,
}
use logtrace_backend.Middleware.{
  find_organization_by_id, protected, require_authentication,
  require_organization_valid_subscription, subscription_exempt,
}
use logtrace_backend.Middleware.Gates.{skips, require_authentication-IsAuthenticated}
use logtrace_backend.Sql.{Table, Statements, Texts}
use logtrace_backend.Stores.ApiKeys.{where_uuid}
use logtrace_backend.Stores.Organizations.{stored_organizations, create, update}
use logtrace_backend.Organizations.{
  OrganizationServices, CreateOrgRequest, UpdateOrgRequest, new_free_organization,
  create_organization, updated_organization, update_organization,
}
use logtrace_backend.Organizations.Creation.{IsCreation, create_organization-IsCreation}

-- The check of the subscription lets every request of an organization with an active one through.
subscription_passes :
    {W : Type 0} (ctx : Context) (r : Request) (org : Organization) (w : W)
    → ctx.organization ≡ some (some org)
    → org.is_subscription_active ≡ true
    → require_organization_valid_subscription ctx r w ≡ (next ctx, w)
unfolding require_organization_valid_subscription does_organization_exist_in_context ◌>>=◌
subscription_passes ctx r org w held active =
    elim (Bool-cases (subscription_exempt r.path r.method)) [
      | inl e ↦ rw e refl
      | inr e ↦ rw (e, held, active) refl
    ]

exempt_passes :
    {W : Type 0} (ctx : Context) (r : Request) (w : W)
    → subscription_exempt r.path r.method ≡ true
    → require_organization_valid_subscription ctx r w ≡ (next ctx, w)
unfolding require_organization_valid_subscription ◌>>=◌
exempt_passes ctx r w e = rw e refl

module _ (t : Texts) (tells_duplicate : String → Bool) {W : Type 0} (orgs : Table Organization W)
    (statements : Statements Organization W) (services : OrganizationServices W) where
  abbrev pub over_organizations : OrganizationServices W
  over_organizations = record services {
    orgs = stored_organizations t tells_duplicate orgs statements;
  }

  -- A creation that the store answers without an error is one of the database.
  inserted :
      (o stored : Organization) (w v : W)
      → over_organizations.orgs.create o w ≡ (ok stored, v)
      → statements.insert_returning o w ≡ (ok stored, v)
  unfolding create
  inserted o stored w v h = elim (Result-cases (statements.insert_returning o w).0) [
    | inl (x, e) ↦ let g = rw e at h in cc
    | inr (x, e) ↦ elim (Bool-cases (tells_duplicate (error_text x))) [
      | inl f ↦ absurd (let g = rw (e, f) at h in cc)
      | inr f ↦ absurd (let g = rw (e, f) at h in cc)
    ]
  ]

  -- Where the database gives a stored organization the default of the column is_subscription_active,
  -- which is true, in place of false, an organization that is created with success was given no
  -- subscription by the handler and comes back with one, and the user in the context is updated to
  -- belong to it beside the organizations before.
  pub create_organization-subscribes :
      (now : Time) (ctx : Context) (bound : Option CreateOrgRequest) (w : W)
      → ((o stored : Organization) (v v' : W)
          → statements.insert_returning o v ≡ (ok stored, v')
          → o.is_subscription_active ≡ false
          → stored.is_subscription_active ≡ true)
      → (create_organization over_organizations now ctx bound w).0
        ≡ reply (success 201 "Organization created successfully")
      → (created : IsCreation over_organizations now ctx bound w
          (create_organization over_organizations now ctx bound w).1)
        × ((new_free_organization now created.req).is_subscription_active ≡ false)
        × (created.org.is_subscription_active ≡ true)
  unfolding new_free_organization
  create_organization-subscribes now ctx bound w defaults h =
      let created = create_organization-IsCreation over_organizations now ctx bound w h in
      let given = new_free_organization now created.req in
      let active =
        defaults given created.org w created.after_org
          (inserted given created.org w created.after_org created.stored) refl in
      (created, refl, active)

  module _ (parse_uuid : String → Option Uuid) (jwt : JwTokenManager) where
    abbrev pub authenticated : Time → Context → Request → W → Step NoBody Context × W
    authenticated = require_authentication parse_uuid jwt services.users over_organizations.orgs

    abbrev pub behind_both : Time → Context → Request → W → Step NoBody Context × W
    behind_both = protected parse_uuid jwt services.users over_organizations.orgs

    -- In the world `v` the organization is stored as `stored`.
    abbrev pub StillStored : Organization → W → Type 0
    StillStored stored v =
        (id : Uuid) (found : Organization)
        → over_organizations.orgs.list (find_organization_by_id id) v ≡ ok found
        → found.id ≡ stored.id
        → found ≡ stored

    -- A request that is authenticated in the organization passes the check of its subscription.
    active_lets_in :
        (stored : Organization) (now : Time) (ctx mid : Context) (r : Request) (v v' : W)
        (found : Organization)
        → stored.is_subscription_active ≡ true
        → StillStored stored v
        → authenticated now ctx r v ≡ (next mid, v')
        → mid.organization ≡ some (some found)
        → found.id ≡ stored.id
        → behind_both now ctx r v ≡ (next mid, v)
    unfolding protected ◌>>=◌
    active_lets_in stored now ctx mid r v v' found active still passed held same =
        let (auth, kept) =
          require_authentication-IsAuthenticated parse_uuid jwt services.users
            over_organizations.orgs now ctx mid r v v' passed in
        rw (passed, kept)
          (elim (Bool-cases (subscription_exempt r.path r.method)) [
            | inl e ↦ exempt_passes mid r v e
            | inr e ↦
                let placed = auth.placed (skips r e) in
                let its_own : placed.organization ≡ found = cc placed.stored in
                let is_stored = still placed.selected found (placed.found ∙ ap ok its_own) same in
                subscription_passes mid r found v held (rw is_stored active)
          ])

    -- On its own path the update passes the check of the subscription whether there is one or not. Where
    -- the request says that the subscription is active, and the database writes what is not zero,
    -- the update succeeds and stores an active one; and in every world in which the organization is
    -- still stored as the update left it, each request that is authenticated in the organization
    -- passes the check of the subscription too.
    pub update_organization-subscribes :
        (ctx start mid : Context) (r later : Request) (req : UpdateOrgRequest)
        (org updated found : Organization) (now : Time) (w w' v v' : W)
        → ((o stored : Organization) (v v' : W)
            → statements.update_given o (where_uuid "id = ?" o.id) v ≡ (ok stored, v')
            → o.is_subscription_active ≡ true
            → stored.is_subscription_active ≡ true)
        → r.path ≡ "/v1/organizations"
        → ctx.organization ≡ some (some org)
        → req.is_subscription_active ≡ true
        → statements.update_given (updated_organization org.id req) (where_uuid "id = ?" org.id) w
          ≡ (ok updated, w')
        → StillStored updated v
        → authenticated now start later v ≡ (next mid, v')
        → mid.organization ≡ some (some found)
        → found.id ≡ updated.id
        → (require_organization_valid_subscription ctx r w ≡ (next ctx, w))
          × (update_organization over_organizations ctx (some req) w
              ≡ (reply (success_with 200 "Organization updated successfully" updated), w'))
          × (behind_both now start later v ≡ (next mid, v))
    unfolding require_organization_valid_subscription subscription_exempt update_organization update
        updated_organization ◌>>=◌
    update_organization-subscribes ctx start mid r later req org updated found now w w' v v' writes
          path in_context active stored still passed held same =
        (
          rw path refl,
          rw (in_context, stored) refl,
          active_lets_in updated now start mid later v v' found
              (writes _ updated w w' stored active) still passed held same,
        )
