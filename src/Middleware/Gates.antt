-- ===== src/Middleware/Gates.antt =====
-- What requireAuthentication and requireOrganizationValidSubscription let through.
use logtrace_backend.Common.{
  String, ◌≡◌, ◌≤◌, true, false, Option, some, arith, Member, inl, inr, Bool-cases, Option-cases,
  ◌∙◌, sym, ap, ◌⊎◌, subst,
}
use logtrace_backend.Domain.{Uuid, Time, User, Organization, ok, Result-cases}
use logtrace_backend.Http.{
  Request, Context, next, ◌>>=◌, write_user_to_ctx, write_organization_to_ctx, >>=-next,
}
use logtrace_backend.Repositories.{
  UserRepository, OrganizationRepository, JwTokenManager, JwTokenData,
}
use logtrace_backend.Middleware.{
  find_user_by_id, find_organization_by_id, token_from_request, user_organization_ids,
  should_skip_organization_selection, resolve_organization_id_for_request, with_organization,
  require_authentication, subscription_exempt, require_organization_valid_subscription, protected,
}
use logtrace_backend.Middleware.Membership.{resolve_organization_id_for_request-Member}

module _ (parse_uuid : String → Option Uuid) {W : Type 0} (jwt : JwTokenManager)
    (users : UserRepository W) (orgs : OrganizationRepository W) where
  -- The organization that a request was given: one of the user's, as the repository has it.
  pub record IsPlaced (w : W) (user : User) (ctx : Context) : Type 0 where
    pub selected : Uuid
    pub organization : Organization
    pub belongs : Member selected (user_organization_ids (some user))
    pub found : orgs.list (find_organization_by_id selected) w ≡ ok organization
    pub stored : ctx.organization ≡ some (some organization)

  -- What a request that passed requireAuthentication has shown.
  pub record IsAuthenticated (now : Time) (r : Request) (w : W) (ctx : Context) : Type 0 where
    pub token : String
    pub tokens : JwTokenData
    pub user : User
    pub bearer : token_from_request r ≡ ok token
    pub parsed : jwt.parse_jw_token now token ≡ ok tokens
    pub fresh : now ≤ tokens.expires_at
    pub found : users.list (find_user_by_id tokens.user_id) w ≡ ok user
    pub stored : ctx.user ≡ some (some user)
    pub placed : should_skip_organization_selection r.path r.method ≡ false → IsPlaced w user ctx

  with_organization-IsPlaced :
      (ctx ctx' : Context) (r : Request) (user : User) (w w' : W)
      → with_organization parse_uuid jwt users orgs ctx r (some user) w ≡ (next ctx', w')
      → IsPlaced w user ctx' × (ctx'.user ≡ ctx.user) × (w' ≡ w)
  unfolding with_organization write_organization_to_ctx ◌>>=◌
  with_organization-IsPlaced ctx ctx' r user w w' h =
      elim (Result-cases (resolve_organization_id_for_request parse_uuid r (some user))) [
        | inl (o, e) ↦ elim (Result-cases (orgs.list (find_organization_by_id o) w)) [
          | inl (org, f) ↦ (
            record {
              selected = o;
              organization = org;
              belongs = resolve_organization_id_for_request-Member parse_uuid r (some user) o e;
              found = f;
              stored = ground arith;
            },
            ground arith,
            ground arith,
          )
          | inr (x, f) ↦ absurd (ground arith)
        ]
        | inr (x, e) ↦ absurd (ground arith)
      ]

  authenticate_with :
      (now : Time) (ctx ctx' : Context) (r : Request) (token : String) (tokens : JwTokenData)
      (user : User) (w w' : W)
      → token_from_request r ≡ ok token
      → jwt.parse_jw_token now token ≡ ok tokens
      → users.list (find_user_by_id tokens.user_id) w ≡ ok user
      → require_authentication parse_uuid jwt users orgs now ctx r w ≡ (next ctx', w')
      → IsAuthenticated now r w ctx' × (w' ≡ w)
  unfolding require_authentication write_user_to_ctx ◌>>=◌
  authenticate_with now ctx ctx' r token tokens user w w' bearer parsed found h =
      let mid : Context = write_user_to_ctx ctx (some user) in
      let fresh : now ≤ tokens.expires_at = ground arith in
      elim (Bool-cases (should_skip_organization_selection r.path r.method)) [
        | inl skip ↦ (
          record {
            token = token;
            tokens = tokens;
            user = user;
            bearer = bearer;
            parsed = parsed;
            fresh = fresh;
            found = found;
            stored = ground arith;
            placed = λ no_skip. absurd (cc);
          },
          ground arith,
        )
        | inr no_skip ↦
            let (placed, same, kept) =
              with_organization-IsPlaced mid ctx' r user w w' (ground arith) in
            (
              record {
                token = token;
                tokens = tokens;
                user = user;
                bearer = bearer;
                parsed = parsed;
                fresh = fresh;
                found = found;
                stored = same;
                placed = λ _. placed;
              },
              kept,
            )
      ]

  -- A request that requireAuthentication lets through carries a bearer token that parses and is not
  -- expired, its context holds the user of that token, and, but for the paths that select no
  -- organization, an organization that the user belongs to. The world is as it was.
  pub require_authentication-IsAuthenticated :
      (now : Time) (ctx ctx' : Context) (r : Request) (w w' : W)
      → require_authentication parse_uuid jwt users orgs now ctx r w ≡ (next ctx', w')
      → IsAuthenticated now r w ctx' × (w' ≡ w)
  require_authentication-IsAuthenticated now ctx ctx' r w w' h =
      elim (Result-cases (token_from_request r)) [
        | inr (x, e) ↦ absurd (unfold require_authentication ◌>>=◌ in ground arith)
        | inl (token, bearer) ↦ elim (Result-cases (jwt.parse_jw_token now token)) [
          | inr (x, e) ↦ absurd (unfold require_authentication ◌>>=◌ in ground arith)
          | inl (tokens, parsed) ↦
              elim (Result-cases (users.list (find_user_by_id tokens.user_id) w)) [
                | inr (x, e) ↦ absurd (unfold require_authentication ◌>>=◌ in ground arith)
                | inl (user, found) ↦
                    authenticate_with now ctx ctx' r token tokens user w w' bearer parsed found h
              ]
        ]
      ]

-- A request that passes the subscription check, on a path that needs one, runs in an organization
-- with an active subscription; neither the context nor the world changes.
pub require_organization_valid_subscription-active :
    {W : Type 0} (ctx ctx' : Context) (r : Request) (w w' : W)
    → require_organization_valid_subscription ctx r w ≡ (next ctx', w')
    → (ctx' ≡ ctx)
      × (w' ≡ w)
      × ((subscription_exempt r.path r.method ≡ true)
          ⊎ ((org : Organization) × (ctx.organization ≡ some (some org))
              × (org.is_subscription_active ≡ true)))
unfolding require_organization_valid_subscription ◌>>=◌
require_organization_valid_subscription-active ctx ctx' r w w' h =
    elim (Bool-cases (subscription_exempt r.path r.method)) [
      | inl exempt ↦ (ground arith, ground arith, inl exempt)
      | inr needed ↦ elim (Option-cases ctx.organization) [
        | inl e ↦ absurd (ground arith)
        | inr (p, e) ↦ elim (Option-cases p) [
          | inl f ↦ absurd (ground arith)
          | inr (org, f) ↦ (ground arith, ground arith, inr (org, e ∙ ap some f, ground arith))
        ]
      ]
    ]

pub skips :
    (r : Request)
    → subscription_exempt r.path r.method ≡ false
    → should_skip_organization_selection r.path r.method ≡ false
unfolding subscription_exempt
skips r h = ground arith

module _ (parse_uuid : String → Option Uuid) {W : Type 0} (jwt : JwTokenManager)
    (users : UserRepository W) (orgs : OrganizationRepository W) where
  protected-split :
      (now : Time) (ctx ctx' : Context) (r : Request) (w w' : W)
      → protected parse_uuid jwt users orgs now ctx r w ≡ (next ctx', w')
      → (mid : Context) × (v : W) × (require_authentication parse_uuid jwt users orgs now ctx r w
          ≡ (next mid, v))
        × (require_organization_valid_subscription mid r v ≡ (next ctx', w'))
  unfolding protected
  protected-split now ctx ctx' r w w' h =
      >>=-next (require_authentication parse_uuid jwt users orgs now ctx r)
        (λ mid. require_organization_valid_subscription mid r) w h

  abbrev Protected : Time → Request → W → W → Context → Type 0
  Protected now r w w' ctx' =
      (w' ≡ w)
      × (auth : IsAuthenticated parse_uuid jwt users orgs now r w ctx') × (placed : IsPlaced
          parse_uuid jwt users orgs w auth.user ctx')
      × (placed.organization.is_subscription_active ≡ true)

  active :
      (r : Request) (mid : Context) {w : W} {user : User}
      → subscription_exempt r.path r.method ≡ false
      → (placed : IsPlaced parse_uuid jwt users orgs w user mid)
      → ((subscription_exempt r.path r.method ≡ true)
          ⊎ ((org : Organization) × (mid.organization ≡ some (some org))
              × (org.is_subscription_active ≡ true)))
      → placed.organization.is_subscription_active ≡ true
  active r mid needed placed (inl exempt) = absurd (cc)
  active r mid needed placed (inr (org, held, is_active)) =
      let same : placed.organization ≡ org = cc placed.stored in rw same is_active

  -- A protected handler, on a path that needs an organization and a subscription, runs only for an
  -- authenticated user, in an organization that the user belongs to and whose subscription is
  -- active; the middlewares leave the world as it was.
  pub protected_sound :
      (now : Time) (ctx ctx' : Context) (r : Request) (w w' : W)
      → subscription_exempt r.path r.method ≡ false
      → protected parse_uuid jwt users orgs now ctx r w ≡ (next ctx', w')
      → (w' ≡ w)
        × (auth : IsAuthenticated parse_uuid jwt users orgs now r w ctx') × (placed : IsPlaced
            parse_uuid jwt users orgs w auth.user ctx')
        × (placed.organization.is_subscription_active ≡ true)
  protected_sound now ctx ctx' r w w' needed h =
      let (mid, v, first, second) = protected-split now ctx ctx' r w w' h in
      let (same, kept, cases) =
        require_organization_valid_subscription-active mid ctx' r v w' second in
      let (auth, kept') =
        require_authentication-IsAuthenticated parse_uuid jwt users orgs now ctx mid r w v first in
      subst (λ c. Protected now r w w' c) (sym same)
        (
          kept ∙ kept',
          auth,
          auth.placed (skips r needed),
          active r mid needed (auth.placed (skips r needed)) cases,
        )
