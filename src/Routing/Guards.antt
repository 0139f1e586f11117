-- ===== src/Routing/Guards.antt =====
-- Who reaches the handlers of the routes.
use mathlib.Core.List.{Memᴰ}
use mathlib.Core.List.Memᴰ.{head, tail}
use logtrace_backend.Common.{
  String, Bool, true, false, ◌≡◌, refl, List, [], ◌∷◌, ◌&&◌, ◌||◌, ◌==◌, string_eq, arith, subst,
  Option, ◌⊎◌, inl, inr, ◌∙◌, sym,
}
use logtrace_backend.GoText.{is_string_empty}
use logtrace_backend.Domain.{Uuid, Time, Error, err}
use logtrace_backend.Http.{
  Request, Context, Handler, NoBody, reply, failure, empty_context, ◌>>=◌, next, >>=-next,
}
use logtrace_backend.Repositories.{
  UserRepository, OrganizationRepository, ApiKeyRepository, JwTokenManager,
}
use logtrace_backend.Middleware.{
  require_authentication, require_api_key_only, token_from_request, api_key_token,
}
use logtrace_backend.Middleware.{require_organization_valid_subscription}
use logtrace_backend.Middleware.Gates.{
  IsAuthenticated, require_authentication-IsAuthenticated,
  require_organization_valid_subscription-active,
}
use logtrace_backend.Middleware.KeyGate.{IsKeyed, require_api_key_only-IsKeyed}
use logtrace_backend.Routing.{
  Guard, authentication, subscription, api_key, Route, routes, pass, pass_all, serve,
}

-- The routes that are for everyone: the logins, the sign-up, both halves of the reset of a password,
-- and the list of the plans.
unfoldable pub is_open : String → Bool
is_open span_name =
    span_name == "Auth.provider"
    || span_name == "Auth.register"
    || span_name == "Auth.resetPassword"
    || span_name == "Auth.requestPasswordReset"
    || span_name == "Plan.listAll"

subscriptions_only : List Guard → Bool
subscriptions_only [] = true
subscriptions_only (authentication ∷ gs) = false
subscriptions_only (subscription ∷ gs) = subscriptions_only gs
subscriptions_only (api_key ∷ gs) = false

-- The first middleware of a group asks for a session or for an API key, and the others for a
-- subscription.
asks_first : List Guard → Bool
asks_first [] = false
asks_first (authentication ∷ gs) = subscriptions_only gs
asks_first (subscription ∷ gs) = false
asks_first (api_key ∷ gs) = subscriptions_only gs

is_guarded : Route → Bool
is_guarded route = is_open route.span_name || asks_first route.guards

all_guarded : List Route → Bool
all_guarded [] = true
all_guarded (x ∷ xs) = is_guarded x && all_guarded xs

routes_guarded : all_guarded routes ≡ true
unfolding all_guarded routes is_guarded is_open asks_first subscriptions_only
routes_guarded = refl

all_guarded-Mem :
    {route : Route} (rs : List Route)
    → Memᴰ route rs
    → all_guarded rs ≡ true
    → is_guarded route ≡ true
unfolding all_guarded
all_guarded-Mem [] m h = elim m [ ]
all_guarded-Mem {route} (x ∷ xs) (head e) h = rw e (ground (arith, h))
all_guarded-Mem (x ∷ xs) (tail m) h = all_guarded-Mem xs m (ground (arith, h))

module _ (parse_uuid : String → Option Uuid) {W : Type 0} (jwt : JwTokenManager)
    (users : UserRepository W) (orgs : OrganizationRepository W) (keys : ApiKeyRepository W) where
  unauthenticated_stops :
      (gs : List Guard) (now : Time) (r : Request) (w : W) (e : Error)
      → token_from_request r ≡ err e
      → is_string_empty (r.header "X-Api-Key") ≡ true
      → asks_first gs ≡ true
      → (message : String) × (pass_all parse_uuid jwt users orgs keys gs now empty_context r w
          ≡ (reply (failure 401 message), w))
  unfolding asks_first pass_all pass require_authentication require_api_key_only api_key_token ◌>>=◌
  unauthenticated_stops [] now r w e none keyless h = absurd (ground arith)
  unauthenticated_stops (authentication ∷ gs) now r w e none keyless h =
      ("session key not exists in request", rw none refl)
  unauthenticated_stops (subscription ∷ gs) now r w e none keyless h = absurd (ground arith)
  unauthenticated_stops (api_key ∷ gs) now r w e none keyless h =
      ("please provide an API key in the request header", rw keyless rw none refl)

  -- A request with neither a bearer token nor an API key, for a route that is not open, is answered
  -- with 401, and nothing is written: the handler of the route does not run.
  pub serve-unauthenticated :
      (handle : Route → Context → Request → Handler W NoBody) (route : Route) (now : Time)
      (r : Request) (w : W) (e : Error)
      → Memᴰ route routes
      → is_open route.span_name ≡ false
      → token_from_request r ≡ err e
      → is_string_empty (r.header "X-Api-Key") ≡ true
      → (message : String) × (serve parse_uuid jwt users orgs keys handle route now r w
          ≡ (reply (failure 401 message), w))
  unfolding serve is_guarded ◌>>=◌
  serve-unauthenticated handle route now r w e mem closed none keyless =
      let guarded : is_guarded route ≡ true = all_guarded-Mem routes mem routes_guarded in
      let (message, stops) =
        unauthenticated_stops route.guards now r w e none keyless (ground (arith, guarded)) in
      (message, rw stops refl)

  subscriptions_pass :
      (gs : List Guard) (now : Time) (ctx ctx' : Context) (r : Request) (w w' : W)
      → subscriptions_only gs ≡ true
      → pass_all parse_uuid jwt users orgs keys gs now ctx r w ≡ (next ctx', w')
      → (ctx' ≡ ctx) × (w' ≡ w)
  unfolding subscriptions_only pass_all pass
  subscriptions_pass [] now ctx ctx' r w w' only h = unfold ◌>>=◌ in (ground arith, ground arith)
  subscriptions_pass (authentication ∷ gs) now ctx ctx' r w w' only h = absurd (ground arith)
  subscriptions_pass (api_key ∷ gs) now ctx ctx' r w w' only h = absurd (ground arith)
  subscriptions_pass (subscription ∷ gs) now ctx ctx' r w w' only h =
      let (mid, v, first, rest) =
        >>=-next (require_organization_valid_subscription ctx r)
          (λ c. pass_all parse_uuid jwt users orgs keys gs now c r) w h in
      let (same, kept, _) = require_organization_valid_subscription-active ctx mid r w v first in
      let (same', kept') = subscriptions_pass gs now mid ctx' r v w' only rest in
      (same' ∙ same, kept' ∙ kept)

  -- Who is behind a request: the user of a session, with the world as it was, or an API key.
  abbrev pub Identified : Time → Request → W → W → Context → Type 0
  Identified now r w w' ctx =
      (IsAuthenticated parse_uuid jwt users orgs now r w ctx × (w' ≡ w))
      ⊎ IsKeyed keys orgs r w w' empty_context ctx

  gates-Identified :
      (gs : List Guard) (now : Time) (ctx : Context) (r : Request) (w w' : W)
      → asks_first gs ≡ true
      → pass_all parse_uuid jwt users orgs keys gs now empty_context r w ≡ (next ctx, w')
      → Identified now r w w' ctx
  unfolding asks_first pass_all pass
  gates-Identified [] now ctx r w w' guarded h = absurd (ground arith)
  gates-Identified (subscription ∷ gs) now ctx r w w' guarded h = absurd (ground arith)
  gates-Identified (authentication ∷ gs) now ctx r w w' guarded h =
      let (mid, v, first, rest) =
        >>=-next (require_authentication parse_uuid jwt users orgs now empty_context r)
          (λ c. pass_all parse_uuid jwt users orgs keys gs now c r) w h in
      let (auth, kept) =
        require_authentication-IsAuthenticated parse_uuid jwt users orgs now empty_context mid r w v
          first in
      let (same, kept') = subscriptions_pass gs now mid ctx r v w' guarded rest in
      subst (λ c. Identified now r w w' c) (sym same) (inl (auth, kept' ∙ kept))
  gates-Identified (api_key ∷ gs) now ctx r w w' guarded h =
      let (mid, v, first, rest) =
        >>=-next (require_api_key_only keys orgs empty_context r)
          (λ c. pass_all parse_uuid jwt users orgs keys gs now c r) w h in
      let keyed = require_api_key_only-IsKeyed keys orgs empty_context mid r w v first in
      let (same, kept) = subscriptions_pass gs now mid ctx r v w' guarded rest in
      subst (λ c. Identified now r w w' c) (sym same)
        (inr (subst (λ x. IsKeyed keys orgs r w x empty_context mid) (sym kept) keyed))

  -- A request that passes the middlewares of a route that is not open is the one of an authenticated
  -- user, and nothing was written, or carries an API key that the repository finds and runs in the
  -- organization of the key, and only the key's time of use was written.
  pub pass_all-Identified :
      (route : Route) (now : Time) (ctx : Context) (r : Request) (w w' : W)
      → Memᴰ route routes
      → is_open route.span_name ≡ false
      → pass_all parse_uuid jwt users orgs keys route.guards now empty_context r w ≡ (next ctx, w')
      → Identified now r w w' ctx
  unfolding is_guarded
  pass_all-Identified route now ctx r w w' mem closed h =
      let guarded : is_guarded route ≡ true = all_guarded-Mem routes mem routes_guarded in
      gates-Identified route.guards now ctx r w w' (ground (arith, guarded)) h
