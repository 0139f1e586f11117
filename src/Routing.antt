-- ===== src/Routing.antt =====
-- setUpRoutes of server/http.go: the routes below /v1 with the middlewares of their groups, and the
-- key of the rate limit (server/middleware.go). The matching of a path is chi's. /health, the answer
-- for an unknown path, and what surrounds every route (CORS, content types, tracing) are left out, and
-- so are the payloads of the replies. Routing/Metrics has /prometheus/metrics.
pub mod Guards
pub mod Metrics
use logtrace_backend.Common.{String, List, [], ◌∷◌, ◌++◌, Option, if◌then◌else◌}
use logtrace_backend.Domain.{Uuid, Time}
use logtrace_backend.Http.{
  Request, Context, Action, Handler, NoBody, pure, deref, empty_context, ◌>>=◌,
  does_user_exist_in_context, get_user_from_context,
}
use logtrace_backend.Repositories.{
  UserRepository, OrganizationRepository, ApiKeyRepository, JwTokenManager,
}
use logtrace_backend.Middleware.{
  require_authentication, require_organization_valid_subscription, require_api_key_only, get_ip,
}

-- The middlewares that `r.Use` puts before the routes of a group.
pub data Guard : Type 0 where
  authentication subscription api_key : Guard

-- A route below /v1 with the middlewares before it; the span name tells the handlers apart.
pub record Route : Type 0 where
  pub prefix : String
  pub guards : List Guard
  pub method : String
  pub pattern : String
  pub span_name : String

-- `r.Route(prefix, func(r chi.Router) { r.Use(…); … })`
abbrev under : String → List Guard → List (String → List Guard → Route) → List Route
under prefix guards [] = []
under prefix guards (f ∷ fs) = f prefix guards ∷ under prefix guards fs

-- `r.Method(pattern, WrapLogtraceHTTPHandler(logger, handler, cfg, span_name))`
abbrev on : String → String → String → String → List Guard → Route
on method pattern span_name prefix guards = record {
  prefix = prefix;
  guards = guards;
  method = method;
  pattern = pattern;
  span_name = span_name;
}

abbrev both : List Guard
both = authentication ∷ subscription ∷ []

unfoldable pub routes : List Route
routes =
    under "/auth" [] (
      on "POST" "/connect/{provider}" "Auth.provider"
      ∷ on "POST" "/register" "Auth.register"
      ∷ on "POST" "/reset-password" "Auth.resetPassword"
      ∷ on "POST" "/forgot-password" "Auth.requestPasswordReset"
      ∷ [])
    ++ under "/auth/account" both (
        on "GET" "/me" "Auth.me"
        ∷ on "POST" "/invite" "Auth.inviteUserByEmail"
        ∷ on "GET" "/users" "Auth.listOrganizationUsers"
        ∷ on "PATCH" "/revoke/{reference}" "Auth.revokeUserRole"
        ∷ on "PATCH" "/edit" "Auth.editProfile"
        ∷ [])
    ++ under "/organizations" both (
        on "POST" "/" "Organization.create"
        ∷ on "PATCH" "/" "Organization.update"
        ∷ on "DELETE" "/" "Organization.delete"
        ∷ [])
    ++ under "/audit-logs" both
        (on "GET" "/{reference}" "AuditLog.listAuditLog" ∷ on "GET" "/" "AuditLog.listAll" ∷ [])
    ++ under "/events" both (
        on "POST" "/" "Event.create"
        ∷ on "GET" "/{reference}" "Event.list"
        ∷ on "GET" "/" "Event.listAll"
        ∷ [])
    ++ under "/sessions" both
        (on "GET" "/{reference}" "Session.list" ∷ on "GET" "/" "Session.listAll" ∷ [])
    ++ under "/developers/keys" both (
        on "POST" "/" "APIKeys.create"
        ∷ on "GET" "/" "APIKeys.list"
        ∷ on "DELETE" "/{reference}" "APIKeys.revoke"
        ∷ [])
    ++ under "/plans/admin" (authentication ∷ []) (
        on "POST" "/" "Plan.create"
        ∷ on "GET" "/{reference}" "Plan.list"
        ∷ on "PATCH" "/{reference}" "Plan.update"
        ∷ on "DELETE" "/{reference}" "Plan.delete"
        ∷ [])
    ++ under "/plans" [] (on "GET" "/" "Plan.listAll" ∷ [])
    ++ under "/developers/" (api_key ∷ subscription ∷ []) (
        on "POST" "/events" "Event.create"
        ∷ on "POST" "/sessions" "Session.create"
        ∷ on "POST" "/sessions/logout" "Session.logout"
        ∷ on "POST" "/audit-logs" "AuditLog.create"
        ∷ [])
    ++ under "/metrics" (authentication ∷ []) (
        on "GET" "/sessions" "Metrics.sessions"
        ∷ on "GET" "/events" "Metrics.events"
        ∷ on "GET" "/events/top-actors" "Metrics.events.topActors"
        ∷ on "GET" "/auditlogs" "Metrics.auditLogs"
        ∷ [])
    ++ under "/invitations" both (
        on "POST" "/" "Invitation.create"
        ∷ on "GET" "/" "Invitation.list"
        ∷ on "DELETE" "/{reference}" "Invitation.delete"
        ∷ [])

-- `HTTPThrottleKeyFunc`; a nil user in the context panics.
unfoldable pub http_throttle_key_func :
    {W : Type 0} → (Uuid → String) → Context → Request → Action W NoBody String
http_throttle_key_func uuid_text ctx r =
    if does_user_exist_in_context ctx
    then (do pointer ← get_user_from_context ctx; user ← deref pointer; pure (uuid_text user.id))
    else pure (get_ip r)

module _ (parse_uuid : String → Option Uuid) {W : Type 0} (jwt : JwTokenManager)
    (users : UserRepository W) (orgs : OrganizationRepository W) (keys : ApiKeyRepository W) where
  unfoldable pub pass : Guard → Time → Context → Request → Action W NoBody Context
  pass authentication now ctx r = require_authentication parse_uuid jwt users orgs now ctx r
  pass subscription now ctx r = require_organization_valid_subscription ctx r
  pass api_key now ctx r = require_api_key_only keys orgs ctx r

  -- The middlewares of a group run in the order in which `r.Use` was called.
  unfoldable pub pass_all : List Guard → Time → Context → Request → Action W NoBody Context
  unfolding pass
  pass_all [] now ctx r = pure ctx
  pass_all (g ∷ gs) now ctx r = do ctx' ← pass g now ctx r; pass_all gs now ctx' r

  -- A route behind its middlewares, with `handle` for the handler.
  unfoldable pub serve :
      (Route → Context → Request → Handler W NoBody) → Route → Time → Request → Handler W NoBody
  unfolding pass_all
  serve handle route now r = do ctx ← pass_all route.guards now empty_context r; handle route ctx r
