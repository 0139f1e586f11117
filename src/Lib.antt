-- ===== src/Lib.antt =====
-- Logtrace backend: the service that keeps the events, audit logs and sessions of organizations.
--
-- The program is an HTTP server over PostgreSQL with scheduled jobs beside it. A request passes the
-- middlewares (authentication by a session token or an API key, the choice of an organization, the
-- check of its subscription), then a handler, which calls repositories, the token manager and the
-- queue through interfaces; the repositories of internal/datastore/postgres build SQL with bun.
--
-- Which file models which part:
--   * Domain, Trail: the entities of the root package (user.go, organization.go, api_key.go,
--     password.go, email_verification.go, errors.go, the enum files; event.go, audit_log.go,
--     session.go). A pointer is an Option, an identifier or a time is a number.
--   * Repositories: the interfaces of the root package, of internal/pkg/jwttoken/jwt.go and of
--     internal/pkg/queues/queue.go, as records of functions of a world: a method that writes returns
--     the new world with its result.
--   * GoText, Paginator: internal/pkg/util/util.go (IsStringEmpty), paginator.go, with the parts of
--     the standard library that they use. Offset is computed in int64 with its wrap-around.
--   * Http: server/handler.go and server/responses.go. A handler is an action on a world that ends by
--     a reply, by going on with a value, or by a panic (a nil pointer, a failed type assertion).
--     Http/Rules has one rule for each way in which an action goes on.
--   * Middleware: server/middleware.go (tokenFromRequest, resolveOrganizationIDForRequest,
--     requireAuthentication, requireOrganizationValidSubscription, requireAPIKeyOnly, getIP).
--   * Routing: setUpRoutes of server/http.go, as a table of the routes below /v1 with the middlewares
--     of their groups, a route behind its middlewares, and
--     the metrics endpoint behind its password.
--   * Process: how a command runs, with cmd/cli/main.go. Process/Server is cmd/cli/http.go and New of
--     server/http.go: the steps up to the call of ListenAndServe.
--   * Jwt: internal/pkg/jwttoken/jwt.go.
--   * ApiKeys: server/api_key.go (create, list, revoke).
--   * Auth: server/auth.go. Auth/Sessions has the logins, Auth/SignUp the sign-up, Auth/Passwords the
--     profile and the reset of a password, Auth/Members the users of an organization.
--   * OrganizationUsers: what the Create handlers of events, audit logs and sessions have in common,
--     the location of an address and the user of the organization behind a record.
--   * EventHandlers, AuditLogHandlers, SessionHandlers: server/event.go, server/audit_log.go and
--     server/session.go.
--   * Organizations, Invitations, Plans: server/organization.go; invitation.go and
--     server/invitation.go; plan.go and server/plan.go.
--   * Queue: internal/pkg/queues/queue.go and internal/pkg/queues/watermill: what is published for a
--     message, the consumers, and the order of the middlewares around them.
--   * Mail: internal/pkg/email/email.go, and New and Send of internal/pkg/email/aws-ses.
--   * Config: Validate of config/env.go. Config/Schema has the types of config/config.go with their tags
--     and the defaults, Config/Env the variables of the environment (bindEnvs) and the export of an
--     example of them (cmd/cli/export_config.go).
--   * Sql: the conditions that the stores build and the statements that they run, over a table.
--   * Stores: internal/datastore/postgres, a module for each store. Stores/ApiKeys/Lifecycle says what
--     the statements on keys mean, Stores/ApiKeys/KeyStore what the store promises by them.
--   * Cron: cmd/cli/cron_scheduled_emails.go. Cron has the sending of one email with its retries,
--     Cron/Batches the loop over the pending users, Cron/Pool the workers of a batch with every
--     schedule (Cron/Pool/Places says where its jobs are), Cron/Command the command over its database and the client for SES. Cron/Revocation is
--     cmd/cli/cron_api_key_revocation.go.
--   * Enums: user_enum.go, invitation_enum.go, config/config_enum.go and
--     internal/pkg/queues/queue_enum.go.
--   * Lookups: internal/pkg/cache/rediscache/redis.go and internal/pkg/services/geo-ip.go.
--   * Seed: internal/seed (EventSeedData, SessionSeedData, AuditLogSeedData, Run) and cmd/cli/seed.go.
--   * Tests: concrete stores and services, and the theorems at concrete inputs.
--
-- How the parts meet: the Create handlers of the trail put a message on the queue, whose consumer
-- calls the repository (Queue/Pipeline); handlers run over the stores (SessionHandlers/Logout,
-- AuditLogHandlers/Attribution, Auth/Sessions/Google, Stores/Invitations/Deletion) or over what a
-- store promises (Stores/Passwords/Map, Auth/Passwords/Stored, Stores/ApiKeys/Revoked), and behind the middlewares
-- (Middleware/Gates, Organizations/Subscription, EventHandlers/Isolation); the job that mails pending
-- users runs over its table and the client for SES (Cron/Command/Delivery), and the metrics endpoint
-- under a configuration that was validated (Routing/Metrics).
--
-- Other packages are parameters: the token library (Jwt.Library, with its documented behaviour in
-- Jwt/Laws), argon2id, checkmail, passwd, bluemonday and the Google calls (Auth.Tools,
-- ApiKeys.Tools), the database (Sql.Table and Sql.Statements, with Sql/Laws), transactions, watermill
-- and encoding/json (Queue.Middlewares, Queue.Codec), text/template, the rate limiter, the timer and
-- the email client (Cron.Services, Cron.Batches.Processor,
-- Cron.Command.Environment). The clock and the random texts are
-- arguments.
--
-- Bounds and fuel: the retries of an email run by the number of rounds that are left, which the
-- source bounds by MaxRetries. ProcessPendingUsers runs on fuel, one for each batch and one for the
-- end; more than the number of pending users is enough. A world is arbitrary, and calls of one
-- request run one after the other; the goroutines of a batch are interleaved in Cron/Pool.
--
-- Not modelled: tracing and logging, the rendering of replies, request identifiers and CSRF, the
-- matching of paths and CORS of server/http.go, the reading of the configuration by viper,
-- migrations, and the clients of S3 and Google.
pub mod Common
pub mod GoText
pub mod Paginator
pub mod Domain
pub mod Http
pub mod Repositories
pub mod Middleware
pub mod ApiKeys
pub mod Jwt
pub mod Auth
pub mod Cron
pub mod Trail
pub mod Sql
pub mod Enums
pub mod Lookups
pub mod Seed
pub mod Stores
pub mod Tests
pub mod SessionHandlers
pub mod OrganizationUsers
pub mod EventHandlers
pub mod AuditLogHandlers
pub mod Organizations
pub mod Invitations
pub mod Plans
pub mod Queue
pub mod Config
pub mod Mail
pub mod Routing
pub mod Process
