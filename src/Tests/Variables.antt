-- ===== src/Tests/Variables.antt =====
-- The configuration of the program: its variables, the example of an environment, and the defaults.
use Prim.Native.String.{String, ◌++◌}
use logtrace_backend.Common.{
  ◌≡◌, refl, Bool, true, false, ◌&&◌, ◌||◌, not, List, [], ◌∷◌, map, filter, ◌==◌, string_eq,
  if◌then◌else◌,
}
use logtrace_backend.Domain.{Result, ok}
use logtrace_backend.Config.Env.{bind_envs, env_key, env_prefix, before_comma, export_env}
use logtrace_backend.Config.Env.Names.{settings, is_tagged, bound, text_of, export_env-binds}
use logtrace_backend.Config.Schema.{config_fields, default_values}

-- What a setting shows where only the defaults are set.
abbrev default_of : List (String × String) → String → String
default_of [] path = ""
default_of ((p, v) ∷ ds) path = if p == path then v else default_of ds path

config_is_tagged : is_tagged (config_fields (default_of default_values)) ≡ true
unfolding is_tagged config_fields before_comma
config_is_tagged = refl

abbrev append_to : String → String → Result (Unit {0}) × String
append_to s w = (ok tt, w ++ s)

export_env-binds_example :
    (export_env append_to (config_fields (default_of default_values)) env_prefix "" ""
      ≡ append_to (text_of (settings "" (config_fields (default_of default_values)))) "")
    × (bind_envs "" (config_fields (default_of default_values))
        ≡ map bound (settings "" (config_fields (default_of default_values))))
export_env-binds_example =
    export_env-binds append_to (config_fields (default_of default_values)) "" config_is_tagged

-- The names of config/.env.example.
abbrev example_names : List String
example_names =
    "LOGTRACE_DB_HOST" ∷ "LOGTRACE_DB_PORT" ∷ "LOGTRACE_DB_USER" ∷ "LOGTRACE_DB_PASSWORD"
    ∷ "LOGTRACE_DB_NAME" ∷ "LOGTRACE_ENV" ∷ "LOGTRACE_TZ" ∷ "LOGTRACE_DB_SSL_MODE"
    ∷ "LOGTRACE_HTTP_PORT" ∷ "LOGTRACE_HTTP_RATE_LIMIT_TYPE" ∷ "LOGTRACE_HTTP_RATE_LIMIT_IS_ENABLED"
    ∷ "LOGTRACE_HTTP_RATE_LIMIT_REQUESTS_PER_MINUTE" ∷ "LOGTRACE_HTTP_RATE_LIMIT_BURST_INTERVAL"
    ∷ "LOGTRACE_HTTP_SWAGGER_PORT" ∷ "LOGTRACE_HTTP_METRICS_ENABLED"
    ∷ "LOGTRACE_HTTP_METRICS_USERNAME" ∷ "LOGTRACE_HTTP_METRICS_PASSWORD"
    ∷ "LOGTRACE_GOOGLE_AUTH_CODE" ∷ "LOGTRACE_PORT" ∷ "LOGTRACE_LOG_LEVEL" ∷ "LOGTRACE_LOGGING_MODE"
    ∷ "LOGTRACE_OTEL_ENDPOINT" ∷ "LOGTRACE_OTEL_USE_TLS" ∷ "LOGTRACE_OTEL_HEADERS"
    ∷ "LOGTRACE_OTEL_GRAFANA_USERNAME" ∷ "LOGTRACE_OTEL_GRAFANA_PASSWORD"
    ∷ "LOGTRACE_AUTH_GOOGLE_CLIENT_ID" ∷ "LOGTRACE_AUTH_GOOGLE_CLIENT_SECRET"
    ∷ "LOGTRACE_AUTH_GOOGLE_REDIRECT_URL" ∷ "LOGTRACE_AUTH_GOOGLE_SCOPES" ∷ "LOGTRACE_AUTH_JWT_KEY"
    ∷ "LOGTRACE_AUTH_JWT_AUDIENCE" ∷ "LOGTRACE_AUTH_JWT_PRIVATE_KEY"
    ∷ "LOGTRACE_AUTH_JWT_PUBLIC_KEY" ∷ "LOGTRACE_DATABASE_REDIS_DSN"
    ∷ "LOGTRACE_DATABASE_POSTGRES_DSN" ∷ "LOGTRACE_DATABASE_POSTGRES_LOG_QUERIES"
    ∷ "LOGTRACE_DATABASE_POSTGRES_QUERY_TIMEOUT" ∷ "LOGTRACE_FRONTEND_APP_URL"
    ∷ "LOGTRACE_EMAIL_PROVIDER" ∷ "LOGTRACE_EMAIL_SENDER" ∷ "LOGTRACE_EMAIL_SENDER_NAME"
    ∷ "LOGTRACE_EMAIL_SES_REGION" ∷ "LOGTRACE_EMAIL_SES_ACCESS_KEY"
    ∷ "LOGTRACE_EMAIL_SES_SECRET_KEY" ∷ "LOGTRACE_API_KEY_HASH_SECRET"
    ∷ "LOGTRACE_BILLING_TRIAL_DAYS" ∷ "LOGTRACE_UPLOADER_S3_REGION"
    ∷ "LOGTRACE_UPLOADER_S3_ACCESS_KEY" ∷ "LOGTRACE_UPLOADER_S3_ACCESS_SECRET"
    ∷ "LOGTRACE_UPLOADER_S3_ENDPOINT" ∷ "LOGTRACE_UPLOADER_S3_USE_TLS"
    ∷ "LOGTRACE_UPLOADER_S3_LOG_OPERATIONS" ∷ "LOGTRACE_UPLOADER_S3_BUCKET"
    ∷ "LOGTRACE_UPLOADER_S3_CLOUDFLARE_BUCKET_DOMAIN" ∷ "LOGTRACE_CSRF_SECRET" ∷ []

abbrev variable_of : String × String → String
variable_of (path, variable) = variable

binds_example_names :
    map variable_of (bind_envs "" (config_fields (default_of default_values))) ≡ example_names
unfolding bind_envs config_fields env_key
binds_example_names = refl

abbrev is_among : List String → String → Bool
is_among [] s = false
is_among (x ∷ xs) s = x == s || is_among xs s

unfoldable pub all_distinct : List String → Bool
all_distinct [] = true
all_distinct (x ∷ xs) = not (is_among xs x) && all_distinct xs

-- No two settings are read from the same variable.
variables_distinct : all_distinct example_names ≡ true
unfolding all_distinct
variables_distinct = refl

abbrev path_of : String × String → String
path_of (path, variable) = path

abbrev is_setting : String → Bool
is_setting path =
    is_among (map path_of (bind_envs "" (config_fields (default_of default_values)))) path

-- The defaults for paths where the configuration has no setting.
lost_defaults :
    filter (λ p. not (is_setting p)) (map path_of default_values)
    ≡ "http.log_level" ∷ "email.resend.api_key" ∷ "email.resend.webhook_secret" ∷ []
unfolding bind_envs config_fields env_key
lost_defaults = refl
