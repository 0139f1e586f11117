-- ===== src/Process/Server.antt =====
-- The command that serves HTTP (cmd/cli/http.go), with New of server/http.go. What it sets up from
-- other packages is a result; ListenAndServe, whose error is logged, and the end on a signal are left
-- out.
pub mod Serving
use Prim.Native.String.{String, ◌++◌}
use logtrace_backend.Common.{Bool}
use logtrace_backend.Common.Int.{ℤ}
use logtrace_backend.Domain.{Error, Result}
use logtrace_backend.Config.{Config, validate}
use logtrace_backend.Process.{
  Exit, returned, fatal, CommandResult, Command, pure, or_else, run_call, ◌>>=◌, ◌>>◌,
}

-- What the steps of the command call, in their order: zap, `redis.ParseURL`, redisotel, the
-- connection to the database, its migrations, AWS, the queue, the ping of `rediscache.New`, and the
-- setup of OpenTelemetry. `number` is the verb %d.
pub record Setup (W : Type 0) : Type 0 where
  pub build_logger : Result (Unit {0})
  pub parse_redis_url : Result (Unit {0})
  pub instrument_tracing : Result (Unit {0})
  pub instrument_metrics : Result (Unit {0})
  pub open_database : Result (Unit {0})
  pub run_migrations : W → Result (Unit {0}) × W
  pub new_email_client : Result (Unit {0})
  pub new_queue : Result (Unit {0})
  pub ping_redis : Result (Unit {0})
  pub init_otel : Result (Unit {0})
  pub parse_address : String → Bool
  pub number : ℤ → String

-- `&http.Server{…}`, with the configuration that its routes are set up with.
pub record HttpServer : Type 0 where
  pub address : String
  pub config : Config

module _ {W : Type 0} (s : Setup W) where
  -- `New` validates its copy of the configuration once more.
  unfoldable pub new_server : Config → Command W HttpServer
  new_server cfg = do
    c ← or_else fatal (validate s.parse_address cfg)
    pure (record { address = ":" ++ s.number c.http_port; config = c })

  -- The steps up to the call of ListenAndServe.
  unfoldable pub http_command : Config → Command W HttpServer
  http_command cfg = do
    or_else returned s.build_logger
    or_else fatal s.parse_redis_url
    or_else fatal s.instrument_tracing
    or_else fatal s.instrument_metrics
    or_else fatal s.open_database
    run_call fatal s.run_migrations
    or_else fatal s.new_email_client
    or_else fatal s.new_queue
    or_else fatal s.ping_redis
    or_else fatal s.init_otel
    new_server cfg
