-- ===== src/Process/Server/Serving.antt =====
-- When the command that serves HTTP comes to start its server.
use Prim.Native.String.{◌++◌}
use logtrace_backend.Common.{◌≡◌, refl, sym, ◌∙◌, some, string_eq}
use logtrace_backend.Domain.{Error, Result, ok, err}
use logtrace_backend.Config.{Config, validate}
use logtrace_backend.Config.Checks.{validate_again}
use logtrace_backend.Process.{
  Exit, CommandResult, going, Command, or_else, run_call, ◌>>=◌, given, pre_run,
}
use logtrace_backend.Process.Server.{Setup, HttpServer, new_server, http_command}

module _ {W A B : Type 0} where
  -- A step that was passed, and what came behind it.
  or_else-going :
      (exit : Error → Exit) (r : Result A) (f : A → Command W B) (w v : W) (b : B)
      → (or_else exit r >>= f) w ≡ (going b, v)
      → (a : A) × (r ≡ ok a) × (f a w ≡ (going b, v))
  unfolding ◌>>=◌ or_else
  or_else-going exit (ok a) f w v b h = (a, refl, h)
  or_else-going exit (err e) f w v b h = absurd (cc)

  run_call-or_else :
      (exit : Error → Exit) (run : W → Result A × W) (f : A → Command W B) (w : W)
      → (run_call exit run >>= f) w ≡ (or_else exit (run w).0 >>= f) (run w).1
  unfolding ◌>>=◌ run_call
  run_call-or_else exit run f w = refl

  run_call-going :
      (exit : Error → Exit) (run : W → Result A × W) (f : A → Command W B) (w v : W) (b : B)
      → (run_call exit run >>= f) w ≡ (going b, v)
      → (a : A) × ((run w).0 ≡ ok a) × (f a (run w).1 ≡ (going b, v))
  run_call-going exit run f w v b h =
      or_else-going exit (run w).0 f (run w).1 v b (sym (run_call-or_else exit run f w) ∙ h)

  going-or_else :
      (exit : Error → Exit) (r : Result A) (f : A → Command W B) (w : W) (a : A)
      → r ≡ ok a
      → (or_else exit r >>= f) w ≡ f a w
  unfolding ◌>>=◌ or_else
  going-or_else exit r f w a h = rw h refl

  going-run_call :
      (exit : Error → Exit) (run : W → Result A × W) (f : A → Command W B) (w : W) (a : A)
      → (run w).0 ≡ ok a
      → (run_call exit run >>= f) w ≡ f a (run w).1
  going-run_call exit run f w a h =
      run_call-or_else exit run f w ∙ going-or_else exit (run w).0 f (run w).1 a h

going-inj :
    {A W : Type 0} (a b : A) (w v : W)
    → ◌≡◌ {A = CommandResult A × W} (going a, w) (going b, v)
    → (a ≡ b) × (w ≡ v)
going-inj a b w v h = (cc, cc)

given-some : (r : Result Config) (c : Config) → given r ≡ ok (some c) → r ≡ ok c
given-some (err e) c h = absurd (cc)
given-some (ok c0) c h = cc

module _ {W : Type 0} (s : Setup W) where
  -- Every step before the server was set up without an error.
  record IsReady (w : W) : Type 0 where
    pub logger : s.build_logger ≡ ok tt
    pub redis_url : s.parse_redis_url ≡ ok tt
    pub tracing : s.instrument_tracing ≡ ok tt
    pub metrics : s.instrument_metrics ≡ ok tt
    pub database : s.open_database ≡ ok tt
    pub migrated : (s.run_migrations w).0 ≡ ok tt
    pub email_client : s.new_email_client ≡ ok tt
    pub queue : s.new_queue ≡ ok tt
    pub redis : s.ping_redis ≡ ok tt
    pub otel : s.init_otel ≡ ok tt

  abbrev server_of : Config → HttpServer
  server_of c = record { address = ":" ++ s.number c.http_port; config = c }

  pre_run-validated :
      (read : Result Config) (c : Config)
      → pre_run s.parse_address "http" read ≡ ok (some c)
      → validate s.parse_address c ≡ ok c
  unfolding pre_run
  pre_run-validated (err e) c h = absurd (cc)
  pre_run-validated (ok c0) c h =
      validate_again s.parse_address c0 c (given-some (validate s.parse_address c0) c h)

  IsReady-http_command :
      (c : Config) (w : W)
      → validate s.parse_address c ≡ ok c
      → IsReady w
      → http_command s c w ≡ (going (server_of c), (s.run_migrations w).1)
  unfolding http_command new_server
  IsReady-http_command c w valid ready =
      let w' = (s.run_migrations w).1 in
      going-or_else _ _ _ w tt ready.logger
      ∙ going-or_else _ _ _ w tt ready.redis_url
      ∙ going-or_else _ _ _ w tt ready.tracing
      ∙ going-or_else _ _ _ w tt ready.metrics
      ∙ going-or_else _ _ _ w tt ready.database
      ∙ going-run_call _ _ _ w tt ready.migrated
      ∙ going-or_else _ _ _ w' tt ready.email_client
      ∙ going-or_else _ _ _ w' tt ready.queue
      ∙ going-or_else _ _ _ w' tt ready.redis
      ∙ going-or_else _ _ _ w' tt ready.otel
      ∙ going-or_else _ _ _ w' c valid

  http_command-IsReady :
      (c : Config) (w v : W) (server : HttpServer)
      → http_command s c w ≡ (going server, v)
      → IsReady w
  unfolding http_command
  http_command-IsReady c w v server h0 =
      let (_, logger, h1) = or_else-going _ _ _ w v server h0 in
      let (_, redis_url, h2) = or_else-going _ _ _ w v server h1 in
      let (_, tracing, h3) = or_else-going _ _ _ w v server h2 in
      let (_, metrics, h4) = or_else-going _ _ _ w v server h3 in
      let (_, database, h5) = or_else-going _ _ _ w v server h4 in
      let (_, migrated, h6) = run_call-going _ _ _ w v server h5 in
      let w' = (s.run_migrations w).1 in
      let (_, email_client, h7) = or_else-going _ _ _ w' v server h6 in
      let (_, queue, h8) = or_else-going _ _ _ w' v server h7 in
      let (_, redis, h9) = or_else-going _ _ _ w' v server h8 in
      let (_, otel, h) = or_else-going _ _ _ w' v server h9 in
      record {
        logger = logger;
        redis_url = redis_url;
        tracing = tracing;
        metrics = metrics;
        database = database;
        migrated = migrated;
        email_client = email_client;
        queue = queue;
        redis = redis;
        otel = otel;
      }

  -- The command that serves HTTP, with a configuration that passed the check before every command,
  -- comes to start its server exactly if each step before succeeds, the migrations included; the
  -- server has the port of this configuration, which its second check leaves as it is.
  http_command-IsSetUp :
      (read : Result Config) (c : Config) (w : W)
      → pre_run s.parse_address "http" read ≡ ok (some c)
      → (IsReady w → http_command s c w ≡ (going (server_of c), (s.run_migrations w).1))
        × ((server : HttpServer) (v : W)
            → http_command s c w ≡ (going server, v)
            → IsReady w × (server ≡ server_of c) × (v ≡ (s.run_migrations w).1))
  http_command-IsSetUp read c w h =
      let valid = pre_run-validated read c h in
      (
        IsReady-http_command c w valid,
        λ server v started.
            let ready = http_command-IsReady c w v server started in
            let (same, kept) =
              going-inj server (server_of c) v (s.run_migrations w).1
                (sym started ∙ IsReady-http_command c w valid ready) in
            (ready, same, kept),
      )
