-- ===== src/Cron/Command.antt =====
-- cmd/cli/cron_scheduled_emails.go: sendEmail, NewEmailProcessor and the command `users`
-- (sendScheduledUpdates), with the client for SES (internal/pkg/email/aws-ses/client.go) and the store
-- of the verifications. The timeout of a fetch and the number of workers are not in the processor:
-- the database takes no timeout, and Cron/Batches runs one worker.
pub mod Delivery
use Prim.Native.String.{String, ◌++◌}
use logtrace_backend.Common.{
  ℕ, ◌*◌, Bool, ◌||◌, ◌==◌, string_eq, if◌then◌else◌, Option, none, some, List,
}
use logtrace_backend.Common.Int.{ℤ, pos}
use logtrace_backend.Domain.{
  Uuid, Time, Error, other, error_text, Result, ok, err, User, EmailVerification,
}
use logtrace_backend.Sql.{Table, Statements}
use logtrace_backend.Stores.Passwords.{create_verification}
use logtrace_backend.Mail.{SendOptions, LoadOption, send_by_ses, new_ses_client}
use logtrace_backend.Cron.{EmailJob, Services, second}
use logtrace_backend.Cron.Batches.{Processor, ProcessMetrics, process_pending_users}

pub record ProcessorOptions : Type 0 where
  pub batch_size : ℤ
  pub worker_count : ℤ
  pub max_retries : ℤ
  pub processing_timeout : ℤ
  pub email_timeout : ℤ
  pub rate_limit : ℤ

unfoldable pub default_processor_options : ProcessorOptions
default_processor_options = record {
  batch_size = pos 100;
  worker_count = pos 5;
  max_retries = pos 3;
  processing_timeout = pos (30 * 60 * second);
  email_timeout = pos (10 * second);
  rate_limit = pos 10;
}

-- The parts of Config that the command reads.
pub record JobConfig : Type 0 where
  pub sender : String
  pub app_url : String
  pub log_level : String
  pub logging_mode : String
  pub ses_region : String
  pub ses_access_key : String
  pub ses_secret_key : String

-- What `postgres.New` gives.
pub record Database (W : Type 0) : Type 0 where
  pub users : Table User W
  pub verifications : Table EmailVerification W
  pub verification_statements : Statements EmailVerification W

-- What the command takes from elsewhere: `zap`, `postgres.New`, AWS, whose call takes the timeout of
-- its context, `Wait` of `rate.NewLimiter(rate.Limit(n), n)`, the timer, `ctx.Done()`, the clock,
-- `util.Random(40)`, the template, `strings.ToLower`, and the texts of identifiers and numbers.
pub record Environment (Aws W : Type 0) : Type 0 where
  pub production_logger : Result (Unit {0})
  pub development_logger : Result (Unit {0})
  pub open_database : Result (Database W)
  pub load_default_config : List LoadOption → Result Aws
  pub aws_send_email : Aws → ℤ → SendOptions → W → Result (Unit {0}) × W
  pub limiter : ℤ → W → Result (Unit {0}) × W
  pub timer : ℤ → W → Result (Unit {0}) × W
  pub canceled : W → Option Error
  pub now : W → Time
  pub random : W → Result String × W
  pub render : String → String → Result String
  pub to_lower : String → String
  pub uuid_text : Uuid → String
  pub count_text : ℕ → String

-- What `sendEmail` hands to the client.
abbrev pub email_of : String → EmailJob → SendOptions
email_of sender job = record {
  html = job.content;
  sender = sender;
  recipient = job.recipient.email;
  subject = job.subject;
}

unfoldable pub send_email :
    {W : Type 0}
    → (ℤ → SendOptions → W → Result (Unit {0}) × W)
    → JobConfig
    → ProcessorOptions
    → EmailJob
    → W
    → Result (Unit {0}) × W
send_email client cfg opts job w = client opts.email_timeout (email_of cfg.sender job) w

module _ {Aws W : Type 0} (env : Environment Aws W) where
  unfoldable pub new_email_processor :
      Database W
      → (ℤ → SendOptions → W → Result (Unit {0}) × W)
      → JobConfig
      → ProcessorOptions
      → Processor W
  new_email_processor db client cfg opts = record {
    services = record {
      wait_for_rate = env.limiter opts.rate_limit;
      wait_for_retry = env.timer;
      send_email = send_email client cfg opts;
      now = env.now;
    };
    random = env.random;
    store_verification = create_verification db.verifications db.verification_statements;
    render = env.render;
    canceled = env.canceled;
    to_lower = env.to_lower;
    uuid_text = env.uuid_text;
    count_text = env.count_text;
    app_url = cfg.app_url;
    batch_size = opts.batch_size;
    max_retries = opts.max_retries;
  }

  -- The logger of production is chosen by the level, or by the mode where there is no level.
  abbrev is_production : JobConfig → Bool
  is_production cfg =
      let level = env.to_lower cfg.log_level in
      let mode = if level == "" then env.to_lower cfg.logging_mode else level in
      mode == "prod" || mode == "production"

  abbrev wrapped : {A : Type 0} → String → Result A → Result A
  wrapped s (ok a) = ok a
  wrapped s (err e) = err (other (s ++ error_text e))

  unfoldable pub setup_logger : JobConfig → Result (Unit {0})
  setup_logger cfg =
      wrapped "failed to create logger: "
        (if is_production cfg then env.production_logger else env.development_logger)

  -- The methods of the client, as they are given to the processor.
  abbrev pub ses_client : Aws → ℤ → SendOptions → W → Result (Unit {0}) × W
  ses_client aws timeout = send_by_ses env.to_lower (env.aws_send_email aws timeout)

  abbrev pub ended :
      Option (Result (Unit {0}) × (ProcessMetrics × W)) → Option (Result (Unit {0}) × W)
  ended none = none
  ended (some (r, (m, w))) = some (r, w)

  -- What the command does with what it set up; an error ends it before anything is sent.
  abbrev pub run_with :
      ℕ
      → JobConfig
      → ProcessorOptions
      → W
      → Result (Unit {0})
      → Result Aws
      → Result (Database W)
      → Option (Result (Unit {0}) × W)
  run_with fuel cfg opts w (err e) client db = some (err e, w)
  run_with fuel cfg opts w (ok _) (err e) db = some (err e, w)
  run_with fuel cfg opts w (ok _) (ok aws) (err e) = some (err e, w)
  run_with fuel cfg opts w (ok _) (ok aws) (ok db) =
      ended
        (process_pending_users db.users (new_email_processor db (ses_client aws) cfg opts) fuel w)

  -- `RunE` of the command; `none` where the fuel of ProcessPendingUsers runs out.
  unfoldable pub send_scheduled_updates :
      ℕ → JobConfig → ProcessorOptions → W → Option (Result (Unit {0}) × W)
  unfolding setup_logger
  send_scheduled_updates fuel cfg opts w =
      run_with fuel cfg opts w (wrapped "failed to setup logger: " (setup_logger cfg))
        (wrapped "failed to setup email client: " (
          new_ses_client env.load_default_config cfg.ses_region cfg.ses_access_key
            cfg.ses_secret_key))
        (wrapped "failed to setup database: " env.open_database)
