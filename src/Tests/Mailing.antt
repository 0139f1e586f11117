-- ===== src/Tests/Mailing.antt =====
-- A run of the command `users` over users in memory; what AWS confirmed stands beside them, and whether
-- it has failed already, as it does at its first call.
use Prim.Native.String
use logtrace_backend.Common.{
  ◌≡◌, refl, Bool, true, false, Bool-cases, inl, inr, none, List, [], ◌∷◌, ◌++◌, arith, string_eq,
  nat_eq,
}
use logtrace_backend.Common.Int.{ℤ, pos}
use logtrace_backend.Domain.{ok, err, other, User, EmailVerification}
use logtrace_backend.Sql.{Table, Statements}
use logtrace_backend.Sql.Laws.{matches}
use logtrace_backend.Mail.{SendOptions}
use logtrace_backend.Cron.Command.{
  default_processor_options, JobConfig, Database, Environment, send_scheduled_updates,
}
use logtrace_backend.Cron.Command.Delivery.{
  Keeps, Acknowledges, Delivers, send_scheduled_updates-Delivers,
}
use logtrace_backend.Tests.Memory.{memory_laws, beside, beside_laws}
use logtrace_backend.Tests.Batches.{user_holds, table, three_users}

abbrev World : Type 0
World = List User × (List SendOptions × Bool)

abbrev no_statements : Statements EmailVerification World
no_statements = record {
  insert_returning = λ v w. (ok v, w);
  update_given = λ v cs w. (ok v, w);
  delete = λ cs w. (ok tt, w);
}

-- The verifications are not read again by the job.
abbrev verifications : Table EmailVerification World
verifications = record {
  holds = λ q v. false;
  count = λ cs w. ok 0;
  select = λ cs order limit offset w. ok [];
  first = λ cs w. err (other "sql: no rows in result set");
  insert = λ v w. (ok tt, w);
  update = λ assignments cs w. (ok tt, w);
  replace = λ v cs w. (ok tt, w);
}

abbrev database : Database World
database = record {
  users = beside table;
  verifications = verifications;
  verification_statements = no_statements;
}

abbrev environment : Environment (Unit {0}) World
environment = record {
  production_logger = ok tt;
  development_logger = ok tt;
  open_database = ok database;
  load_default_config = λ opts. ok tt;
  aws_send_email = λ aws timeout o w. elim w.1.1 [
    | true ↦ (ok tt, (w.0, (w.1.0 ++ (o ∷ []), true)))
    | false ↦ (err (other "throttled"), (w.0, (w.1.0, true)))
  ];
  limiter = λ n w. (ok tt, w);
  timer = λ d w. (ok tt, w);
  canceled = λ w. none;
  now = λ w. 5;
  random = λ w. (ok "token", w);
  render = λ name link. ok (String.◌++◌ name link);
  to_lower = λ s. s;
  uuid_text = λ id. "id";
  count_text = λ n. "n";
}

abbrev config : JobConfig
config = record {
  sender = "team@logtrace.io";
  app_url = "https://logtrace.app/";
  log_level = "";
  logging_mode = "prod";
  ses_region = "eu-west-1";
  ses_access_key = "";
  ses_secret_key = "";
}

keeps_rows : Keeps environment database (λ w. w.0)
keeps_rows = record {
  random = λ w. refl;
  insert = λ v w. refl;
  limiter = λ n w. refl;
  timer = λ d w. refl;
}

keeps_outbox : Keeps environment database (λ w. w.1.0)
keeps_outbox = record {
  random = λ w. refl;
  insert = λ v w. refl;
  limiter = λ n w. refl;
  timer = λ d w. refl;
}

confirms : Acknowledges environment database (λ w. w.1.0)
confirms = record {
  confirmed = λ aws t o w h. elim (Bool-cases w.1.1) [
    | inl e ↦ rw e refl
    | inr e ↦ absurd (let g = rw e at h in cc)
  ];
  unconfirmed = λ aws t o e w h. elim (Bool-cases w.1.1) [
    | inl f ↦ absurd (let g = rw f at h in cc)
    | inr f ↦ rw f refl
  ];
}

aws_leaves_users :
    (o : SendOptions) (t : ℤ) (w : World) → (environment.aws_send_email tt t o w).1.0 ≡ w.0
aws_leaves_users o t w = elim (Bool-cases w.1.1) [ inl e ↦ rw e refl | inr e ↦ rw e refl ]

default_size : default_processor_options.batch_size ≡ pos 100
unfolding default_processor_options
default_size = refl

abbrev start : World
start = (three_users, ([], false))

send_scheduled_updates-Delivers_example :
    Delivers environment database
      (λ w. w.0)
      (λ w. w.1.0)
      (λ order rs. rs)
      (λ s u. u)
      (beside_laws table (λ order rs. rs) (λ s u. u) (memory_laws user_holds (λ s u. u)))
      keeps_rows
      (λ aws t o w. aws_leaves_users o t w)
      keeps_outbox
      confirms
      config
      start
      (send_scheduled_updates environment 3 config default_processor_options start)
unfolding matches
send_scheduled_updates-Delivers_example =
    send_scheduled_updates-Delivers environment database (λ w. w.0) (λ w. w.1.0) (λ order rs. rs)
      (λ s u. u) (beside_laws table (λ order rs. rs) (λ s u. u) (memory_laws user_holds (λ s u. u)))
      keeps_rows (λ aws t o w. aws_leaves_users o t w) keeps_outbox confirms 3 99 config
      default_processor_options start refl default_size (omega arith)
