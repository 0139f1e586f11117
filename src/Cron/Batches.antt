-- ===== src/Cron/Batches.antt =====
-- ProcessPendingUsers: the batches of pending users, and the emails that are made for them. The loop
-- runs on fuel, `none` where it runs out. A batch is run by one worker, each email before the next:
-- Cron/Pool has the other schedules. What `time.Now()` gives at the end and the log are left out.
pub mod Coverage
pub mod Jobs
pub mod Mailed
pub mod Outbox
pub mod Schedule
use Prim.Native.String.{String, [], ◌∷◌, ◌++◌}
use mathlib.Core.List
use mathlib.Core.Option
use logtrace_backend.Common.{
  ℕ, zero, suc, ◌+◌, Char, code, Bool, true, false, Option, none, some, List, length, ◌==◌, nat_eq,
  string_eq, if◌then◌else◌,
}
use logtrace_backend.Common.Int.{ℤ, pos}
use logtrace_backend.GoText.{is_space, trim_space}
use logtrace_backend.Domain.{
  Uuid, Error, other, error_text, Result, ok, err, User, EmailVerification, new_email_verification,
}
use logtrace_backend.Sql.{Condition, where_, where_text, Table}
use logtrace_backend.Cron.{EmailJob, Services, process_email_with_retry}

-- `strings.TrimRight(s, "/")`
without_slash : Char → String → String
without_slash c [] = if code c == b'/' then [] else c ∷ []
without_slash c (d ∷ s) = c ∷ d ∷ s

unfoldable pub trim_right_slashes : String → String
unfolding without_slash
trim_right_slashes [] = []
trim_right_slashes (c ∷ s) = without_slash c (trim_right_slashes s)

abbrev pub verification_link : String → String → String
verification_link app_url token = trim_right_slashes app_url ++ ("/email-verify?token=" ++ token)

-- The first of `strings.Fields(s)`, for a text that starts with no space.
unfoldable pub first_field : String → String
first_field [] = []
first_field (c ∷ s) = let rest = first_field s in if is_space (code c) then [] else c ∷ rest

-- `emailAddress[:idx]` for `idx = strings.Index(emailAddress, "@")`, `none` where there is no `@`.
before_at : String → Option String
before_at [] = none
before_at (c ∷ s) =
    let longer = Option.map (λ t. c ∷ t) (before_at s) in if code c == b'@' then some [] else longer

name_in_address : Option String → String
name_in_address none = "there"
name_in_address (some []) = "there"
name_in_address (some (c ∷ s)) = c ∷ s

-- The email is what `Email.String` gives.
unfoldable pub first_name_from_user : (String → String) → User → String
unfolding before_at name_in_address
first_name_from_user to_lower user =
    let full_name = trim_space user.full_name in
    let address_name = name_in_address (before_at (to_lower user.email)) in
    if full_name == "" then address_name else first_field full_name

-- What the processor takes beside the services of one email: `util.Random(40)`, the store of the
-- verifications, the template, `ctx.Done()`, strings.ToLower,
-- the texts of an identifier and of a number, and the options.
pub record Processor (W : Type 0) : Type 0 where
  pub services : Services W
  pub random : W → Result String × W
  pub store_verification : EmailVerification → W → Result (Unit {0}) × W
  pub render : String → String → Result String
  pub canceled : W → Option Error
  pub to_lower : String → String
  pub uuid_text : Uuid → String
  pub count_text : ℕ → String
  pub app_url : String
  pub batch_size : ℤ
  pub max_retries : ℤ

pub record ProcessMetrics : Type 0 where
  pub total_emails : ℕ
  pub sent_emails : ℕ
  pub failed_emails : ℕ
  pub last_processed_id : Option Uuid

abbrev pub no_metrics : ProcessMetrics
no_metrics = record {
  total_emails = 0;
  sent_emails = 0;
  failed_emails = 0;
  last_processed_id = none;
}

abbrev pub pending_conditions : List Condition
pending_conditions = List.◌∷◌ (where_ (record { clause = "deleted_at IS NULL"; args = List.[] })) (
    List.◌∷◌ (where_ (record { clause = "email_verified_at IS NULL"; args = List.[] }))
      (where_text "status = ?" "pending"))

abbrev wrapped : String → Error → Error
wrapped s e = other (s ++ error_text e)

module _ {W : Type 0} (users : Table User W) (p : Processor W) where
  unfoldable pub fetch_pending_users : ℕ → W → Result (List User)
  fetch_pending_users offset w =
      users.select pending_conditions "created_at ASC, id ASC" p.batch_size (pos offset) w

  unfoldable pub prepare_verification_email : User → String → Result String
  prepare_verification_email user token =
      p.render (first_name_from_user p.to_lower user) (verification_link p.app_url token)

  abbrev for_user : String → User → Error → Error
  for_user s user e = other (s ++ (p.uuid_text user.id ++ (": " ++ error_text e)))

  abbrev job_of : User → Result String → Result EmailJob
  job_of user (err e) = err (for_user "failed to render verification email for user " user e)
  job_of user (ok content) = ok (record {
    recipient = user;
    subject = "Verify your account to get started with Logtrace";
    content = content;
    retry_count = 0;
    last_error = none;
    last_attempt = 0;
  })

  abbrev job_stored : User → String → Result (Unit {0}) × W → Result EmailJob × W
  job_stored user token (err e, w) =
      (err (for_user "failed to store verification token for user " user e), w)
  job_stored user token (ok _, w) = (job_of user (prepare_verification_email user token), w)

  abbrev job_verified : User → Result EmailVerification → W → Result EmailJob × W
  job_verified user (err e) w =
      (err (for_user "failed to generate verification token for user " user e), w)
  job_verified user (ok v) w = job_stored user v.token (p.store_verification v w)

  unfoldable pub create_email_job : User → W → Result EmailJob × W
  create_email_job user w =
      let (drawn, v) = p.random w in job_verified user (new_email_verification drawn user) v

  unfoldable pub create_email_jobs : List User → W → Result (List EmailJob) × W
  create_email_jobs List.[] w = (ok List.[], w)
  create_email_jobs (List.◌∷◌ user more) w =
      let (made, v) = create_email_job user w in
      elim made [
        | err e ↦ (err e, v)
        | ok job ↦
            let (rest, v') = create_email_jobs more v in
            elim rest [ err e ↦ (err e, v') | ok jobs ↦ (ok (List.◌∷◌ job jobs), v') ]
      ]

  -- `IncrementSent` and `IncrementFailed`
  unfoldable pub counted_result : Result (Unit {0}) → ProcessMetrics → ProcessMetrics
  counted_result (ok _) m = record m { sent_emails = suc m.sent_emails }
  counted_result (err e) m = record m { failed_emails = suc m.failed_emails }

  unfoldable pub process_email_batch :
      List EmailJob → ProcessMetrics → W → Result (Unit {0}) × (ProcessMetrics × W)
  process_email_batch List.[] m w = (ok tt, (m, w))
  process_email_batch (List.◌∷◌ job jobs) m w = elim (p.canceled w) [
    | some e ↦ (err e, (m, w))
    | none ↦
        let (r, (sent_job, v)) = process_email_with_retry p.services p.max_retries job w in
        process_email_batch jobs (counted_result r m) v
  ]

  last_id : List User → Option Uuid
  last_id List.[] = none
  last_id (List.◌∷◌ u List.[]) = some u.id
  last_id (List.◌∷◌ u (List.◌∷◌ v more)) = last_id (List.◌∷◌ v more)

  -- What is returned behind the loop.
  unfoldable pub report : ProcessMetrics → Result (Unit {0})
  report m =
      if m.failed_emails == 0
      then ok tt
      else err (
          other (
            "some emails failed to send: "
            ++ (p.count_text m.failed_emails ++ ("/" ++ p.count_text m.total_emails))))

  -- One turn of the loop on the users that it fetched: its early return, or the new metrics.
  abbrev batch_done :
      List User
      → Result (Unit {0}) × (ProcessMetrics × W)
      → Result ProcessMetrics × (ProcessMetrics × W)
  batch_done fetched (err e, (m, w)) = (err (wrapped "failed to process email batch: " e), (m, w))
  batch_done fetched (ok _, (m, w)) =
      (ok (record m { last_processed_id = last_id fetched }), (m, w))

  abbrev with_jobs :
      List User
      → ProcessMetrics
      → Result (List EmailJob) × W
      → Result ProcessMetrics × (ProcessMetrics × W)
  with_jobs fetched m (err e, w) = (err (wrapped "failed to create email jobs: " e), (m, w))
  with_jobs fetched m (ok List.[], w) = (ok m, (m, w))
  with_jobs fetched m (ok (List.◌∷◌ j js), w) = batch_done fetched (
      process_email_batch (List.◌∷◌ j js)
        (record m { total_emails = m.total_emails + length (List.◌∷◌ j js) }) w)

  unfoldable pub process_batch :
      List User → ProcessMetrics → W → Result ProcessMetrics × (ProcessMetrics × W)
  unfolding last_id
  process_batch fetched m w = with_jobs fetched m (create_email_jobs fetched w)

  unfoldable pub process_from :
      ℕ → ℕ → ProcessMetrics → W → Option (Result (Unit {0}) × (ProcessMetrics × W))
  process_from zero offset m w = none
  process_from (suc fuel) offset m w = elim (fetch_pending_users offset w) [
    | err e ↦ some (err (wrapped "failed to fetch users: " e), (m, w))
    | ok List.[] ↦ some (report m, (m, w))
    | ok (List.◌∷◌ u us) ↦
        let (r, (stopped, v)) = process_batch (List.◌∷◌ u us) m w in
        elim r [
          | err e ↦ some (err e, (stopped, v))
          | ok m' ↦ process_from fuel (offset + length (List.◌∷◌ u us)) m' v
        ]
  ]

  unfoldable pub process_pending_users : ℕ → W → Option (Result (Unit {0}) × (ProcessMetrics × W))
  process_pending_users fuel w = process_from fuel 0 no_metrics w
