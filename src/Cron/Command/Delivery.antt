-- ===== src/Cron/Command/Delivery.antt =====
-- What a run of the command `users` has sent through the client for SES, as AWS confirmed it.
use Prim.Native.String.{String}
use logtrace_backend.Common.{
  ℕ, suc, ◌<◌, ◌≡◌, refl, ap, sym, ◌∙◌, Option, some, subst, filter, List, [], ◌∷◌, ◌++◌, map,
  length, ◌⊎◌, inl, inr,
}
use logtrace_backend.Common.Int.{ℤ, pos}
use logtrace_backend.Domain.{Error, Result, ok, err, IsErr, Result-cases, User, EmailVerification}
use logtrace_backend.Sql.{Predicate}
use logtrace_backend.Sql.Laws.{IsTable, matches}
use logtrace_backend.Stores.Passwords.{create_verification}
use logtrace_backend.Mail.{SendOptions, validate_send, send_by_ses, new_ses_client}
use logtrace_backend.Cron.{EmailJob, failed_once}
use logtrace_backend.Cron.Batches.{
  Processor, pending_conditions, first_name_from_user, verification_link,
  prepare_verification_email,
}
use logtrace_backend.Cron.Batches.Jobs.{IsApart}
use logtrace_backend.Cron.Batches.Outbox.{IsOutbox}
use logtrace_backend.Cron.Batches.Mailed.{EachFor, process_pending_users-IsMailed}
use logtrace_backend.Cron.Command.{
  ProcessorOptions, JobConfig, Database, Environment, email_of, send_email, new_email_processor,
  setup_logger, ses_client, wrapped, ended, run_with, send_scheduled_updates,
}

module _ {Aws W : Type 0} (env : Environment Aws W) (db : Database W) where
  -- No call but the one of AWS changes what is observed.
  pub record Keeps {A : Type 0} (observe : W → A) : Type 0 where
    pub random : (w : W) → observe (env.random w).1 ≡ observe w
    pub insert :
        (v : EmailVerification) (w : W) → observe (db.verifications.insert v w).1 ≡ observe w
    pub limiter : (n : ℤ) (w : W) → observe (env.limiter n w).1 ≡ observe w
    pub timer : (d : ℤ) (w : W) → observe (env.timer d w).1 ≡ observe w

  -- The outbox lists the emails for which the call of AWS returned no error, in the order of the calls.
  -- AWS may have taken an email as well for which it returned one.
  pub record Acknowledges (outbox : W → List SendOptions) : Type 0 where
    pub confirmed :
        (aws : Aws) (timeout : ℤ) (o : SendOptions) (w : W)
        → (env.aws_send_email aws timeout o w).0 ≡ ok tt
        → outbox (env.aws_send_email aws timeout o w).1 ≡ outbox w ++ (o ∷ [])
    pub unconfirmed :
        (aws : Aws) (timeout : ℤ) (o : SendOptions) (e : Error) (w : W)
        → (env.aws_send_email aws timeout o w).0 ≡ err e
        → outbox (env.aws_send_email aws timeout o w).1 ≡ outbox w

  -- The email that AWS gets for a job.
  abbrev pub delivered : JobConfig → EmailJob → SendOptions
  delivered cfg job = record {
    html = job.content;
    sender = env.to_lower cfg.sender;
    recipient = env.to_lower job.recipient.email;
    subject = job.subject;
  }

  -- The email to verify an account, to a user, with some token in its link.
  abbrev pub IsEmailFor : JobConfig → User → SendOptions → Type 0
  IsEmailFor cfg u o =
      (o.recipient ≡ env.to_lower u.email)
      × (o.sender ≡ env.to_lower cfg.sender)
      × (o.subject ≡ "Verify your account to get started with Logtrace")
      × ((token : String) × (env.render (first_name_from_user env.to_lower u)
              (verification_link cfg.app_url token)
            ≡ ok o.html))

  -- One email for each user, in the same order.
  abbrev pub EachEmailed : JobConfig → List User → List SendOptions → Type 0
  EachEmailed cfg [] [] = Unit
  EachEmailed cfg [] (o ∷ os) = ⊥
  EachEmailed cfg (u ∷ us) [] = ⊥
  EachEmailed cfg (u ∷ us) (o ∷ os) = IsEmailFor cfg u o × EachEmailed cfg us os

  -- The client for SES refuses an email by itself, or calls AWS.
  send_by_ses-cases :
      (send : SendOptions → W → Result (Unit {0}) × W) (o : SendOptions) (w : W)
      → ((e : Error) × (send_by_ses env.to_lower send o w ≡ (err e, w)))
        ⊎ (send_by_ses env.to_lower send o w
            ≡ send
                (record o { sender = env.to_lower o.sender; recipient = env.to_lower o.recipient })
                w)
  unfolding send_by_ses
  send_by_ses-cases send o w = elim (Result-cases (validate_send env.to_lower o)) [
    | inr (e, f) ↦ inl (e, rw (send_by_ses, f) refl)
    | inl (u, f) ↦ inr (rw (send_by_ses, f) refl)
  ]

  module _ (cfg : JobConfig) (opts : ProcessorOptions) (aws : Aws) where
    abbrev pub processor : Processor W
    processor = new_email_processor env db (ses_client env aws) cfg opts

    processor-IsOutbox :
        (outbox : W → List SendOptions)
        → Keeps outbox
        → Acknowledges outbox
        → IsOutbox processor outbox (delivered cfg)
    unfolding new_email_processor send_email create_verification failed_once
    processor-IsOutbox outbox keeps confirms = record {
      random = keeps.random;
      store = keeps.insert;
      rate = keeps.limiter opts.rate_limit;
      retry = keeps.timer;
      sent = λ job w h.
          elim (send_by_ses-cases (env.aws_send_email aws opts.email_timeout)
            (email_of cfg.sender job) w) [
              | inl (e, q) ↦ absurd (let g = sym (ap (λ x. x.0) q) ∙ h in cc)
              | inr q ↦
                  ap (λ x. outbox x.1) q
                  ∙ confirms.confirmed aws opts.email_timeout (delivered cfg job) w
                      (sym (ap (λ x. x.0) q) ∙ h)
            ];
      unsent = λ job e w h.
          elim (send_by_ses-cases (env.aws_send_email aws opts.email_timeout)
            (email_of cfg.sender job) w) [
              | inl (e', q) ↦ ap (λ x. outbox x.1) q
              | inr q ↦
                  ap (λ x. outbox x.1) q
                  ∙ confirms.unconfirmed aws opts.email_timeout (delivered cfg job) e w
                      (sym (ap (λ x. x.0) q) ∙ h)
            ];
      same_mail = λ e t job. refl;
    }

    processor-IsApart :
        (rows : W → List User)
        → Keeps rows
        → ((timeout : ℤ) (o : SendOptions) (w : W)
            → rows (env.aws_send_email aws timeout o w).1 ≡ rows w)
        → IsApart processor rows
    unfolding new_email_processor send_email create_verification
    processor-IsApart rows keeps apart = record {
      random = keeps.random;
      store = keeps.insert;
      rate = keeps.limiter opts.rate_limit;
      retry = keeps.timer;
      send = λ job w.
          elim (send_by_ses-cases (env.aws_send_email aws opts.email_timeout)
            (email_of cfg.sender job) w) [
              | inl (e, q) ↦ ap (λ x. rows x.1) q
              | inr q ↦ ap (λ x. rows x.1) q ∙ apart opts.email_timeout (delivered cfg job) w
            ];
    }

    each-emailed :
        (us : List User) (js : List EmailJob)
        → EachFor db.users processor us js
        → EachEmailed cfg us (map (delivered cfg) js)
    unfolding prepare_verification_email new_email_processor
    each-emailed [] [] h = tt
    each-emailed [] (j ∷ js) h = absurd h
    each-emailed (u ∷ us) [] h = absurd h
    each-emailed (u ∷ us) (j ∷ js) ((same, subject, (token, rendered)), hs) = (
      (ap (λ x. env.to_lower x.email) same, refl, subject, (token, rendered)),
      each-emailed us js hs,
    )

  module _ (rows : W → List User) (outbox : W → List SendOptions)
      (sorted : String → List User → List User) (set : List Predicate → User → User)
      (table : IsTable db.users rows sorted set) (keeps_rows : Keeps rows)
      (apart : (aws : Aws) (timeout : ℤ) (o : SendOptions) (w : W)
        → rows (env.aws_send_email aws timeout o w).1 ≡ rows w)
      (keeps : Keeps outbox) (confirms : Acknowledges outbox) where
    abbrev pub pending_users : W → List User
    pending_users w =
        sorted "created_at ASC, id ASC"
          (filter (matches db.users.holds pending_conditions) (rows w))

    -- A run ended, by an error or with one confirmed email from the sender to each pending user.
    abbrev pub Delivers : JobConfig → W → Option (Result (Unit {0}) × W) → Type 0
    Delivers cfg w x =
        (r : Result (Unit {0}) × W) × (x ≡ some r)
        × (IsErr r.0
            ⊎ ((mails : List SendOptions) × EachEmailed cfg (pending_users w) mails
                × (outbox r.1 ≡ outbox w ++ mails)))

    run_with-Delivers :
        (fuel n : ℕ) (cfg : JobConfig) (opts : ProcessorOptions) (w : W)
        (logger : Result (Unit {0})) (client : Result Aws)
        → opts.batch_size ≡ pos (suc n)
        → length (pending_users w) < fuel
        → Delivers cfg w (run_with env fuel cfg opts w logger client (ok db))
    unfolding new_email_processor
    run_with-Delivers fuel n cfg opts w (err e) client sized enough = ((err e, w), refl, inl tt)
    run_with-Delivers fuel n cfg opts w (ok _) (err e) sized enough = ((err e, w), refl, inl tt)
    run_with-Delivers fuel n cfg opts w (ok _) (ok aws) sized enough =
        let ((r, (m, v)), ends, how) =
          process_pending_users-IsMailed db.users (processor cfg opts aws) outbox (delivered cfg)
            (processor-IsOutbox cfg opts aws outbox keeps confirms) rows
            (processor-IsApart cfg opts aws rows keeps_rows (apart aws)) sorted set table n sized
            fuel w enough in
        (
          (r, v),
          ap (ended env) ends,
          elim how [
            | inl failed ↦ inl failed
            | inr (js, each, gained) ↦
                inr (map (delivered cfg) js, each-emailed cfg opts aws _ js each, gained)
          ],
        )

    -- With one worker, a run of the command with a positive batch size and more fuel than pending
    -- users ends: by an error, or AWS has confirmed exactly one email to each pending user, in their
    -- order, from the configured sender and with the rendered text for the user and a token. An email
    -- for which AWS returned an error does not count, and is tried again.
    pub send_scheduled_updates-Delivers :
        (fuel n : ℕ) (cfg : JobConfig) (opts : ProcessorOptions) (w : W)
        → env.open_database ≡ ok db
        → opts.batch_size ≡ pos (suc n)
        → length (pending_users w) < fuel
        → Delivers cfg w (send_scheduled_updates env fuel cfg opts w)
    unfolding send_scheduled_updates
    send_scheduled_updates-Delivers fuel n cfg opts w opened sized enough =
        let logger = wrapped env "failed to setup logger: " (setup_logger env cfg) in
        let client = wrapped env "failed to setup email client: " (
          new_ses_client env.load_default_config cfg.ses_region cfg.ses_access_key
            cfg.ses_secret_key) in
        subst
          (λ d. Delivers cfg w (
            run_with env fuel cfg opts w logger client
              (wrapped env "failed to setup database: " d)))
          (sym opened) (run_with-Delivers fuel n cfg opts w logger client sized enough)
