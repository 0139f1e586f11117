-- ===== src/Cron/Batches/Outbox.antt =====
-- What a batch of the job that mails pending users puts into the outbox: the emails for which the
-- client returned no error. `mail` says which email stands there for a job.
use mathlib.Core.List.{append-nil, append_assoc}
use logtrace_backend.Common.{
  ℕ, zero, suc, ◌≤◌, ◌≡◌, refl, ap, sym, ◌∙◌, List, [], ◌∷◌, ◌++◌, map, arith, nat_eq, Option-cases,
  inl, inr,
}
use logtrace_backend.Common.Int.{ℤ}
use logtrace_backend.Domain.{Time, Error, Result, ok, err, Result-cases, User, EmailVerification}
use logtrace_backend.Sql.{Table}
use logtrace_backend.Cron.{
  EmailJob, backoff, failed_once, before, round, attempts_from, rounds, process_email_with_retry,
}
use logtrace_backend.Cron.Batches.{Processor, ProcessMetrics, counted_result, process_email_batch}

module _ {W Mail : Type 0} (p : Processor W) (outbox : W → List Mail) (mail : EmailJob → Mail) where
  -- A call of the client without an error puts the email of its job into the outbox, one with an error
  -- does not; the other calls leave it too. A failed try does not change which email a job is.
  pub record IsOutbox : Type 0 where
    pub random : (w : W) → outbox (p.random w).1 ≡ outbox w
    pub store : (v : EmailVerification) (w : W) → outbox (p.store_verification v w).1 ≡ outbox w
    pub rate : (w : W) → outbox (p.services.wait_for_rate w).1 ≡ outbox w
    pub retry : (d : ℤ) (w : W) → outbox (p.services.wait_for_retry d w).1 ≡ outbox w
    pub sent :
        (job : EmailJob) (w : W)
        → (p.services.send_email job w).0 ≡ ok tt
        → outbox (p.services.send_email job w).1 ≡ outbox w ++ (mail job ∷ [])
    pub unsent :
        (job : EmailJob) (e : Error) (w : W)
        → (p.services.send_email job w).0 ≡ err e
        → outbox (p.services.send_email job w).1 ≡ outbox w
    pub same_mail : (e : Error) (t : Time) (job : EmailJob) → mail (failed_once e t job) ≡ mail job

  -- What the outbox gained by a try.
  abbrev gained : EmailJob → Result (Unit {0}) → List Mail
  gained job (ok _) = mail job ∷ []
  gained job (err _) = []

  abbrev gained_in_round : EmailJob → Result (Result (Unit {0})) → List Mail
  gained_in_round job (ok r) = gained job r
  gained_in_round job (err _) = []

  gained-same :
      (j j' : EmailJob) (r : Result (Unit {0})) → mail j ≡ mail j' → gained j r ≡ gained j' r
  gained-same j j' (ok _) h = ap (λ m. m ∷ []) h
  gained-same j j' (err _) h = refl

module _ {W Mail : Type 0} (users : Table User W) (p : Processor W) (outbox : W → List Mail)
    (mail : EmailJob → Mail) (law : IsOutbox p outbox mail) where
  send-gains :
      (job : EmailJob) (w : W)
      → outbox (p.services.send_email job w).1
        ≡ outbox w ++ gained p outbox mail job (p.services.send_email job w).0
  send-gains job w = elim (Result-cases (p.services.send_email job w).0) [
    | inl (tt, f) ↦ rw f (law.sent job w f)
    | inr (e, f) ↦ rw (f, append-nil) (law.unsent job e w f)
  ]

  before-keeps : (n : ℕ) (w : W) → outbox (before p.services n w).1 ≡ outbox w
  unfolding before
  before-keeps zero w = refl
  before-keeps (suc n) w = law.retry (backoff (suc n)) w

  round-gains :
      (n : ℕ) (job : EmailJob) (w : W)
      → outbox (round p.services n job w).1
        ≡ outbox w ++ gained_in_round p outbox mail job (round p.services n job w).0
  unfolding round
  round-gains n job w =
      let v = (before p.services n w).1 in
      let v' = (p.services.wait_for_rate v).1 in
      let h1 = before-keeps n w in
      let h2 = law.rate v in
      elim (Result-cases (before p.services n w).0) [
        | inr (e, f) ↦ rw (f, append-nil) h1
        | inl (u, f) ↦ elim (Result-cases (p.services.wait_for_rate v).0) [
          | inr (e, g) ↦ rw (f, g, append-nil) (h2 ∙ h1)
          | inl (u', g) ↦
              rw (f, g)
                (send-gains job v'
                  ∙ ap (λ o. o ++ gained p outbox mail job (p.services.send_email job v').0)
                      (h2 ∙ h1))
        ]
      ]

  attempts_from-gains :
      (left attempt : ℕ) (job : EmailJob) (w : W)
      → outbox (attempts_from p.services left attempt job w).1.1
        ≡ outbox w ++ gained p outbox mail job (attempts_from p.services left attempt job w).0
  unfolding attempts_from
  attempts_from-gains zero attempt job w = sym (append-nil _)
  attempts_from-gains (suc left) attempt job w =
      let h = round-gains attempt job w in
      elim (Result-cases (round p.services attempt job w).0) [
        | inr (e, f) ↦ rw (attempts_from, f) (rw f at h)
        | inl (ok u, f) ↦ rw (attempts_from, f) (rw f at h)
        | inl (err e, f) ↦
            let v = (round p.services attempt job w).1 in
            let again = failed_once e (p.services.now v) job in
            let r = (attempts_from p.services left (suc attempt) again v).0 in
            rw (attempts_from, f)
              (attempts_from-gains left (suc attempt) again v
                ∙ ap (λ o. o ++ gained p outbox mail again r) (rw (f, append-nil) at h)
                ∙ ap (λ o. outbox w ++ o)
                    (gained-same p outbox mail again job r (law.same_mail e _ job)))
      ]

  -- The failed emails of a batch only grow, and where none was added every job is in the outbox.
  abbrev pub IsSent :
      List Mail → ProcessMetrics → W → Result (Unit {0}) × (ProcessMetrics × W) → Type 0
  IsSent mails m w (err e, x) = m.failed_emails ≤ x.0.failed_emails
  IsSent mails m w (ok u, x) =
      (m.failed_emails ≤ x.0.failed_emails)
      × (x.0.failed_emails ≡ m.failed_emails → outbox x.1 ≡ outbox w ++ mails)

  -- A batch that sends a job first, and then others.
  IsSent-first :
      (j : EmailJob) (mails : List Mail) (m : ProcessMetrics) (w v : W) (r : Result (Unit {0}))
      (x : Result (Unit {0}) × (ProcessMetrics × W))
      → outbox v ≡ outbox w ++ gained p outbox mail j r
      → IsSent mails (counted_result users p r m) v x
      → IsSent (mail j ∷ mails) m w x
  unfolding counted_result
  IsSent-first j mails m w v (ok u) (err e, x) h le = le
  IsSent-first j mails m w v (err e) (err e', x) h le = omega arith
  IsSent-first j mails m w v (ok u) (ok u', x) h (le, sent) =
      (le, λ same. sent same ∙ ap (λ o. o ++ mails) h ∙ append_assoc _ _ mails)
  IsSent-first j mails m w v (err e) (ok u, x) h (le, sent) =
      (omega arith, λ same. absurd (omega arith))

  pub process_email_batch-IsSent :
      (js : List EmailJob) (m : ProcessMetrics) (w : W)
      → IsSent (map mail js) m w (process_email_batch users p js m w)
  unfolding process_email_batch process_email_with_retry counted_result
  process_email_batch-IsSent [] m w = (omega arith, λ h. sym (append-nil _))
  process_email_batch-IsSent (j ∷ js) m w = elim (Option-cases (p.canceled w)) [
    | inr (e, f) ↦ rw (process_email_batch, f) (omega arith)
    | inl f ↦
        let r = (process_email_with_retry p.services p.max_retries j w).0 in
        let v = (process_email_with_retry p.services p.max_retries j w).1.1 in
        let m' = counted_result users p r m in
        rw (process_email_batch, f)
          (IsSent-first j (map mail js) m w v r _ (attempts_from-gains (rounds p.max_retries) 0 j w)
            (process_email_batch-IsSent js m' v))
  ]
