-- ===== src/Cron/Batches/Jobs.antt =====
-- The jobs that are made for users, and what a batch of them does to the metrics; neither writes the
-- table of users.
use logtrace_backend.Common.{
  ℕ, zero, suc, ◌+◌, ◌≡◌, refl, ◌∙◌, List, [], ◌∷◌, length, arith, nat_eq, Option-cases, ◌⊎◌, inl,
  inr,
}
use logtrace_backend.Common.Int.{ℤ}
use logtrace_backend.Domain.{
  Result, ok, err, IsErr, Result-cases, User, EmailVerification, new_email_verification,
}
use logtrace_backend.Sql.{Table}
use logtrace_backend.Cron.{
  EmailJob, backoff, before, round, attempts_from, rounds, process_email_with_retry,
}
use logtrace_backend.Cron.Batches.{
  Processor, ProcessMetrics, create_email_job, create_email_jobs, counted_result,
  process_email_batch,
}

module _ {W : Type 0} (p : Processor W) (rows : W → List User) where
  -- No call of the processor writes the table of users.
  pub record IsApart : Type 0 where
    pub random : (w : W) → rows (p.random w).1 ≡ rows w
    pub store : (v : EmailVerification) (w : W) → rows (p.store_verification v w).1 ≡ rows w
    pub rate : (w : W) → rows (p.services.wait_for_rate w).1 ≡ rows w
    pub retry : (d : ℤ) (w : W) → rows (p.services.wait_for_retry d w).1 ≡ rows w
    pub send : (job : EmailJob) (w : W) → rows (p.services.send_email job w).1 ≡ rows w

module _ {W : Type 0} (users : Table User W) (p : Processor W) (rows : W → List User)
    (apart : IsApart p rows) where
  before-apart : (n : ℕ) (w : W) → rows (before p.services n w).1 ≡ rows w
  unfolding before
  before-apart zero w = refl
  before-apart (suc n) w = apart.retry (backoff (suc n)) w

  round-apart : (n : ℕ) (job : EmailJob) (w : W) → rows (round p.services n job w).1 ≡ rows w
  unfolding round
  round-apart n job w =
      let v = (before p.services n w).1 in
      let h1 = before-apart n w in
      let h2 = apart.rate v in
      let h3 = apart.send job (p.services.wait_for_rate v).1 in
      elim (Result-cases (before p.services n w).0) [
        | inr (e, f) ↦ rw f h1
        | inl (u, f) ↦ elim (Result-cases (p.services.wait_for_rate v).0) [
          | inr (e, g) ↦ rw (f, g) (h2 ∙ h1)
          | inl (u', g) ↦ rw (f, g) (h3 ∙ h2 ∙ h1)
        ]
      ]

  attempts-apart :
      (left attempt : ℕ) (job : EmailJob) (w : W)
      → rows (attempts_from p.services left attempt job w).1.1 ≡ rows w
  unfolding attempts_from
  attempts-apart zero attempt job w = refl
  attempts-apart (suc left) attempt job w =
      let h = round-apart attempt job w in
      elim (Result-cases (round p.services attempt job w).0) [
        | inr (e, f) ↦ rw (attempts_from, f) h
        | inl (ok u, f) ↦ rw (attempts_from, f) h
        | inl (err e, f) ↦ rw (attempts_from, f) (attempts-apart left (suc attempt) _ _ ∙ h)
      ]

  job-apart : (u : User) (w : W) → rows (create_email_job users p u w).1 ≡ rows w
  unfolding create_email_job
  job-apart u w = elim (Result-cases (new_email_verification (p.random w).0 u)) [
    | inr (e, f) ↦ rw f (apart.random w)
    | inl (v, f) ↦
        let stored = apart.store v (p.random w).1 ∙ apart.random w in
        elim (Result-cases (p.store_verification v (p.random w).1).0) [
          | inr (e, g) ↦ rw (f, g) stored
          | inl (tok, g) ↦ rw (f, g) stored
        ]
  ]

  -- The jobs leave the users as they were, and are as many as these where none fails.
  pub jobs_made :
      (us : List User) (w : W)
      → (rows (create_email_jobs users p us w).1 ≡ rows w)
        × ((js : List EmailJob)
            → (create_email_jobs users p us w).0 ≡ ok js
            → length js ≡ length us)
  unfolding create_email_jobs
  jobs_made [] w = (refl, λ js h. cc)
  jobs_made (u ∷ us) w =
      let v = (create_email_job users p u w).1 in
      let kept = job-apart u w in
      let (kept_later, as_many) = jobs_made us v in
      elim (Result-cases (create_email_job users p u w).0) [
        | inr (e, f) ↦ rw (create_email_jobs, f) (kept, λ js h. absurd (cc))
        | inl (job, f) ↦ elim (Result-cases (create_email_jobs users p us v).0) [
          | inr (e, g) ↦ rw (create_email_jobs, f, g) (kept_later ∙ kept, λ js h. absurd (cc))
          | inl (jobs, g) ↦
              let counted = as_many jobs g in
              rw (create_email_jobs, f, g) (kept_later ∙ kept, λ js h. ground arith)
        ]
      ]

  -- What a batch does to the metrics and the users, told by its result.
  abbrev pub IsBatch : ℕ → ProcessMetrics → W → Result (Unit {0}) × (ProcessMetrics × W) → Type 0
  IsBatch n m w x =
      (rows x.1.1 ≡ rows w)
      × (x.1.0.total_emails ≡ m.total_emails)
      × (IsErr x.0
          ⊎ (x.1.0.sent_emails + x.1.0.failed_emails ≡ m.sent_emails + m.failed_emails + n))

  counted_result_adds :
      (r : Result (Unit {0})) (m : ProcessMetrics)
      → ((counted_result users p r m).total_emails ≡ m.total_emails)
        × ((counted_result users p r m).sent_emails + (counted_result users p r m).failed_emails
            ≡ suc (m.sent_emails + m.failed_emails))
  unfolding counted_result
  counted_result_adds (ok u) m = (refl, omega arith)
  counted_result_adds (err e) m = (refl, omega arith)

  pub process_email_batch-IsBatch :
      (js : List EmailJob) (m : ProcessMetrics) (w : W)
      → IsBatch (length js) m w (process_email_batch users p js m w)
  unfolding process_email_batch process_email_with_retry counted_result
  process_email_batch-IsBatch [] m w = (refl, refl, inr (omega arith))
  process_email_batch-IsBatch (j ∷ js) m w = elim (Option-cases (p.canceled w)) [
    | inr (e, f) ↦ rw (process_email_batch, f) (refl, refl, inl tt)
    | inl f ↦
        let r = (process_email_with_retry p.services p.max_retries j w).0 in
        let v = (process_email_with_retry p.services p.max_retries j w).1.1 in
        let sent = attempts-apart (rounds p.max_retries) 0 j w in
        let (kept, same, later) = process_email_batch-IsBatch js (counted_result users p r m) v in
        let one = counted_result_adds r m in
        rw (process_email_batch, f)
          (
            kept ∙ sent,
            same ∙ one.0,
            elim later [ inl failed ↦ inl failed | inr all ↦ inr (let h = one.1 in omega arith) ],
          )
  ]
