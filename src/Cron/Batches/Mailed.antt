-- ===== src/Cron/Batches/Mailed.antt =====
-- Whom the job that mails pending users has mailed when it ends without an error.
use mathlib.Core.List.{append_assoc, append-nil, map-append}
use Prim.Native.String.{String}
use logtrace_backend.Common.{
  ℕ, zero, suc, ◌+◌, ◌<◌, ◌≤◌, ◌≡◌, refl, ap, sym, ◌∙◌, subst, some, List, [], ◌∷◌, ◌++◌, map,
  length, take, drop, filter, arith, ◌==◌, ==_iff, nat_eq, Bool-cases, ◌⊎◌, inl, inr,
}
use logtrace_backend.Common.Int.{pos}
use logtrace_backend.Domain.{Result, ok, err, IsErr, Result-cases, User, new_email_verification}
use logtrace_backend.Sql.{Predicate, Table}
use logtrace_backend.Sql.Laws.{IsTable, matches}
use logtrace_backend.Cron.{EmailJob}
use logtrace_backend.Cron.Batches.Jobs.{IsApart}
use logtrace_backend.Cron.Batches.Outbox.{IsOutbox, IsSent, process_email_batch-IsSent}
use logtrace_backend.Cron.Batches.Coverage.{
  pending, fetched, process_batch_turn, process_pending_users_ends,
}
use logtrace_backend.Cron.Batches.{
  Processor, ProcessMetrics, no_metrics, pending_conditions, fetch_pending_users,
  prepare_verification_email, create_email_job, create_email_jobs, process_email_batch,
  process_batch, process_from, process_pending_users, report,
}

take_splits :
    {A : Type 0} (n : ℕ) (xs page : List A) → page ≡ take n xs → xs ≡ page ++ drop (length page) xs
take_splits zero xs page e = rw e refl
take_splits (suc n) [] page e = rw e refl
take_splits (suc n) (x ∷ xs) page e = rw e (ap (λ ys. x ∷ ys) (take_splits n xs _ refl))

drop_nil : {A : Type 0} (n : ℕ) → drop {A = A} n [] ≡ []
drop_nil zero = refl
drop_nil (suc n) = refl

drop-drop : {A : Type 0} (m k : ℕ) (xs : List A) → drop m (drop k xs) ≡ drop (k + m) xs
drop-drop m zero xs = ap (λ j. drop j xs) (omega arith)
drop-drop m (suc k) [] = drop_nil m ∙ sym (drop_nil (suc k + m))
drop-drop m (suc k) (x ∷ xs) =
    drop-drop m k xs
    ∙ ap (λ j. drop j (x ∷ xs)) (let e : suc (k + m) ≡ suc k + m = omega arith in e)

unwrapped : {A : Type 0} {a b : A} → ok a ≡ ok b → a ≡ b
unwrapped h = cc

empty_page : {A : Type 0} (n : ℕ) (xs : List A) → [] ≡ take (suc n) xs → xs ≡ []
empty_page n [] e = refl
empty_page n (x ∷ xs) e = absurd (cc)

module _ {W : Type 0} (users : Table User W) (p : Processor W) where
  -- The job that is made for a user, with some token in its link.
  abbrev pub IsJobFor : User → EmailJob → Type 0
  IsJobFor u job =
      (job.recipient ≡ u)
      × (job.subject ≡ "Verify your account to get started with Logtrace")
      × ((token : String) × (prepare_verification_email users p u token ≡ ok job.content))

  -- One job for each user, in the same order.
  abbrev pub EachFor : List User → List EmailJob → Type 0
  EachFor [] [] = Unit
  EachFor [] (j ∷ js) = ⊥
  EachFor (u ∷ us) [] = ⊥
  EachFor (u ∷ us) (j ∷ js) = IsJobFor u j × EachFor us js

  EachFor-append :
      (us vs : List User) (js ks : List EmailJob)
      → EachFor us js
      → EachFor vs ks
      → EachFor (us ++ vs) (js ++ ks)
  EachFor-append [] vs [] ks h g = g
  EachFor-append [] vs (j ∷ js) ks h g = absurd h
  EachFor-append (u ∷ us) vs [] ks h g = absurd h
  EachFor-append (u ∷ us) vs (j ∷ js) ks (h, hs) g = (h, EachFor-append us vs js ks hs g)

module _ {W Mail : Type 0} (users : Table User W) (p : Processor W) (outbox : W → List Mail)
    (mail : EmailJob → Mail) (law : IsOutbox p outbox mail) where
  job_made :
      (u : User) (w : W)
      → (outbox (create_email_job users p u w).1 ≡ outbox w)
        × ((job : EmailJob) → (create_email_job users p u w).0 ≡ ok job → IsJobFor users p u job)
  unfolding create_email_job
  job_made u w = elim (Result-cases (new_email_verification (p.random w).0 u)) [
    | inr (e, f) ↦ rw f (law.random w, λ job h. absurd (cc))
    | inl (v, f) ↦
        let stored = law.store v (p.random w).1 ∙ law.random w in
        elim (Result-cases (p.store_verification v (p.random w).1).0) [
          | inr (e, g) ↦ rw (f, g) (stored, λ job h. absurd (cc))
          | inl (tok, g) ↦ elim (Result-cases (prepare_verification_email users p u v.token)) [
            | inr (e, k) ↦ rw (f, g, k) (stored, λ job h. absurd (cc))
            | inl (content, k) ↦
                rw (f, g, k)
                  (
                    stored,
                    λ job h.
                        let same = unwrapped h in
                        (
                          sym (ap (λ j. j.recipient) same),
                          sym (ap (λ j. j.subject) same),
                          (v.token, k ∙ ap (λ j. ok j.content) same),
                        ),
                  )
          ]
        ]
  ]

  jobs_made :
      (us : List User) (w : W)
      → (outbox (create_email_jobs users p us w).1 ≡ outbox w)
        × ((js : List EmailJob)
            → (create_email_jobs users p us w).0 ≡ ok js
            → EachFor users p us js)
  unfolding create_email_jobs
  jobs_made [] w = (refl, λ js h. subst (EachFor users p []) (unwrapped h) tt)
  jobs_made (u ∷ us) w =
      let v = (create_email_job users p u w).1 in
      let (kept, made) = job_made u w in
      let (kept_later, made_later) = jobs_made us v in
      elim (Result-cases (create_email_job users p u w).0) [
        | inr (e, f) ↦ rw (create_email_jobs, f) (kept, λ js h. absurd (cc))
        | inl (job, f) ↦ elim (Result-cases (create_email_jobs users p us v).0) [
          | inr (e, g) ↦ rw (create_email_jobs, f, g) (kept_later ∙ kept, λ js h. absurd (cc))
          | inl (jobs, g) ↦
              rw (create_email_jobs, f, g)
                (
                  kept_later ∙ kept,
                  λ js h.
                      subst (EachFor users p (u ∷ us)) (unwrapped h)
                        (made job f, made_later jobs g),
                )
        ]
      ]

  -- What the outbox gained where no email failed: an email for each user, in their order.
  abbrev pub IsMailed : List User → W → W → Type 0
  IsMailed us w v =
      (js : List EmailJob) × EachFor users p us js × (outbox v ≡ outbox w ++ map mail js)

  abbrev IsTurn :
      List User → ProcessMetrics → W → Result ProcessMetrics × (ProcessMetrics × W) → Type 0
  IsTurn us m w (err e, x) = Unit
  IsTurn us m w (ok m', x) =
      (m.failed_emails ≤ m'.failed_emails)
      × (m'.failed_emails ≡ m.failed_emails → IsMailed us w x.1)

  process_batch-IsTurn :
      (us : List User) (m : ProcessMetrics) (w : W) → IsTurn us m w (process_batch users p us m w)
  unfolding process_batch
  process_batch-IsTurn us m w =
      let v = (create_email_jobs users p us w).1 in
      let (kept, made) = jobs_made us w in
      elim (Result-cases (create_email_jobs users p us w).0) [
        | inr (e, f) ↦ rw f tt
        | inl ([], f) ↦ rw f (omega arith, λ h. ([], made [] f, kept ∙ sym (append-nil _)))
        | inl (j ∷ js, f) ↦
            let started : ProcessMetrics = record m {
              total_emails = m.total_emails + length (j ∷ js);
            } in
            let sent = process_email_batch-IsSent users p outbox mail law (j ∷ js) started v in
            elim (Result-cases (process_email_batch users p (j ∷ js) started v).0) [
              | inr (e, g) ↦ rw (f, g) tt
              | inl (u, g) ↦
                  let (le, all_sent) : IsSent users p outbox mail law (map mail (j ∷ js)) started v
                      (ok u, (process_email_batch users p (j ∷ js) started v).1) =
                    rw g at sent in
                  rw (f, g)
                    (
                      le,
                      λ h. (
                        j ∷ js,
                        made (j ∷ js) f,
                        all_sent h ∙ ap (λ o. o ++ map mail (j ∷ js)) kept,
                      ),
                    )
            ]
      ]

  IsMailed-append :
      (us vs : List User) (w v x : W) → IsMailed us w v → IsMailed vs v x → IsMailed (us ++ vs) w x
  IsMailed-append us vs w v x (js, each, gained) (ks, each', gained') = (
    js ++ ks,
    EachFor-append users p us vs js ks each each',
    gained'
        ∙ ap (λ o. o ++ map mail ks) gained
        ∙ append_assoc (outbox w) _ _
        ∙ ap (λ o. outbox w ++ o) (sym (map-append mail js ks)),
  )

  module _ (rows : W → List User) (apart : IsApart p rows) (sorted : String → List User → List User)
      (set : List Predicate → User → User) (table : IsTable users rows sorted set) (n : ℕ)
      (sized : p.batch_size ≡ pos (suc n)) where
    -- The users that are pending at the start.
    abbrev pub waiting : W → List User
    waiting w = pending users p rows apart sorted set table n sized w

    waiting-same : (w v : W) → rows v ≡ rows w → waiting v ≡ waiting w
    waiting-same w v h =
        ap
          (λ x. sorted "created_at ASC, id ASC" (filter (matches users.holds pending_conditions) x))
          h

    report_ok : (m : ProcessMetrics) (u : Unit {0}) → report users p m ≡ ok u → m.failed_emails ≡ 0
    unfolding report
    report_ok m u h = elim (Bool-cases (m.failed_emails == 0)) [
      | inl e ↦ (==_iff m.failed_emails 0).0 e
      | inr e ↦ absurd (let g = rw e at h in cc)
    ]

    process_from-IsMailed :
        (fuel k : ℕ) (m m' : ProcessMetrics) (w v : W)
        → process_from users p fuel k m w ≡ some (ok tt, (m', v))
        → (m.failed_emails ≡ 0) × IsMailed (drop k (waiting w)) w v
    unfolding process_from
    process_from-IsMailed zero k m m' w v h = absurd (cc)
    process_from-IsMailed (suc fuel) k m m' w v h =
        elim (Result-cases (fetch_pending_users users p k w)) [
          | inr (e, f) ↦ absurd (let g = rw (process_from, f) at h in cc)
          | inl ([], f) ↦
              let g = rw (process_from, f) at h in
              let reported : report users p m ≡ ok tt = cc in
              let stays : w ≡ v = cc in
              let last =
                empty_page n _ (fetched users p rows apart sorted set table n sized k w [] f) in
              (
                report_ok m tt reported,
                subst (λ us. IsMailed us w v) (sym last)
                    ([], tt, ap outbox (sym stays) ∙ sym (append-nil _)),
              )
          | inl (u ∷ us, f) ↦
              let g = rw (process_from, f) at h in
              let page = fetched users p rows apart sorted set table n sized k w (u ∷ us) f in
              let v1 = (process_batch users p (u ∷ us) m w).1.1 in
              let splits : drop k (waiting w)
                  ≡ (u ∷ us) ++ drop (k + length (u ∷ us)) (waiting v1) =
                take_splits (suc n) _ _ page
                ∙ ap (λ ys. (u ∷ us) ++ ys)
                    (drop-drop _ k (waiting w)
                      ∙ ap (drop (k + length (u ∷ us))) (
                          sym (
                            waiting-same w v1
                              (process_batch_turn users p rows apart (u ∷ us) m w).0))) in
              let turn = process_batch-IsTurn (u ∷ us) m w in
              elim (Result-cases (process_batch users p (u ∷ us) m w).0) [
                | inr (e, q) ↦ absurd (let g' = rw q at g in cc)
                | inl (m1, q) ↦
                    let (none_failed, later) =
                      process_from-IsMailed fuel (k + length (u ∷ us)) m1 m' v1 v (rw q at g) in
                    let (le, sent) : IsTurn (u ∷ us) m w
                        (ok m1, (process_batch users p (u ∷ us) m w).1) =
                      rw q at turn in
                    (
                      omega arith,
                      subst (λ xs. IsMailed xs w v) (sym splits)
                          (IsMailed-append (u ∷ us) _ w v1 v (sent (omega arith)) later),
                    )
              ]
        ]

    -- With more fuel than pending users the job ends, by an error or with an email to each of them.
    pub process_pending_users-IsMailed :
        (fuel : ℕ) (w : W)
        → length (waiting w) < fuel
        → (r : Result (Unit {0}) × (ProcessMetrics × W)) × (process_pending_users users p fuel w
            ≡ some r)
          × (IsErr r.0 ⊎ IsMailed (waiting w) w r.1.1)
    unfolding process_pending_users
    process_pending_users-IsMailed fuel w enough =
        let ((r, (m, v)), ends, how) =
          process_pending_users_ends users p rows apart sorted set table n sized fuel w enough in
        elim (Result-cases r) [
          | inr (e, f) ↦ ((r, (m, v)), ends, inl (rw f tt))
          | inl (u, f) ↦
              let success = ends ∙ ap (λ x. some (x, (m, v))) f in
              ((r, (m, v)), ends, inr (process_from-IsMailed fuel 0 no_metrics m w v success).1)
        ]
