-- ===== src/Cron/Batches/Schedule.antt =====
-- The batch as the job runs it here is one of the schedules of the worker pool.
use mathlib.Core.List.{append-nil, append_assoc}
use logtrace_backend.Common.{
  ℕ, suc, ◌+◌, ◌<◌, ◌≤◌, ◌≡◌, refl, sym, ◌∙◌, some, none, List, [], ◌∷◌, ◌++◌, length,
  length-append, arith, Option-cases, inl, inr,
}
use logtrace_backend.Domain.{Result, ok, err, User}
use logtrace_backend.Sql.{Table}
use logtrace_backend.Cron.{EmailJob, process_email_with_retry}
use logtrace_backend.Cron.Pool.{
  sending, counted, reported, released, Tally, Pool, all_waiting, no_tally, deliver, give_up,
  report, release, done, start, stop, work, Run, here, next,
}
use logtrace_backend.Cron.Batches.{Processor, ProcessMetrics, counted_result, process_email_batch}

-- The pool between two jobs of one worker.
abbrev between : List EmailJob → Tally → Pool
between js t = record { waiting = js; workers = []; tally = t; dropped = [] }

abbrev add_result : Result (Unit {0}) → Tally → Tally
add_result (ok u) t = record {
  sent = suc t.sent;
  failed = t.failed;
  results = t.results ++ (ok tt ∷ []);
}
add_result (err e) t = record {
  sent = t.sent;
  failed = suc t.failed;
  results = t.results ++ (err e ∷ []);
}

-- The results of the emails of a batch, each tried when the one before has ended, up to the first job
-- before which the context is canceled.
unfoldable pub outcomes :
    {W : Type 0} → Table User W → Processor W → List EmailJob → W → List (Result (Unit {0}))
outcomes users p [] w = []
outcomes users p (j ∷ js) w = elim (p.canceled w) [
  | some e ↦ []
  | none ↦
      let tried = process_email_with_retry p.services p.max_retries j w in
      tried.0 ∷ outcomes users p js tried.1.1
]

-- A run from `p0` to a pool that is done, whose results are those of the tally before and then `rs`,
-- and where the tally grew by what came to the metrics.
pub record IsSchedule (capacity total : ℕ) (p0 : Pool) (t : Tally) (rs : List (Result (Unit {0})))
    (m x : ProcessMetrics) : Type 0 where
  pub steps : ℕ
  pub final : Pool
  pub run : Run capacity total p0 steps final
  pub no_jobs : final.waiting ≡ []
  pub no_workers : final.workers ≡ []
  pub same_results : final.tally.results ≡ t.results ++ rs
  pub same_sent : x.sent_emails + t.sent ≡ m.sent_emails + final.tally.sent
  pub same_failed : x.failed_emails + t.failed ≡ m.failed_emails + final.tally.failed

module _ (capacity total : ℕ) (some_worker : 0 < capacity) (p0 : Pool) where
  -- The five steps of one job.
  one_job :
      (r : Result (Unit {0})) (j : EmailJob) (js : List EmailJob) (t : Tally) {n : ℕ}
      → length t.results < total
      → Run capacity total p0 n (between (j ∷ js) t)
      → (k : ℕ) × Run capacity total p0 k (between js (add_result r t))
  one_job (ok u) j js t room run = (
    _,
    next
        (next
          (next
            (next (next run (start j js refl (omega arith)))
              (work [] [] (sending j) refl (deliver j)))
            (work [] [] (counted (ok tt)) refl (report (ok tt) room)))
          (work [] [] reported refl release))
        (work [] [] released refl done),
  )
  one_job (err e) j js t room run = (
    _,
    next
        (next
          (next
            (next (next run (start j js refl (omega arith)))
              (work [] [] (sending j) refl (give_up j e)))
            (work [] [] (counted (err e)) refl (report (err e) room)))
          (work [] [] reported refl release))
        (work [] [] released refl done),
  )

  module _ {W : Type 0} (users : Table User W) (p : Processor W) where
    after_one :
        (r : Result (Unit {0})) {t : Tally} {rs : List (Result (Unit {0}))} {m x : ProcessMetrics}
        → IsSchedule capacity total p0 (add_result r t) rs (counted_result users p r m) x
        → IsSchedule capacity total p0 t (r ∷ rs) m x
    unfolding counted_result
    after_one (ok u) {t = t} {rs = rs} s =
        let a = s.same_sent in
        let b = s.same_failed in
        record {
          steps = s.steps;
          final = s.final;
          run = s.run;
          no_jobs = s.no_jobs;
          no_workers = s.no_workers;
          same_results = s.same_results ∙ append_assoc t.results (ok tt ∷ []) rs;
          same_sent = omega arith;
          same_failed = omega arith;
        }
    after_one (err e) {t = t} {rs = rs} s =
        let a = s.same_sent in
        let b = s.same_failed in
        record {
          steps = s.steps;
          final = s.final;
          run = s.run;
          no_jobs = s.no_jobs;
          no_workers = s.no_workers;
          same_results = s.same_results ∙ append_assoc t.results (err e ∷ []) rs;
          same_sent = omega arith;
          same_failed = omega arith;
        }

    room_left :
        (r : Result (Unit {0})) (t : Tally) (n : ℕ)
        → length t.results + suc n ≤ total
        → length (add_result r t).results + n ≤ total
    room_left (ok u) t n h = let l = length-append t.results (ok tt ∷ []) in omega arith
    room_left (err e) t n h = let l = length-append t.results (err e ∷ []) in omega arith

    counts_from :
        (js : List EmailJob) (t : Tally) (m : ProcessMetrics) (w : W) {n : ℕ}
        → length t.results + length js ≤ total
        → Run capacity total p0 n (between js t)
        → IsSchedule capacity total p0 t
            (outcomes users p js w)
            m
            (process_email_batch users p js m w).1.0
    unfolding process_email_batch outcomes
    counts_from [] t m w room run = record {
      steps = _;
      final = between [] t;
      run = run;
      no_jobs = refl;
      no_workers = refl;
      same_results = sym (append-nil _);
      same_sent = refl;
      same_failed = refl;
    }
    counts_from (j ∷ js) t m w room run = elim (Option-cases (p.canceled w)) [
      | inr (e, f) ↦
          rw (process_email_batch, outcomes, f)
            (record {
              steps = _;
              final = _;
              run = next run (stop j js refl);
              no_jobs = refl;
              no_workers = refl;
              same_results = sym (append-nil _);
              same_sent = refl;
              same_failed = refl;
            })
      | inl f ↦
          let tried = process_email_with_retry p.services p.max_retries j w in
          let (k, further) = one_job tried.0 j js t (omega arith) run in
          rw (process_email_batch, outcomes, f)
            (after_one tried.0 (
              counts_from js (add_result tried.0 t) (counted_result users p tried.0 m) tried.1.1
                (room_left tried.0 t (length js) room) further))
    ]

-- With one worker at least, some run of the pool over the jobs of a batch goes to its end and has the
-- results that the emails of the batch have one after the other, up to the first job before which the
-- context is canceled; and the batch counts as sent and as failed what this run counts.
pub process_email_batch-IsSchedule :
    (capacity : ℕ) {W : Type 0} (users : Table User W) (p : Processor W) (jobs : List EmailJob)
    (m : ProcessMetrics) (w : W)
    → 0 < capacity
    → IsSchedule capacity
        (length jobs)
        (all_waiting jobs)
        no_tally
        (outcomes users p jobs w)
        m
        (process_email_batch users p jobs m w).1.0
process_email_batch-IsSchedule capacity users p jobs m w some_worker =
    counts_from capacity (length jobs) some_worker (all_waiting jobs) users p jobs no_tally m w
      (omega arith) here
