-- ===== src/Cron/Pool/Runs.antt =====
-- What every schedule of the worker pool has in common.
use logtrace_backend.Common.{
  ℕ, ◌+◌, ◌*◌, ◌<◌, ◌≤◌, ◌≡◌, refl, ap, List, [], ◌∷◌, length, arith, ◌⊎◌, inl, inr,
}
use logtrace_backend.Cron.{EmailJob}
use logtrace_backend.Cron.Pool.{
  Worker, sending, counted, reported, released, Pool, all_waiting, slot, sum, deliver, report,
  release, done, Step, start, work, Run, here, next,
}
use logtrace_backend.Cron.Pool.Counts.{
  uncounted, unreported, IsConsistent, Step-IsConsistent, pool_steps_left, Step-shorter,
}

module _ (capacity : ℕ) (jobs : List EmailJob) where
  -- In any run over the jobs at most `capacity` emails are under way, the numbers of jobs at each place
  -- add up to the jobs, and
  -- every email that was counted has one result.
  pub Run-IsConsistent :
      {n : ℕ} {p : Pool}
      → Run capacity (length jobs) (all_waiting jobs) n p
      → IsConsistent capacity (length jobs) p
  Run-IsConsistent here = record {
    bounded = omega arith;
    kept = omega arith;
    matched = refl;
    undropped = inr refl;
  }
  Run-IsConsistent (next run step) = Step-IsConsistent step (Run-IsConsistent run)

  Run-length :
      {n : ℕ} {p : Pool}
      → Run capacity (length jobs) (all_waiting jobs) n p
      → n + pool_steps_left p ≤ 5 * length jobs
  Run-length here = omega arith
  Run-length (next run step) =
      let before = Run-length run in let shorter = Step-shorter step in omega arith

  abbrev CanStep : Pool → Type 0
  CanStep p = (q : Pool) × Step capacity (length jobs) p q

  worker_steps :
      (p : Pool) (ws : List Worker)
      → p.workers ≡ ws
      → IsConsistent capacity (length jobs) p
      → (ws ≡ []) ⊎ CanStep p
  worker_steps p [] e c = inl refl
  worker_steps p (sending j ∷ ws) e c = inr (_, work [] ws (sending j) e (deliver j))
  worker_steps p (counted r ∷ ws) e c =
      let own = ap (sum unreported) e in
      let kept = c.kept in
      let matched = c.matched in inr (_, work [] ws (counted r) e (report r (omega arith)))
  worker_steps p (reported ∷ ws) e c = inr (_, work [] ws reported e release)
  worker_steps p (released ∷ ws) e c = inr (_, work [] ws released e done)

  loop_steps :
      (p : Pool) (js : List EmailJob)
      → p.waiting ≡ js
      → p.workers ≡ []
      → 0 < capacity
      → (js ≡ []) ⊎ CanStep p
  loop_steps p [] e idle some_worker = inl refl
  loop_steps p (j ∷ js) e idle some_worker =
      let none_busy = ap (sum slot) idle in inr (_, start j js e (omega arith))

  -- What the pool leaves: nothing waits or runs, every job that was not dropped is counted as sent or
  -- as failed, and the channel holds one result for each.
  pub record IsFinished (p : Pool) : Type 0 where
    pub no_jobs : p.waiting ≡ []
    pub no_workers : p.workers ≡ []
    pub all_counted : p.tally.sent + p.tally.failed + length p.dropped ≡ length jobs
    pub all_reported : length p.tally.results ≡ p.tally.sent + p.tally.failed

  finished :
      (p : Pool)
      → IsConsistent capacity (length jobs) p
      → p.waiting ≡ []
      → p.workers ≡ []
      → IsFinished p
  finished p c empty idle =
      let kept = c.kept in
      let matched = c.matched in
      let n = ap length empty in
      let u = ap (sum uncounted) idle in
      let v = ap (sum unreported) idle in
      record {
        no_jobs = empty;
        no_workers = idle;
        all_counted = omega arith;
        all_reported = omega arith;
      }

  -- With one worker at least, a run has at most five steps a job, whatever its schedule, and it has
  -- finished the batch or goes on: no worker waits for ever.
  pub Run-ends :
      {n : ℕ} {p : Pool}
      → 0 < capacity
      → Run capacity (length jobs) (all_waiting jobs) n p
      → (n ≤ 5 * length jobs) × (IsFinished p ⊎ CanStep p)
  Run-ends {p = p} some_worker run =
      let size = Run-length run in
      let c = Run-IsConsistent run in
      (
        omega arith,
        elim (worker_steps p p.workers refl c) [
          | inr step ↦ inr step
          | inl idle ↦ elim (loop_steps p p.waiting refl idle some_worker) [
            | inr step ↦ inr step
            | inl empty ↦ inl (finished p c empty idle)
          ]
        ],
      )
