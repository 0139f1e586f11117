-- ===== src/Cron/Pool.antt =====
-- processEmailBatch: the loop that starts the workers and the workers, interleaved in any order. The
-- semaphore `workerPool` has `capacity` slots, the channel `results` one for each of `total` jobs. A
-- worker's email is sent or given up, whichever it is (process_email_with_retry says when).
pub mod Counts
pub mod Places
pub mod Runs
use logtrace_backend.Common.{ℕ, suc, ◌+◌, ◌<◌, ◌≡◌, List, [], ◌∷◌, ◌++◌, length}
use logtrace_backend.Domain.{Error, Result, ok, err}
use logtrace_backend.Cron.{EmailJob}

-- Where a worker is: in processEmailWithRetry, before `results <-`, before the deferred
-- `<-workerPool`, and before the deferred `wg.Done()`.
pub data Worker : Type 0 where
  sending : EmailJob → Worker
  counted : Result (Unit {0}) → Worker
  reported released : Worker

-- The counters of ProcessMetrics and the channel of results.
pub record Tally : Type 0 where
  pub sent : ℕ
  pub failed : ℕ
  pub results : List (Result (Unit {0}))

-- The jobs that the loop has not come to, the workers that are not done, and the jobs that the loop
-- left behind when it saw `ctx.Done()`.
pub record Pool : Type 0 where
  pub waiting : List EmailJob
  pub workers : List Worker
  pub tally : Tally
  pub dropped : List EmailJob

abbrev pub no_tally : Tally
no_tally = record { sent = 0; failed = 0; results = [] }

abbrev pub all_waiting : List EmailJob → Pool
all_waiting jobs = record { waiting = jobs; workers = []; tally = no_tally; dropped = [] }

-- The slots of the semaphore that a worker takes.
abbrev pub slot : Worker → ℕ
slot (sending j) = 1
slot (counted r) = 1
slot reported = 1
slot released = 0

abbrev pub sum : (Worker → ℕ) → List Worker → ℕ
sum f [] = 0
sum f (x ∷ xs) = f x + sum f xs

-- One step of a worker: what it leaves of the tally and of itself. `results <-` waits for room.
pub data Move (total : ℕ) (t : Tally) : Worker → Tally → List Worker → Type 0 where
  deliver :
      (j : EmailJob)
      → Move total t (sending j) (record t { sent = suc t.sent }) (counted (ok tt) ∷ [])
  give_up :
      (j : EmailJob) (e : Error)
      → Move total t (sending j) (record t { failed = suc t.failed }) (counted (err e) ∷ [])
  report :
      (r : Result (Unit {0}))
      → length t.results < total
      → Move total t (counted r) (record t { results = t.results ++ (r ∷ []) }) (reported ∷ [])
  release : Move total t reported t (released ∷ [])
  done : Move total t released t []

pub data Step (capacity total : ℕ) (p : Pool) : Pool → Type 0 where
  start :
      (j : EmailJob) (js : List EmailJob)
      → p.waiting ≡ j ∷ js
      → sum slot p.workers < capacity
      → Step capacity total p (record p { waiting = js; workers = sending j ∷ p.workers })
  stop :
      (j : EmailJob) (js : List EmailJob)
      → p.waiting ≡ j ∷ js
      → Step capacity total p (record p { waiting = []; dropped = j ∷ js })
  work :
      (before after : List Worker) (x : Worker) {t : Tally} {xs : List Worker}
      → p.workers ≡ before ++ (x ∷ after)
      → Move total p.tally x t xs
      → Step capacity total p (record p { workers = before ++ (xs ++ after); tally = t })

-- A run of so many steps.
pub data Run (capacity total : ℕ) (p : Pool) : ℕ → Pool → Type 0 where
  here : Run capacity total p 0 p
  next :
      {n : ℕ} {q r : Pool}
      → Run capacity total p n q
      → Step capacity total q r
      → Run capacity total p (suc n) r
