-- ===== src/Cron/Pool/Places.antt =====
-- Where the jobs of a batch are in the runs of the worker pool.
use logtrace_backend.Common.{
  ℕ, ◌+◌, ◌≤◌, ◌≡◌, refl, ap, List, [], ◌∷◌, ◌++◌, length, length-append, arith, inl, inr,
}
use logtrace_backend.Cron.{EmailJob}
use logtrace_backend.Cron.Pool.{
  Worker, sending, counted, reported, released, Tally, Pool, all_waiting, slot, sum, Move, deliver,
  give_up, report, release, done, Step, start, stop, work, Run, here, next,
}
use logtrace_backend.Cron.Pool.Counts.{IsConsistent, unreported, split_sum, split_workers}
use logtrace_backend.Cron.Pool.Runs.{Run-IsConsistent}

-- A number that is told of each job, added up.
abbrev pub weigh : (EmailJob → ℕ) → List EmailJob → ℕ
weigh f [] = 0
weigh f (j ∷ js) = f j + weigh f js

weigh-append :
    (f : EmailJob → ℕ) (xs ys : List EmailJob) → weigh f (xs ++ ys) ≡ weigh f xs + weigh f ys
weigh-append f [] ys = omega arith
weigh-append f (x ∷ xs) ys = let ih = weigh-append f xs ys in omega arith

weigh-empty : (f : EmailJob → ℕ) (js : List EmailJob) → length js ≡ 0 → weigh f js ≡ 0
weigh-empty f [] h = refl
weigh-empty f (j ∷ js) h = absurd (omega arith)

abbrev pub under_way : (EmailJob → ℕ) → Worker → ℕ
under_way f (sending j) = f j
under_way f (counted r) = 0
under_way f reported = 0
under_way f released = 0

-- The jobs whose email came to its end, sent or given up.
abbrev pub ended_in_move :
    {total : ℕ} {x : Worker} {xs : List Worker} {t u : Tally} → Move total t x u xs → List EmailJob
ended_in_move (deliver j) = j ∷ []
ended_in_move (give_up j e) = j ∷ []
ended_in_move (report r room) = []
ended_in_move release = []
ended_in_move done = []

abbrev pub ended_in_step :
    {capacity total : ℕ} {p q : Pool} → Step capacity total p q → List EmailJob
ended_in_step (start j js head free) = []
ended_in_step (stop j js head) = []
ended_in_step (work before after x at_x move) = ended_in_move move

abbrev pub ended_in :
    {capacity total : ℕ} {p : Pool} {n : ℕ} {q : Pool} → Run capacity total p n q → List EmailJob
ended_in here = []
ended_in (next run step) = ended_in run ++ ended_in_step step

-- A worker's job stays with it until its email comes to its end, which is counted.
Move-weighs :
    {total : ℕ} {x : Worker} {xs : List Worker} {t u : Tally} (f : EmailJob → ℕ)
    (move : Move total t x u xs)
    → (sum (under_way f) xs + weigh f (ended_in_move move) ≡ under_way f x)
      × (u.sent + u.failed ≡ t.sent + t.failed + length (ended_in_move move))
Move-weighs f (deliver j) = (omega arith, omega arith)
Move-weighs f (give_up j e) = (omega arith, omega arith)
Move-weighs f (report r room) = (refl, omega arith)
Move-weighs f release = (refl, omega arith)
Move-weighs f done = (refl, omega arith)

abbrev placed : (EmailJob → ℕ) → Pool → ℕ
placed f p = weigh f p.waiting + weigh f p.dropped + sum (under_way f) p.workers

Step-weighs :
    {capacity total : ℕ} {p q : Pool} (f : EmailJob → ℕ) (step : Step capacity total p q)
    → IsConsistent capacity total p
    → (placed f q + weigh f (ended_in_step step) ≡ placed f p)
      × (q.tally.sent + q.tally.failed
          ≡ p.tally.sent + p.tally.failed + length (ended_in_step step))
Step-weighs f (start j js head free) c = let h = ap (weigh f) head in (omega arith, omega arith)
Step-weighs {p = p} f (stop j js head) c =
    let h = ap (weigh f) head in
    let n = ap length head in
    elim c.undropped [
      | inl none_waits ↦ absurd (omega arith)
      | inr none_left ↦ let empty = weigh-empty f p.dropped none_left in (omega arith, omega arith)
    ]
Step-weighs {p = p} f (work before after x {xs = xs} at_x move) c =
    let (own, grown) = Move-weighs f move in
    let a = split_workers (under_way f) p before after x at_x in
    let b = split_sum (under_way f) before xs after in (omega arith, grown)

module _ (capacity : ℕ) (jobs : List EmailJob) where
  -- Each job is where `weigh` finds it, and each email that ended is counted and has one result, in
  -- the channel or about to be.
  pub record IsPlaced (p : Pool) (ended : List EmailJob) : Type 0 where
    pub at_one_place :
        (f : EmailJob → ℕ)
        → weigh f p.waiting + weigh f p.dropped + sum (under_way f) p.workers + weigh f ended
          ≡ weigh f jobs
    pub counted_once : p.tally.sent + p.tally.failed ≡ length ended
    pub one_result : length p.tally.results + sum unreported p.workers ≡ length ended
    pub bounded : sum slot p.workers ≤ capacity

  Run-weighs :
      {n : ℕ} {p : Pool} (f : EmailJob → ℕ)
      (run : Run capacity (length jobs) (all_waiting jobs) n p)
      → (placed f p + weigh f (ended_in run) ≡ weigh f jobs)
        × (p.tally.sent + p.tally.failed ≡ length (ended_in run))
  Run-weighs f here = (omega arith, refl)
  Run-weighs f (next run step) =
      let (ih, counts) = Run-weighs f run in
      let (h, more) = Step-weighs f step (Run-IsConsistent capacity jobs run) in
      let w = weigh-append f (ended_in run) (ended_in_step step) in
      let l = length-append (ended_in run) (ended_in_step step) in (omega arith, omega arith)

  -- In any run of the pool every job of the batch is at one place, as often as it is in the batch:
  -- waiting, left behind, with a worker that mails it, or among those whose email ended. The counters
  -- of sent and failed emails count the latter, each of which has one result; and at most `capacity`
  -- workers hold a slot.
  pub Run-IsPlaced :
      {n : ℕ} {p : Pool} (run : Run capacity (length jobs) (all_waiting jobs) n p)
      → IsPlaced p (ended_in run)
  Run-IsPlaced run =
      let c = Run-IsConsistent capacity jobs run in
      let counts = (Run-weighs (λ j. 0) run).1 in
      let matched = c.matched in
      record {
        at_one_place = λ f. (Run-weighs f run).0;
        counted_once = counts;
        one_result = omega arith;
        bounded = c.bounded;
      }
