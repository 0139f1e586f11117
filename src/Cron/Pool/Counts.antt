-- ===== src/Cron/Pool/Counts.antt =====
-- What one step of the worker pool does to the numbers of its emails and results.
use logtrace_backend.Common.{
  ℕ, suc, ◌+◌, ◌*◌, ◌<◌, ◌≤◌, ◌≡◌, refl, ap, List, [], ◌∷◌, ◌++◌, length, length-append, arith, ◌⊎◌,
  inl, inr,
}
use logtrace_backend.Cron.Pool.{
  Worker, sending, counted, reported, released, Tally, Pool, slot, sum, Move, deliver, give_up,
  report, release, done, Step, start, stop, work,
}

sum-append : (f : Worker → ℕ) (xs ys : List Worker) → sum f (xs ++ ys) ≡ sum f xs + sum f ys
sum-append f [] ys = omega arith
sum-append f (x ∷ xs) ys = let ih = sum-append f xs ys in omega arith

-- The emails that a worker has still to count, and the results that it has still to send.
abbrev pub uncounted : Worker → ℕ
uncounted (sending j) = 1
uncounted (counted r) = 0
uncounted reported = 0
uncounted released = 0

abbrev pub unreported : Worker → ℕ
unreported (sending j) = 0
unreported (counted r) = 1
unreported reported = 0
unreported released = 0

-- The steps that a worker has left.
abbrev pub steps_left : Worker → ℕ
steps_left (sending j) = 4
steps_left (counted r) = 3
steps_left reported = 2
steps_left released = 1

-- At most `capacity` emails are under way, each of the `total` jobs is waiting, dropped, under way or
-- counted once, and each counted job has one result, which is in the channel or about to be.
pub record IsConsistent (capacity total : ℕ) (p : Pool) : Type 0 where
  pub bounded : sum slot p.workers ≤ capacity
  pub kept :
      length p.waiting + length p.dropped + sum uncounted p.workers + p.tally.sent + p.tally.failed
      ≡ total
  pub matched : length p.tally.results + sum unreported p.workers ≡ p.tally.sent + p.tally.failed
  pub undropped : (length p.waiting ≡ 0) ⊎ (length p.dropped ≡ 0)

-- What a move does to the sums, told of the worker alone.
pub record IsMove (x : Worker) (xs : List Worker) (t u : Tally) : Type 0 where
  pub slots : sum slot xs ≤ slot x
  pub kept : sum uncounted xs + u.sent + u.failed ≡ uncounted x + t.sent + t.failed
  pub matched :
      length u.results + sum unreported xs + t.sent + t.failed
      ≡ length t.results + unreported x + u.sent + u.failed
  pub shorter : suc (sum steps_left xs) ≡ steps_left x

Move-IsMove :
    {total : ℕ} {x : Worker} {xs : List Worker} {t u : Tally}
    → Move total t x u xs
    → IsMove x xs t u
Move-IsMove (deliver j) = record {
  slots = omega arith;
  kept = omega arith;
  matched = omega arith;
  shorter = refl;
}
Move-IsMove (give_up j e) = record {
  slots = omega arith;
  kept = omega arith;
  matched = omega arith;
  shorter = refl;
}
Move-IsMove {t = t} (report r room) =
    let h = length-append t.results (r ∷ []) in
    record { slots = omega arith; kept = omega arith; matched = omega arith; shorter = refl }
Move-IsMove release = record {
  slots = omega arith;
  kept = omega arith;
  matched = omega arith;
  shorter = refl;
}
Move-IsMove done = record {
  slots = omega arith;
  kept = omega arith;
  matched = omega arith;
  shorter = refl;
}

-- A sum over the workers, taken apart at one of them.
pub split_sum :
    (f : Worker → ℕ) (before xs after : List Worker)
    → sum f (before ++ (xs ++ after)) ≡ sum f before + sum f xs + sum f after
split_sum f before xs after =
    let h = sum-append f before (xs ++ after) in let h' = sum-append f xs after in omega arith

pub split_workers :
    (f : Worker → ℕ) (p : Pool) (before after : List Worker) (x : Worker)
    → p.workers ≡ before ++ (x ∷ after)
    → sum f p.workers ≡ sum f before + f x + sum f after
split_workers f p before after x h =
    let whole = ap (sum f) h in let parts = sum-append f before (x ∷ after) in omega arith

pub Step-IsConsistent :
    {capacity total : ℕ} {p q : Pool}
    → Step capacity total p q
    → IsConsistent capacity total p
    → IsConsistent capacity total q
Step-IsConsistent {p = p} (start j js head free) c =
    let n = ap length head in
    let kept = c.kept in
    let matched = c.matched in
    record {
      bounded = omega arith;
      kept = omega arith;
      matched = omega arith;
      undropped = elim c.undropped [ inl h ↦ absurd (omega arith) | inr h ↦ inr h ];
    }
Step-IsConsistent {p = p} (stop j js head) c =
    let n = ap length head in
    let kept = c.kept in
    record {
      bounded = c.bounded;
      kept = elim c.undropped [ inl h ↦ absurd (omega arith) | inr h ↦ omega arith ];
      matched = c.matched;
      undropped = inl refl;
    }
Step-IsConsistent {p = p} (work before after x {xs = xs} at_x move) c =
    let m = Move-IsMove move in
    let bounded = c.bounded in
    let kept = c.kept in
    let matched = c.matched in
    let slots = m.slots in
    let own_kept = m.kept in
    let own_matched = m.matched in
    let a1 = split_workers slot p before after x at_x in
    let a2 = split_workers uncounted p before after x at_x in
    let a3 = split_workers unreported p before after x at_x in
    let b1 = split_sum slot before xs after in
    let b2 = split_sum uncounted before xs after in
    let b3 = split_sum unreported before xs after in
    record {
      bounded = omega arith;
      kept = omega arith;
      matched = omega arith;
      undropped = c.undropped;
    }

-- The steps that the pool has left: five for a job that waits.
abbrev pub pool_steps_left : Pool → ℕ
pool_steps_left p = 5 * length p.waiting + sum steps_left p.workers

pub Step-shorter :
    {capacity total : ℕ} {p q : Pool}
    → Step capacity total p q
    → pool_steps_left q < pool_steps_left p
Step-shorter {p = p} (start j js head free) = let n = ap length head in omega arith
Step-shorter {p = p} (stop j js head) = let n = ap length head in omega arith
Step-shorter {p = p} (work before after x {xs = xs} at_x move) =
    let shorter = (Move-IsMove move).shorter in
    let a = split_workers steps_left p before after x at_x in
    let b = split_sum steps_left before xs after in omega arith
