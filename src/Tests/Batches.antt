-- ===== src/Tests/Batches.antt =====
-- The job that mails pending users, over a table in memory; the world is the table.
use Prim.Native.String.{◌++◌}
use logtrace_backend.Common.{
  ◌*◌, ◌≤◌, refl, Bool, true, false, none, some, List, [], ◌∷◌, arith, ◌==◌, string_eq, ◌⊎◌,
  if◌then◌else◌,
}
use logtrace_backend.Common.Int.{pos}
use logtrace_backend.Domain.{ok, User}
use logtrace_backend.Sql.{Predicate, Table}
use logtrace_backend.Cron.{Services, before, round, rounds, attempts_from, process_email_with_retry}
use logtrace_backend.Cron.Pool.{
  sending, counted, deliver, work, Pool, all_waiting, no_tally, Step, start, Run, here, next,
}
use logtrace_backend.Cron.Pool.Places.{IsPlaced, Run-IsPlaced}
use logtrace_backend.Cron.Pool.Runs.{IsFinished, Run-ends}
use logtrace_backend.Cron.Batches.{Processor, no_metrics, process_email_batch}
use logtrace_backend.Cron.Batches.Schedule.{IsSchedule, outcomes, process_email_batch-IsSchedule}
use logtrace_backend.Tests.Fixtures.{alice}
use logtrace_backend.Tests.Memory.{memory}
use logtrace_backend.Tests.Mail.{job}

abbrev pub user_holds : Predicate → User → Bool
user_holds q u =
    if q.clause == "email_verified_at IS NULL"
    then elim u.email_verified_at [ none ↦ true | some t ↦ false ]
    else if q.clause == "status = ?"
    then u.status == "pending"
    else true

abbrev pub table : Table User (List User)
table = memory user_holds (λ s u. u)

abbrev bob : User
bob = record alice { id = 8; status = "pending"; email_verified_at = none }

abbrev pub three_users : List User
three_users = alice ∷ bob ∷ record bob { id = 9 } ∷ []

abbrev mail : Services (List User)
mail = record {
  wait_for_rate = λ w. (ok tt, w);
  wait_for_retry = λ d w. (ok tt, w);
  send_email = λ job w. (ok tt, w);
  now = λ w. 5;
}

abbrev processor : Processor (List User)
processor = record {
  services = mail;
  random = λ w. (ok "token", w);
  store_verification = λ v w. (ok tt, w);
  render = λ name link. ok (name ++ link);
  canceled = λ w. none;
  to_lower = λ s. s;
  uuid_text = λ id. "id";
  count_text = λ n. "n";
  app_url = "https://logtrace.app/";
  batch_size = pos 1;
  max_retries = pos 3;
}

process_email_batch-IsSchedule_example :
    IsSchedule 5 2
      (all_waiting (job ∷ job ∷ []))
      no_tally
      (ok tt ∷ ok tt ∷ [])
      no_metrics
      (process_email_batch table processor (job ∷ job ∷ []) no_metrics three_users).1.0
unfolding outcomes process_email_with_retry attempts_from rounds round before
process_email_batch-IsSchedule_example =
    process_email_batch-IsSchedule 5 table processor (job ∷ job ∷ []) no_metrics three_users
      (omega arith)

abbrev one_started : Pool
one_started = record (all_waiting (job ∷ job ∷ [])) {
  waiting = job ∷ [];
  workers = sending job ∷ [];
}

abbrev begun : Run 1 2 (all_waiting (job ∷ job ∷ [])) 1 one_started
begun = next here (start job (job ∷ []) refl (omega arith))

abbrev one_sent : Pool
one_sent = record one_started {
  workers = counted (ok tt) ∷ [];
  tally = record { sent = 1; failed = 0; results = [] };
}

abbrev delivered : Run 1 2 (all_waiting (job ∷ job ∷ [])) 2 one_sent
delivered = next begun (work [] [] (sending job) refl (deliver job))

Run-IsPlaced_example : IsPlaced 1 (job ∷ job ∷ []) one_sent (job ∷ [])
Run-IsPlaced_example = Run-IsPlaced 1 (job ∷ job ∷ []) delivered

Run-ends_example :
    (1 ≤ 5 * 2)
    × (IsFinished 1 (job ∷ job ∷ []) one_started ⊎ ((q : Pool) × Step 1 2 one_started q))
Run-ends_example = Run-ends 1 (job ∷ job ∷ []) (omega arith) begun
