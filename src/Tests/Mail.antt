-- ===== src/Tests/Mail.antt =====
-- The retries of an email that cannot be sent; a world is the number of emails tried.
use logtrace_backend.Common.{ℕ, suc, ◌+◌, ◌≡◌, refl, none}
use logtrace_backend.Common.Int.{pos}
use logtrace_backend.Domain.{other, ok, err, IsErr}
use logtrace_backend.Cron.{
  EmailJob, Services, rounds, before, round, failed_once, attempts_from, process_email_with_retry,
}
use logtrace_backend.Cron.Retry.{IsCounter, IsPatient, process_email_with_retry_exhausts}
use logtrace_backend.Tests.Fixtures.{alice}

abbrev down : Services ℕ
down = record {
  wait_for_rate = λ w. (ok tt, w);
  wait_for_retry = λ d w. (ok tt, w);
  send_email = λ job w. (err (other "connection refused"), suc w);
  now = λ w. w;
}

abbrev pub job : EmailJob
job = record {
  recipient = alice;
  subject = "Verify your account";
  content = "";
  retry_count = 0;
  last_error = none;
  last_attempt = 0;
}

counter : IsCounter down (λ w. w)
counter = record { rate = λ w. refl; retry = λ d w. refl; send = λ j w. refl }

patient : IsPatient down
patient = record { rate = λ w. refl; retry = λ d w. refl }

gives_up : IsErr (process_email_with_retry down (pos 3) job 0).0
unfolding process_email_with_retry attempts_from round before rounds failed_once
gives_up = tt

process_email_with_retry_exhausts_example :
    (process_email_with_retry down (pos 3) job 0).1.0.retry_count ≡ 0 + 4
process_email_with_retry_exhausts_example =
    process_email_with_retry_exhausts down patient 3 job 0 gives_up
