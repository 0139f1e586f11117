-- ===== src/Cron.antt =====
-- cmd/cli/cron_scheduled_emails.go: how the job that mails pending users sends one email, with its
-- retries. The rate limiter, the timer and the email client are calls that change the world.
pub mod Retry
pub mod Pool
pub mod Batches
pub mod Command
pub mod Revocation
use Prim.Native.String.{String}
use logtrace_backend.Common.{
  ℕ, zero, suc, ◌+◌, ◌-◌, ◌*◌, ◌^◌, ◌%◌, ◌==◌, nat_eq, Bool, true, false, Option, none, some, List,
  [], ◌∷◌,
}
use logtrace_backend.Common.Int.{ℤ, pos, negsuc, wrap}
use logtrace_backend.Domain.{Time, Error, other, Result, ok, err, User}

pub record EmailJob : Type 0 where
  pub recipient : User
  pub subject : String
  pub content : String
  pub retry_count : ℕ
  pub last_error : Option Error
  pub last_attempt : Time

-- What the processor calls: `rateLimiter.Wait`, `waitForRetry`, `sendEmail`, and the clock.
pub record Services (W : Type 0) : Type 0 where
  pub wait_for_rate : W → Result (Unit {0}) × W
  pub wait_for_retry : ℤ → W → Result (Unit {0}) × W
  pub send_email : EmailJob → W → Result (Unit {0}) × W
  pub now : W → Time

abbrev pub second : ℕ
second = 1000000000

-- `time.Duration(1<<uint(attempt-1)) * time.Second`, on 64 bits.
unfoldable pub backoff : ℕ → ℤ
backoff attempt = wrap (pos (2 ^ (attempt - 1) * second))

-- The number of rounds of the loop: a negative maximum makes none.
unfoldable pub rounds : ℤ → ℕ
rounds (pos n) = suc n
rounds (negsuc n) = 0

unfoldable pub failed_once : Error → Time → EmailJob → EmailJob
failed_once e t job = record job {
  retry_count = suc job.retry_count;
  last_error = some e;
  last_attempt = t;
}

module _ {W : Type 0} (s : Services W) where
  -- The wait before an attempt that is not the first.
  unfoldable pub before : ℕ → W → Result (Unit {0}) × W
  before zero w = (ok tt, w)
  before (suc n) w = s.wait_for_retry (backoff (suc n)) w

  -- The calls of one round: both waits, then the email, which is tried only if the waits passed.
  -- `inl` is an error of a wait, which ends the loop.
  abbrev limited : EmailJob → Result (Unit {0}) × W → Result (Result (Unit {0})) × W
  limited job (err e, w) = (err e, w)
  limited job (ok _, w) = let (r, w') = s.send_email job w in (ok r, w')

  abbrev waited : EmailJob → Result (Unit {0}) × W → Result (Result (Unit {0})) × W
  waited job (err e, w) = (err e, w)
  waited job (ok _, w) = limited job (s.wait_for_rate w)

  unfoldable pub round : ℕ → EmailJob → W → Result (Result (Unit {0})) × W
  round attempt job w = waited job (before attempt w)

  -- The rest of the loop, by the number of rounds that are left; the job is the caller's, whose
  -- fields the loop sets.
  unfoldable pub attempts_from : ℕ → ℕ → EmailJob → W → Result (Unit {0}) × (EmailJob × W)
  attempts_from zero attempt job w = (err (other "max retries exceeded"), (job, w))
  attempts_from (suc left) attempt job w =
      let (r, v) = round attempt job w in
      elim r [
        | err e ↦ (err e, (job, v))
        | ok (ok _) ↦ (ok tt, (job, v))
        | ok (err e) ↦ attempts_from left (suc attempt) (failed_once e (s.now v) job) v
      ]

  unfoldable pub process_email_with_retry : ℤ → EmailJob → W → Result (Unit {0}) × (EmailJob × W)
  process_email_with_retry max_retries job w = attempts_from (rounds max_retries) 0 job w
