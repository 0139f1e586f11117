-- ===== src/Cron/Retry.antt =====
-- How often an email is tried, what the job says of it afterwards, and how long the waits are.
use logtrace_backend.Common.{ℕ, zero, suc, ◌+◌, ◌-◌, ◌*◌, ◌^◌, ◌≤◌, ◌≡◌, refl, ap, inl, inr, arith}
use logtrace_backend.Common.Int.{ℤ, pos, wrap_of_small}
use logtrace_backend.Domain.{Result, ok, err, IsErr, Result-cases}
use logtrace_backend.Cron.{
  EmailJob, Services, second, backoff, rounds, failed_once, before, round, attempts_from,
  process_email_with_retry,
}

pow_le : (n m : ℕ) → n ≤ m → 2 ^ n ≤ 2 ^ m
pow_le n zero h = ground arith
pow_le zero (suc m) h = let ih = pow_le 0 m (omega arith) in ground arith
pow_le (suc n) (suc m) h = let ih = pow_le n m (omega arith) in ground arith

-- Up to the 34th retry the wait doubles each time, from one second, without an overflow.
backoff_doubles : (n : ℕ) → n ≤ 33 → backoff (suc n) ≡ pos (2 ^ n * second)
unfolding backoff
backoff_doubles n h =
    let b = pow_le n 33 h in
    let predecessor : suc n - 1 ≡ n = omega arith in
    rw predecessor (wrap_of_small (2 ^ n * second) (ground arith))

-- The emails that a result stands for beside the failed ones.
abbrev pub delivered : Result (Unit {0}) → ℕ
delivered (ok _) = 1
delivered (err _) = 0

abbrev attempted : Result (Result (Unit {0})) → ℕ
attempted (ok _) = 1
attempted (err _) = 0

module _ {W : Type 0} (s : Services W) (emails : W → ℕ) where
  -- The waits try no email, and each call of the client tries one.
  pub record IsCounter : Type 0 where
    pub rate : (w : W) → emails (s.wait_for_rate w).1 ≡ emails w
    pub retry : (d : ℤ) (w : W) → emails (s.wait_for_retry d w).1 ≡ emails w
    pub send : (job : EmailJob) (w : W) → emails (s.send_email job w).1 ≡ suc (emails w)

  module _ (counter : IsCounter) where
    before_count : (n : ℕ) (w : W) → emails (before s n w).1 ≡ emails w
    unfolding before
    before_count zero w = refl
    before_count (suc n) w = counter.retry (backoff (suc n)) w

    round_count :
        (n : ℕ) (job : EmailJob) (w : W)
        → emails (round s n job w).1 ≡ emails w + attempted (round s n job w).0
    unfolding round
    round_count n job w =
        let h1 = before_count n w in
        let h2 = counter.rate (before s n w).1 in
        let h3 = counter.send job (s.wait_for_rate (before s n w).1).1 in
        let c1 = Result-cases (before s n w).0 in
        let c2 = Result-cases (s.wait_for_rate (before s n w).1).0 in ground arith

    -- What the rest of the loop does, told by its result, the job and the world that it leaves.
    abbrev pub IsTally : ℕ → EmailJob → W → Result (Unit {0}) × (EmailJob × W) → Type 0
    IsTally left job w p =
        (emails p.1.1 + job.retry_count ≡ emails w + p.1.0.retry_count + delivered p.0)
        × (emails p.1.1 ≤ emails w + left)

    attempts_from-IsTally :
        (left attempt : ℕ) (job : EmailJob) (w : W)
        → IsTally left job w (attempts_from s left attempt job w)
    unfolding attempts_from failed_once
    attempts_from-IsTally zero attempt job w = (omega arith, omega arith)
    attempts_from-IsTally (suc left) attempt job w =
        let h = round_count attempt job w in
        elim (Result-cases (round s attempt job w).0) [
          | inr (e, f) ↦
              let tried = ap attempted f in rw (attempts_from, f) (omega arith, omega arith)
          | inl (ok u, f) ↦
              let tried = ap attempted f in rw (attempts_from, f) (omega arith, omega arith)
          | inl (err e, f) ↦
              let v = (round s attempt job w).1 in
              let tried = ap attempted f in
              let (ih, bound) =
                attempts_from-IsTally left (suc attempt) (failed_once e (s.now v) job) v in
              rw (attempts_from, f) (omega arith, omega arith)
        ]

    -- An email is tried at most once in each round of the loop, and the job counts the failed tries:
    -- the tries are as many as the retries that it gained, and one more if the email was sent.
    pub process_email_with_retry-IsTally :
        (max_retries : ℤ) (job : EmailJob) (w : W)
        → IsTally (rounds max_retries) job w (process_email_with_retry s max_retries job w)
    unfolding process_email_with_retry
    process_email_with_retry-IsTally max_retries job w =
        attempts_from-IsTally (rounds max_retries) 0 job w

module _ {W : Type 0} (s : Services W) where
  -- Neither wait ever ends by an error.
  pub record IsPatient : Type 0 where
    pub rate : (w : W) → (s.wait_for_rate w).0 ≡ ok tt
    pub retry : (d : ℤ) (w : W) → (s.wait_for_retry d w).0 ≡ ok tt

  module _ (patient : IsPatient) where
    before_passes : (n : ℕ) (w : W) → (before s n w).0 ≡ ok tt
    unfolding before
    before_passes zero w = refl
    before_passes (suc n) w = patient.retry (backoff (suc n)) w

    round_passes : (n : ℕ) (job : EmailJob) (w : W) → attempted (round s n job w).0 ≡ 1
    unfolding round
    round_passes n job w =
        let h1 = before_passes n w in let h2 = patient.rate (before s n w).1 in ground arith

    attempts_from_exhausts :
        (left attempt : ℕ) (job : EmailJob) (w : W)
        → IsErr (attempts_from s left attempt job w).0
        → (attempts_from s left attempt job w).1.0.retry_count ≡ job.retry_count + left
    unfolding attempts_from failed_once
    attempts_from_exhausts zero attempt job w failed = omega arith
    attempts_from_exhausts (suc left) attempt job w failed =
        let h = round_passes attempt job w in
        elim (Result-cases (round s attempt job w).0) [
          | inr (e, f) ↦ let none_tried = ap attempted f in absurd (omega arith)
          | inl (ok u, f) ↦ absurd (rw (IsErr, attempts_from, f) at failed)
          | inl (err e, f) ↦
              rw (attempts_from, f)
                (let still = rw (IsErr, attempts_from, f) at failed in
                  let ih =
                    attempts_from_exhausts left (suc attempt) (failed_once e _ job) _ still in
                  omega arith)
        ]

    -- Where the waits pass, an email that may be tried again n times is given up only after n + 1 tries
    -- that failed, which its job counts.
    pub process_email_with_retry_exhausts :
        (n : ℕ) (job : EmailJob) (w : W)
        → IsErr (process_email_with_retry s (pos n) job w).0
        → (process_email_with_retry s (pos n) job w).1.0.retry_count ≡ job.retry_count + suc n
    unfolding process_email_with_retry rounds
    process_email_with_retry_exhausts n job w = attempts_from_exhausts (suc n) 0 job w
