-- ===== src/Cron/Batches/Coverage.antt =====
-- Which users the job that mails pending users comes to, and that it ends.
use Prim.Native.String.{String}
use logtrace_backend.Common.{
  ℕ, zero, suc, ◌+◌, ◌<◌, ◌≤◌, ◌≡◌, refl, ap, ◌∙◌, some, List, [], ◌∷◌, length, take, drop, filter,
  arith, ◌==◌, ==_iff, nat_eq, Bool-cases, ◌⊎◌, inl, inr,
}
use logtrace_backend.Common.Int.{pos}
use logtrace_backend.Domain.{Result, ok, IsErr, Result-cases, User}
use logtrace_backend.Sql.{Predicate, Table}
use logtrace_backend.Sql.Laws.{IsTable, matches}
use logtrace_backend.Cron.Batches.Jobs.{IsApart, jobs_made, process_email_batch-IsBatch}
use logtrace_backend.Cron.Batches.{
  Processor, ProcessMetrics, no_metrics, pending_conditions, fetch_pending_users, create_email_jobs,
  process_email_batch, process_batch, process_from, process_pending_users, report,
}

take_le : {A : Type 0} (n : ℕ) (xs : List A) → length (take n xs) ≤ length xs
take_le zero xs = omega arith
take_le (suc n) [] = omega arith
take_le (suc n) (x ∷ xs) = let ih = take_le n xs in omega arith

-- A page of rows that is empty lies behind them, and any other lies before their end.
page_end :
    {A : Type 0} (n k : ℕ) (xs page : List A)
    → page ≡ take (suc n) (drop k xs)
    → k ≤ length xs
    → (length page ≡ 0 → length xs ≤ k) × (k + length page ≤ length xs)
page_end n zero [] page e h = let size = ap length e in ((λ z. omega arith), omega arith)
page_end n zero (x ∷ xs) page e h =
    let size = ap length e in let b = take_le n xs in ((λ z. omega arith), omega arith)
page_end n (suc k) [] page e h = absurd (omega arith)
page_end n (suc k) (x ∷ xs) page e h =
    let (empty, fits) = page_end n k xs page e (omega arith) in
    ((λ z. let b = empty z in omega arith), omega arith)

module _ {W : Type 0} (users : Table User W) (p : Processor W) (rows : W → List User)
    (apart : IsApart p rows) where
  all_tallied : {A : Type 0} (r : Result (Unit {0})) (u : Unit {0}) → r ≡ ok u → IsErr r ⊎ A → A
  all_tallied r u h (inl failed) = absurd (rw h at failed)
  all_tallied r u h (inr a) = a

  same_metrics :
      (x m : ProcessMetrics)
      → ok x ≡ ok m
      → (m.total_emails ≡ x.total_emails)
        × (m.sent_emails + m.failed_emails ≡ x.sent_emails + x.failed_emails)
  same_metrics x m h =
      let same : m ≡ x = cc in
      (ap (λ z. z.total_emails) same, ap (λ z. z.sent_emails + z.failed_emails) same)

  -- One turn of the loop, on the users that it fetched.
  pub process_batch_turn :
      (us : List User) (m : ProcessMetrics) (w : W)
      → (rows (process_batch users p us m w).1.1 ≡ rows w)
        × ((process_batch users p us m w).1.0.total_emails ≤ m.total_emails + length us)
        × ((m' : ProcessMetrics)
            → (process_batch users p us m w).0 ≡ ok m'
            → (m'.total_emails ≡ m.total_emails + length us)
              × (m'.sent_emails + m'.failed_emails ≡ m.sent_emails + m.failed_emails + length us))
  unfolding process_batch
  process_batch_turn us m w =
      let v = (create_email_jobs users p us w).1 in
      let (kept, as_many) = jobs_made users p rows apart us w in
      elim (Result-cases (create_email_jobs users p us w).0) [
        | inr (e, f) ↦ rw f (kept, omega arith, λ m' h. absurd (cc))
        | inl ([], f) ↦
            let none_made = as_many [] f in
            rw f (
              kept,
              omega arith,
              λ m' h. let (total, tally) = same_metrics _ m' h in (omega arith, omega arith),
            )
        | inl (j ∷ js, f) ↦
            let made = as_many (j ∷ js) f in
            let started : ProcessMetrics = record m {
              total_emails = m.total_emails + length (j ∷ js);
            } in
            let (apart_v, same, ended) =
              process_email_batch-IsBatch users p rows apart (j ∷ js) started v in
            elim (Result-cases (process_email_batch users p (j ∷ js) started v).0) [
              | inr (e, g) ↦ rw (f, g) (apart_v ∙ kept, omega arith, λ m' h. absurd (cc))
              | inl (u, g) ↦
                  let tallied = all_tallied _ u g ended in
                  rw (f, g)
                    (
                      apart_v ∙ kept,
                      omega arith,
                      λ m' h.
                          let (total, tally) = same_metrics _ m' h in (omega arith, omega arith),
                    )
            ]
      ]

  module _ (sorted : String → List User → List User) (set : List Predicate → User → User)
      (table : IsTable users rows sorted set) (n : ℕ) (sized : p.batch_size ≡ pos (suc n)) where
    -- The pending users, in the order in which the job comes to them.
    abbrev pub pending : W → List User
    pending w =
        sorted "created_at ASC, id ASC" (filter (matches users.holds pending_conditions) (rows w))

    pub fetched :
        (offset : ℕ) (w : W) (us : List User)
        → fetch_pending_users users p offset w ≡ ok us
        → us ≡ take (suc n) (drop offset (pending w))
    unfolding fetch_pending_users
    fetched offset w us h = table.selects _ _ n offset w us (rw sized at h)

    -- How the job ended: by an error, or with an email sent to each pending user.
    abbrev IsEnd : W → Result (Unit {0}) × (ProcessMetrics × W) → Type 0
    IsEnd w r =
        (r.1.0.total_emails ≤ length (pending w))
        × (IsErr r.0
            ⊎ ((r.1.0.total_emails ≡ length (pending w))
                × (r.1.0.sent_emails ≡ length (pending w))))

    reported :
        (m : ProcessMetrics) (k : ℕ)
        → m.sent_emails + m.failed_emails ≡ k
        → IsErr (report users p m) ⊎ (m.sent_emails ≡ k)
    unfolding report
    reported m k h = elim (Bool-cases (m.failed_emails == 0)) [
      | inl e ↦ let none_failed : m.failed_emails ≡ 0 = (==_iff _ _).0 e in rw e (inr (omega arith))
      | inr e ↦ rw e (inl tt)
    ]

    process_from_ends :
        (fuel offset : ℕ) (m : ProcessMetrics) (w : W)
        → m.total_emails ≡ offset
        → m.sent_emails + m.failed_emails ≡ offset
        → offset ≤ length (pending w)
        → length (pending w) < fuel + offset
        → (r : Result (Unit {0}) × (ProcessMetrics × W)) × (process_from users p fuel offset m w
            ≡ some r)
          × IsEnd w r
    unfolding process_from
    process_from_ends zero offset m w total tally reached enough = absurd (omega arith)
    process_from_ends (suc fuel) offset m w total tally reached enough =
        elim (Result-cases (fetch_pending_users users p offset w)) [
          | inr (e, f) ↦ rw (process_from, f) (_, refl, (omega arith, inl tt))
          | inl ([], f) ↦
              let (last, fits) = page_end n offset (pending w) [] (fetched offset w [] f) reached in
              let over = last refl in
              rw (process_from, f)
                (
                  _,
                  refl,
                  (
                    omega arith,
                    elim (reported m offset tally) [
                      | inl failed ↦ inl failed
                      | inr all ↦ inr (omega arith, omega arith)
                    ],
                  ),
                )
          | inl (u ∷ us, f) ↦
              let (last, fits) =
                page_end n offset (pending w) (u ∷ us) (fetched offset w (u ∷ us) f) reached in
              let (kept, few, adds) = process_batch_turn (u ∷ us) m w in
              let v = (process_batch users p (u ∷ us) m w).1.1 in
              let same : pending v ≡ pending w =
                ap
                  (λ x.
                    sorted "created_at ASC, id ASC"
                      (filter (matches users.holds pending_conditions) x))
                  kept in
              let as_many = ap length same in
              elim (Result-cases (process_batch users p (u ∷ us) m w).0) [
                | inr (e, g) ↦ rw (process_from, f, g) (_, refl, (omega arith, inl tt))
                | inl (m', g) ↦
                    let (total', tally') = adds m' g in
                    let (r, ends, (bounded, how)) =
                      process_from_ends fuel (offset + length (u ∷ us)) m' v (omega arith)
                        (omega arith) (omega arith) (omega arith) in
                    rw (process_from, f, g)
                      (
                        r,
                        ends,
                        (
                          omega arith,
                          elim how [
                            | inl failed ↦ inl failed
                            | inr (all, sent) ↦ inr (omega arith, omega arith)
                          ],
                        ),
                      )
              ]
        ]

    -- With more fuel than pending users the job ends. It makes at most as many emails as there are
    -- pending users, and if it reports no error, it made and sent exactly as many.
    pub process_pending_users_ends :
        (fuel : ℕ) (w : W)
        → length (pending w) < fuel
        → (r : Result (Unit {0}) × (ProcessMetrics × W)) × (process_pending_users users p fuel w
            ≡ some r)
          × IsEnd w r
    unfolding process_pending_users
    process_pending_users_ends fuel w enough =
        process_from_ends fuel 0 no_metrics w refl refl (omega arith) (omega arith)
