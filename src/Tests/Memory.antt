-- ===== src/Tests/Memory.antt =====
-- A table of rows in memory, and that it does what the stores rely on.
use logtrace_backend.Common.{
  ◌≡◌, refl, ap, String, Bool, true, List, [], ◌∷◌, map, length, take, drop, filter, Bool-cases,
  inl, inr, if◌then◌else◌,
}
use logtrace_backend.Common.Int.{ℤ, pos}
use logtrace_backend.Domain.{no_rows, other, Result, ok, err}
use logtrace_backend.Sql.{Predicate, Table}
use logtrace_backend.Sql.Laws.{IsTable, matches}

module _ {Row : Type 0} (holds : Predicate → Row → Bool) (set : List Predicate → Row → Row) where
  abbrev page : ℤ → ℤ → List Row → Result (List Row)
  page (pos limit) (pos offset) rows = ok (take limit (drop offset rows))
  page _ _ rows = err (other "a limit or an offset is negative")

  abbrev head : List Row → Result Row
  head [] = err no_rows
  head (r ∷ rs) = ok r

  abbrev pub memory : Table Row (List Row)
  memory = record {
    holds = holds;
    count = λ cs w. ok (length (filter (matches holds cs) w));
    select = λ cs order limit offset w. page limit offset (filter (matches holds cs) w);
    first = λ cs w. head (filter (matches holds cs) w);
    insert = λ r w. (ok tt, r ∷ w);
    update = λ assignments cs w.
        (ok tt, map (λ r. if matches holds cs r then set assignments r else r) w);
    replace = λ row cs w. (ok tt, map (λ r. if matches holds cs r then row else r) w);
  }

  head-holds : (f : Row → Bool) (rs : List Row) (r : Row) → head (filter f rs) ≡ ok r → f r ≡ true
  head-holds f [] r h = absurd (cc)
  head-holds f (x ∷ rs) r h = elim (Bool-cases (f x)) [
    | inl e ↦ let same : x ≡ r = (cc (rw e at h)) in rw same at e
    | inr e ↦ head-holds f rs r (rw e at h)
  ]

  pub memory_laws : IsTable memory (λ w. w) (λ order rs. rs) set
  memory_laws = record {
    counts = λ cs w n h. cc;
    selects = λ cs order limit offset w found h. cc;
    finds = λ cs w r h. head-holds (matches holds cs) w r h;
    updates = λ assignments cs w w' h. cc;
    sorted-All = λ P order rs h. h;
    length-sorted = λ order rs. refl;
  }

module _ {Row S : Type 0} (t : Table Row (List Row)) where
  -- A table beside something else in the world.
  abbrev pub beside : Table Row (List Row × S)
  beside = record {
    holds = t.holds;
    count = λ cs w. t.count cs w.0;
    select = λ cs order limit offset w. t.select cs order limit offset w.0;
    first = λ cs w. t.first cs w.0;
    insert = λ r w. let (x, rows) = t.insert r w.0 in (x, (rows, w.1));
    update = λ assignments cs w. let (x, rows) = t.update assignments cs w.0 in (x, (rows, w.1));
    replace = λ row cs w. let (x, rows) = t.replace row cs w.0 in (x, (rows, w.1));
  }

  pub beside_laws :
      (sorted : String → List Row → List Row) (set : List Predicate → Row → Row)
      → IsTable t (λ w. w) sorted set
      → IsTable beside (λ w. w.0) sorted set
  beside_laws sorted set laws = record {
    counts = λ cs w n h. laws.counts cs w.0 n h;
    selects = λ cs order limit offset w found h. laws.selects cs order limit offset w.0 found h;
    finds = λ cs w r h. laws.finds cs w.0 r h;
    updates =
        λ assignments cs w w' h. laws.updates assignments cs w.0 w'.0 (ap (λ x. (x.0, x.1.0)) h);
    sorted-All = laws.sorted-All;
    length-sorted = laws.length-sorted;
  }
