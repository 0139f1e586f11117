-- ===== src/Sql/Laws.antt =====
-- What a row must satisfy to match conditions, and what the stores rely on in the database: a count
-- counts the matching rows of the table, a page is cut out of them in their order, a single row is
-- one of them, and an update changes them only.
use Prim.Native.String.{String}
use logtrace_backend.Common.{
  ℕ, zero, suc, ◌≡◌, ◌≤◌, refl, Bool, true, false, ◌&&◌, ◌||◌, List, [], ◌∷◌, ◌++◌, map, length,
  take, drop, filter, All, arith, if◌then◌else◌, Bool-cases, inl, inr,
}
use logtrace_backend.Common.Int.{pos}
use logtrace_backend.Domain.{ok}
use logtrace_backend.Sql.{Predicate, Condition, where_, any_of, Table}

module _ {Row : Type 0} (holds : Predicate → Row → Bool) where
  abbrev pub any_holds : List Predicate → Row → Bool
  any_holds [] r = false
  any_holds (p ∷ ps) r = holds p r || any_holds ps r

  abbrev pub condition_holds : Condition → Row → Bool
  condition_holds (where_ p) r = holds p r
  condition_holds (any_of ps) r = any_holds ps r

  unfoldable pub matches : List Condition → Row → Bool
  matches [] r = true
  matches (c ∷ cs) r = condition_holds c r && matches cs r

  pub matches-head :
      (c : Condition) (cs : List Condition) (r : Row)
      → matches (c ∷ cs) r ≡ true
      → (condition_holds c r ≡ true) × (matches cs r ≡ true)
  unfolding matches
  matches-head c cs r h = ground arith

  pub matches-append :
      (cs ds : List Condition) (r : Row)
      → matches (cs ++ ds) r ≡ true
      → (matches cs r ≡ true) × (matches ds r ≡ true)
  unfolding matches
  matches-append [] ds r h = (refl, h)
  matches-append (c ∷ cs) ds r h = let ih = matches-append cs ds r in ground arith

module _ {Row W : Type 0} (t : Table Row W) (rows : W → List Row) where
  -- `sorted` is what an ORDER BY does to rows, `set` what assignments do to one.
  pub record IsTable (sorted : String → List Row → List Row) (set : List Predicate → Row → Row)
      : Type 1 where
    pub counts :
        (cs : List Condition) (w : W) (n : ℕ)
        → t.count cs w ≡ ok n
        → n ≡ length (filter (matches t.holds cs) (rows w))
    pub selects :
        (cs : List Condition) (order : String) (limit offset : ℕ) (w : W) (found : List Row)
        → t.select cs order (pos (suc limit)) (pos offset) w ≡ ok found
        → found
          ≡ take (suc limit) (drop offset (sorted order (filter (matches t.holds cs) (rows w))))
    pub finds :
        (cs : List Condition) (w : W) (r : Row) → t.first cs w ≡ ok r → matches t.holds cs r ≡ true
    pub updates :
        (assignments : List Predicate) (cs : List Condition) (w w' : W)
        → t.update assignments cs w ≡ (ok tt, w')
        → rows w' ≡ map (λ r. if matches t.holds cs r then set assignments r else r) (rows w)
    pub sorted-All :
        (P : Row → Type 0) (order : String) (rs : List Row) → All P rs → All P (sorted order rs)
    pub length-sorted : (order : String) (rs : List Row) → length (sorted order rs) ≡ length rs

module _ {A : Type 0} (P : A → Type 0) where
  pub take-All : (n : ℕ) (xs : List A) → All P xs → All P (take n xs)
  take-All zero xs h = tt
  take-All (suc n) [] h = tt
  take-All (suc n) (x ∷ xs) (p, ps) = (p, take-All n xs ps)

  pub drop-All : (n : ℕ) (xs : List A) → All P xs → All P (drop n xs)
  drop-All zero xs h = h
  drop-All (suc n) [] h = tt
  drop-All (suc n) (x ∷ xs) (p, ps) = drop-All n xs ps

  pub filter-All : (f : A → Bool) (xs : List A) → ((x : A) → f x ≡ true → P x) → All P (filter f xs)
  filter-All f [] h = tt
  filter-All f (x ∷ xs) h = elim (Bool-cases (f x)) [
    | inl e ↦ rw e (h x e, filter-All f xs h)
    | inr e ↦ rw e (filter-All f xs h)
  ]

pub take-length : {A : Type 0} (n : ℕ) (xs : List A) → length (take n xs) ≤ n
take-length zero xs = omega arith
take-length (suc n) [] = omega arith
take-length (suc n) (x ∷ xs) = let ih = take-length n xs in omega arith

pub filter-ext :
    {A : Type 0} (f g : A → Bool) (xs : List A) → ((x : A) → f x ≡ g x) → filter f xs ≡ filter g xs
filter-ext f g [] h = refl
filter-ext f g (x ∷ xs) h = rw (h x, filter-ext f g xs h) refl
