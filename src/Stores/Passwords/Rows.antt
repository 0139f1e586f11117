-- ===== src/Stores/Passwords/Rows.antt =====
-- The rows of the table of passwords as a map from users to hashes.
use Prim.Native.String.{String}
use mathlib.Core.Option
use logtrace_backend.Common.{
  ◌≤◌, ◌≡◌, refl, ap, true, false, Option, none, some, List, [], ◌∷◌, ◌++◌, map, length, filter,
  length-append, arith, ◌==◌, nat_eq, ==_iff, Bool-cases, inl, inr, if◌then◌else◌,
}
use logtrace_backend.Domain.{Uuid, Password}

abbrev pub of_user : Uuid → List Password → List Password
of_user u ps = filter (λ p. p.user_id == u) ps

abbrev pub first_hash : List Password → Option String
first_hash [] = none
first_hash (p ∷ ps) = some p.user_password

abbrev pub replaced : Password → Password → Password
replaced p r = if r.user_id == p.user_id then p else r

-- A replacement leaves the rows of another user as they are, and makes those of its own user equal.
pub replaced_other :
    (p : Password) (u : Uuid) (ps : List Password)
    → (p.user_id == u) ≡ false
    → of_user u (map (replaced p) ps) ≡ of_user u ps
replaced_other p u [] other = refl
replaced_other p u (r ∷ ps) other =
    let ih = replaced_other p u ps other in
    elim (Bool-cases (r.user_id == p.user_id)) [
      | inl e ↦ let same : r.user_id ≡ p.user_id = (==_iff _ _).0 e in rw (e, other, same, other) ih
      | inr e ↦ rw e (elim (Bool-cases (r.user_id == u)) [
        | inl f ↦ rw f (ap (λ xs. r ∷ xs) ih)
        | inr f ↦ rw f ih
      ])
    ]

pub replaced_own :
    (p : Password) (ps : List Password)
    → of_user p.user_id (map (replaced p) ps) ≡ map (λ r. p) (of_user p.user_id ps)
replaced_own p [] = refl
replaced_own p (r ∷ ps) =
    let ih = replaced_own p ps in
    elim (Bool-cases (r.user_id == p.user_id)) [
      | inl e ↦
          let self : (p.user_id == p.user_id) ≡ true = (==_iff p.user_id p.user_id).1 refl in
          rw (e, self) (ap (λ xs. p ∷ xs) ih)
      | inr e ↦ rw (e, e) ih
    ]

pub first_hash-map :
    (p : Password) (ps : List Password)
    → first_hash (map (λ r. p) ps) ≡ Option.map (λ h. p.user_password) (first_hash ps)
first_hash-map p [] = refl
first_hash-map p (r ∷ ps) = refl

pub length-map : {A : Type 0} (f : A → A) (xs : List A) → length (map f xs) ≡ length xs
length-map f [] = refl
length-map f (x ∷ xs) = let ih = length-map f xs in omega arith

pub only_one :
    (xs before after : List Password) (r : Password)
    → xs ≡ before ++ (r ∷ after)
    → length xs ≤ 1
    → first_hash xs ≡ some r.user_password
only_one xs [] after r e h = ap first_hash e
only_one xs (b ∷ before) after r e h =
    let size = ap length e in let parts = length-append before (r ∷ after) in absurd (omega arith)

pub no_rows_of : (xs : List Password) → first_hash xs ≡ none → length xs ≡ 0
no_rows_of [] h = refl
no_rows_of (p ∷ ps) h = absurd (cc)
