-- ===== src/Stores/Passwords/Map.antt =====
-- What the store of passwords promises: a map from users to hashes.
use Prim.Native.String.{String}
use mathlib.Core.Option
use logtrace_backend.Common.{
  ◌≤◌, ◌≡◌, refl, sym, ap, ◌∙◌, subst, Option, none, some, List, [], ◌∷◌, ◌++◌, map, length, filter,
  arith, ◌==◌, nat_eq, ==_iff, Bool-cases, inl, inr, if◌then◌else◌,
}
use logtrace_backend.Domain.{Uuid, ok, Result-cases, Password, is_no_rows}
use logtrace_backend.Repositories.{PasswordRepository}
use logtrace_backend.Sql.{uuid, Condition, Table}
use logtrace_backend.Sql.Laws.{matches, filter-ext}
use logtrace_backend.Stores.ApiKeys.{where_uuid}
use logtrace_backend.Stores.Passwords.{create, list, update, stored_passwords}
use logtrace_backend.Stores.Passwords.Rows.{
  of_user, first_hash, replaced, replaced_other, replaced_own, first_hash-map, length-map, only_one,
  no_rows_of,
}

-- The abstract store: in a proper world, what is listed is what the map holds, a new password is put
-- in for its user, and an update replaces the hash of its user where there is one.
pub record IsPasswordMap {W : Type 0} (repo : PasswordRepository W) (IsProper : W → Type 0)
    (hash_of : W → Uuid → Option String) : Type 0 where
  pub listed :
      (user : Uuid) (p : Password) (w : W)
      → IsProper w
      → repo.list user w ≡ ok p
      → hash_of w user ≡ some p.user_password
  pub created :
      (p : Password) (w w' : W)
      → IsProper w
      → hash_of w p.user_id ≡ none
      → repo.create p w ≡ (ok tt, w')
      → IsProper w'
        × ((u : Uuid)
            → hash_of w' u ≡ (if p.user_id == u then some p.user_password else hash_of w u))
  pub updated :
      (p : Password) (w w' : W)
      → IsProper w
      → repo.update p w ≡ (ok tt, w')
      → IsProper w'
        × ((u : Uuid)
            → hash_of w' u ≡ (
                if p.user_id == u
                then Option.map (λ h. p.user_password) (hash_of w u)
                else hash_of w u))

-- What the store relies on in the database: a select finds one of the matching rows, an insert adds
-- its row, and an update writes its row over the matching ones.
pub record IsPasswordTable {W : Type 0} (passwords : Table Password W) (rows : W → List Password)
    : Type 0 where
  pub finds :
      (cs : List Condition) (w : W) (r : Password)
      → passwords.first cs w ≡ ok r
      → (before : List Password) × (after : List Password) × (filter
            (matches passwords.holds cs)
            (rows w)
          ≡ before ++ (r ∷ after))
  pub inserts :
      (p : Password) (w w' : W) → passwords.insert p w ≡ (ok tt, w') → rows w' ≡ p ∷ rows w
  pub replaces :
      (p : Password) (cs : List Condition) (w w' : W)
      → passwords.replace p cs w ≡ (ok tt, w')
      → rows w' ≡ map (λ r. if matches passwords.holds cs r then p else r) (rows w)
  pub by_user :
      (u : Uuid) (p : Password)
      → passwords.holds (record { clause = "user_id = ?"; args = uuid u ∷ [] }) p ≡ (p.user_id == u)

map-ext : {A : Type 0} (f g : A → A) (xs : List A) → ((x : A) → f x ≡ g x) → map f xs ≡ map g xs
map-ext f g [] h = refl
map-ext f g (x ∷ xs) h = rw (h x, map-ext f g xs h) refl

module _ {W : Type 0} (passwords : Table Password W) (rows : W → List Password)
    (table : IsPasswordTable passwords rows) where
  -- At most one row for each user.
  abbrev pub IsProper : W → Type 0
  IsProper w = (u : Uuid) → length (of_user u (rows w)) ≤ 1

  abbrev pub hash_of : W → Uuid → Option String
  hash_of w u = first_hash (of_user u (rows w))

  matches_user :
      (u : Uuid) (p : Password)
      → matches passwords.holds (where_uuid "user_id = ?" u) p ≡ (p.user_id == u)
  unfolding matches
  matches_user u p = rw (table.by_user u p) (ground arith)

  listed_hash :
      (user : Uuid) (p : Password) (w : W)
      → IsProper w
      → list passwords user w ≡ ok p
      → hash_of w user ≡ some p.user_password
  unfolding list
  listed_hash user p w proper h =
      elim (Result-cases (passwords.first (where_uuid "user_id = ?" user) w)) [
        | inl (r, f) ↦
            let same : r ≡ p = cc (rw f at h) in
            let (before, after, e) = table.finds _ w r f in
            let rows_of = sym (filter-ext _ _ (rows w) (matches_user user)) ∙ e in
            only_one _ before after r rows_of (proper user) ∙ ap (λ x. some x.user_password) same
        | inr (e, f) ↦
            let refused = rw f at h in
            elim (Bool-cases (is_no_rows e)) [
              | inl g ↦ absurd (cc (rw g at refused))
              | inr g ↦ absurd (cc (rw g at refused))
            ]
      ]

  created_hash :
      (p : Password) (w w' : W)
      → IsProper w
      → hash_of w p.user_id ≡ none
      → create passwords p w ≡ (ok tt, w')
      → IsProper w'
        × ((u : Uuid)
            → hash_of w' u ≡ (if p.user_id == u then some p.user_password else hash_of w u))
  unfolding create
  created_hash p w w' proper fresh h =
      let grown = table.inserts p w w' h in
      (
        λ u. elim (Bool-cases (p.user_id == u)) [
          | inl e ↦
              let same : p.user_id ≡ u = (==_iff _ _).0 e in
              let none_before =
                no_rows_of (of_user u (rows w)) (subst (λ x. hash_of w x ≡ none) same fresh) in
              rw (grown, e) (omega arith)
          | inr e ↦ rw (grown, e) (proper u)
        ],
        λ u. elim (Bool-cases (p.user_id == u)) [
          | inl e ↦ rw (grown, e) refl
          | inr e ↦ rw (grown, e) refl
        ],
      )

  updated_rows :
      (p : Password) (w w' : W)
      → update passwords p w ≡ (ok tt, w')
      → rows w' ≡ map (replaced p) (rows w)
  unfolding update
  updated_rows p w w' h =
      table.replaces p _ w w' h
      ∙ map-ext _ _ (rows w) (λ r. ap (λ b. if b then p else r) (matches_user p.user_id r))

  updated_hash :
      (p : Password) (w w' : W)
      → IsProper w
      → update passwords p w ≡ (ok tt, w')
      → IsProper w'
        × ((u : Uuid)
            → hash_of w' u ≡ (
                if p.user_id == u
                then Option.map (λ h. p.user_password) (hash_of w u)
                else hash_of w u))
  updated_hash p w w' proper h =
      let changed = updated_rows p w w' h in
      (
        λ u. elim (Bool-cases (p.user_id == u)) [
          | inl e ↦
              let same : p.user_id ≡ u = (==_iff _ _).0 e in
              let size = length-map (λ r. p) (of_user p.user_id (rows w)) in
              let few = proper p.user_id in
              rw (changed, sym same, replaced_own p (rows w)) (omega arith)
          | inr e ↦ rw (changed, replaced_other p u (rows w) e) (proper u)
        ],
        λ u. elim (Bool-cases (p.user_id == u)) [
          | inl e ↦
              let same : p.user_id ≡ u = (==_iff _ _).0 e in
              rw (e, changed, sym same, replaced_own p (rows w)) (first_hash-map p _)
          | inr e ↦ rw (e, changed, replaced_other p u (rows w) e) refl
        ],
      )

  -- The store of passwords is a map from users to hashes, as long as no user has two rows.
  pub stored_passwords-IsPasswordMap : IsPasswordMap (stored_passwords passwords) IsProper hash_of
  stored_passwords-IsPasswordMap = record {
    listed = listed_hash;
    created = created_hash;
    updated = updated_hash;
  }
