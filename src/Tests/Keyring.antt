-- ===== src/Tests/Keyring.antt =====
-- A table of two API keys in memory, and that it does what the store relies on.
use logtrace_backend.Common.{
  ◌≡◌, refl, ap, sym, ◌∙◌, Bool, true, false, ◌&&◌, not, List, [], ◌∷◌, arith, ◌==◌, nat_eq,
  string_eq, Bool-cases, inl, inr, if◌then◌else◌,
}
use logtrace_backend.Domain.{Uuid, Time, no_rows, other, ok, err, Result, ApiKey}
use logtrace_backend.Sql.{Arg, text, uuid, instant, Predicate, Condition, Table}
use logtrace_backend.Sql.Laws.{matches}
use logtrace_backend.Stores.ApiKeys.{RunInTx}
use logtrace_backend.Stores.ApiKeys.Limit.{IsTransaction}
use logtrace_backend.Stores.ApiKeys.Rows.{Stored, visible, state_of, live}
use logtrace_backend.Stores.ApiKeys.Lifecycle.{
  IsKeyTable, assigned, expiry, is_past, with_expiry, with_use,
}

-- The two rows, under the identifiers 5 and 6.
abbrev pub World : Type 0
World = Stored × Stored

abbrev under : Uuid → Stored → Stored
under i r = record r { key = record r.key { id = i } }

abbrev pub rows : World → List Stored
rows (a, b) = under 5 a ∷ under 6 b ∷ []

abbrev pub now : World → Time
now w = 1000

abbrev pub midnight : World → Time
midnight w = 0

abbrev names : List Arg → ApiKey → Bool
names (uuid i ∷ []) k = k.id == i
names (text v ∷ []) k = k.value == v
names args k = true

abbrev pub holds : World → Predicate → Stored → Bool
holds w p r =
    if p.clause == "expires_at < NOW()"
    then is_past 1000 r.key.expires_at
    else if p.clause == "deleted_at IS NULL"
    then not r.deleted
    else names p.args r.key

abbrev used_at : List Arg → Stored → Stored
used_at (instant t ∷ []) r = record r { key = with_use t r.key }
used_at args r = r

abbrev pub set : World → Predicate → Stored → Stored
set w p r =
    if p.clause == "expires_at = CURRENT_DATE + INTERVAL '1 day' - INTERVAL '1 hour'"
    then with_expiry (expiry 0 1) r
    else if p.clause == "expires_at = CURRENT_DATE + INTERVAL '2 days' - INTERVAL '1 hour'"
    then with_expiry (expiry 0 2) r
    else if p.clause == "expires_at = CURRENT_DATE + INTERVAL '8 days' - INTERVAL '1 hour'"
    then with_expiry (expiry 0 8) r
    else if p.clause == "deleted_at = NOW()"
    then record r { deleted = true }
    else if p.clause == "last_used_at = ?"
    then used_at p.args r
    else r

abbrev fits : World → List Condition → Stored → Bool
fits w cs r = not r.deleted && matches (holds w) cs r

abbrev pick : World → List Condition → List Stored → Result ApiKey
pick w cs [] = err no_rows
pick w cs (r ∷ rs) = if fits w cs r then ok r.key else pick w cs rs

abbrev updated : World → List Predicate → List Condition → Stored → Stored
updated w assignments cs r = if fits w cs r then assigned (set w) assignments r else r

abbrev pub keyring : Table ApiKey World
keyring = record {
  holds = λ p k. true;
  count = λ cs w. ok 2;
  select = λ cs order limit offset w. ok [];
  first = λ cs w. pick w cs (rows w);
  insert = λ k w. (err (other "the table is full"), w);
  update = λ assignments cs w.
      (ok tt, (updated w assignments cs (under 5 w.0), updated w assignments cs (under 6 w.1)));
  replace = λ k cs w. (err (other "not used"), w);
}

used_at-id : (args : List Arg) (r : Stored) → (used_at args r).key.id ≡ r.key.id
used_at-id [] r = refl
used_at-id (instant t ∷ []) r = refl
used_at-id (instant t ∷ b ∷ args) r = refl
used_at-id (text v ∷ args) r = refl
used_at-id (uuid i ∷ args) r = refl

set-id : (w : World) (p : Predicate) (r : Stored) → (set w p r).key.id ≡ r.key.id
set-id w p r = ground (arith, used_at-id p.args r)

assigned-id :
    (w : World) (ps : List Predicate) (r : Stored) → (assigned (set w) ps r).key.id ≡ r.key.id
assigned-id w [] r = refl
assigned-id w (p ∷ ps) r = assigned-id w ps (set w p r) ∙ set-id w p r

updated-id :
    (w : World) (ps : List Predicate) (cs : List Condition) (r : Stored)
    → (updated w ps cs r).key.id ≡ r.key.id
updated-id w ps cs r = ground (arith, assigned-id w ps r)

under_self : (i : Uuid) (r : Stored) → r.key.id ≡ i → under i r ≡ r
under_self i r h = ground arith

updated_rows :
    (w w' : World) (ps : List Predicate) (cs : List Condition)
    → (updated w ps cs (under 5 w.0), updated w ps cs (under 6 w.1)) ≡ w'
    → rows w' ≡ updated w ps cs (under 5 w.0) ∷ updated w ps cs (under 6 w.1) ∷ []
updated_rows w w' ps cs h =
    let a = under_self 5 _ (updated-id w ps cs (under 5 w.0)) in
    let b = under_self 6 _ (updated-id w ps cs (under 6 w.1)) in
    ap rows (sym h)
    ∙ ap (λ x. x ∷ under 6 (updated w ps cs (under 6 w.1)) ∷ []) a
    ∙ ap (λ x. updated w ps cs (under 5 w.0) ∷ x ∷ []) b

-- A row that is not deleted and fits is found in its state.
found_row :
    (i : Uuid) (r : Stored) (cs : List Condition) (k : ApiKey) (w : World)
    → state_of i (rows w) ≡ visible r
    → r.key.id ≡ i
    → fits w cs r ≡ true
    → r.key ≡ k
    → (state_of k.id (rows w) ≡ live k)
      × (matches (holds w) cs (record { key = k; deleted = false }) ≡ true)
found_row i r cs k w there named fit same =
    let kept : r.deleted ≡ false = ground arith in
    let fits_row : matches (holds w) cs r ≡ true = ground arith in
    let row : r ≡ record { key = k; deleted = false } = ground arith in
    let shown : visible r ≡ live k = ground arith in
    (
      ap (λ x. state_of x.id (rows w)) (sym same)
          ∙ ap (λ j. state_of j (rows w)) named
          ∙ there
          ∙ shown,
      ap (λ x. matches (holds w) cs x) (sym row) ∙ fits_row,
    )

pick_finds :
    (cs : List Condition) (k : ApiKey) (w : World)
    → pick w cs (rows w) ≡ ok k
    → (state_of k.id (rows w) ≡ live k)
      × (matches (holds w) cs (record { key = k; deleted = false }) ≡ true)
pick_finds cs k w h = elim (Bool-cases (fits w cs (under 5 w.0))) [
  | inl e ↦ found_row 5 (under 5 w.0) cs k w refl refl e (ground arith)
  | inr e ↦ elim (Bool-cases (fits w cs (under 6 w.1))) [
    | inl f ↦ found_row 6 (under 6 w.1) cs k w refl refl f (ground arith)
    | inr f ↦ absurd (ground arith)
  ]
]

pub table : IsKeyTable keyring rows now midnight holds set
unfolding matches
table = record {
  finds = λ cs k w h. pick_finds cs k w h;
  updates = λ assignments cs w w' h. updated_rows w w' assignments cs (ground arith);
  inserts = λ k w w' h. absurd (ground arith);
  by_id = λ i w r. refl;
  by_value = λ v w r. refl;
  by_expiry = λ w r. refl;
  by_deletion = λ w r. refl;
  stamps = λ t w r. refl;
  uses = λ t w r. refl;
  expires_today = λ w r. refl;
  expires_tomorrow = λ w r. refl;
  expires_next_week = λ w r. refl;
  deletes = λ w r. refl;
}

abbrev pub at_once : RunInTx World
at_once body w = (err (other "not used"), w)

pub tx : IsTransaction at_once
tx = record { committed = λ body w w' h. absurd (ground arith); rolled_back = λ body w w' e h. cc }
