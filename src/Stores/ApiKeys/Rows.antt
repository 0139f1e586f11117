-- ===== src/Stores/ApiKeys/Rows.antt =====
-- The rows of the table of API keys with their soft deletion, and what a change of rows does to the
-- keys that queries see.
use mathlib.Core.Option
use logtrace_backend.Common.{
  ◌≡◌, refl, ap, ◌∙◌, Bool, Option, none, some, List, [], ◌∷◌, map, arith, ◌==◌, nat_eq, Bool-cases,
  inl, inr, if◌then◌else◌,
}
use logtrace_backend.Domain.{Uuid, ApiKey}

-- A row of api_keys; `deleted` tells whether deleted_at is set.
pub record Stored : Type 0 where
  pub key : ApiKey
  pub deleted : Bool

abbrev pub row_of : Uuid → List Stored → Option Stored
row_of i [] = none
row_of i (r ∷ rs) = if r.key.id == i then some r else row_of i rs

-- What queries see under an identifier: no row was ever there, its row is deleted, or a key.
pub data KeyState : Type 0 where
  absent deleted : KeyState
  live : ApiKey → KeyState

abbrev pub visible : Stored → KeyState
visible r = if r.deleted then deleted else live r.key

abbrev seen : Option Stored → KeyState
seen none = absent
seen (some r) = visible r

abbrev pub state_of : Uuid → List Stored → KeyState
state_of i rs = seen (row_of i rs)

-- What an operation does to the key that is there.
abbrev pub changed : (ApiKey → KeyState) → KeyState → KeyState
changed g absent = absent
changed g deleted = deleted
changed g (live k) = g k

pub row_of-map :
    (f : Stored → Stored) (i : Uuid) (rs : List Stored)
    → ((r : Stored) → (f r).key.id ≡ r.key.id)
    → row_of i (map f rs) ≡ Option.map f (row_of i rs)
row_of-map f i [] keeps = refl
row_of-map f i (r ∷ rs) keeps = elim (Bool-cases (r.key.id == i)) [
  | inl e ↦ ground (arith, keeps r, e)
  | inr e ↦ ground (arith, keeps r, e, row_of-map f i rs keeps)
]

seen-map :
    (f : Stored → Stored) (g : ApiKey → KeyState) (o : Option Stored)
    → ((r : Stored) → visible (f r) ≡ changed g (visible r))
    → seen (Option.map f o) ≡ changed g (seen o)
seen-map f g none changes = refl
seen-map f g (some r) changes = changes r

-- A change of rows that keeps their identifiers changes what queries see one key at a time.
pub state_of-map :
    (f : Stored → Stored) (g : ApiKey → KeyState) (i : Uuid) (rs : List Stored)
    → ((r : Stored) → (f r).key.id ≡ r.key.id)
    → ((r : Stored) → visible (f r) ≡ changed g (visible r))
    → state_of i (map f rs) ≡ changed g (state_of i rs)
state_of-map f g i rs keeps changes =
    ap seen (row_of-map f i rs keeps) ∙ seen-map f g (row_of i rs) changes
