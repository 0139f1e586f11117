-- ===== src/Stores/ApiKeys/Lifecycle.antt =====
-- The life of an API key in the store: what its creation, its revocation, its use and the job of
-- cmd/cli/cron_api_key_revocation.go do to the key that the middleware finds.
use Prim.Native.String.{String}
use logtrace_backend.Common.{
  ◌≡◌, ◌+◌, ◌-◌, ◌*◌, ◌^◌, Bool, true, false, ◌&&◌, not, ltb, Option, none, some, List, [], ◌∷◌,
  map, ◌==◌, nat_eq, string_eq, if◌then◌else◌,
}
use logtrace_backend.Domain.{Uuid, Time, ok, ApiKey, RevocationType, immediate, day, week}
use logtrace_backend.Sql.{text, uuid, instant, Arg, Predicate, Condition, Table}
use logtrace_backend.Sql.Laws.{matches}
use logtrace_backend.Stores.ApiKeys.Rows.{Stored, KeyState, absent, deleted, live, state_of}

abbrev hours : Time → Time
hours n = n * (3600 * 10 ^ 9)

-- `CURRENT_DATE + INTERVAL 'n days' - INTERVAL '1 hour'`, where the date began at `midnight`.
abbrev pub expiry : Time → Time → Time
expiry midnight days = midnight + hours (24 * days) - hours 1

abbrev pub is_past : Time → Option Time → Bool
is_past now none = false
is_past now (some t) = ltb t now

abbrev pub with_expiry : Time → Stored → Stored
with_expiry t r = record r { key = record r.key { expires_at = some t } }

abbrev pub with_use : Time → ApiKey → ApiKey
with_use t k = record k { last_used_at = some t }

abbrev pub clause : String → List Arg → Predicate
clause s args = record { clause = s; args = args }

abbrev pub assigned : (Predicate → Stored → Stored) → List Predicate → Stored → Stored
assigned set [] r = r
assigned set (p ∷ ps) r = assigned set ps (set p r)

-- What the store relies on in the database: a select gives a matching row that is not deleted, an
-- update changes the matching rows that are not deleted, and the conditions and assignments
-- that the store writes mean what SQL says of them. `holds` and `set` read the clock of the database.
pub record IsKeyTable {W : Type 0} (keys : Table ApiKey W) (rows : W → List Stored)
    (clock midnight : W → Time) (holds : W → Predicate → Stored → Bool)
    (set : W → Predicate → Stored → Stored) : Type 0 where
  pub finds :
      (cs : List Condition) (k : ApiKey) (w : W)
      → keys.first cs w ≡ ok k
      → (state_of k.id (rows w) ≡ live k)
        × (matches (holds w) cs (record { key = k; deleted = false }) ≡ true)
  pub updates :
      (assignments : List Predicate) (cs : List Condition) (w w' : W)
      → keys.update assignments cs w ≡ (ok tt, w')
      → rows w'
        ≡ map
            (λ r.
              if not r.deleted && matches (holds w) cs r then assigned (set w) assignments r else r)
            (rows w)
  pub inserts :
      (k : ApiKey) (w w' : W)
      → keys.insert k w ≡ (ok tt, w')
      → (stored : ApiKey) × (stored.value ≡ k.value)
        × (state_of stored.id (rows w) ≡ absent)
        × (rows w' ≡ record { key = stored; deleted = false } ∷ rows w)
  pub by_id :
      (i : Uuid) (w : W) (r : Stored) → holds w (clause "id = ?" (uuid i ∷ [])) r ≡ (r.key.id == i)
  pub by_value :
      (v : String) (w : W) (r : Stored)
      → holds w (clause "value = ?" (text v ∷ [])) r ≡ (r.key.value == v)
  pub by_expiry :
      (w : W) (r : Stored)
      → holds w (clause "expires_at < NOW()" []) r ≡ is_past (clock w) r.key.expires_at
  pub by_deletion :
      (w : W) (r : Stored) → holds w (clause "deleted_at IS NULL" []) r ≡ not r.deleted
  pub stamps :
      (t : Time) (w : W) (r : Stored) → set w (clause "updated_at = ?" (instant t ∷ [])) r ≡ r
  pub uses :
      (t : Time) (w : W) (r : Stored)
      → set w (clause "last_used_at = ?" (instant t ∷ [])) r ≡ record r { key = with_use t r.key }
  pub expires_today :
      (w : W) (r : Stored)
      → set w (clause "expires_at = CURRENT_DATE + INTERVAL '1 day' - INTERVAL '1 hour'" []) r
        ≡ with_expiry (expiry (midnight w) 1) r
  pub expires_tomorrow :
      (w : W) (r : Stored)
      → set w (clause "expires_at = CURRENT_DATE + INTERVAL '2 days' - INTERVAL '1 hour'" []) r
        ≡ with_expiry (expiry (midnight w) 2) r
  pub expires_next_week :
      (w : W) (r : Stored)
      → set w (clause "expires_at = CURRENT_DATE + INTERVAL '8 days' - INTERVAL '1 hour'" []) r
        ≡ with_expiry (expiry (midnight w) 8) r
  pub deletes :
      (w : W) (r : Stored) → set w (clause "deleted_at = NOW()" []) r ≡ record r { deleted = true }

-- What a revocation makes of a key that is seen: gone at once, or seen with a date of expiry.
abbrev pub revoked_key : Time → Option RevocationType → ApiKey → KeyState
revoked_key midnight none k = live k
revoked_key midnight (some immediate) k = deleted
revoked_key midnight (some day) k = live (record k { expires_at = some (expiry midnight 2) })
revoked_key midnight (some week) k = live (record k { expires_at = some (expiry midnight 8) })

abbrev pub on_key : Uuid → (ApiKey → KeyState) → ApiKey → KeyState
on_key id g k = if k.id == id then g k else live k

-- What the job makes of it.
abbrev pub unexpired : Time → ApiKey → KeyState
unexpired now k = if is_past now k.expires_at then deleted else live k
