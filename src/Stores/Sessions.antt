-- ===== src/Stores/Sessions.antt =====
-- internal/datastore/postgres/session.go. The time is what `time.Now()` returns.
pub mod Logout
use Prim.Native.String.{String}
use logtrace_backend.Common.{ℕ, List, [], ◌∷◌, ◌++◌, Bool, true, false, if◌then◌else◌}
use logtrace_backend.Common.Int.{ℤ, pos}
use logtrace_backend.Paginator.{offset}
use logtrace_backend.Domain.{Uuid, Time, Result, ok, err}
use logtrace_backend.Sql.{
  text, instant, Condition, where_, where_text, where_given, where_search, where_dates, Table,
  Texts, with_total,
}
use logtrace_backend.Trail.{Session, FindSessionOptions, ListSessionsOptions}
use logtrace_backend.Stores.Events.{where_organization, day_before}

abbrev session_search : List String
session_search =
    "user_id::text ILIKE ?" ∷ "ip_address::text ILIKE ?" ∷ "username ILIKE ?" ∷ "location ILIKE ?"
    ∷ "device_info ILIKE ?" ∷ []

unfoldable pub session_conditions : Texts → ListSessionsOptions → List Condition
session_conditions t opts =
    where_given "organization_id = ?" (t.uuid_text opts.organization_id)
    ++ where_given "status = ?" opts.status
    ++ where_dates "DATE(login_at)" "" "" opts.start_date opts.end_date
    ++ where_search t session_search opts.search

-- The conditions of the two counts of `Metrics`.
unfoldable pub metrics_conditions :
    Texts → Time → FindSessionOptions → List Condition → List Condition
metrics_conditions t now opts between =
    where_ (record { clause = "deleted_at IS NULL"; args = [] })
      ∷ where_organization (text (t.uuid_text opts.organization_id))
      ∷ between
    ++ where_ (record { clause = "created_at >= ?"; args = instant (day_before now) ∷ [] }) ∷ []

suspicious : List Condition
suspicious =
    where_ (record { clause = "user_id IS NULL AND username IS NULL AND token IS NULL"; args = [] })
    ∷ []

module _ (t : Texts) {W : Type 0} (sessions : Table Session W) where
  unfoldable pub create : Session → W → Result (Unit {0}) × W
  create s w = sessions.insert s w

  unfoldable pub list : FindSessionOptions → W → Result Session
  list opts w =
      sessions.first
        (where_given "id = ?" (t.uuid_text opts.id)
          ++ where_given "user_id = ?" (t.uuid_text opts.user_id)
          ++ where_given "organization_id = ?" (t.uuid_text opts.organization_id))
        w

  abbrev listed : ListSessionsOptions → W → Result ℕ → Result (List Session × ℤ)
  listed opts w (err e) = err e
  listed opts w (ok total) = with_total total (
      sessions.select (session_conditions t opts) "login_at DESC" opts.paginator.per_page
        (offset opts.paginator) w)

  unfoldable pub list_all : ListSessionsOptions → W → Result (List Session × ℤ)
  list_all opts w = listed opts w (sessions.count (session_conditions t opts) w)

  -- The error of the second count is dropped, its number is then what bun gives, 0.
  abbrev counted : Result ℕ → Result ℕ → Result (ℤ × ℤ)
  counted (err e) more = err e
  counted (ok total) (err e) = ok (pos total, pos 0)
  counted (ok total) (ok n) = ok (pos total, pos n)

  unfoldable pub metrics : Time → FindSessionOptions → W → Result (ℤ × ℤ)
  unfolding suspicious
  metrics now opts w =
      counted (sessions.count (metrics_conditions t now opts []) w)
        (sessions.count (metrics_conditions t now opts suspicious) w)

  unfoldable pub logout_conditions : FindSessionOptions → List Condition
  logout_conditions opts =
      where_organization (text (t.uuid_text opts.organization_id))
        ∷ where_given "token = ?" opts.token
      ++ where_given "id = ?" (t.uuid_text opts.id)

  unfoldable pub logout : Time → FindSessionOptions → W → Result (Unit {0}) × W
  logout now opts w =
      sessions.update (record { clause = "logout_at = ?"; args = instant now ∷ [] } ∷ [])
        (logout_conditions opts) w
