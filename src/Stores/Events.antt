-- ===== src/Stores/Events.antt =====
-- internal/datastore/postgres/event.go. The time is what `time.Now()` returns.
pub mod Growth
pub mod Isolation
use Prim.Native.String.{String}
use logtrace_backend.Common.{
  ℕ, ◌-◌, ◌*◌, Bool, true, false, ◌&&◌, List, [], ◌∷◌, ◌++◌, Option, none, some, ◌==◌, nat_eq,
  string_eq, if◌then◌else◌, code,
}
use logtrace_backend.Common.Int.{ℤ, pos}
use logtrace_backend.GoText.{is_string_empty, status_class}
use logtrace_backend.Paginator.{offset}
use logtrace_backend.Domain.{Uuid, Time, Error, event_not_found, is_no_rows, Result, ok, err}
use logtrace_backend.Sql.{
  Arg, uuid, text, instant, Predicate, Condition, where_, where_given, where_search, where_dates,
  where_text, starting_with, with_total, as_int64, not_found_as, Table, Texts,
}
use logtrace_backend.Trail.{Event, ListEventOptions, TopActorMetrics}

abbrev pub day_before : Time → Time
day_before now = now - 24 * 3600 * 1000000000

-- `Where("organization_id = ?", …)`
abbrev pub where_organization : Arg → Condition
where_organization a = where_ (record { clause = "organization_id = ?"; args = a ∷ [] })

-- The condition on a status: of a class such as "4xx", or of one status.
unfoldable pub where_status : String → List Condition
where_status s = if is_string_empty s then [] else elim (status_class s) [
  | some c ↦ where_text "http_status LIKE ?" (starting_with c)
  | none ↦ where_text "http_status = ?" s
]

abbrev event_search : List String
event_search =
    "user_id::text ILIKE ?" ∷ "http_status ILIKE ?" ∷ "http_method ILIKE ?" ∷ "name ILIKE ?"
    ∷ "username ILIKE ?" ∷ "client_user_agent ILIKE ?" ∷ "geo_ip_location ILIKE ?"
    ∷ "http_endpoint ILIKE ?" ∷ []

-- `buildQuery`; the text of an identifier is tested, the identifier is the argument.
unfoldable pub event_conditions : Texts → ListEventOptions → List Condition
event_conditions t opts =
    (if is_string_empty (t.uuid_text opts.organization_id)
      then []
      else where_organization (uuid opts.organization_id) ∷ [])
    ++ where_status opts.http_status
    ++ where_given "http_method = ?" opts.http_method
    ++ where_given "name = ?" opts.name
    ++ where_given "user_id = ?" opts.user_id
    ++ where_given "username = ?" opts.username
    ++ where_dates "created_at" " 00:00:00" " 23:59:59" opts.start_date opts.end_date
    ++ where_search t event_search opts.search

module _ (t : Texts) {W : Type 0} (events : Table Event W) where
  unfoldable pub create : Event → W → Result (Unit {0}) × W
  create e w = events.insert e w

  list_conditions : ListEventOptions → List Condition
  list_conditions opts =
      where_organization (uuid opts.organization_id) ∷ where_given "id = ?" (t.uuid_text opts.id)
      ++ where_given "name = ?" opts.name

  unfoldable pub list : ListEventOptions → W → Result Event
  unfolding list_conditions
  list opts w = not_found_as event_not_found (events.first (list_conditions opts) w)

  -- The page of the listing once the rows are counted.
  abbrev listed : ListEventOptions → W → Result ℕ → Result (List Event × ℤ)
  listed opts w (err e) = err e
  listed opts w (ok total) = with_total total (
      events.select (event_conditions t opts) "created_at DESC" opts.paginator.per_page
        (offset opts.paginator) w)

  unfoldable pub list_all : ListEventOptions → W → Result (List Event × ℤ)
  list_all opts w = listed opts w (events.count (event_conditions t opts) w)

  unfoldable pub metrics : Time → ListEventOptions → W → Result ℤ
  metrics now opts w = as_int64 (
      events.count
        (where_ (record { clause = "deleted_at IS NULL"; args = [] })
          ∷ where_ (record { clause = "created_at >= ?"; args = instant (day_before now) ∷ [] })
          ∷ where_organization (text (t.uuid_text opts.organization_id))
          ∷ [])
        w)

  -- A select of columns from a table, grouped by the first of them, in an order, with a limit.
  unfoldable pub top_actor_metrics :
      (List String → List Condition → String → ℕ → W → Result (List TopActorMetrics))
      → Time
      → ListEventOptions
      → W
      → Result (List TopActorMetrics)
  top_actor_metrics select_grouped now opts w =
      select_grouped ("COALESCE(NULLIF(username, ''), user_id) AS name" ∷ "COUNT(*) AS events" ∷ [])
        (where_ (record { clause = "deleted_at IS NULL"; args = [] })
          ∷ where_ (record { clause = "created_at >= ?"; args = instant (day_before now) ∷ [] })
          ∷ where_organization (text (t.uuid_text opts.organization_id))
          ∷ [])
        "events DESC" 5 w
