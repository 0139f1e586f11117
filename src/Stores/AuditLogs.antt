-- ===== src/Stores/AuditLogs.antt =====
-- internal/datastore/postgres/audit_log.go. The time is what `time.Now()` returns.
pub mod Tenants
use Prim.Native.String.{String}
use logtrace_backend.Common.{ℕ, List, [], ◌∷◌, ◌++◌}
use logtrace_backend.Common.Int.{ℤ}
use logtrace_backend.Paginator.{offset}
use logtrace_backend.Domain.{Uuid, Time, audit_log_not_found, Result, ok, err}
use logtrace_backend.Sql.{
  text, instant, Condition, where_, where_given, where_search, where_dates, Table, Statements,
  Texts, with_total, as_int64, not_found_as,
}
use logtrace_backend.Trail.{AuditLog, FindAuditLogOptions}
use logtrace_backend.Stores.ApiKeys.{where_uuid}
use logtrace_backend.Stores.Events.{where_organization, day_before}

abbrev audit_log_search : List String
audit_log_search =
    "user_id::text ILIKE ?" ∷ "username ILIKE ?" ∷ "name ILIKE ?" ∷ "ip_address ILIKE ?" ∷ []

unfoldable pub audit_log_conditions : Texts → FindAuditLogOptions → List Condition
audit_log_conditions t opts =
    where_given "user_id = ?" opts.user_id
    ++ where_given "client = ?" opts.client
    ++ where_given "operating_system = ?" opts.operating_system
    ++ where_given "username = ?" opts.user_name
    ++ where_dates "created_at" " 00:00:00" " 23:59:59" opts.start_date opts.end_date
    ++ where_search t audit_log_search opts.search

module _ (t : Texts) {W : Type 0} (audit_logs : Table AuditLog W) where
  unfoldable pub create : AuditLog → W → Result (Unit {0}) × W
  create a w = audit_logs.insert a w

  abbrev listed : FindAuditLogOptions → W → Result ℕ → Result (List AuditLog × ℤ)
  listed opts w (err e) = err e
  listed opts w (ok total) = with_total total (
      audit_logs.select (audit_log_conditions t opts) "created_at DESC" opts.paginator.per_page
        (offset opts.paginator) w)

  unfoldable pub list_all : FindAuditLogOptions → W → Result (List AuditLog × ℤ)
  list_all opts w = listed opts w (audit_logs.count (audit_log_conditions t opts) w)

  unfoldable pub list : FindAuditLogOptions → W → Result AuditLog
  list opts w =
      not_found_as audit_log_not_found
        (audit_logs.first (where_given "?TableAlias.id = ?" (t.uuid_text opts.id)) w)

  unfoldable pub metrics : Time → FindAuditLogOptions → W → Result ℤ
  metrics now opts w = as_int64 (
      audit_logs.count
        (where_ (record { clause = "deleted_at IS NULL"; args = [] })
          ∷ where_ (record { clause = "created_at >= ?"; args = instant (day_before now) ∷ [] })
          ∷ where_organization (text (t.uuid_text opts.organization_id))
          ∷ [])
        w)

  abbrev delete_found : Statements AuditLog W → Result AuditLog → W → Result (Unit {0}) × W
  delete_found statements (err e) w = (err e, w)
  delete_found statements (ok a) w = statements.delete (where_uuid "id = ?" a.id) w

  unfoldable pub delete : Statements AuditLog W → FindAuditLogOptions → W → Result (Unit {0}) × W
  delete statements opts w =
      delete_found statements
        (not_found_as audit_log_not_found
          (audit_logs.first (where_given "id = ?" (t.uuid_text opts.id)) w))
        w
