-- ===== src/Stores/AuditLogs/Tenants.antt =====
-- Which organization the audit log is read for.
use logtrace_backend.Common.{◌≡◌, refl}
use logtrace_backend.Domain.{Uuid}
use logtrace_backend.Sql.{Table, Texts}
use logtrace_backend.Trail.{AuditLog, FindAuditLogOptions}
use logtrace_backend.Stores.AuditLogs.{audit_log_conditions, list_all, list}

-- The organization in the options makes no difference: the listing and the fetch by id read the
-- audit logs of all organizations alike.
pub audit_logs-ignore_organization :
    (t : Texts) {W : Type 0} (audit_logs : Table AuditLog W) (opts : FindAuditLogOptions)
    (org : Uuid) (w : W)
    → (list_all t audit_logs (record opts { organization_id = org }) w
        ≡ list_all t audit_logs opts w)
      × (list t audit_logs (record opts { organization_id = org }) w ≡ list t audit_logs opts w)
unfolding list_all list audit_log_conditions
audit_logs-ignore_organization t audit_logs opts org w = (refl, refl)
