-- ===== src/AuditLogHandlers/Attribution.antt =====
-- Whom an audit log is recorded for.
use logtrace_backend.Common.{◌≡◌, refl, false, some, ◌∷◌, ◌==◌, nat_eq}
use logtrace_backend.GoText.{is_string_empty}
use logtrace_backend.Domain.{nil_uuid, Time, ok, Organization}
use logtrace_backend.Http.{Context, ◌>>=◌}
use logtrace_backend.Repositories.{OrganizationUser, OrganizationUserRepository}
use logtrace_backend.OrganizationUsers.{with_organization_user}
use logtrace_backend.Sql.{Table}
use logtrace_backend.Stores.ApiKeys.{where_uuid}
use logtrace_backend.Stores.OrganizationUsers.{not_deleted, find_conditions, create, find}
use logtrace_backend.AuditLogHandlers.{
  AuditLogServices, CreateAuditLogRequest, validate_audit_log, new_audit_log, as_user,
  enqueue_audit_log, create_audit_log,
}

-- `NewOrganizationUserRepository`
abbrev pub stored_users : {W : Type 0} → Table OrganizationUser W → OrganizationUserRepository W
stored_users users = record { find = find users; create = create users }

module _ {W : Type 0} (users : Table OrganizationUser W) (services : AuditLogServices W) where
  abbrev pub over_users : AuditLogServices W
  over_users = record services { org_users = stored_users users }

  -- An audit log that names its user, but not by an identifier, is put on the queue for whatever
  -- user of the organization the database gives first: the name in the request is not looked at.
  pub create_audit_log-first_user :
      (now : Time) (ctx : Context) (req : CreateAuditLogRequest) (org : Organization)
      (u : OrganizationUser) (w : W)
      → is_string_empty req.name ≡ false
      → is_string_empty req.user_name ≡ false
      → req.user_id ≡ ""
      → ctx.organization ≡ some (some org)
      → (org.id == nil_uuid) ≡ false
      → users.first (not_deleted ∷ where_uuid "organization_id = ?" org.id) w ≡ ok u
      → create_audit_log over_users now ctx (some req) w
        ≡ enqueue_audit_log over_users
            (new_audit_log
              (record req { user_id = u.user_id; user_name = u.username })
              (services.geo_ip_lookup req.request_details.ip_address w)
              now
              org.id)
            w
  unfolding create_audit_log validate_audit_log with_organization_user find find_conditions as_user
      ◌>>=◌ is_string_empty enqueue_audit_log
  create_audit_log-first_user now ctx req org u w named known anonymous in_context proper first_is =
      rw (named, known, in_context, anonymous, proper, first_is) refl
