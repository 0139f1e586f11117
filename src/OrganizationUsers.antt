-- ===== src/OrganizationUsers.antt =====
-- What the Create handlers of server/event.go, server/audit_log.go and server/session.go have in
-- common: the location behind an address, and the user of the organization that is found, or created
-- where there is none, before the rest runs.
pub mod Registered
use Prim.Native.String.{String, ◌++◌}
use logtrace_backend.Common.{
  Bool, true, false, not, Option, none, some, ◌==◌, string_eq, if◌then◌else◌,
}
use logtrace_backend.Domain.{Error, is_no_rows}
use logtrace_backend.Http.{
  Action, Handler, failure, settle, ask, act, read, check, present, deref, ◌>>=◌, ◌>>◌,
}
use logtrace_backend.Repositories.{
  OrganizationUser, FindOrganizationUserOptions, OrganizationUserRepository,
}

-- The country, and the city behind it where there is one.
unfoldable pub geo_location : Option (String × String) → String
geo_location none = ""
geo_location (some (country, city)) = if city == "" then country else country ++ (", " ++ city)

-- `err != nil && !errors.Is(err, sql.ErrNoRows)`
abbrev pub is_find_failure : Option Error → Bool
is_find_failure none = false
is_find_failure (some e) = not (is_no_rows e)

module _ {W B : Type 0} (org_users : OrganizationUserRepository W) where
  -- The user that is given on, or creates and gives on nothing.
  abbrev found_or_created :
      Option OrganizationUser
      → OrganizationUser
      → (Option OrganizationUser → Handler W B)
      → Handler W B
  found_or_created (some u) new rest = rest (some u)
  found_or_created none new rest = do
    act (org_users.create new) (λ _. failure 500 "failed to create organization user")
    rest none

  unfoldable pub with_organization_user :
      FindOrganizationUserOptions
      → OrganizationUser
      → (Option OrganizationUser → Handler W B)
      → Handler W B
  with_organization_user opts new rest = do
    (user, e) ← read (org_users.find opts)
    check (not (is_find_failure e)) (failure 500 "failed to find organization user")
    found_or_created user new rest
