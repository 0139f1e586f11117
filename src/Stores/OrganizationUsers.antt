-- ===== src/Stores/OrganizationUsers.antt =====
-- internal/datastore/postgres/organization_user.go.
use Prim.Native.String.{String}
use logtrace_backend.Common.{
  ℕ, List, [], ◌∷◌, ◌++◌, Option, none, some, ◌==◌, string_eq, if◌then◌else◌,
}
use logtrace_backend.Common.Int.{ℤ}
use logtrace_backend.Paginator.{Paginator, offset}
use logtrace_backend.Domain.{Uuid, Error, Result, ok, err}
use logtrace_backend.Repositories.{OrganizationUser, FindOrganizationUserOptions}
use logtrace_backend.Sql.{Condition, where_, where_text, Table, with_total}
use logtrace_backend.Stores.ApiKeys.{where_id}

pub record ListOrganizationUserOptions : Type 0 where
  pub organization_id : Uuid
  pub paginator : Paginator

abbrev pub not_deleted : Condition
not_deleted = where_ (record { clause = "deleted_at IS NULL"; args = [] })

-- `if s != "" { query = query.Where(clause, s) }`, which a text of spaces passes.
abbrev pub where_text_given : String → String → List Condition
where_text_given clause s = if s == "" then [] else where_text clause s

unfoldable pub find_conditions : FindOrganizationUserOptions → List Condition
find_conditions opts =
    not_deleted ∷ where_text_given "user_id = ?" opts.user_id
    ++ where_id "organization_id = ?" opts.organization_id
    ++ where_text_given "username = ?" opts.username

module _ {W : Type 0} (users : Table OrganizationUser W) where
  unfoldable pub create : OrganizationUser → W → Result (Unit {0}) × W
  create u w = users.insert u w

  abbrev as_pair : Result OrganizationUser → Option OrganizationUser × Option Error
  as_pair (ok u) = (some u, none)
  as_pair (err e) = (none, some e)

  unfoldable pub find : FindOrganizationUserOptions → W → Option OrganizationUser × Option Error
  find opts w = as_pair (users.first (find_conditions opts) w)

  unfoldable pub user_conditions : ListOrganizationUserOptions → List Condition
  user_conditions opts = not_deleted ∷ where_id "organization_id = ?" opts.organization_id

  abbrev listed : ListOrganizationUserOptions → W → Result ℕ → Result (List OrganizationUser × ℤ)
  listed opts w (err e) = err e
  listed opts w (ok total) = with_total total (
      users.select (user_conditions opts) "created_at DESC" opts.paginator.per_page
        (offset opts.paginator) w)

  unfoldable pub list : ListOrganizationUserOptions → W → Result (List OrganizationUser × ℤ)
  list opts w = listed opts w (users.count (user_conditions opts) w)
