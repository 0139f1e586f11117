-- ===== src/Stores/Organizations.antt =====
-- internal/datastore/postgres/organization.go. Whether an error's text tells of a duplicate is asked of
-- a parameter, which stands for the three calls of strings.Contains on the driver's text.
use Prim.Native.String.{String}
use mathlib.Core.List
use logtrace_backend.Common.{ℕ, Bool, List, if◌then◌else◌}
use logtrace_backend.Common.Int.{ℤ}
use logtrace_backend.Paginator.{offset}
use logtrace_backend.Domain.{
  error_text, organization_not_found, organization_exists, Result, ok, err, Organization,
}
use logtrace_backend.Repositories.{FindOrganizationOptions, OrganizationRepository}
use logtrace_backend.Sql.{
  Condition, where_given, Table, Statements, Texts, not_found_as, with_total,
}
use logtrace_backend.Stores.ApiKeys.{where_uuid}
use logtrace_backend.Stores.OrganizationUsers.{not_deleted}

abbrev pub membership_clause : String
membership_clause =
    "id IN (SELECT elem::uuid FROM users u, jsonb_array_elements_text(u.metadata->'organization_id') AS elem WHERE u.id = ?)"

module _ (t : Texts) (tells_duplicate : String → Bool) {W : Type 0} (orgs : Table Organization W)
    (statements : Statements Organization W) where
  abbrev created : Result Organization × W → Result Organization × W
  created (ok o, w) = (ok o, w)
  created (err e, w) =
      if tells_duplicate (error_text e) then (err organization_exists, w) else (err e, w)

  unfoldable pub create : Organization → W → Result Organization × W
  create o w = created (statements.insert_returning o w)

  unfoldable pub organization_conditions : FindOrganizationOptions → List Condition
  organization_conditions opts =
      List.◌++◌ (where_given "id = ?" (t.uuid_text opts.id)) (where_given "name = ?" opts.name)

  unfoldable pub list : FindOrganizationOptions → W → Result Organization
  list opts w = not_found_as organization_not_found (orgs.first (organization_conditions opts) w)

  unfoldable pub update : Organization → W → Result Organization × W
  update o w = statements.update_given o (where_uuid "id = ?" o.id) w

  unfoldable pub delete : FindOrganizationOptions → W → Result (Unit {0}) × W
  delete opts w = statements.delete (organization_conditions opts) w

  unfoldable pub list_conditions : FindOrganizationOptions → List Condition
  list_conditions opts = List.◌∷◌ not_deleted (
      List.◌++◌ (where_given membership_clause (t.uuid_text opts.user_id))
        (where_given "plan_name = ?" opts.plan))

  abbrev listed : FindOrganizationOptions → W → Result ℕ → Result (List Organization × ℤ)
  listed opts w (err e) = err e
  listed opts w (ok total) =
      with_total total
        (orgs.select (list_conditions opts) "" opts.paginator.per_page (offset opts.paginator) w)

  unfoldable pub list_all : FindOrganizationOptions → W → Result (List Organization × ℤ)
  list_all opts w = listed opts w (orgs.count (list_conditions opts) w)

  -- `NewOrganizationRepository`
  abbrev pub stored_organizations : OrganizationRepository W
  stored_organizations = record {
    create = create;
    list = list;
    update = update;
    delete = delete;
    list_all = list_all;
  }
