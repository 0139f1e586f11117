-- ===== src/Stores/Users.antt =====
-- internal/datastore/postgres/user.go. A listing has no order and no limit, so its select is a call of
-- its own; the relation to the rows of roles is left out with these.
use Prim.Native.String.{String, ◌++◌}
use mathlib.Core.List
use logtrace_backend.Common.{ℕ, List, ◌==◌, nat_eq, Option, some, if◌then◌else◌}
use logtrace_backend.Common.Int.{ℤ}
use logtrace_backend.GoText.{is_string_empty}
use logtrace_backend.Domain.{Uuid, nil_uuid, user_not_found, Result, ok, err, User}
use logtrace_backend.Repositories.{FindUserOptions, UserRepository}
use logtrace_backend.Sql.{Condition, where_text, Table, Statements, Texts, not_found_as, with_total}
use logtrace_backend.Stores.ApiKeys.{where_id, where_uuid}
use logtrace_backend.Stores.OrganizationUsers.{not_deleted}

-- `organizationIDFilter`: the JSON of a list of one identifier.
unfoldable pub organization_id_filter : Texts → Uuid → String
organization_id_filter t org = if org == nil_uuid then "" else "[\"" ++ (t.uuid_text org ++ "\"]")

abbrev where_member : Texts → Uuid → List Condition
where_member t org =
    if org == nil_uuid
    then List.[]
    else where_text "metadata->'organization_id' @> ?::jsonb" (organization_id_filter t org)

-- An email is compared and stored as `Email.Value` gives it, in lower case.
abbrev where_email : (String → String) → String → List Condition
where_email to_lower email =
    if is_string_empty (to_lower email) then List.[] else where_text "email = ?" (to_lower email)

module _ (t : Texts) (to_lower : String → String) {W : Type 0} (users : Table User W)
    (statements : Statements User W) (select_all : List Condition → W → Result (List User)) where
  abbrev created : Result User × W → Result (Option User) × W
  created (err e, w) = (err e, w)
  created (ok u, w) = (ok (some u), w)

  unfoldable pub create : User → W → Result (Option User) × W
  create u w = created (statements.insert_returning u w)

  unfoldable pub user_conditions : FindUserOptions → List Condition
  user_conditions opts =
      List.◌++◌ (where_email to_lower opts.email) (where_member t opts.organization_id)

  abbrev listed : FindUserOptions → W → Result ℕ → Result (List User × ℤ)
  listed opts w (err e) = err e
  listed opts w (ok total) = with_total total (select_all (user_conditions opts) w)

  unfoldable pub list_all : FindUserOptions → W → Result (List User × ℤ)
  list_all opts w = listed opts w (users.count (List.◌∷◌ not_deleted (user_conditions opts)) w)

  unfoldable pub list : FindUserOptions → W → Result User
  list opts w = not_found_as user_not_found (
      users.first
        (List.◌++◌ (where_email to_lower opts.email)
          (List.◌++◌ (where_id "id = ?" opts.id) (where_member t opts.organization_id)))
        w)

  unfoldable pub update : User → W → Result User × W
  update u w = statements.update_given u (where_uuid "id = ?" u.id) w

  -- `NewUserRepository`
  abbrev pub stored_users : UserRepository W
  stored_users = record { create = create; list = list; list_all = list_all; update = update }
