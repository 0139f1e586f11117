-- ===== src/Stores/Invitations.antt =====
-- internal/datastore/postgres/invitation.go.
pub mod Deletion
use Prim.Native.String.{String}
use logtrace_backend.Common.{List, [], ◌∷◌, ◌++◌}
use logtrace_backend.Domain.{Uuid, Result}
use logtrace_backend.Invitations.{Invitation, FindInvitationOptions, InvitationRepository}
use logtrace_backend.Sql.{text, Condition, where_text, Table, Statements, Texts}
use logtrace_backend.Stores.ApiKeys.{where_id}
use logtrace_backend.Stores.Events.{where_organization}
use logtrace_backend.Stores.OrganizationUsers.{where_text_given}

-- A condition is left out where its option is nil or empty.
unfoldable pub delete_conditions : FindInvitationOptions → List Condition
delete_conditions opts =
    where_id "id = ?" opts.id
    ++ where_id "organization_id = ?" opts.organization_id
    ++ where_text_given "email = ?" opts.email
    ++ where_text_given "token = ?" opts.token

module _ (t : Texts) {W : Type 0} (invitations : Table Invitation W)
    (statements : Statements Invitation W) where
  unfoldable pub create : Invitation → W → Result (Unit {0}) × W
  create i w = invitations.insert i w

  -- The listing has no order and no limit.
  unfoldable pub list :
      (List Condition → W → Result (List Invitation)) → Uuid → W → Result (List Invitation)
  list select_all org w =
      select_all (where_organization (text (t.uuid_text org)) ∷ where_text "status = ?" "pending") w

  unfoldable pub delete : FindInvitationOptions → W → Result (Unit {0}) × W
  delete opts w = statements.delete (delete_conditions opts) w
