-- ===== src/Invitations.antt =====
-- invitation.go and server/invitation.go. The bound request body is an argument, `none` where
-- `render.Bind` fails; so are `time.Now()`, `uuid.New()` and what `uuid.Parse` makes of a reference.
use Prim.Native.String.{String}
use logtrace_backend.Common.{Option, List, if◌then◌else◌}
use logtrace_backend.GoText.{is_string_empty}
use logtrace_backend.Domain.{Uuid, nil_uuid, Time, other, error_text, Result, ok, err}
use logtrace_backend.Http.{
  Context, Handler, NoBody, failure, success, success_with, respond, settle, ask, act, present,
  deref, ◌>>=◌, ◌>>◌, get_organization_from_context,
}
use logtrace_backend.Repositories.{JwTokenManager, token_data_for}

pub record Invitation : Type 0 where
  pub id : Uuid
  pub organization_id : Uuid
  pub email : String
  pub fullname : String
  pub role : String
  pub token : String
  pub status : String
  pub created_at : Time

pub record FindInvitationOptions : Type 0 where
  pub organization_id : Uuid
  pub email : String
  pub id : Uuid
  pub token : String

-- The options of a listing are the organization.
pub record InvitationRepository (W : Type 0) : Type 0 where
  pub create : Invitation → W → Result (Unit {0}) × W
  pub list : Uuid → W → Result (List Invitation)
  pub delete : FindInvitationOptions → W → Result (Unit {0}) × W

pub record CreateInvitationRequest : Type 0 where
  pub fullname : String
  pub email : String
  pub role : String

unfoldable pub validate_create : CreateInvitationRequest → Result (Unit {0})
validate_create c =
    if is_string_empty c.fullname
    then err (other "fullname is required")
    else if is_string_empty c.email
    then err (other "email is required")
    else if is_string_empty c.role
    then err (other "role is required")
    else ok tt

unfoldable pub new_invitation : CreateInvitationRequest → Uuid → String → Invitation
new_invitation req org token = record {
  id = nil_uuid;
  organization_id = org;
  email = req.email;
  fullname = req.fullname;
  role = req.role;
  token = token;
  status = "pending";
  created_at = 0;
}

abbrev pub delete_options : Uuid → Uuid → FindInvitationOptions
delete_options org id = record { organization_id = org; email = ""; id = id; token = "" }

module _ {W : Type 0} (jwt : JwTokenManager) (invitations : InvitationRepository W) where
  -- The argument after the time is the fresh identifier for the token.
  unfoldable pub create_invitation :
      Time → Uuid → Context → Option CreateInvitationRequest → Handler W NoBody
  create_invitation now fresh ctx bound = do
    req ← present bound (failure 400 "failed to validate payload")
    settle (validate_create req) (λ e. failure 400 (error_text e))
    pointer ← get_organization_from_context ctx
    org ← deref pointer
    token_data ←
        settle (jwt.generate_jw_token now (token_data_for fresh))
          (λ _. failure 500 "failed to generate invitation token")
    act (invitations.create (new_invitation req org.id token_data.token))
        (λ _. failure 500 "failed to create invitation")
    respond (success 201 "Invitation created successfully")

  unfoldable pub list_invitations : Context → Handler W (List Invitation)
  list_invitations ctx = do
    pointer ← get_organization_from_context ctx
    org ← deref pointer
    found ← ask (invitations.list org.id) (λ _. failure 500 "failed to list invitations")
    respond (success_with 200 "Invitations fetched successfully" found)

  -- The argument after the context is the reference, parsed.
  unfoldable pub delete_invitation : Context → Option Uuid → Handler W NoBody
  delete_invitation ctx reference = do
    id ← present reference (failure 400 "invalid invitation reference")
    pointer ← get_organization_from_context ctx
    org ← deref pointer
    act (invitations.delete (delete_options org.id id))
        (λ _. failure 500 "failed to delete invitation")
    respond (success 200 "Invitation deleted successfully")
