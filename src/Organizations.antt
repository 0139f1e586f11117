-- ===== src/Organizations.antt =====
-- server/organization.go. The bound request body is an argument, `none` where `render.Bind` fails, and
-- so is what `time.Now()` returns.
pub mod Creation
pub mod Subscription
use Prim.Native.String.{String}
use logtrace_backend.Common.{
  ℕ, ◌+◌, Bool, true, false, Option, none, some, List, [], ◌∷◌, ◌++◌, if◌then◌else◌,
}
use logtrace_backend.Common.Int.{pos}
use logtrace_backend.GoText.{is_string_empty}
use logtrace_backend.Domain.{
  Uuid, nil_uuid, Time, Error, other, error_text, Result, ok, err, UserMetadata, User, Organization,
}
use logtrace_backend.Http.{
  Context, Handler, NoBody, failure, success, success_with, respond, settle, ask, act, read, check,
  present, deref, ◌>>=◌, ◌>>◌, get_organization_from_context, get_user_from_context,
}
use logtrace_backend.Repositories.{UserRepository, OrganizationRepository, FindOrganizationOptions}
use logtrace_backend.Auth.SignUp.{two_weeks}

-- `orgHandler`, the parts that it uses.
pub record OrganizationServices (W : Type 0) : Type 0 where
  pub orgs : OrganizationRepository W
  pub users : UserRepository W

pub record CreateOrgRequest : Type 0 where
  pub name : String
  pub image_url : String

pub record UpdateOrgRequest : Type 0 where
  pub name : String
  pub image_url : String
  pub is_subscription_active : Bool
  pub plan_name : String
  pub is_active : Bool
  pub subscription_expires_at : Time

unfoldable pub validate_create : CreateOrgRequest → Result (Unit {0})
validate_create c =
    if is_string_empty c.name then err (other "organization name is required") else ok tt

unfoldable pub new_free_organization : Time → CreateOrgRequest → Organization
new_free_organization now req = record {
  id = nil_uuid;
  name = req.name;
  is_active = true;
  plan_name = "Free";
  image_url = req.image_url;
  is_subscription_active = false;
  subscription_expires_at = some (now + two_weeks);
  created_at = 0;
}

abbrev metadata_or_empty : Option UserMetadata → UserMetadata
metadata_or_empty none = record { organization_id = []; user_role = "" }
metadata_or_empty (some m) = m

-- The user, whose metadata gained the organization behind its others.
unfoldable pub with_membership : Uuid → User → User
with_membership org user =
    let m = metadata_or_empty user.metadata in
    record user { metadata = some (record m { organization_id = m.organization_id ++ (org ∷ []) }) }

-- All columns of the organization, as the request has them.
unfoldable pub updated_organization : Uuid → UpdateOrgRequest → Organization
updated_organization org req = record {
  id = org;
  name = req.name;
  is_active = req.is_active;
  plan_name = req.plan_name;
  image_url = req.image_url;
  is_subscription_active = req.is_subscription_active;
  subscription_expires_at = some req.subscription_expires_at;
  created_at = 0;
}

abbrev pub organization_options : Uuid → FindOrganizationOptions
organization_options org = record {
  id = org;
  name = "";
  user_id = nil_uuid;
  plan = "";
  paginator = record { per_page = pos 0; page = pos 0 };
}

module _ {W : Type 0} (s : OrganizationServices W) where
  unfoldable pub create_organization : Time → Context → Option CreateOrgRequest → Handler W NoBody
  create_organization now ctx bound = do
    req ← present bound (failure 400 "invalid request body")
    settle (validate_create req) (λ e. failure 400 (error_text e))
    org ←
        act (s.orgs.create (new_free_organization now req))
          (λ _. failure 500 "Could not create organization at this time. an error occurred")
    pointer ← get_user_from_context ctx
    user ← deref pointer
    updated ←
        act (s.users.update (with_membership org.id user))
          (λ _. failure 500 "Organization created but could not update user membership")
    respond (success 201 "Organization created successfully")

  unfoldable pub update_organization : Context → Option UpdateOrgRequest → Handler W Organization
  update_organization ctx bound = do
    pointer ← get_organization_from_context ctx
    org ← deref pointer
    req ← present bound (failure 400 "invalid request body")
    updated ←
        act (s.orgs.update (updated_organization org.id req))
          (λ _. failure 500 "Could not update organization at this time. an error occurred")
    respond (success_with 200 "Organization updated successfully" updated)

  unfoldable pub delete_organization : Context → Handler W NoBody
  delete_organization ctx = do
    pointer ← get_organization_from_context ctx
    org ← deref pointer
    act (s.orgs.delete (organization_options org.id))
        (λ _. failure 500 "Could not delete organization at this time. an error occurred")
    respond (success 200 "Organization deleted successfully")
