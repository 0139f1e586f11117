-- ===== src/Auth/Members.antt =====
-- server/auth.go: the current user, the users of an organization, invitations by email, and the
-- revocation of a user's role.
pub mod Roles
use logtrace_backend.Common.{
  String, Bool, true, false, not, ◌==◌, Option, none, some, List, [], ◌∷◌, if◌then◌else◌,
}
use logtrace_backend.Common.Int.{ℤ}
use logtrace_backend.Domain.{
  Uuid, nil_uuid, Time, Error, error_text, is_user_exists, is_user_not_found, Result, ok, err, User,
  UserMetadata, Organization, new_email_verification,
}
use logtrace_backend.Http.{
  Request, Context, Action, Handler, NoBody, failure, success, success_with, pure, respond, settle,
  ask, act, read, check, present, deref, ◌>>=◌, ◌>>◌, get_user_from_context,
  get_organization_from_context, does_organization_exist_in_context,
}
use logtrace_backend.Repositories.{FindUserOptions, FindOrganizationOptions, invite_team_member}
use logtrace_backend.Paginator.{Paginator}
use logtrace_backend.Middleware.{no_paginator, find_user_by_id, has_organization_membership}
use logtrace_backend.Auth.{
  Tools, Services, Draw, InviteUserRequest, find_user_by_email, validate_invite, email_string,
}

abbrev pub organizations_of : Uuid → FindOrganizationOptions
organizations_of user = record {
  id = nil_uuid;
  name = "";
  user_id = user;
  plan = "";
  paginator = no_paginator;
}

abbrev pub users_of : Uuid → FindUserOptions
users_of org = record { email = ""; id = nil_uuid; organization_id = org; paginator = no_paginator }

-- `fetchUserResponse` of the current user.
pub record CurrentUser : Type 0 where
  pub id : Uuid
  pub username : String
  pub email : String
  pub full_name : String
  pub phone : String
  pub created_at : Time
  pub metadata : Option UserMetadata
  pub role_name : String
  pub organization : Option Organization
  pub organizations : List Organization

-- `listUsersResponse`
pub record UserPage : Type 0 where
  pub users : List User
  pub total : ℤ
  pub paging : Paginator

abbrev role_of : Option UserMetadata → String
role_of none = ""
role_of (some m) = m.user_role

abbrev pub invited : InviteUserRequest → Uuid → User
invited req org = record {
  id = nil_uuid;
  email = req.email;
  full_name = req.full_name;
  email_verified_at = none;
  metadata = some (record { organization_id = org ∷ []; user_role = req.role });
  phone = "";
  status = "pending";
  created_at = 0;
}

-- `user.Metadata.UserRole = "member"`, where the metadata is not nil.
abbrev pub as_member : User → UserMetadata → User
as_member user m = record user { metadata = some (record m { user_role = "member" }) }

module _ (tools : Tools) {W : Type 0} (s : Services W) where
  -- The organization in the context, nil where there is none.
  unfoldable pub current_organization : Context → Action W CurrentUser (Option Organization)
  current_organization ctx =
      if does_organization_exist_in_context ctx
      then get_organization_from_context ctx
      else pure none

  unfoldable pub fetch_current_user : Context → Handler W CurrentUser
  fetch_current_user ctx = do
    pointer ← get_user_from_context ctx
    org ← current_organization ctx
    user ← deref pointer
    orgs ←
        ask (s.orgs.list_all (organizations_of user.id))
          (λ _. failure 500 "an error occurred while fetching user organizations")
    respond (
        success_with 200 "fetched current user" (record {
          id = user.id;
          username = user.full_name;
          email = email_string tools user.email;
          full_name = user.full_name;
          phone = user.phone;
          created_at = user.created_at;
          metadata = user.metadata;
          role_name = role_of user.metadata;
          organization = org;
          organizations = orgs.0;
        }))

  unfoldable pub list_organization_users : Context → Handler W UserPage
  list_organization_users ctx = do
    pointer ← get_organization_from_context ctx
    org ← deref pointer
    found ←
        ask (s.users.list_all (users_of org.id))
          (λ _. failure 500 "could not list organization users")
    respond (
        success_with 200 "listed organization users"
          (record { users = found.0; total = found.1; paging = (users_of org.id).paginator }))

  -- What `inviteUserByEmail` does with the result of the search for the email.
  unfoldable pub refuse_existing : Context → Result User → Action W NoBody (Unit {0})
  refuse_existing ctx (ok existing) = do
    pointer ← get_organization_from_context ctx
    org ← deref pointer
    if has_organization_membership (some existing) org.id
        then respond (failure 409 "User already exists in this organization")
        else respond (failure 409 "User already exists")
  refuse_existing ctx (err e) =
      check (is_user_not_found e) (failure 500 "could not check user existence")

  -- The only error of `Create` that is looked at is ErrUserExists.
  abbrev is_exists : {A : Type 0} → Result A → Bool
  is_exists (ok _) = false
  is_exists (err e) = is_user_exists e

  abbrev creates : User → W → Result (Result (Option User)) × W
  creates user w = let (r, w') = s.users.create user w in (ok r, w')

  unfoldable pub invite_user_by_email : Draw → Context → Option InviteUserRequest → Handler W NoBody
  invite_user_by_email d ctx bound = do
    req ← present bound (failure 400 "invalid request body")
    settle (validate_invite tools req) (λ e. failure 400 (error_text e))
    found ← read (s.users.list (find_user_by_email req.email))
    refuse_existing ctx found
    pointer ← get_organization_from_context ctx
    org ← deref pointer
    created ← act (creates (invited req org.id)) (λ _. failure 500 "")
    check (not (is_exists created)) (failure 409 "User already exists")
    verification ←
        settle (new_email_verification d.random (invited req org.id))
          (λ _. failure 500 "could not generate invite token")
    act (s.queue.add (invite_team_member req.email org.id verification.token))
        (λ _. failure 500 "failed to send invitation email")
    respond (success 200 "Invitation sent successfully")

  unfoldable pub revoke_user_role : Context → Request → Handler W NoBody
  revoke_user_role ctx r = do
    user_id ←
        present (tools.parse_uuid (r.url_param "reference")) (failure 400 "invalid user reference")
    user ← ask (s.users.list (find_user_by_id user_id)) (λ e.
        if is_user_not_found e
        then failure 404 "user not found"
        else failure 500 "could not fetch user")
    pointer ← get_organization_from_context ctx
    org ← deref pointer
    check (has_organization_membership (some user) org.id)
        (failure 403 "user does not belong to your organization")
    metadata ← deref user.metadata
    act (s.users.update (as_member user metadata)) (λ _. failure 500 "could not update user role")
    respond (success 200 "user role revoked successfully")
