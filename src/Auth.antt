-- ===== src/Auth.antt =====
-- server/auth.go: the requests of the account handlers and their validation, and what the handlers
-- share.
pub mod Members
pub mod Passwords
pub mod Sessions
pub mod SignUp
use Prim.Native.String.{String, len}
use logtrace_backend.Common.{
  ℕ, Bool, true, false, not, ◌&&◌, ◌==◌, string_eq, Option, none, some, List, ltb, if◌then◌else◌,
}
use logtrace_backend.GoText.{is_string_empty}
use logtrace_backend.Domain.{Uuid, nil_uuid, Time, Result, ok, err, other, User, UserMetadata}
use logtrace_backend.Repositories.{
  UserRepository, OrganizationRepository, PasswordRepository, EmailVerificationRepository,
  JwTokenManager, QueueHandler, FindUserOptions,
}
use logtrace_backend.Middleware.{no_paginator}

-- What the handlers take from other packages: checkmail.ValidateFormat, passwd.Strength with the
-- threshold passwd.Moderate, argon2id behind HashPassword and ComparePasswordAndHash (a text in
-- another format than argon2id's is an error, a mismatch is not), strings.ToLower, and the two calls
-- of the Google provider.
pub record Tools : Type 0 where
  pub valid_format : String → Bool
  pub strength : String → ℕ
  pub moderate : ℕ
  pub hash_password : String → Result String
  pub compare_password_and_hash : String → String → Result Bool
  pub to_lower : String → String
  pub parse_uuid : String → Option Uuid
  pub google_validate : String → Result String
  pub google_user : String → Result (String × String)

-- `authHandler`, less its configuration.
pub record Services (W : Type 0) : Type 0 where
  pub users : UserRepository W
  pub orgs : OrganizationRepository W
  pub passwords : PasswordRepository W
  pub verifications : EmailVerificationRepository W
  pub tokens : JwTokenManager
  pub queue : QueueHandler W

-- What is drawn for one request: the time, and the result of `util.Random(40)`.
pub record Draw : Type 0 where
  pub now : Time
  pub random : Result String

abbrev pub find_user_by_email : String → FindUserOptions
find_user_by_email email = record {
  email = email;
  id = nil_uuid;
  organization_id = nil_uuid;
  paginator = no_paginator;
}

abbrev refuse : {A : Type 0} → String → Result A
refuse s = err (other s)

pub record SignUpRequest : Type 0 where
  pub full_name : String
  pub email : String
  pub password : String
  pub organization : String
  pub phone : String
  pub confirm_password : String

pub record LoginRequest : Type 0 where
  pub email : String
  pub password : String
  pub code : String

pub record UpdateUserRequest : Type 0 where
  pub full_name : String
  pub password : String
  pub current_password : String
  pub phone : String

pub record InviteUserRequest : Type 0 where
  pub email : String
  pub full_name : String
  pub role : String

pub record ResetPasswordRequest : Type 0 where
  pub token : String
  pub password : String
  pub confirm_password : String

module _ (tools : Tools) where
  -- `Email.String`
  abbrev pub email_string : String → String
  email_string e = tools.to_lower e

  unfoldable pub validate_sign_up : SignUpRequest → Result (Unit {0})
  validate_sign_up sr =
      if is_string_empty sr.full_name
      then refuse "name is required"
      else if ltb (len sr.full_name) 4
      then refuse "name must be at least 4 characters long"
      else if is_string_empty (email_string sr.email)
      then refuse "email is required"
      else if is_string_empty sr.organization
      then refuse "company is required"
      else if not (tools.valid_format (email_string sr.email))
      then refuse "invalid email format"
      else if is_string_empty sr.password
      then refuse "password is required"
      else if not (sr.password == sr.confirm_password)
      then refuse "passwords do not match"
      else if ltb (tools.strength sr.password) tools.moderate
      then refuse "password is too weak"
      else ok tt

  unfoldable pub validate_login : LoginRequest → String → Result (Unit {0})
  validate_login l provider =
      if provider == "email"
      then (if l.email == ""
          then refuse "email is required"
          else if l.password == ""
          then refuse "password is required"
          else if not (tools.valid_format l.email)
          then refuse "invalid email format"
          else ok tt)
      else if provider == "google"
      then (if l.code == "" then refuse "code is required" else ok tt)
      else refuse "unsupported provider"

  unfoldable pub validate_update : UpdateUserRequest → Result (Unit {0})
  validate_update ur =
      if not (is_string_empty ur.password) && is_string_empty ur.current_password
      then refuse "current password is required to change password"
      else if not (is_string_empty ur.password) && ltb (tools.strength ur.password) tools.moderate
      then refuse "password is too weak"
      else ok tt

  unfoldable pub validate_invite : InviteUserRequest → Result (Unit {0})
  validate_invite ir =
      if is_string_empty (email_string ir.email)
      then refuse "email is required"
      else if not (tools.valid_format (email_string ir.email))
      then refuse "invalid email format"
      else if is_string_empty ir.role
      then refuse "role is required"
      else if is_string_empty ir.full_name
      then refuse "full name is required"
      else ok tt

  unfoldable pub validate_reset : ResetPasswordRequest → Result (Unit {0})
  validate_reset r =
      if is_string_empty r.token
      then refuse "token is required"
      else if is_string_empty r.password
      then refuse "password is required"
      else if not (r.password == r.confirm_password)
      then refuse "passwords do not match"
      else if ltb (tools.strength r.password) tools.moderate
      then refuse "password is too weak"
      else ok tt

  unfoldable pub validate_request_reset : String → Result (Unit {0})
  validate_request_reset email =
      if is_string_empty email
      then refuse "email is required"
      else if not (tools.valid_format email)
      then refuse "invalid email format"
      else ok tt
