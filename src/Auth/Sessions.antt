-- ===== src/Auth/Sessions.antt =====
-- server/auth.go: the logins, and the token that a login returns.
pub mod Google
pub mod Outcomes
use logtrace_backend.Common.{
  String, Bool, true, false, not, ◌&&◌, ◌==◌, string_eq, Option, none, some, List, [],
  if◌then◌else◌,
}
use logtrace_backend.Domain.{
  Uuid, nil_uuid, Time, Error, error_text, is_user_exists, is_user_not_found, Result, ok, err, User,
  UserMetadata,
}
use logtrace_backend.Http.{
  Action, Handler, Request, failure, success_with, pure, respond, settle, ask, act, read, check,
  present, deref, ◌>>=◌, ◌>>◌,
}
use logtrace_backend.Repositories.{token_data_for}
use logtrace_backend.Auth.{
  Tools, Services, Draw, LoginRequest, find_user_by_email, validate_login, email_string,
}

-- The user and the token of `fetchUserResponse`.
pub record LoginBody : Type 0 where
  pub id : Uuid
  pub username : String
  pub email : String
  pub full_name : String
  pub created_at : Time
  pub metadata : Option UserMetadata
  pub role_name : String
  pub token : String

module _ (tools : Tools) {W : Type 0} (s : Services W) where
  -- `user.Metadata.UserRole` dereferences the metadata.
  unfoldable pub generate_user_token : Time → User → Handler W LoginBody
  generate_user_token now user = do
    token ←
        settle (s.tokens.generate_jw_token now (token_data_for user.id))
          (λ _. failure 500 "an error occurred while generating jwt token")
    metadata ← deref user.metadata
    respond (
        success_with 200 "login successful" (record {
          id = user.id;
          username = user.full_name;
          email = email_string tools user.email;
          full_name = user.full_name;
          created_at = user.created_at;
          metadata = user.metadata;
          role_name = metadata.user_role;
          token = token.token;
        }))

  -- The Boolean of ComparePasswordAndHash is dropped: `_, err = …`.
  unfoldable pub login_with_email : Draw → LoginRequest → Handler W LoginBody
  login_with_email d req = do
    user ← ask (s.users.list (find_user_by_email req.email)) (λ e.
        if is_user_not_found e
        then failure 401 "invalid email or password"
        else failure 500 "an error occurred while logging in")
    user_password ←
        ask (s.passwords.list user.id) (λ _. failure 500 "an error occurred while logging in")
    settle (tools.compare_password_and_hash req.password user_password.user_password)
        (λ _. failure 401 "invalid email or password")
    generate_user_token d.now user

  -- The user that `Create` was handed, in which it fills in what the database generates: the store
  -- returns it.
  abbrev filled : User → Option User → User
  filled user none = user
  filled user (some u) = u

  -- What `getOrCreateUser` does with the result of `Create`.
  unfoldable pub created_or_exists : Time → User → Result (Option User) → Handler W LoginBody
  created_or_exists now user (ok created) = generate_user_token now (filled user created)
  created_or_exists now user (err e) =
      if is_user_exists e
      then (do
        stored ←
            ask (s.users.list (find_user_by_email user.email))
              (λ _. failure 500 "an error occurred while logging user into app")
        generate_user_token now stored)
      else respond (failure 500 "an error occurred while creating user")

  unfoldable pub get_or_create_user : Time → User → Handler W LoginBody
  get_or_create_user now user w =
      let (result, w') = s.users.create user w in created_or_exists now user result w'

  abbrev pub google_account : String × String → User
  google_account (email, full_name) = record {
    id = nil_uuid;
    email = email;
    full_name = full_name;
    email_verified_at = none;
    metadata = none;
    phone = "";
    status = "";
    created_at = 0;
  }

  unfoldable pub login_with_google : Draw → LoginRequest → Handler W LoginBody
  login_with_google d req = do
    token ←
        settle (tools.google_validate req.code)
          (λ _. failure 400 "could not verify your sign in with Google")
    account ←
        settle (tools.google_user token)
          (λ _. failure 400 "could not fetch user details from oauth2 provider")
    get_or_create_user d.now (google_account account)

  unfoldable pub login : Draw → Request → Option LoginRequest → Handler W LoginBody
  login d r bound = do
    check
        (not (not (r.url_param "provider" == "google") && not (r.url_param "provider" == "email")))
        (failure 400 "unsupported provider")
    req ← present bound (failure 400 "invalid request body")
    settle (validate_login tools req (r.url_param "provider")) (λ e. failure 400 (error_text e))
    if r.url_param "provider" == "google" then login_with_google d req else login_with_email d req
