-- ===== src/Auth/Passwords.antt =====
-- server/auth.go: the profile of the current user, with the change of its password, and the reset of
-- a forgotten password.
pub mod Change
pub mod Reset
pub mod Stored
use logtrace_backend.Common.{
  String, Bool, true, false, not, ◌&&◌, ◌==◌, string_eq, Option, none, some, if◌then◌else◌,
}
use logtrace_backend.Domain.{
  Uuid, nil_uuid, Time, error_text, is_user_not_found, Result, User, Password,
}
use logtrace_backend.Http.{
  Context, Handler, NoBody, failure, success, success_with, respond, settle, ask, act, check,
  present, deref, ◌>>=◌, ◌>>◌, get_user_from_context,
}
use logtrace_backend.Repositories.{FindUserOptions, token_data_for, reset_password}
use logtrace_backend.Middleware.{no_paginator, find_user_by_id}
use logtrace_backend.Auth.{
  Tools, Services, UpdateUserRequest, ResetPasswordRequest, find_user_by_email, validate_update,
  validate_reset, validate_request_reset,
}

-- The fields of the stored user that the request names.
unfoldable pub with_details : UpdateUserRequest → User → User
with_details req user = record user {
  full_name = if req.full_name == "" then user.full_name else req.full_name;
  phone = if req.phone == "" then user.phone else req.phone;
}

abbrev pub password_of : Uuid → String → Password
password_of id hashed = record { user_password = hashed; user_id = id }

module _ (tools : Tools) {W : Type 0} (s : Services W) where
  -- `editProfile` after the change of the password.
  unfoldable pub update_details : User → UpdateUserRequest → Handler W User
  update_details current req =
      if req.full_name == "" && req.phone == ""
      then respond (success 200 "User details updated successfully")
      else (do
        stored ←
            ask (s.users.list (find_user_by_id current.id))
              (λ _. failure 500 "Could not update user details")
        updated ←
            act (s.users.update (with_details req stored))
              (λ _. failure 500 "Could not update user details")
        respond (success_with 200 "User details updated successfully" updated))

  unfoldable pub change_password : User → UpdateUserRequest → Handler W User
  change_password current req = do
    stored ←
        ask (s.passwords.list current.id) (λ _. failure 500 "failed to validate current password")
    matches ←
        settle (tools.compare_password_and_hash req.current_password stored.user_password)
          (λ _. failure 401 "current password is incorrect")
    check matches (failure 401 "current password is incorrect")
    hashed ← settle (tools.hash_password req.password) (λ _. failure 500 "failed to hash password")
    act (s.passwords.update (password_of current.id hashed))
        (λ _. failure 500 "failed to update user password")
    update_details current req

  unfoldable pub edit_profile : Context → Option UpdateUserRequest → Handler W User
  edit_profile ctx bound = do
    pointer ← get_user_from_context ctx
    req ← present bound (failure 400 "invalid request body")
    settle (validate_update tools req) (λ e. failure 400 (error_text e))
    if req.password == "" && (req.full_name == "" && req.phone == "")
        then respond (success 200 "User details updated successfully")
        else (deref pointer >>= λ current.
            if not (req.password == "")
            then change_password current req
            else update_details current req)

  -- The argument after the time is the bound body, an email address.
  unfoldable pub request_password_reset : Time → Option String → Handler W NoBody
  request_password_reset now bound = do
    email ← present bound (failure 400 "invalid request body")
    settle (validate_request_reset tools email) (λ e. failure 400 (error_text e))
    user ← ask (s.users.list (find_user_by_email email)) (λ e.
        if is_user_not_found e
        then success 200 "if an account exists, a reset email will be sent"
        else failure 500 "an error occurred")
    token ←
        settle (s.tokens.generate_password_reset_token now (token_data_for user.id))
          (λ _. failure 500 "could not generate reset token")
    act (s.queue.add (reset_password user.id token.token))
        (λ _. failure 500 "failed to send reset email")
    respond (success 200 "if an account exists, a reset email has been sent")

  unfoldable pub confirm_reset : Time → Option ResetPasswordRequest → Handler W NoBody
  confirm_reset now bound = do
    req ← present bound (failure 400 "invalid request body")
    settle (validate_reset tools req) (λ e. failure 400 (error_text e))
    data_read ←
        settle (s.tokens.parse_password_reset_token now req.token)
          (λ _. failure 400 "invalid or expired reset token")
    hashed ←
        settle (tools.hash_password req.password)
          (λ _. failure 500 "failed to process new password")
    act (s.passwords.update (password_of data_read.user_id hashed))
        (λ _. failure 500 "could not update password")
    respond (success 200 "password reset successfully")
