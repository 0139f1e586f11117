-- ===== src/Tests/Accounts.antt =====
-- The account handlers on concrete requests.
use logtrace_backend.Common.{ℕ, ◌≡◌, ◌≢◌, ◌⊎◌, refl, ap, suc, true, none, some, [], ◌∷◌, string_eq}
use logtrace_backend.Domain.{ok, User, UserMetadata, new_email_verification}
use logtrace_backend.GoText.{is_string_empty, trim_space, trim_left, trim_right, is_space}
use logtrace_backend.Http.{reply, success_with, ◌>>=◌}
use logtrace_backend.Repositories.{JwTokenData}
use logtrace_backend.Auth.{
  LoginRequest, SignUpRequest, UpdateUserRequest, ResetPasswordRequest, validate_sign_up,
}
use logtrace_backend.Auth.Sessions.{
  LoginBody, generate_user_token, login_with_email, login_with_google,
}
use logtrace_backend.Auth.Sessions.Outcomes.{login_with_email-mismatch}
use logtrace_backend.Auth.Sessions.Google.{over_users, login_with_google-refused}
use logtrace_backend.Sql.{Table, Statements}
use logtrace_backend.Auth.SignUp.{email_sign_up, complete_sign_up, send_verification_email}
use logtrace_backend.Auth.SignUp.Writes.{IsSignUp, email_sign_up-IsSignUp}
use logtrace_backend.Auth.Passwords.{edit_profile, confirm_reset}
use logtrace_backend.Auth.Passwords.Reset.{Outcome as ResetOutcome, confirm_reset_authorised}
use logtrace_backend.Auth.Passwords.Change.{IsEdit, edit_profile_authorised}
use logtrace_backend.Tests.Trail.{texts}
use logtrace_backend.Tests.Fixtures.{alice, services, account_tools, alice_in_acme, draw}

abbrev fresh : ℕ
fresh = 0

abbrev guess : LoginRequest
guess = record { email = "alice@acme.io"; password = "not-the-password"; code = "" }

abbrev admin : UserMetadata
admin = record { organization_id = 3 ∷ 4 ∷ []; user_role = "admin" }

abbrev session : JwTokenData
session = record { token = "session"; user_id = 7; expires_at = 100 }

abbrev let_in : LoginBody
let_in = record {
  id = 7;
  username = "Alice Liddell";
  email = "alice@acme.io";
  full_name = "Alice Liddell";
  created_at = 1;
  metadata = some admin;
  role_name = "admin";
  token = "session";
}

login_with_email-mismatch_example :
    login_with_email account_tools services draw guess fresh
    ≡ (reply (success_with 200 "login successful" let_in), fresh)
login_with_email-mismatch_example =
    login_with_email-mismatch account_tools services draw guess fresh alice
      (record { user_password = "hash of secret-1"; user_id = 7 }) admin session refl refl refl refl
      refl

-- The store of users returns each user as it was handed.
abbrev user_statements : Statements User ℕ
user_statements = record {
  insert_returning = λ u w. (ok u, suc w);
  update_given = λ u cs w. (ok u, suc w);
  delete = λ cs w. (ok tt, suc w);
}

abbrev user_table : Table User ℕ
user_table = record {
  holds = λ p u. true;
  count = λ cs w. ok 1;
  select = λ cs order limit offset w. ok (alice ∷ []);
  first = λ cs w. ok alice;
  insert = λ u w. (ok tt, suc w);
  update = λ assignments cs w. (ok tt, suc w);
  replace = λ u cs w. (ok tt, suc w);
}

abbrev granted : LoginBody
granted = record {
  id = 0;
  username = "Bob";
  email = "new@acme.io";
  full_name = "Bob";
  created_at = 0;
  metadata = none;
  role_name = "";
  token = "session";
}

login_with_google-refused_example :
    (login_with_google account_tools
      (over_users account_tools texts user_table user_statements (λ cs w. ok (alice ∷ [])) services)
      draw
      (record guess { code = "c0de" })
      fresh).0
    ≢ reply (success_with 200 "login successful" granted)
login_with_google-refused_example =
    login_with_google-refused account_tools texts user_table user_statements
      (λ cs w. ok (alice ∷ [])) services
      (λ u stored w w' h. let same : stored ≡ u = cc in ap (λ x. x.metadata) same)
      (λ u e w w' h. absurd (cc)) draw (record guess { code = "c0de" }) fresh granted

abbrev new_account : SignUpRequest
new_account = record {
  full_name = "Caterpillar";
  email = "new@acme.io";
  password = "curiouser-1";
  organization = "Wonderland";
  phone = "";
  confirm_password = "curiouser-1";
}

abbrev taken_account : SignUpRequest
taken_account = record new_account { email = "taken@acme.io" }

taken_valid : validate_sign_up account_tools taken_account ≡ ok tt
unfolding validate_sign_up is_string_empty trim_space trim_left trim_right is_space
taken_valid = refl

abbrev signed_up : LoginBody
signed_up = record {
  id = 0;
  username = "Caterpillar";
  email = "new@acme.io";
  full_name = "Caterpillar";
  created_at = 0;
  metadata = some (record { organization_id = 3 ∷ []; user_role = "admin" });
  role_name = "admin";
  token = "session";
}

signs_up :
    email_sign_up account_tools services draw (some new_account) fresh
    ≡ (reply (success_with 200 "login successful" signed_up), 5)
unfolding email_sign_up complete_sign_up send_verification_email generate_user_token
    validate_sign_up new_email_verification is_string_empty trim_space trim_left trim_right is_space
    ◌>>=◌
signs_up = refl

email_sign_up-IsSignUp_example :
    IsSignUp account_tools services draw
      (some new_account)
      fresh
      (email_sign_up account_tools services draw (some new_account) fresh).1
email_sign_up-IsSignUp_example =
    email_sign_up-IsSignUp account_tools services draw (some new_account) fresh signed_up
      (rw signs_up refl)

abbrev reset_form : ResetPasswordRequest
reset_form = record { token = "reset"; password = "curiouser-2"; confirm_password = "curiouser-2" }

confirm_reset_authorised_example :
    ResetOutcome account_tools services 10
      (some reset_form)
      fresh
      (confirm_reset account_tools services 10 (some reset_form) fresh).0
      (confirm_reset account_tools services 10 (some reset_form) fresh).1
confirm_reset_authorised_example =
    confirm_reset_authorised account_tools services 10 (some reset_form) fresh

abbrev profile_form : UpdateUserRequest
profile_form = record {
  full_name = "Alice";
  password = "curiouser-3";
  current_password = "secret-1";
  phone = "";
}

edit_profile_authorised_example :
    ((edit_profile account_tools services alice_in_acme (some profile_form) fresh).1 ≡ fresh)
    ⊎ IsEdit account_tools services alice_in_acme
        (some profile_form)
        fresh
        (edit_profile account_tools services alice_in_acme (some profile_form) fresh).1
edit_profile_authorised_example =
    edit_profile_authorised account_tools services alice_in_acme (some profile_form) fresh
