-- ===== src/Auth/SignUp.antt =====
-- server/auth.go: the sign-up by email and password.
pub mod Writes
use logtrace_backend.Common.{
  ℕ, ◌*◌, ◌+◌, String, Bool, true, false, Option, none, some, List, [], ◌∷◌, if◌then◌else◌,
}
use logtrace_backend.Domain.{
  Uuid, nil_uuid, Time, Error, error_text, is_user_exists, is_organization_exists, Result, ok, err,
  User, UserMetadata, Organization, EmailVerification, new_email_verification,
}
use logtrace_backend.Http.{Handler, failure, respond, settle, act, present, ◌>>=◌, ◌>>◌}
use logtrace_backend.Repositories.{verify_email}
use logtrace_backend.Auth.{Tools, Services, Draw, SignUpRequest, refuse, validate_sign_up}
use logtrace_backend.Auth.Passwords.{password_of}
use logtrace_backend.Auth.Sessions.{LoginBody, generate_user_token}

-- `AddDate(0, 0, 14)`
abbrev pub two_weeks : ℕ
two_weeks = 14 * 24 * 3600 * 1000000000

abbrev pub new_organization : Time → String → Organization
new_organization now name = record {
  id = nil_uuid;
  name = name;
  is_active = true;
  plan_name = "free";
  image_url = "";
  is_subscription_active = false;
  subscription_expires_at = some (now + two_weeks);
  created_at = 0;
}

abbrev pub new_admin : SignUpRequest → Uuid → User
new_admin req org = record {
  id = nil_uuid;
  email = req.email;
  full_name = req.full_name;
  email_verified_at = none;
  metadata = some (record { organization_id = org ∷ []; user_role = "admin" });
  phone = req.phone;
  status = "active";
  created_at = 0;
}

module _ (tools : Tools) {W : Type 0} (s : Services W) where
  -- `sendVerificationEmail` once the token is stored.
  abbrev queued : EmailVerification → Result (Unit {0}) × W → Result (Unit {0}) × W
  queued v (err e, w) = (refuse "could not store verification token", w)
  queued v (ok _, w) = s.queue.add (verify_email v.user_id v.token) w

  abbrev with_verification : Result EmailVerification → W → Result (Unit {0}) × W
  with_verification (err e) w = (err e, w)
  with_verification (ok v) w = queued v (s.verifications.create v w)

  unfoldable pub send_verification_email : Result String → User → W → Result (Unit {0}) × W
  send_verification_email random user w = elim user.email_verified_at [
    | some _ ↦ (ok tt, w)
    | none ↦ with_verification (new_email_verification random user) w
  ]

  -- What follows the creation of the user.
  unfoldable pub complete_sign_up : Draw → String → User → Handler W LoginBody
  complete_sign_up d hashed user = do
    act (s.passwords.create (password_of user.id hashed))
        (λ _. failure 500 "failed to save password")
    act (send_verification_email d.random user)
        (λ _. failure 500 "could not send verification email")
    generate_user_token tools s d.now user

  unfoldable pub email_sign_up : Draw → Option SignUpRequest → Handler W LoginBody
  email_sign_up d bound = do
    req ← present bound (failure 400 "invalid request body")
    settle (validate_sign_up tools req) (λ e. failure 400 (error_text e))
    hashed ← settle (tools.hash_password req.password) (λ _. failure 500 "failed to save password")
    org ← act (s.orgs.create (new_organization d.now req.organization)) (λ e.
        if is_organization_exists e
        then failure 409 "Business name is already taken"
        else failure 500 "Could not create organization at this time. an error occurred")
    created ← act (s.users.create (new_admin req org.id)) (λ e.
        if is_user_exists e
        then failure 409 "Account already exists. Please use a different email"
        else failure 500 "could not create an account at this time. an error occurred")
    user ←
        present created (failure 500 "could not create an account at this time. an error occurred")
    complete_sign_up d hashed user
