-- ===== src/Stores/Passwords.antt =====
-- internal/datastore/postgres/password.go and email_verification.go.
pub mod Map
pub mod Rows
use Prim.Native.String.{String}
use logtrace_backend.Domain.{Uuid, password_not_found, Result, Password, EmailVerification}
use logtrace_backend.Repositories.{PasswordRepository}
use logtrace_backend.Sql.{where_text, Table, Statements, not_found_as}
use logtrace_backend.Stores.ApiKeys.{where_uuid}

module _ {W : Type 0} (passwords : Table Password W) where
  unfoldable pub create : Password → W → Result (Unit {0}) × W
  create p w = passwords.insert p w

  unfoldable pub list : Uuid → W → Result Password
  list user w = not_found_as password_not_found (passwords.first (where_uuid "user_id = ?" user) w)

  unfoldable pub update : Password → W → Result (Unit {0}) × W
  update p w = passwords.replace p (where_uuid "user_id = ?" p.user_id) w

  -- `NewPasswordRepository`
  abbrev pub stored_passwords : PasswordRepository W
  stored_passwords = record { create = create; list = list; update = update }

module _ {W : Type 0} (verifications : Table EmailVerification W)
    (statements : Statements EmailVerification W) where
  unfoldable pub create_verification : EmailVerification → W → Result (Unit {0}) × W
  create_verification v w = verifications.insert v w

  unfoldable pub list_verification : String → W → Result EmailVerification
  list_verification token w = verifications.first (where_text "token = ?" token) w

  unfoldable pub delete_verification : String → W → Result (Unit {0}) × W
  delete_verification token w = statements.delete (where_text "token = ?" token) w
