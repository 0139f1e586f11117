-- ===== src/Repositories.antt =====
-- The repository and service interfaces of the root package and of internal/pkg: what the handlers
-- call. A method that only reads is a function of the world; a method that writes returns the new
-- world with its result. A result whose value the handlers read beside an error is a pair.
use logtrace_backend.Common.{String, Option, List}
use logtrace_backend.Common.Int.{ℤ}
use logtrace_backend.Paginator.{Paginator}
use logtrace_backend.Domain.{
  Uuid, Time, Error, Result, User, Organization, ApiKey, RevocationType, Password,
  EmailVerification,
}
use logtrace_backend.Trail.{Session, Event, AuditLog}

pub record FindUserOptions : Type 0 where
  pub email : String
  pub id : Uuid
  pub organization_id : Uuid
  pub paginator : Paginator

pub record UserRepository (W : Type 0) : Type 0 where
  pub create : User → W → Result (Option User) × W
  pub list : FindUserOptions → W → Result User
  pub list_all : FindUserOptions → W → Result (List User × ℤ)
  pub update : User → W → Result User × W

pub record FindOrganizationOptions : Type 0 where
  pub id : Uuid
  pub name : String
  pub user_id : Uuid
  pub plan : String
  pub paginator : Paginator

pub record OrganizationRepository (W : Type 0) : Type 0 where
  pub create : Organization → W → Result Organization × W
  pub list : FindOrganizationOptions → W → Result Organization
  pub update : Organization → W → Result Organization × W
  pub delete : FindOrganizationOptions → W → Result (Unit {0}) × W
  pub list_all : FindOrganizationOptions → W → Result (List Organization × ℤ)

pub record ApiKeyOptions : Type 0 where
  pub id : Uuid
  pub user_id : Uuid
  pub organization_id : Uuid
  pub api_key : Option ApiKey
  pub revocation_type : Option RevocationType

pub record ApiKeyRepository (W : Type 0) : Type 0 where
  pub create : ApiKey → W → Result (Unit {0}) × W
  pub revoke : ApiKeyOptions → W → Result (Unit {0}) × W
  pub list : ApiKeyOptions → W → Result (List ApiKey)
  pub update : ApiKeyOptions → W → Result (Unit {0}) × W
  pub fetch : ApiKeyOptions → W → Result ApiKey
  pub fetch_by_value : String → W → Result ApiKey
  pub fetch_by_name : String → Uuid → W → Option ApiKey × Option Error
  pub update_last_used_at : Uuid → W → Result (Unit {0}) × W

pub record PasswordRepository (W : Type 0) : Type 0 where
  pub create : Password → W → Result (Unit {0}) × W
  pub list : Uuid → W → Result Password
  pub update : Password → W → Result (Unit {0}) × W

pub record EmailVerificationRepository (W : Type 0) : Type 0 where
  pub create : EmailVerification → W → Result (Unit {0}) × W

-- JWTokenData without the fields that no caller sets or reads.
pub record JwTokenData : Type 0 where
  pub token : String
  pub user_id : Uuid
  pub expires_at : Time

abbrev pub token_data_for : Uuid → JwTokenData
token_data_for id = record { token = ""; user_id = id; expires_at = 0 }

-- `JWTokenManager`; a token is generated and read at a time.
pub record JwTokenManager : Type 0 where
  pub generate_jw_token : Time → JwTokenData → Result JwTokenData
  pub parse_jw_token : Time → String → Result JwTokenData
  pub generate_password_reset_token : Time → JwTokenData → Result JwTokenData
  pub parse_password_reset_token : Time → String → Result JwTokenData

-- The messages that the handlers put on the queue (internal/pkg/queues/queue.go): a topic with its
-- options.
pub data Message : Type 0 where
  verify_email : Uuid → String → Message
  invite_team_member : String → Uuid → String → Message
  reset_password : Uuid → String → Message
  save_session : Session → Message
  save_event : Event → Message
  save_audit_log : AuditLog → Message
  billing_trial_ending : Organization → String → String → Message
  subscription_expired : Organization → String → Message

-- organization_user.go
pub record OrganizationUser : Type 0 where
  pub user_id : String
  pub organization_id : Uuid
  pub username : String

pub record FindOrganizationUserOptions : Type 0 where
  pub user_id : String
  pub username : String
  pub organization_id : Uuid

-- What `Create` returns beside its error, no handler reads.
pub record OrganizationUserRepository (W : Type 0) : Type 0 where
  pub find : FindOrganizationUserOptions → W → Option OrganizationUser × Option Error
  pub create : OrganizationUser → W → Result (Unit {0}) × W

pub record QueueHandler (W : Type 0) : Type 0 where
  pub add : Message → W → Result (Unit {0}) × W
