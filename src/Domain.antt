-- ===== src/Domain.antt =====
-- The entities of the root package (user.go, organization.go, api_key.go, password.go,
-- email_verification.go, errors.go and the enum files). A pointer is an
-- `Option`, an identifier or a time is a number; the columns updated_at and deleted_at, which only
-- the database reads, and the role rows of a user are left out.
use logtrace_backend.Common.{
  ℕ, ◌≡◌, ◌⊎◌, inl, inr, refl, String, Bool, true, false, Option, none, some, List, ltb, not, ◌==◌,
  string_eq, if◌then◌else◌,
}

-- `uuid.UUID`; `uuid.Nil` is 0.
abbrev pub Uuid : Type 0
Uuid = ℕ

abbrev pub nil_uuid : Uuid
nil_uuid = 0

-- `time.Time`, in nanoseconds.
abbrev pub Time : Type 0
Time = ℕ

-- The sentinel errors that the program tells apart, and all others by their text.
pub data Error : Type 0 where
  user_not_found user_exists organization_not_found organization_exists : Error
  api_key_not_found api_key_max_limit password_not_found : Error
  event_not_found audit_log_not_found no_rows : Error
  other : String → Error

-- `err.Error()`
abbrev pub error_text : Error → String
error_text user_not_found = "user not found"
error_text user_exists = "user with same email address already exists"
error_text organization_not_found = "Organization not found"
error_text organization_exists = "Organization already exists"
error_text api_key_not_found = "api key not found"
error_text api_key_max_limit = "you can only have a maximum of 10 active api keys"
error_text password_not_found = "password not found"
error_text event_not_found = "Event not found"
error_text audit_log_not_found = "audit log not found"
error_text no_rows = "sql: no rows in result set"
error_text (other s) = s

-- `errors.Is(err, …)`, one for each sentinel that a handler asks for.
abbrev pub is_user_not_found : Error → Bool
is_user_not_found user_not_found = true
is_user_not_found _ = false

abbrev pub is_user_exists : Error → Bool
is_user_exists user_exists = true
is_user_exists _ = false

abbrev pub is_organization_exists : Error → Bool
is_organization_exists organization_exists = true
is_organization_exists _ = false

abbrev pub is_api_key_not_found : Error → Bool
is_api_key_not_found api_key_not_found = true
is_api_key_not_found _ = false

abbrev pub is_api_key_max_limit : Error → Bool
is_api_key_max_limit api_key_max_limit = true
is_api_key_max_limit _ = false

abbrev pub is_no_rows : Error → Bool
is_no_rows no_rows = true
is_no_rows _ = false

-- A Go result `(T, error)` whose value is read only where the error is nil.
pub data Result {ℓ} (A : Type ℓ) : Type ℓ where
  ok : A → Result A
  err : Error → Result A

abbrev pub IsErr {ℓ} : {A : Type ℓ} → Result A → Type 0
IsErr (ok a) = ⊥
IsErr (err e) = Unit

pub Result-cases {ℓ} :
    {A : Type ℓ} (r : Result A) → ((a : A) × (r ≡ ok a)) ⊎ ((e : Error) × (r ≡ err e))
Result-cases (ok a) = inl (a, refl)
Result-cases (err e) = inr (e, refl)

pub record UserMetadata : Type 0 where
  pub organization_id : List Uuid
  pub user_role : String

pub record User : Type 0 where
  pub id : Uuid
  pub email : String
  pub full_name : String
  pub email_verified_at : Option Time
  pub metadata : Option UserMetadata
  pub phone : String
  pub status : String
  pub created_at : Time

pub record Organization : Type 0 where
  pub id : Uuid
  pub name : String
  pub is_active : Bool
  pub plan_name : String
  pub image_url : String
  pub is_subscription_active : Bool
  pub subscription_expires_at : Option Time
  pub created_at : Time

pub record ApiKey : Type 0 where
  pub id : Uuid
  pub created_by : Uuid
  pub value : String
  pub name : String
  pub organization_id : Uuid
  pub last_used_at : Option Time
  pub expires_at : Option Time
  pub created_at : Time

-- `(*APIKey).IsRevoked`; `ExpiresAt.After(now)` is `now < expires_at`.
unfoldable pub is_revoked : Time → ApiKey → Bool
is_revoked now a = elim a.expires_at [ none ↦ false | some t ↦ not (ltb now t) ]

pub data RevocationType : Type 0 where
  immediate day week : RevocationType

-- `ParseRevocationType`, the lookup in _RevocationTypeValue.
unfoldable pub parse_revocation_type : String → Option RevocationType
parse_revocation_type name =
    if name == "immediate"
    then some immediate
    else if name == "day"
    then some day
    else if name == "week"
    then some week
    else none

-- `RevocationType.IsValid`
unfoldable pub revocation_type_is_valid : String → Bool
unfolding parse_revocation_type
revocation_type_is_valid x = elim (parse_revocation_type x) [ none ↦ false | some _ ↦ true ]

pub record Password : Type 0 where
  pub user_password : String
  pub user_id : Uuid

pub record EmailVerification : Type 0 where
  pub token : String
  pub user_id : Uuid

-- `NewEmailVerification`, given what `util.Random(40)` returns.
unfoldable pub new_email_verification : Result String → User → Result EmailVerification
new_email_verification (err e) u = err e
new_email_verification (ok val) u = ok (record { token = val; user_id = u.id })
