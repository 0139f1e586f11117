-- ===== src/Enums.antt =====
-- The enums that go-enum generates beside those of the handlers: user_enum.go, invitation_enum.go,
-- config/config_enum.go and internal/pkg/queues/queue_enum.go. A value of an enum is its text, and
-- the map of its values has each of them under its own text.
pub mod Values
use Prim.Native.String.{String, ◌++◌}
use logtrace_backend.Common.{Bool, true, false, List, [], ◌∷◌, ◌==◌, string_eq, if◌then◌else◌}
use logtrace_backend.Domain.{other, Result, ok, err}

-- `fmt.Errorf("%s is %w", name, ErrInvalid…)`
abbrev invalid : String → String → Result String
invalid message name = err (other (name ++ (" is " ++ message)))

-- The lookup of a name in the map of the values.
unfoldable pub parse_value : List String → String → String → Result String
parse_value [] message name = invalid message name
parse_value (v ∷ vs) message name =
    let later = parse_value vs message name in if name == v then ok v else later

-- `err == nil`
abbrev pub succeeds : Result String → Bool
succeeds (ok v) = true
succeeds (err e) = false

abbrev pub user_status_values : List String
user_status_values = "active" ∷ "inactive" ∷ "pending" ∷ []

unfoldable pub parse_user_status : String → Result String
parse_user_status name = parse_value user_status_values "not a valid UserStatus" name

unfoldable pub user_status_is_valid : String → Bool
unfolding parse_user_status
user_status_is_valid x = succeeds (parse_user_status x)

abbrev pub invitation_status_values : List String
invitation_status_values = "pending" ∷ "accepted" ∷ "declined" ∷ "expired" ∷ "revoked" ∷ []

unfoldable pub parse_invitation_status : String → Result String
parse_invitation_status name =
    parse_value invitation_status_values "not a valid InvitationStatus" name

unfoldable pub invitation_status_is_valid : String → Bool
unfolding parse_invitation_status
invitation_status_is_valid x = succeeds (parse_invitation_status x)

abbrev pub env_type_values : List String
env_type_values = "production" ∷ "development" ∷ []

unfoldable pub parse_env_type : String → Result String
parse_env_type name = parse_value env_type_values "not a valid EnvType" name

unfoldable pub env_type_is_valid : String → Bool
unfolding parse_env_type
env_type_is_valid x = succeeds (parse_env_type x)

abbrev pub log_mode_values : List String
log_mode_values = "prod" ∷ "dev" ∷ []

unfoldable pub parse_log_mode : String → Result String
parse_log_mode name = parse_value log_mode_values "not a valid LogMode" name

unfoldable pub log_mode_is_valid : String → Bool
unfolding parse_log_mode
log_mode_is_valid x = succeeds (parse_log_mode x)

abbrev pub queue_topic_values : List String
queue_topic_values =
    "billing_trial_ending" ∷ "billing_create_customer" ∷ "invite_team_member"
    ∷ "subscription_expired" ∷ "verify_email" ∷ "save_event" ∷ "save_audit_log" ∷ "save_session"
    ∷ "alert" ∷ "reset_password" ∷ "reset_password_success" ∷ []

unfoldable pub parse_queue_topic : String → Result String
parse_queue_topic name = parse_value queue_topic_values "not a valid QueueTopic" name

unfoldable pub queue_topic_is_valid : String → Bool
unfolding parse_queue_topic
queue_topic_is_valid x = succeeds (parse_queue_topic x)
