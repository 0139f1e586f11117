-- ===== src/Queue.antt =====
-- internal/pkg/queues and internal/pkg/queues/watermill: the topics, what is published for a message,
-- the consumers, and the middleware around them. Redis, watermill, encoding/json, text/template and
-- the email client are parameters.
pub mod Delivery
pub mod Pipeline
use Prim.Native.String.{String, ◌++◌}
use logtrace_backend.Common.{ℕ, Bool, Option, none, some, List, [], ◌∷◌}
use logtrace_backend.Common.Int.{pos}
use logtrace_backend.GoText.{split}
use logtrace_backend.Domain.{Uuid, nil_uuid, Error, Result, ok, err, User, Organization}
use logtrace_backend.Repositories.{UserRepository, FindUserOptions, Message, QueueHandler}
use logtrace_backend.Mail.{SendOptions}
use logtrace_backend.Trail.{Event, AuditLog, Session}

-- `QueueTopic`
pub data QueueTopic : Type 0 where
  queue_topic_billing_trial_ending queue_topic_billing_create_customer : QueueTopic
  queue_topic_invite_team_member queue_topic_subscription_expired : QueueTopic
  queue_topic_verify_email queue_topic_save_event queue_topic_save_audit_log : QueueTopic
  queue_topic_save_session queue_topic_alert queue_topic_reset_password : QueueTopic
  queue_topic_reset_password_success : QueueTopic

-- The options that a message carries, written as JSON and read back: one field of each kind for
-- `ToPayload` and one for `json.Decoder.Decode`.
pub record Codec (Payload : Type 0) : Type 0 where
  pub encode : Message → Payload
  pub decode_event : Payload → Result Event
  pub decode_audit_log : Payload → Result AuditLog
  pub decode_session : Payload → Result Session
  pub decode_user_token : Payload → Result (Uuid × String)
  pub decode_billing_trial : Payload → Result (Organization × (String × String))
  pub decode_expired : Payload → Result (Organization × String)

unfoldable pub topic_of : Message → QueueTopic
topic_of (Message.verify_email user token) = queue_topic_verify_email
topic_of (Message.invite_team_member email org token) = queue_topic_invite_team_member
topic_of (Message.reset_password user token) = queue_topic_reset_password
topic_of (Message.save_session s) = queue_topic_save_session
topic_of (Message.save_event e) = queue_topic_save_event
topic_of (Message.save_audit_log a) = queue_topic_save_audit_log
topic_of (Message.billing_trial_ending org expiration recipient) = queue_topic_billing_trial_ending
topic_of (Message.subscription_expired org recipient) = queue_topic_subscription_expired

-- `WatermillClient`, the parts that it uses; a template is told by the name of its constant.
pub record Client (Payload W : Type 0) : Type 0 where
  pub codec : Codec Payload
  pub publish : QueueTopic → Payload → W → Result (Unit {0}) × W
  pub create_event : Event → W → Result (Unit {0}) × W
  pub create_audit_log : AuditLog → W → Result (Unit {0}) × W
  pub create_session : Session → W → Result (Unit {0}) × W
  pub users : UserRepository W
  pub render : String → List (String × String) → Result String
  pub send : SendOptions → W → Result (Unit {0}) × W
  pub app_url : String
  pub sender : String

-- A consumer, on the payload of its message.
abbrev pub Consumer : Type 0 → Type 0 → Type 0
Consumer Payload W = Payload → W → Result (Unit {0}) × W

abbrev first_word : List String → String
first_word [] = ""
first_word (x ∷ xs) = x

abbrev user_options : Uuid → FindUserOptions
user_options id = record {
  email = "";
  id = id;
  organization_id = nil_uuid;
  paginator = record { per_page = pos 0; page = pos 0 };
}

module _ {Payload W : Type 0} (c : Client Payload W) where
  unfoldable pub add : Message → W → Result (Unit {0}) × W
  add m w = c.publish (topic_of m) (c.codec.encode m) w

  -- What is decoded, given to a call that writes.
  abbrev decoded :
      {A : Type 0} → Result A → (A → W → Result (Unit {0}) × W) → W → Result (Unit {0}) × W
  decoded (err e) call w = (err e, w)
  decoded (ok a) call w = call a w

  unfoldable pub save_event : Consumer Payload W
  save_event payload w = decoded (c.codec.decode_event payload) c.create_event w

  unfoldable pub save_audit_log : Consumer Payload W
  save_audit_log payload w = decoded (c.codec.decode_audit_log payload) c.create_audit_log w

  unfoldable pub save_session : Consumer Payload W
  save_session payload w = decoded (c.codec.decode_session payload) c.create_session w

  abbrev mailed : String → String → Result String → W → Result (Unit {0}) × W
  mailed recipient subject (err e) w = (err e, w)
  mailed recipient subject (ok html) w =
      c.send (record { html = html; sender = c.sender; recipient = recipient; subject = subject }) w

  abbrev mailed_to : String → String → String → Result User → W → Result (Unit {0}) × W
  mailed_to template link subject (err e) w = (err e, w)
  mailed_to template link subject (ok user) w =
      mailed user.email subject
        (c.render template
          (("FullName", first_word (split b' ' user.full_name)) ∷ ("Link", link) ∷ []))
        w

  unfoldable pub send_email_verification : Consumer Payload W
  send_email_verification payload w =
      decoded (c.codec.decode_user_token payload)
        (λ opts w'.
          mailed_to "EmailVerificationTemplate" (c.app_url ++ ("/email-verify?token=" ++ opts.1))
            "Verify your account to get started with Logtrace"
            (c.users.list (user_options opts.0) w') w')
        w

  unfoldable pub send_password_reset_email : Consumer Payload W
  send_password_reset_email payload w =
      decoded (c.codec.decode_user_token payload)
        (λ opts w'.
          mailed_to "ResetPasswordTemplate" (c.app_url ++ ("/reset-password?token=" ++ opts.1))
            "Reset your Logtrace password" (c.users.list (user_options opts.0) w') w')
        w

  unfoldable pub send_sub_expired_email : Consumer Payload W
  send_sub_expired_email payload w =
      decoded (c.codec.decode_expired payload)
        (λ opts w'.
          mailed opts.1 "Your Logtrace subscription has come to an end. Please resubscribe"
            (c.render "BillingEndedTemplate"
              (("Organization", opts.0.name) ∷ ("Link", c.app_url ++ "/settings?tab=billing") ∷ []))
            w')
        w

  unfoldable pub send_billing_trial_email : Consumer Payload W
  send_billing_trial_email payload w =
      decoded (c.codec.decode_billing_trial payload)
        (λ opts w'.
          mailed opts.1.1 "Your Logtrace trial is coming to an end"
            (c.render "BillingTrialTemplate" (
              ("Organization", opts.0.name)
              ∷ ("Link", c.app_url ++ "/settings/billing")
              ∷ ("Expiration", opts.1.0)
              ∷ []))
            w')
        w

  -- `setUpRoutes`: the consumer of a topic, if there is one.
  unfoldable pub route : QueueTopic → Option (Consumer Payload W)
  route queue_topic_billing_trial_ending = some send_billing_trial_email
  route queue_topic_subscription_expired = some send_sub_expired_email
  route queue_topic_verify_email = some send_email_verification
  route queue_topic_save_event = some save_event
  route queue_topic_save_audit_log = some save_audit_log
  route queue_topic_save_session = some save_session
  route queue_topic_reset_password = some send_password_reset_email
  route queue_topic_billing_create_customer = none
  route queue_topic_invite_team_member = none
  route queue_topic_alert = none
  route queue_topic_reset_password_success = none

-- The middlewares of watermill that can change what a consumer does: each makes a consumer of one.
pub record Middlewares (Payload W : Type 0) : Type 0 where
  pub retry : ℕ → Consumer Payload W → Consumer Payload W
  pub poison_queue : (Payload → W → Result (Unit {0}) × W) → Consumer Payload W → Consumer Payload W
  pub recoverer : Consumer Payload W → Consumer Payload W

-- `AddMiddleware` of `New`: the first of them is the outermost.
unfoldable pub with_middleware :
    {Payload W : Type 0}
    → Middlewares Payload W
    → (Payload → W → Result (Unit {0}) × W)
    → Consumer Payload W
    → Consumer Payload W
with_middleware ms publish_poison h = ms.retry 3 (ms.poison_queue publish_poison (ms.recoverer h))
