-- ===== src/Mail.antt =====
-- internal/pkg/email: what is sent, and its check, which the client for SES runs before it calls AWS.
-- The DKIM option, which is always off, is left out.
use Prim.Native.String.{String}
use Prim.Native.String
use logtrace_backend.Common.{
  List, [], ◌∷◌, ◌++◌, ◌&&◌, not, ◌==◌, string_eq, length, ltb, if◌then◌else◌,
}
use logtrace_backend.GoText.{is_string_empty}
use logtrace_backend.Domain.{other, error_text, Result, ok, err}

pub record SendOptions : Type 0 where
  pub html : String
  pub sender : String
  pub recipient : String
  pub subject : String

-- `to_lower` is the case that `Email.String` puts an address in.
unfoldable pub validate_send : (String → String) → SendOptions → Result (Unit {0})
validate_send to_lower s =
    if is_string_empty s.html
    then err (other "html copy of email must be provided")
    else if is_string_empty s.subject
    then err (other "please provide subject")
    else if is_string_empty (to_lower s.recipient)
    then err (other "please provide recipient")
    else if is_string_empty (to_lower s.sender)
    then err (other "please provide sender")
    else ok tt

abbrev and_then : Result (Unit {0}) → Result (Unit {0}) → Result (Unit {0})
and_then (err e) more = err e
and_then (ok _) more = more

validate_each : (String → String) → List SendOptions → Result (Unit {0})
validate_each to_lower [] = ok tt
validate_each to_lower (s ∷ ss) = and_then (validate_send to_lower s) (validate_each to_lower ss)

unfoldable pub validate_batch : (String → String) → List SendOptions → Result (Unit {0})
unfolding validate_each
validate_batch to_lower ss =
    if ltb 25 (length ss)
    then err (other "maximum of 25 allowed per batch")
    else validate_each to_lower ss

-- `Send` of the client for SES; `send_email` is the call of AWS, with the addresses in lower case.
unfoldable pub send_by_ses :
    {W : Type 0}
    → (String → String)
    → (SendOptions → W → Result (Unit {0}) × W)
    → SendOptions
    → W
    → Result (Unit {0}) × W
send_by_ses to_lower send_email s w = elim (validate_send to_lower s) [
  | err e ↦ (err e, w)
  | ok _ ↦ send_email (record s { sender = to_lower s.sender; recipient = to_lower s.recipient }) w
]

-- What `New` of the client for SES gives to `LoadDefaultConfig`.
pub data LoadOption : Type 0 where
  with_region : String → LoadOption
  with_static_credentials : String → String → LoadOption

-- `New` of the client for SES: without both keys, AWS looks for credentials elsewhere.
unfoldable pub new_ses_client :
    {Aws : Type 0} → (List LoadOption → Result Aws) → String → String → String → Result Aws
new_ses_client load_default_config region access_key secret_key =
    let opts = with_region region ∷ [] in
    let with_keys = opts ++ (with_static_credentials access_key secret_key ∷ []) in
    elim (load_default_config
      (if not (access_key == "") && not (secret_key == "") then with_keys else opts)) [
        | err e ↦ err (other (String.◌++◌ "loading aws config: " (error_text e)))
        | ok aws ↦ ok aws
      ]
