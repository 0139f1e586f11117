-- ===== src/Jwt.antt =====
-- internal/pkg/jwttoken/jwt.go: the tokens of a session and of a password reset. Signing and parsing
-- are of github.com/golang-jwt/jwt, identifiers of github.com/google/uuid: both are arguments.
pub mod Laws
pub mod Tokens
use Prim.Native.String.{String}
use logtrace_backend.Common.{
  ℕ, ◌+◌, ◌*◌, ◌/◌, Bool, true, false, Option, none, some, List, [], ◌∷◌, map, ◌==◌, string_eq,
  if◌then◌else◌,
}
use logtrace_backend.Domain.{Uuid, Time, Error, other, Result, ok, err}
use logtrace_backend.Repositories.{JwTokenData, JwTokenManager}

-- A claim as Go holds it. In a parsed token only `text` and `number` occur: JSON writes an identifier
-- and a time as text.
pub data Claim : Type 0 where
  text : String → Claim
  number : ℕ → Claim
  uuid : Uuid → Claim
  time : Time → Claim

abbrev pub MapClaims : Type 0
MapClaims = List (String × Claim)

-- A `*jwt.Token`: whether its method is HMAC, and its claims where they are MapClaims.
pub record ParsedToken : Type 0 where
  pub is_hmac : Bool
  pub claims : Option MapClaims

-- `jwt.Parse` returns an error alone, or a token, beside which an error may stand.
pub data ParseResult : Type 0 where
  refused : Error → ParseResult
  parsed : ParsedToken → Option Error → ParseResult

-- A key function: the signing key for a token's method.
abbrev pub KeyFunc : Type 0
KeyFunc = Bool → Result String

pub record Library : Type 0 where
  pub signed_string : MapClaims → String → Result String
  pub parse : Time → KeyFunc → String → ParseResult
  pub parse_uuid : String → Option Uuid
  pub uuid_text : Uuid → String
  pub parse_time : String → Option Time
  pub format_time : Time → String

-- `claims[name]`
unfoldable pub claim : String → MapClaims → Option Claim
claim name [] = none
claim name ((k, v) ∷ claims) = if k == name then some v else claim name claims

-- `claims[name].(string)`
abbrev pub as_text : Option Claim → Option String
as_text (some (text s)) = some s
as_text _ = none

abbrev pub second : ℕ
second = 1000000000

-- 168 hours, and 60 minutes.
abbrev pub week : Time
week = 168 * 3600 * second

abbrev pub hour : Time
hour = 3600 * second

-- `Time.Unix`
abbrev pub unix : Time → ℕ
unix t = t / second

abbrev pub access_claims : Time → Uuid → MapClaims
access_claims now id =
    ("signer", text "logtrace")
    ∷ ("id", uuid id)
    ∷ ("aud", text "logtrace")
    ∷ ("exp", time (now + week))
    ∷ []

abbrev pub reset_claims : Time → Uuid → MapClaims
reset_claims now id =
    ("signer", text "logtrace")
    ∷ ("id", uuid id)
    ∷ ("aud", text "logtrace")
    ∷ ("purpose", text "password_reset")
    ∷ ("exp", number (unix (now + hour)))
    ∷ []

-- The key function of both parsers.
abbrev pub hmac_key : String → KeyFunc
hmac_key key true = ok key
hmac_key key false = err (other "unexpected signing method")

-- The errors are told apart only by being errors.
abbrev refuse : {A : Type 0} → String → Result A
refuse s = err (other s)

infixl 5 ◌>>=◌
abbrev ◌>>=◌ : {A B : Type 0} → Option A → (A → Result B) → Result B
none >>= f = refuse "ParseJWToken"
some a >>= f = f a

-- `audience != "logtrace"`, where a missing audience is the empty text; then the next claim.
unfoldable pub for_logtrace : Option String → Option String → Option String
for_logtrace none expires_at = none
for_logtrace (some audience) expires_at = if audience == "logtrace" then expires_at else none

unfoldable pub for_reset : String → Option String → Option String
for_reset purpose id = if purpose == "password_reset" then id else none

module _ (lib : Library) (signing_key : String) where
  with_token : JwTokenData → Result String → Result JwTokenData
  with_token given (err e) = err e
  with_token given (ok token) = ok (record given { token = token })

  unfoldable pub generate_jw_token : Time → JwTokenData → Result JwTokenData
  unfolding with_token
  generate_jw_token now given =
      with_token given (lib.signed_string (access_claims now given.user_id) signing_key)

  -- `ParseJWToken` on the claims of a token.
  unfoldable pub read_access : MapClaims → Result JwTokenData
  read_access claims = do
    id ← as_text (claim "id" claims)
    audience ← some (as_text (claim "aud" claims))
    expires_at ← for_logtrace audience (as_text (claim "exp" claims))
    expires ← lib.parse_time expires_at
    user_id ← lib.parse_uuid id
    ok (record { token = ""; user_id = user_id; expires_at = expires })

  -- An error of `jwt.Parse` counts only where no token came with it.
  unfoldable pub access_result : ParseResult → Result JwTokenData
  access_result (refused e) = err e
  access_result (parsed t e) = t.claims >>= read_access

  unfoldable pub parse_jw_token : Time → String → Result JwTokenData
  unfolding access_result
  parse_jw_token now token = access_result (lib.parse now (hmac_key signing_key) token)

  with_reset_token : Time → JwTokenData → Result String → Result JwTokenData
  with_reset_token now given (err e) = err e
  with_reset_token now given (ok token) =
      ok (record given { token = token; expires_at = now + hour })

  unfoldable pub generate_password_reset_token : Time → JwTokenData → Result JwTokenData
  unfolding with_reset_token
  generate_password_reset_token now given =
      with_reset_token now given (lib.signed_string (reset_claims now given.user_id) signing_key)

  -- `ParsePasswordResetToken` on the claims of a token.
  unfoldable pub read_reset : MapClaims → Result JwTokenData
  read_reset claims = do
    purpose ← as_text (claim "purpose" claims)
    id ← for_reset purpose (as_text (claim "id" claims))
    user_id ← lib.parse_uuid id
    ok (record { token = ""; user_id = user_id; expires_at = 0 })

  -- Here any error of `jwt.Parse` is one.
  unfoldable pub reset_result : ParseResult → Result JwTokenData
  reset_result (refused e) = err e
  reset_result (parsed t (some e)) = err e
  reset_result (parsed t none) = t.claims >>= read_reset

  unfoldable pub parse_password_reset_token : Time → String → Result JwTokenData
  unfolding reset_result
  parse_password_reset_token now token = reset_result (lib.parse now (hmac_key signing_key) token)

  -- `jwttoken.New`
  abbrev pub manager : JwTokenManager
  manager = record {
    generate_jw_token = generate_jw_token;
    parse_jw_token = parse_jw_token;
    generate_password_reset_token = generate_password_reset_token;
    parse_password_reset_token = parse_password_reset_token;
  }
