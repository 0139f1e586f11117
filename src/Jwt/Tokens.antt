-- ===== src/Jwt/Tokens.antt =====
-- What the two parsers accept.
use Prim.Native.String.{String}
use logtrace_backend.Common.{◌+◌, ◌<◌, ◌≤◌, ◌≡◌, refl, Option, none, some, arith}
use logtrace_backend.Domain.{Uuid, Time, Error, ok, IsErr}
use logtrace_backend.Repositories.{JwTokenData}
use logtrace_backend.Jwt.{
  parsed, Library, MapClaims, claim, access_claims, reset_claims, week, hour, unix, second,
  hmac_key, generate_jw_token, read_access, parse_jw_token, generate_password_reset_token,
  read_reset, parse_password_reset_token, for_logtrace, for_reset,
}
use logtrace_backend.Jwt.Laws.{IsLibrary, signed_token}

expiry_positive : (now : Time) → 0 < unix (now + hour)
expiry_positive now = omega arith

module _ (lib : Library) (key : String) where
  -- A generated token is the signed text of its claims.
  access_signed :
      (now : Time) (given d : JwTokenData)
      → generate_jw_token lib key now given ≡ ok d
      → lib.signed_string (access_claims now given.user_id) key ≡ ok d.token
  unfolding generate_jw_token
  access_signed now given d h = ground arith

  reset_signed :
      (now : Time) (given d : JwTokenData)
      → generate_password_reset_token lib key now given ≡ ok d
      → lib.signed_string (reset_claims now given.user_id) key ≡ ok d.token
  unfolding generate_password_reset_token
  reset_signed now given d h = ground arith

  access_no_reset :
      (now later : Time) (id : Uuid) (token : String)
      → (e : Option Error) × (lib.parse later (hmac_key key) token
          ≡ parsed (signed_token lib (access_claims now id)) e)
      → IsErr (parse_password_reset_token lib key later token)
  unfolding parse_password_reset_token read_reset claim
  access_no_reset now later id token (none, same) = rw same tt
  access_no_reset now later id token (some e, same) = rw same tt

  reset_no_access :
      (now later : Time) (id : Uuid) (token : String)
      → (e : Option Error) × (lib.parse later (hmac_key key) token
          ≡ parsed (signed_token lib (reset_claims now id)) e)
      → IsErr (parse_jw_token lib key later token)
  unfolding parse_jw_token read_access claim for_logtrace
  reset_no_access now later id token (e, same) = rw same tt

  module _ (laws : IsLibrary lib) where
    -- A session token, read back at any time, gives the user that it was made for and the moment
    -- one week after it was made.
    pub parse-generate_jw_token :
        (now later : Time) (given d : JwTokenData)
        → generate_jw_token lib key now given ≡ ok d
        → parse_jw_token lib key later d.token
          ≡ ok (record { token = ""; user_id = given.user_id; expires_at = now + week })
    unfolding parse_jw_token
    parse-generate_jw_token now later given d h =
        let (e, same) =
          laws.parse-signed_string (access_claims now given.user_id) key d.token later
            (hmac_key key) (access_signed now given d h) refl in
        rw same (
          unfold read_access claim for_logtrace in
          rw (laws.parse_time-format_time, laws.parse_uuid-uuid_text) refl)

    -- A reset token gives its user until an hour after it was made, to the second, and is refused
    -- from then on.
    parse-generate_password_reset_token :
        (now later : Time) (given d : JwTokenData)
        → generate_password_reset_token lib key now given ≡ ok d
        → (later + second ≤ now + hour
            → parse_password_reset_token lib key later d.token
              ≡ ok (record { token = ""; user_id = given.user_id; expires_at = 0 }))
          × (now + hour ≤ later → IsErr (parse_password_reset_token lib key later d.token))
    unfolding parse_password_reset_token
    parse-generate_password_reset_token now later given d h = (
      λ early.
          rw
            (laws.parse_fresh (reset_claims now given.user_id) key d.token later (hmac_key key)
              (unix (now + hour)) (reset_signed now given d h) refl (unfold claim in refl)
              (expiry_positive now) (unfold claim in refl) (omega arith))
            (unfold read_reset claim for_reset in rw laws.parse_uuid-uuid_text refl),
      λ late.
          let (e, same) =
            laws.parse_expired (reset_claims now given.user_id) key d.token later (hmac_key key)
              (unix (now + hour)) (reset_signed now given d h) refl (unfold claim in refl)
              (expiry_positive now) (unfold claim in refl) (omega arith) in
          rw same tt,
    )

    -- The two kinds of token do not stand in for each other: a session token never resets a
    -- password, and a reset token never opens a session.
    pub purposes_apart :
        (now later : Time) (given d : JwTokenData)
        → (generate_jw_token lib key now given ≡ ok d
            → IsErr (parse_password_reset_token lib key later d.token))
          × (generate_password_reset_token lib key now given ≡ ok d
              → IsErr (parse_jw_token lib key later d.token))
    purposes_apart now later given d = (
      λ h. access_no_reset now later given.user_id d.token (
          laws.parse-signed_string (access_claims now given.user_id) key d.token later
            (hmac_key key) (access_signed now given d h) refl),
      λ h. reset_no_access now later given.user_id d.token (
          laws.parse-signed_string (reset_claims now given.user_id) key d.token later (hmac_key key)
            (reset_signed now given d h) refl),
    )

module _ (lib : Library)
    (parse_uuid-uuid_text : (u : Uuid) → lib.parse_uuid (lib.uuid_text u) ≡ some u)
    (parse_time-format_time : (t : Time) → lib.parse_time (lib.format_time t) ≡ some t) where
  -- Where jwt.Parse hands out a token that was signed with another key beside the error for its
  -- signature, a session token that was made with that key is read, under the key of the server, as
  -- a session of the user that it was made for, which ends a week after it was made.
  pub parse_jw_token-any_key :
      (key foreign : String) (now later : Time) (given d : JwTokenData)
      → ((claims : MapClaims) (token : String)
          → lib.signed_string claims foreign ≡ ok token
          → (e : Error) × (lib.parse later (hmac_key key) token
              ≡ parsed (signed_token lib claims) (some e)))
      → generate_jw_token lib foreign now given ≡ ok d
      → parse_jw_token lib key later d.token
        ≡ ok (record { token = ""; user_id = given.user_id; expires_at = now + week })
  unfolding parse_jw_token
  parse_jw_token-any_key key foreign now later given d hands_out h =
      let (e, same) =
        hands_out (access_claims now given.user_id) d.token
          (access_signed lib foreign now given d h) in
      rw same (
        unfold read_access claim for_logtrace in
        rw (parse_time-format_time, parse_uuid-uuid_text) refl)
