-- ===== src/Jwt/Laws.antt =====
-- What the program relies on in the packages that it signs and parses tokens with, as they document
-- it: texts of identifiers and times parse back, a token that was signed with a key parses under a
-- key function that gives this key, to the claims as JSON has them, and a numeric claim "exp", where it
-- is not zero and there is no claim "nbf", is held against the clock.
use Prim.Native.String.{String}
use logtrace_backend.Common.{ℕ, ◌*◌, ◌<◌, ◌≤◌, ◌≡◌, true, Option, none, some, [], ◌∷◌}
use logtrace_backend.Domain.{Uuid, Time, Error, ok}
use logtrace_backend.Jwt.{
  Claim, text, number, uuid, time, MapClaims, ParsedToken, parsed, KeyFunc, Library, claim, second,
}

module _ (lib : Library) where
  -- encoding/json, on the values that stand in claims.
  abbrev pub json_claim : Claim → Claim
  json_claim (text s) = text s
  json_claim (number n) = number n
  json_claim (uuid u) = text (lib.uuid_text u)
  json_claim (time t) = text (lib.format_time t)

  abbrev pub json_claims : MapClaims → MapClaims
  json_claims [] = []
  json_claims ((k, v) ∷ claims) = (k, json_claim v) ∷ json_claims claims

  abbrev pub signed_token : MapClaims → ParsedToken
  signed_token claims = record { is_hmac = true; claims = some (json_claims claims) }

  pub record IsLibrary : Type 0 where
    pub parse_uuid-uuid_text : (u : Uuid) → lib.parse_uuid (lib.uuid_text u) ≡ some u
    pub parse_time-format_time : (t : Time) → lib.parse_time (lib.format_time t) ≡ some t
    pub parse-signed_string :
        (claims : MapClaims) (key token : String) (now : Time) (keys : KeyFunc)
        → lib.signed_string claims key ≡ ok token
        → keys true ≡ ok key
        → (e : Option Error) × (lib.parse now keys token ≡ parsed (signed_token claims) e)
    pub parse_fresh :
        (claims : MapClaims) (key token : String) (now : Time) (keys : KeyFunc) (n : ℕ)
        → lib.signed_string claims key ≡ ok token
        → keys true ≡ ok key
        → claim "nbf" claims ≡ none
        → 0 < n
        → claim "exp" claims ≡ some (number n)
        → now < n * second
        → lib.parse now keys token ≡ parsed (signed_token claims) none
    pub parse_expired :
        (claims : MapClaims) (key token : String) (now : Time) (keys : KeyFunc) (n : ℕ)
        → lib.signed_string claims key ≡ ok token
        → keys true ≡ ok key
        → claim "nbf" claims ≡ none
        → 0 < n
        → claim "exp" claims ≡ some (number n)
        → n * second ≤ now
        → (e : Error) × (lib.parse now keys token ≡ parsed (signed_token claims) (some e))
