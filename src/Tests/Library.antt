-- ===== src/Tests/Library.antt =====
-- A token library that signs two values of claims, and the theorems on the tokens of Jwt with it.
use Prim.Native.String.{String, [], ◌∷◌}
use logtrace_backend.Common.{
  ℕ, zero, suc, ◌+◌, ◌*◌, ◌<◌, ◌≤◌, ◌≡◌, refl, ap, ◌∙◌, Bool, true, false, ◌&&◌, Option, none, some,
  List, arith, ltb, ◌==◌, nat_eq, string_eq, ==_iff, Bool-cases, ◌⊎◌, inl, inr, if◌then◌else◌,
}
use logtrace_backend.Domain.{Time, Error, other, Result, ok, err, IsErr}
use logtrace_backend.Repositories.{JwTokenData, token_data_for}
use logtrace_backend.Jwt.{
  hmac_key, Claim, text, number, uuid, time, MapClaims, ParseResult, refused, parsed, KeyFunc,
  Library, claim, access_claims, reset_claims, hour, week, second, unix, generate_jw_token,
  parse_jw_token, generate_password_reset_token, parse_password_reset_token,
}
use logtrace_backend.Jwt.Laws.{IsLibrary, signed_token}
use logtrace_backend.Jwt.Tokens.{parse-generate_jw_token, purposes_apart, parse_jw_token-any_key}

-- Numbers in unary.
unfoldable pub unary : ℕ → String
unary zero = []
unary (suc n) = "x" ∷ unary n

pub from_unary : String → ℕ
from_unary [] = 0
from_unary (c ∷ s) = suc (from_unary s)

pub from_unary-unary : (n : ℕ) → from_unary (unary n) ≡ n
unfolding unary from_unary
from_unary-unary zero = refl
from_unary-unary (suc n) = ap suc (from_unary-unary n)

abbrev same_claim : Claim → Claim → Bool
same_claim (text a) (text b) = a == b
same_claim (number a) (number b) = a == b
same_claim (uuid a) (uuid b) = a == b
same_claim (time a) (time b) = a == b
same_claim _ _ = false

abbrev same_claims : MapClaims → MapClaims → Bool
same_claims List.[] List.[] = true
same_claims (List.◌∷◌ (k, v) cs) (List.◌∷◌ (l, u) ds) =
    k == l && (same_claim v u && same_claims cs ds)
same_claims _ _ = false

same_claim-≡ : (v u : Claim) → same_claim v u ≡ true → v ≡ u
same_claim-≡ (text a) (text b) h = ap text ((==_iff a b).0 h)
same_claim-≡ (number a) (number b) h = ap number ((==_iff a b).0 h)
same_claim-≡ (uuid a) (uuid b) h = ap uuid ((==_iff a b).0 h)
same_claim-≡ (time a) (time b) h = ap time ((==_iff a b).0 h)
same_claim-≡ _ _ h = absurd (cc)

same_claims-≡ : (cs ds : MapClaims) → same_claims cs ds ≡ true → cs ≡ ds
same_claims-≡ List.[] List.[] h = refl
same_claims-≡ (List.◌∷◌ (k, v) cs) (List.◌∷◌ (l, u) ds) h =
    let e1 : k == l ≡ true = ground arith in
    let e2 : same_claim v u ≡ true = ground arith in
    let e3 : same_claims cs ds ≡ true = ground arith in
    let p1 = (==_iff k l).0 e1 in
    let p2 = same_claim-≡ v u e2 in let p3 = same_claims-≡ cs ds e3 in cc
same_claims-≡ List.[] (List.◌∷◌ d ds) h = absurd (cc)
same_claims-≡ (List.◌∷◌ c cs) List.[] h = absurd (cc)

-- The claims of a session and of a reset, both of the user 7 at the time 0.
abbrev session_claims : MapClaims
session_claims = access_claims 0 7

abbrev forgotten_claims : MapClaims
forgotten_claims = reset_claims 0 7

sign : MapClaims → String → Result String
sign claims key =
    if same_claims claims session_claims && key == "pepper"
    then ok "S"
    else if same_claims claims forgotten_claims && key == "pepper"
    then ok "R"
    else err (other "not signed here")

-- The texts of identifiers and times, without signatures.
abbrev codec : Library
codec = record {
  signed_string = λ claims key. err (other "not signed here");
  parse = λ now keys token. refused (other "not parsed here");
  parse_uuid = λ s. some (from_unary s);
  uuid_text = unary;
  parse_time = λ s. some (from_unary s);
  format_time = unary;
}

-- The error beside a reset token: from the second on that its claim "exp" names, it is expired.
expiry : Time → Option Error
expiry now = if ltb now (unix hour * second) then none else some (other "token is expired")

read_token : Time → KeyFunc → String → ParseResult
read_token now keys token =
    if token == "S"
    then parsed (signed_token codec session_claims) none
    else if token == "R"
    then parsed (signed_token codec forgotten_claims) (expiry now)
    else refused (other "token is malformed")

abbrev library : Library
library = record codec { signed_string = sign; parse = read_token }

read_signed :
    (claims : MapClaims) (key token : String) (now : Time) (keys : KeyFunc)
    → sign claims key ≡ ok token
    → (e : Option Error) × (read_token now keys token ≡ parsed (signed_token library claims) e)
      × (((claims ≡ session_claims) × (e ≡ none))
          ⊎ ((claims ≡ forgotten_claims) × (e ≡ expiry now)))
unfolding sign read_token
read_signed claims key token now keys h = elim (Bool-cases (key == "pepper")) [
  | inr k ↦ absurd (ground arith)
  | inl k ↦ elim (Bool-cases (same_claims claims session_claims)) [
    | inl e ↦
        let t : token ≡ "S" = ground arith in
        let p = same_claims-≡ claims session_claims e in (none, rw (t, p) refl, inl (p, refl))
    | inr e ↦ elim (Bool-cases (same_claims claims forgotten_claims)) [
      | inl f ↦
          let t : token ≡ "R" = ground arith in
          let p = same_claims-≡ claims forgotten_claims f in
          (expiry now, rw (t, p) refl, inr (p, refl))
      | inr f ↦ absurd (ground arith)
    ]
  ]
]

unstamped : (n : ℕ) → ¬ (claim "exp" session_claims ≡ some (number n))
unfolding claim
unstamped n h = absurd (cc)

stamp : (n : ℕ) → claim "exp" forgotten_claims ≡ some (number n) → unix (0 + hour) ≡ n
unfolding claim
stamp n h = cc

expiry-early : (now n : ℕ) → unix (0 + hour) ≡ n → now < n * second → expiry now ≡ none
unfolding expiry
expiry-early now n h early = elim (Bool-cases (ltb now (unix hour * second))) [
  | inl e ↦ rw e refl
  | inr e ↦ absurd (ground arith)
]

expiry-late :
    (now n : ℕ)
    → unix (0 + hour) ≡ n
    → n * second ≤ now
    → expiry now ≡ some (other "token is expired")
unfolding expiry
expiry-late now n h late = elim (Bool-cases (ltb now (unix hour * second))) [
  | inl e ↦ absurd (ground arith)
  | inr e ↦ rw e refl
]

library_laws : IsLibrary library
library_laws = record {
  parse_uuid-uuid_text = λ u. ap some (from_unary-unary u);
  parse_time-format_time = λ t. ap some (from_unary-unary t);
  parse-signed_string = λ claims key token now keys signed given.
      let (e, same, which) = read_signed claims key token now keys signed in (e, same);
  parse_fresh = λ claims key token now keys n signed given timeless positive stamped early.
      let (e, same, which) = read_signed claims key token now keys signed in
      elim which [
        | inl (p, q) ↦ absurd (unstamped n (rw p at stamped))
        | inr (p, q) ↦
            same
            ∙ ap (parsed (signed_token library claims))
                (q ∙ expiry-early now n (stamp n (rw p at stamped)) early)
      ];
  parse_expired = λ claims key token now keys n signed given timeless positive stamped late.
      let (e, same, which) = read_signed claims key token now keys signed in
      elim which [
        | inl (p, q) ↦ absurd (unstamped n (rw p at stamped))
        | inr (p, q) ↦ (
          other "token is expired",
          same
              ∙ ap (parsed (signed_token library claims))
                  (q ∙ expiry-late now n (stamp n (rw p at stamped)) late),
        )
      ];
}

abbrev session : JwTokenData
session = record { token = "S"; user_id = 7; expires_at = 0 }

abbrev forgotten : JwTokenData
forgotten = record { token = "R"; user_id = 7; expires_at = 0 + hour }

session_generated : generate_jw_token library "pepper" 0 (token_data_for 7) ≡ ok session
unfolding generate_jw_token sign
session_generated = refl

forgotten_generated :
    generate_password_reset_token library "pepper" 0 (token_data_for 7) ≡ ok forgotten
unfolding generate_password_reset_token sign
forgotten_generated = refl

parse-generate_jw_token_example :
    parse_jw_token library "pepper" 5 "S"
    ≡ ok (record { token = ""; user_id = 7; expires_at = 0 + week })
parse-generate_jw_token_example =
    parse-generate_jw_token library "pepper" library_laws 0 5 (token_data_for 7) session
      session_generated

purposes_apart_example :
    (generate_jw_token library "pepper" 0 (token_data_for 7) ≡ ok session
      → IsErr (parse_password_reset_token library "pepper" 5 "S"))
    × (generate_password_reset_token library "pepper" 0 (token_data_for 7) ≡ ok session
        → IsErr (parse_jw_token library "pepper" 5 "S"))
purposes_apart_example = purposes_apart library "pepper" library_laws 0 5 (token_data_for 7) session

-- A package that knows one token, which was signed with a key that is not the one of the server.
sign_foreign : MapClaims → String → Result String
sign_foreign claims key =
    if same_claims claims session_claims then ok "S" else err (other "not signed here")

abbrev forging : Library
forging = record codec {
  signed_string = sign_foreign;
  parse = λ now keys token.
      parsed (signed_token codec session_claims) (some (other "signature is invalid"));
}

handed_out :
    (claims : MapClaims) (token : String)
    → sign_foreign claims "attack" ≡ ok token
    → (e : Error) × (forging.parse 5 (hmac_key "pepper") token
        ≡ parsed (signed_token forging claims) (some e))
unfolding sign_foreign
handed_out claims token h = elim (Bool-cases (same_claims claims session_claims)) [
  | inl e ↦ (other "signature is invalid", rw (same_claims-≡ claims session_claims e) refl)
  | inr e ↦ absurd (let g = rw e at h in cc)
]

foreign_generated : generate_jw_token forging "attack" 0 (token_data_for 7) ≡ ok session
unfolding generate_jw_token sign_foreign
foreign_generated = refl

parse_jw_token-any_key_example :
    parse_jw_token forging "pepper" 5 "S"
    ≡ ok (record { token = ""; user_id = 7; expires_at = 0 + week })
parse_jw_token-any_key_example =
    parse_jw_token-any_key forging (λ u. ap some (from_unary-unary u))
      (λ t. ap some (from_unary-unary t)) "pepper" "attack" 0 5 (token_data_for 7) session
      handed_out foreign_generated
