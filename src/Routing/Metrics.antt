-- ===== src/Routing/Metrics.antt =====
-- The endpoint of Prometheus in server/http.go, and basicAuth before it, with the configuration that
-- Validate of config/env.go lets through. `compare` stands for `subtle.ConstantTimeCompare`, and the
-- credentials are what `r.BasicAuth()` gives.
use Prim.Native.String.{String}
use logtrace_backend.Common.{
  ℕ, ◌≡◌, ◌≢◌, refl, Bool, true, false, ◌||◌, not, Option, none, some, ◌⊎◌, inl, inr, ◌↔◌, arith,
  ◌==◌, nat_eq, ==_iff, Bool-cases, ap, if◌then◌else◌,
}
use logtrace_backend.GoText.{is_string_empty}
use logtrace_backend.Domain.{ok}
use logtrace_backend.Config.{Config, validate, with_default_ports}

-- `http.Error` after a header was set.
pub record PlainError : Type 0 where
  pub status_code : ℕ
  pub message : String
  pub www_authenticate : String

pub data Guarded (A : Type 0) : Type 0 where
  refused : PlainError → Guarded A
  passed : A → Guarded A

abbrev pub unauthorized : PlainError
unauthorized = record {
  status_code = 401;
  message = "Unauthorized";
  www_authenticate = "Basic realm=\"metrics\"";
}

module _ (compare : String → String → ℕ) {W A : Type 0} (next : W → A × W) where
  abbrev passed_on : A × W → Guarded A × W
  passed_on (a, w) = (passed a, w)

  unfoldable pub basic_auth : String → String → Option (String × String) → W → Guarded A × W
  basic_auth username password none w = (refused unauthorized, w)
  basic_auth username password (some (u, p)) w =
      if not (compare u username == 1) || not (compare p password == 1)
      then (refused unauthorized, w)
      else passed_on (next w)

  -- `none` where no such route is there.
  unfoldable pub metrics_endpoint :
      Bool → Config → Option (String × String) → W → Option (Guarded A) × W
  unfolding basic_auth
  metrics_endpoint enabled c credentials w =
      let (answer, w') = basic_auth c.metrics_username c.metrics_password credentials w in
      if enabled then (some answer, w') else (none, w)

unwrapped : {A : Type 0} {a b : A} → some a ≡ some b → a ≡ b
unwrapped h = cc

validated_credentials :
    (parse_address : String → Bool) (c c' : Config)
    → validate parse_address c ≡ ok c'
    → (is_string_empty c'.metrics_username ≡ false) × (is_string_empty c'.metrics_password ≡ false)
unfolding validate with_default_ports
validated_credentials parse_address c c' h =
    elim (Bool-cases (is_string_empty c.metrics_password)) [
      | inl e ↦ absurd (ground arith)
      | inr e ↦ elim (Bool-cases (is_string_empty c.metrics_username)) [
        | inl f ↦ absurd (ground arith)
        | inr f ↦ ground arith
      ]
    ]

module _ (parse_address : String → Bool) (compare : String → String → ℕ)
    (compares : (s t : String) → (compare s t ≡ 1) ↔ (s ≡ t)) {W A : Type 0}
    (next : W → A × W) where
  -- The scrape came with the configured credentials, which are not blank, and was served; or it came
  -- with others, was refused, and nothing was done.
  abbrev pub Outcome : Config → Option (String × String) → W → Option (Guarded A) × W → Type 0
  Outcome c credentials w answer =
      ((credentials ≡ some (c.metrics_username, c.metrics_password))
        × (is_string_empty c.metrics_username ≡ false)
        × (is_string_empty c.metrics_password ≡ false)
        × (answer ≡ (some (passed (next w).0), (next w).1)))
      ⊎ ((credentials ≢ some (c.metrics_username, c.metrics_password))
          × (answer ≡ (some (refused unauthorized), w)))

  refuses_pair :
      (c : Config) (u p : String) (w : W)
      → (compare u c.metrics_username == 1) ≡ false ⊎ (compare p c.metrics_password == 1) ≡ false
      → (◌≢◌ {A = String × String} (u, p) (c.metrics_username, c.metrics_password))
        × (metrics_endpoint compare next true c (some (u, p)) w ≡ (some (refused unauthorized), w))
  unfolding metrics_endpoint
  refuses_pair c u p w (inl e) = (
    λ same. absurd (ground (arith, (compares u c.metrics_username).1 (ap (λ x. x.0) same))),
    rw e refl,
  )
  refuses_pair c u p w (inr e) = (
    λ same. absurd (ground (arith, (compares p c.metrics_password).1 (ap (λ x. x.1) same))),
    ground arith,
  )

  -- With a configuration that was validated, the endpoint of the metrics serves exactly the requests
  -- that carry the configured user and password, which are not blank, and refuses all others with
  -- 401 and without a further call.
  pub metrics_endpoint-serves :
      (c c' : Config) (credentials : Option (String × String)) (w : W)
      → validate parse_address c ≡ ok c'
      → Outcome c' credentials w (metrics_endpoint compare next true c' credentials w)
  unfolding metrics_endpoint
  metrics_endpoint-serves c c' none w valid = inr (λ h. cc, refl)
  metrics_endpoint-serves c c' (some (u, p)) w valid =
      let (user_given, password_given) = validated_credentials parse_address c c' valid in
      elim (Bool-cases (compare u c'.metrics_username == 1)) [
        | inr e ↦
            let (other, refusal) = refuses_pair c' u p w (inl e) in
            inr (λ h. other (unwrapped h), refusal)
        | inl e ↦ elim (Bool-cases (compare p c'.metrics_password == 1)) [
          | inr f ↦
              let (other, refusal) = refuses_pair c' u p w (inr f) in
              inr (λ h. other (unwrapped h), refusal)
          | inl f ↦
              let same_user = (compares u c'.metrics_username).0 ((==_iff _ _).0 e) in
              let same_password = (compares p c'.metrics_password).0 ((==_iff _ _).0 f) in
              inl (cc (same_user, same_password), user_given, password_given, rw (e, f) refl)
        ]
      ]
