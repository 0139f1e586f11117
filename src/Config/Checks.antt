-- ===== src/Config/Checks.antt =====
-- Which configurations Validate lets through.
use Prim.Native.String.{String}
use logtrace_backend.Common.{
  ℕ, zero, suc, ◌≡◌, refl, ap, ◌∙◌, subst, Bool, true, false, not, if◌then◌else◌,
}
use logtrace_backend.Common.Int.{ℤ, pos, negsuc}
use logtrace_backend.GoText.{is_string_empty}
use logtrace_backend.Domain.{Error, Result, ok, err}
use logtrace_backend.Config.{Config, is_negative, or_default, with_default_ports, validate}

module _ (parse_address : String → Bool) where
  -- The tests of Validate, none of which ends it.
  pub record Passes (c : Config) : Type 0 where
    pub sender : not (parse_address c.sender) ≡ false
    pub port : is_negative c.http_port ≡ false
    pub metrics_password : is_string_empty c.metrics_password ≡ false
    pub metrics_username : is_string_empty c.metrics_username ≡ false
    pub hash_secret : is_string_empty c.hash_secret ≡ false
    pub google_client_id : is_string_empty c.google_client_id ≡ false
    pub google_client_secret : is_string_empty c.google_client_secret ≡ false
    pub jwt_key : is_string_empty c.jwt_key ≡ false
    pub csrf_secret : is_string_empty c.csrf_secret ≡ false
    pub trial_days : is_negative c.trial_days ≡ false

  passed :
      {c : Config} (b : Bool) (e : Error) (rest : Result Config)
      → (if b then err e else rest) ≡ ok c
      → (b ≡ false) × (rest ≡ ok c)
  passed true e rest h = absurd (cc)
  passed false e rest h = (refl, h)

  Passes-validate : (c : Config) → Passes c → validate parse_address c ≡ ok (with_default_ports c)
  unfolding validate
  Passes-validate c p =
      rw
        (
          p.sender, p.port, p.metrics_password, p.metrics_username, p.hash_secret,
          p.google_client_id, p.google_client_secret, p.jwt_key, p.csrf_secret, p.trial_days,
        )
        refl

  unwrapped : {c c' : Config} → ok c ≡ ok c' → c ≡ c'
  unwrapped h = cc

  pub validate-Passes :
      (c c' : Config) → validate parse_address c ≡ ok c' → Passes c × (with_default_ports c ≡ c')
  unfolding validate
  validate-Passes c c' h0 =
      let (e0, h1) = passed _ _ _ h0 in
      let (e1, h2) = passed _ _ _ h1 in
      let (e2, h3) = passed _ _ _ h2 in
      let (e3, h4) = passed _ _ _ h3 in
      let (e4, h5) = passed _ _ _ h4 in
      let (e5, h6) = passed _ _ _ h5 in
      let (e6, h7) = passed _ _ _ h6 in
      let (e7, h8) = passed _ _ _ h7 in
      let (e8, h9) = passed _ _ _ h8 in
      let (e9, h) = passed _ _ _ h9 in
      (
        record {
          sender = e0;
          port = e1;
          metrics_password = e2;
          metrics_username = e3;
          hash_secret = e4;
          google_client_id = e5;
          google_client_secret = e6;
          jwt_key = e7;
          csrf_secret = e8;
          trial_days = e9;
        },
        unwrapped h,
      )

  still_negative : (n : ℕ) (z : ℤ) → is_negative (or_default n z) ≡ is_negative z
  still_negative n (pos zero) = refl
  still_negative n (pos (suc m)) = refl
  still_negative n (negsuc m) = refl

  or_default_again :
      (n : ℕ) (z : ℤ) → or_default (suc n) (or_default (suc n) z) ≡ or_default (suc n) z
  or_default_again n (pos zero) = refl
  or_default_again n (pos (suc m)) = refl
  or_default_again n (negsuc m) = refl

  ports_again : (c : Config) → with_default_ports (with_default_ports c) ≡ with_default_ports c
  unfolding with_default_ports
  ports_again c =
      ap
        (λ x. record c {
          http_port = x;
          swagger_port = or_default 8081 (or_default 8081 c.swagger_port);
        })
        (or_default_again 8079 c.http_port)
      ∙ ap (λ x. record c { http_port = or_default 8080 c.http_port; swagger_port = x })
          (or_default_again 8080 c.swagger_port)

  -- A configuration that was validated is valid, and validated to itself.
  pub validate_again :
      (c c' : Config) → validate parse_address c ≡ ok c' → validate parse_address c' ≡ ok c'
  unfolding with_default_ports
  validate_again c c' h =
      let (p, same) = validate-Passes c c' h in
      let q : Passes (with_default_ports c) = record {
        sender = p.sender;
        port = still_negative 8080 c.http_port ∙ p.port;
        metrics_password = p.metrics_password;
        metrics_username = p.metrics_username;
        hash_secret = p.hash_secret;
        google_client_id = p.google_client_id;
        google_client_secret = p.google_client_secret;
        jwt_key = p.jwt_key;
        csrf_secret = p.csrf_secret;
        trial_days = p.trial_days;
      } in
      subst (λ x. validate parse_address x ≡ ok x) same
        (Passes-validate (with_default_ports c) q ∙ ap (λ x. ok x) (ports_again c))
