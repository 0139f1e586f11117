-- ===== src/Auth/Passwords/Reset.antt =====
-- When a password is reset.
use logtrace_backend.Common.{
  ◌≡◌, ◌≢◌, ◌≤◌, refl, true, Option, some, String, ◌⊎◌, inl, inr, arith, ◌==◌, string_eq, ==_iff,
}
use logtrace_backend.Domain.{Time, ok}
use logtrace_backend.Http.{Step, reply, failure, success, NoBody}
use logtrace_backend.Http.Rules.{Ends, Ends-present, Ends-settle, Ends-run, Ends-respond}
use logtrace_backend.Repositories.{JwTokenData}
use logtrace_backend.Auth.{Tools, Services, ResetPasswordRequest, validate_reset}
use logtrace_backend.Auth.Passwords.{confirm_reset, password_of}

validate_reset_checks :
    (tools : Tools) (r : ResetPasswordRequest) (u : Unit)
    → validate_reset tools r ≡ ok u
    → (r.password == r.confirm_password ≡ true) × (tools.moderate ≤ tools.strength r.password)
unfolding validate_reset
validate_reset_checks tools r u h = ground arith

module _ (tools : Tools) {W : Type 0} (s : Services W) where
  -- The call that writes the new password, and what was checked before it.
  pub record IsReset (now : Time) (bound : Option ResetPasswordRequest) (w : W)
      (step : Step NoBody ⊥) (w' : W) : Type 0 where
    pub req : ResetPasswordRequest
    pub token : JwTokenData
    pub hashed : String
    pub bound_to : bound ≡ some req
    pub repeated : req.password ≡ req.confirm_password
    pub strong : tools.moderate ≤ tools.strength req.password
    pub signed : s.tokens.parse_password_reset_token now req.token ≡ ok token
    pub hash : tools.hash_password req.password ≡ ok hashed
    pub written : w' ≡ (s.passwords.update (password_of token.user_id hashed) w).1
    pub told :
        (((s.passwords.update (password_of token.user_id hashed) w).0 ≡ ok tt)
          × (step ≡ reply (success 200 "password reset successfully")))
        ⊎ (step ≡ reply (failure 500 "could not update password"))

  abbrev pub Outcome : Time → Option ResetPasswordRequest → W → Step NoBody ⊥ → W → Type 0
  Outcome now bound w step w' =
      ((w' ≡ w) × (step ≢ reply (success 200 "password reset successfully")))
      ⊎ IsReset now bound w step w'

  confirm_reset-Ends :
      (now : Time) (bound : Option ResetPasswordRequest) (w : W)
      → Ends (Outcome now bound w) (confirm_reset tools s now bound) w
  unfolding confirm_reset
  confirm_reset-Ends now bound w = Ends-present bound _ (inl (refl, λ h. cc)) λ req bound_to.
      Ends-settle _ _ (λ e f. inl (refl, λ h. cc))
        λ u valid.
          Ends-settle _ _ (λ e f. inl (refl, λ h. cc))
            λ token signed.
              Ends-settle _ _ (λ e f. inl (refl, λ h. cc))
                λ hashed hash.
                  let (repeated, strong) = validate_reset_checks tools req u valid in
                  Ends-run _ _
                    (λ e f. inr (record {
                      req = req;
                      token = token;
                      hashed = hashed;
                      bound_to = bound_to;
                      repeated = (==_iff _ _).0 repeated;
                      strong = strong;
                      signed = signed;
                      hash = hash;
                      written = refl;
                      told = inr refl;
                    }))
                    (λ f. Ends-respond _ (
                      inr (record {
                        req = req;
                        token = token;
                        hashed = hashed;
                        bound_to = bound_to;
                        repeated = (==_iff _ _).0 repeated;
                        strong = strong;
                        signed = signed;
                        hash = hash;
                        written = refl;
                        told = inl (f, refl);
                      })))

  -- A password is written only where the request repeats it, it is strong enough and the token is
  -- read as a reset token, for the user that the token names; the reply is the success exactly where
  -- the repository stored the hash. Otherwise the world is as it was and the reply is not the success.
  pub confirm_reset_authorised :
      (now : Time) (bound : Option ResetPasswordRequest) (w : W)
      → Outcome now bound w
          (confirm_reset tools s now bound w).0
          (confirm_reset tools s now bound w).1
  confirm_reset_authorised now bound w = (confirm_reset-Ends now bound w).at
