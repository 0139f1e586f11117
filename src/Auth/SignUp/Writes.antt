-- ===== src/Auth/SignUp/Writes.antt =====
-- What a sign-up has written when it succeeds, and when the email is taken.
use logtrace_backend.Common.{◌≡◌, ◌≢◌, refl, ap, ◌∙◌, String, Option, some, ◌⊎◌, inl, inr, arith}
use logtrace_backend.Domain.{user_exists, ok, err, User, Organization}
use logtrace_backend.Http.{Step, reply, success_with, failure, ◌>>=◌}
use logtrace_backend.Http.Rules.{
  Ends, Ends-present, Ends-settle, Ends-act, Ends-run, Ends-deref, Ends-respond,
}
use logtrace_backend.Auth.{Tools, Services, Draw, SignUpRequest, validate_sign_up}
use logtrace_backend.Auth.Passwords.{password_of}
use logtrace_backend.Auth.Sessions.{LoginBody, generate_user_token}
use logtrace_backend.Auth.SignUp.{
  new_organization, new_admin, send_verification_email, complete_sign_up, email_sign_up,
}

-- A call whose result is known, as the pair of the result and the world it left.
called : {A W : Type 0} {a : A} (p : A × W) → p.0 ≡ a → p ≡ (a, p.1)
called p h = ap (λ x. (x, p.1)) h

module _ (tools : Tools) {W : Type 0} (s : Services W) where
  -- The calls that write, one after the other: each was made in the world that the one before left.
  pub record IsSignUp (d : Draw) (bound : Option SignUpRequest) (w : W) (w' : W) : Type 0 where
    pub req : SignUpRequest
    pub hashed : String
    pub org : Organization
    pub user : User
    pub with_org : W
    pub with_user : W
    pub with_password : W
    pub bound_to : bound ≡ some req
    pub valid : validate_sign_up tools req ≡ ok tt
    pub hash : tools.hash_password req.password ≡ ok hashed
    pub org_written : s.orgs.create (new_organization d.now req.organization) w ≡ (ok org, with_org)
    pub user_written : s.users.create (new_admin req org.id) with_org ≡ (ok (some user), with_user)
    pub password_written :
        s.passwords.create (password_of user.id hashed) with_user ≡ (ok tt, with_password)
    pub verification_written :
        send_verification_email tools s d.random user with_password ≡ (ok tt, w')

  abbrev Outcome : Draw → Option SignUpRequest → W → Step LoginBody ⊥ → W → Type 0
  Outcome d bound w step w' =
      ((b : LoginBody) → step ≢ reply (success_with 200 "login successful" b))
      ⊎ IsSignUp d bound w w'

  complete_sign_up-Ends :
      (d : Draw) (bound : Option SignUpRequest) (w v : W) (hashed : String) (user : User)
      → ((v' w' : W)
          → s.passwords.create (password_of user.id hashed) v ≡ (ok tt, v')
          → send_verification_email tools s d.random user v' ≡ (ok tt, w')
          → IsSignUp d bound w w')
      → Ends (Outcome d bound w) (complete_sign_up tools s d hashed user) v
  unfolding complete_sign_up generate_user_token
  complete_sign_up-Ends d bound w v hashed user done =
      Ends-run _ _ (λ e f. inl (λ b h. cc))
        λ stored.
          Ends-run _ _ (λ e f. inl (λ b h. cc))
            λ sent.
              Ends-settle _ _ (λ e f. inl (λ b h. cc))
                λ token signed.
                  Ends-deref user.metadata (inl (λ b h. cc)) λ metadata role.
                    Ends-respond _ (inr (done _ _ (called _ stored) (called _ sent)))

  email_sign_up-Ends :
      (d : Draw) (bound : Option SignUpRequest) (w : W)
      → Ends (Outcome d bound w) (email_sign_up tools s d bound) w
  unfolding email_sign_up
  email_sign_up-Ends d bound w = Ends-present bound _ (inl (λ b h. cc)) λ req bound_to.
      Ends-settle _ _ (λ e f. inl (λ b h. cc))
        λ u valid.
          Ends-settle _ _ (λ e f. inl (λ b h. cc))
            λ hashed hash.
              Ends-act _ _ (λ e f. inl (λ b h. ground arith))
                λ org org_made.
                  Ends-act _ _ (λ e f. inl (λ b h. ground arith))
                    λ created user_made. Ends-present created _ (inl (λ b h. cc)) λ user some_user.
                      let user_written = called _ (user_made ∙ ap ok some_user) in
                      complete_sign_up-Ends d bound w _ hashed user
                        λ v' w' password_written verification_written. record {
                          req = req;
                          hashed = hashed;
                          org = org;
                          user = user;
                          with_org = _;
                          with_user = _;
                          with_password = v';
                          bound_to = bound_to;
                          valid = valid;
                          hash = hash;
                          org_written = called _ org_made;
                          user_written = user_written;
                          password_written = password_written;
                          verification_written = verification_written;
                        }

  -- A sign-up that is answered with a token has stored the organization, its first user as an
  -- administrator of it, the hash of the password, and what the verification of the email needs,
  -- in this order and each without an error.
  pub email_sign_up-IsSignUp :
      (d : Draw) (bound : Option SignUpRequest) (w : W) (b : LoginBody)
      → (email_sign_up tools s d bound w).0 ≡ reply (success_with 200 "login successful" b)
      → IsSignUp d bound w (email_sign_up tools s d bound w).1
  email_sign_up-IsSignUp d bound w b h = elim (email_sign_up-Ends d bound w).at [
    | inl refused ↦ absurd (refused b h)
    | inr done ↦ done
  ]

  -- A sign-up with an email that is taken is answered with a conflict, and the organization that it
  -- stored first stays.
  email_sign_up-taken :
      (d : Draw) (req : SignUpRequest) (w w₁ w₂ : W) (hashed : String) (org : Organization)
      → validate_sign_up tools req ≡ ok tt
      → tools.hash_password req.password ≡ ok hashed
      → s.orgs.create (new_organization d.now req.organization) w ≡ (ok org, w₁)
      → s.users.create (new_admin req org.id) w₁ ≡ (err user_exists, w₂)
      → email_sign_up tools s d (some req) w
        ≡ (reply (failure 409 "Account already exists. Please use a different email"), w₂)
  unfolding email_sign_up ◌>>=◌
  email_sign_up-taken d req w w₁ w₂ hashed org valid hash org_written taken =
      rw (valid, hash, org_written, taken) refl
