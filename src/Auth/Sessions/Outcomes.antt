-- ===== src/Auth/Sessions/Outcomes.antt =====
-- Which logins succeed.
use logtrace_backend.Common.{◌≡◌, ◌≢◌, refl, String, Bool, false, none, some, ◌⊎◌, inl, inr, arith}
use logtrace_backend.Domain.{ok, User, UserMetadata, Password}
use logtrace_backend.Http.{Step, reply, panic, success_with, ◌>>=◌}
use logtrace_backend.Http.Rules.{Ends, Ends-ask, Ends-settle, Ends-deref, Ends-respond}
use logtrace_backend.Repositories.{JwTokenData, token_data_for}
use logtrace_backend.Auth.{Tools, Services, Draw, LoginRequest, find_user_by_email, email_string}
use logtrace_backend.Auth.Sessions.{
  LoginBody, generate_user_token, login_with_email, login_with_google, get_or_create_user,
  created_or_exists, google_account,
}

module _ (tools : Tools) {W : Type 0} (s : Services W) where
  abbrev login_body : User → UserMetadata → JwTokenData → LoginBody
  login_body user m token = record {
    id = user.id;
    username = user.full_name;
    email = email_string tools user.email;
    full_name = user.full_name;
    created_at = user.created_at;
    metadata = user.metadata;
    role_name = m.user_role;
    token = token.token;
  }

  -- A login by email that was answered with a token.
  pub record IsLogin (d : Draw) (req : LoginRequest) (w : W) (step : Step LoginBody ⊥)
      : Type 0 where
    pub user : User
    pub stored : Password
    pub matches : Bool
    pub metadata : UserMetadata
    pub token : JwTokenData
    pub found : s.users.list (find_user_by_email req.email) w ≡ ok user
    pub fetched : s.passwords.list user.id w ≡ ok stored
    pub compared : tools.compare_password_and_hash req.password stored.user_password ≡ ok matches
    pub role : user.metadata ≡ some metadata
    pub signed : s.tokens.generate_jw_token d.now (token_data_for user.id) ≡ ok token
    pub told : step ≡ reply (success_with 200 "login successful" (login_body user metadata token))

  abbrev Outcome : Draw → LoginRequest → W → Step LoginBody ⊥ → W → Type 0
  Outcome d req w step w' =
      (w' ≡ w)
      × (((b : LoginBody) → step ≢ reply (success_with 200 "login successful" b))
          ⊎ IsLogin d req w step)

  login_with_email-Ends :
      (d : Draw) (req : LoginRequest) (w : W)
      → Ends (Outcome d req w) (login_with_email tools s d req) w
  unfolding login_with_email generate_user_token
  login_with_email-Ends d req w =
      Ends-ask _ _ (λ e f. (refl, inl (λ b h. ground arith)))
        λ user found.
          Ends-ask _ _ (λ e f. (refl, inl (λ b h. cc)))
            λ stored fetched.
              Ends-settle _ _ (λ e f. (refl, inl (λ b h. cc)))
                λ matches compared.
                  Ends-settle _ _ (λ e f. (refl, inl (λ b h. cc)))
                    λ token signed.
                      Ends-deref user.metadata (refl, inl (λ b h. cc))
                        λ metadata role. Ends-respond _ (
                          refl,
                          inr (record {
                            user = user;
                            stored = stored;
                            matches = matches;
                            metadata = metadata;
                            token = token;
                            found = found;
                            fetched = fetched;
                            compared = compared;
                            role = role;
                            signed = signed;
                            told = refl;
                          }),
                        )

  -- A login by email leaves the stores as they were, and is answered with a token only for a user
  -- found under the email, whose stored hash was compared with the password without an error, and
  -- whose metadata is there.
  login_with_email_checked :
      (d : Draw) (req : LoginRequest) (w : W)
      → Outcome d req w (login_with_email tools s d req w).0 (login_with_email tools s d req w).1
  login_with_email_checked d req w = (login_with_email-Ends d req w).at

  -- The outcome of the comparison does not count: where the password does not match the stored hash,
  -- the user under the email is logged in all the same.
  pub login_with_email-mismatch :
      (d : Draw) (req : LoginRequest) (w : W) (user : User) (stored : Password)
      (metadata : UserMetadata) (token : JwTokenData)
      → s.users.list (find_user_by_email req.email) w ≡ ok user
      → s.passwords.list user.id w ≡ ok stored
      → tools.compare_password_and_hash req.password stored.user_password ≡ ok false
      → user.metadata ≡ some metadata
      → s.tokens.generate_jw_token d.now (token_data_for user.id) ≡ ok token
      → login_with_email tools s d req w
        ≡ (reply (success_with 200 "login successful" (login_body user metadata token)), w)
  unfolding login_with_email generate_user_token ◌>>=◌
  login_with_email-mismatch d req w user stored metadata token found fetched compared role signed =
      rw (found, fetched, compared, signed, role) refl

  -- The first login by Google ends in a panic, with the user stored: the store returns the user that
  -- it was handed, without metadata, and the token of the login needs them.
  pub login_with_google-new_user :
      (d : Draw) (req : LoginRequest) (w : W) (google_token : String) (account : String × String)
      (created : User) (w' : W) (token : JwTokenData)
      → tools.google_validate req.code ≡ ok google_token
      → tools.google_user google_token ≡ ok account
      → s.users.create (google_account tools s account) w ≡ (ok (some created), w')
      → created.metadata ≡ none
      → s.tokens.generate_jw_token d.now (token_data_for created.id) ≡ ok token
      → login_with_google tools s d req w ≡ (panic, w')
  unfolding login_with_google get_or_create_user created_or_exists generate_user_token ◌>>=◌
  login_with_google-new_user d req w google_token account created w' token exchanged fetched stored
        bare signed =
      rw (exchanged, fetched, stored, signed, bare) refl
