-- ===== src/Auth/Sessions/Google.antt =====
-- The login by Google over the store of users.
use logtrace_backend.Common.{◌≡◌, ◌≢◌, refl, ap, ◌∙◌, false, none, List, inl, inr}
use logtrace_backend.Domain.{Time, Error, is_user_exists, Result, ok, err, Result-cases, User}
use logtrace_backend.Http.{Step, reply, success_with, ◌>>=◌}
use logtrace_backend.Http.Rules.{Ends, Ends-deref, Ends-settle}
use logtrace_backend.Sql.{Condition, Table, Statements, Texts}
use logtrace_backend.Stores.Users.{create, stored_users}
use logtrace_backend.Auth.{Tools, Services, Draw, LoginRequest}
use logtrace_backend.Auth.Sessions.{
  LoginBody, generate_user_token, created_or_exists, get_or_create_user, google_account,
  login_with_google,
}

module _ (tools : Tools) (t : Texts) {W : Type 0} (users : Table User W)
    (statements : Statements User W) (select_all : List Condition → W → Result (List User))
    (services : Services W) where
  abbrev pub over_users : Services W
  over_users = record services { users = stored_users t tools.to_lower users statements select_all }

  abbrev Refused : Step LoginBody ⊥ → W → Type 0
  Refused step w = (b : LoginBody) → step ≢ reply (success_with 200 "login successful" b)

  token-Ends :
      (now : Time) (user : User) (w : W)
      → user.metadata ≡ none
      → Ends Refused (generate_user_token tools over_users now user) w
  unfolding generate_user_token
  token-Ends now user w bare =
      Ends-settle _ _ (λ e f b h. cc)
        λ token signed. Ends-deref user.metadata (λ b h. cc) λ m held. absurd (cc)

  module _
      (stores_metadata : (u stored : User) (w w' : W)
        → statements.insert_returning u w ≡ (ok stored, w')
        → stored.metadata ≡ u.metadata)
      (driver_errors : (u : User) (e : Error) (w w' : W)
        → statements.insert_returning u w ≡ (err e, w')
        → is_user_exists e ≡ false) where
    get_or_create_user-Ends :
        (now : Time) (user : User) (w : W)
        → user.metadata ≡ none
        → Ends Refused (get_or_create_user tools over_users now user) w
    unfolding get_or_create_user created_or_exists create ◌>>=◌
    get_or_create_user-Ends now user w bare =
        let v = (statements.insert_returning user w).1 in
        elim (Result-cases (statements.insert_returning user w).0) [
          | inl (stored, f) ↦
              let kept = stores_metadata user stored w v (ap (λ x. (x, v)) f) ∙ bare in
              record { at = rw f (token-Ends now stored v kept).at }
          | inr (e, f) ↦
              let other_error = driver_errors user e w v (ap (λ x. (x, v)) f) in
              record { at = rw (f, other_error) (λ b h. cc) }
        ]

    login_with_google-Ends :
        (d : Draw) (req : LoginRequest) (w : W)
        → Ends Refused (login_with_google tools over_users d req) w
    unfolding login_with_google
    login_with_google-Ends d req w =
        Ends-settle _ _ (λ e f b h. cc)
          λ token exchanged.
            Ends-settle _ _ (λ e f b h. cc)
              λ account fetched.
                get_or_create_user-Ends d.now (google_account tools over_users account) w refl

    -- Over the store of users no login by Google is answered with a token: a new user has no metadata,
    -- and the error of the database for one that exists is not the one that the handler asks for.
    pub login_with_google-refused :
        (d : Draw) (req : LoginRequest) (w : W) (b : LoginBody)
        → (login_with_google tools over_users d req w).0
          ≢ reply (success_with 200 "login successful" b)
    login_with_google-refused d req w b = (login_with_google-Ends d req w).at b
