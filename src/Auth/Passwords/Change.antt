-- ===== src/Auth/Passwords/Change.antt =====
-- When the profile handler changes a password.
use logtrace_backend.Common.{
  ◌≡◌, refl, true, false, not, ◌&&◌, Option, some, String, ◌⊎◌, inl, inr, arith, ◌==◌, string_eq,
}
use logtrace_backend.Domain.{ok, User, Password}
use logtrace_backend.Http.{Context, Step}
use logtrace_backend.Http.Rules.{
  Ends, Ends-present, Ends-deref, Ends-if, Ends-ask, Ends-check, Ends-settle, Ends-act, Ends-run,
  Ends-respond,
}
use logtrace_backend.Middleware.{find_user_by_id}
use logtrace_backend.Auth.{Tools, Services, UpdateUserRequest, validate_update}
use logtrace_backend.Auth.Passwords.{
  edit_profile, change_password, update_details, with_details, password_of,
}

module _ (tools : Tools) {W : Type 0} (s : Services W) where
  -- The write of a new password, and what was checked before it.
  pub record IsChange (current : User) (req : UpdateUserRequest) (w v : W) : Type 0 where
    pub stored : Password
    pub hashed : String
    pub fetched : s.passwords.list current.id w ≡ ok stored
    pub known : tools.compare_password_and_hash req.current_password stored.user_password ≡ ok true
    pub hash : tools.hash_password req.password ≡ ok hashed
    pub written : v ≡ (s.passwords.update (password_of current.id hashed) w).1

  -- The write of the details, from the world `v`.
  pub record IsUpdate (current : User) (req : UpdateUserRequest) (v w' : W) : Type 0 where
    pub stored : User
    pub fetched : s.users.list (find_user_by_id current.id) v ≡ ok stored
    pub written : w' ≡ (s.users.update (with_details req stored) v).1

  -- A request in the name of the user in the context: at most a change of its password, then at
  -- most an update of its details.
  pub record IsEdit (ctx : Context) (bound : Option UpdateUserRequest) (w w' : W) : Type 0 where
    pub current : User
    pub req : UpdateUserRequest
    pub between : W
    pub by_user : ctx.user ≡ some (some current)
    pub bound_to : bound ≡ some req
    pub valid : validate_update tools req ≡ ok tt
    pub first : (between ≡ w) ⊎ ((req.password == "" ≡ false) × IsChange current req w between)
    pub second : (w' ≡ between) ⊎ IsUpdate current req between w'

  abbrev Outcome : Context → Option UpdateUserRequest → W → Step User ⊥ → W → Type 0
  Outcome ctx bound w step w' = (w' ≡ w) ⊎ IsEdit ctx bound w w'

  module _ (ctx : Context) (bound : Option UpdateUserRequest) (w : W) (current : User)
      (req : UpdateUserRequest) (by_user : ctx.user ≡ some (some current))
      (bound_to : bound ≡ some req) (valid : validate_update tools req ≡ ok tt) where
    edited :
        {v w' : W}
        → (v ≡ w) ⊎ ((req.password == "" ≡ false) × IsChange current req w v)
        → (w' ≡ v) ⊎ IsUpdate current req v w'
        → IsEdit ctx bound w w'
    edited first second = record {
      current = current;
      req = req;
      between = _;
      by_user = by_user;
      bound_to = bound_to;
      valid = valid;
      first = first;
      second = second;
    }

    update_details-Ends :
        (v : W)
        → (v ≡ w) ⊎ ((req.password == "" ≡ false) × IsChange current req w v)
        → Ends (Outcome ctx bound w) (update_details tools s current req) v
    unfolding update_details
    update_details-Ends v first =
        Ends-if (req.full_name == "" && req.phone == "") _ _
          (λ empty. Ends-respond _ (inr (edited first (inl refl))))
          (λ named.
            Ends-ask _ _ (λ e f. inr (edited first (inl refl)))
              λ stored fetched.
                let done : IsUpdate current req v (s.users.update (with_details req stored) v).1 =
                  record { stored = stored; fetched = fetched; written = refl } in
                Ends-act _ _ (λ e f. inr (edited first (inr done)))
                  (λ updated f. Ends-respond _ (inr (edited first (inr done)))))

    change_password-Ends :
        req.password == "" ≡ false
        → Ends (Outcome ctx bound w) (change_password tools s current req) w
    unfolding change_password
    change_password-Ends given =
        Ends-ask _ _ (λ e f. inl refl)
          λ stored fetched.
            Ends-settle _ _ (λ e f. inl refl)
              λ matches compared. Ends-check matches _ (inl refl) λ matched.
                Ends-settle _ _ (λ e f. inl refl)
                  λ hashed hash.
                    let first = inr (
                      given,
                      record {
                        stored = stored;
                        hashed = hashed;
                        fetched = fetched;
                        known = cc;
                        hash = hash;
                        written = refl;
                      },
                    ) in
                    Ends-run _ _ (λ e f. inr (edited first (inl refl)))
                      (λ f. update_details-Ends _ first)

  edit_profile-Ends :
      (ctx : Context) (bound : Option UpdateUserRequest) (w : W)
      → Ends (Outcome ctx bound w) (edit_profile tools s ctx bound) w
  unfolding edit_profile
  edit_profile-Ends ctx bound w = Ends-deref ctx.user (inl refl) λ pointer held.
      Ends-present bound _ (inl refl) λ req bound_to.
        Ends-settle _ _ (λ e f. inl refl)
          λ u valid.
            Ends-if (req.password == "" && (req.full_name == "" && req.phone == "")) _ _
              (λ empty. Ends-respond _ (inl refl))
              (λ asked. Ends-deref pointer (inl refl) λ current some_user.
                Ends-if (not (req.password == "")) _ _
                  (λ given.
                    change_password-Ends ctx bound w current req (cc) bound_to valid (ground arith))
                  (λ kept.
                    update_details-Ends ctx bound w current req (cc) bound_to valid w (inl refl)))

  -- Editing the profile writes in the name of the user in the context only, after the request passed
  -- its validation: first at most that user's password, and only where the current password in the
  -- request was compared with the stored hash and matched, then at most that user's details.
  -- Otherwise the world is as it was.
  pub edit_profile_authorised :
      (ctx : Context) (bound : Option UpdateUserRequest) (w : W)
      → ((edit_profile tools s ctx bound w).1 ≡ w)
        ⊎ IsEdit ctx bound w (edit_profile tools s ctx bound w).1
  edit_profile_authorised ctx bound w = (edit_profile-Ends ctx bound w).at
