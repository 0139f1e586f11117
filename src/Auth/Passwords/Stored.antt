-- ===== src/Auth/Passwords/Stored.antt =====
-- The reset of a password over a store that is a map from users to hashes.
use Prim.Native.String.{String}
use mathlib.Core.Option
use logtrace_backend.Common.{
  ◌≡◌, sym, ap, subst, Option, some, inl, inr, ◌==◌, nat_eq, if◌then◌else◌,
}
use logtrace_backend.Domain.{Uuid, Time, ok}
use logtrace_backend.Http.{reply, success}
use logtrace_backend.Repositories.{JwTokenData}
use logtrace_backend.Stores.Passwords.Map.{IsPasswordMap}
use logtrace_backend.Auth.{Tools, Services, ResetPasswordRequest}
use logtrace_backend.Auth.Passwords.{confirm_reset, password_of}
use logtrace_backend.Auth.Passwords.Reset.{confirm_reset_authorised}

module _ (tools : Tools) {W : Type 0} (s : Services W) (IsProper : W → Type 0)
    (hash_of : W → Uuid → Option String) (store : IsPasswordMap s.passwords IsProper hash_of) where
  -- The user that the token names has the hash of the new password if there was one before, and all
  -- others have the hashes that they had.
  pub record IsReplaced (now : Time) (bound : Option ResetPasswordRequest) (w w' : W) : Type 0 where
    pub req : ResetPasswordRequest
    pub token : JwTokenData
    pub hashed : String
    pub bound_to : bound ≡ some req
    pub signed : s.tokens.parse_password_reset_token now req.token ≡ ok token
    pub hash : tools.hash_password req.password ≡ ok hashed
    pub proper : IsProper w'
    pub hashes :
        (u : Uuid)
        → hash_of w' u
          ≡ (if token.user_id == u then Option.map (λ h. hashed) (hash_of w u) else hash_of w u)

  -- A reset that is answered with success replaces the hash of the user that the token names, if there
  -- is one, by that of the new password, and changes no other.
  pub confirm_reset-IsReplaced :
      (now : Time) (bound : Option ResetPasswordRequest) (w : W)
      → IsProper w
      → (confirm_reset tools s now bound w).0 ≡ reply (success 200 "password reset successfully")
      → IsReplaced now bound w (confirm_reset tools s now bound w).1
  confirm_reset-IsReplaced now bound w proper h =
      elim (confirm_reset_authorised tools s now bound w) [
        | inl (same, refused) ↦ absurd (refused h)
        | inr r ↦ elim r.told [
          | inr failed ↦ absurd (cc)
          | inl (stored, told) ↦
              let p = password_of r.token.user_id r.hashed in
              let (kept, hashes) =
                store.updated p w _ proper (ap (λ x. (x, (s.passwords.update p w).1)) stored) in
              subst (λ v. IsReplaced now bound w v) (sym r.written)
                (record {
                  req = r.req;
                  token = r.token;
                  hashed = r.hashed;
                  bound_to = r.bound_to;
                  signed = r.signed;
                  hash = r.hash;
                  proper = kept;
                  hashes = hashes;
                })
        ]
      ]
