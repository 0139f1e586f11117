-- ===== src/Stores/ApiKeys/Revoked.antt =====
-- A key that was revoked at once: what the handler of server/api_key.go, the store, the job and the
-- middleware make of it together, over any later history of the keys.
use Prim.Native.String.{String}
use logtrace_backend.Common.{
  ◌≡◌, ◌≢◌, refl, ap, sym, subst, ◌∙◌, true, some, inl, inr, arith, ◌==◌, nat_eq, string_eq, ==_iff,
  Bool-cases, if◌then◌else◌,
}
use logtrace_backend.Domain.{Uuid, Time, ok, Result, ApiKey, immediate, parse_revocation_type}
use logtrace_backend.Http.{Request, Context, next, reply, success}
use logtrace_backend.Repositories.{ApiKeyOptions, ApiKeyRepository, OrganizationRepository}
use logtrace_backend.Middleware.{require_api_key_only}
use logtrace_backend.Middleware.KeyGate.{IsKeyed, require_api_key_only-IsKeyed}
use logtrace_backend.ApiKeys.{Tools, revoke}
use logtrace_backend.ApiKeys.Revocation.{IsRevocation, Outcome, revoke_authorised}
use logtrace_backend.Stores.ApiKeys.Rows.{KeyState, deleted, live, changed}
use logtrace_backend.Stores.ApiKeys.Lifecycle.{on_key, revoked_key}
use logtrace_backend.Stores.ApiKeys.KeyStore.{IsKeyStore}

module _ {W : Type 0} (repo : ApiKeyRepository W) (sweep : W → Result (Unit {0}) × W)
    (state : W → Uuid → KeyState) (clock midnight : W → Time) where
  -- What may happen to the keys: the operations of the program that succeed, and anything that
  -- changes no key.
  pub data KeyStep : W → W → Type 0 where
    creates : {w w' : W} (k : ApiKey) → repo.create k w ≡ (ok tt, w') → KeyStep w w'
    uses : {w w' : W} (id : Uuid) → repo.update_last_used_at id w ≡ (ok tt, w') → KeyStep w w'
    revokes :
        {w w' : W} (opts : ApiKeyOptions) (key : ApiKey)
        → opts.api_key ≡ some key
        → repo.revoke opts w ≡ (ok tt, w')
        → KeyStep w w'
    sweeps : {w w' : W} → sweep w ≡ (ok tt, w') → KeyStep w w'
    elsewhere : {w w' : W} → ((i : Uuid) → state w' i ≡ state w i) → KeyStep w w'

  pub data KeySteps (w : W) : W → Type 0 where
    done : KeySteps w w
    followed : {v u : W} → KeySteps w v → KeyStep v u → KeySteps w u

  module _ (store : IsKeyStore repo sweep state clock midnight) where
    KeyStep-deleted :
        (i : Uuid) {w w' : W} → KeyStep w w' → state w i ≡ deleted → state w' i ≡ deleted
    KeyStep-deleted i {w} {w'} (creates k h) gone =
        let (stored, same, fresh, states) = store.created k w w' h in
        elim (Bool-cases (stored.id == i)) [
          | inl e ↦
              let here : stored.id ≡ i = (==_iff stored.id i).0 e in
              cc (ap (state w) here, fresh, gone)
          | inr e ↦ ground (arith, states i, e)
        ]
    KeyStep-deleted i {w} {w'} (uses id h) gone =
        let (t, states) = store.used id w w' h in states i ∙ ap (changed _) gone
    KeyStep-deleted i {w} {w'} (revokes opts key e h) gone =
        store.revoked opts key w w' e h i ∙ ap (changed _) gone
    KeyStep-deleted i {w} {w'} (sweeps h) gone = store.swept w w' h i ∙ ap (changed _) gone
    KeyStep-deleted i (elsewhere h) gone = h i ∙ gone

    KeySteps-deleted :
        (i : Uuid) {w w' : W} → KeySteps w w' → state w i ≡ deleted → state w' i ≡ deleted
    KeySteps-deleted i done gone = gone
    KeySteps-deleted i (followed steps step) gone =
        KeyStep-deleted i step (KeySteps-deleted i steps gone)

    module _ (orgs : OrganizationRepository W) (tools : Tools) where
      unwrapped : {a b : String} → some a ≡ some b → a ≡ b
      unwrapped h = cc

      parsed_immediate : parse_revocation_type "immediate" ≡ some immediate
      unfolding parse_revocation_type
      parsed_immediate = refl

      -- The key that an answered revocation at once named.
      pub record IsRevokedAtOnce (now : Time) (ctx : Context) (r : Request) (w w' : W)
          : Type 0 where
        pub revocation :
            IsRevocation tools repo now ctx r
              (some "immediate")
              w
              (reply (success 200 "api key revoked"))
              w'
        pub gone : state w' revocation.key.id ≡ deleted

      IsRevocation-gone :
          (now : Time) (ctx : Context) (r : Request) (w w' : W)
          (revocation : IsRevocation tools repo now ctx r
            (some "immediate")
            w
            (reply (success 200 "api key revoked"))
            w')
          → state w' revocation.key.id ≡ deleted
      IsRevocation-gone now ctx r w w' revocation =
          let strategy : parse_revocation_type revocation.strategy ≡ some immediate =
            ap parse_revocation_type (sym (unwrapped revocation.asked)) ∙ parsed_immediate in
          let key = revocation.key in
          let own : (key.id == key.id) ≡ true = (==_iff key.id key.id).1 refl in
          let states = store.revoked _ key w w' refl (revocation.answered refl) key.id in
          let before = store.fetched _ key w revocation.fetched in
          states
          ∙ ap (λ o. changed (on_key key.id (revoked_key (midnight w) o)) (state w key.id)) strategy
          ∙ ap (changed (on_key key.id (revoked_key (midnight w) (some immediate)))) before
          ∙ ap (λ b. if b then deleted else live key) own

      revoke-IsRevokedAtOnce :
          (now : Time) (ctx : Context) (r : Request) (w w' : W)
          → revoke tools repo now ctx r (some "immediate") w
            ≡ (reply (success 200 "api key revoked"), w')
          → IsRevokedAtOnce now ctx r w w'
      revoke-IsRevokedAtOnce now ctx r w w' h =
          let outcome : Outcome tools repo now ctx r (some "immediate") w
              (reply (success 200 "api key revoked")) w' =
            subst (λ p. Outcome tools repo now ctx r (some "immediate") w p.0 p.1) h
              (revoke_authorised tools repo now ctx r (some "immediate") w) in
          elim outcome [
            | inl (same, other) ↦ absurd (other refl)
            | inr revocation ↦ record {
              revocation = revocation;
              gone = IsRevocation-gone now ctx r w w' revocation;
            }
          ]

      -- Once a revocation with the strategy immediate was answered with success, no request passes
      -- requireAPIKeyOnly by the key that was revoked, whatever happens to the keys in between:
      -- creations, uses and revocations that succeed, and runs of the job.
      pub IsRevokedAtOnce-stays_out :
          (now : Time) (ctx : Context) (r : Request) (w w₁ w₂ w₃ : W) (c c' : Context)
          (later : Request)
          → revoke tools repo now ctx r (some "immediate") w
            ≡ (reply (success 200 "api key revoked"), w₁)
          → KeySteps w₁ w₂
          → require_api_key_only repo orgs c later w₂ ≡ (next c', w₃)
          → (revoked : IsRevokedAtOnce now ctx r w w₁) × (keyed : IsKeyed repo orgs later w₂ w₃ c
              c')
            × (keyed.key.id ≢ revoked.revocation.key.id)
      IsRevokedAtOnce-stays_out now ctx r w w₁ w₂ w₃ c c' later answered steps passed =
          let revoked = revoke-IsRevokedAtOnce now ctx r w w₁ answered in
          let keyed = require_api_key_only-IsKeyed repo orgs c c' later w₂ w₃ passed in
          let gone = KeySteps-deleted revoked.revocation.key.id steps revoked.gone in
          let (alive, _) = store.found keyed.token keyed.key w₂ keyed.fetched in
          (revoked, keyed, λ same. cc (same, alive, gone))
