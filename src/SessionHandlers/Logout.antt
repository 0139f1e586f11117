-- ===== src/SessionHandlers/Logout.antt =====
-- The logout handler over the store of sessions.
use Prim.Native.String.{String}
use logtrace_backend.Common.{
  ◌≡◌, ◌≢◌, refl, ap, false, Option, List, [], ◌∷◌, All, ◌⊎◌, inl, inr, ◌==◌, nat_eq,
}
use logtrace_backend.GoText.{is_string_empty}
use logtrace_backend.Domain.{Uuid, nil_uuid, Time}
use logtrace_backend.Http.{Context, NoBody, Step, reply, success}
use logtrace_backend.Http.Rules.{Ends, Ends-present, Ends-deref, Ends-check, Ends-run, Ends-respond}
use logtrace_backend.Sql.{Predicate, text, Table, Texts}
use logtrace_backend.Sql.Laws.{IsTable}
use logtrace_backend.Trail.{Session}
use logtrace_backend.Stores.Sessions.{list, list_all, logout, metrics}
use logtrace_backend.Stores.Sessions.Logout.{sessions-logout_nothing}
use logtrace_backend.SessionHandlers.{
  SessionRepository, Tools, SessionServices, logout_options, logout_session,
}

-- `NewSessionRepository`, the repository that the handlers are given, at a time.
abbrev pub stored_sessions : {W : Type 0} → Texts → Table Session W → Time → SessionRepository W
stored_sessions t sessions now = record {
  list = list t sessions;
  list_all = list_all t sessions;
  logout = logout t sessions now;
  metrics = metrics t sessions now;
}

module _ (t : Texts) {W : Type 0} (sessions : Table Session W) (rows : W → List Session)
    (sorted : String → List Session → List Session) (set : List Predicate → Session → Session)
    (table : IsTable sessions rows sorted set)
    (by_id : (id : Uuid) (s : Session)
      → sessions.holds (record { clause = "id = ?"; args = text (t.uuid_text id) ∷ [] }) s
        ≡ (s.id == id))
    (uuid_given : (id : Uuid) → is_string_empty (t.uuid_text id) ≡ false) (tools : Tools W)
    (services : SessionServices W) where
  abbrev over_store : Time → SessionServices W
  over_store now = record services { sessions = stored_sessions t sessions now }

  abbrev Outcome : W → Step NoBody ⊥ → W → Type 0
  Outcome w step w' =
      (step ≢ reply (success 200 "Session logout registered successfully")) ⊎ (rows w' ≡ rows w)

  logout_session-Ends :
      (now : Time) (ctx : Context) (bound : Option String) (w : W)
      → All (λ s. s.id ≢ nil_uuid) (rows w)
      → Ends (Outcome w) (logout_session tools (over_store now) ctx bound) w
  unfolding logout_session
  logout_session-Ends now ctx bound w proper =
      Ends-present bound _ (inl (λ h. cc)) λ token bound_to. Ends-check _ _ (inl (λ h. cc)) λ given.
        Ends-deref ctx.organization (inl (λ h. cc)) λ pointer held.
          Ends-deref pointer (inl (λ h. cc)) λ org some_org.
            let call = logout t sessions now (logout_options org.id token) in
            Ends-run _ _ (λ e f. inl (λ h. cc))
              (λ f. Ends-respond _ (
                inr (
                  sessions-logout_nothing t sessions rows sorted set table by_id uuid_given now
                    (logout_options org.id token) w _ refl proper (ap (λ x. (x, (call w).1)) f))))

  -- As long as no session has the nil identifier, a logout that is answered with success leaves all
  -- sessions as they were: none is logged out.
  pub logout_session-nothing :
      (now : Time) (ctx : Context) (bound : Option String) (w : W)
      → All (λ s. s.id ≢ nil_uuid) (rows w)
      → (logout_session tools (over_store now) ctx bound w).0
        ≡ reply (success 200 "Session logout registered successfully")
      → rows (logout_session tools (over_store now) ctx bound w).1 ≡ rows w
  logout_session-nothing now ctx bound w proper h =
      elim (logout_session-Ends now ctx bound w proper).at [
        | inl refused ↦ absurd (refused h)
        | inr same ↦ same
      ]
