-- ===== src/Seed/Run/Stored.antt =====
-- What a run of the seed has stored when it ends.
use mathlib.Core.List.{append_assoc, append-nil}
use Prim.Native.String.{String}
use logtrace_backend.Common.{
  ℕ, suc, ◌≡◌, refl, ap, sym, ◌∙◌, List, [], ◌∷◌, ◌++◌, map, take, ◌⊎◌, inl, inr,
}
use logtrace_backend.Domain.{Uuid, Time, Error, Result, ok, err, IsErr, Result-cases}
use logtrace_backend.Trail.{Event, Session, AuditLog}
use logtrace_backend.Seed.Events.{event_seed_data}
use logtrace_backend.Seed.Sessions.{session_seed_data}
use logtrace_backend.Seed.AuditLogs.{audit_log_seed_data}
use logtrace_backend.Seed.Run.{
  in_organization, session_in, audit_log_in, seed_each, Repositories, seed_events, seed_sessions,
  seed_audit_logs, seed_all, parse_org_id, run,
}

module _ {A W : Type 0} (create : A → W → Result (Unit {0}) × W) (rows : W → List A) where
  -- A creation puts the record behind the others, or fails and leaves them.
  pub record Appends : Type 0 where
    pub stored : (x : A) (w : W) → (create x w).0 ≡ ok tt → rows (create x w).1 ≡ rows w ++ (x ∷ [])
    pub unstored :
        (x : A) (e : Error) (w : W) → (create x w).0 ≡ err e → rows (create x w).1 ≡ rows w

  -- The rows gained some first of the records, and all of them where there was no error.
  abbrev pub IsGained : List A → W → Result (Unit {0}) × W → Type 0
  IsGained xs w (r, v) =
      ((n : ℕ) × (rows v ≡ rows w ++ take n xs)) × (IsErr r ⊎ (rows v ≡ rows w ++ xs))

  seed_each-IsGained :
      (label : A → String) (xs : List A) (w : W)
      → Appends
      → IsGained xs w (seed_each create label xs w)
  unfolding seed_each
  seed_each-IsGained label [] w law = ((0, sym (append-nil _)), inr (sym (append-nil _)))
  seed_each-IsGained label (x ∷ xs) w law =
      let v = (create x w).1 in
      let ((n, some_of), how) = seed_each-IsGained label xs v law in
      elim (Result-cases (create x w).0) [
        | inr (e, f) ↦ rw (seed_each, f) ((0, law.unstored x e w f ∙ sym (append-nil _)), inl tt)
        | inl (u, f) ↦
            let first = law.stored x w f in
            rw (seed_each, f)
              (
                (suc n, some_of ∙ ap (λ o. o ++ take n xs) first ∙ append_assoc (rows w) _ _),
                elim how [
                  | inl failed ↦ inl failed
                  | inr all ↦ inr (all ∙ ap (λ o. o ++ xs) first ∙ append_assoc (rows w) _ _)
                ],
              )
      ]

  seed_each-keeps :
      {B : Type 0} (other : W → B) (label : A → String) (xs : List A) (w : W)
      → ((x : A) (v : W) → other (create x v).1 ≡ other v)
      → other (seed_each create label xs w).1 ≡ other w
  unfolding seed_each
  seed_each-keeps other label [] w kept = refl
  seed_each-keeps other label (x ∷ xs) w kept = elim (Result-cases (create x w).0) [
    | inr (e, f) ↦ rw (seed_each, f) (kept x w)
    | inl (u, f) ↦ rw (seed_each, f) (seed_each-keeps other label xs (create x w).1 kept ∙ kept x w)
  ]

-- The rows gained some first of the records.
abbrev pub Gains : {A W : Type 0} → (W → List A) → List A → W → W → Type 0
Gains rows xs w v = (n : ℕ) × (rows v ≡ rows w ++ take n xs)

untouched :
    {A W : Type 0} (rows : W → List A) (xs : List A) (w v : W) → rows v ≡ rows w → Gains rows xs w v
untouched rows xs w v same = (0, same ∙ sym (append-nil _))

moved :
    {A W : Type 0} (rows : W → List A) (xs : List A) (w v v' : W)
    → rows v' ≡ rows v
    → Gains rows xs w v
    → Gains rows xs w v'
moved rows xs w v v' same (n, gained) = (n, same ∙ gained)

based :
    {A W : Type 0} (rows : W → List A) (xs : List A) (w v v' : W)
    → rows v ≡ rows w
    → Gains rows xs v v'
    → Gains rows xs w v'
based rows xs w v v' same (n, gained) = (n, gained ∙ ap (λ o. o ++ take n xs) same)

-- The three tables, apart from one another.
pub record IsApart {W : Type 0} (repos : Repositories W) (events : W → List Event)
    (sessions : W → List Session) (audits : W → List AuditLog) : Type 0 where
  pub events_append : Appends repos.create_event events
  pub sessions_append : Appends repos.create_session sessions
  pub audits_append : Appends repos.create_audit_log audits
  pub event_sessions : (x : Event) (w : W) → sessions (repos.create_event x w).1 ≡ sessions w
  pub event_audits : (x : Event) (w : W) → audits (repos.create_event x w).1 ≡ audits w
  pub session_events : (x : Session) (w : W) → events (repos.create_session x w).1 ≡ events w
  pub session_audits : (x : Session) (w : W) → audits (repos.create_session x w).1 ≡ audits w
  pub audit_events : (x : AuditLog) (w : W) → events (repos.create_audit_log x w).1 ≡ events w
  pub audit_sessions : (x : AuditLog) (w : W) → sessions (repos.create_audit_log x w).1 ≡ sessions w

module _ {W : Type 0} (parse_uuid : String → Result Uuid) (quoted : String → String)
    (repos : Repositories W) (events : W → List Event) (sessions : W → List Session)
    (audits : W → List AuditLog) (apart : IsApart repos events sessions audits) where
  abbrev the_events : Time → Uuid → List Event
  the_events now org = map (in_organization org) (event_seed_data now)

  abbrev the_sessions : Time → Uuid → List Session
  the_sessions now org = map (session_in org) (session_seed_data now)

  abbrev the_audit_logs : Time → Uuid → List AuditLog
  the_audit_logs now org = map (audit_log_in org) (audit_log_seed_data now)

  -- Each table gained some first of the sample data of its kind in the organization, and all of it
  -- where there was no error.
  abbrev pub IsSeeded : Time → Uuid → W → Result (Unit {0}) × W → Type 0
  IsSeeded now org w (r, v) =
      Gains events (the_events now org) w v
      × Gains sessions (the_sessions now org) w v
      × Gains audits (the_audit_logs now org) w v
      × (IsErr r
          ⊎ ((events v ≡ events w ++ the_events now org)
              × (sessions v ≡ sessions w ++ the_sessions now org)
              × (audits v ≡ audits w ++ the_audit_logs now org)))

  only_ok : {A : Type 0} (r : Result (Unit {0})) (u : Unit {0}) → r ≡ ok u → IsErr r ⊎ A → A
  only_ok r u h (inl failed) = absurd (rw h at failed)
  only_ok r u h (inr a) = a

  seed_events-IsGained :
      (now : Time) (org : Uuid) (w : W)
      → IsGained repos.create_event events
          (the_events now org)
          w
          (seed_events parse_uuid quoted repos now org w)
        × (sessions (seed_events parse_uuid quoted repos now org w).1 ≡ sessions w)
        × (audits (seed_events parse_uuid quoted repos now org w).1 ≡ audits w)
  seed_events-IsGained now org w = (
    seed_each-IsGained repos.create_event events _ (the_events now org) w apart.events_append,
    seed_each-keeps repos.create_event events sessions _ (the_events now org) w
        apart.event_sessions,
    seed_each-keeps repos.create_event events audits _ (the_events now org) w apart.event_audits,
  )

  seed_sessions-IsGained :
      (now : Time) (org : Uuid) (w : W)
      → IsGained repos.create_session sessions
          (the_sessions now org)
          w
          (seed_sessions parse_uuid quoted repos now org w)
        × (events (seed_sessions parse_uuid quoted repos now org w).1 ≡ events w)
        × (audits (seed_sessions parse_uuid quoted repos now org w).1 ≡ audits w)
  seed_sessions-IsGained now org w = (
    seed_each-IsGained repos.create_session sessions _ (the_sessions now org) w
        apart.sessions_append,
    seed_each-keeps repos.create_session sessions events _ (the_sessions now org) w
        apart.session_events,
    seed_each-keeps repos.create_session sessions audits _ (the_sessions now org) w
        apart.session_audits,
  )

  seed_audit_logs-IsGained :
      (now : Time) (org : Uuid) (w : W)
      → IsGained repos.create_audit_log audits
          (the_audit_logs now org)
          w
          (seed_audit_logs parse_uuid quoted repos now org w)
        × (events (seed_audit_logs parse_uuid quoted repos now org w).1 ≡ events w)
        × (sessions (seed_audit_logs parse_uuid quoted repos now org w).1 ≡ sessions w)
  seed_audit_logs-IsGained now org w = (
    seed_each-IsGained repos.create_audit_log audits _ (the_audit_logs now org) w
        apart.audits_append,
    seed_each-keeps repos.create_audit_log audits events _ (the_audit_logs now org) w
        apart.audit_events,
    seed_each-keeps repos.create_audit_log audits sessions _ (the_audit_logs now org) w
        apart.audit_sessions,
  )

  seed_all-IsSeeded :
      (now : Time) (org : Uuid) (w : W)
      → IsSeeded now org w (seed_all parse_uuid quoted repos now org w)
  seed_all-IsSeeded now org w =
      let x1 = seed_events parse_uuid quoted repos now org w in
      let x2 = seed_sessions parse_uuid quoted repos now org x1.1 in
      let x3 = seed_audit_logs parse_uuid quoted repos now org x2.1 in
      let ((some_events, how1), sessions1, audits1) = seed_events-IsGained now org w in
      let ((some_sessions, how2), events2, audits2) = seed_sessions-IsGained now org x1.1 in
      let ((some_audits, how3), events3, sessions3) = seed_audit_logs-IsGained now org x2.1 in
      elim (Result-cases x1.0) [
        | inr (e, f) ↦ rw f (
          some_events,
          untouched sessions _ w x1.1 sessions1,
          untouched audits _ w x1.1 audits1,
          inl tt,
        )
        | inl (u1, f) ↦
            let all_events = only_ok _ u1 f how1 in
            elim (Result-cases x2.0) [
              | inr (e, g) ↦
                  rw (f, g)
                    (
                      moved events _ w x1.1 x2.1 events2 some_events,
                      based sessions _ w x1.1 x2.1 sessions1 some_sessions,
                      untouched audits _ w x2.1 (audits2 ∙ audits1),
                      inl tt,
                    )
              | inl (u2, g) ↦
                  let all_sessions = only_ok _ u2 g how2 in
                  rw (f, g)
                    (
                      moved events _ w x1.1 x3.1 (events3 ∙ events2) some_events,
                      moved sessions _ w x2.1 x3.1 sessions3
                          (based sessions _ w x1.1 x2.1 sessions1 some_sessions),
                      based audits _ w x2.1 x3.1 (audits2 ∙ audits1) some_audits,
                      elim how3 [
                        | inl failed ↦ inl failed
                        | inr all_audits ↦ inr (
                          events3 ∙ events2 ∙ all_events,
                          sessions3 ∙ all_sessions ∙ ap (λ o. o ++ the_sessions now org) sessions1,
                          all_audits ∙ ap (λ o. o ++ the_audit_logs now org) (audits2 ∙ audits1),
                        )
                      ],
                    )
            ]
      ]

  -- A run of the seed for the text of an organization ends with some first of the sample data stored
  -- in the organization, kind by kind, and with all of it where there was no error.
  pub run-IsSeeded :
      (now : Time) (text : String) (org : Uuid) (w : W)
      → parse_uuid text ≡ ok org
      → IsSeeded now org w (run parse_uuid quoted repos now text w)
  unfolding run parse_org_id
  run-IsSeeded now text org w parsed = rw (run, parsed) (seed_all-IsSeeded now org w)
