-- ===== src/Stores/Sessions/Logout.antt =====
-- What a logout changes.
use Prim.Native.String.{String}
use logtrace_backend.Common.{
  ◌≡◌, ◌≢◌, refl, sym, ap, ◌∙◌, Bool, true, false, List, [], ◌∷◌, map, All, ◌==◌, nat_eq, ==_iff,
  if◌then◌else◌, Bool-cases, inl, inr,
}
use logtrace_backend.GoText.{is_string_empty}
use logtrace_backend.Domain.{Uuid, nil_uuid, Time, ok}
use logtrace_backend.Sql.{Predicate, text, where_given, Table, Texts}
use logtrace_backend.Sql.Laws.{IsTable, matches, matches-head, matches-append}
use logtrace_backend.Trail.{Session, FindSessionOptions}
use logtrace_backend.Stores.Sessions.{logout_conditions, logout}

map-unchanged :
    {A : Type 0} (f : A → Bool) (g : A → A) (xs : List A)
    → All (λ x. f x ≡ false) xs
    → map (λ x. if f x then g x else x) xs ≡ xs
map-unchanged f g [] h = refl
map-unchanged f g (x ∷ xs) (e, h) = rw e (ap (λ ys. x ∷ ys) (map-unchanged f g xs h))

All-map :
    {A : Type 0} {P Q : A → Type 0} (f : (x : A) → P x → Q x) (xs : List A) → All P xs → All Q xs
All-map f [] h = tt
All-map f (x ∷ xs) (p, ps) = (f x p, All-map f xs ps)

module _ (t : Texts) {W : Type 0} (sessions : Table Session W) (rows : W → List Session)
    (sorted : String → List Session → List Session) (set : List Predicate → Session → Session)
    (table : IsTable sessions rows sorted set)
    (by_id : (id : Uuid) (s : Session)
      → sessions.holds (record { clause = "id = ?"; args = text (t.uuid_text id) ∷ [] }) s
        ≡ (s.id == id))
    (uuid_given : (id : Uuid) → is_string_empty (t.uuid_text id) ≡ false) where
  logout_conditions-id :
      (opts : FindSessionOptions) (s : Session)
      → matches sessions.holds (logout_conditions t sessions opts) s ≡ true
      → s.id ≡ opts.id
  unfolding logout_conditions where_given
  logout_conditions-id opts s h =
      let (first, rest) = matches-head sessions.holds _ _ s h in
      let (tokens, ids) =
        matches-append sessions.holds (where_given "token = ?" opts.token)
          (where_given "id = ?" (t.uuid_text opts.id)) s rest in
      let (here_id, more) = matches-head sessions.holds _ _ s (rw (uuid_given opts.id) at ids) in
      (==_iff _ _).0 (sym (by_id opts.id s) ∙ here_id)

  -- The logout that the handler asks for names a token and no session: its options have the nil
  -- identifier. As long as no session has it, a logout that reports no error changes no session.
  pub sessions-logout_nothing :
      (now : Time) (opts : FindSessionOptions) (w w' : W)
      → opts.id ≡ nil_uuid
      → All (λ s. s.id ≢ nil_uuid) (rows w)
      → logout t sessions now opts w ≡ (ok tt, w')
      → rows w' ≡ rows w
  unfolding logout
  sessions-logout_nothing now opts w w' bare proper done =
      let hits = matches sessions.holds (logout_conditions t sessions opts) in
      let missed : All (λ s. hits s ≡ false) (rows w) =
        All-map
          (λ s s_proper. elim (Bool-cases (hits s)) [
            | inl hit ↦ absurd (s_proper (logout_conditions-id opts s hit ∙ bare))
            | inr miss ↦ miss
          ])
          (rows w) proper in
      table.updates _ _ w w' done ∙ map-unchanged hits _ (rows w) missed
