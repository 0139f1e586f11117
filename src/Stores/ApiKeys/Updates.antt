-- ===== src/Stores/ApiKeys/Updates.antt =====
-- What the updates of the store and of the job do to the state of each key.
use logtrace_backend.Common.{
  ◌≡◌, ap, ◌∙◌, refl, Bool, true, false, ◌&&◌, not, Option, none, some, List, [], ◌∷◌, arith, ◌==◌,
  nat_eq, string_eq, Bool-cases, inl, inr, if◌then◌else◌,
}
use logtrace_backend.Domain.{Uuid, Time, ok, ApiKey, RevocationType, immediate, day, week}
use logtrace_backend.Sql.{instant, Predicate, Condition, where_, Table}
use logtrace_backend.Sql.Laws.{matches}
use logtrace_backend.Stores.ApiKeys.{RunInTx, where_uuid, revocation, revoke, update_last_used_at}
use logtrace_backend.Stores.ApiKeys.Rows.{
  Stored, KeyState, live, visible, state_of, changed, state_of-map,
}
use logtrace_backend.Cron.Revocation.{delete_expired_keys}
use logtrace_backend.Stores.ApiKeys.Lifecycle.{
  IsKeyTable, clause, assigned, expiry, is_past, with_expiry, with_use, revoked_key, on_key,
  unexpired,
}

module _ {W : Type 0} (keys : Table ApiKey W) (rows : W → List Stored) (clock midnight : W → Time)
    (holds : W → Predicate → Stored → Bool) (set : W → Predicate → Stored → Stored)
    (table : IsKeyTable keys rows clock midnight holds set) (run_in_tx : RunInTx W) where
  -- An update of some of the rows.
  updated_keys :
      (assignments : List Predicate) (cs : List Condition) (g : ApiKey → KeyState) (w w' : W)
      → ((r : Stored) → (assigned (set w) assignments r).key.id ≡ r.key.id)
      → ((r : Stored)
          → r.deleted ≡ false
          → (if matches (holds w) cs r
              then visible (assigned (set w) assignments r)
              else live r.key)
            ≡ g r.key)
      → keys.update assignments cs w ≡ (ok tt, w')
      → (i : Uuid) → state_of i (rows w') ≡ changed g (state_of i (rows w))
  updated_keys assignments cs g w w' keeps changes h i =
      ap (state_of i) (table.updates assignments cs w w' h)
      ∙ state_of-map
          (λ r.
            if not r.deleted && matches (holds w) cs r then assigned (set w) assignments r else r)
          g i (rows w) (λ r. ground (arith, keeps r))
          (λ r. elim (Bool-cases r.deleted) [
            | inl e ↦ ground arith
            | inr e ↦ ground (arith, changes r e)
          ])

  revoked_row : Time → Option RevocationType → Stored → Stored
  revoked_row today none r = r
  revoked_row today (some immediate) r = record (with_expiry (expiry today 1) r) { deleted = true }
  revoked_row today (some day) r = with_expiry (expiry today 2) r
  revoked_row today (some week) r = with_expiry (expiry today 8) r

  assigned-revocation :
      (now : Time) (strategy : Option RevocationType) (w : W) (r : Stored)
      → assigned (set w) (clause "updated_at = ?" (instant now ∷ []) ∷ revocation strategy) r
        ≡ revoked_row (midnight w) strategy r
  unfolding revocation revoked_row
  assigned-revocation now none w r = table.stamps now w r
  assigned-revocation now (some immediate) w r =
      rw (table.stamps now w r, table.expires_today w r) (table.deletes w _)
  assigned-revocation now (some day) w r = rw (table.stamps now w r) (table.expires_tomorrow w r)
  assigned-revocation now (some week) w r = rw (table.stamps now w r) (table.expires_next_week w r)

  revoked_row-id :
      (today : Time) (strategy : Option RevocationType) (r : Stored)
      → (revoked_row today strategy r).key.id ≡ r.key.id
  unfolding revoked_row
  revoked_row-id today none r = refl
  revoked_row-id today (some immediate) r = refl
  revoked_row-id today (some day) r = refl
  revoked_row-id today (some week) r = refl

  visible-revoked_row :
      (today : Time) (strategy : Option RevocationType) (r : Stored)
      → r.deleted ≡ false
      → visible (revoked_row today strategy r) ≡ revoked_key today strategy r.key
  unfolding revoked_row
  visible-revoked_row today none r kept = ground arith
  visible-revoked_row today (some immediate) r kept = refl
  visible-revoked_row today (some day) r kept = ground arith
  visible-revoked_row today (some week) r kept = ground arith

  matches_id :
      (i : Uuid) (w : W) (r : Stored)
      → matches (holds w) (where_uuid "id = ?" i) r ≡ (r.key.id == i)
  unfolding matches
  matches_id i w r = rw (table.by_id i w r) (ground arith)

  -- An update of the row of one key.
  updated_key :
      (id : Uuid) (assignments : List Predicate) (f : Stored → Stored) (g : ApiKey → KeyState)
      (w w' : W)
      → ((r : Stored) → assigned (set w) assignments r ≡ f r)
      → ((r : Stored) → (f r).key.id ≡ r.key.id)
      → ((r : Stored) → r.deleted ≡ false → visible (f r) ≡ g r.key)
      → keys.update assignments (where_uuid "id = ?" id) w ≡ (ok tt, w')
      → (i : Uuid) → state_of i (rows w') ≡ changed (on_key id g) (state_of i (rows w))
  updated_key id assignments f g w w' computes keeps changes h i =
      updated_keys assignments (where_uuid "id = ?" id) (on_key id g) w w'
        (λ r. ap (λ x. x.key.id) (computes r) ∙ keeps r)
        (λ r kept. elim (Bool-cases (r.key.id == id)) [
          | inl e ↦ ground (arith, matches_id id w r, ap visible (computes r), changes r kept, e)
          | inr e ↦ ground (arith, matches_id id w r, e)
        ])
        h i

  pub revoke_changes :
      (now : Time) (key : ApiKey) (strategy : Option RevocationType) (w w' : W)
      → revoke keys run_in_tx now key strategy w ≡ (ok tt, w')
      → (i : Uuid)
      → state_of i (rows w')
        ≡ changed (on_key key.id (revoked_key (midnight w) strategy)) (state_of i (rows w))
  unfolding revoke
  revoke_changes now key strategy w w' h =
      updated_key key.id _ (revoked_row (midnight w) strategy) (revoked_key (midnight w) strategy) w
        w' (assigned-revocation now strategy w) (revoked_row-id (midnight w) strategy)
        (visible-revoked_row (midnight w) strategy) h

  pub use_changes :
      (now : Time) (id : Uuid) (w w' : W)
      → update_last_used_at keys run_in_tx now id w ≡ (ok tt, w')
      → (i : Uuid)
      → state_of i (rows w')
        ≡ changed (on_key id (λ k. live (with_use now k))) (state_of i (rows w))
  unfolding update_last_used_at
  use_changes now id w w' h =
      updated_key id _ (λ r. record r { key = with_use now r.key }) (λ k. live (with_use now k)) w
        w' (table.uses now w) (λ r. refl) (λ r kept. ground arith) h

  expiry_matches :
      (w : W) (r : Stored)
      → r.deleted ≡ false
      → matches
          (holds w)
          (where_ (clause "expires_at < NOW()" []) ∷ where_ (clause "deleted_at IS NULL" []) ∷ [])
          r
        ≡ is_past (clock w) r.key.expires_at
  unfolding matches
  expiry_matches w r kept = ground (arith, table.by_expiry w r, table.by_deletion w r, kept)

  pub sweep_changes :
      (w w' : W)
      → delete_expired_keys keys w ≡ (ok tt, w')
      → (i : Uuid) → state_of i (rows w') ≡ changed (unexpired (clock w)) (state_of i (rows w))
  unfolding delete_expired_keys
  sweep_changes w w' h =
      updated_keys _ _ (unexpired (clock w)) w w' (λ r. ap (λ x. x.key.id) (table.deletes w r))
        (λ r kept. elim (Bool-cases (is_past (clock w) r.key.expires_at)) [
          | inl e ↦ ground (arith, expiry_matches w r kept, ap visible (table.deletes w r), e)
          | inr e ↦ ground (arith, expiry_matches w r kept, e)
        ])
        h
