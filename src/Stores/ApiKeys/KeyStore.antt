-- ===== src/Stores/ApiKeys/KeyStore.antt =====
-- What the store of API keys promises to the handlers, the middleware and the job.
use Prim.Native.String.{String}
use logtrace_backend.Common.{
  ◌≡◌, ap, sym, subst, ◌∙◌, Bool, true, false, Option, none, some, List, [], ◌∷◌, arith, ◌==◌,
  nat_eq, string_eq, ==_iff, Bool-cases, inl, inr, if◌then◌else◌,
}
use logtrace_backend.Domain.{
  Uuid, Time, ok, Result, Result-cases, is_no_rows, api_key_not_found, ApiKey,
}
use logtrace_backend.Sql.{text, Predicate, Condition, Table, not_found_as}
use logtrace_backend.Sql.Laws.{matches}
use logtrace_backend.Stores.ApiKeys.{
  RunInTx, create_body, create, fetch, fetch_by_name, where_uuid, fetch_by_value, revoke,
  update_last_used_at,
}
use logtrace_backend.Stores.ApiKeys.Limit.{IsTransaction}
use logtrace_backend.Stores.ApiKeys.Rows.{Stored, KeyState, absent, live, state_of, changed}
use logtrace_backend.Cron.Revocation.{delete_expired_keys}
use logtrace_backend.Stores.ApiKeys.Lifecycle.{
  IsKeyTable, clause, with_use, revoked_key, on_key, unexpired,
}
use logtrace_backend.Stores.ApiKeys.Updates.{revoke_changes, use_changes, sweep_changes}
use logtrace_backend.Repositories.{ApiKeyOptions, ApiKeyRepository}

-- The store as a map from identifiers to the state of a key, with the job that sweeps it.
pub record IsKeyStore {W : Type 0} (repo : ApiKeyRepository W) (sweep : W → Result (Unit {0}) × W)
    (state : W → Uuid → KeyState) (clock midnight : W → Time) : Type 0 where
  pub fetched :
      (opts : ApiKeyOptions) (k : ApiKey) (w : W) → repo.fetch opts w ≡ ok k → state w k.id ≡ live k
  pub found :
      (v : String) (k : ApiKey) (w : W)
      → repo.fetch_by_value v w ≡ ok k
      → (state w k.id ≡ live k) × (k.value ≡ v)
  pub created :
      (k : ApiKey) (w w' : W)
      → repo.create k w ≡ (ok tt, w')
      → (stored : ApiKey) × (stored.value ≡ k.value)
        × (state w stored.id ≡ absent)
        × ((i : Uuid) → state w' i ≡ (if stored.id == i then live stored else state w i))
  pub used :
      (id : Uuid) (w w' : W)
      → repo.update_last_used_at id w ≡ (ok tt, w')
      → (t : Time) × ((i : Uuid)
          → state w' i ≡ changed (on_key id (λ k. live (with_use t k))) (state w i))
  pub revoked :
      (opts : ApiKeyOptions) (key : ApiKey) (w w' : W)
      → opts.api_key ≡ some key
      → repo.revoke opts w ≡ (ok tt, w')
      → (i : Uuid)
      → state w' i
        ≡ changed (on_key key.id (revoked_key (midnight w) opts.revocation_type)) (state w i)
  pub swept :
      (w w' : W)
      → sweep w ≡ (ok tt, w')
      → (i : Uuid) → state w' i ≡ changed (unexpired (clock w)) (state w i)

module _ {W : Type 0} (keys : Table ApiKey W) (rows : W → List Stored) (clock midnight : W → Time)
    (holds : W → Predicate → Stored → Bool) (set : W → Predicate → Stored → Stored)
    (table : IsKeyTable keys rows clock midnight holds set) (run_in_tx : RunInTx W)
    (tx : IsTransaction run_in_tx) where
  inserted_world :
      (k : ApiKey) (w w' : W)
      → create_body keys run_in_tx k w ≡ (ok tt, w')
      → keys.insert k w ≡ (ok tt, w')
  unfolding create_body
  inserted_world k w w' h =
      let v = (keys.insert k w).1 in
      elim (Result-cases (keys.insert k w).0) [
        | inr (e, f) ↦ absurd (ground arith)
        | inl (u, f) ↦
            elim (Result-cases
              (keys.count (where_uuid "organization_id = ?" k.organization_id) v)) [
                | inr (e, g) ↦ absurd (ground arith)
                | inl (n, g) ↦ ground arith
              ]
      ]

  create_adds :
      (k : ApiKey) (w w' : W)
      → create keys run_in_tx k w ≡ (ok tt, w')
      → (stored : ApiKey) × (stored.value ≡ k.value)
        × (state_of stored.id (rows w) ≡ absent)
        × ((i : Uuid)
            → state_of i (rows w') ≡ (if stored.id == i then live stored else state_of i (rows w)))
  unfolding create
  create_adds k w w' h =
      let (stored, same, fresh, grown) =
        table.inserts k w w' (inserted_world k w w' (tx.committed _ w w' h)) in
      (
        stored,
        same,
        fresh,
        λ i. ap (state_of i) grown ∙ elim (Bool-cases (stored.id == i)) [
          | inl e ↦ ground (arith, e)
          | inr e ↦ ground (arith, e)
        ],
      )

  first_finds :
      (cs : List Condition) (k : ApiKey) (w : W)
      → not_found_as api_key_not_found (keys.first cs w) ≡ ok k
      → keys.first cs w ≡ ok k
  first_finds cs k w h = elim (Result-cases (keys.first cs w)) [
    | inl (a, e) ↦ ground arith
    | inr (x, e) ↦ absurd (ground (arith, Bool-cases (is_no_rows x)))
  ]

  -- The methods of the store at the moment `now`; the other methods are those of `others`, and so is
  -- a revocation without a key, which panics.
  abbrev revoke_with :
      Time → ApiKeyRepository W → ApiKeyOptions → Option ApiKey → W → Result (Unit {0}) × W
  revoke_with now others opts none = others.revoke opts
  revoke_with now others opts (some key) = revoke keys run_in_tx now key opts.revocation_type

  abbrev pub over_keys : Time → ApiKeyRepository W → ApiKeyRepository W
  over_keys now others = record others {
    create = create keys run_in_tx;
    revoke = λ opts. revoke_with now others opts opts.api_key;
    fetch = fetch keys run_in_tx;
    fetch_by_value = fetch_by_value keys run_in_tx;
    fetch_by_name = fetch_by_name keys run_in_tx;
    update_last_used_at = update_last_used_at keys run_in_tx now;
  }

  found_by_value :
      (v : String) (k : ApiKey) (w : W)
      → fetch_by_value keys run_in_tx v w ≡ ok k
      → (state_of k.id (rows w) ≡ live k) × (k.value ≡ v)
  unfolding fetch_by_value matches
  found_by_value v k w h =
      let (seen, fits) = table.finds _ k w (first_finds _ k w h) in
      let row : Stored = record { key = k; deleted = false } in
      let fits' : holds w (clause "value = ?" (text v ∷ [])) row ≡ true = ground arith in
      (seen, (==_iff _ _).0 (sym (table.by_value v w row) ∙ fits'))

  revoked_by :
      (now : Time) (others : ApiKeyRepository W) (opts : ApiKeyOptions) (key : ApiKey) (w w' : W)
      → opts.api_key ≡ some key
      → revoke_with now others opts opts.api_key w ≡ (ok tt, w')
      → revoke keys run_in_tx now key opts.revocation_type w ≡ (ok tt, w')
  revoked_by now others opts key w w' e h =
      subst (λ o. revoke_with now others opts o w ≡ (ok tt, w')) e h

  -- The store of keys is a map from identifiers to the state of a key. A key that is fetched, by its
  -- identifier or by its value, is the live one; a creation makes one live where there was no
  -- row; a use sets its time; a revocation deletes it at once, or sets its expiry to an
  -- hour before the end of the next day or of the day a week from now, or changes nothing without a
  -- strategy; the job deletes what has expired; and each leaves the other keys as they are.
  pub api_keys-IsKeyStore :
      (now : Time) (others : ApiKeyRepository W)
      → IsKeyStore
          (over_keys now others)
          (delete_expired_keys keys)
          (λ w i. state_of i (rows w))
          clock
          midnight
  unfolding fetch
  api_keys-IsKeyStore now others = record {
    fetched = λ opts k w h. (table.finds _ k w (first_finds _ k w h)).0;
    found = found_by_value;
    created = create_adds;
    used = λ id w w' h.
        (now, use_changes keys rows clock midnight holds set table run_in_tx now id w w' h);
    revoked = λ opts key w w' e h.
        revoke_changes keys rows clock midnight holds set table run_in_tx now key
          opts.revocation_type w w' (revoked_by now others opts key w w' e h);
    swept = sweep_changes keys rows clock midnight holds set table run_in_tx;
  }
