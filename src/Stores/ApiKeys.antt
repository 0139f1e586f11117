-- ===== src/Stores/ApiKeys.antt =====
-- internal/datastore/postgres/api_key.go. A transaction runs its body and keeps or drops what it
-- wrote; the time is what `time.Now()` returns.
pub mod Limit
pub mod Rows
pub mod Lifecycle
pub mod Updates
pub mod KeyStore
pub mod Revoked
use Prim.Native.String.{String}
use logtrace_backend.Common.{
  ℕ, Bool, List, [], ◌∷◌, ◌++◌, Option, none, some, ltb, ◌==◌, nat_eq, if◌then◌else◌,
}
use logtrace_backend.Domain.{
  Uuid, nil_uuid, Time, Error, is_no_rows, api_key_not_found, api_key_max_limit, Result, ok, err,
  ApiKey, RevocationType, immediate, day, week,
}
use logtrace_backend.Http.{◌>>=◌}
use logtrace_backend.Repositories.{ApiKeyOptions}
use logtrace_backend.Sql.{
  text, uuid, instant, Predicate, Condition, where_, where_text, Table, not_found_as,
}

-- `bun.DB.RunInTx`
abbrev pub RunInTx : Type 0 → Type 0
RunInTx W = (W → Result (Unit {0}) × W) → W → Result (Unit {0}) × W

abbrev pub where_uuid : String → Uuid → List Condition
where_uuid clause id = where_ (record { clause = clause; args = uuid id ∷ [] }) ∷ []

-- `if id != uuid.Nil { query = query.Where(clause, id) }`
abbrev pub where_id : String → Uuid → List Condition
where_id clause id = if id == nil_uuid then [] else where_uuid clause id

abbrev assign : String → Predicate
assign s = record { clause = s; args = [] }

-- The assignments of the `switch` of `Revoke`.
unfoldable pub revocation : Option RevocationType → List Predicate
revocation none = []
revocation (some immediate) =
    assign "expires_at = CURRENT_DATE + INTERVAL '1 day' - INTERVAL '1 hour'"
    ∷ assign "deleted_at = NOW()"
    ∷ []
revocation (some day) =
    assign "expires_at = CURRENT_DATE + INTERVAL '2 days' - INTERVAL '1 hour'" ∷ []
revocation (some week) =
    assign "expires_at = CURRENT_DATE + INTERVAL '8 days' - INTERVAL '1 hour'" ∷ []

abbrev blank_key : ApiKey
blank_key = record {
  id = nil_uuid;
  created_by = nil_uuid;
  value = "";
  name = "";
  organization_id = nil_uuid;
  last_used_at = none;
  expires_at = none;
  created_at = 0;
}

module _ {W : Type 0} (keys : Table ApiKey W) (run_in_tx : RunInTx W) where
  unfoldable pub fetch_by_value : String → W → Result ApiKey
  fetch_by_value val w = not_found_as api_key_not_found (keys.first (where_text "value = ?" val) w)

  unfoldable pub fetch : ApiKeyOptions → W → Result ApiKey
  fetch opts w = not_found_as api_key_not_found (
      keys.first
        (where_id "id = ?" opts.id
          ++ where_id "user_id = ?" opts.user_id
          ++ where_id "organization_id = ?" opts.organization_id)
        w)

  -- What is checked after the insert.
  abbrev within_limit : W → Result ℕ → Result (Unit {0}) × W
  within_limit w (err e) = (err e, w)
  within_limit w (ok count) = if ltb 10 count then (err api_key_max_limit, w) else (ok tt, w)

  abbrev inserted : Uuid → Result (Unit {0}) × W → Result (Unit {0}) × W
  inserted org (err e, w) = (err e, w)
  inserted org (ok _, w) = within_limit w (keys.count (where_uuid "organization_id = ?" org) w)

  -- The body of the transaction of `Create`.
  unfoldable pub create_body : ApiKey → W → Result (Unit {0}) × W
  create_body key w = inserted key.organization_id (keys.insert key w)

  unfoldable pub create : ApiKey → W → Result (Unit {0}) × W
  create key w = run_in_tx (create_body key) w

  -- A nil key in the options is dereferenced: a panic, which is not a result.
  unfoldable pub revoke : Time → ApiKey → Option RevocationType → W → Result (Unit {0}) × W
  revoke now key strategy w =
      keys.update
        (record { clause = "updated_at = ?"; args = instant now ∷ [] } ∷ revocation strategy)
        (where_uuid "id = ?" key.id) w

  unfoldable pub update_last_used_at : Time → Uuid → W → Result (Unit {0}) × W
  update_last_used_at now id w =
      keys.update (record { clause = "last_used_at = ?"; args = instant now ∷ [] } ∷ [])
        (where_uuid "id = ?" id) w

  -- The key beside an error is the one that the row was to be read into.
  abbrev found_by_name : Result ApiKey → Option ApiKey × Option Error
  found_by_name (ok k) = (some k, none)
  found_by_name (err e) =
      if is_no_rows e then (none, some api_key_not_found) else (some blank_key, some e)

  unfoldable pub fetch_by_name : String → Uuid → W → Option ApiKey × Option Error
  fetch_by_name name org w = found_by_name (
      keys.first
        (where_ (record {
          clause = "name = ? AND organization_id = ?";
          args = text name ∷ uuid org ∷ [];
        })
          ∷ [])
        w)

  -- All columns but updated_at, which is left out of the model, are those of the key.
  unfoldable pub update : ApiKey → W → Result (Unit {0}) × W
  update key w = keys.replace key (where_uuid "id = ?" key.id) w

  -- The listing has no order and no limit.
  unfoldable pub list :
      (List Condition → W → Result (List ApiKey)) → Uuid → W → Result (List ApiKey)
  list select_all org w =
      select_all
        (where_uuid "?TableAlias.organization_id = ?" org
          ++ where_ (record { clause = "expires_at IS NULL OR expires_at > NOW()"; args = [] })
            ∷ [])
        w
