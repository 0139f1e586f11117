-- ===== src/Tests/RevokedKey.antt =====
-- Two API keys, of which one is revoked and the other stays.
use logtrace_backend.Common.{
  ◌≡◌, ◌≢◌, refl, false, none, some, [], ◌∷◌, nat_eq, string_eq, contains,
}
use logtrace_backend.Common.Int.{pos}
use logtrace_backend.GoText.{is_string_empty, trim_space, trim_left, trim_right, is_space}
use logtrace_backend.Domain.{
  no_rows, other, ok, err, ApiKey, is_revoked, parse_revocation_type, revocation_type_is_valid,
}
use logtrace_backend.Http.{next, reply, success, empty_context, write_organization_to_ctx, ◌>>=◌}
use logtrace_backend.Repositories.{ApiKeyRepository, OrganizationRepository}
use logtrace_backend.Middleware.{
  user_organization_ids, has_organization_membership, require_api_key_only, api_key_token,
}
use logtrace_backend.Middleware.KeyGate.{IsKeyed}
use logtrace_backend.Sql.Laws.{matches}
use logtrace_backend.ApiKeys.{revoke, revoke_found}
use logtrace_backend.Stores.ApiKeys
use logtrace_backend.Stores.ApiKeys.{RunInTx}
use logtrace_backend.Stores.ApiKeys.Rows.{state_of}
use logtrace_backend.Stores.ApiKeys.KeyStore.{IsKeyStore, over_keys, api_keys-IsKeyStore}
use logtrace_backend.Stores.ApiKeys.Revoked.{done, IsRevokedAtOnce, IsRevokedAtOnce-stays_out}
use logtrace_backend.Cron.Revocation.{delete_expired_keys}
use logtrace_backend.Tests.Fixtures.{
  acme, key_tools, session_request, service_request, alice_in_acme,
}
use logtrace_backend.Tests.Keyring.{
  World, rows, now, midnight, holds, set, keyring, table, at_once, tx,
}

abbrev other_methods : ApiKeyRepository World
other_methods = record {
  create = λ k w. (err (other "not used"), w);
  revoke = λ o w. (err (other "not used"), w);
  list = λ o w. ok [];
  update = λ o w. (err (other "not used"), w);
  fetch = λ o w. err no_rows;
  fetch_by_value = λ v w. err no_rows;
  fetch_by_name = λ n o w. (none, none);
  update_last_used_at = λ i w. (ok tt, w);
}

abbrev acme_only : OrganizationRepository World
acme_only = record {
  create = λ o w. (ok o, w);
  list = λ o w. ok acme;
  update = λ o w. (ok o, w);
  delete = λ o w. (ok tt, w);
  list_all = λ o w. ok (acme ∷ [], pos 1);
}

api_keys-IsKeyStore_example :
    IsKeyStore
      (over_keys keyring rows now midnight holds set table at_once tx 10 other_methods)
      (delete_expired_keys keyring)
      (λ w i. state_of i (rows w))
      now
      midnight
api_keys-IsKeyStore_example =
    api_keys-IsKeyStore keyring rows now midnight holds set table at_once tx 10 other_methods

abbrev store : ApiKeyRepository World
store = over_keys keyring rows now midnight holds set table at_once tx 10 other_methods

kept_by_store :
    IsKeyStore store (delete_expired_keys keyring) (λ w i. state_of i (rows w)) now midnight
kept_by_store =
    api_keys-IsKeyStore keyring rows now midnight holds set table at_once tx 10 other_methods

abbrev old_key : ApiKey
old_key = record {
  id = 5;
  created_by = 7;
  value = "lg_0";
  name = "deploy";
  organization_id = 3;
  last_used_at = none;
  expires_at = none;
  created_at = 0;
}

abbrev new_key : ApiKey
new_key = record old_key { id = 6; value = "lg_1"; name = "ci" }

abbrev pub both : World
both = (record { key = old_key; deleted = false }, record { key = new_key; deleted = false })

abbrev without_old : World
without_old = (revoke key_tools store 10 alice_in_acme session_request (some "immediate") both).1

abbrev after_use : World
after_use = (require_api_key_only store acme_only empty_context service_request without_old).1

is_answered :
    revoke key_tools store 10 alice_in_acme session_request (some "immediate") both
    ≡ (reply (success 200 "api key revoked"), without_old)
unfolding revoke revoke_found is_revoked revocation_type_is_valid parse_revocation_type
    has_organization_membership user_organization_ids contains is_string_empty trim_space trim_left
    trim_right is_space ApiKeys.revoke ApiKeys.revocation ApiKeys.fetch matches ◌>>=◌
is_answered = refl

lets_new_in :
    require_api_key_only store acme_only empty_context service_request without_old
    ≡ (next (write_organization_to_ctx empty_context (some acme)), after_use)
unfolding require_api_key_only api_key_token revoke revoke_found is_revoked revocation_type_is_valid
    parse_revocation_type has_organization_membership user_organization_ids contains is_string_empty
    trim_space trim_left trim_right is_space ApiKeys.revoke ApiKeys.revocation ApiKeys.fetch
    ApiKeys.fetch_by_value ApiKeys.update_last_used_at write_organization_to_ctx matches ◌>>=◌
lets_new_in = refl

IsRevokedAtOnce-stays_out_example :
    (revoked : IsRevokedAtOnce store
      (delete_expired_keys keyring)
      (λ w i. state_of i (rows w))
      now
      midnight
      kept_by_store
      acme_only
      key_tools
      10
      alice_in_acme
      session_request
      both
      without_old)
    × (keyed : IsKeyed store acme_only service_request without_old after_use empty_context
        (write_organization_to_ctx empty_context (some acme)))
    × (keyed.key.id ≢ revoked.revocation.key.id)
IsRevokedAtOnce-stays_out_example =
    IsRevokedAtOnce-stays_out store (delete_expired_keys keyring) (λ w i. state_of i (rows w)) now
      midnight kept_by_store acme_only key_tools 10 alice_in_acme session_request both without_old
      without_old after_use empty_context (write_organization_to_ctx empty_context (some acme))
      service_request is_answered done lets_new_in
