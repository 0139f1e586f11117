-- ===== src/Tests/Fixtures.antt =====
-- Repositories and services of which the examples are run; a world is the number of writes.
use Prim.Native.String.{String}
use logtrace_backend.Common.{
  ℕ, suc, true, Option, none, some, [], ◌∷◌, ◌==◌, string_eq, if◌then◌else◌,
}
use logtrace_backend.Common.Int.{pos}
use logtrace_backend.Domain.{
  Uuid, other, user_not_found, user_exists, api_key_not_found, ok, err, User, Organization, ApiKey,
}
use logtrace_backend.Http.{Request, Context}
use logtrace_backend.Repositories.{
  UserRepository, OrganizationRepository, ApiKeyRepository, PasswordRepository, JwTokenManager,
}
use logtrace_backend.Auth
use logtrace_backend.ApiKeys

abbrev pub alice : User
alice = record {
  id = 7;
  email = "alice@acme.io";
  full_name = "Alice Liddell";
  email_verified_at = some 1;
  metadata = some (record { organization_id = 3 ∷ 4 ∷ []; user_role = "admin" });
  phone = "";
  status = "active";
  created_at = 1;
}

abbrev pub acme : Organization
acme = record {
  id = 3;
  name = "Acme";
  is_active = true;
  plan_name = "free";
  image_url = "";
  is_subscription_active = true;
  subscription_expires_at = none;
  created_at = 1;
}

abbrev pub first_key : ApiKey
first_key = record {
  id = 5;
  created_by = 7;
  value = "lg_1";
  name = "ci";
  organization_id = 3;
  last_used_at = none;
  expires_at = none;
  created_at = 1;
}

abbrev pub users : UserRepository ℕ
users = record {
  create =
      λ u w. if u.email == "taken@acme.io" then (err user_exists, suc w) else (ok (some u), suc w);
  list = λ o w. if o.email == "new@acme.io" then err user_not_found else ok alice;
  list_all = λ o w. ok (alice ∷ [], pos 1);
  update = λ u w. (ok u, suc w);
}

abbrev pub orgs : OrganizationRepository ℕ
orgs = record {
  create = λ o w. (ok (record o { id = 3 }), suc w);
  list = λ o w. ok acme;
  update = λ o w. (ok o, suc w);
  delete = λ o w. (ok tt, suc w);
  list_all = λ o w. ok (acme ∷ [], pos 1);
}

abbrev pub keys : ApiKeyRepository ℕ
keys = record {
  create = λ k w. (ok tt, suc w);
  revoke = λ o w. (ok tt, suc w);
  list = λ o w. ok (first_key ∷ []);
  update = λ o w. (ok tt, suc w);
  fetch = λ o w. ok first_key;
  fetch_by_value = λ v w. if v == "lg_1" then ok first_key else err api_key_not_found;
  fetch_by_name = λ n o w. (none, some api_key_not_found);
  update_last_used_at = λ i w. (ok tt, suc w);
}

abbrev pub passwords : PasswordRepository ℕ
passwords = record {
  create = λ p w. (ok tt, suc w);
  list = λ i w. ok (record { user_password = "hash of secret-1"; user_id = i });
  update = λ p w. (ok tt, suc w);
}

abbrev pub tokens : JwTokenManager
tokens = record {
  generate_jw_token =
      λ now d. ok (record { token = "session"; user_id = d.user_id; expires_at = 100 });
  parse_jw_token = λ now s.
      if s == "session"
      then ok (record { token = ""; user_id = 7; expires_at = 100 })
      else err (other "invalid token");
  generate_password_reset_token =
      λ now d. ok (record { token = "reset"; user_id = d.user_id; expires_at = 50 });
  parse_password_reset_token = λ now s.
      if s == "reset"
      then ok (record { token = ""; user_id = 7; expires_at = 0 })
      else err (other "invalid token");
}

abbrev pub services : Auth.Services ℕ
services = record {
  users = users;
  orgs = orgs;
  passwords = passwords;
  verifications = record { create = λ v w. (ok tt, suc w) };
  tokens = tokens;
  queue = record { add = λ m w. (ok tt, suc w) };
}

abbrev pub account_tools : Auth.Tools
account_tools = record {
  valid_format = λ s. true;
  strength = λ s. 60;
  moderate = 50;
  hash_password = λ s. ok "hash of another";
  compare_password_and_hash = λ s h. ok (s == "secret-1");
  to_lower = λ s. s;
  parse_uuid = λ s. if s == "seven" then some 7 else none;
  google_validate = λ s. ok "google";
  google_user = λ s. ok ("new@acme.io", "Bob");
}

abbrev pub key_tools : ApiKeys.Tools
key_tools = record {
  sanitize = λ s. s;
  hash_key = λ secret s. s;
  hash_secret = "pepper";
  parse_uuid = λ s. if s == "five" then some 5 else none;
}

abbrev pub parse_uuid : String → Option Uuid
parse_uuid s = if s == "three" then some 3 else none

-- A request of a browser session, which selects the organization 3.
abbrev pub session_request : Request
session_request = record {
  path = "/v1/events";
  method = "GET";
  header = λ name.
      if name == "Authorization"
      then "Bearer session"
      else if name == "X-Organization-ID"
      then "three"
      else "";
  query = λ name. "";
  url_param = λ name. if name == "reference" then "five" else "";
  remote_addr = "10.0.0.1";
}

-- A request of a service with its API key.
abbrev pub service_request : Request
service_request = record session_request {
  header = λ name. if name == "X-Api-Key" then "lg_1" else "";
}

abbrev pub alice_in_acme : Context
alice_in_acme = record { user = some (some alice); organization = some (some acme) }

abbrev pub draw : Auth.Draw
draw = record { now = 10; random = ok "forty letters" }
