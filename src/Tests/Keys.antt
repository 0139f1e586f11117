-- ===== src/Tests/Keys.antt =====
-- The API key handlers on concrete requests.
use logtrace_backend.Common.{ℕ, ◌≡◌, ◌≢◌, ◌⊎◌, some}
use logtrace_backend.Http.{reply, success}
use logtrace_backend.ApiKeys.{create, revoke}
use logtrace_backend.ApiKeys.Revocation.{IsRevocation, revoke_authorised}
use logtrace_backend.ApiKeys.Creation.{Outcome, create_authorised}
use logtrace_backend.Tests.Fixtures.{keys, key_tools, session_request, alice_in_acme}

abbrev fresh : ℕ
fresh = 0

revoke_authorised_example :
    (((revoke key_tools keys 10 alice_in_acme session_request (some "day") fresh).1 ≡ fresh)
      × ((revoke key_tools keys 10 alice_in_acme session_request (some "day") fresh).0
          ≢ reply (success 200 "api key revoked")))
    ⊎ IsRevocation key_tools keys 10 alice_in_acme session_request
        (some "day")
        fresh
        (revoke key_tools keys 10 alice_in_acme session_request (some "day") fresh).0
        (revoke key_tools keys 10 alice_in_acme session_request (some "day") fresh).1
revoke_authorised_example =
    revoke_authorised key_tools keys 10 alice_in_acme session_request (some "day") fresh

create_authorised_example :
    Outcome key_tools keys alice_in_acme
      (some "deploy")
      "random"
      fresh
      (create key_tools keys alice_in_acme (some "deploy") "random" fresh).0
      (create key_tools keys alice_in_acme (some "deploy") "random" fresh).1
create_authorised_example =
    create_authorised key_tools keys alice_in_acme (some "deploy") "random" fresh
