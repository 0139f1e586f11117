-- ===== src/Tests/Subscriptions.antt =====
-- The subscription of an organization, after its creation and its update, on concrete requests.
use logtrace_backend.Common.{
  ℕ, suc, ◌≡◌, refl, sym, true, false, some, [], ◌∷◌, contains, nat_eq, string_eq,
}
use logtrace_backend.GoText.{is_string_empty, trim_space, trim_left, trim_right, is_space, split}
use logtrace_backend.Domain.{Organization, ok}
use logtrace_backend.Http.{
  Context, empty_context, next, reply, success, success_with, ◌>>=◌, write_user_to_ctx,
  write_organization_to_ctx,
}
use logtrace_backend.Middleware.{
  require_organization_valid_subscription, require_authentication, token_from_request,
  should_skip_organization_selection, resolve_organization_id_for_request,
  selected_organization_id_from_request, has_organization_membership, user_organization_ids,
}
use logtrace_backend.Organizations.{
  OrganizationServices, CreateOrgRequest, UpdateOrgRequest, updated_organization,
  new_free_organization, validate_create, create_organization, update_organization,
}
use logtrace_backend.Organizations.Creation.{IsCreation}
use logtrace_backend.Organizations.Subscription.{
  over_organizations, StillStored, authenticated, behind_both, update_organization-subscribes,
  create_organization-subscribes,
}
use logtrace_backend.Sql.{Table, Statements}
use logtrace_backend.Stores.Organizations.{create, list}
use logtrace_backend.Tests.Fixtures.{
  parse_uuid, users, orgs, tokens, acme, alice_in_acme, session_request,
}
use logtrace_backend.Tests.Trail.{texts}

abbrev services : OrganizationServices ℕ
services = record { orgs = orgs; users = users }

abbrev paid : UpdateOrgRequest
paid = record {
  name = "Acme";
  image_url = "";
  is_subscription_active = true;
  plan_name = "Enterprise";
  is_active = true;
  subscription_expires_at = 900;
}

-- Every column that is given is written.
abbrev org_statements : Statements Organization ℕ
org_statements = record {
  insert_returning = λ o w. (ok (record o { id = 3; is_subscription_active = true }), suc w);
  update_given = λ o cs w. (ok o, suc w);
  delete = λ cs w. (ok tt, suc w);
}

abbrev org_table : Table Organization ℕ
org_table = record {
  holds = λ p o. true;
  count = λ cs w. ok 1;
  select = λ cs order limit offset w. ok (updated_organization 3 paid ∷ []);
  first = λ cs w. ok (updated_organization 3 paid);
  insert = λ o w. (ok tt, suc w);
  update = λ assignments cs w. (ok tt, suc w);
  replace = λ o cs w. (ok tt, suc w);
}

abbrev company : CreateOrgRequest
company = record { name = "Wonderland"; image_url = "" }

abbrev over_store : OrganizationServices ℕ
over_store = over_organizations texts (λ s. false) org_table org_statements services

still_stored :
    StillStored texts
      (λ s. false)
      org_table
      org_statements
      services
      parse_uuid
      tokens
      (updated_organization 3 paid)
      1
unfolding list
still_stored id found h same = let g : updated_organization 3 paid ≡ found = cc h in sym g

abbrev alice_in_paid : Context
alice_in_paid = record alice_in_acme { organization = some (some (updated_organization 3 paid)) }

enters :
    authenticated texts
      (λ s. false)
      org_table
      org_statements
      services
      parse_uuid
      tokens
      10
      empty_context
      session_request
      1
    ≡ (next alice_in_paid, 1)
unfolding require_authentication list token_from_request split should_skip_organization_selection
    resolve_organization_id_for_request selected_organization_id_from_request
    has_organization_membership user_organization_ids contains trim_space trim_left trim_right
    is_space write_user_to_ctx write_organization_to_ctx ◌>>=◌
enters = refl

update_organization-subscribes_example :
    (require_organization_valid_subscription {W = ℕ} alice_in_acme
        (record session_request { path = "/v1/organizations" })
        0
      ≡ (next alice_in_acme, 0))
    × (update_organization over_store alice_in_acme (some paid) 0 ≡ (
      reply (success_with 200 "Organization updated successfully" (updated_organization 3 paid)),
      1,
    ))
    × (behind_both texts
          (λ s. false)
          org_table
          org_statements
          services
          parse_uuid
          tokens
          10
          empty_context
          session_request
          1
        ≡ (next alice_in_paid, 1))
update_organization-subscribes_example =
    update_organization-subscribes texts (λ s. false) org_table org_statements services parse_uuid
      tokens alice_in_acme empty_context alice_in_paid
      (record session_request { path = "/v1/organizations" }) session_request paid acme
      (updated_organization 3 paid) (updated_organization 3 paid) 10 0 1 1 1
      (λ o stored v v' h active. let same : stored ≡ o = cc in rw same active) refl refl refl refl
      still_stored enters refl refl

is_created :
    (create_organization over_store 9 alice_in_acme (some company) 0).0
    ≡ reply (success 201 "Organization created successfully")
unfolding create_organization create validate_create is_string_empty trim_space trim_left trim_right
    is_space ◌>>=◌
is_created = refl

create_organization-subscribes_example :
    (created : IsCreation over_store 9 alice_in_acme
      (some company)
      0
      (create_organization over_store 9 alice_in_acme (some company) 0).1)
    × ((new_free_organization 9 created.req).is_subscription_active ≡ false)
    × (created.org.is_subscription_active ≡ true)
create_organization-subscribes_example =
    create_organization-subscribes texts (λ s. false) org_table org_statements services 9
      alice_in_acme (some company) 0
      (λ o stored v v' h absent.
        let same : stored ≡ record o { id = 3; is_subscription_active = true } = cc in rw same refl)
      is_created
