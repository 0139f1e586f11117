-- ===== src/Tests/Companies.antt =====
-- Organizations and invitations on concrete requests.
use logtrace_backend.Common.{
  ◌≡◌, refl, Bool, true, false, not, some, List, [], ◌∷◌, filter, ◌==◌, nat_eq, string_eq,
  if◌then◌else◌,
}
use logtrace_backend.Domain.{Uuid, nil_uuid, Organization, Result, ok}
use logtrace_backend.Http.{reply, success, ◌>>=◌}
use logtrace_backend.Invitations.{Invitation, delete_invitation}
use logtrace_backend.Sql.{Arg, uuid, Predicate, Condition, Table, Statements}
use logtrace_backend.Sql.Laws.{matches}
use logtrace_backend.Stores.Invitations.{delete}
use logtrace_backend.Stores.Invitations.Deletion.{
  IsDeletion, stored_invitations, delete_invitation-IsDeletion,
}
use logtrace_backend.Tests.Fixtures.{tokens, acme, alice_in_acme}
use logtrace_backend.Tests.Memory.{memory}
use logtrace_backend.Tests.Trail.{texts}

abbrev same_uuid : List Arg → Uuid → Bool
same_uuid (uuid a ∷ []) b = b == a
same_uuid _ b = true

abbrev invitation_holds : Predicate → Invitation → Bool
invitation_holds p i =
    if p.clause == "id = ?"
    then same_uuid p.args i.id
    else if p.clause == "organization_id = ?"
    then same_uuid p.args i.organization_id
    else true

abbrev table : Table Invitation (List Invitation)
table = memory invitation_holds (λ s i. i)

abbrev statements : Statements Invitation (List Invitation)
statements = record {
  insert_returning = λ i w. (ok i, i ∷ w);
  update_given = λ i cs w. (ok i, w);
  delete = λ cs w. (ok tt, filter (λ i. not (matches invitation_holds cs i)) w);
}

abbrev all : List Condition → List Invitation → Result (List Invitation)
all cs w = ok (filter (matches invitation_holds cs) w)

abbrev invitation_of : Uuid → Uuid → Invitation
invitation_of id org = record {
  id = id;
  organization_id = org;
  email = "bob@acme.io";
  fullname = "Bob";
  role = "viewer";
  token = "t";
  status = "pending";
  created_at = 1;
}

abbrev three : List Invitation
three = invitation_of 1 3 ∷ invitation_of 2 3 ∷ invitation_of 1 4 ∷ []

is_deleted :
    (delete_invitation tokens
      (stored_invitations texts table statements all)
      alice_in_acme
      (some 1)
      three).0
    ≡ reply (success 200 "Invitation deleted successfully")
unfolding delete_invitation delete ◌>>=◌
is_deleted = refl

deletes :
    (cs : List Condition) (w w' : List Invitation)
    → statements.delete cs w ≡ (ok tt, w')
    → w' ≡ filter (λ i. not (matches invitation_holds cs i)) w
deletes cs w w' h = cc

own_organization :
    (org : Organization)
    → alice_in_acme.organization ≡ some (some org)
    → (org.id == nil_uuid) ≡ false
own_organization org h = let same : org ≡ acme = cc in rw same refl

delete_invitation-IsDeletion_example :
    IsDeletion texts table statements all
      (λ w. w)
      deletes
      (λ id i. refl)
      (λ org i. refl)
      tokens
      alice_in_acme
      (some 1)
      three
      (delete_invitation tokens
        (stored_invitations texts table statements all)
        alice_in_acme
        (some 1)
        three).1
delete_invitation-IsDeletion_example =
    delete_invitation-IsDeletion texts table statements all (λ w. w) deletes (λ id i. refl)
      (λ org i. refl) tokens alice_in_acme (some 1) three own_organization is_deleted
