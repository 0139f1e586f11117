-- ===== src/Middleware/Membership.antt =====
-- Which organization a request runs in (resolveOrganizationIDForRequest), and which address it is
-- counted under (getIP).
use logtrace_backend.Common.{
  ℕ, String, ap, ◌≡◌, ◌↔◌, refl, subst, sym, true, Option, List, [], ◌∷◌, inl, inr, arith,
  Bool-cases, nat_eq, Member, here, there, contains-Member,
}
use logtrace_backend.Domain.{Uuid, User, other, Result, ok, err}
use logtrace_backend.Http.{Request}
use logtrace_backend.Middleware.{
  user_organization_ids, has_organization_membership, resolve_among, resolve_from,
  selected_organization_id_from_request, resolve_organization_id_for_request, not_a_member,
}

-- Membership as the program tests it is membership in the list, of an organization that is not nil.
ok-injective : {A : Type 0} {a b : A} → ok a ≡ ok b → a ≡ b
ok-injective h = cc

Member-single : {a b : ℕ} → Member a (b ∷ []) → b ≡ a
Member-single (here e) = e
Member-single (there m) = elim m [ ]

pub has_organization_membership-Member :
    (user : Option User) (o : Uuid)
    → has_organization_membership user o ≡ true
    → Member o (user_organization_ids user)
unfolding has_organization_membership
has_organization_membership-Member user o h =
    contains-Member (user_organization_ids user) o (ground arith)

resolve_from-Member :
    (user : Option User) (ids : List Uuid) (selected : Result Uuid) (o : Uuid)
    → user_organization_ids user ≡ ids
    → resolve_from user ids selected ≡ ok o
    → Member o ids
unfolding resolve_from resolve_among
resolve_from-Member user [] selected o e h = absurd (cc)
resolve_from-Member user (a ∷ []) (err x) o e h = here (cc)
resolve_from-Member user (a ∷ b ∷ os) (err x) o e h = absurd (cc)
resolve_from-Member user (a ∷ os) (ok s) o e h =
    elim (Bool-cases (has_organization_membership user s)) [
      | inl member ↦
          let same : s ≡ o = ok-injective (rw (member, resolve_among) at h) in
          subst (λ x. Member x (a ∷ os)) same
            (rw e at (has_organization_membership-Member user s member))
      | inr outside ↦ only os (rw (outside, resolve_among) at h)
    ]
  where
    only :
        (os : List Uuid)
        → (elim os [ [] ↦ ok a | b ∷ bs ↦ err (other not_a_member) ]) ≡ ok o
        → Member o (a ∷ os)
    only [] p = here (ok-injective p)
    only (b ∷ bs) p = absurd (cc)

resolve_from-single :
    (user : Option User) (o : Uuid) (selected : Result Uuid)
    → user_organization_ids user ≡ o ∷ []
    → resolve_from user (o ∷ []) selected ≡ ok o
unfolding resolve_from resolve_among
resolve_from-single user o (err x) e = refl
resolve_from-single user o (ok s) e = elim (Bool-cases (has_organization_membership user s)) [
  | inl member ↦
      rw member
        (ap ok (sym (Member-single (rw e at (has_organization_membership-Member user s member)))))
  | inr outside ↦ rw outside refl
]

resolve_from-several :
    (user : Option User) (a b : Uuid) (os : List Uuid) (selected : Result Uuid) (o : Uuid)
    → (resolve_from user (a ∷ b ∷ os) selected ≡ ok o)
      ↔ ((selected ≡ ok o) × (has_organization_membership user o ≡ true))
unfolding resolve_from resolve_among
resolve_from-several user a b os (err x) o = (λ h. absurd (cc), λ h. absurd (cc h.0))
resolve_from-several user a b os (ok s) o = elim (Bool-cases (has_organization_membership user s)) [
  | inl member ↦ rw member (
    λ h. (h, subst (λ x. has_organization_membership user x ≡ true) (ok-injective h) member),
    λ h. h.0,
  )
  | inr outside ↦ rw outside (λ h. absurd (cc), λ h. absurd (cc (ok-injective h.0)))
]

module _ (parse_uuid : String → Option Uuid) where
  -- Whatever the request says, the organization that it runs in is one of the user's.
  pub resolve_organization_id_for_request-Member :
      (r : Request) (user : Option User) (o : Uuid)
      → resolve_organization_id_for_request parse_uuid r user ≡ ok o
      → Member o (user_organization_ids user)
  unfolding resolve_organization_id_for_request
  resolve_organization_id_for_request-Member r user o h =
      resolve_from-Member user _ (selected_organization_id_from_request parse_uuid r) o refl h

  -- A user of exactly one organization needs no header, and no header misleads the program: the
  -- request runs in that organization.
  pub resolve_organization_id_for_request-single :
      (r : Request) (user : Option User) (o : Uuid)
      → user_organization_ids user ≡ o ∷ []
      → resolve_organization_id_for_request parse_uuid r user ≡ ok o
  unfolding resolve_organization_id_for_request
  resolve_organization_id_for_request-single r user o e =
      rw e (resolve_from-single user o (selected_organization_id_from_request parse_uuid r) e)

  -- A user of several organizations has to name one of them by a valid header: the request is
  -- refused where the header is missing or names none, and where it names another organization.
  pub resolve_organization_id_for_request-several :
      (r : Request) (user : Option User) (a b : Uuid) (os : List Uuid)
      → user_organization_ids user ≡ a ∷ b ∷ os
      → (o : Uuid)
      → (resolve_organization_id_for_request parse_uuid r user ≡ ok o) ↔ (
          (selected_organization_id_from_request parse_uuid r ≡ ok o)
          × (has_organization_membership user o ≡ true))
  unfolding resolve_organization_id_for_request
  resolve_organization_id_for_request-several r user a b os e o =
      rw e (resolve_from-several user a b os (selected_organization_id_from_request parse_uuid r) o)
