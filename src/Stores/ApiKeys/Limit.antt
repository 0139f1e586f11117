-- ===== src/Stores/ApiKeys/Limit.antt =====
-- The limit on the keys of an organization.
use logtrace_backend.Common.{
  ℕ, ◌≡◌, ◌≤◌, refl, sym, ap, ◌∙◌, subst, Bool, List, [], ◌∷◌, length, filter, arith, ◌==◌, nat_eq,
  ==_iff, Bool-cases, inl, inr,
}
use logtrace_backend.Domain.{Uuid, Error, Result, ok, err, IsErr, Result-cases, ApiKey}
use logtrace_backend.Sql.{uuid, Condition, Table}
use logtrace_backend.Sql.Laws.{matches}
use logtrace_backend.Stores.ApiKeys.{RunInTx, where_uuid, create_body, create}

-- The body ran and what it wrote is kept, or nothing is changed.
pub record IsTransaction {W : Type 0} (run_in_tx : RunInTx W) : Type 0 where
  pub committed :
      (body : W → Result (Unit {0}) × W) (w w' : W)
      → run_in_tx body w ≡ (ok tt, w')
      → body w ≡ (ok tt, w')
  pub rolled_back :
      (body : W → Result (Unit {0}) × W) (w w' : W) (e : Error)
      → run_in_tx body w ≡ (err e, w')
      → w' ≡ w

-- The keys of an organization.
abbrev pub keys_of : Uuid → List ApiKey → List ApiKey
keys_of org ks = filter (λ k. k.organization_id == org) ks

filter-same :
    {A : Type 0} (f g : A → Bool) (xs : List A)
    → ((x : A) → f x ≡ g x)
    → length (filter f xs) ≡ length (filter g xs)
filter-same f g [] h = refl
filter-same f g (x ∷ xs) h = let e = h x in let ih = filter-same f g xs h in ground arith

module _ {W : Type 0} (keys : Table ApiKey W) (rows : W → List ApiKey) (run_in_tx : RunInTx W) where
  abbrev pub IsBounded : W → Type 0
  IsBounded w = (org : Uuid) → length (keys_of org (rows w)) ≤ 10

  module _ (transaction : IsTransaction run_in_tx)
      (counts : (cs : List Condition) (w : W) (n : ℕ)
        → keys.count cs w ≡ ok n
        → n ≡ length (filter (matches keys.holds cs) (rows w)))
      (inserts : (key : ApiKey) (w w' : W)
        → keys.insert key w ≡ (ok tt, w')
        → (stored : ApiKey) × (stored.organization_id ≡ key.organization_id)
          × (rows w' ≡ stored ∷ rows w))
      (by_organization : (org : Uuid) (k : ApiKey)
        → keys.holds (record { clause = "organization_id = ?"; args = uuid org ∷ [] }) k
          ≡ (k.organization_id == org)) where
    matches_organization :
        (org : Uuid) (k : ApiKey)
        → matches keys.holds (where_uuid "organization_id = ?" org) k ≡ (k.organization_id == org)
    unfolding matches
    matches_organization org k = rw (by_organization org k) (ground arith)

    counted :
        (org : Uuid) (w : W) (n : ℕ)
        → keys.count (where_uuid "organization_id = ?" org) w ≡ ok n
        → n ≡ length (keys_of org (rows w))
    counted org w n h = counts _ w n h ∙ filter-same _ _ (rows w) (matches_organization org)

    create_body_parts :
        (key : ApiKey) (w w' : W)
        → create_body keys run_in_tx key w ≡ (ok tt, w')
        → (keys.insert key w ≡ (ok tt, w')) × (length (keys_of key.organization_id (rows w')) ≤ 10)
    unfolding create_body
    create_body_parts key w w' h =
        let v = (keys.insert key w).1 in
        elim (Result-cases (keys.insert key w).0) [
          | inr (e, f) ↦ absurd (ground arith)
          | inl (u, f) ↦
              elim (Result-cases
                (keys.count (where_uuid "organization_id = ?" key.organization_id) v)) [
                  | inr (e, g) ↦ absurd (ground arith)
                  | inl (n, g) ↦
                      let total = counted key.organization_id v n g in
                      let same : v ≡ w' = ground arith in
                      let few : n ≤ 10 = ground arith in
                      (
                        ap (λ x. (x, v)) f ∙ ap (λ x. (ok tt, x)) same,
                        subst (λ x. length (keys_of key.organization_id (rows x)) ≤ 10) same
                            (rw total at few),
                      )
                ]
        ]

    inserted-IsBounded :
        (key : ApiKey) (w w' : W)
        → IsBounded w
        → create_body keys run_in_tx key w ≡ (ok tt, w')
        → IsBounded w'
    inserted-IsBounded key w w' bounded h org =
        let (insertion, few) = create_body_parts key w w' h in
        let (stored, own, grown) = inserts key w w' insertion in
        elim (Bool-cases (stored.organization_id == org)) [
          | inl e ↦
              let same : key.organization_id ≡ org = sym own ∙ (==_iff _ _).0 e in
              subst (λ o. length (keys_of o (rows w')) ≤ 10) same few
          | inr e ↦ let before = bounded org in rw (grown, e) before
        ]

    -- Creating a key keeps every organization at ten keys at most, those that expired but were not
    -- deleted included; where it reports an error, the limit's or another, it changes nothing.
    pub api_key-create-IsBounded :
        (key : ApiKey) (w : W)
        → IsBounded w
        → IsBounded (create keys run_in_tx key w).1
          × (IsErr (create keys run_in_tx key w).0 → (create keys run_in_tx key w).1 ≡ w)
    unfolding create
    api_key-create-IsBounded key w bounded = elim (Result-cases (create keys run_in_tx key w).0) [
      | inl (u, f) ↦ (
        inserted-IsBounded key w _ bounded
            (transaction.committed _ w _ (ap (λ x. (x, (create keys run_in_tx key w).1)) f)),
        λ failed. absurd (subst IsErr f failed),
      )
      | inr (e, f) ↦
          let same =
            transaction.rolled_back _ w _ e (ap (λ x. (x, (create keys run_in_tx key w).1)) f) in
          (subst IsBounded (sym same) bounded, λ failed. same)
    ]
