-- ===== src/Stores/Invitations/Deletion.antt =====
-- Which invitations the deletion handler deletes.
use logtrace_backend.Common.{
  ◌≡◌, ap, ◌∙◌, Bool, false, ◌&&◌, ◌||◌, not, Option, some, List, [], ◌∷◌, filter, ◌⊎◌, inl, inr,
  Bool-cases, ◌==◌, nat_eq, arith,
}
use logtrace_backend.Domain.{Uuid, nil_uuid, Result, ok, Organization}
use logtrace_backend.Http.{Context, NoBody, Step, reply, success}
use logtrace_backend.Http.Rules.{Ends, Ends-present, Ends-deref, Ends-run, Ends-respond}
use logtrace_backend.Repositories.{JwTokenManager}
use logtrace_backend.Invitations.{
  Invitation, InvitationRepository, delete_options, delete_invitation,
}
use logtrace_backend.Sql.{uuid, Condition, Table, Statements, Texts}
use logtrace_backend.Sql.Laws.{matches, filter-ext}
use logtrace_backend.Stores.Invitations.{delete_conditions, create, list, delete}

module _ (t : Texts) {W : Type 0} (invitations : Table Invitation W)
    (statements : Statements Invitation W)
    (select_all : List Condition → W → Result (List Invitation)) where
  -- `NewInvitationRepository`
  abbrev pub stored_invitations : InvitationRepository W
  stored_invitations = record {
    create = create t invitations statements;
    list = list t invitations statements select_all;
    delete = delete t invitations statements;
  }

module _ (t : Texts) {W : Type 0} (invitations : Table Invitation W)
    (statements : Statements Invitation W)
    (select_all : List Condition → W → Result (List Invitation)) (rows : W → List Invitation) where
  -- The invitations of an organization that a reference stands for: the one with this identifier, and
  -- all of them where it is nil.
  abbrev pub is_meant : Uuid → Uuid → Invitation → Bool
  is_meant org id i = (id == nil_uuid || i.id == id) && i.organization_id == org

  module _
      (deletes : (cs : List Condition) (w w' : W)
        → statements.delete cs w ≡ (ok tt, w')
        → rows w' ≡ filter (λ i. not (matches invitations.holds cs i)) (rows w))
      (by_id : (id : Uuid) (i : Invitation)
        → invitations.holds (record { clause = "id = ?"; args = uuid id ∷ [] }) i ≡ (i.id == id))
      (by_organization : (org : Uuid) (i : Invitation)
        → invitations.holds (record { clause = "organization_id = ?"; args = uuid org ∷ [] }) i
          ≡ (i.organization_id == org)) where
    conditions_mean :
        (org id : Uuid) (i : Invitation)
        → (org == nil_uuid) ≡ false
        → matches invitations.holds (delete_conditions (delete_options org id)) i
          ≡ is_meant org id i
    unfolding matches delete_conditions
    conditions_mean org id i proper = elim (Bool-cases (id == nil_uuid)) [
      | inl e ↦ rw (e, proper, by_organization org i) (ground arith)
      | inr e ↦ rw (e, proper, by_organization org i, by_id id i) (ground arith)
    ]

    module _ (jwt : JwTokenManager) where
      abbrev Deleted : Step NoBody ⊥ → Type 0
      Deleted step = step ≡ reply (success 200 "Invitation deleted successfully")

      pub record IsDeletion (ctx : Context) (reference : Option Uuid) (w w' : W) : Type 0 where
        pub org : Organization
        pub id : Uuid
        pub in_context : ctx.organization ≡ some (some org)
        pub named : reference ≡ some id
        pub others_kept : rows w' ≡ filter (λ i. not (is_meant org.id id i)) (rows w)

      abbrev Outcome : Context → Option Uuid → W → Step NoBody ⊥ → W → Type 0
      Outcome ctx reference w step w' = (¬ Deleted step) ⊎ IsDeletion ctx reference w w'

      delete_invitation-Ends :
          (ctx : Context) (reference : Option Uuid) (w : W)
          → ((org : Organization)
              → ctx.organization ≡ some (some org)
              → (org.id == nil_uuid) ≡ false)
          → Ends
              (Outcome ctx reference w)
              (delete_invitation jwt
                (stored_invitations t invitations statements select_all)
                ctx
                reference)
              w
      unfolding delete_invitation delete
      delete_invitation-Ends ctx reference w proper =
          Ends-present reference _ (inl (λ h. cc)) λ id named.
            Ends-deref ctx.organization (inl (λ h. cc)) λ pointer held.
              Ends-deref pointer (inl (λ h. cc)) λ org some_org.
                let cs = delete_conditions (delete_options org.id id) in
                let in_context : ctx.organization ≡ some (some org) = cc in
                Ends-run _ _ (λ e f. inl (λ h. cc))
                  (λ f. Ends-respond _ (
                    inr (record {
                      org = org;
                      id = id;
                      in_context = in_context;
                      named = named;
                      others_kept =
                          deletes cs w _ (ap (λ x. (x, (statements.delete cs w).1)) f)
                          ∙ filter-ext _ _ (rows w)
                              (λ i. ap not (conditions_mean org.id id i (proper org in_context)));
                    })))

      -- Where the organization in the context is not the nil one, a deletion that is answered with
      -- success deletes the invitation of this organization with the given identifier, and for the nil
      -- identifier all invitations of this organization. It keeps all others.
      pub delete_invitation-IsDeletion :
          (ctx : Context) (reference : Option Uuid) (w : W)
          → ((org : Organization)
              → ctx.organization ≡ some (some org)
              → (org.id == nil_uuid) ≡ false)
          → (delete_invitation jwt
              (stored_invitations t invitations statements select_all)
              ctx
              reference
              w).0
            ≡ reply (success 200 "Invitation deleted successfully")
          → IsDeletion ctx reference w
              (delete_invitation jwt
                (stored_invitations t invitations statements select_all)
                ctx
                reference
                w).1
      delete_invitation-IsDeletion ctx reference w proper h =
          elim (delete_invitation-Ends ctx reference w proper).at [
            | inl refused ↦ absurd (refused h)
            | inr done ↦ done
          ]
