-- ===== src/Stores/Events/Isolation.antt =====
-- What the listing of events returns.
use Prim.Native.String.{String}
use logtrace_backend.Common.{
  ℕ, suc, ◌*◌, ◌^◌, ◌<◌, subst, ◌≡◌, sym, ap, ◌∙◌, true, false, List, [], ◌∷◌, length, filter, All,
  arith, inl, inr, ◌==◌, nat_eq, ==_iff,
}
use logtrace_backend.Common.Int.{ℤ, pos}
use logtrace_backend.GoText.{is_string_empty}
use logtrace_backend.Paginator.{offset}
use logtrace_backend.Paginator.Pages.{page_of, page_rows, offset-page_of}
use logtrace_backend.Domain.{Uuid, ok, Result-cases}
use logtrace_backend.Sql.{uuid, Predicate, Table, Texts}
use logtrace_backend.Sql.Laws.{IsTable, matches, matches-head, filter-All, take-All, drop-All}
use logtrace_backend.Trail.{Event, ListEventOptions}
use logtrace_backend.Stores.Events.{event_conditions, list_all}

module _ (t : Texts) {W : Type 0} (events : Table Event W) (rows : W → List Event)
    (sorted : String → List Event → List Event) (set : List Predicate → Event → Event)
    (table : IsTable events rows sorted set)
    (by_organization : (org : Uuid) (e : Event)
      → events.holds (record { clause = "organization_id = ?"; args = uuid org ∷ [] }) e
        ≡ (e.organization_id == org)) where
  pub conditions-head :
      (opts : ListEventOptions) (e : Event)
      → is_string_empty (t.uuid_text opts.organization_id) ≡ false
      → matches events.holds (event_conditions t opts) e ≡ true
      → e.organization_id ≡ opts.organization_id
  unfolding event_conditions
  conditions-head opts e named h =
      let (first, rest) = matches-head events.holds _ _ e (rw named at h) in
      (==_iff _ _).0 (sym (by_organization opts.organization_id e) ∙ first)

  list_all_parts :
      (opts : ListEventOptions) (w : W) (found : List Event) (total : ℤ)
      → list_all t events opts w ≡ ok (found, total)
      → (n : ℕ) × (events.count (event_conditions t opts) w ≡ ok n)
        × (total ≡ pos n)
        × (events.select
              (event_conditions t opts)
              "created_at DESC"
              opts.paginator.per_page
              (offset opts.paginator)
              w
            ≡ ok found)
  unfolding list_all
  list_all_parts opts w found total h =
      elim (Result-cases (events.count (event_conditions t opts) w)) [
        | inr (e, f) ↦ absurd (ground arith)
        | inl (n, f) ↦
            elim (Result-cases (
              events.select (event_conditions t opts) "created_at DESC" opts.paginator.per_page
                (offset opts.paginator) w)) [
                  | inr (e, g) ↦ absurd (ground arith)
                  | inl (page, g) ↦ (n, f, ground arith, g ∙ ground arith)
                ]
      ]

  -- The rows that the listing is cut out of: those that match its conditions, in its order.
  abbrev pub all_rows : ListEventOptions → W → List Event
  all_rows opts w =
      sorted "created_at DESC" (filter (matches events.holds (event_conditions t opts)) (rows w))

  -- Where the organization's identifier has a text, the page of the listing holds events of this
  -- organization alone. It is the asked page of the matching events in their order, and the total is
  -- their number over all pages.
  pub events-list_all_isolated :
      (opts : ListEventOptions) (n p : ℕ) (w : W) (found : List Event) (total : ℤ)
      → is_string_empty (t.uuid_text opts.organization_id) ≡ false
      → opts.paginator ≡ page_of (suc n) (suc p)
      → p < 2 ^ 63
      → p * suc n < 2 ^ 63
      → list_all t events opts w ≡ ok (found, total)
      → All (λ e. e.organization_id ≡ opts.organization_id) found
        × (found ≡ page_rows (page_of (suc n) (suc p)) (all_rows opts w))
        × (total ≡ pos (length (all_rows opts w)))
  events-list_all_isolated opts n p w found total named asked small fits h =
      let (m, counted, whole, selected) = list_all_parts opts w found total h in
      let at_offset = ap offset asked ∙ offset-page_of (suc n) p small fits in
      let first_row =
        subst
          (λ z.
            events.select (event_conditions t opts) "created_at DESC" opts.paginator.per_page z w
            ≡ ok found)
          at_offset selected in
      let sized =
        subst
          (λ z.
            events.select (event_conditions t opts) "created_at DESC" z (pos (p * suc n)) w
            ≡ ok found)
          (ap (λ x. x.per_page) asked) first_row in
      let cut =
        table.selects (event_conditions t opts) "created_at DESC" n (p * suc n) w found sized in
      let own =
        filter-All (λ e. e.organization_id ≡ opts.organization_id)
          (matches events.holds (event_conditions t opts)) (rows w)
          (λ e. conditions-head opts e named) in
      let ordered = table.sorted-All _ "created_at DESC" _ own in
      (
        subst (All (λ e. e.organization_id ≡ opts.organization_id)) (sym cut)
            (take-All _ (suc n) _ (drop-All _ (p * suc n) _ ordered)),
        rw (offset-page_of (suc n) p small fits) cut,
        whole ∙ ap pos (table.counts _ w m counted ∙ sym (table.length-sorted "created_at DESC" _)),
      )
