-- ===== src/Stores/Events/Growth.antt =====
-- What storing an event changes in the listings. The row that the database stores has its own
-- identifier and time of creation where the event has none.
use Prim.Native.String.{String}
use logtrace_backend.Common.{
  ℕ, suc, ◌*◌, ◌^◌, ◌<◌, ◌≡◌, ◌≢◌, refl, sym, ap, ◌∙◌, Bool, true, false, List, [], ◌∷◌, length,
  filter, if◌then◌else◌, arith, inl, inr, ◌==◌, nat_eq, Bool-cases,
}
use logtrace_backend.Common.Int.{ℤ, pos}
use logtrace_backend.GoText.{is_string_empty, trim_space, trim_left, trim_right}
use logtrace_backend.Paginator.{Paginator}
use logtrace_backend.Paginator.Pages.{page_of, page_rows}
use logtrace_backend.Domain.{Uuid, ok, nil_uuid}
use logtrace_backend.Sql.{uuid, where_given, where_dates, where_search, Predicate, Table, Texts}
use logtrace_backend.Sql.Laws.{IsTable, matches}
use logtrace_backend.Trail.{Event, ListEventOptions}
use logtrace_backend.Stores.Events.{
  event_conditions, where_organization, where_status, create, list_all,
}
use logtrace_backend.Stores.Events.Isolation.{conditions-head, events-list_all_isolated}

blank : is_string_empty "" ≡ true
unfolding is_string_empty trim_space trim_left trim_right
blank = refl

-- The options of a listing without a filter.
abbrev pub unfiltered : Uuid → Paginator → ListEventOptions
unfiltered org paginator = record {
  id = nil_uuid;
  name = "";
  organization_id = org;
  paginator = paginator;
  http_status = "";
  http_method = "";
  start_date = "";
  end_date = "";
  username = "";
  user_id = "";
  search = "";
}

module _ (t : Texts) {W : Type 0} (events : Table Event W) (rows : W → List Event)
    (sorted : String → List Event → List Event) (set : List Predicate → Event → Event)
    (table : IsTable events rows sorted set)
    (by_organization : (org : Uuid) (e : Event)
      → events.holds (record { clause = "organization_id = ?"; args = uuid org ∷ [] }) e
        ≡ (e.organization_id == org))
    (inserts : (e : Event) (w w' : W)
      → events.insert e w ≡ (ok tt, w')
      → (stored : Event) × (stored.organization_id ≡ e.organization_id)
        × (rows w' ≡ stored ∷ rows w)) where
  conditions_unfiltered :
      (org : Uuid) (paginator : Paginator)
      → is_string_empty (t.uuid_text org) ≡ false
      → event_conditions t (unfiltered org paginator) ≡ where_organization (uuid org) ∷ []
  unfolding event_conditions where_status where_given where_dates where_search
  conditions_unfiltered org paginator named = rw (named, blank) refl

  matches-unfiltered :
      (org : Uuid) (paginator : Paginator) (e : Event)
      → is_string_empty (t.uuid_text org) ≡ false
      → e.organization_id ≡ org
      → matches events.holds (event_conditions t (unfiltered org paginator)) e ≡ true
  unfolding matches
  matches-unfiltered org paginator e named own =
      ap (λ cs. matches events.holds cs e) (conditions_unfiltered org paginator named)
      ∙ rw (by_organization, own) (ground arith)

  -- A row in front of the others is counted if it matches.
  in_front :
      (opts : ListEventOptions) (e : Event) (w v : W) (b : Bool)
      → rows v ≡ e ∷ rows w
      → matches events.holds (event_conditions t opts) e ≡ b
      → filter (matches events.holds (event_conditions t opts)) (rows v) ≡ (
          if b
          then e ∷ filter (matches events.holds (event_conditions t opts)) (rows w)
          else filter (matches events.holds (event_conditions t opts)) (rows w))
  in_front opts e w v b h m = rw (h, m) refl

  not_matched :
      (opts : ListEventOptions) (e : Event)
      → is_string_empty (t.uuid_text opts.organization_id) ≡ false
      → e.organization_id ≢ opts.organization_id
      → matches events.holds (event_conditions t opts) e ≡ false
  not_matched opts e named differs =
      elim (Bool-cases (matches events.holds (event_conditions t opts) e)) [
        | inl e1 ↦ absurd (
            differs
              (conditions-head t events rows sorted set table by_organization opts e named e1))
        | inr e0 ↦ e0
      ]

  -- An event that was stored does not show in the listings of another organization, which stay as
  -- they were, page and total, whatever their filters; and the listings of its own organization
  -- without a filter count one event more.
  pub list_all-create :
      (e : Event) (opts : ListEventOptions) (n p : ℕ) (w v : W) (found found' : List Event)
      (total total' : ℤ)
      → create t events e w ≡ (ok tt, v)
      → is_string_empty (t.uuid_text opts.organization_id) ≡ false
      → opts.paginator ≡ page_of (suc n) (suc p)
      → p < 2 ^ 63
      → p * suc n < 2 ^ 63
      → list_all t events opts w ≡ ok (found, total)
      → list_all t events opts v ≡ ok (found', total')
      → (e.organization_id ≢ opts.organization_id → (found' ≡ found) × (total' ≡ total))
        × (e.organization_id ≡ opts.organization_id
            → opts ≡ unfiltered opts.organization_id opts.paginator
            → (k : ℕ) × (total ≡ pos k) × (total' ≡ pos (suc k)))
  unfolding create
  list_all-create e opts n p w v found found' total total' stored named asked small fits before
        after =
      let (own, page, size) =
        events-list_all_isolated t events rows sorted set table by_organization opts n p w found
          total named asked small fits before in
      let (own', page', size') =
        events-list_all_isolated t events rows sorted set table by_organization opts n p v found'
          total' named asked small fits after in
      let (row, its_own, grown) = inserts e w v stored in
      (
        λ differs.
            let same = ap (sorted "created_at DESC") (
              in_front opts row w v false grown
                (not_matched opts row named (λ same. differs (sym its_own ∙ same)))) in
            (
              page' ∙ ap (page_rows (page_of (suc n) (suc p))) same ∙ sym page,
              size' ∙ ap (λ xs. pos (length xs)) same ∙ sym size,
            ),
        λ mine plain.
            let matched =
              ap (λ o. matches events.holds (event_conditions t o) row) plain
              ∙ matches-unfiltered opts.organization_id opts.paginator row named (its_own ∙ mine) in
            let longer =
              table.length-sorted "created_at DESC" _
              ∙ ap length (in_front opts row w v true grown matched)
              ∙ ap suc (sym (table.length-sorted "created_at DESC" _)) in
            (_, size, size' ∙ ap pos longer),
      )
