-- ===== src/EventHandlers/Isolation.antt =====
-- What a listing of events shows, from the middlewares of its route to the rows of the table.
use Prim.Native.String.{String}
use logtrace_backend.Common.{
  ℕ, suc, ◌*◌, ◌^◌, ◌<◌, ◌≡◌, refl, sym, ap, ◌∙◌, subst, true, false, Option, some, List, [], ◌∷◌,
  map, length, All, arith, ◌==◌, nat_eq, inl, inr,
}
use logtrace_backend.Common.Int.{ℤ, pos}
use logtrace_backend.GoText.{is_string_empty}
use logtrace_backend.Paginator.{paginator_from_request}
use logtrace_backend.Paginator.Pages.{page_of, page_rows}
use logtrace_backend.Domain.{Uuid, Time, Organization, ok, Result-cases}
use logtrace_backend.Http.{Request, Context, next, reply, success_with, empty_context, ◌>>=◌}
use logtrace_backend.Repositories.{JwTokenManager, UserRepository, OrganizationRepository}
use logtrace_backend.Middleware.{
  find_organization_by_id, protected, subscription_exempt, should_skip_organization_selection,
}
use logtrace_backend.Middleware.Gates.{IsPlaced, IsAuthenticated, protected_sound}
use logtrace_backend.Sql.{uuid, Predicate, Table, Texts}
use logtrace_backend.Sql.Laws.{IsTable}
use logtrace_backend.Trail.{Event}
use logtrace_backend.Stores.Events.{list_all}
use logtrace_backend.Stores.Events.Isolation.{all_rows, events-list_all_isolated}
use logtrace_backend.EventHandlers.{
  EventServices, EventPage, list_options, event_response, event_page, list_all_events,
}

-- The listing is not exempt from the check of the subscription.
listing_is_protected : subscription_exempt "/v1/events" "GET" ≡ false
unfolding subscription_exempt should_skip_organization_selection
listing_is_protected = refl

small_of_product : (n p : ℕ) → p * suc n < 2 ^ 63 → p < 2 ^ 63
small_of_product n p h = grind arith

module _ (t : Texts) {W : Type 0} (events : Table Event W) (services : EventServices W) where
  abbrev pub over_events : EventServices W
  over_events = record services { events = record services.events { list_all = list_all t events } }

  -- A listing that is answered was one call of the store, for the organization in the context.
  listing_calls :
      (ctx : Context) (r : Request) (org : Organization) (page : EventPage) (w w' : W)
      → ctx.organization ≡ some (some org)
      → list_all_events over_events ctx r w
        ≡ (reply (success_with 200 "Events fetched successfully" page), w')
      → (found : List Event) × (total : ℤ) × (list_all t events (list_options r org.id) w
          ≡ ok (found, total))
        × (page ≡ event_page (list_options r org.id) (found, total))
        × (w' ≡ w)
  unfolding list_all_events ◌>>=◌
  listing_calls ctx r org page w w' held h =
      elim (Result-cases (list_all t events (list_options r org.id) w)) [
        | inr (e, f) ↦ absurd (ground arith)
        | inl ((found, total), f) ↦ (found, total, f, ground arith, ground arith)
      ]

module _ (parse_uuid : String → Option Uuid) (t : Texts) {W : Type 0} (jwt : JwTokenManager)
    (users : UserRepository W) (orgs : OrganizationRepository W) (events : Table Event W)
    (services : EventServices W) (rows : W → List Event) (sorted : String → List Event → List Event)
    (set : List Predicate → Event → Event) (table : IsTable events rows sorted set)
    (by_organization : (org : Uuid) (e : Event)
      → events.holds (record { clause = "organization_id = ?"; args = uuid org ∷ [] }) e
        ≡ (e.organization_id == org))
    (uuid_given : (id : Uuid) → is_string_empty (t.uuid_text id) ≡ false)
    (organization_found : (id : Uuid) (o : Organization) (w : W)
      → orgs.list (find_organization_by_id id) w ≡ ok o
      → o.id ≡ id) where
  -- What a listing shows: a page of the matching events of one organization of the user, which pays
  -- for it.
  pub record IsOwnPage (now : Time) (ctx : Context) (r : Request) (w : W) (page : EventPage)
      : Type 0 where
    pub auth : IsAuthenticated parse_uuid jwt users orgs now r w ctx
    pub placed : IsPlaced parse_uuid jwt users orgs w auth.user ctx
    pub active : placed.organization.is_subscription_active ≡ true
    pub found : List Event
    pub own : All (λ e. e.organization_id ≡ placed.selected) found
    pub cut :
        found
        ≡ page_rows (paginator_from_request (r.query "page") (r.query "per_page")) (
            all_rows t events rows sorted set table by_organization
              (list_options r placed.selected)
              w)
    pub events_shown : page.events ≡ map event_response found
    pub total_shown :
        page.total
        ≡ pos (
            length (
              all_rows t events rows sorted set table by_organization
                (list_options r placed.selected)
                w))

  -- A request to GET /v1/events that passes its middlewares and is answered with a page, whose offset
  -- fits in int64, shows events of one organization alone: one that the user of its token belongs
  -- to and whose subscription is active. The page is the one that the query asks for of the matching
  -- events of the table, the total is their number, and nothing is written.
  pub list_all_events-IsOwnPage :
      (now : Time) (ctx : Context) (r : Request) (n p : ℕ) (page : EventPage) (w w₁ w₂ : W)
      → r.path ≡ "/v1/events"
      → r.method ≡ "GET"
      → paginator_from_request (r.query "page") (r.query "per_page") ≡ page_of (suc n) (suc p)
      → p * suc n < 2 ^ 63
      → protected parse_uuid jwt users orgs now empty_context r w ≡ (next ctx, w₁)
      → list_all_events (over_events t events services) ctx r w₁
        ≡ (reply (success_with 200 "Events fetched successfully" page), w₂)
      → (w₂ ≡ w) × IsOwnPage now ctx r w page
  unfolding list_options event_page
  list_all_events-IsOwnPage now ctx r n p page w w₁ w₂ path method asked fits passed answered =
      let needed : subscription_exempt r.path r.method ≡ false =
        ap (λ x. subscription_exempt x r.method) path
        ∙ ap (subscription_exempt "/v1/events") method
        ∙ listing_is_protected in
      let (kept, auth, placed, active) =
        protected_sound parse_uuid jwt users orgs now empty_context ctx r w w₁ needed passed in
      let org = placed.organization in
      let named = organization_found placed.selected org w placed.found in
      let (found, total, called, shown, kept') =
        listing_calls t events services ctx r org page w₁ w₂ placed.stored answered in
      let at_selected =
        subst (λ i. list_all t events (list_options r i) w₁ ≡ ok (found, total)) named called in
      let at_start =
        subst (λ v. list_all t events (list_options r placed.selected) v ≡ ok (found, total)) kept
          at_selected in
      let (own, cut, counted) =
        events-list_all_isolated t events rows sorted set table by_organization
          (list_options r placed.selected) n p w found total (uuid_given placed.selected) asked
          (small_of_product n p fits) fits at_start in
      let rows_asked =
        all_rows t events rows sorted set table by_organization (list_options r placed.selected)
          w in
      (
        kept' ∙ kept,
        record {
          auth = auth;
          placed = placed;
          active = active;
          found = found;
          own = own;
          cut = cut ∙ ap (λ q. page_rows q rows_asked) (sym asked);
          events_shown = ap (λ x. x.events) shown;
          total_shown = ap (λ x. x.total) shown ∙ counted;
        },
      )
