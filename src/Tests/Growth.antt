-- ===== src/Tests/Growth.antt =====
-- An event that is stored in a table in memory, and the listings before and after.
use logtrace_backend.Common.{◌≡◌, ◌≢◌, refl, ap, sym, List, ◌∷◌, arith, nat_eq, ℕ, suc}
use logtrace_backend.Common.Int.{pos, ◌-ℤ◌, ◌*ℤ◌, wrap}
use logtrace_backend.GoText.{is_string_empty, is_space, trim_space, trim_left, trim_right}
use logtrace_backend.Paginator.{offset}
use logtrace_backend.Domain.{ok}
use logtrace_backend.Sql.{where_given, where_dates, where_search}
use logtrace_backend.Sql.Laws.{matches}
use logtrace_backend.Trail.{Event}
use logtrace_backend.Stores.Events.{create, list_all, event_conditions, where_status}
use logtrace_backend.Stores.Events.Growth.{unfiltered, list_all-create}
use logtrace_backend.Tests.Library.{unary}
use logtrace_backend.Tests.Memory.{memory_laws}
use logtrace_backend.Tests.Trail.{
  texts, uuid_text_given, owned_by, event_of, all_events, event_table, found_events, of_three,
  lists_events,
}

abbrev more_events : List Event
more_events = event_of 3 ∷ all_events

stores_event : create texts event_table (event_of 3) all_events ≡ (ok tt, more_events)
unfolding create
stores_event = refl

lists_more : list_all texts event_table of_three more_events ≡ ok (event_of 3 ∷ found_events, pos 3)
unfolding list_all event_conditions where_status where_given where_dates where_search matches unary
    is_string_empty trim_space trim_left trim_right is_space offset ◌-ℤ◌ ◌*ℤ◌ wrap
lists_more = refl

list_all-create_example :
    ((event_of 3).organization_id ≢ of_three.organization_id
      → (event_of 3 ∷ found_events ≡ found_events) × (pos 3 ≡ pos 2))
    × ((event_of 3).organization_id ≡ of_three.organization_id
        → of_three ≡ unfiltered 3 of_three.paginator
        → (k : ℕ) × (pos 2 ≡ pos k) × (pos 3 ≡ pos (suc k)))
list_all-create_example =
    list_all-create texts event_table (λ w. w) (λ order rs. rs) (λ assignments e. e)
      (memory_laws (owned_by (λ e. e.organization_id)) (λ assignments e. e)) (λ org e. refl)
      (λ e w w' h. (e, refl, sym (ap (λ x. x.1) h))) (event_of 3) of_three 19 0 all_events
      more_events found_events (event_of 3 ∷ found_events) (pos 2) (pos 3) stores_event
      (uuid_text_given 3) refl (omega arith) (omega arith) lists_events lists_more
