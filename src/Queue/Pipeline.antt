-- ===== src/Queue/Pipeline.antt =====
-- The way of an event from the handler over the queue to the repository.
use logtrace_backend.Common.{◌≡◌, refl, ap, Option, some, ◌⊎◌, inl, inr}
use logtrace_backend.Domain.{ok, Organization}
use logtrace_backend.Http.{Context, NoBody, Step, reply, success}
use logtrace_backend.Http.Rules.{
  Ends, Ends-present, Ends-deref, Ends-settle, Ends-read, Ends-run, Ends-respond,
}
use logtrace_backend.Repositories.{Message, OrganizationUser}
use logtrace_backend.OrganizationUsers.Registered.{IsRegistered, Ends-with_organization_user}
use logtrace_backend.Trail.{Event}
use logtrace_backend.EventHandlers.{
  EventServices, CreateEventRequest, validate_event, new_event, find_options_of,
  organization_user_of, enqueue_event, create_event,
}
use logtrace_backend.Queue.{
  Client, Consumer, queue_topic_save_event, add, route, save_event, topic_of,
}

module _ {Payload W : Type 0} (c : Client Payload W) (services : EventServices W)
    (reads_back : (e : Event)
      → c.codec.decode_event (c.codec.encode (Message.save_event e)) ≡ ok e) where
  abbrev pub over_queue : EventServices W
  over_queue = record services { queue = record { add = add c } }

  -- The consumer of the topic stores what stands behind the payload, in any world.
  abbrev pub Stores : Payload → Event → Type 0
  Stores payload event =
      (consumer : Consumer Payload W) × (route c queue_topic_save_event ≡ some consumer)
      × ((v : W) → consumer payload v ≡ c.create_event event v)

  save_event-Stores : (event : Event) → Stores (c.codec.encode (Message.save_event event)) event
  unfolding route save_event
  save_event-Stores event = (_, refl, λ v. rw (reads_back event) refl)

  -- The event of a request, for the organization in the context: its user is known or was created, and
  -- it is published as a payload that the consumer stores as this event.
  pub record IsPublished (ctx : Context) (bound : Option CreateEventRequest) (w w' : W)
      : Type 0 where
    pub req : CreateEventRequest
    pub org : Organization
    pub user : Option OrganizationUser
    pub before_queue : W
    pub payload : Payload
    pub bound_to : bound ≡ some req
    pub valid : validate_event req ≡ ok tt
    pub in_context : ctx.organization ≡ some (some org)
    pub event : Event
    pub made :
        event ≡ new_event req (services.geo_ip_lookup req.request_details.ip_address w) org.id
    pub registered :
        IsRegistered services.org_users
          (find_options_of event)
          (organization_user_of event)
          w
          user
          before_queue
    pub published : c.publish queue_topic_save_event payload before_queue ≡ (ok tt, w')
    pub stored : Stores payload event

  abbrev Accepted : Step NoBody ⊥ → Type 0
  Accepted step = step ≡ reply (success 202 "Event accepted for processing")

  abbrev Outcome : Context → Option CreateEventRequest → W → Step NoBody ⊥ → W → Type 0
  Outcome ctx bound w step w' = (¬ Accepted step) ⊎ IsPublished ctx bound w w'

  enqueue_event-Ends :
      (ctx : Context) (bound : Option CreateEventRequest) (w v : W) (event : Event)
      → ((w' : W)
          → c.publish queue_topic_save_event (c.codec.encode (Message.save_event event)) v
            ≡ (ok tt, w')
          → IsPublished ctx bound w w')
      → Ends (Outcome ctx bound w) (enqueue_event over_queue event) v
  unfolding enqueue_event add topic_of
  enqueue_event-Ends ctx bound w v event done =
      Ends-run _ _ (λ e f. inl (λ h. cc))
        (λ f.
          Ends-respond _ (inr (done _ (ap (λ x. (x, (add c (Message.save_event event) v).1)) f))))

  create_event-Ends :
      (ctx : Context) (bound : Option CreateEventRequest) (w : W)
      → Ends (Outcome ctx bound w) (create_event over_queue ctx bound) w
  unfolding create_event
  create_event-Ends ctx bound w =
      let made_event : CreateEventRequest → Organization → Event =
        λ req org. new_event req (services.geo_ip_lookup req.request_details.ip_address w) org.id in
      Ends-present bound _ (inl (λ h. cc)) λ req bound_to.
        Ends-settle _ _ (λ e f. inl (λ h. cc))
          λ u valid. Ends-read _ _ (
            Ends-deref ctx.organization (inl (λ h. cc)) λ pointer held.
              Ends-deref pointer (inl (λ h. cc)) λ org some_org.
                Ends-with_organization_user services.org_users _ _ _ w (inl (λ h. cc))
                  (λ v. inl (λ h. cc))
                  λ user v registered.
                    enqueue_event-Ends ctx bound w v (made_event req org) λ w' published. record {
                      req = req;
                      org = org;
                      user = user;
                      before_queue = v;
                      payload = c.codec.encode (Message.save_event (made_event req org));
                      bound_to = bound_to;
                      valid = valid;
                      in_context = cc;
                      event = made_event req org;
                      made = refl;
                      registered = registered;
                      published = published;
                      stored = save_event-Stores _;
                    })

  -- An event that is accepted was valid and is published for the organization in the context, with a
  -- payload that the consumer of its topic stores as the event of the request.
  pub create_event-IsPublished :
      (ctx : Context) (bound : Option CreateEventRequest) (w : W)
      → (create_event over_queue ctx bound w).0
        ≡ reply (success 202 "Event accepted for processing")
      → IsPublished ctx bound w (create_event over_queue ctx bound w).1
  create_event-IsPublished ctx bound w h = elim (create_event-Ends ctx bound w).at [
    | inl refused ↦ absurd (refused h)
    | inr done ↦ done
  ]
