-- ===== src/SessionHandlers/Recording.antt =====
-- What the creation of a session puts on the queue.
use logtrace_backend.Common.{◌≡◌, refl, ap, Option, some, ◌⊎◌, inl, inr}
use logtrace_backend.Domain.{Time, ok, Organization}
use logtrace_backend.Http.{Context, NoBody, Step, reply, success}
use logtrace_backend.Http.Rules.{
  Ends, Ends-present, Ends-deref, Ends-settle, Ends-read, Ends-run, Ends-respond,
}
use logtrace_backend.Repositories.{OrganizationUser, save_session}
use logtrace_backend.OrganizationUsers.Registered.{IsRegistered, Ends-with_organization_user}
use logtrace_backend.Trail.{Session}
use logtrace_backend.SessionHandlers.{
  Tools, SessionServices, SessionRequest, validate_session, find_options_of, organization_user_of,
  new_session, enqueue, enqueue_for_user, create_session,
}

module _ {W : Type 0} (tools : Tools W) (s : SessionServices W) where
  abbrev Accepted : Step NoBody ⊥ → Type 0
  Accepted step = step ≡ reply (success 202 "Session accepted for processing")

  -- The session of the request that is on the queue, for the organization in the context, and the
  -- user of the organization that it was recorded for, who was there or was created first.
  pub record IsRecorded (ctx : Context) (bound : Option SessionRequest) (w w' : W) : Type 0 where
    pub req : SessionRequest
    pub org : Organization
    pub login_at : Time
    pub session : Session
    pub before_queue : W
    pub bound_to : bound ≡ some req
    pub valid : validate_session req ≡ ok tt
    pub in_context : ctx.organization ≡ some (some org)
    pub parsed_time : tools.parse_login_at req.login_at ≡ some login_at
    pub made :
        session
        ≡ new_session tools s req
            (tools.geo_ip_lookup req.request_details.ip_address w)
            login_at
            org.id
    pub user : Option OrganizationUser
    pub registered :
        IsRegistered s.org_users
          (find_options_of session)
          (organization_user_of session)
          w
          user
          before_queue
    pub queued : s.queue.add (save_session session) before_queue ≡ (ok tt, w')

  abbrev Outcome : Context → Option SessionRequest → W → Step NoBody ⊥ → W → Type 0
  Outcome ctx bound w step w' = (¬ Accepted step) ⊎ IsRecorded ctx bound w w'

  module _ (ctx : Context) (bound : Option SessionRequest) (w : W) (session : Session) where
    enqueue-Ends :
        (v : W)
        → ((w' : W)
            → s.queue.add (save_session session) v ≡ (ok tt, w')
            → IsRecorded ctx bound w w')
        → Ends (Outcome ctx bound w) (enqueue tools s session) v
    unfolding enqueue
    enqueue-Ends v done =
        Ends-run _ _ (λ e f. inl (λ h. cc))
          (λ f.
            Ends-respond _
              (inr (done _ (ap (λ x. (x, (s.queue.add (save_session session) v).1)) f))))

    enqueue_for_user-Ends :
        ((user : Option OrganizationUser) (v w' : W)
          → IsRegistered s.org_users
              (find_options_of session)
              (organization_user_of session)
              w
              user
              v
          → s.queue.add (save_session session) v ≡ (ok tt, w')
          → IsRecorded ctx bound w w')
        → Ends (Outcome ctx bound w) (enqueue_for_user tools s session) w
    unfolding enqueue_for_user
    enqueue_for_user-Ends done =
        Ends-with_organization_user s.org_users _ _ _ w (inl (λ h. cc)) (λ v. inl (λ h. cc))
          λ user v registered. enqueue-Ends v (λ w'. done user v w' registered)

  create_session-Ends :
      (ctx : Context) (bound : Option SessionRequest) (w : W)
      → Ends (Outcome ctx bound w) (create_session tools s ctx bound) w
  unfolding create_session
  create_session-Ends ctx bound w = Ends-present bound _ (inl (λ h. cc)) λ req bound_to.
      Ends-settle _ _ (λ e f. inl (λ h. cc))
        λ u valid. Ends-read _ _ (
          Ends-present _ _ (inl (λ h. cc)) λ login_at parsed_time.
            Ends-deref ctx.organization (inl (λ h. cc)) λ pointer held.
              Ends-deref pointer (inl (λ h. cc)) λ org some_org.
                enqueue_for_user-Ends ctx bound w _ λ user v w' registered queued. record {
                  req = req;
                  org = org;
                  login_at = login_at;
                  session = _;
                  before_queue = v;
                  bound_to = bound_to;
                  valid = valid;
                  in_context = cc;
                  parsed_time = parsed_time;
                  made = refl;
                  user = user;
                  registered = registered;
                  queued = queued;
                })

  -- A session that is accepted is on the queue with the organization in the context and what the
  -- request says of it, its user is known to the organization or was created first, and its status
  -- and its time of login are valid.
  pub create_session-IsRecorded :
      (ctx : Context) (bound : Option SessionRequest) (w : W)
      → (create_session tools s ctx bound w).0
        ≡ reply (success 202 "Session accepted for processing")
      → IsRecorded ctx bound w (create_session tools s ctx bound w).1
  create_session-IsRecorded ctx bound w h = elim (create_session-Ends ctx bound w).at [
    | inl refused ↦ absurd (refused h)
    | inr done ↦ done
  ]
