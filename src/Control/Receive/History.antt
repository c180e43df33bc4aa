-- ===== src/Control/Receive/History.antt =====
-- Any history of the control server: sessions that open, messages that they bring and rounds of
-- sending, of any sites, in any order, and with any calls that fail.
use mspsql.Base.{ℕ, ℤ, String, false, ◌≡◌, Option, List, [], ◌∷◌, sym, subst, All, ◌==◌}
use mspsql.Api.Meta.{ConditionApi}
use mspsql.Api.Site.{SiteRegistration}
use mspsql.Plan.{Crypto, Codec, SitePlan}
use mspsql.Directive.{Payload}
use mspsql.Control.{Hub, HubCalls, HubText}
use mspsql.Control.Dispatch.{Stream}
use mspsql.Control.Session.{AgentHello, Peer, Authority, open_session}
use mspsql.Control.Session.Binding.{
  IsBound, open_session-IsBound, rotate_certificate-IsBound, record_heartbeat-IsBound,
  record_inventory-IsBound,
}
use mspsql.Control.Receive.{
  AgentMessage, signing_request, heartbeat, acknowledgement, progress, result_message, inventory,
  other_message, Input, received, tick, receive_message, session_step,
}
use mspsql.Control.Receive.Keeping.{
  OnSites, InSites, Keeps, record_acknowledgement-Keeps, record_progress-Keeps,
}
use mspsql.Control.Receive.Outcomes.{record_result-Keeps}
use mspsql.Control.Session.Untouched.{
  rotate_certificate-instances, record_heartbeat-instances, record_inventory-instances,
  open_session-instances,
}
use mspsql.Control.Receive.Revisions.{
  IsWithin, stamped-IsWithin, acknowledge-IsWithin, take_progress-IsWithin, take_result-IsWithin,
}

-- A session that opens, or a step of one that is open, with its site and its stream.
pub data Event : Type 0 where
  opens : HubCalls → Option AgentHello → Peer → ℕ → Event
  steps : HubCalls → SiteRegistration → Stream → ℤ → ℕ → Input → Event

module _ (api : ConditionApi) (text : HubText) (crypto : Crypto) (plans : Codec SitePlan)
    (payloads : Codec Payload) (authority : Authority) where
  -- What the API server holds after an event, and after any events.
  unfoldable pub after_event : Event → Hub → Hub
  unfolding open_session session_step
  after_event (opens calls hello peer now) hub = (open_session api text hub calls hello peer now).0
  after_event (steps calls site st configured now input) hub =
      (session_step api text crypto plans payloads authority calls site configured now input
        (hub, st)).0.0

  unfoldable pub after_events : List Event → Hub → Hub
  unfolding after_event
  after_events [] hub = hub
  after_events (event ∷ events) hub = after_events events (after_event event hub)

  after_events_keep :
      (P : Hub → Type 0)
      → ((event : Event) (hub : Hub) → P hub → P (after_event event hub))
      → (events : List Event) (hub : Hub) → P hub
      → P (after_events events hub)
  unfolding after_events
  after_events_keep P step [] hub h = h
  after_events_keep P step (event ∷ events) hub h =
      after_events_keep P step events (after_event event hub) (step event hub h)

  Keeps-IsBound :
      (name cluster : String) (hub next : Hub)
      → Keeps (λ s. Unit) (λ generation s h. tt) hub next
      → IsBound name cluster hub
      → IsBound name cluster next
  Keeps-IsBound name cluster hub next same (site, held, bound) =
      (site, rw same.same_registrations held, bound)

  receive_message-IsBound :
      (name cluster : String) (calls : HubCalls) (site : SiteRegistration) (now : ℕ)
      (m : AgentMessage) (hub : Hub) (st : Stream)
      → IsBound name cluster hub
      → IsBound name cluster
          (receive_message api text crypto plans payloads authority calls site now m (hub, st)).0.0
  unfolding receive_message
  receive_message-IsBound name cluster calls site now (signing_request r) hub st bound =
      rotate_certificate-IsBound api name cluster authority hub calls site r st bound
  receive_message-IsBound name cluster calls site now heartbeat hub st bound =
      record_heartbeat-IsBound api name cluster hub calls site.meta.name now bound
  receive_message-IsBound name cluster calls site now (acknowledgement a) hub st bound =
      Keeps-IsBound name cluster hub _
        (record_acknowledgement-Keeps (λ s. Unit) (λ generation s h. tt) api text hub calls
          site.meta.name a (λ s h. tt))
        bound
  receive_message-IsBound name cluster calls site now (progress p) hub st bound =
      Keeps-IsBound name cluster hub _
        (record_progress-Keeps (λ s. Unit) (λ generation s h. tt) api text hub calls site.meta.name
          p now (λ s h. tt))
        bound
  receive_message-IsBound name cluster calls site now (result_message r) hub st bound =
      Keeps-IsBound name cluster hub _
        (record_result-Keeps (λ s. Unit) (λ generation s h. tt) api text hub calls site.meta.name r
          now (λ s h. tt))
        bound
  receive_message-IsBound name cluster calls site now (inventory json) hub st bound =
      record_inventory-IsBound api name cluster authority hub calls site.meta.name json bound
  receive_message-IsBound name cluster calls site now other_message hub st bound = bound

  after_event-IsBound :
      (name cluster : String)
      → (cluster == "") ≡ false
      → (event : Event) (hub : Hub) → IsBound name cluster hub
      → IsBound name cluster (after_event event hub)
  unfolding after_event session_step
  after_event-IsBound name cluster set (opens calls hello peer now) hub bound =
      open_session-IsBound api text name cluster hub calls hello peer now set bound
  after_event-IsBound name cluster set (steps calls site st configured now (received m)) hub bound =
      receive_message-IsBound name cluster calls site now m hub st bound
  after_event-IsBound name cluster set (steps calls site st configured now tick) hub bound = bound

  -- A registration that is bound to a cluster (a UID that is not empty) stays bound to it, whatever
  -- sessions open and whatever their messages say.
  pub binding_is_permanent :
      (name cluster : String) (events : List Event) (hub : Hub)
      → (cluster == "") ≡ false
      → IsBound name cluster hub
      → IsBound name cluster (after_events events hub)
  binding_is_permanent name cluster events hub set bound =
      after_events_keep (IsBound name cluster) (after_event-IsBound name cluster set) events hub
        bound

  receive_message-IsWithin :
      (calls : HubCalls) (site : SiteRegistration) (now : ℕ) (m : AgentMessage) (hub : Hub)
      (st : Stream)
      → InSites IsWithin stamped-IsWithin hub
      → InSites IsWithin stamped-IsWithin
          (receive_message api text crypto plans payloads authority calls site now m (hub, st)).0.0
  unfolding receive_message
  receive_message-IsWithin calls site now (signing_request r) hub st h =
      subst (All (OnSites IsWithin stamped-IsWithin))
        (sym (rotate_certificate-instances api authority hub calls site r st)) h
  receive_message-IsWithin calls site now heartbeat hub st h =
      subst (All (OnSites IsWithin stamped-IsWithin))
        (sym (record_heartbeat-instances api hub calls site.meta.name now)) h
  receive_message-IsWithin calls site now (acknowledgement a) hub st h =
      (record_acknowledgement-Keeps IsWithin stamped-IsWithin api text hub calls site.meta.name a
          (acknowledge-IsWithin api text a)).keeps_sites
        h
  receive_message-IsWithin calls site now (progress p) hub st h =
      (record_progress-Keeps IsWithin stamped-IsWithin api text hub calls site.meta.name p now
          (take_progress-IsWithin api text p now)).keeps_sites
        h
  receive_message-IsWithin calls site now (result_message r) hub st h =
      (record_result-Keeps IsWithin stamped-IsWithin api text hub calls site.meta.name r now
          (take_result-IsWithin api text r)).keeps_sites
        h
  receive_message-IsWithin calls site now (inventory json) hub st h =
      subst (All (OnSites IsWithin stamped-IsWithin))
        (sym (record_inventory-instances api authority hub calls site.meta.name json)) h
  receive_message-IsWithin calls site now other_message hub st h = h

  after_event-IsWithin :
      (event : Event) (hub : Hub)
      → InSites IsWithin stamped-IsWithin hub
      → InSites IsWithin stamped-IsWithin (after_event event hub)
  unfolding after_event session_step
  after_event-IsWithin (opens calls hello peer now) hub h =
      subst (All (OnSites IsWithin stamped-IsWithin))
        (sym (open_session-instances api text hub calls hello peer now)) h
  after_event-IsWithin (steps calls site st configured now (received m)) hub h =
      receive_message-IsWithin calls site now m hub st h
  after_event-IsWithin (steps calls site st configured now tick) hub h = h

  -- Where no site of an instance has acknowledged or applied a revision beyond the desired one, none
  -- ever has, whatever revisions the sites report.
  pub revisions_stay_within :
      (events : List Event) (hub : Hub)
      → InSites IsWithin stamped-IsWithin hub
      → InSites IsWithin stamped-IsWithin (after_events events hub)
  revisions_stay_within events hub h =
      after_events_keep (InSites IsWithin stamped-IsWithin) after_event-IsWithin events hub h
