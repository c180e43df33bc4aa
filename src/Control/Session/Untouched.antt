-- ===== src/Control/Session/Untouched.antt =====
-- A session's own handlers leave the instances as they are.
use mspsql.Base.{ℕ, String, ◌≡◌, refl, ◌∙◌, ap, inl, inr, Option, none, some, Option-cases, arith}
use mspsql.Api.Meta.{ConditionApi}
use mspsql.Api.Site.{SiteRegistration}
use mspsql.Plan.{Bytes}
use mspsql.Control.{Hub, HubCalls, Outcome, done, failed, HubText, get_object}
use mspsql.Control.Dispatch.{Stream}
use mspsql.Control.Session.{
  AgentHello, Peer, PeerCertificate, Authority, CertificateSigningRequest, validate_peer_identity,
  write_changed, update_site_status, by_uid, bind_status, bind_site, open_session, heartbeat_status,
  identity_status, inventory_status, rotate_certificate, record_heartbeat, record_inventory,
}
use mspsql.Control.Session.Binding.{
  bound_as-hub, only_error-hub, rotate_certificate-hub, record_inventory-hub,
}

write_changed-instances :
    (calls : HubCalls) (name : String) (hub : Hub) (changed : Outcome SiteRegistration)
    → (write_changed calls name hub changed).0.instances ≡ hub.instances
unfolding write_changed
write_changed-instances calls name hub (failed e) = refl
write_changed-instances calls name hub (done new) = ground arith

update_site_status-instances :
    (hub : Hub) (calls : HubCalls) (name : String)
    (mutate : SiteRegistration → Outcome SiteRegistration)
    → (update_site_status hub calls name mutate).0.instances ≡ hub.instances
unfolding update_site_status
update_site_status-instances hub calls name mutate =
    elim (Option-cases (get_object (λ (r : SiteRegistration). r.meta) hub.registrations "" name)) [
      | inl missing_here ↦ ground arith
      | inr (old, found) ↦
          let written = write_changed-instances calls name hub (mutate old) in
          ground (arith, written)
    ]

module _ (api : ConditionApi) where
  pub rotate_certificate-instances :
      (authority : Authority) (hub : Hub) (calls : HubCalls) (site : SiteRegistration)
      (request : CertificateSigningRequest) (st : Stream)
      → (rotate_certificate api authority hub calls site request st).0.0.instances ≡ hub.instances
  rotate_certificate-instances authority hub calls site request st =
      elim (rotate_certificate-hub api authority hub calls site request st) [
        | inl same ↦ ap (λ (h : Hub). h.instances) same
        | inr written ↦
            ap (λ (h : Hub). h.instances) written
            ∙ update_site_status-instances hub calls site.meta.name (identity_status api)
      ]

  pub record_heartbeat-instances :
      (hub : Hub) (calls : HubCalls) (name : String) (now : ℕ)
      → (record_heartbeat api hub calls name now).0.instances ≡ hub.instances
  unfolding record_heartbeat
  record_heartbeat-instances hub calls name now =
      ap (λ (h : Hub). h.instances)
        (only_error-hub api (update_site_status hub calls name (heartbeat_status api now)))
      ∙ update_site_status-instances hub calls name (heartbeat_status api now)

  pub record_inventory-instances :
      (authority : Authority) (hub : Hub) (calls : HubCalls) (name : String) (json : Bytes)
      → (record_inventory api authority hub calls name json).0.instances ≡ hub.instances
  record_inventory-instances authority hub calls name json =
      elim (record_inventory-hub api authority hub calls name json) [
        | inl same ↦ ap (λ (h : Hub). h.instances) same
        | inr (inventory, written) ↦
            ap (λ (h : Hub). h.instances) written
            ∙ update_site_status-instances hub calls name (inventory_status api inventory)
      ]

  bind_site-instances :
      (text : HubText) (hub : Hub) (calls : HubCalls) (hello : AgentHello) (not_after now : ℕ)
      → (bind_site api text hub calls hello not_after now).0.instances ≡ hub.instances
  unfolding bind_site
  bind_site-instances text hub calls hello not_after now =
      elim (Option-cases (by_uid hub.registrations hello.registration_uid)) [
        | inl none_found ↦ ground arith
        | inr (site, found) ↦
            let mutate = bind_status api hello not_after now in
            let updated = update_site_status hub calls site.meta.name mutate in
            let written =
              ap (λ (h : Hub). h.instances) (bound_as-hub api text.failure_text updated)
              ∙ update_site_status-instances hub calls site.meta.name mutate in
            ground (arith, written)
      ]

  pub open_session-instances :
      (text : HubText) (hub : Hub) (calls : HubCalls) (hello : Option AgentHello) (peer : Peer)
      (now : ℕ)
      → (open_session api text hub calls hello peer now).0.instances ≡ hub.instances
  unfolding open_session
  open_session-instances text hub calls none peer now = refl
  open_session-instances text hub calls (some hello) peer now =
      by_peer (validate_peer_identity peer hello.registration_uid) refl
    where
      by_peer :
          (checked : Outcome PeerCertificate)
          → validate_peer_identity peer hello.registration_uid ≡ checked
          → (open_session api text hub calls (some hello) peer now).0.instances ≡ hub.instances
      by_peer (failed e) h = ground arith
      by_peer (done certificate) h =
          let bound = bind_site-instances text hub calls hello certificate.not_after now in
          ground (arith, bound)
