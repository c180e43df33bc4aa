-- ===== src/Control/Session/Binding.antt =====
-- The cluster that a registration is bound to, over any sessions of any sites.
use mspsql.Base.{
  ℕ, String, false, ◌≡◌, refl, Option, none, some, ◌==◌, Bool-cases, ltb, length, ◌*◌, sym, subst,
  ◌⊎◌, Option-cases, inl, inr, eq_iff, arith,
}
use mspsql.Api.Meta.{ConditionApi, ObjectMeta}
use mspsql.Api.Site.{SiteRegistration}
use mspsql.Plan.{Bytes, protocol_version}
use mspsql.Control.{
  Hub, registration, HubCalls, Failure, Outcome, done, failed, HubText, named, get_object,
}
use mspsql.Control.Store.{get_object-named, get_object-put_object, get_object-put_object_other}
use mspsql.Control.Dispatch.{Stream}
use mspsql.Control.Session.{
  AgentHello, Peer, PeerCertificate, Authority, validate_peer_identity, write_site, write_changed,
  update_site_status, bind_status, bound_as, by_uid, bind_site, open_session, only_error, Inventory,
  CertificateSigningRequest, rotate_certificate, identity_status, heartbeat_status,
  inventory_status, record_heartbeat, record_inventory,
}

abbrev site_meta : SiteRegistration → ObjectMeta
site_meta r = r.meta

-- The registration of the name is bound to the cluster.
abbrev pub IsBound : String → String → Hub → Type 0
IsBound name cluster hub =
    (site : SiteRegistration) × (get_object (λ (r : SiteRegistration). r.meta) hub.registrations ""
        name
      ≡ some site)
    × (site.status.cluster_uid ≡ cluster)

-- A change of a site that keeps its name and, where it is bound to the cluster, the cluster.
abbrev pub KeepsCluster : String → (SiteRegistration → Outcome SiteRegistration) → Type 0
KeepsCluster cluster mutate =
    (old new : SiteRegistration)
    → mutate old ≡ done new
    → (new.meta ≡ old.meta) × (old.status.cluster_uid ≡ cluster → new.status.cluster_uid ≡ cluster)

write_site-IsBound :
    (name other cluster : String) (hub : Hub) (old new : SiteRegistration)
    → get_object site_meta hub.registrations "" other ≡ some old
    → new.meta ≡ old.meta
    → (old.status.cluster_uid ≡ cluster → new.status.cluster_uid ≡ cluster)
    → IsBound name cluster hub
    → IsBound name cluster (write_site hub new)
write_site-IsBound name other cluster hub old new found same keeps (site, held, bound) =
    let here = get_object-named site_meta hub.registrations "" other old found in
    elim (Bool-cases (named site_meta "" name new)) [
      | inr e ↦ (
        site,
        rw (get_object-put_object_other site_meta new hub.registrations "" name e) held,
        bound,
      )
      | inl e ↦ (
        new,
        get_object-put_object site_meta new hub.registrations "" name site held e,
        keeps (
            ground (
              arith,
              found,
              held,
              bound,
              here,
              e,
              same,
              eq_iff old.meta.name other,
              eq_iff new.meta.name name,
            )),
      )
    ]

write_changed-IsBound :
    (name other cluster : String) (hub : Hub) (calls : HubCalls) (old : SiteRegistration)
    (changed : Outcome SiteRegistration)
    → get_object site_meta hub.registrations "" other ≡ some old
    → ((new : SiteRegistration)
        → changed ≡ done new
        → (new.meta ≡ old.meta)
          × (old.status.cluster_uid ≡ cluster → new.status.cluster_uid ≡ cluster))
    → IsBound name cluster hub
    → IsBound name cluster (write_changed calls other hub changed).0
unfolding write_changed
write_changed-IsBound name other cluster hub calls old (failed e) found keeps bound = bound
write_changed-IsBound name other cluster hub calls old (done new) found keeps bound =
    let (same, cluster_kept) = keeps new refl in
    elim (Bool-cases (calls.update_fails registration other)) [
      | inl fails ↦ rw fails bound
      | inr writes ↦
          rw writes
            (write_site-IsBound name other cluster hub old new found same cluster_kept bound)
    ]

-- The update of a site's status, for a change that keeps the cluster.
pub update_site_status-IsBound :
    (name other cluster : String) (hub : Hub) (calls : HubCalls)
    (mutate : SiteRegistration → Outcome SiteRegistration)
    → KeepsCluster cluster mutate
    → IsBound name cluster hub
    → IsBound name cluster (update_site_status hub calls other mutate).0
unfolding update_site_status
update_site_status-IsBound name other cluster hub calls mutate keeps bound =
    elim (Bool-cases (calls.get_fails registration other)) [
      | inl fails ↦ rw (fails, update_site_status) bound
      | inr reads ↦ elim (Option-cases (get_object site_meta hub.registrations "" other)) [
        | inl missing_here ↦ rw (reads, update_site_status, missing_here) bound
        | inr (old, found) ↦
            rw (reads, update_site_status, found)
              (write_changed-IsBound name other cluster hub calls old (mutate old) found (keeps old)
                bound)
      ]
    ]

module _ (api : ConditionApi) where
  -- A hello binds no site that is bound to another cluster.
  bind_status-KeepsCluster :
      (cluster : String) (hello : AgentHello) (not_after now : ℕ)
      → (cluster == "") ≡ false
      → KeepsCluster cluster (bind_status api hello not_after now)
  unfolding bind_status
  bind_status-KeepsCluster cluster hello not_after now set old new h = (
    ground arith,
    λ bound.
        ground (
          arith,
          eq_iff old.status.cluster_uid hello.cluster_uid,
          eq_iff old.status.cluster_uid "",
        ),
  )

  pub bound_as-hub :
      (text : Failure → String) (r : Hub × Outcome SiteRegistration) → (bound_as api text r).0 ≡ r.0
  bound_as-hub text (hub, done site) = refl
  bound_as-hub text (hub, failed e) = refl

  pub bind_site-IsBound :
      (text : HubText) (name cluster : String) (hub : Hub) (calls : HubCalls) (hello : AgentHello)
      (not_after now : ℕ)
      → (cluster == "") ≡ false
      → IsBound name cluster hub
      → IsBound name cluster (bind_site api text hub calls hello not_after now).0
  unfolding bind_site
  bind_site-IsBound text name cluster hub calls hello not_after now set bound =
      elim (Bool-cases (calls.list_fails registration)) [
        | inl fails ↦ rw fails bound
        | inr listed ↦ elim (Option-cases (by_uid hub.registrations hello.registration_uid)) [
          | inl none_found ↦ rw (listed, none_found) bound
          | inr (site, found) ↦ elim (Bool-cases site.spec.revoked) [
            | inl revoked ↦ rw (listed, found, revoked) bound
            | inr active ↦
                rw (listed, found, active)
                  (rw
                    (bound_as-hub text.failure_text (
                      update_site_status hub calls site.meta.name
                        (bind_status api hello not_after now)))
                    (update_site_status-IsBound name site.meta.name cluster hub calls
                      (bind_status api hello not_after now)
                      (bind_status-KeepsCluster cluster hello not_after now set) bound))
          ]
        ]
      ]

  pub open_session-IsBound :
      (text : HubText) (name cluster : String) (hub : Hub) (calls : HubCalls)
      (hello : Option AgentHello) (peer : Peer) (now : ℕ)
      → (cluster == "") ≡ false
      → IsBound name cluster hub
      → IsBound name cluster (open_session api text hub calls hello peer now).0
  unfolding open_session
  open_session-IsBound text name cluster hub calls none peer now set bound = bound
  open_session-IsBound text name cluster hub calls (some hello) peer now set bound =
      elim (Bool-cases (hello.protocol_version == protocol_version)) [
        | inr other ↦ rw other bound
        | inl same ↦ rw same (by_peer (validate_peer_identity peer hello.registration_uid))
      ]
    where
      by_peer :
          (checked : Outcome PeerCertificate)
          → IsBound name cluster
              (elim checked as (λ _. Hub × Outcome SiteRegistration) [
                | failed e ↦ (hub, failed e)
                | done certificate ↦ bind_site api text hub calls hello certificate.not_after now
              ]).0
      by_peer (failed e) = bound
      by_peer (done certificate) =
          bind_site-IsBound text name cluster hub calls hello certificate.not_after now set bound

  pub only_error-hub : (r : Hub × Outcome SiteRegistration) → (only_error api r).0 ≡ r.0
  only_error-hub (hub, done site) = refl
  only_error-hub (hub, failed e) = refl

  -- A renewal leaves the stored objects, or writes the site's condition.
  pub rotate_certificate-hub :
      (authority : Authority) (hub : Hub) (calls : HubCalls) (site : SiteRegistration)
      (request : CertificateSigningRequest) (st : Stream)
      → ((rotate_certificate api authority hub calls site request st).0.0 ≡ hub)
        ⊎ ((rotate_certificate api authority hub calls site request st).0.0
            ≡ (update_site_status hub calls site.meta.name (identity_status api)).0)
  unfolding rotate_certificate
  rotate_certificate-hub authority hub calls site request st =
      let written =
        only_error-hub (update_site_status hub calls site.meta.name (identity_status api)) in
      ground (arith, written)

  pub rotate_certificate-IsBound :
      (name cluster : String) (authority : Authority) (hub : Hub) (calls : HubCalls)
      (site : SiteRegistration) (request : CertificateSigningRequest) (st : Stream)
      → IsBound name cluster hub
      → IsBound name cluster (rotate_certificate api authority hub calls site request st).0.0
  rotate_certificate-IsBound name cluster authority hub calls site request st bound =
      elim (rotate_certificate-hub authority hub calls site request st) [
        | inl same ↦ subst (IsBound name cluster) (sym same) bound
        | inr written ↦ subst (IsBound name cluster) (sym written) (
            update_site_status-IsBound name site.meta.name cluster hub calls (identity_status api)
              (λ old new h. ground arith) bound)
      ]

  pub record_heartbeat-IsBound :
      (name cluster : String) (hub : Hub) (calls : HubCalls) (other : String) (now : ℕ)
      → IsBound name cluster hub
      → IsBound name cluster (record_heartbeat api hub calls other now).0
  unfolding record_heartbeat
  record_heartbeat-IsBound name cluster hub calls other now bound =
      subst (IsBound name cluster)
        (sym (only_error-hub (update_site_status hub calls other (heartbeat_status api now))))
        (update_site_status-IsBound name other cluster hub calls (heartbeat_status api now)
          (λ old new h. ground arith) bound)

  pub record_inventory-hub :
      (authority : Authority) (hub : Hub) (calls : HubCalls) (other : String) (json : Bytes)
      → ((record_inventory api authority hub calls other json).0 ≡ hub)
        ⊎ ((inventory : Inventory) × ((record_inventory api authority hub calls other json).0
              ≡ (update_site_status hub calls other (inventory_status api inventory)).0))
  unfolding record_inventory
  record_inventory-hub authority hub calls other json =
      elim (Option-cases (authority.read_inventory json)) [
        | inl unread ↦ inl (ground arith)
        | inr (inventory, read) ↦ elim (Bool-cases (ltb (1024 * 1024) (length json))) [
          | inl large ↦ inl (rw large refl)
          | inr fits ↦ inr (
            inventory,
            rw (fits, read)
                (only_error-hub
                  (update_site_status hub calls other (inventory_status api inventory))),
          )
        ]
      ]

  pub record_inventory-IsBound :
      (name cluster : String) (authority : Authority) (hub : Hub) (calls : HubCalls)
      (other : String) (json : Bytes)
      → IsBound name cluster hub
      → IsBound name cluster (record_inventory api authority hub calls other json).0
  record_inventory-IsBound name cluster authority hub calls other json bound =
      elim (record_inventory-hub authority hub calls other json) [
        | inl same ↦ subst (IsBound name cluster) (sym same) bound
        | inr (inventory, written) ↦ subst (IsBound name cluster) (sym written) (
            update_site_status-IsBound name other cluster hub calls (inventory_status api inventory)
              (λ old new h. ground arith) bound)
      ]
