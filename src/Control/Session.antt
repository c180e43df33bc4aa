-- ===== src/Control/Session.antt =====
-- A site's session (`Connect`, `bindSite`, `receive` and the handlers of a site's own status).
pub mod Binding
pub mod Untouched
use mspsql.Base.{
  ℕ, ◌*◌, ◌^◌, String, Bool, true, false, ◌&&◌, ◌||◌, not, Option, none, some, List, [], ◌∷◌,
  length, ltb, nat_eq, any, ◌==◌, texts, if◌then◌else◌,
}
use mspsql.Api.Meta.{Condition, condition_true, ConditionApi}
use mspsql.Api.Common.{StorageClassInventory, VolumeSnapshotClassInventory, IssuerReference}
use mspsql.Api.Site.{SiteRegistration}
use mspsql.Plan.{Bytes, protocol_version}
use mspsql.Control.{
  Hub, registration, HubCalls, invalid_argument, failed_precondition, unauthenticated,
  permission_denied, resource_exhausted, internal, Failure, status_error, not_found, call_failed,
  send_failed, Outcome, done, failed, HubText, fetched, missing, unreachable, fetch, put_object,
  as_status, set_site_condition,
}
use mspsql.Control.Dispatch.{HubMessage, certificate_message, Stream, ensure_site_active}

pub record AgentHello : Type 0 where
  pub protocol_version : String
  pub registration_uid : String
  pub cluster_uid : String
  pub agent_version : String
  pub capabilities : List String

pub record CertificateSigningRequest : Type 0 where
  pub request_id : String
  pub csr : Bytes

-- The certificate that the agent presents.
pub record PeerCertificate : Type 0 where
  pub common_name : String
  pub uris : List String
  pub not_after : ℕ

pub data Peer : Type 0 where
  no_peer no_certificate : Peer
  presented : PeerCertificate → Peer

pub record Inventory : Type 0 where
  pub storage_classes : List StorageClassInventory
  pub volume_snapshot_classes : List VolumeSnapshotClassInventory
  pub issuers : List IssuerReference

-- The field `SignCertificate`, the reading of what it returns, the reading of an inventory, and the
-- length of a text in bytes.
pub data Issue : Type 0 where
  issued : Bytes → Bytes → Issue
  not_issued : String → Issue

pub data ReadCertificate : Type 0 where
  no_pem no_x509 : ReadCertificate
  expires : ℕ → ReadCertificate

pub record Authority : Type 0 where
  pub sign_certificate : Option (SiteRegistration → Bytes → Issue)
  pub read_certificate : Bytes → ReadCertificate
  pub read_inventory : Bytes → Option Inventory
  pub size_of : String → ℕ

unfoldable pub certificate_has_uri : List String → String → Bool
certificate_has_uri uris identity =
    any (λ (uri : String). uri == texts ("spiffe://multisite-postgres.dev/site/" ∷ identity ∷ []))
      uris

unfoldable pub validate_peer_identity : Peer → String → Outcome PeerCertificate
unfolding certificate_has_uri
validate_peer_identity no_peer uid =
    failed (status_error unauthenticated "mTLS peer information is missing")
validate_peer_identity no_certificate uid =
    failed (status_error unauthenticated "mTLS client certificate is missing")
validate_peer_identity (presented certificate) uid =
    if certificate.common_name == uid || certificate_has_uri certificate.uris uid
    then done certificate
    else failed
        (status_error unauthenticated "mTLS certificate identity does not match registration UID")

-- The site with its new status written: `Status().Update` leaves the rest.
abbrev pub write_site : Hub → SiteRegistration → Hub
write_site hub site = record hub {
  registrations = put_object (λ (r : SiteRegistration). r.meta) site hub.registrations;
}

-- The write, once the change has been made.
unfoldable pub write_changed :
    HubCalls → String → Hub → Outcome SiteRegistration → Hub × Outcome SiteRegistration
write_changed calls name hub (failed e) = (hub, failed e)
write_changed calls name hub (done updated) =
    if calls.update_fails registration name
    then (hub, failed (call_failed registration))
    else (write_site hub updated, done updated)

unfoldable pub update_site_status :
    Hub
    → HubCalls
    → String
    → (SiteRegistration → Outcome SiteRegistration)
    → Hub × Outcome SiteRegistration
unfolding write_changed
update_site_status hub calls name mutate =
    elim (fetch (λ (r : SiteRegistration). r.meta) (calls.get_fails registration name)
      hub.registrations "" name) [
        | unreachable ↦ (hub, failed (call_failed registration))
        | missing ↦ (hub, failed (call_failed registration))
        | fetched current ↦ write_changed calls name hub (mutate current)
      ]

-- The first registration with a UID.
abbrev pub by_uid : List SiteRegistration → String → Option SiteRegistration
by_uid [] uid = none
by_uid (site ∷ sites) uid =
    let rest = by_uid sites uid in if site.meta.uid == uid then some site else rest

module _ (api : ConditionApi) where
  -- The change that `bindSite` makes to the site that it has read again.
  unfoldable pub bind_status : AgentHello → ℕ → ℕ → SiteRegistration → Outcome SiteRegistration
  unfolding set_site_condition
  bind_status hello not_after now current =
      if not (current.status.cluster_uid == "")
        && not (current.status.cluster_uid == hello.cluster_uid)
      then failed (
          status_error permission_denied
            "registration is permanently bound to another Kubernetes cluster UID")
      else done (record current {
        status = record (current.status) {
          cluster_uid = hello.cluster_uid;
          phase = "Connected";
          agent_version = hello.agent_version;
          capabilities = hello.capabilities;
          last_heartbeat_time = some now;
          agent_certificate_expires_at = some not_after;
          conditions =
              set_site_condition api
                (set_site_condition api current.status.conditions "Connected" condition_true
                  "ControlStreamEstablished" "The authenticated agent control stream is active")
                "IdentityReady" condition_true "CertificateAuthenticated"
                "The agent presented a valid site identity certificate";
        };
      })

  abbrev pub bound_as :
      (Failure → String) → Hub × Outcome SiteRegistration → Hub × Outcome SiteRegistration
  bound_as text (hub, done site) = (hub, done site)
  bound_as text (hub, failed e) = (hub, failed (as_status text e))

  unfoldable pub bind_site :
      HubText → Hub → HubCalls → AgentHello → ℕ → ℕ → Hub × Outcome SiteRegistration
  unfolding update_site_status bind_status
  bind_site text hub calls hello not_after now =
      if calls.list_fails registration
      then (hub, failed (status_error internal (text.failure_text (call_failed registration))))
      else elim (by_uid hub.registrations hello.registration_uid) [
        | none ↦ (hub, failed (not_found "site registration UID was not found"))
        | some site ↦
            if site.spec.revoked
            then (hub, failed (status_error permission_denied "site registration is revoked"))
            else bound_as text.failure_text
                (update_site_status hub calls site.meta.name (bind_status hello not_after now))
      ]

  -- `Connect` up to the start of its two goroutines; `none` is a first message that is no hello.
  unfoldable pub open_session :
      HubText → Hub → HubCalls → Option AgentHello → Peer → ℕ → Hub × Outcome SiteRegistration
  unfolding validate_peer_identity bind_site
  open_session text hub calls none peer now =
      (hub, failed (status_error invalid_argument "first message must be AgentHello"))
  open_session text hub calls (some hello) peer now =
      if not (hello.protocol_version == protocol_version)
      then (
        hub,
        failed (
            status_error failed_precondition
              (texts ("unsupported protocol version " ∷ hello.protocol_version ∷ []))),
      )
      else elim (validate_peer_identity peer hello.registration_uid) [
        | failed e ↦ (hub, failed e)
        | done certificate ↦ bind_site text hub calls hello certificate.not_after now
      ]

  abbrev pub only_error : Hub × Outcome SiteRegistration → Hub × Outcome Unit
  only_error (hub, done site) = (hub, done tt)
  only_error (hub, failed e) = (hub, failed e)

  abbrev pub heartbeat_status : ℕ → SiteRegistration → Outcome SiteRegistration
  heartbeat_status now site = done (record site {
    status = record (site.status) {
      last_heartbeat_time = some now;
      phase = "Connected";
      conditions =
          set_site_condition api site.status.conditions "Connected" condition_true
            "HeartbeatReceived" "The site agent heartbeat is current";
    };
  })

  unfoldable pub record_heartbeat : Hub → HubCalls → String → ℕ → Hub × Outcome Unit
  unfolding update_site_status set_site_condition
  record_heartbeat hub calls name now =
      only_error (update_site_status hub calls name (heartbeat_status now))

  abbrev pub inventory_status : Inventory → SiteRegistration → Outcome SiteRegistration
  inventory_status inventory site = done (record site {
    status = record (site.status) {
      discovered_storage_classes = inventory.storage_classes;
      discovered_volume_snapshot_classes = inventory.volume_snapshot_classes;
      discovered_issuers = inventory.issuers;
    };
  })

  unfoldable pub record_inventory : Authority → Hub → HubCalls → String → Bytes → Hub × Outcome Unit
  unfolding update_site_status
  record_inventory authority hub calls name json =
      if ltb (1024 * 1024) (length json)
      then (hub, failed (status_error resource_exhausted "inventory exceeds one MiB"))
      else elim (authority.read_inventory json) [
        | none ↦ (hub, failed (status_error invalid_argument "inventory JSON is invalid"))
        | some inventory ↦
            only_error (update_site_status hub calls name (inventory_status inventory))
      ]

  abbrev pub identity_status : SiteRegistration → Outcome SiteRegistration
  identity_status site = done (record site {
    status = record (site.status) {
      conditions =
          set_site_condition api site.status.conditions "IdentityReady" condition_true
            "CertificateIssued"
            "A renewed agent mTLS certificate was issued over the authenticated stream";
    };
  })

  abbrev pub is_invalid_request : (String → ℕ) → CertificateSigningRequest → Bool
  is_invalid_request size_of request =
      request.request_id == ""
      || (ltb 128 (size_of request.request_id)
          || (nat_eq (length request.csr) 0 || ltb (16 * 2 ^ 10) (length request.csr)))

  -- The stored objects and the stream, and what the handler returns.
  unfoldable pub rotate_certificate :
      Authority
      → Hub
      → HubCalls
      → SiteRegistration
      → CertificateSigningRequest
      → Stream
      → (Hub × Stream) × Outcome Unit
  unfolding update_site_status ensure_site_active set_site_condition
  rotate_certificate authority hub calls site request st = elim authority.sign_certificate [
    | none ↦ (
      (hub, st),
      failed (status_error failed_precondition "certificate renewal is not configured"),
    )
    | some sign ↦
        if is_invalid_request authority.size_of request
        then (
          (hub, st),
          failed (status_error invalid_argument "certificate signing request is invalid"),
        )
        else elim (ensure_site_active hub calls site.meta.name site.meta.uid) [
          | failed e ↦ ((hub, st), failed e)
          | done _ ↦ elim (sign site request.csr) [
            | not_issued why ↦ ((hub, st), failed (status_error invalid_argument why))
            | issued certificate ca ↦ elim (authority.read_certificate certificate) [
              | no_pem ↦ (
                (hub, st),
                failed (status_error internal "certificate signer returned invalid PEM"),
              )
              | no_x509 ↦ (
                (hub, st),
                failed (status_error internal "certificate signer returned an invalid certificate"),
              )
              | expires not_after ↦
                  if calls.send_fails request.request_id
                  then ((hub, st), failed send_failed)
                  else let (next, result) =
                      only_error (update_site_status hub calls site.meta.name identity_status) in
                    (
                      (
                        next,
                        record st {
                          outbox =
                              certificate_message request.request_id certificate ca not_after
                              ∷ st.outbox;
                        },
                      ),
                      result,
                    )
            ]
          ]
        ]
  ]
