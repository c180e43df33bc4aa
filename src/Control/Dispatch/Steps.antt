-- ===== src/Control/Dispatch/Steps.antt =====
-- What one turn of the loops of `sendPlans` and `sendDirectives` puts on the stream.
use mspsql.Base.{
  ℕ, String, true, false, ◌||◌, ◌≡◌, refl, ◌⊎◌, inl, inr, some, leb, contains, Bool-cases,
  Option-cases, arith, ◌==◌,
}
use mspsql.Api.Instance.{MultiSitePostgres}
use mspsql.Plan.{Bytes, Envelope, Crypto, Codec, SitePlan}
use mspsql.Directive.{Payload, Signed, signed, refused, sign_directive}
use mspsql.Control.{
  ConfigMap, Hub, instance_kind, HubCalls, done, Outcome-cases, HubText, get_object, value_of,
}
use mspsql.Control.Trust.{directive_owner_trusted}
use mspsql.Control.Dispatch.{
  directive_message, Stream, elsewhere, here, send_plan, sent_revision, push_plan, push_directive,
  signing_key, directive_target, payload_for, sign_and_send, send_to, send_one_directive,
}

module _ (text : HubText) (crypto : Crypto) (plans : Codec SitePlan)
    (payloads : Codec Payload) where
  -- A plan that was sent: newer than what the stream had sent for its instance.
  pub record SendsPlan (c : ConfigMap) (st next : Stream) : Type 0 where
    pub envelope : Envelope
    pub plan : SitePlan
    pub encoded : Bytes
    pub read : text.read_envelope (value_of c "envelope.json") ≡ some envelope
    pub decoded : plans.unmarshal envelope.plan ≡ some plan
    pub written : text.write_envelope envelope ≡ some encoded
    pub newer : leb plan.revision (sent_revision st.sent_plans plan.instance_uid) ≡ false
    pub after : next ≡ push_plan st plan encoded

  pub send_plan-SendsPlan :
      (calls : HubCalls) (c : ConfigMap) (st : Stream)
      → ((send_plan text crypto plans payloads calls c st).0 ≡ st)
        ⊎ SendsPlan c st (send_plan text crypto plans payloads calls c st).0
  unfolding send_plan
  send_plan-SendsPlan calls c st =
      elim (Option-cases (text.read_envelope (value_of c "envelope.json"))) [
        | inl unread ↦ inl (rw (unread, send_plan) refl)
        | inr (e, read) ↦ elim (Option-cases (plans.unmarshal e.plan)) [
          | inl undecoded ↦ inl (rw (read, send_plan, undecoded) refl)
          | inr (p, decoded) ↦
              elim (Bool-cases (leb p.revision (sent_revision st.sent_plans p.instance_uid))) [
                | inl old ↦ inl (rw (read, send_plan, decoded, old) refl)
                | inr newer ↦ elim (Option-cases (text.write_envelope e)) [
                  | inl unwritten ↦ inl (rw (read, send_plan, decoded, newer, unwritten) refl)
                  | inr (encoded, written) ↦ elim (Bool-cases (calls.send_fails p.instance_uid)) [
                    | inl fails ↦ inl (rw (read, send_plan, decoded, newer, written, fails) refl)
                    | inr sends ↦ inr (record {
                      envelope = e;
                      plan = p;
                      encoded = encoded;
                      read = read;
                      decoded = decoded;
                      written = written;
                      newer = newer;
                      after = rw (read, send_plan, decoded, newer, written, sends) refl;
                    })
                  ]
                ]
              ]
        ]
      ]

  -- A directive that was sent: stored, new on the stream, for this site, trusted by its owner, and
  -- signed under the hub's key.
  pub record SendsDirective (hub : Hub) (calls : HubCalls) (site_name site_uid : String) (now : ℕ)
      (c : ConfigMap) (st next : Stream) : Type 0 where
    pub of_instance : MultiSitePostgres
    pub source : String
    pub backup_type : String
    pub key : Bytes
    pub envelope : Envelope
    pub encoded : Bytes
    pub fresh : contains st.sent_directives (value_of c "operationUID") ≡ false
    pub stored :
        get_object
          (λ (i : MultiSitePostgres). i.meta)
          hub.instances
          c.namespace
          (value_of c "instanceRef")
        ≡ some of_instance
    pub target :
        directive_target text crypto plans payloads c of_instance site_name
        ≡ done (here source backup_type)
    pub trusted :
        directive_owner_trusted text hub calls c (text.controller_of c.owner_references) of_instance
        ≡ done true
    pub keyed : signing_key text crypto plans payloads hub calls ≡ done key
    pub signed_so :
        sign_directive crypto payloads key
          (payload_for text crypto plans payloads site_uid c of_instance source backup_type now)
        ≡ signed envelope
    pub written : text.write_envelope envelope ≡ some encoded
    pub after :
        next
        ≡ push_directive st
            (directive_message
              (value_of c "operationUID")
              of_instance.meta.uid
              (value_of c "type")
              encoded)
            (value_of c "operationUID")

  -- The end of the turn, from the signature on.
  sign_and_send-after :
      (calls : HubCalls) (key : Bytes) (c : ConfigMap) (i : MultiSitePostgres) (p : Payload)
      (st : Stream)
      → ((sign_and_send text crypto plans payloads calls key c i p st).0 ≡ st)
        ⊎ ((e : Envelope) × (encoded : Bytes) × (sign_directive crypto payloads key p ≡ signed e)
            × (text.write_envelope e ≡ some encoded)
            × ((sign_and_send text crypto plans payloads calls key c i p st).0
                ≡ push_directive st
                    (directive_message p.operation_uid i.meta.uid p.type encoded)
                    p.operation_uid))
  unfolding sign_and_send
  sign_and_send-after calls key c i p st = by_signature (sign_directive crypto payloads key p) refl
    where
      by_signature :
          (s : Signed Envelope)
          → sign_directive crypto payloads key p ≡ s
          → ((sign_and_send text crypto plans payloads calls key c i p st).0 ≡ st)
            ⊎ ((e : Envelope) × (encoded : Bytes) × (sign_directive crypto payloads key p
                  ≡ signed e)
                × (text.write_envelope e ≡ some encoded)
                × ((sign_and_send text crypto plans payloads calls key c i p st).0
                    ≡ push_directive st
                        (directive_message p.operation_uid i.meta.uid p.type encoded)
                        p.operation_uid))
      by_signature (refused e) h = inl (rw (h, sign_and_send) refl)
      by_signature (signed e) h = elim (Option-cases (text.write_envelope e)) [
        | inl unwritten ↦ inl (rw (h, sign_and_send, unwritten) refl)
        | inr (encoded, written) ↦ elim (Bool-cases (calls.send_fails p.operation_uid)) [
          | inl fails ↦ inl (rw (h, sign_and_send, written, fails) refl)
          | inr sends ↦ inr (e, encoded, h, written, rw (h, sign_and_send, written, sends) refl)
        ]
      ]

  -- What stands behind a directive of a ConfigMap for an instance, and where it takes the stream.
  abbrev IsSigned :
      Hub
      → HubCalls
      → String
      → ℕ
      → ConfigMap
      → MultiSitePostgres
      → String
      → String
      → Stream
      → Stream
      → Type 0
  IsSigned hub calls site_uid now c i source backup_type st next =
      (key : Bytes) × (e : Envelope) × (encoded : Bytes) × (directive_owner_trusted text hub calls c
          (text.controller_of c.owner_references) i
        ≡ done true)
      × (signing_key text crypto plans payloads hub calls ≡ done key)
      × (sign_directive crypto payloads key
            (payload_for text crypto plans payloads site_uid c i source backup_type now)
          ≡ signed e)
      × (text.write_envelope e ≡ some encoded)
      × (next
          ≡ push_directive st
              (directive_message (value_of c "operationUID") i.meta.uid (value_of c "type") encoded)
              (value_of c "operationUID"))

  send_to-after :
      (hub : Hub) (calls : HubCalls) (site_uid : String) (now : ℕ) (c : ConfigMap)
      (i : MultiSitePostgres) (source backup_type : String) (st : Stream)
      → ((send_to text crypto plans payloads hub calls site_uid now c i source backup_type st).0
          ≡ st)
        ⊎ IsSigned hub calls site_uid now c i source backup_type st
            (send_to text crypto plans payloads hub calls site_uid now c i source backup_type st).0
  unfolding send_to
  send_to-after hub calls site_uid now c i source backup_type st =
      let owner = text.controller_of c.owner_references in
      elim (Outcome-cases (directive_owner_trusted text hub calls c owner i)) [
        | inl (e, unknown) ↦ inl (rw (unknown, send_to) refl)
        | inr (false, distrusted) ↦ inl (rw (distrusted, send_to) refl)
        | inr (true, trusted) ↦
            elim (Outcome-cases (signing_key text crypto plans payloads hub calls)) [
              | inl (e, no_key) ↦ inl (rw (trusted, send_to, no_key) refl)
              | inr (key, keyed) ↦
                  elim (sign_and_send-after calls key c i
                    (payload_for text crypto plans payloads site_uid c i source backup_type now)
                    st) [
                      | inl same ↦ inl (rw (trusted, send_to, keyed) same)
                      | inr (e, encoded, signed_so, written, sent) ↦ inr (
                        key,
                        e,
                        encoded,
                        trusted,
                        keyed,
                        signed_so,
                        written,
                        rw (trusted, send_to, keyed) sent,
                      )
                    ]
            ]
      ]

  -- A turn of the loop over the directives leaves the stream, or sends the directive.
  pub send_one-SendsDirective :
      (hub : Hub) (calls : HubCalls) (site_name site_uid : String) (now : ℕ) (c : ConfigMap)
      (st : Stream)
      → ((send_one_directive text crypto plans payloads hub calls site_name site_uid now c st).0
          ≡ st)
        ⊎ SendsDirective hub calls site_name site_uid now c st
            (send_one_directive text crypto plans payloads hub calls site_name site_uid now c st).0
  unfolding send_one_directive
  send_one-SendsDirective hub calls site_name site_uid now c st =
      elim (Bool-cases (
        value_of c "operationUID" == ""
        || contains st.sent_directives (value_of c "operationUID"))) [
          | inl done_before ↦ inl (rw (done_before, send_one_directive) refl)
          | inr new ↦ elim (Bool-cases (calls.get_fails instance_kind (value_of c "instanceRef"))) [
            | inl fails ↦ inl (rw (new, send_one_directive, fails) refl)
            | inr reads ↦
                elim (Option-cases (
                  get_object (λ (i : MultiSitePostgres). i.meta) hub.instances c.namespace
                    (value_of c "instanceRef"))) [
                      | inl unstored ↦ inl (rw (new, send_one_directive, reads, unstored) refl)
                      | inr (i, stored) ↦
                          elim (Outcome-cases
                            (directive_target text crypto plans payloads c i site_name)) [
                              | inl (e, unread) ↦
                                  inl (rw (new, send_one_directive, reads, stored, unread) refl)
                              | inr (elsewhere, off) ↦
                                  inl (rw (new, send_one_directive, reads, stored, off) refl)
                              | inr (here source backup_type, target) ↦
                                  elim (send_to-after hub calls site_uid now c i source backup_type
                                    st) [
                                      | inl same ↦
                                          inl (
                                            rw (new, send_one_directive, reads, stored, target)
                                              same)
                                      | inr
                                            (
                                              key, e, encoded, trusted, keyed, signed_so, written,
                                              sent,
                                            ) ↦
                                          inr (record {
                                            of_instance = i;
                                            source = source;
                                            backup_type = backup_type;
                                            key = key;
                                            envelope = e;
                                            encoded = encoded;
                                            fresh = ground (arith, new);
                                            stored = stored;
                                            target = target;
                                            trusted = trusted;
                                            keyed = keyed;
                                            signed_so = signed_so;
                                            written = written;
                                            after =
                                                rw (new, send_one_directive, reads, stored, target)
                                                  sent;
                                          })
                                    ]
                            ]
                    ]
          ]
        ]
