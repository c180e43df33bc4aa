-- ===== src/Control/Dispatch/Authorised.antt =====
-- What a round of `sendPlans` may add to a stream.
use mspsql.Base.{
  ℕ, ℤ, String, true, false, ◌≡◌, refl, ap, sym, subst, ◌∙◌, inl, inr, some, List, [], ◌∷◌, ◌++◌,
  All, Member, Member-select, select, lookup, Option-cases, eq_iff, arith,
}
use mspsql.Api.Instance.{MultiSitePostgres}
use mspsql.Plan.{Bytes, Envelope, Crypto, Codec, SitePlan}
use mspsql.Directive.{Payload, signed, sign_directive}
use mspsql.Control.{
  ConfigMap, Hub, HubCalls, Failure, done, failed, HubText, value_of, has_label, get_object,
}
use mspsql.Control.Trust.{directive_owner_trusted}
use mspsql.Control.Dispatch.{
  HubMessage, plan_message, directive_message, certificate_message, Stream, here, send_plan,
  signing_key, directive_target, payload_for, send_one_directive, sync, ensure_site_active,
  is_plan_for,
}
use mspsql.Control.Dispatch.Steps.{send_plan-SendsPlan, send_one-SendsDirective}
use mspsql.Control.Dispatch.Streams.{sync_keeps}

module _ (text : HubText) (crypto : Crypto) (plans : Codec SitePlan) (payloads : Codec Payload)
    (hub : Hub) (calls : HubCalls) (site_name site_uid : String) (now : ℕ) where
  -- A plan in a stored ConfigMap that is labelled for this site; what is sent is its envelope.
  pub record IsStoredPlan (uid : String) (revision : ℕ) (json : Bytes) : Type 0 where
    pub config : ConfigMap
    pub envelope : Envelope
    pub plan : SitePlan
    pub stored : Member config hub.config_maps
    pub labelled :
        lookup "multisite-postgres.dev/site-registration-uid" config.labels ≡ some site_uid
    pub read : text.read_envelope (value_of config "envelope.json") ≡ some envelope
    pub decoded : plans.unmarshal envelope.plan ≡ some plan
    pub same_uid : plan.instance_uid ≡ uid
    pub same_revision : plan.revision ≡ revision
    pub written : text.write_envelope envelope ≡ some json

  -- A directive in a stored ConfigMap that its owner vouches for, of a stored instance and for this site;
  -- what is sent is an envelope that is signed with the hub's key over this site's UID.
  pub record IsVouched (operation uid type : String) (json : Bytes) : Type 0 where
    pub config : ConfigMap
    pub of_instance : MultiSitePostgres
    pub source : String
    pub backup_type : String
    pub key : Bytes
    pub envelope : Envelope
    pub stored : Member config hub.config_maps
    pub labelled : has_label "multisite-postgres.dev/directive" config ≡ true
    pub stored_instance :
        get_object
          (λ (i : MultiSitePostgres). i.meta)
          hub.instances
          config.namespace
          (value_of config "instanceRef")
        ≡ some of_instance
    pub written : text.write_envelope envelope ≡ some json
    pub same_operation : value_of config "operationUID" ≡ operation
    pub same_uid : of_instance.meta.uid ≡ uid
    pub same_type : value_of config "type" ≡ type
    pub target :
        directive_target text crypto plans payloads config of_instance site_name
        ≡ done (here source backup_type)
    pub trusted :
        directive_owner_trusted text hub calls config
          (text.controller_of config.owner_references)
          of_instance
        ≡ done true
    pub keyed : signing_key text crypto plans payloads hub calls ≡ done key
    pub signed_so :
        sign_directive crypto payloads key (
          payload_for text crypto plans payloads site_uid config of_instance source backup_type now)
        ≡ signed envelope

  abbrev IsBacked : HubMessage → Type 0
  IsBacked (plan_message uid revision json) = IsStoredPlan uid revision json
  IsBacked (directive_message operation uid type json) = IsVouched operation uid type json
  IsBacked (certificate_message id certificate ca not_after) = true ≡ false

  -- The messages that a round adds: the site is active, and each is backed by what is stored.
  pub record Adds (before after : Stream) : Type 0 where
    pub fresh : List HubMessage
    pub added : after.outbox ≡ fresh ++ before.outbox
    pub backed : All IsBacked fresh

  Adds-nothing : (st : Stream) → Adds st st
  Adds-nothing st = record { fresh = []; added = refl; backed = tt }

  Adds-one :
      (before st next : Stream) (m : HubMessage)
      → next.outbox ≡ m ∷ st.outbox
      → IsBacked m
      → Adds before st
      → Adds before next
  Adds-one before st next m same b h = record {
    fresh = m ∷ h.fresh;
    added = same ∙ ap (λ (ms : List HubMessage). m ∷ ms) h.added;
    backed = (b, h.backed);
  }

  is_plan_for-label :
      (c : ConfigMap)
      → is_plan_for text crypto plans payloads site_uid c ≡ true
      → lookup "multisite-postgres.dev/site-registration-uid" c.labels ≡ some site_uid
  is_plan_for-label c h =
      elim (Option-cases (lookup "multisite-postgres.dev/site-registration-uid" c.labels)) [
        | inl absent ↦ absurd (ground (arith, absent, h))
        | inr (uid, present) ↦
            let same : uid ≡ site_uid = ground (arith, present, h, eq_iff uid site_uid) in
            rw same at present
      ]

  send_plan-Adds :
      (before : Stream) (c : ConfigMap) (st : Stream)
      → Member c (select (is_plan_for text crypto plans payloads site_uid) hub.config_maps)
      → Adds before st
      → Adds before (send_plan text crypto plans payloads calls c st).0
  send_plan-Adds before c st listed h =
      elim (send_plan-SendsPlan text crypto plans payloads calls c st) [
        | inl same ↦ subst (Adds before) (sym same) h
        | inr s ↦
            Adds-one before st _ (plan_message s.plan.instance_uid s.plan.revision s.encoded)
              (ap (λ (next : Stream). next.outbox) s.after)
              (record {
                config = c;
                envelope = s.envelope;
                plan = s.plan;
                stored =
                    (Member-select (is_plan_for text crypto plans payloads site_uid) hub.config_maps
                      c listed).0;
                labelled =
                    is_plan_for-label c
                      (Member-select (is_plan_for text crypto plans payloads site_uid)
                        hub.config_maps c listed).1;
                written = s.written;
                read = s.read;
                decoded = s.decoded;
                same_uid = refl;
                same_revision = refl;
              })
              h
      ]

  send_one-Adds :
      (before : Stream) (c : ConfigMap) (st : Stream)
      → Member c (select (has_label "multisite-postgres.dev/directive") hub.config_maps)
      → Adds before st
      → Adds before
          (send_one_directive text crypto plans payloads hub calls site_name site_uid now c st).0
  send_one-Adds before c st listed h =
      elim (send_one-SendsDirective text crypto plans payloads hub calls site_name site_uid now c
        st) [
          | inl same ↦ subst (Adds before) (sym same) h
          | inr s ↦
              Adds-one before st _
                (directive_message (value_of c "operationUID") s.of_instance.meta.uid
                  (value_of c "type") s.encoded)
                (ap (λ (next : Stream). next.outbox) s.after)
                (record {
                  config = c;
                  of_instance = s.of_instance;
                  stored =
                      (Member-select (has_label "multisite-postgres.dev/directive") hub.config_maps
                        c listed).0;
                  labelled =
                      (Member-select (has_label "multisite-postgres.dev/directive") hub.config_maps
                        c listed).1;
                  stored_instance = s.stored;
                  written = s.written;
                  source = s.source;
                  backup_type = s.backup_type;
                  key = s.key;
                  envelope = s.envelope;
                  same_operation = refl;
                  same_uid = refl;
                  same_type = refl;
                  target = s.target;
                  trusted = s.trusted;
                  keyed = s.keyed;
                  signed_so = s.signed_so;
                })
                h
        ]

  -- A round adds to a stream only the envelopes of plans that are stored and labelled for this site, as
  -- they are stored, and envelopes, signed with the hub's key, of directives that are stored, for
  -- this site, and trusted by the owner's present state.
  pub sync-Adds :
      (configured : ℤ) (st : Stream)
      → Adds st (sync text crypto plans payloads hub calls site_name site_uid now configured st).0
  sync-Adds configured st =
      sync_keeps text crypto plans payloads (Adds st) hub calls site_name site_uid now
        (send_one-Adds st) (send_plan-Adds st) configured st (Adds-nothing st)

  -- To a site that is gone, replaced or revoked, a round sends nothing, and it ends the session.
  pub sync_inactive :
      (configured : ℤ) (st : Stream) (e : Failure)
      → ensure_site_active hub calls site_name site_uid ≡ failed e
      → sync text crypto plans payloads hub calls site_name site_uid now configured st
        ≡ (st, failed e)
  unfolding sync
  sync_inactive configured st e h = rw (h, sync) refl
