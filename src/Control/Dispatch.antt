-- ===== src/Control/Dispatch.antt =====
-- What the server sends on a stream (`sendPlans`, `sendDirectives`, `ensureSiteActive` and
-- `signingKey`). `Stream` keeps the messages of one stream, the newest first, and the two maps
-- of what it has sent.
pub mod Steps
pub mod Streams
pub mod Authorised
use mspsql.Base.{
  ℕ, zero, suc, ◌+◌, ℤ, pos, negsuc, String, Bool, true, false, ◌&&◌, ◌||◌, not, Option, none, some,
  List, [], ◌∷◌, length, leb, nat_eq, select, ◌==◌, contains, insert, lookup, Member, at_head,
  in_tail, if◌then◌else◌,
}
use mspsql.Api.Instance.{MultiSitePostgres}
use mspsql.Api.Site.{SiteRegistration}
use mspsql.Plan.{Bytes, Envelope, Crypto, Codec, SitePlan, private_key_size}
use mspsql.Directive.{Payload, Signed, signed, refused, sign_directive}
use mspsql.Control.{
  ConfigMap, OwnerReference, Hub, registration, instance_kind, config_map, secret, HubCalls,
  permission_denied, Failure, status_error, call_failed, send_failed, decode_failed, sign_failed,
  invalid_key, Outcome, done, failed, HubText, fetched, missing, unreachable, fetch, has_label,
  value_of,
}
use mspsql.Control.Trust.{directive_owner_trusted}
use mspsql.Control.Targets.{select_backup_source, member_targets_site, directive_targets_site}

pub data HubMessage : Type 0 where
  plan_message : String → ℕ → Bytes → HubMessage
  directive_message : String → String → String → Bytes → HubMessage
  certificate_message : String → Bytes → Bytes → ℕ → HubMessage

pub record Stream : Type 0 where
  pub outbox : List HubMessage
  pub sent_plans : List (String × ℕ)
  pub sent_directives : List String

-- Go's loop over a slice whose body may return an error.
module _ {S : Type 0} where
  unfoldable pub then_go : S × Outcome Unit → (S → S × Outcome Unit) → S × Outcome Unit
  then_go (s, done _) rest = rest s
  then_go (s, failed e) rest = (s, failed e)

  pub then_go_keeps :
      (P : S → Type 0) (r : S × Outcome Unit) (rest : S → S × Outcome Unit)
      → P r.0
      → ((s : S) → P s → P (rest s).0)
      → P (then_go r rest).0
  unfolding then_go
  then_go_keeps P (s, done _) rest h keeps = keeps s h
  then_go_keeps P (s, failed e) rest h keeps = h

module _ {S A : Type 0} where
  unfoldable pub each : (A → S → S × Outcome Unit) → List A → S → S × Outcome Unit
  unfolding then_go
  each step [] s = (s, done tt)
  each step (x ∷ xs) s = then_go (step x s) (each step xs)

  -- What the body keeps on the elements of a list, the loop over the list keeps.
  pub each_members :
      (P : S → Type 0) (step : A → S → S × Outcome Unit) (all : List A)
      → ((x : A) (s : S) → Member x all → P s → P (step x s).0)
      → (xs : List A) (s : S) → ((x : A) → Member x xs → Member x all)
      → P s
      → P (each step xs s).0
  unfolding each
  each_members P step all keeps [] s inside h = h
  each_members P step all keeps (x ∷ xs) s inside h =
      then_go_keeps P (step x s) (each step xs) (keeps x s (inside x at_head) h)
        (λ t k. each_members P step all keeps xs t (λ y m. inside y (in_tail m)) k)

abbrev pub default_max_directives_per_sync : ℕ
default_max_directives_per_sync = 100

unfoldable pub max_directives_per_sync : ℤ → ℕ
max_directives_per_sync (pos zero) = default_max_directives_per_sync
max_directives_per_sync (pos (suc n)) = suc n
max_directives_per_sync (negsuc n) = default_max_directives_per_sync

unfoldable pub ensure_site_active : Hub → HubCalls → String → String → Outcome Unit
ensure_site_active hub calls name uid =
    elim (fetch (λ (r : SiteRegistration). r.meta) (calls.get_fails registration name)
      hub.registrations "" name) [
        | unreachable ↦ failed (call_failed registration)
        | missing ↦ failed (status_error permission_denied "site registration no longer exists")
        | fetched site ↦
            if not (site.meta.uid == uid) || site.spec.revoked
            then failed (status_error permission_denied "site registration is revoked")
            else done tt
      ]

abbrev pub owner_uid : Option OwnerReference → String
owner_uid none = ""
owner_uid (some owner) = owner.uid

-- `sent[uid]`
abbrev pub sent_revision : List (String × ℕ) → String → ℕ
sent_revision sent uid = elim (lookup uid sent) [ none ↦ 0 | some r ↦ r ]

abbrev pub push_plan : Stream → SitePlan → Bytes → Stream
push_plan st p encoded = record st {
  outbox = plan_message p.instance_uid p.revision encoded ∷ st.outbox;
  sent_plans = insert p.instance_uid p.revision st.sent_plans;
}

abbrev pub push_directive : Stream → HubMessage → String → Stream
push_directive st message operation_uid = record st {
  outbox = message ∷ st.outbox;
  sent_directives = operation_uid ∷ st.sent_directives;
}

-- The target of a directive: passed over, or sent with a source and a type of backup.
pub data Target : Type 0 where
  elsewhere : Target
  here : String → String → Target

-- What came of one directive: passed over, sent, or an error that ends the round.
pub data Step : Type 0 where
  skipped : Step
  sent_one : Step
  stopped : Failure → Step

module _ (text : HubText) (crypto : Crypto) (plans : Codec SitePlan)
    (payloads : Codec Payload) where
  unfoldable pub send_plan : HubCalls → ConfigMap → Stream → Stream × Outcome Unit
  send_plan calls c st = elim (text.read_envelope (value_of c "envelope.json")) [
    | none ↦ (st, failed decode_failed)
    | some e ↦ elim (plans.unmarshal e.plan) [
      | none ↦ (st, failed decode_failed)
      | some p ↦
          if leb p.revision (sent_revision st.sent_plans p.instance_uid)
          then (st, done tt)
          else elim (text.write_envelope e) [
            | none ↦ (st, failed decode_failed)
            | some encoded ↦
                if calls.send_fails p.instance_uid
                then (st, failed send_failed)
                else (push_plan st p encoded, done tt)
          ]
    ]
  ]

  unfoldable pub signing_key : Hub → HubCalls → Outcome Bytes
  signing_key hub calls =
      if calls.get_fails secret "mspsql-plan-signing-key"
      then failed (call_failed secret)
      else elim hub.signing_secret [
        | none ↦ failed (call_failed secret)
        | some encoded ↦ elim (text.decode_key encoded) [
          | none ↦ failed invalid_key
          | some key ↦ if nat_eq (length key) private_key_size then done key else failed invalid_key
        ]
      ]

  unfoldable pub directive_target : ConfigMap → MultiSitePostgres → String → Outcome Target
  directive_target c i site_name =
      if value_of c "type" == "Backup"
      then elim (text.read_backup_type (value_of c "spec.json")) [
        | none ↦ failed decode_failed
        | some backup_type ↦
            let source = select_backup_source i in
            if source == "" || not (member_targets_site i source site_name)
            then done elsewhere
            else done (here source backup_type)
      ]
      else if directive_targets_site i (value_of c "type") site_name
      then done (here "" "")
      else done elsewhere

  abbrev pub payload_for : String → ConfigMap → MultiSitePostgres → String → String → ℕ → Payload
  payload_for site_uid c i source backup_type now = record {
    protocol_version = "";
    site_uid = site_uid;
    instance_uid = i.meta.uid;
    object_uid = owner_uid (text.controller_of c.owner_references);
    operation_uid = value_of c "operationUID";
    type = value_of c "type";
    primary = i.status.primary;
    backup_source = source;
    backup_type = backup_type;
    deleting = value_of c "deleting" == "true";
    generated_at = now;
    spec = text.bytes_of (value_of c "spec.json");
  }

  -- Sign, encode, send and mark.
  unfoldable pub sign_and_send :
      HubCalls → Bytes → ConfigMap → MultiSitePostgres → Payload → Stream → Stream × Step
  sign_and_send calls key c i p st = elim (sign_directive crypto payloads key p) [
    | refused e ↦ (st, stopped sign_failed)
    | signed e ↦ elim (text.write_envelope e) [
      | none ↦ (st, stopped decode_failed)
      | some encoded ↦ if calls.send_fails p.operation_uid then (st, stopped send_failed) else (
        push_directive st (directive_message p.operation_uid i.meta.uid p.type encoded)
            p.operation_uid,
        sent_one,
      )
    ]
  ]

  -- The owner's check and the key.
  unfoldable pub send_to :
      Hub
      → HubCalls
      → String
      → ℕ
      → ConfigMap
      → MultiSitePostgres
      → String
      → String
      → Stream
      → Stream × Step
  unfolding signing_key sign_and_send
  send_to hub calls site_uid now c i source backup_type st =
      elim (directive_owner_trusted text hub calls c (text.controller_of c.owner_references) i) [
        | failed e ↦ (st, stopped e)
        | done trusted ↦ if not trusted then (st, skipped) else elim (signing_key hub calls) [
          | failed e ↦ (st, stopped e)
          | done key ↦
              sign_and_send calls key c i (payload_for site_uid c i source backup_type now) st
        ]
      ]

  -- The body of the loop over the ConfigMaps.
  unfoldable pub send_one_directive :
      Hub → HubCalls → String → String → ℕ → ConfigMap → Stream → Stream × Step
  unfolding directive_target send_to
  send_one_directive hub calls site_name site_uid now c st =
      if value_of c "operationUID" == "" || contains st.sent_directives (value_of c "operationUID")
      then (st, skipped)
      else elim (fetch (λ (i : MultiSitePostgres). i.meta)
          (calls.get_fails instance_kind (value_of c "instanceRef")) hub.instances c.namespace
          (value_of c "instanceRef")) [
            | unreachable ↦ (st, stopped (call_failed instance_kind))
            | missing ↦ (st, skipped)
            | fetched i ↦ elim (directive_target c i site_name) [
              | failed e ↦ (st, stopped e)
              | done elsewhere ↦ (st, skipped)
              | done (here source backup_type) ↦
                  send_to hub calls site_uid now c i source backup_type st
            ]
          ]

  -- The loop: it ends at the limit, which is at least one.
  unfoldable pub send_listed :
      Hub → HubCalls → String → String → ℕ → ℕ → ℕ → List ConfigMap → Stream → Stream × Outcome Unit
  unfolding send_one_directive
  send_listed hub calls site_name site_uid now limit count [] st = (st, done tt)
  send_listed hub calls site_name site_uid now limit count (c ∷ cs) st =
      let (next, step) = send_one_directive hub calls site_name site_uid now c st in
      elim step [
        | stopped e ↦ (next, failed e)
        | skipped ↦ send_listed hub calls site_name site_uid now limit count cs next
        | sent_one ↦ elim (leb limit (count + 1)) [
          | true ↦ (next, done tt)
          | false ↦ send_listed hub calls site_name site_uid now limit (count + 1) cs next
        ]
      ]

  unfoldable pub send_directives :
      Hub → HubCalls → String → String → ℕ → ℤ → Stream → Stream × Outcome Unit
  unfolding send_listed max_directives_per_sync
  send_directives hub calls site_name site_uid now configured st =
      if calls.list_fails config_map
      then (st, failed (call_failed config_map))
      else send_listed hub calls site_name site_uid now (max_directives_per_sync configured) 0
          (select (has_label "multisite-postgres.dev/directive") hub.config_maps) st

  abbrev pub is_plan_for : String → ConfigMap → Bool
  is_plan_for site_uid c = elim (lookup "multisite-postgres.dev/site-registration-uid" c.labels) [
    | none ↦ false
    | some uid ↦ uid == site_uid
  ]

  -- One round of `sendPlans`, from the check of the site to the wait for the ticker.
  unfoldable pub sync : Hub → HubCalls → String → String → ℕ → ℤ → Stream → Stream × Outcome Unit
  unfolding ensure_site_active send_plan send_directives each then_go
  sync hub calls site_name site_uid now configured st =
      elim (ensure_site_active hub calls site_name site_uid) [
        | failed e ↦ (st, failed e)
        | done _ ↦
            if calls.list_fails config_map
            then (st, failed (call_failed config_map))
            else then_go (each (send_plan calls) (select (is_plan_for site_uid) hub.config_maps) st)
                (send_directives hub calls site_name site_uid now configured)
      ]
