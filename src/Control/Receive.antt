-- ===== src/Control/Receive.antt =====
-- The messages that the server receives (`receive`, `recordDirectiveResult` and the functions that
-- record the result of a directive of each kind of owner).
pub mod Keeping
pub mod Outcomes
pub mod Revisions
pub mod History
use mspsql.Base.{
  ℕ, ℤ, String, Bool, true, false, ◌||◌, Option, none, some, List, [], ◌∷◌, select, ◌==◌,
  if◌then◌else◌,
}
use mspsql.Api.Meta.{ObjectMeta, ConditionApi}
use mspsql.Api.Instance.{MultiSitePostgres}
use mspsql.Api.Upgrade.{PostgresUpgrade}
use mspsql.Api.Site.{SiteRegistration}
use mspsql.Api.Declarations.{PostgresDatabase, PostgresUser, PostgresRestore}
use mspsql.Plan.{Bytes, Crypto, Codec, SitePlan}
use mspsql.Directive.{Payload}
use mspsql.Control.{
  OwnerReference, ConfigMap, Hub, Kind, instance_kind, database, user, restore_kind, upgrade_kind,
  config_map, HubCalls, Failure, not_found, call_failed, Outcome, done, failed, HubText, get_object,
  put_object, has_label, value_of,
}
use mspsql.Control.Dispatch.{Stream, then_go, sync}
use mspsql.Control.Session.{
  CertificateSigningRequest, Authority, record_heartbeat, record_inventory, rotate_certificate,
}
use mspsql.Control.Record.{
  PlanAcknowledgement, PlanProgress, PlanResult, record_acknowledgement, record_progress,
  record_plan_result,
}
use mspsql.Control.Results.{
  directive_succeeded, instance_after, database_after, user_after, restore_after, upgrade_after,
  upgrade_backup_after, instance_backup_after,
}

-- A read of an object by its name, a change of its status, and the update.
module _ {A : Type 0} (meta_of : A → ObjectMeta) where
  unfoldable pub rewrite_object :
      HubCalls
      → Kind
      → String
      → String
      → Hub
      → List A
      → (List A → Hub)
      → (A → A)
      → Hub × Outcome Unit
  rewrite_object calls kind namespace name hub objects write change =
      if calls.get_fails kind name
      then (hub, failed (call_failed kind))
      else elim (get_object meta_of objects namespace name) [
        | none ↦ (hub, failed (call_failed kind))
        | some a ↦
            if calls.update_fails kind name
            then (hub, failed (call_failed kind))
            else (write (put_object meta_of (change a) objects), done tt)
      ]

abbrev pub set_upgrades : Hub → List PostgresUpgrade → Hub
set_upgrades hub upgrades = record hub { upgrades = upgrades }

abbrev pub set_instances : Hub → List MultiSitePostgres → Hub
set_instances hub instances = record hub { instances = instances }

abbrev pub set_databases : Hub → List PostgresDatabase → Hub
set_databases hub databases = record hub { databases = databases }

abbrev pub set_users : Hub → List PostgresUser → Hub
set_users hub users = record hub { users = users }

abbrev pub set_restores : Hub → List PostgresRestore → Hub
set_restores hub restores = record hub { restores = restores }

abbrev pub is_post_upgrade : ConfigMap → Bool
is_post_upgrade c = value_of c "upgradeBackupPhase" == "post-upgrade"

module _ (api : ConditionApi) (text : HubText) where
  -- The second update of `recordUpgradeBackupResult`.
  unfoldable pub record_instance_backup :
      HubCalls → ConfigMap → PlanResult → Hub → Hub × Outcome Unit
  unfolding rewrite_object instance_backup_after directive_succeeded
  record_instance_backup calls c result hub =
      if directive_succeeded result.conditions
      then rewrite_object (λ (i : MultiSitePostgres). i.meta) calls instance_kind c.namespace
          (value_of c "instanceRef") hub hub.instances (set_instances hub)
          (instance_backup_after api text result)
      else (hub, done tt)

  -- `recordUpgradeBackupResult`: the upgrade first, and where the backup succeeded the instance.
  unfoldable pub record_upgrade_backup_result :
      Hub → HubCalls → ConfigMap → String → PlanResult → Hub × Outcome Unit
  unfolding rewrite_object then_go upgrade_backup_after record_instance_backup
  record_upgrade_backup_result hub calls c name result =
      then_go
        (rewrite_object (λ (u : PostgresUpgrade). u.meta) calls upgrade_kind c.namespace name hub
          hub.upgrades (set_upgrades hub)
          (upgrade_backup_after api text (is_post_upgrade c) result))
        (record_instance_backup calls c result)

  unfoldable pub record_upgrade_directive_result :
      Hub → HubCalls → ConfigMap → String → PlanResult → Hub × Outcome Unit
  unfolding record_upgrade_backup_result rewrite_object upgrade_after
  record_upgrade_directive_result hub calls c name result =
      if value_of c "type" == "Backup"
      then record_upgrade_backup_result hub calls c name result
      else rewrite_object (λ (u : PostgresUpgrade). u.meta) calls upgrade_kind c.namespace name hub
          hub.upgrades (set_upgrades hub) (upgrade_after api text result)

  -- The switch on the owner's kind, with the owner that stands first.
  unfoldable pub record_owned_directive_result :
      Hub → HubCalls → ConfigMap → OwnerReference → String → PlanResult → Hub × Outcome Unit
  unfolding rewrite_object record_upgrade_directive_result instance_after database_after user_after
      restore_after
  record_owned_directive_result hub calls c owner site_name result =
      let deleting = value_of c "deleting" == "true" in
      if owner.kind == "MultiSitePostgres"
      then rewrite_object (λ (i : MultiSitePostgres). i.meta) calls instance_kind c.namespace
          owner.name hub hub.instances (set_instances hub)
          (instance_after api text result site_name)
      else if owner.kind == "PostgresDatabase"
      then rewrite_object (λ (d : PostgresDatabase). d.meta) calls database c.namespace owner.name
          hub hub.databases (set_databases hub) (database_after api text deleting result site_name)
      else if owner.kind == "PostgresUser"
      then rewrite_object (λ (u : PostgresUser). u.meta) calls user c.namespace owner.name hub
          hub.users (set_users hub) (user_after api text deleting result site_name)
      else if owner.kind == "PostgresRestore"
      then rewrite_object (λ (r : PostgresRestore). r.meta) calls restore_kind c.namespace
          owner.name hub hub.restores (set_restores hub) (restore_after api text result)
      else if owner.kind == "PostgresUpgrade"
      then record_upgrade_directive_result hub calls c owner.name result
      else (hub, failed (not_found "directive operation was not found"))

  -- The first ConfigMap of the operation that has an owner.
  unfoldable pub directive_of : String → List ConfigMap → Option (ConfigMap × OwnerReference)
  directive_of uid [] = none
  directive_of uid (c ∷ cs) =
      let rest = directive_of uid cs in
      elim c.owner_references [
        | [] ↦ rest
        | owner ∷ _ ↦ if value_of c "operationUID" == uid then some (c, owner) else rest
      ]

  unfoldable pub record_directive_result : Hub → HubCalls → String → PlanResult → Hub × Outcome Unit
  unfolding record_owned_directive_result directive_of
  record_directive_result hub calls site_name result =
      if calls.list_fails config_map
      then (hub, failed (call_failed config_map))
      else elim (directive_of result.operation_uid
          (select (has_label "multisite-postgres.dev/directive") hub.config_maps)) [
            | none ↦ (hub, failed (not_found "directive operation was not found"))
            | some (c, owner) ↦ record_owned_directive_result hub calls c owner site_name result
          ]

  unfoldable pub record_result : Hub → HubCalls → String → PlanResult → ℕ → Hub × Outcome Unit
  unfolding record_plan_result record_directive_result
  record_result hub calls site_name result now =
      if result.operation_uid == ""
      then record_plan_result api text hub calls site_name result now
      else record_directive_result hub calls site_name result

-- The messages of an agent after its hello; `other_message` is any that the switch passes over.
pub data AgentMessage : Type 0 where
  signing_request : CertificateSigningRequest → AgentMessage
  heartbeat : AgentMessage
  acknowledgement : PlanAcknowledgement → AgentMessage
  progress : PlanProgress → AgentMessage
  result_message : PlanResult → AgentMessage
  inventory : Bytes → AgentMessage
  other_message : AgentMessage

abbrev pub on_stream : Stream → Hub × Outcome Unit → (Hub × Stream) × Outcome Unit
on_stream st (hub, r) = ((hub, st), r)

abbrev pub with_hub : Hub → Stream × Outcome Unit → (Hub × Stream) × Outcome Unit
with_hub hub (st, r) = ((hub, st), r)

-- What a session meets next: a message of the agent, or the ticker; with the calls that fail, the
-- time, and what the API server then holds, which others write too.
pub data Input : Type 0 where
  received : AgentMessage → Input
  tick : Input

module _ (api : ConditionApi) (text : HubText) (crypto : Crypto) (plans : Codec SitePlan)
    (payloads : Codec Payload) (authority : Authority) where
  -- The body of the loop of `receive`.
  unfoldable pub receive_message :
      HubCalls → SiteRegistration → ℕ → AgentMessage → Hub × Stream → (Hub × Stream) × Outcome Unit
  unfolding rotate_certificate record_heartbeat record_acknowledgement record_progress record_result
      record_inventory
  receive_message calls site now (signing_request r) (hub, st) =
      rotate_certificate api authority hub calls site r st
  receive_message calls site now heartbeat (hub, st) =
      on_stream st (record_heartbeat api hub calls site.meta.name now)
  receive_message calls site now (acknowledgement a) (hub, st) =
      on_stream st (record_acknowledgement api text hub calls site.meta.name a)
  receive_message calls site now (progress p) (hub, st) =
      on_stream st (record_progress api text hub calls site.meta.name p now)
  receive_message calls site now (result_message r) (hub, st) =
      on_stream st (record_result api text hub calls site.meta.name r now)
  receive_message calls site now (inventory json) (hub, st) =
      on_stream st (record_inventory api authority hub calls site.meta.name json)
  receive_message calls site now other_message (hub, st) = ((hub, st), done tt)

  -- One step of either goroutine of `Connect`.
  unfoldable pub session_step :
      HubCalls → SiteRegistration → ℤ → ℕ → Input → Hub × Stream → (Hub × Stream) × Outcome Unit
  unfolding receive_message sync
  session_step calls site configured now (received m) s = receive_message calls site now m s
  session_step calls site configured now tick (hub, st) =
      with_hub hub
        (sync text crypto plans payloads hub calls site.meta.name site.meta.uid now configured st)
