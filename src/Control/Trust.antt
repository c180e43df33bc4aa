-- ===== src/Control/Trust.antt =====
-- Which directives the server signs: the checks on a directive's ConfigMap against its owner
-- (`directiveOwnerTrusted` and what it calls).
pub mod Declared
pub mod Owned
pub mod Backups
use mspsql.Base.{
  ℕ, ◌/◌, String, Bool, true, false, ◌&&◌, ◌||◌, not, Option, none, some, List, [], ◌∷◌, nat_eq,
  is_some, ◌==◌, texts, format_int, if◌then◌else◌,
}
use mspsql.Api.Common.{DeletionPolicy, retain, delete}
use mspsql.Api.Instance.{MultiSitePostgres, BackupScheduleStatus}
use mspsql.Api.Declarations.{PostgresDatabase, PostgresUser}
use mspsql.Api.Upgrade.{PostgresUpgrade}
use mspsql.Upgrade.Retry.{second}
use mspsql.Control.{
  OwnerReference, ConfigMap, Hub, Kind, database, user, upgrade_kind, HubCalls, call_failed,
  decode_failed, Outcome, done, failed, BackupRequest, HubText, Fetched, fetched, missing,
  unreachable, fetch, value_of,
}

abbrev pub group_version : String
group_version = "multisite-postgres.dev/v1alpha1"

abbrev pub bool_text : Bool → String
bool_text true = "true"
bool_text false = "false"

abbrev pub is_delete : DeletionPolicy → Bool
is_delete delete = true
is_delete retain = false

abbrev pub declared_operation_uid : String → ℕ → Bool → String
declared_operation_uid uid generation deleting =
    texts (uid ∷ "-" ∷ format_int generation ∷ "-" ∷ bool_text deleting ∷ [])

-- `declarationDirectiveTrusted`, with the declaration's spec as its text.
unfoldable pub declaration_directive_trusted :
    ConfigMap
    → OwnerReference
    → MultiSitePostgres
    → String
    → ℕ
    → String
    → Option ℕ
    → DeletionPolicy
    → Option String
    → Outcome Bool
declaration_directive_trusted c owner i uid generation instance_ref deletion policy spec =
    let deleting = value_of c "deleting" == "true" in
    if not (uid == owner.uid)
      || (not (instance_ref == i.meta.name)
          || (not (value_of c "operationUID" == declared_operation_uid uid generation deleting)
              || (deleting && not (is_some deletion)
                  || (not deleting && is_some deletion || deleting && not (is_delete policy)))))
    then done false
    else elim spec [
      | none ↦ failed decode_failed
      | some encoded ↦ done (encoded == value_of c "spec.json")
    ]

unfoldable pub database_directive_trusted :
    HubText → Hub → HubCalls → ConfigMap → OwnerReference → MultiSitePostgres → Outcome Bool
unfolding declaration_directive_trusted
database_directive_trusted text hub calls c owner i =
    if not (value_of c "type" == "Database")
      || not (c.name == texts ("mspsql-database-" ∷ owner.name ∷ []))
    then done false
    else elim (fetch (λ (d : PostgresDatabase). d.meta) (calls.get_fails database owner.name)
        hub.databases c.namespace owner.name) [
          | unreachable ↦ failed (call_failed database)
          | missing ↦ done false
          | fetched d ↦
              declaration_directive_trusted c owner i d.meta.uid d.meta.generation
                d.spec.instance_ref d.meta.deletion_timestamp d.spec.deletion_policy
                (text.database_text d.spec)
        ]

unfoldable pub user_directive_trusted :
    HubText → Hub → HubCalls → ConfigMap → OwnerReference → MultiSitePostgres → Outcome Bool
unfolding declaration_directive_trusted
user_directive_trusted text hub calls c owner i =
    if not (value_of c "type" == "User") || not (c.name == texts ("mspsql-user-" ∷ owner.name ∷ []))
    then done false
    else elim (fetch (λ (u : PostgresUser). u.meta) (calls.get_fails user owner.name) hub.users
        c.namespace owner.name) [
          | unreachable ↦ failed (call_failed user)
          | missing ↦ done false
          | fetched u ↦
              declaration_directive_trusted c owner i u.meta.uid u.meta.generation
                u.spec.instance_ref u.meta.deletion_timestamp u.spec.deletion_policy
                (text.user_text u.spec)
        ]

abbrev pub scheduled_name : String → ℕ → String
scheduled_name type t = texts ("mspsql-backup-" ∷ type ∷ "-" ∷ format_int (t / second) ∷ [])

abbrev pub scheduled_operation_uid : String → String → ℕ → String
scheduled_operation_uid uid type t =
    texts (uid ∷ "-backup-" ∷ type ∷ "-" ∷ format_int (t / second) ∷ [])

abbrev pub is_at : Option ℕ → ℕ → Bool
is_at none t = false
is_at (some s) t = nat_eq s t

-- The loop over the schedules: the first that matches decides.
unfoldable pub schedule_matches : ConfigMap → String → String → ℕ → List BackupScheduleStatus → Bool
schedule_matches c uid type t [] = false
schedule_matches c uid type t (s ∷ rest) =
    let later = schedule_matches c uid type t rest in
    if s.type == type && is_at s.last_scheduled_at t
    then c.name == scheduled_name type t
      && value_of c "operationUID" == scheduled_operation_uid uid type t
    else later

unfoldable pub scheduled_backup_directive_trusted :
    HubText → ConfigMap → OwnerReference → MultiSitePostgres → Bool
unfolding schedule_matches
scheduled_backup_directive_trusted text c owner i =
    if not (value_of c "type" == "Backup")
      || (not (owner.uid == i.meta.uid)
          || (not (owner.name == i.meta.name) || not (value_of c "deleting" == "false")))
    then false
    else elim (text.read_backup (value_of c "spec.json")) [
      | none ↦ false
      | some scheduled ↦ elim (text.parse_time scheduled.scheduled_at) [
        | none ↦ false
        | some t ↦ schedule_matches c i.meta.uid scheduled.backup_type t i.status.backup_schedules
      ]
    ]

abbrev pub preflight_name : String → String
preflight_name uid = texts ("mspsql-upgrade-backup-" ∷ uid ∷ [])

abbrev pub preflight_operation_uid : String → String
preflight_operation_uid uid = texts (uid ∷ "-preflight-backup" ∷ [])

abbrev pub post_upgrade_name : String → ℕ → String
post_upgrade_name uid attempt =
    texts ("mspsql-post-upgrade-backup-" ∷ uid ∷ "-" ∷ format_int attempt ∷ [])

abbrev pub post_upgrade_operation_uid : String → ℕ → String
post_upgrade_operation_uid uid attempt =
    texts (uid ∷ "-post-upgrade-backup-" ∷ format_int attempt ∷ [])

-- The switch on the phase of the backup.
unfoldable pub upgrade_backup_matches : ConfigMap → PostgresUpgrade → Bool
upgrade_backup_matches c u =
    if value_of c "upgradeBackupPhase" == "preflight"
    then is_some u.status.preflight_backup_requested_at
      && (c.name == preflight_name u.meta.uid
          && value_of c "operationUID" == preflight_operation_uid u.meta.uid)
    else if value_of c "upgradeBackupPhase" == "post-upgrade"
    then is_some u.status.post_upgrade_backup_requested_at
      && (c.name == post_upgrade_name u.meta.uid u.status.post_upgrade_backup_attempt
          && value_of c "operationUID"
            == post_upgrade_operation_uid u.meta.uid u.status.post_upgrade_backup_attempt)
    else false

unfoldable pub upgrade_backup_directive_trusted :
    Hub → HubCalls → ConfigMap → OwnerReference → MultiSitePostgres → Outcome Bool
unfolding upgrade_backup_matches
upgrade_backup_directive_trusted hub calls c owner i =
    if not (value_of c "type" == "Backup") || not (value_of c "deleting" == "false")
    then done false
    else elim (fetch (λ (u : PostgresUpgrade). u.meta) (calls.get_fails upgrade_kind owner.name)
        hub.upgrades c.namespace owner.name) [
          | unreachable ↦ failed (call_failed upgrade_kind)
          | missing ↦ done false
          | fetched u ↦
              if not (u.meta.uid == owner.uid) || not (u.spec.instance_ref == i.meta.name)
              then done false
              else done (upgrade_backup_matches c u)
        ]

unfoldable pub directive_owner_trusted :
    HubText → Hub → HubCalls → ConfigMap → Option OwnerReference → MultiSitePostgres → Outcome Bool
unfolding database_directive_trusted user_directive_trusted scheduled_backup_directive_trusted
    upgrade_backup_directive_trusted
directive_owner_trusted text hub calls c none i = done false
directive_owner_trusted text hub calls c (some owner) i =
    if not (owner.api_version == group_version)
      || (owner.uid == "" || not (value_of c "instanceRef" == i.meta.name))
    then done false
    else if owner.kind == "PostgresDatabase"
    then database_directive_trusted text hub calls c owner i
    else if owner.kind == "PostgresUser"
    then user_directive_trusted text hub calls c owner i
    else if owner.kind == "MultiSitePostgres"
    then done (scheduled_backup_directive_trusted text c owner i)
    else if owner.kind == "PostgresUpgrade"
    then upgrade_backup_directive_trusted hub calls c owner i
    else done false
