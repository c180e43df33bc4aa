-- ===== src/Upgrade/Entry.antt =====
-- A pass of the upgrade controller from its start (`Reconcile`, `ensureFreshUpgradeBackup`).
pub mod Gates
use mspsql.Base.{
  ℕ, ◌-◌, ◌*◌, String, Bool, true, false, ◌&&◌, ◌||◌, not, Option, none, some, List, [], ◌∷◌, ltb,
  nat_eq, any, is_some, ◌==◌, if◌then◌else◌, texts, lookup, insert,
}
use mspsql.Api.Meta.{Condition, condition_false, ConditionApi, is_true, is_false}
use mspsql.Api.Instance.{MultiSitePostgres, PhaseMark, unset, minor, major, unknown}
use mspsql.Api.Upgrade.{PostgresUpgrade}
use mspsql.Api.Declarations.{PostgresRestore}
use mspsql.Api.Site.{SiteRegistration}
use mspsql.Upgrade.{
  Stored, Calls, Call, get_instance, get_directive, create_directive, update_upgrade, list_upgrades,
  list_restores, Return, finished, failed, BackupDirective, update, finish, status_condition,
  set_condition, is_condition_true, set_upgrade_phase, upgrade_blocked,
}
use mspsql.Upgrade.Retry.{second}
use mspsql.Upgrade.Major.{HasSuffix, reconcile_major_upgrade}
use mspsql.Upgrade.Minor.{reconcile_minor_upgrade}
use mspsql.Upgrade.Contract.{ContractError, validate_major_upgrade_contract}
use mspsql.Upgrade.Deletion.{
  Guarded, InstanceRead, instance_read, instance_missing, instance_unread, DeletionCalls,
  holds_instance, is_over, remove_finalizer, reconcile_upgrade_deletion, reconcile_terminal_upgrade,
}

-- What a pass reads and which of its calls fail: `none` for a list that cannot be read.
pub record Pass : Type 0 where
  pub deletion : DeletionCalls
  pub upgrades : Option (List PostgresUpgrade)
  pub restores : Option (List PostgresRestore)
  pub read_error : String

-- The parameters that the parts of the controller take: the suffix test and the hash, `strings.Contains`,
-- `strings.HasPrefix`, the registrations as read, and the text of a contract's error.
pub record Controller : Type 0 where
  pub has_suffix : HasSuffix
  pub hash : String → ℕ → ℕ
  pub contains_text : String → String → Bool
  pub has_prefix : String → String → Bool
  pub reads : String → Option SiteRegistration
  pub error_text : ContractError → String

abbrev pub kept : Stored × Return → Guarded × Return
kept (s, r) = (record { stored = s; finalizer = true }, r)

abbrev pub drop_finalizer : DeletionCalls → Bool → Stored → Guarded × Return
drop_finalizer d finalizer s =
    if finalizer
    then remove_finalizer d s
    else (record { stored = s; finalizer = false }, finished 0)

-- Another upgrade, or a restore, that is not over and targets the instance.
abbrev pub conflicts : PostgresUpgrade → PostgresUpgrade → Bool
conflicts u other =
    not (other.meta.name == u.meta.name)
    && (other.spec.instance_ref == u.spec.instance_ref && not (is_over other.status.phase))

abbrev pub restores_over : PostgresUpgrade → PostgresRestore → Bool
restores_over u r =
    r.spec.target_instance_ref == u.spec.instance_ref && not (is_over r.status.phase)

-- The last backup: none, or its age.
abbrev pub is_older : Option ℕ → ℕ → Bool
is_older none now = false
is_older (some t) now = ltb (24 * 3600 * second) (now - t)

abbrev pub preflight_backup_name : String → String
preflight_backup_name uid = texts ("mspsql-upgrade-backup-" ∷ uid ∷ [])

abbrev pub preflight_directive : PostgresUpgrade → ℕ → BackupDirective
preflight_directive u requested_at = record {
  type = "Backup";
  instance_ref = u.spec.instance_ref;
  deleting = "false";
  operation_uid = texts (u.meta.uid ∷ "-preflight-backup" ∷ []);
  upgrade_backup_phase = "preflight";
  backup_type = "full";
  scheduled_at = requested_at;
}

module _ (api : ConditionApi) where
  -- The request of the backup and the wait for it.
  unfoldable pub issue_fresh_backup : Calls → Stored → PostgresUpgrade → ℕ → ℕ → Stored × Return
  unfolding set_upgrade_phase
  issue_fresh_backup calls s u requested_at now =
      let name = preflight_backup_name u.meta.uid in
      let wait = λ (t : Stored).
        set_upgrade_phase api calls t u "Preflight" "FreshBackupProgressing"
          "Waiting for the preflight full backup to complete" now in
      if calls.get_fails
      then (s, failed get_directive)
      else if is_some (lookup name s.directives)
      then wait s
      else if calls.create_fails
      then (s, failed create_directive)
      else wait
          (record s { directives = insert name (preflight_directive u requested_at) s.directives })

  unfoldable pub request_fresh_backup : Calls → Stored → PostgresUpgrade → ℕ → Stored × Return
  unfolding update set_condition
  request_fresh_backup calls s u now =
      update calls s
        (record u {
          status = record (u.status) {
            preflight_backup_requested_at = some now;
            observed_generation = u.meta.generation;
            phase = "Preflight";
            conditions =
                set_condition api u.status.conditions u.meta.generation "FreshBackupReady"
                  condition_false "BackupRequested"
                  "Waiting for a new full backup and archived WAL verification";
          };
        })
        (finish 0)

  abbrev fresh_backup_done : PostgresUpgrade → Bool
  fresh_backup_done u = elim (status_condition u.status.conditions "FreshBackupReady") [
    | none ↦ false
    | some c ↦ is_true c.status
  ]

  -- The message of a failed backup.
  abbrev fresh_backup_failure : PostgresUpgrade → Option String
  fresh_backup_failure u = elim (status_condition u.status.conditions "FreshBackupReady") [
    | none ↦ none
    | some c ↦ if is_false c.status && c.reason == "BackupFailed" then some c.message else none
  ]

  -- `ready` is the rest of the pass once the backup is done.
  unfoldable pub ensure_fresh_upgrade_backup :
      Calls → Stored → PostgresUpgrade → ℕ → (Stored → Stored × Return) → Stored × Return
  unfolding upgrade_blocked request_fresh_backup issue_fresh_backup
  ensure_fresh_upgrade_backup calls s u now ready =
      if fresh_backup_done u then ready s else elim (fresh_backup_failure u) [
        | some message ↦ upgrade_blocked api calls s u "FreshBackupFailed" message
        | none ↦ elim u.status.preflight_backup_requested_at [
          | none ↦ request_fresh_backup calls s u now
          | some requested_at ↦ issue_fresh_backup calls s u requested_at now
        ]
      ]

  module _ (c : Controller) where
    abbrev with_benchmark : PostgresUpgrade → PostgresUpgrade
    with_benchmark u = record u {
      status = record (u.status) {
        conditions =
            set_condition api u.status.conditions u.meta.generation "ServiceRestorationTargetAtRisk"
              condition_false "BenchmarkWithinTarget"
              "the qualified upgrade path is within the requested service-restoration target";
      };
    }

    -- A major upgrade, once its backup is done.
    unfoldable pub begin_contract : Calls → PostgresUpgrade → ℕ → Stored → Stored × Return
    unfolding upgrade_blocked set_condition reconcile_major_upgrade
    begin_contract calls u now s =
        elim (validate_major_upgrade_contract c.contains_text c.reads u s.instance now) [
          | some e ↦ upgrade_blocked api calls s u "PlatformContractRejected" (c.error_text e)
          | none ↦ reconcile_major_upgrade api c.has_suffix c.hash calls s (with_benchmark u) now
        ]

    -- The start of either kind.
    unfoldable pub start_upgrade : Calls → Stored → PostgresUpgrade → ℕ → Stored × Return
    unfolding ensure_fresh_upgrade_backup begin_contract reconcile_minor_upgrade
    start_upgrade calls s u now =
        if not (nat_eq u.spec.target_major_version s.instance.spec.postgres.major_version)
        then ensure_fresh_upgrade_backup calls s u now (begin_contract calls u now)
        else reconcile_minor_upgrade api calls s u now

    abbrev pub is_unhealthy : MultiSitePostgres → Bool
    is_unhealthy i =
        not (is_condition_true api i.status.conditions "Ready")
        || (not (is_condition_true api i.status.conditions "BackupReady")
            || not (is_some i.status.last_backup_time))

    -- The gates before the start.
    unfoldable pub enter_upgrade : Pass → Stored → PostgresUpgrade → ℕ → Stored × Return
    unfolding upgrade_blocked start_upgrade is_condition_true
    enter_upgrade p s u now =
        let calls = p.deletion.calls in
        if is_unhealthy s.instance
        then upgrade_blocked api calls s u "PreflightFailed"
            "instance, synchronous replication and a recent verified backup must be healthy"
        else if is_older s.instance.status.last_backup_time now
        then upgrade_blocked api calls s u "BackupTooOld"
            "the most recent verified backup is older than 24 hours"
        else elim p.upgrades [
          | none ↦ (s, failed list_upgrades)
          | some upgrades ↦
              if any (conflicts u) upgrades
              then upgrade_blocked api calls s u "OperationConflict"
                  "another upgrade targets this instance"
              else elim p.restores [
                | none ↦ (s, failed list_restores)
                | some restores ↦
                    if any (restores_over u) restores
                    then upgrade_blocked api calls s u "OperationConflict"
                        "a restore targets this instance"
                    else start_upgrade calls s u now
              ]
        ]

    -- The annotation's text begins with "Major".
    abbrev pub is_major_mark : PhaseMark → Bool
    is_major_mark (major phase) = true
    is_major_mark (unknown text) = c.has_prefix text "Major"
    is_major_mark _ = false

    -- With the instance read: an upgrade under way goes on, and any other enters.
    unfoldable pub reconcile_read : Pass → Stored → PostgresUpgrade → ℕ → Stored × Return
    unfolding enter_upgrade reconcile_major_upgrade reconcile_minor_upgrade
    reconcile_read p s u now =
        let calls = p.deletion.calls in
        if is_major_mark s.instance.annotations.upgrade_phase && holds_instance s
        then reconcile_major_upgrade api c.has_suffix c.hash calls s u now
        else if nat_eq u.spec.target_major_version s.instance.spec.postgres.major_version
            && holds_instance s
        then reconcile_minor_upgrade api calls s u now
        else enter_upgrade p s u now

    -- The end of an upgrade that is over.
    unfoldable pub reconcile_over : Pass → Guarded → Guarded × Return
    unfolding reconcile_terminal_upgrade remove_finalizer
    reconcile_over p g = elim p.deletion.read [
      | instance_unread ↦ (g, failed get_instance)
      | instance_missing ↦ drop_finalizer p.deletion g.finalizer g.stored
      | instance_read ↦
          let (s, (taken, error)) =
            reconcile_terminal_upgrade api c.has_suffix c.hash p.deletion.calls g.stored in
          elim error [
            | some call ↦ (record { stored = s; finalizer = g.finalizer }, failed call)
            | none ↦ drop_finalizer p.deletion g.finalizer s
          ]
    ]

    -- `Reconcile`. Past the second test the upgrade is not over: there `reconcileTerminalUpgrade` does
    -- nothing, and a failing read of the instance blocks.
    unfoldable pub reconcile : Pass → Guarded → ℕ → Guarded × Return
    unfolding reconcile_upgrade_deletion reconcile_over reconcile_read upgrade_blocked
    reconcile p g now =
        let u = g.stored.upgrade in
        if is_some u.meta.deletion_timestamp
        then reconcile_upgrade_deletion api c.has_suffix c.hash p.deletion g now
        else if is_over u.status.phase
        then reconcile_over p g
        else if not g.finalizer
        then (if p.deletion.update_fails
            then (g, failed update_upgrade)
            else (record { stored = g.stored; finalizer = true }, finished 0))
        else elim p.deletion.read [
          | instance_read ↦ kept (reconcile_read p g.stored u now)
          | _ ↦
              kept
                (upgrade_blocked api p.deletion.calls g.stored u "InstanceUnavailable" p.read_error)
        ]
