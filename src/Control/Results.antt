-- ===== src/Control/Results.antt =====
-- What a directive's result makes of the status of its owner (`applyDirectiveStatus`,
-- `updateBackupEvidence`, `markBackupScheduleOperation` and the closures of the functions that record
-- a result).
pub mod Success
pub mod Release
use mspsql.Base.{
  ℕ, suc, ℤ, pos, negsuc, String, Bool, true, false, ◌&&◌, ◌||◌, not, Option, none, some, List, [],
  ◌∷◌, ltb, ◌==◌, select, get, if◌then◌else◌,
}
use mspsql.Api.Meta.{Condition, ConditionStatus, condition_true, condition_false, ConditionApi}
use mspsql.Api.Common.{OperationProgressStatus}
use mspsql.Api.Instance.{MultiSitePostgres, MultiSitePostgresStatus, BackupScheduleStatus}
use mspsql.Api.Upgrade.{PostgresUpgrade}
use mspsql.Api.Declarations.{
  PostgresDatabase, PostgresDatabaseStatus, PostgresUser, PostgresUserStatus, PostgresRestore,
}
use mspsql.Control.{
  OwnerReference, ConfigMap, Hub, Kind, instance_kind, database, user, restore_kind, upgrade_kind,
  config_map, HubCalls, Failure, not_found, call_failed, Outcome, done, failed, Report, HubText,
  fetched, missing, unreachable, fetch, put_object, has_label, value_of, set_site_condition,
  set_instance_condition,
}
use mspsql.Control.Dispatch.{then_go}
use mspsql.Control.Record.{PlanResult, write_instance}

abbrev pub is_success : Report → Bool
is_success r = r.type == "Succeeded"

abbrev pub says_true : Report → Bool
says_true r = r.status == "True"

-- The loop of `directiveSucceeded` from a value of `found`.
unfoldable pub succeeded_from : Bool → List Report → Bool
succeeded_from found [] = found
succeeded_from found (r ∷ reports) =
    let passed = succeeded_from true reports in
    let other = succeeded_from found reports in
    if is_success r then (if not (says_true r) then false else passed) else other

unfoldable pub directive_succeeded : List Report → Bool
unfolding succeeded_from
directive_succeeded reports = succeeded_from false reports

unfoldable pub directive_failure : List Report → String × String
directive_failure [] = ("DirectiveFailed", "The site agent reported directive failure")
directive_failure (r ∷ reports) =
    let rest = directive_failure reports in
    if r.status == "False" then (r.reason, r.message) else rest

abbrev pub ended_operation : String → String → String → String → String → OperationProgressStatus
ended_operation uid phase site reason message = record {
  operation_uid = uid;
  phase = phase;
  attempt = 1;
  worker = "";
  site = site;
  next_retry_at = none;
  deadline_at = none;
  last_error_reason = reason;
  last_error_message = message;
  terminal = true;
  manual_intervention_required = false;
}

unfoldable pub directive_result_operation : PlanResult → String → String → OperationProgressStatus
unfolding directive_succeeded directive_failure
directive_result_operation result phase site_name =
    let (reason, message) = directive_failure result.conditions in
    if directive_succeeded result.conditions
    then ended_operation result.operation_uid phase site_name "" ""
    else ended_operation result.operation_uid phase site_name reason message

abbrev pub is_for : String → Option OperationProgressStatus → Bool
is_for uid none = false
is_for uid (some operation) = operation.operation_uid == uid

unfoldable pub mark_first_schedule :
    OperationProgressStatus → List BackupScheduleStatus → List BackupScheduleStatus
mark_first_schedule operation [] = []
mark_first_schedule operation (s ∷ schedules) =
    let rest = mark_first_schedule operation schedules in
    if is_for operation.operation_uid s.operation
    then record s { operation = some operation } ∷ schedules
    else s ∷ rest

unfoldable pub mark_backup_schedule_operation :
    MultiSitePostgresStatus → PlanResult → String → MultiSitePostgresStatus
unfolding mark_first_schedule directive_result_operation
mark_backup_schedule_operation status result site_name = record status {
  backup_schedules =
      mark_first_schedule (directive_result_operation result "ScheduledBackup" site_name)
        status.backup_schedules;
}

abbrev phase_after : Bool → Bool → String
phase_after false deleting = "Failed"
phase_after true true = "Deleted"
phase_after true false = "Ready"

module _ (api : ConditionApi) (text : HubText) where
  abbrev parsed_or : String → Option ℕ → Option ℕ
  parsed_or message old = elim (text.parse_time message) [ none ↦ old | some t ↦ some t ]

  unfoldable pub take_evidence : MultiSitePostgresStatus → Report → MultiSitePostgresStatus
  take_evidence status r =
      if r.type == "BackupCompletedAt"
      then record status { last_backup_time = parsed_or r.message status.last_backup_time }
      else if r.type == "RecoveryWindowStart"
      then record status {
        recovery_window_start = parsed_or r.message status.recovery_window_start;
      }
      else if r.type == "DisposableRestoreVerifiedAt"
      then record status {
        restore_drill_last_verified_at = parsed_or r.message status.restore_drill_last_verified_at;
      }
      else if r.type == "RestoreDrillBackupSet"
      then record status { restore_drill_backup_set = r.message }
      else status

  unfoldable pub update_backup_evidence :
      MultiSitePostgresStatus → List Report → MultiSitePostgresStatus
  unfolding take_evidence
  update_backup_evidence status [] = status
  update_backup_evidence status (r ∷ reports) =
      update_backup_evidence (take_evidence status r) reports

  abbrev with_condition :
      MultiSitePostgres → String → ConditionStatus → String → String → MultiSitePostgres
  with_condition i type status reason message = record i {
    status = record (i.status) {
      conditions =
          set_instance_condition api i.status.conditions i.meta.generation type status reason
            message;
    };
  }

  unfoldable pub set_recovery_window_condition : MultiSitePostgres → MultiSitePostgres
  unfolding set_instance_condition
  set_recovery_window_condition i = elim i.status.recovery_window_start [
    | none ↦ i
    | some _ ↦ elim i.status.restore_drill_last_verified_at [
      | some _ ↦
          with_condition i "RecoveryWindowAvailable" condition_true "DisposableRestoreVerified"
            "Archived WAL continuity and a recent disposable restore drill prove the recovery window"
      | none ↦
          with_condition i "RecoveryWindowAvailable" condition_false "RestoreDrillRequired"
            "Archived WAL continuity is present but a disposable restore drill has not verified recoverability"
    ]
  ]

  unfoldable pub take_instance_reports : List Report → MultiSitePostgres → MultiSitePostgres
  unfolding set_instance_condition
  take_instance_reports [] i = i
  take_instance_reports (r ∷ reports) i =
      take_instance_reports reports
        (with_condition i r.type (text.status_of r.status) r.reason r.message)

  -- What a verified backup proves of an instance.
  abbrev pub backup_verified : List Report → MultiSitePostgres → MultiSitePostgres
  backup_verified reports i = record i { status = update_backup_evidence i.status reports }

  abbrev pub backup_ready : MultiSitePostgres → MultiSitePostgres
  backup_ready i = set_recovery_window_condition (
      with_condition i "BackupReady" condition_true "BackupVerified"
        "pgBackRest completed a backup and verified archived WAL metadata")

  abbrev pub with_marked_schedule : MultiSitePostgres → PlanResult → String → MultiSitePostgres
  with_marked_schedule i result site_name = record i {
    status = mark_backup_schedule_operation i.status result site_name;
  }

  unfoldable pub instance_after : PlanResult → String → MultiSitePostgres → MultiSitePostgres
  unfolding take_instance_reports directive_succeeded update_backup_evidence
      mark_backup_schedule_operation set_recovery_window_condition set_instance_condition
  instance_after result site_name i =
      let reported = take_instance_reports result.conditions i in
      if directive_succeeded result.conditions
      then backup_ready
          (with_marked_schedule (backup_verified result.conditions reported) result site_name)
      else with_condition (with_marked_schedule reported result site_name) "BackupReady"
          condition_false "BackupFailed" "The scheduled pgBackRest operation failed"

  -- `applyDirectiveStatus` on a list of conditions: each report is set, at the object's generation.
  unfoldable pub take_directive_reports : ℕ → List Report → List Condition → List Condition
  unfolding set_instance_condition
  take_directive_reports generation [] cs = cs
  take_directive_reports generation (r ∷ reports) cs =
      take_directive_reports generation reports (
        set_instance_condition api cs generation r.type (text.status_of r.status) r.reason
          r.message)

  unfoldable pub apply_directive_status :
      Bool → ℕ → List Report → List Condition → String × List Condition
  unfolding directive_succeeded take_directive_reports
  apply_directive_status deleting generation reports cs = (
    phase_after (directive_succeeded reports) deleting,
    take_directive_reports generation reports cs,
  )

  abbrev size_or : Option ℤ → ℕ → ℕ
  size_or none old = old
  size_or (some (pos (suc n))) old = suc n
  size_or (some _) old = old

  unfoldable pub take_database_report : Report → PostgresDatabaseStatus → PostgresDatabaseStatus
  take_database_report r status =
      if not (says_true r)
      then status
      else if r.type == "ObservedSize"
      then record status { observed_size = size_or (text.parse_int r.message) status.observed_size }
      else if r.type == "TDEVerified"
      then record status { tde_verified = true }
      else if r.type == "OrphanedDeclarations"
      then elim (text.read_texts r.message) [
        | none ↦ status
        | some names ↦ record status { orphaned_declarations = names }
      ]
      else status

  unfoldable pub take_database_reports :
      List Report → PostgresDatabaseStatus → PostgresDatabaseStatus
  unfolding take_database_report
  take_database_reports [] status = status
  take_database_reports (r ∷ reports) status =
      take_database_reports reports (take_database_report r status)

  unfoldable pub database_after : Bool → PlanResult → String → PostgresDatabase → PostgresDatabase
  unfolding apply_directive_status directive_result_operation take_database_reports
  database_after deleting result site_name d =
      let (phase, cs) =
        apply_directive_status deleting d.meta.generation result.conditions d.status.conditions in
      record d {
        status =
            record (take_database_reports result.conditions (record (d.status) {
              phase = phase;
              conditions = cs;
              operation = some (directive_result_operation result phase site_name);
            })) { observed_generation = d.meta.generation };
      }

  unfoldable pub take_user_reports : List Report → PostgresUserStatus → PostgresUserStatus
  take_user_reports [] status = status
  take_user_reports (r ∷ reports) status =
      let version : ℤ = elim (text.parse_int r.message) [
        | none ↦ status.credential_version
        | some v ↦ v
      ] in
      take_user_reports reports (
        if r.type == "CredentialVersion" && says_true r
        then record status { credential_version = version }
        else status)

  unfoldable pub user_after : Bool → PlanResult → String → PostgresUser → PostgresUser
  unfolding apply_directive_status directive_result_operation take_user_reports
  user_after deleting result site_name u =
      let (phase, cs) =
        apply_directive_status deleting u.meta.generation result.conditions u.status.conditions in
      record u {
        status =
            record (take_user_reports result.conditions (record (u.status) {
              phase = phase;
              conditions = cs;
              operation = some (directive_result_operation result phase site_name);
            })) { observed_generation = u.meta.generation };
      }

  unfoldable pub restore_after : PlanResult → PostgresRestore → PostgresRestore
  unfolding apply_directive_status
  restore_after result r =
      let (phase, cs) =
        apply_directive_status false r.meta.generation result.conditions r.status.conditions in
      record r {
        status = record (r.status) {
          phase = phase;
          conditions = cs;
          observed_generation = r.meta.generation;
        };
      }

  -- The result of a directive of an upgrade that is no backup.
  unfoldable pub upgrade_after : PlanResult → PostgresUpgrade → PostgresUpgrade
  unfolding apply_directive_status
  upgrade_after result u =
      let (phase, cs) =
        apply_directive_status false u.meta.generation result.conditions u.status.conditions in
      record u {
        status = record (u.status) {
          phase = phase;
          conditions = cs;
          observed_generation = u.meta.generation;
        };
      }

  abbrev upgrade_condition :
      PostgresUpgrade → String → ConditionStatus → String → String → PostgresUpgrade
  upgrade_condition u type status reason message = record u {
    status = record (u.status) {
      conditions =
          set_instance_condition api u.status.conditions u.meta.generation type status reason
            message;
    };
  }

  -- The result of an upgrade's backup.
  unfoldable pub upgrade_backup_after : Bool → PlanResult → PostgresUpgrade → PostgresUpgrade
  unfolding directive_succeeded set_instance_condition
  upgrade_backup_after post_upgrade result u =
      let type = if post_upgrade then "PostUpgradeBackupReady" else "FreshBackupReady" in
      let message : String =
        if post_upgrade
        then "pgBackRest completed the post-upgrade full backup and verified archived WAL"
        else "pgBackRest completed a fresh full backup and verified archived WAL" in
      if directive_succeeded result.conditions
      then upgrade_condition u type condition_true "BackupVerified" message
      else upgrade_condition u type condition_false "BackupFailed"
          "The required full backup or WAL verification failed"

  unfoldable pub instance_backup_after : PlanResult → MultiSitePostgres → MultiSitePostgres
  unfolding update_backup_evidence set_recovery_window_condition set_instance_condition
  instance_backup_after result i = backup_ready (backup_verified result.conditions i)
