-- ===== src/Upgrade/Major.antt =====
-- A pass over a major upgrade (`reconcileMajorUpgrade`, `advanceMajorPhase`, `majorUpgradeFailed`).
pub mod Diagram
pub mod Moves
pub mod Gates
pub mod Progress
pub mod Closing
pub mod Completion
use mspsql.Base.{
  ℕ, ◌+◌, String, Bool, true, false, ◌&&◌, ◌||◌, Option, none, some, List, [], ◌∷◌, ltb, any,
  is_some, ◌==◌, if◌then◌else◌, texts, not,
}
use mspsql.Api.Meta.{Condition, condition_false, ConditionApi, is_true}
use mspsql.Api.Common.{SiteRevisionStatus}
use mspsql.Api.Instance.{
  MultiSitePostgres, MajorUpgradePhase, preflight, drain, stop, snapshot, upgrade_primary,
  stanza_upgrade, start_primary, restore_writes, replicas, major_finalize, rollback, rollback_start,
  rollback_restore_writes, PhaseMark, unset, minor, major, unknown, member, switchover, finalize,
}
use mspsql.Api.Upgrade.{PostgresUpgrade}
use mspsql.Upgrade.{
  Stored, Calls, Return, patch, update, finish, next_revision, status_condition,
  major_phase_applied, clear_upgrade_annotations, set_condition, is_condition_true,
  set_upgrade_phase, upgrade_blocked, complete_upgrade,
}
use mspsql.Upgrade.Backup.{ensure_post_upgrade_backup}

-- The constants of `plan.MajorUpgradePhase`.
unfoldable pub phase_text : MajorUpgradePhase → String
phase_text preflight = "MajorPreflight"
phase_text drain = "MajorDrain"
phase_text stop = "MajorStop"
phase_text snapshot = "MajorSnapshot"
phase_text upgrade_primary = "MajorUpgradePrimary"
phase_text stanza_upgrade = "MajorStanzaUpgrade"
phase_text start_primary = "MajorStartPrimary"
phase_text restore_writes = "MajorRestoreWrites"
phase_text replicas = "MajorReplicas"
phase_text major_finalize = "MajorFinalize"
phase_text rollback = "MajorRollback"
phase_text rollback_start = "MajorRollbackStart"
phase_text rollback_restore_writes = "MajorRollbackRestoreWrites"

-- The reasons that end in "Failed" are the agent's; `strings.HasSuffix` is a parameter here, so
-- that statements hold for any way to tell a failure.
abbrev pub HasSuffix : Type 0
HasSuffix = String → String → Bool

abbrev reports_failure : HasSuffix → Option Condition → Bool
reports_failure has_suffix none = false
reports_failure has_suffix (some c) = is_true c.status && has_suffix c.reason "Failed"

unfoldable pub major_upgrade_failed : HasSuffix → MultiSitePostgres → Bool
major_upgrade_failed has_suffix i =
    any
      (λ (site : SiteRevisionStatus).
        reports_failure has_suffix (status_condition site.conditions "MajorUpgradeBlocked"))
      i.status.sites

-- The phases from which a failure rolls back, and those of a rollback that is under way.
abbrev pub rolls_back : MajorUpgradePhase → Bool
rolls_back upgrade_primary = true
rolls_back stanza_upgrade = true
rolls_back start_primary = true
rolls_back _ = false

abbrev pub is_rolling_back : MajorUpgradePhase → Bool
is_rolling_back rollback = true
is_rolling_back rollback_start = true
is_rolling_back rollback_restore_writes = true
is_rolling_back _ = false

-- The instance with the next phase in its annotations, and the revision that the phase waits for.
unfoldable pub at_phase : MultiSitePostgres → MajorUpgradePhase → MultiSitePostgres
at_phase i next = record i {
  annotations = record (i.annotations) {
    upgrade_phase = major next;
    upgrade_revision = some (next_revision i.status.active_revision);
  };
}

module _ (api : ConditionApi) where
  -- The gate before write service: a synchronous standby of the new version, where one is required.
  unfoldable pub replicas_ready : MultiSitePostgres → Bool
  replicas_ready i =
      is_condition_true api i.status.conditions "TopologyReady"
      && not (
          ltb 0 i.spec.postgres.synchronous_standby_count
          && not (is_condition_true api i.status.conditions "SynchronousReplicationReady"))

module _ (api : ConditionApi) (has_suffix : HasSuffix) (hash : String → ℕ → ℕ) where
  unfoldable pub advance_major_phase :
      Calls
      → Stored
      → PostgresUpgrade
      → MultiSitePostgres
      → MajorUpgradePhase
      → String
      → String
      → String
      → ℕ
      → Bool
      → Stored × Return
  unfolding patch at_phase set_upgrade_phase
  advance_major_phase calls s u i next status_phase reason message now start_outage =
      let started : Option ℕ =
        if start_outage && not (is_some u.status.write_outage_started_at)
        then some now
        else u.status.write_outage_started_at in
      patch calls s (at_phase i next) (λ t.
        set_upgrade_phase api calls t
          (record u { status = record (u.status) { write_outage_started_at = started } })
          status_phase reason message now)

  -- The first pass: take the instance, if the topology is known.
  unfoldable pub begin_major_upgrade :
      Calls → Stored → PostgresUpgrade → MultiSitePostgres → ℕ → Stored × Return
  unfolding patch set_upgrade_phase upgrade_blocked
  begin_major_upgrade calls s u i now =
      if i.status.primary == "" || not (is_condition_true api i.status.conditions "TopologyReady")
      then upgrade_blocked api calls s u "TopologyUnavailable"
          "major upgrade requires an observed primary and synchronous topology"
      else patch calls s
          (record i {
            annotations = record (i.annotations) {
              upgrade_uid = u.meta.uid;
              upgrade_name = u.meta.name;
              upgrade_phase = major preflight;
              upgrade_from = i.status.primary;
              upgrade_source_major = some i.spec.postgres.major_version;
              upgrade_revision = some (next_revision i.status.active_revision);
            };
          })
          (λ t.
            set_upgrade_phase api calls t u "Preflight" "PreflightIssued"
              "Validating upgrade binaries and rollback capabilities" now)

  -- Write service is back: the spec takes the target version, and the last phase begins.
  unfoldable pub restore_spec :
      Calls → Stored → PostgresUpgrade → MultiSitePostgres → ℕ → Stored × Return
  unfolding patch at_phase set_upgrade_phase
  restore_spec calls s u i now =
      let restored : Option ℕ =
        if is_some u.status.write_service_restored_at
        then u.status.write_service_restored_at
        else some now in
      patch calls s
        (at_phase
          (record i {
            spec = record (i.spec) {
              postgres = record (i.spec.postgres) {
                major_version = u.spec.target_major_version;
                image = u.spec.target_image;
              };
            };
          })
          major_finalize)
        (λ t.
          set_upgrade_phase api calls t
            (record u { status = record (u.status) { write_service_restored_at = restored } })
            "Finalizing" "ReplicasReady"
            "Running final acceptance with the stable target specification" now)

  -- The last pass of an upgrade, once its backup is done, and of a rollback.
  unfoldable pub end_upgrade :
      Calls → Stored → PostgresUpgrade → MultiSitePostgres → Stored × Return
  unfolding patch complete_upgrade clear_upgrade_annotations
  end_upgrade calls s u i =
      complete_upgrade api calls s u (λ t. patch calls t (clear_upgrade_annotations i) (finish 0))

  unfoldable pub end_rollback :
      Calls → Stored → PostgresUpgrade → MultiSitePostgres → ℕ → Stored × Return
  unfolding patch update set_condition clear_upgrade_annotations
  end_rollback calls s u i now =
      update calls s
        (record u {
          status = record (u.status) {
            write_service_restored_at = some now;
            observed_generation = u.meta.generation;
            phase = "Failed";
            conditions =
                set_condition api u.status.conditions u.meta.generation "Ready" condition_false
                  "RolledBack" "The failed major upgrade was rolled back to the source version";
          };
        })
        (λ t. patch calls t (clear_upgrade_annotations i) (finish 0))

  -- The second `switch`: every site has applied the phase.
  unfoldable pub complete_phase :
      MajorUpgradePhase → Calls → Stored → PostgresUpgrade → MultiSitePostgres → ℕ → Stored × Return
  complete_phase preflight calls s u i now =
      advance_major_phase calls s u i drain "DrainingWrites" "PreflightPassed"
        "Removing Pgpool write endpoints" now true
  complete_phase drain calls s u i now =
      advance_major_phase calls s u i stop "Stopping" "WritesDrained"
        "Stopping every PostgreSQL member cleanly" now false
  complete_phase stop calls s u i now =
      advance_major_phase calls s u i snapshot "CapturingRollback" "MembersStopped"
        "Capturing rollback storage" now false
  complete_phase snapshot calls s u i now =
      advance_major_phase calls s u i upgrade_primary "UpgradingPrimary" "RollbackCaptured"
        "Converting the former primary data directory" now false
  complete_phase upgrade_primary calls s u i now =
      advance_major_phase calls s u i stanza_upgrade "UpgradingBackupStanza" "PrimaryConverted"
        "Updating pgBackRest repository metadata for the target PostgreSQL version" now false
  complete_phase stanza_upgrade calls s u i now =
      advance_major_phase calls s u i start_primary "RestoringService" "BackupStanzaUpgraded"
        "Starting and verifying the upgraded primary" now false
  complete_phase start_primary calls s u i now =
      advance_major_phase calls s u i replicas "ReseedingReplicas" "PrimaryAccepted"
        "Recloning every standby from the upgraded primary before write service is restored" now
        false
  complete_phase replicas calls s u i now =
      if replicas_ready api i
      then advance_major_phase calls s u i restore_writes "RestoringWrites" "ReplicaSyncVerified"
          "Starting Pgpool write service after synchronous replay proof" now false
      else set_upgrade_phase api calls s u "ReseedingReplicas" "ReplicaSyncPending"
          "Waiting for a target-version standby to catch up and become synchronous before restoring writes"
          now
  complete_phase restore_writes calls s u i now = restore_spec calls s u i now
  complete_phase major_finalize calls s u i now =
      ensure_post_upgrade_backup api hash calls s u now (λ v. end_upgrade calls s v i)
  complete_phase rollback calls s u i now =
      advance_major_phase calls s u i rollback_start "VerifyingRollback" "RollbackStorageRestored"
        "Starting and verifying the source PostgreSQL version" now false
  complete_phase rollback_start calls s u i now =
      advance_major_phase calls s u i rollback_restore_writes "RestoringWrites" "RollbackAccepted"
        "Starting Pgpool on the restored source version" now false
  complete_phase rollback_restore_writes calls s u i now = end_rollback calls s u i now

  -- At a phase that the annotations name: a failure first, then the wait for the sites.
  unfoldable pub continue_major_upgrade :
      MajorUpgradePhase → Calls → Stored → PostgresUpgrade → MultiSitePostgres → ℕ → Stored × Return
  unfolding complete_phase
  continue_major_upgrade phase calls s u i now =
      if major_upgrade_failed has_suffix i && rolls_back phase
      then advance_major_phase calls s u i rollback "RollingBack" "PhaseFailed"
          "Restoring every PostgreSQL PVC from rollback storage" now false
      else if major_upgrade_failed has_suffix i && not (is_rolling_back phase)
      then set_upgrade_phase api calls s u (phase_text phase) "ForwardRepairRequired"
          "Automatic rollback is unsafe or no complete rollback checkpoint exists for this phase"
          now
      else if not (major_phase_applied i)
      then set_upgrade_phase api calls s u (phase_text phase) "PhaseProgressing"
          (texts ("Waiting for all sites to complete " ∷ phase_text phase ∷ [])) now
      else complete_phase phase calls s u i now

  -- A mark that is no major phase takes the `default` cases, with the text of the mark.
  unfoldable pub unknown_phase :
      String → Calls → Stored → PostgresUpgrade → MultiSitePostgres → ℕ → Stored × Return
  unfolding upgrade_blocked
  unknown_phase text calls s u i now =
      if major_upgrade_failed has_suffix i
      then set_upgrade_phase api calls s u text "ForwardRepairRequired"
          "Automatic rollback is unsafe or no complete rollback checkpoint exists for this phase"
          now
      else if not (major_phase_applied i)
      then set_upgrade_phase api calls s u text "PhaseProgressing"
          (texts ("Waiting for all sites to complete " ∷ text ∷ [])) now
      else upgrade_blocked api calls s u "InvalidState"
          "instance has an unknown major-upgrade phase"

  -- The text of a mark that is no major phase.
  unfoldable pub major_pass :
      PhaseMark → Calls → Stored → PostgresUpgrade → MultiSitePostgres → ℕ → Stored × Return
  unfolding continue_major_upgrade unknown_phase
  major_pass (major phase) calls s u i now = continue_major_upgrade phase calls s u i now
  major_pass unset calls s u i now = unknown_phase "" calls s u i now
  major_pass (minor member) calls s u i now = unknown_phase "Member" calls s u i now
  major_pass (minor switchover) calls s u i now = unknown_phase "Switchover" calls s u i now
  major_pass (minor finalize) calls s u i now = unknown_phase "Finalize" calls s u i now
  major_pass (unknown text) calls s u i now = unknown_phase text calls s u i now

  -- `u` is the pass's copy of the upgrade; its copy of the instance is as stored.
  unfoldable pub reconcile_major_upgrade : Calls → Stored → PostgresUpgrade → ℕ → Stored × Return
  unfolding major_pass begin_major_upgrade upgrade_blocked
  reconcile_major_upgrade calls s u now =
      let i = s.instance in
      if i.annotations.upgrade_uid == ""
      then begin_major_upgrade calls s u i now
      else if not (i.annotations.upgrade_uid == u.meta.uid)
      then upgrade_blocked api calls s u "OperationConflict"
          "instance is owned by another upgrade operation"
      else major_pass i.annotations.upgrade_phase calls s u i now
