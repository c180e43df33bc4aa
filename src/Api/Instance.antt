-- ===== src/Api/Instance.antt =====
-- The resource MultiSitePostgres (api/v1alpha1/multisitepostgres_types.go).
use mspsql.Base.{ℕ, String, Option, List, Bool}
use mspsql.Api.Meta.{ObjectMeta, Condition}
use mspsql.Api.Common.{
  DeletionPolicy, PostgresSiteSpec, TdeSpec, BackupSpec, InstanceCredentialsSpec,
  OperationProgressStatus, SiteRevisionStatus,
}

pub record PostgresSpec : Type 0 where
  pub major_version : ℕ
  pub image : String
  pub synchronous_standby_count : ℕ
  pub parameters : List (String × String)

pub record MultiSitePostgresSpec : Type 0 where
  pub deletion_policy : DeletionPolicy
  pub postgres : PostgresSpec
  pub sites : List PostgresSiteSpec
  pub tde : TdeSpec
  pub backup : Option BackupSpec
  pub credentials : InstanceCredentialsSpec

pub record BackupScheduleStatus : Type 0 where
  pub type : String
  pub last_scheduled_at : Option ℕ
  pub next_scheduled_at : Option ℕ
  pub operation : Option OperationProgressStatus

pub record MultiSitePostgresStatus : Type 0 where
  pub observed_generation : ℕ
  pub active_revision : ℕ
  pub plan_fingerprint : String
  pub phase : String
  pub primary : String
  pub synchronous_standbys : List String
  pub sites : List SiteRevisionStatus
  pub last_backup_time : Option ℕ
  pub recovery_window_start : Option ℕ
  pub restore_drill_last_verified_at : Option ℕ
  pub restore_drill_backup_set : String
  pub operation : Option OperationProgressStatus
  pub backup_schedules : List BackupScheduleStatus
  pub conditions : List Condition

-- `plan.UpgradePhase` and `plan.MajorUpgradePhase` (internal/plan/plan.go).
pub data UpgradePhase : Type 0 where
  member switchover finalize : UpgradePhase

pub data MajorUpgradePhase : Type 0 where
  preflight drain stop snapshot upgrade_primary stanza_upgrade start_primary restore_writes replicas
        major_finalize rollback rollback_start rollback_restore_writes :
      MajorUpgradePhase

-- What the text of the annotation `upgrade-phase` says: nothing, a phase of either kind of upgrade,
-- or a text that is none of their names.
pub data PhaseMark : Type 0 where
  unset : PhaseMark
  minor : UpgradePhase → PhaseMark
  major : MajorUpgradePhase → PhaseMark
  unknown : String → PhaseMark

-- The annotations by which the controllers keep the state of an operation, a field for each key; an
-- absent key reads as the empty text. The two that hold a number are read by `strconv.ParseInt`:
-- `none` where that fails. `address_observation` is the time that its text names.
pub record Annotations : Type 0 where
  pub upgrade_uid : String
  pub upgrade_name : String
  pub upgrade_phase : PhaseMark
  pub upgrade_member : String
  pub upgraded_members : List String
  pub upgrade_from : String
  pub upgrade_candidate : String
  pub upgrade_switched : Bool
  pub upgrade_revision : Option ℕ
  pub upgrade_source_major : Option ℕ
  pub restore_phase : String
  pub address_observation : Option ℕ

pub record MultiSitePostgres : Type 0 where
  pub meta : ObjectMeta
  pub annotations : Annotations
  pub spec : MultiSitePostgresSpec
  pub status : MultiSitePostgresStatus
