-- ===== src/Api/Upgrade.antt =====
-- The resource PostgresUpgrade (api/v1alpha1/postgresupgrade_types.go).
use mspsql.Base.{ℕ, ℤ, String, Bool, Option, List}
use mspsql.Api.Meta.{ObjectMeta, Condition}
use mspsql.Api.Common.{OperationProgressStatus}

pub record MajorUpgradeBenchmark : Type 0 where
  pub tested_at : Option ℕ
  pub estimated_write_outage : ℤ
  pub upgrade_image : String
  pub source_major_version : ℕ
  pub target_major_version : ℕ
  pub tde_enabled : Bool
  pub postgres_storage_classes : List String
  pub evidence : String

pub record PostgresUpgradeSpec : Type 0 where
  pub instance_ref : String
  pub target_image : String
  pub target_major_version : ℕ
  pub upgrade_image : String
  pub service_restoration_target : ℤ
  pub rollback_retention : ℤ
  pub benchmark : Option MajorUpgradeBenchmark

pub record PostgresUpgradeStatus : Type 0 where
  pub observed_generation : ℕ
  pub phase : String
  pub started_at : Option ℕ
  pub preflight_backup_requested_at : Option ℕ
  pub post_upgrade_backup_requested_at : Option ℕ
  pub post_upgrade_backup_attempt : ℕ
  pub write_outage_started_at : Option ℕ
  pub write_service_restored_at : Option ℕ
  pub upgraded_members : List String
  pub operation : Option OperationProgressStatus
  pub conditions : List Condition

pub record PostgresUpgrade : Type 0 where
  pub meta : ObjectMeta
  pub spec : PostgresUpgradeSpec
  pub status : PostgresUpgradeStatus
