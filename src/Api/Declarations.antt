-- ===== src/Api/Declarations.antt =====
-- The resources PostgresDatabase, PostgresUser and PostgresRestore
-- (api/v1alpha1/postgresdatabase_types.go, postgresuser_types.go, postgresrestore_types.go), and the
-- quotas of common_types.go. A quantity is its text, or in a status its count of bytes.
use mspsql.Base.{ℕ, ℤ, String, Bool, Option, List}
use mspsql.Api.Meta.{ObjectMeta, Condition}
use mspsql.Api.Common.{
  DeletionPolicy, VaultSecretReference, OperationProgressStatus, PostgresSiteSpec, BackupSpec,
}

pub record RoleQuotas : Type 0 where
  pub connection_limit : Option ℤ
  pub statement_timeout : Option ℤ
  pub lock_timeout : Option ℤ
  pub idle_in_transaction_session_timeout : Option ℤ
  pub temp_file_limit : Option String

pub record DatabaseQuotas : Type 0 where
  pub role_quotas : RoleQuotas
  pub storage_alert_threshold : Option String

pub record DatabaseRole : Type 0 where
  pub name : String
  pub profile : String

pub record PostgresDatabaseSpec : Type 0 where
  pub instance_ref : String
  pub database_name : String
  pub deletion_policy : DeletionPolicy
  pub schemas : List String
  pub roles : List DatabaseRole
  pub quotas : DatabaseQuotas

pub record PostgresDatabaseStatus : Type 0 where
  pub observed_generation : ℕ
  pub phase : String
  pub tde_verified : Bool
  pub observed_size : ℕ
  pub orphaned_declarations : List String
  pub operation : Option OperationProgressStatus
  pub conditions : List Condition

pub record PostgresDatabase : Type 0 where
  pub meta : ObjectMeta
  pub spec : PostgresDatabaseSpec
  pub status : PostgresDatabaseStatus

pub record RoleMembership : Type 0 where
  pub database_ref : String
  pub role : String

pub record PostgresUserSpec : Type 0 where
  pub instance_ref : String
  pub role_name : String
  pub deletion_policy : DeletionPolicy
  pub member_of : List RoleMembership
  pub password_vault_ref : VaultSecretReference
  pub quotas : RoleQuotas

pub record PostgresUserStatus : Type 0 where
  pub observed_generation : ℕ
  pub phase : String
  pub credential_version : ℤ
  pub operation : Option OperationProgressStatus
  pub conditions : List Condition

pub record PostgresUser : Type 0 where
  pub meta : ObjectMeta
  pub spec : PostgresUserSpec
  pub status : PostgresUserStatus

pub record RestoreTopology : Type 0 where
  pub sites : List PostgresSiteSpec

pub record PostgresRestoreSpec : Type 0 where
  pub source_instance_ref : String
  pub target_instance_ref : String
  pub target_time : ℕ
  pub backup_set : String
  pub restore_topology : RestoreTopology
  pub target_backup : Option BackupSpec

pub record PostgresRestoreStatus : Type 0 where
  pub observed_generation : ℕ
  pub phase : String
  pub selected_backup_set : String
  pub recovered_to : Option ℕ
  pub operation : Option OperationProgressStatus
  pub conditions : List Condition

pub record PostgresRestore : Type 0 where
  pub meta : ObjectMeta
  pub spec : PostgresRestoreSpec
  pub status : PostgresRestoreStatus
