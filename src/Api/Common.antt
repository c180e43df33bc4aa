-- ===== src/Api/Common.antt =====
-- The types that several resources share (api/v1alpha1/common_types.go). A quantity is its text.
use mspsql.Base.{ℕ, ℤ, String, Bool, Option, List}
use mspsql.Api.Meta.{Condition}

pub data DeletionPolicy : Type 0 where
  retain delete : DeletionPolicy

-- `other` stands for every text but the two constants; the empty role is one of them.
pub data SiteRole : Type 0 where
  role_data role_witness : SiteRole
  role_other : String → SiteRole

pub record IssuerReference : Type 0 where
  pub name : String
  pub kind : String
  pub group : String

pub record StorageClassPolicy : Type 0 where
  pub etcd : List String
  pub postgres : List String
  pub restore_workspace : List String

pub record IssuerPolicy : Type 0 where
  pub etcd : List IssuerReference
  pub postgres : List IssuerReference
  pub pgpool : List IssuerReference
  pub backup : List IssuerReference

pub record StorageClassInventory : Type 0 where
  pub name : String
  pub provisioner : String
  pub reclaim_policy : String
  pub volume_binding_mode : String
  pub allow_volume_expansion : Bool
  pub allowed_topologies : List String
  pub access_modes : List String

pub record VolumeSnapshotClassInventory : Type 0 where
  pub name : String
  pub driver : String
  pub deletion_policy : String

pub record StorageRollbackPolicy : Type 0 where
  pub storage_class_name : String
  pub strategy : String
  pub volume_snapshot_class_name : String

-- int32 counts, at least 0 by the schema
pub record SiteComponents : Type 0 where
  pub etcd_replicas : ℕ
  pub postgres_replicas : ℕ
  pub pgpool_replicas : ℕ

pub record StorageRequest : Type 0 where
  pub storage_class_name : String
  pub size : String

pub record SiteStorage : Type 0 where
  pub etcd : Option StorageRequest
  pub postgres : Option StorageRequest
  pub restore_workspace : Option StorageRequest

pub record LoadBalancerSpec : Type 0 where
  pub address_pool : String
  pub peer_source_addresses : List String

pub record SecretKeyReference : Type 0 where
  pub name : String
  pub key : String

pub record VaultAuthSpec : Type 0 where
  pub address : String
  pub auth_mount : String
  pub auth_role : String
  pub ca_bundle_secret_ref : Option SecretKeyReference

pub record SiteCertificateSpec : Type 0 where
  pub etcd_issuer_ref : IssuerReference
  pub etcd_peer_issuer_ref : IssuerReference
  pub etcd_client_issuer_ref : IssuerReference
  pub postgres_issuer_ref : IssuerReference
  pub pgpool_issuer_ref : IssuerReference
  pub backup_issuer_ref : IssuerReference

pub record PostgresSiteSpec : Type 0 where
  pub name : String
  pub site_registration_ref : String
  pub namespace : String
  pub role : SiteRole
  pub primary_preference : ℕ
  pub components : SiteComponents
  pub storage : SiteStorage
  pub load_balancer : Option LoadBalancerSpec
  pub vault_auth : Option VaultAuthSpec
  pub certificates : SiteCertificateSpec

pub record TdeVaultSpec : Type 0 where
  pub kv_mount : String
  pub key_path : String
  pub provider_name : String
  pub principal_key_name : String

pub record TdeSpec : Type 0 where
  pub enabled : Bool
  pub vault : Option TdeVaultSpec

pub record VaultSecretReference : Type 0 where
  pub mount : String
  pub path : String
  pub key : String

pub record InstanceCredentialsSpec : Type 0 where
  pub postgres_vault_ref : VaultSecretReference
  pub pgpool_vault_ref : VaultSecretReference

pub record BackupRepositorySpec : Type 0 where
  pub type : String
  pub bucket : String
  pub prefix : String
  pub endpoint : String
  pub region : String
  pub uri_style : String
  pub ca_bundle_secret_ref : Option SecretKeyReference
  pub credential_vault_ref : VaultSecretReference

pub record BackupSchedules : Type 0 where
  pub full : String
  pub differential : String
  pub incremental : String
  pub timezone : String

-- durations in nanoseconds
pub record BackupRetention : Type 0 where
  pub duration : ℤ
  pub wal_duration : ℤ

pub record BackupSpec : Type 0 where
  pub repository : BackupRepositorySpec
  pub schedules : BackupSchedules
  pub retention : BackupRetention

pub record OperationProgressStatus : Type 0 where
  pub operation_uid : String
  pub phase : String
  pub attempt : ℕ
  pub worker : String
  pub site : String
  pub next_retry_at : Option ℕ
  pub deadline_at : Option ℕ
  pub last_error_reason : String
  pub last_error_message : String
  pub terminal : Bool
  pub manual_intervention_required : Bool

pub record SiteRevisionStatus : Type 0 where
  pub name : String
  pub site_registration_ref : String
  pub desired_revision : ℕ
  pub acknowledged_revision : ℕ
  pub applied_revision : ℕ
  pub phase : String
  pub addresses : List (String × String)
  pub primary : String
  pub synchronous_standbys : List String
  pub topology_observed_at : Option ℕ
  pub last_heartbeat_time : Option ℕ
  pub conditions : List Condition
