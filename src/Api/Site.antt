-- ===== src/Api/Site.antt =====
-- The resource SiteRegistration (api/v1alpha1/siteregistration_types.go).
use mspsql.Base.{ℕ, String, Bool, Option, List}
use mspsql.Api.Meta.{ObjectMeta, Condition}
use mspsql.Api.Common.{
  StorageClassPolicy, StorageRollbackPolicy, IssuerPolicy, StorageClassInventory,
  VolumeSnapshotClassInventory, IssuerReference,
}

pub record SiteRegistrationSpec : Type 0 where
  pub display_name : String
  pub revoked : Bool
  pub permitted_storage_classes : StorageClassPolicy
  pub storage_rollback_policies : List StorageRollbackPolicy
  pub permitted_issuers : IssuerPolicy
  pub metallb_address_pools : List String

pub record SiteRegistrationStatus : Type 0 where
  pub observed_generation : ℕ
  pub cluster_uid : String
  pub phase : String
  pub registration_url : String
  pub registration_expires_at : Option ℕ
  pub last_heartbeat_time : Option ℕ
  pub agent_certificate_expires_at : Option ℕ
  pub agent_version : String
  pub discovered_storage_classes : List StorageClassInventory
  pub discovered_volume_snapshot_classes : List VolumeSnapshotClassInventory
  pub discovered_issuers : List IssuerReference
  pub capabilities : List String
  pub conditions : List Condition

pub record SiteRegistration : Type 0 where
  pub meta : ObjectMeta
  pub spec : SiteRegistrationSpec
  pub status : SiteRegistrationStatus
