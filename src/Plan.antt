-- ===== src/Plan.antt =====
-- The signed site plans (internal/plan/plan.go): the plan, its envelope, `Sign` and
-- `Verify`. ed25519, base64 and JSON are the parameters of `Codec`.
pub mod Signing
use mspsql.Base.{
  ℕ, ℤ, String, Bool, true, false, ◌&&◌, ◌||◌, ◌≡◌, Option, none, some, List, [], length, ltb,
  nat_eq, not, is_some, ◌==◌, if◌then◌else◌,
}
use mspsql.Api.Common.{
  DeletionPolicy, PostgresSiteSpec, TdeSpec, BackupSpec, InstanceCredentialsSpec,
  StorageRollbackPolicy,
}
use mspsql.Api.Instance.{PostgresSpec, UpgradePhase, MajorUpgradePhase}

abbrev pub protocol_version : String
protocol_version = "v1alpha1"

pub data CredentialRotationPhase : Type 0 where
  catalog rotate_member revoke finalize_rotation : CredentialRotationPhase

pub record CredentialRotationPlan : Type 0 where
  pub version : ℕ
  pub previous_version : ℕ
  pub phase : CredentialRotationPhase
  pub target_member : String
  pub updated_members : List String

pub record AddressMigrationPlan : Type 0 where
  pub operation_uid : String
  pub member : String
  pub old_address : String
  pub new_address : String

pub data RestorePhase : Type 0 where
  seed restore_replicas verify_restore : RestorePhase

pub record RestorePlan : Type 0 where
  pub operation_uid : String
  pub source_instance_uid : String
  pub source_backup : BackupSpec
  pub target_time : ℕ
  pub backup_set : String
  pub seed_site : String
  pub seed_member : String
  pub phase : RestorePhase

pub record UpgradePlan : Type 0 where
  pub operation_uid : String
  pub target_image : String
  pub target_member : String
  pub upgraded_members : List String
  pub from_primary : String
  pub candidate : String
  pub phase : UpgradePhase

pub record MajorUpgradePlan : Type 0 where
  pub operation_uid : String
  pub phase : MajorUpgradePhase
  pub primary : String
  pub source_major : ℕ
  pub target_major : ℕ
  pub target_image : String
  pub upgrade_image : String
  pub rollback_retention : ℤ
  pub rollback_policies : List (String × StorageRollbackPolicy)

pub record SitePlan : Type 0 where
  pub protocol_version : String
  pub site_uid : String
  pub instance_uid : String
  pub hub_namespace : String
  pub hub_name : String
  pub revision : ℕ
  pub generated_at : ℕ
  pub site : PostgresSiteSpec
  pub postgres : PostgresSpec
  pub tde : TdeSpec
  pub tde_key_creator : Bool
  pub backup : Option BackupSpec
  pub credentials : InstanceCredentialsSpec
  pub member_addresses : List (String × String)
  pub address_candidates : List (String × String)
  pub address_migration : Option AddressMigrationPlan
  pub credential_rotation : Option CredentialRotationPlan
  pub required_capabilities : List String
  pub runtime_credential_version : ℕ
  pub runtime_certificate_hashes : List (String × String)
  pub restore : Option RestorePlan
  pub upgrade : Option UpgradePlan
  pub major_upgrade : Option MajorUpgradePlan
  pub deletion : Option DeletionPolicy

abbrev pub Bytes : Type 0
Bytes = List ℕ

pub record Envelope : Type 0 where
  pub plan : Bytes
  pub signature : String

-- What the code uses of `crypto/ed25519` and `encoding/base64`.
pub record Crypto : Type 0 where
  pub public_key_of : Bytes → Bytes
  pub sign : Bytes → Bytes → Bytes
  pub verify : Bytes → Bytes → Bytes → Bool
  pub encode : Bytes → String
  pub decode : String → Option Bytes

-- A signature verifies under the public key of the key that made it, and its text is read back.
pub record IsSound (crypto : Crypto) (key : Bytes) : Type 0 where
  pub verify-sign :
      (m : Bytes) → crypto.verify (crypto.public_key_of key) m (crypto.sign key m) ≡ true
  pub decode-encode :
      (m : Bytes) → crypto.decode (crypto.encode (crypto.sign key m)) ≡ some (crypto.sign key m)

-- `Canonical` (`json.Marshal` and `json.Compact`) and `json.Unmarshal` of a type; each may fail.
pub record Codec (A : Type 0) : Type 0 where
  pub canonical : A → Option Bytes
  pub unmarshal : Bytes → Option A

-- The bytes of `a`, if it can be written, are read as `b`.
abbrev pub ReadsAs : {A : Type 0} → Codec A → A → A → Type 0
ReadsAs codec a b = (w : Bytes) → codec.canonical a ≡ some w → codec.unmarshal w ≡ some b

-- The two fields with the tag `json:"-"` stay behind.
abbrev pub on_the_wire : SitePlan → SitePlan
on_the_wire p = record p { runtime_credential_version = 0; runtime_certificate_hashes = [] }

abbrev pub private_key_size : ℕ
private_key_size = 64

abbrev pub public_key_size : ℕ
public_key_size = 32

pub data PlanError : Type 0 where
  invalid_private_key invalid_public_key incomplete_identity marshal_failed decode_signature
        invalid_signature decode_plan unsupported_protocol identity_mismatch old_revision :
      PlanError

pub data Result {ℓ} (A : Type ℓ) : Type ℓ where
  ok : A → Result A
  err : PlanError → Result A

module _ (crypto : Crypto) (codec : Codec SitePlan) where
  unfoldable pub sign : Bytes → SitePlan → Result Envelope
  sign private_key desired =
      if not (nat_eq (length private_key) private_key_size)
      then err invalid_private_key
      else if ltb desired.revision 1 || desired.site_uid == "" || desired.instance_uid == ""
      then err incomplete_identity
      else elim (codec.canonical (record desired { protocol_version = protocol_version })) [
        | none ↦ err marshal_failed
        | some payload ↦
            ok (record {
              plan = payload;
              signature = crypto.encode (crypto.sign private_key payload);
            })
      ]

  -- The checks on the decoded plan.
  unfoldable pub check_plan : SitePlan → String → String → ℕ → Result SitePlan
  check_plan desired site_uid instance_uid minimum_revision =
      if not (desired.protocol_version == protocol_version)
      then err unsupported_protocol
      else if not (desired.site_uid == site_uid) || not (desired.instance_uid == instance_uid)
      then err identity_mismatch
      else if ltb desired.revision minimum_revision
      then err old_revision
      else ok desired

  unfoldable pub verify : Bytes → Envelope → String → String → ℕ → Result SitePlan
  verify public_key envelope site_uid instance_uid minimum_revision =
      if not (nat_eq (length public_key) public_key_size)
      then err invalid_public_key
      else elim (crypto.decode envelope.signature) [
        | none ↦ err decode_signature
        | some signature ↦
            if not (crypto.verify public_key envelope.plan signature)
            then err invalid_signature
            else elim (codec.unmarshal envelope.plan) [
              | none ↦ err decode_plan
              | some desired ↦ check_plan desired site_uid instance_uid minimum_revision
            ]
      ]
