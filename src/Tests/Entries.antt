-- ===== src/Tests/Entries.antt =====
-- The start and the deletion of an upgrade, and the policy of a site, at concrete inputs.
use mspsql.Base.{true, false, ◌≡◌, refl, ◌⊎◌, ◌↔◌, some, none, [], ◌∷◌, pos}
use mspsql.Api.Instance.{MultiSitePostgres, PhaseMark, unset, major, rollback, preflight}
use mspsql.Api.Upgrade.{PostgresUpgrade}
use mspsql.Upgrade.{Stored}
use mspsql.Upgrade.Major.Closing.{all_succeed}
use mspsql.Upgrade.Contract.{validate_major_upgrade_contract}
use mspsql.Upgrade.Contract.Qualified.{IsQualified, validate_major_upgrade_contract-IsQualified}
use mspsql.Upgrade.Deletion.{Guarded, instance_read, DeletionCalls, reconcile_upgrade_deletion}
use mspsql.Upgrade.Deletion.Safety.{LetsGo, reconcile_upgrade_deletion-LetsGo}
use mspsql.Upgrade.Entry.{Pass, Controller, reconcile}
use mspsql.Upgrade.Entry.Gates.{MayStart, reconcile-MayStart}
use mspsql.Policy.{validate_site_policy}
use mspsql.Policy.Permitted.{IsPermitted, validate_site_policy_iff}
use mspsql.Tests.Samples.{
  conditions, fails_by_name, hash, instance_at, upgrade, stored_at, condition, site_spec, vault_ref,
}
use mspsql.Tests.Hubs.{site_a}

abbrev deleting : DeletionCalls
deleting = record {
  calls = all_succeed;
  read = instance_read;
  update_fails = false;
  force_abandon = false;
}

-- The upgrade in progress, with the instance at a phase.
abbrev under_way : PhaseMark → Stored
under_way mark = record (stored_at mark) {
  upgrade = record upgrade { status = record (upgrade.status) { phase = "RollingBack" } };
}

reconcile_upgrade_deletion-LetsGo_example :
    LetsGo conditions fails_by_name hash deleting
      (under_way (major preflight))
      (reconcile_upgrade_deletion conditions fails_by_name hash deleting
        (record { stored = under_way (major preflight); finalizer = true })
        9).0
unfolding reconcile_upgrade_deletion
reconcile_upgrade_deletion-LetsGo_example =
    reconcile_upgrade_deletion-LetsGo conditions fails_by_name hash deleting
      (under_way (major preflight)) 9 refl

abbrev rolling_back : Guarded
rolling_back = record { stored = under_way (major rollback); finalizer = true }

-- Every text holds every other, and every name is the registration of site "a".
abbrev controller : Controller
controller = record {
  has_suffix = fails_by_name;
  hash = hash;
  contains_text = λ text part. true;
  has_prefix = λ text part. false;
  reads = λ name. some site_a;
  error_text = λ e. "rejected";
}

abbrev healthy : MultiSitePostgres
healthy = record (instance_at "" unset) {
  spec = record ((instance_at "" unset).spec) {
    backup = some (record {
      repository = record {
        type = "S3";
        bucket = "b";
        prefix = "p";
        endpoint = "e";
        region = "r";
        uri_style = "path";
        ca_bundle_secret_ref = none;
        credential_vault_ref = vault_ref;
      };
      schedules = record { full = ""; differential = ""; incremental = ""; timezone = "" };
      retention = record { duration = pos 1; wal_duration = pos 1 };
    });
  };
  status = record ((instance_at "" unset).status) {
    last_backup_time = some 5;
    conditions = condition "TopologyReady" ∷ condition "Ready" ∷ condition "BackupReady" ∷ [];
  };
}

abbrev qualified : PostgresUpgrade
qualified = record upgrade {
  spec = record (upgrade.spec) {
    rollback_retention = pos 1;
    service_restoration_target = pos 60;
    benchmark = some (record {
      tested_at = some 3;
      estimated_write_outage = pos 30;
      upgrade_image = "upgrade:17";
      source_major_version = 16;
      target_major_version = 17;
      tde_enabled = false;
      postgres_storage_classes = [];
      evidence = "report";
    });
  };
  status = record (upgrade.status) { conditions = condition "FreshBackupReady" ∷ [] };
}

validate_major_upgrade_contract-IsQualified_example :
    IsQualified (λ text part. true) (λ name. some site_a) qualified healthy 9
unfolding validate_major_upgrade_contract
validate_major_upgrade_contract-IsQualified_example =
    validate_major_upgrade_contract-IsQualified (λ text part. true) (λ name. some site_a) qualified
      healthy 9 refl

abbrev pass : Pass
pass = record { deletion = deleting; upgrades = some []; restores = some []; read_error = "" }

abbrev entering : Guarded
entering = record {
  stored = record { instance = healthy; upgrade = qualified; directives = [] };
  finalizer = true;
}

reconcile-MayStart_example :
    ((reconcile conditions controller pass entering 9).0.stored.instance ≡ healthy)
    ⊎ MayStart conditions controller pass entering.stored qualified 9
reconcile-MayStart_example = reconcile-MayStart conditions controller pass entering 9 refl refl refl

-- The pass takes the instance.
entering_test :
    (reconcile conditions controller pass entering 9).0.stored.instance.annotations.upgrade_uid
    ≡ "upgrade"
unfolding reconcile validate_major_upgrade_contract
entering_test = refl

validate_site_policy_iff_example :
    (validate_site_policy (site_spec "a") site_a ≡ none) ↔ IsPermitted (site_spec "a") site_a
validate_site_policy_iff_example = validate_site_policy_iff (site_spec "a") site_a
