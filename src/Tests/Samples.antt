-- ===== src/Tests/Samples.antt =====
-- The instance, the upgrade, the keys and the library functions that the examples run on.
use mspsql.Base.{
  ℕ, String, Bool, false, ◌≡◌, refl, none, some, List, [], ◌∷◌, pos, ◌==◌, if◌then◌else◌, eq_iff,
  arith,
}
use mspsql.Api.Meta.{Condition, condition_true, ConditionApi, ObjectMeta}
use mspsql.Api.Common.{
  retain, role_data, PostgresSiteSpec, IssuerReference, InstanceCredentialsSpec,
  VaultSecretReference, SiteRevisionStatus,
}
use mspsql.Api.Instance.{MultiSitePostgres, PostgresSpec, MultiSitePostgresStatus, PhaseMark}
use mspsql.Api.Upgrade.{PostgresUpgrade}
use mspsql.Upgrade.{Stored, status_condition}

-- A list of conditions with one of a type replaced, or added at the end.
abbrev replace : List Condition → Condition → List Condition
replace [] c = c ∷ []
replace (x ∷ cs) c = let rest = replace cs c in if x.type == c.type then c ∷ cs else x ∷ rest

pub find-replace :
    (cs : List Condition) (c : Condition) (t : String)
    → status_condition (replace cs c) t ≡ (if c.type == t then some c else status_condition cs t)
find-replace [] c t = refl
find-replace (x ∷ cs) c t =
    ground (arith, find-replace cs c t, eq_iff x.type c.type, eq_iff c.type t, eq_iff x.type t)

abbrev pub conditions : ConditionApi
conditions = record {
  find_status_condition = status_condition;
  set_status_condition = replace;
  find-set = find-replace;
}

abbrev pub fails_by_name : String → String → Bool
fails_by_name reason suffix = reason == "UpgradeFailed"

abbrev pub hash : String → ℕ → ℕ
hash operation attempt = attempt

abbrev issuer : IssuerReference
issuer = record { name = "ca"; kind = "Issuer"; group = "cert-manager.io" }

abbrev pub site_spec : String → PostgresSiteSpec
site_spec name = record {
  name = name;
  site_registration_ref = name;
  namespace = "db";
  role = role_data;
  primary_preference = 1;
  components = record { etcd_replicas = 1; postgres_replicas = 1; pgpool_replicas = 0 };
  storage = record { etcd = none; postgres = none; restore_workspace = none };
  load_balancer = none;
  vault_auth = none;
  certificates = record {
    etcd_issuer_ref = issuer;
    etcd_peer_issuer_ref = issuer;
    etcd_client_issuer_ref = issuer;
    postgres_issuer_ref = issuer;
    pgpool_issuer_ref = issuer;
    backup_issuer_ref = issuer;
  };
}

abbrev pub vault_ref : VaultSecretReference
vault_ref = record { mount = "kv"; path = "db"; key = "password" }

abbrev pub postgres_spec : PostgresSpec
postgres_spec = record {
  major_version = 16;
  image = "postgres:16";
  synchronous_standby_count = 1;
  parameters = [];
}

abbrev pub credentials : InstanceCredentialsSpec
credentials = record { postgres_vault_ref = vault_ref; pgpool_vault_ref = vault_ref }

abbrev pub condition : String → Condition
condition type = record {
  type = type;
  status = condition_true;
  observed_generation = 1;
  reason = "Seen";
  message = "";
}

abbrev pub meta : String → ObjectMeta
meta uid = record {
  name = "db";
  namespace = "db";
  uid = uid;
  generation = 1;
  deletion_timestamp = none;
  labels = [];
}

-- A site that has applied a revision and has seen its members.
abbrev pub site_status : String → ℕ → SiteRevisionStatus
site_status name revision = record {
  name = name;
  site_registration_ref = name;
  desired_revision = revision;
  acknowledged_revision = revision;
  applied_revision = revision;
  phase = "Ready";
  addresses = ("etcd-a-0", "10.0.0.9") ∷ [];
  primary = "postgres-a-0";
  synchronous_standbys = "postgres-b-0" ∷ [];
  topology_observed_at = some 5;
  last_heartbeat_time = some 5;
  conditions = [];
}

abbrev pub instance_status : ℕ → MultiSitePostgresStatus
instance_status revision = record {
  observed_generation = 1;
  active_revision = revision;
  plan_fingerprint = "";
  phase = "Ready";
  primary = "postgres-a-0";
  synchronous_standbys = "postgres-b-0" ∷ [];
  sites = site_status "a" revision ∷ site_status "b" revision ∷ [];
  last_backup_time = none;
  recovery_window_start = none;
  restore_drill_last_verified_at = none;
  restore_drill_backup_set = "";
  operation = none;
  backup_schedules = [];
  conditions =
      condition "TopologyReady" ∷ condition "SynchronousReplicationReady" ∷ condition "Ready" ∷ [];
}

-- Revision 7 is applied, and the upgrade waits for it.
abbrev pub instance_at : String → PhaseMark → MultiSitePostgres
instance_at upgrade_uid mark = record {
  meta = meta "instance";
  annotations = record {
    upgrade_uid = upgrade_uid;
    upgrade_name = "up";
    upgrade_phase = mark;
    upgrade_member = "postgres-b-0";
    upgraded_members = [];
    upgrade_from = "postgres-a-0";
    upgrade_candidate = "postgres-b-0";
    upgrade_switched = false;
    upgrade_revision = some 7;
    upgrade_source_major = some 16;
    restore_phase = "";
    address_observation = none;
  };
  spec = record {
    deletion_policy = retain;
    postgres = postgres_spec;
    sites = site_spec "a" ∷ site_spec "b" ∷ [];
    tde = record { enabled = false; vault = none };
    backup = none;
    credentials = credentials;
  };
  status = instance_status 7;
}

abbrev pub upgrade : PostgresUpgrade
upgrade = record {
  meta = meta "upgrade";
  spec = record {
    instance_ref = "db";
    target_image = "postgres:17";
    target_major_version = 17;
    upgrade_image = "upgrade:17";
    service_restoration_target = pos 0;
    rollback_retention = pos 0;
    benchmark = none;
  };
  status = record {
    observed_generation = 1;
    phase = "";
    started_at = none;
    preflight_backup_requested_at = none;
    post_upgrade_backup_requested_at = none;
    post_upgrade_backup_attempt = 0;
    write_outage_started_at = none;
    write_service_restored_at = none;
    upgraded_members = [];
    operation = none;
    conditions = condition "PostUpgradeBackupReady" ∷ [];
  };
}

abbrev pub stored_at : PhaseMark → Stored
stored_at mark = record {
  instance = instance_at "upgrade" mark;
  upgrade = upgrade;
  directives = [];
}
