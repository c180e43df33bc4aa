-- ===== src/Tests/Hubs.antt =====
-- A hub with one registration, one instance, a plan and a database's directive, and the readers and
-- calls that the examples of the control server run on.
use mspsql.Base.{true, false, none, some, Option, List, [], ◌∷◌, texts, ◌==◌, if◌then◌else◌}
use mspsql.Api.Meta.{condition_true, condition_false}
use mspsql.Api.Common.{delete, SiteRevisionStatus}
use mspsql.Api.Instance.{MultiSitePostgres, unset}
use mspsql.Api.Site.{SiteRegistration}
use mspsql.Api.Declarations.{PostgresDatabase}
use mspsql.Control.{ConfigMap, OwnerReference, Hub, HubCalls, HubText}
use mspsql.Control.Dispatch.{Stream}
use mspsql.Control.Session.{AgentHello, Peer, presented, Authority, issued, expires}
use mspsql.Control.Trust.{group_version}
use mspsql.Tests.Samples.{meta, instance_at, site_status}
use mspsql.Tests.Plans.{envelope, repeat}

abbrev first_owner : List OwnerReference → Option OwnerReference
first_owner [] = none
first_owner (owner ∷ _) = some owner

abbrev pub hub_text : HubText
hub_text = record {
  bytes_of = λ s. [];
  read_envelope = λ s. if s == "" then none else some (envelope 7);
  write_envelope = λ e. some e.plan;
  read_backup = λ s. none;
  read_backup_type = λ s. some "full";
  parse_time = λ s. none;
  database_text = λ d. some d.database_name;
  user_text = λ u. some u.role_name;
  parse_int = λ s. none;
  read_texts = λ s. none;
  read_report = λ s. none;
  status_of = λ s. if s == "True" then condition_true else condition_false;
  decode_key = λ s. some (repeat 64);
  controller_of = first_owner;
  cut_prefix = λ s p. none;
  join = texts;
  failure_text = λ e. "error";
  is_same_site = λ s t. false;
}

abbrev pub all_calls_succeed : HubCalls
all_calls_succeed = record {
  list_fails = λ k. false;
  index_fails = false;
  get_fails = λ k name. false;
  update_fails = λ k name. false;
  send_fails = λ name. false;
}

-- The registration of site "a", bound to the cluster "c1".
abbrev pub site_a : SiteRegistration
site_a = record {
  meta = record (meta "site") { name = "a"; namespace = "" };
  spec = record {
    display_name = "A";
    revoked = false;
    permitted_storage_classes = record { etcd = []; postgres = []; restore_workspace = [] };
    storage_rollback_policies = [];
    permitted_issuers = record { etcd = []; postgres = []; pgpool = []; backup = [] };
    metallb_address_pools = [];
  };
  status = record {
    observed_generation = 1;
    cluster_uid = "c1";
    phase = "Connected";
    registration_url = "";
    registration_expires_at = none;
    last_heartbeat_time = none;
    agent_certificate_expires_at = none;
    agent_version = "v1";
    discovered_storage_classes = [];
    discovered_volume_snapshot_classes = [];
    discovered_issuers = [];
    capabilities = [];
    conditions = [];
  };
}

-- Site "a" has seen the primary, and wants revision 8.
abbrev pub reporting : SiteRevisionStatus
reporting = record (site_status "a" 7) {
  desired_revision = 8;
  addresses = ("postgres-a-0", "10.0.0.3") ∷ [];
}

abbrev pub instance_a : MultiSitePostgres
instance_a = record (instance_at "" unset) {
  status = record ((instance_at "" unset).status) { sites = reporting ∷ [] };
}

abbrev pub database_a : PostgresDatabase
database_a = record {
  meta = record (meta "database") { name = "orders" };
  spec = record {
    instance_ref = "db";
    database_name = "orders";
    deletion_policy = delete;
    schemas = [];
    roles = [];
    quotas = record {
      role_quotas = record {
        connection_limit = none;
        statement_timeout = none;
        lock_timeout = none;
        idle_in_transaction_session_timeout = none;
        temp_file_limit = none;
      };
      storage_alert_threshold = none;
    };
  };
  status = record {
    observed_generation = 0;
    phase = "";
    tde_verified = false;
    observed_size = 0;
    orphaned_declarations = [];
    operation = none;
    conditions = [];
  };
}

abbrev pub database_owner : OwnerReference
database_owner = record {
  api_version = group_version;
  kind = "PostgresDatabase";
  name = "orders";
  uid = "database";
  controller = true;
}

abbrev pub database_directive : ConfigMap
database_directive = record {
  namespace = "db";
  name = "mspsql-database-orders";
  labels = ("multisite-postgres.dev/directive", "Database") ∷ [];
  owner_references = database_owner ∷ [];
  contents =
      ("type", "Database")
      ∷ ("instanceRef", "db")
      ∷ ("deleting", "false")
      ∷ ("operationUID", "database-1-false")
      ∷ ("spec.json", "orders")
      ∷ [];
}

abbrev plan_a : ConfigMap
plan_a = record {
  namespace = "db";
  name = "plan-a";
  labels = ("multisite-postgres.dev/site-registration-uid", "site") ∷ [];
  owner_references = [];
  contents = ("envelope.json", "{}") ∷ [];
}

abbrev pub hub_a : Hub
hub_a = record {
  registrations = site_a ∷ [];
  instances = instance_a ∷ [];
  databases = database_a ∷ [];
  users = [];
  restores = [];
  upgrades = [];
  config_maps = plan_a ∷ database_directive ∷ [];
  signing_secret = some "key";
}

abbrev pub empty_stream : Stream
empty_stream = record { outbox = []; sent_plans = []; sent_directives = [] }

-- A hello of the site from another cluster, under its certificate.
abbrev pub moved_hello : AgentHello
moved_hello = record {
  protocol_version = "v1alpha1";
  registration_uid = "site";
  cluster_uid = "c2";
  agent_version = "v2";
  capabilities = [];
}

abbrev pub peer_a : Peer
peer_a = presented (record { common_name = "site"; uris = []; not_after = 99 })

abbrev pub authority : Authority
authority = record {
  sign_certificate = some (λ site csr. issued (1 ∷ []) (2 ∷ []));
  read_certificate = λ certificate. expires 99;
  read_inventory = λ json. none;
  size_of = λ s. 1;
}
