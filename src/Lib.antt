-- ===== src/Lib.antt =====
-- mspsql: a hub and its site agents that run PostgreSQL over several Kubernetes clusters.
--
-- The hub's controllers read resources, decide what each site should run, and sign a plan for each
-- site. The agent of a site verifies a plan, keeps it in a cache and renders it; it carries out
-- signed directives, such as a backup, once each; and it reports what it has applied and seen. The
-- controllers go on from these reports.
--
-- Base: tests, lists, texts and integers that the other modules share.
-- Api: the resources (api/v1alpha1), with Declarations for databases, users and restores, and
--   the part of k8s.io/apimachinery that the code uses on conditions, as a record of operations with
--   the law that they document.
-- The modules Plan and Directive: internal/plan/plan.go, internal/directive/directive.go. `sign` and `verify` are
--   Sign and Verify; ed25519 and base64 are a parameter, JSON another, and the theorems name what
--   they need of them.
-- Upgrade: internal/controller/postgresupgrade_controller.go. A pass takes the stored objects and a
--   record that says which of its API calls fail, and gives the stored objects and what it returns.
--   Upgrade.Entry is Reconcile with ensureFreshUpgradeBackup, Upgrade.Contract
--   validateMajorUpgradeContract, Upgrade.Deletion reconcileUpgradeDeletion.
--   Upgrade.Major is reconcileMajorUpgrade: Diagram its edges and gates, Moves that each pass
--   follows them, Gates what they keep safe, Progress, Closing and Completion how it ends. Upgrade.Backup is
--   ensurePostUpgradeBackup, Upgrade.Retry its delay. Upgrade.Minor is reconcileMinorUpgrade:
--   Rollout its steps.
-- Agent: Phases is what internal/agent/render.go stops at each phase of an upgrade; Cache is
--   internal/agent/cache.go; Directives is internal/control/directive_state.go with applyDirective of
--   internal/control/client.go, whose effects are a list in the order in which they happen.
-- Instance: parts of internal/controller/multisitepostgres_controller.go. Topology is
--   aggregateTopology, Addresses is addressPlan, Credentials is credentialRotationPlan, Status is
--   mergeReconciledStatus.
-- Control: internal/control/server.go. A Hub is the stored objects that the server reads and writes,
--   HubCalls says which of its API calls fail, and an update of an object is one atomic step. Trust
--   is the test of a directive against its owner, Targets the sites it goes to, Dispatch a round of
--   sending on a stream, whose messages stand with the newest first. Session is how a site is bound
--   and what it says of itself, Record what a site reports of a plan, Results what it reports of a
--   directive, Receive one message of a session and the steps of many. The two goroutines of a
--   session are steps in any order. Aggregate is how the conditions of sites become an instance's.
-- Policy: validateSitePolicy of internal/controller/policy.go.
-- Wireguard: the addresses of internal/wireguard/config.go. An attempt to reserve or to release one
--   is an atomic step on the ConfigMap of the allocations.
-- Tests: the theorems at concrete inputs.
--
-- Numbers are natural: revisions are at least 0 where the code keeps them, the increment of the
-- largest int64 wraps below every other, and a time is a count of nanoseconds from a fixed start.
-- Loops are recursion on lists or on the rounds that are left; the search for an address has as many
-- rounds as the network has addresses, and Wireguard.Search shows that these are enough.
-- An annotation that holds a phase is the phase that its text names, one that holds a number is none
-- where it cannot be parsed.
--
-- Not modelled: Kubernetes rendering, HTTP registration, webhooks, the reconcilers of restores,
-- databases and users, the backup schedules, the keys and peers of WireGuard, telemetry, Vault and
-- the loop of the agent's control stream, which are mostly calls of other programs. The gRPC
-- transport, TLS and the signer of certificates are parameters of Control. The time stamps of
-- conditions are left out: no decision reads them.
pub mod Base
pub mod Api
pub mod Plan
pub mod Directive
pub mod Upgrade
pub mod Agent
pub mod Instance
pub mod Control
pub mod Policy
pub mod Wireguard
mod Tests
