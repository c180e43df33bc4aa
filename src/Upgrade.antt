-- ===== src/Upgrade.antt =====
-- The controller of upgrades (internal/controller/postgresupgrade_controller.go): the stored
-- objects, the API calls that a pass makes, and the operations that both kinds of upgrade share.
--
-- A pass reads the objects, changes copies of them and writes the copies back. `Stored` is what the
-- API server holds; `Calls` says which of the pass's calls fail. A call that fails changes nothing,
-- and the pass returns its error. No pass makes the same call twice.
pub mod Retry
pub mod Backup
pub mod Major
pub mod Minor
pub mod Deletion
pub mod Contract
pub mod Entry
use mspsql.Base.{
  ℕ, zero, suc, ◌+◌, ◌^◌, String, Bool, true, false, ◌&&◌, Option, none, some, List, [], ◌∷◌, ltb,
  leb, nat_eq, all, is_some, ◌==◌, if◌then◌else◌,
}
use mspsql.Api.Meta.{
  Condition, ConditionStatus, condition_true, condition_false, ConditionApi, is_true,
}
use mspsql.Api.Common.{SiteRevisionStatus}
use mspsql.Api.Instance.{MultiSitePostgres, Annotations, PhaseMark, unset}
use mspsql.Api.Upgrade.{PostgresUpgrade}

-- The ConfigMap that asks a site for a backup.
pub record BackupDirective : Type 0 where
  pub type : String
  pub instance_ref : String
  pub deleting : String
  pub operation_uid : String
  pub upgrade_backup_phase : String
  pub backup_type : String
  pub scheduled_at : ℕ

pub record Stored : Type 0 where
  pub instance : MultiSitePostgres
  pub upgrade : PostgresUpgrade
  pub directives : List (String × BackupDirective)

pub data Call : Type 0 where
  patch_instance update_status get_directive create_directive get_instance update_upgrade
        list_upgrades list_restores :
      Call

pub record Calls : Type 0 where
  pub patch_fails : Bool
  pub status_fails : Bool
  pub get_fails : Bool
  pub create_fails : Bool

-- `(ctrl.Result, error)`: the delay before the next pass, 0 for none, or the call that failed.
pub data Return : Type 0 where
  finished : ℕ → Return
  failed : Call → Return

-- int64 revisions. `next_revision` of the largest is the smallest, a negative number, which in every
-- comparison of the code stands below all others, as 0 does here.
unfoldable pub next_revision : ℕ → ℕ
next_revision r = if ltb (r + 1) (2 ^ 63) then r + 1 else 0

-- `r.Patch` of the instance and `r.Status().Update` of the upgrade, and then the rest of the pass.
unfoldable pub patch :
    Calls → Stored → MultiSitePostgres → (Stored → Stored × Return) → Stored × Return
patch calls s i rest =
    if calls.patch_fails then (s, failed patch_instance) else rest (record s { instance = i })

-- The update writes the status alone.
unfoldable pub update :
    Calls → Stored → PostgresUpgrade → (Stored → Stored × Return) → Stored × Return
update calls s u rest =
    if calls.status_fails
    then (s, failed update_status)
    else rest (record s { upgrade = record (s.upgrade) { status = u.status } })

abbrev pub finish : ℕ → Stored → Stored × Return
finish delay s = (s, finished delay)

-- `statusCondition`
abbrev pub status_condition : List Condition → String → Option Condition
status_condition [] t = none
status_condition (c ∷ cs) t = if c.type == t then some c else status_condition cs t

-- `allSitesApplied`
unfoldable pub all_sites_applied : List SiteRevisionStatus → ℕ → Bool
all_sites_applied [] revision = false
all_sites_applied (x ∷ xs) revision = all (λ st. nat_eq st.applied_revision revision) (x ∷ xs)

-- `err == nil && instance.Status.ActiveRevision >= expected`, at the annotation's parse.
abbrev pub reached : Option ℕ → ℕ → Bool
reached none active = false
reached (some expected) active = leb expected active

-- `majorPhaseApplied`
unfoldable pub major_phase_applied : MultiSitePostgres → Bool
major_phase_applied i =
    reached i.annotations.upgrade_revision i.status.active_revision
    && all_sites_applied i.status.sites i.status.active_revision

unfoldable pub clear_upgrade_annotations : MultiSitePostgres → MultiSitePostgres
clear_upgrade_annotations i = record i {
  annotations = record (i.annotations) {
    upgrade_uid = "";
    upgrade_name = "";
    upgrade_phase = unset;
    upgrade_member = "";
    upgraded_members = [];
    upgrade_from = "";
    upgrade_candidate = "";
    upgrade_switched = false;
    upgrade_revision = none;
    upgrade_source_major = none;
  };
}

module _ (api : ConditionApi) where
  open api use {find_status_condition, set_status_condition}

  -- `setCondition` and `conditionTrue` (internal/controller/status.go)
  unfoldable pub set_condition :
      List Condition → ℕ → String → ConditionStatus → String → String → List Condition
  set_condition cs generation type status reason message = set_status_condition cs (record {
    type = type;
    status = status;
    observed_generation = generation;
    reason = reason;
    message = message;
  })

  unfoldable pub is_condition_true : List Condition → String → Bool
  is_condition_true cs type = elim (find_status_condition cs type) [
    | none ↦ false
    | some c ↦ is_true c.status
  ]

  -- `instanceReadyForOperation`
  unfoldable pub instance_ready_for_operation : MultiSitePostgres → Bool
  instance_ready_for_operation i =
      reached i.annotations.upgrade_revision i.status.active_revision
      && (all_sites_applied i.status.sites i.status.active_revision
          && (nat_eq i.status.observed_generation i.meta.generation
              && (is_condition_true i.status.conditions "Ready"
                  && is_condition_true i.status.conditions "TopologyReady")))

  -- `setUpgradePhase`, `upgradeBlocked` and `completeUpgrade`
  unfoldable pub set_upgrade_phase :
      Calls → Stored → PostgresUpgrade → String → String → String → ℕ → Stored × Return
  unfolding update set_condition
  set_upgrade_phase calls s u phase reason message now =
      let started : Option ℕ =
        if is_some u.status.started_at then u.status.started_at else some now in
      update calls s
        (record u {
          status = record (u.status) {
            started_at = started;
            observed_generation = u.meta.generation;
            phase = phase;
            conditions =
                set_condition u.status.conditions u.meta.generation "Ready" condition_false reason
                  message;
          };
        })
        (finish 0)

  unfoldable pub upgrade_blocked :
      Calls → Stored → PostgresUpgrade → String → String → Stored × Return
  unfolding update set_condition
  upgrade_blocked calls s u reason message =
      update calls s
        (record u {
          status = record (u.status) {
            observed_generation = u.meta.generation;
            phase = "Preflight";
            conditions =
                set_condition u.status.conditions u.meta.generation "Ready" condition_false reason
                  message;
          };
        })
        (finish 0)

  unfoldable pub complete_upgrade :
      Calls → Stored → PostgresUpgrade → (Stored → Stored × Return) → Stored × Return
  unfolding update set_condition
  complete_upgrade calls s u rest =
      update calls s
        (record u {
          status = record (u.status) {
            observed_generation = u.meta.generation;
            phase = "Completed";
            conditions =
                set_condition u.status.conditions u.meta.generation "Ready" condition_true
                  "UpgradeCompleted" "All PostgreSQL members run the requested image";
          };
        })
        rest
