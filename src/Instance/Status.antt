-- ===== src/Instance/Status.antt =====
-- How a pass writes the instance's status over what the control server has written meanwhile
-- (`mergeReconciledStatus`, `mergeReconciledSites`, `previousSiteStatus`).
pub mod Merging
use mspsql.Base.{
  ℕ, String, Bool, true, false, ◌&&◌, Option, none, some, List, [], ◌∷◌, not, ltb, ◌==◌,
  if◌then◌else◌,
}
use mspsql.Api.Meta.{Condition, ConditionApi}
use mspsql.Api.Common.{SiteRevisionStatus}
use mspsql.Api.Instance.{MultiSitePostgresStatus}

-- Go's zero value.
abbrev pub no_site : SiteRevisionStatus
no_site = record {
  name = "";
  site_registration_ref = "";
  desired_revision = 0;
  acknowledged_revision = 0;
  applied_revision = 0;
  phase = "";
  addresses = [];
  primary = "";
  synchronous_standbys = [];
  topology_observed_at = none;
  last_heartbeat_time = none;
  conditions = [];
}

unfoldable pub previous_site_status : List SiteRevisionStatus → String → SiteRevisionStatus
previous_site_status [] name = no_site
previous_site_status (x ∷ statuses) name =
    if x.name == name then x else previous_site_status statuses name

-- The body of the loop.
unfoldable pub merge_site : List SiteRevisionStatus → SiteRevisionStatus → SiteRevisionStatus
unfolding previous_site_status
merge_site current wanted =
    let previous = previous_site_status current wanted.name in
    let observed : SiteRevisionStatus = if previous.name == "" then wanted else previous in
    record observed {
      name = wanted.name;
      site_registration_ref = wanted.site_registration_ref;
      desired_revision = wanted.desired_revision;
      phase =
          if wanted.phase == "DeletionPlanIssued" && not (observed.phase == "Deleted")
          then wanted.phase
          else observed.phase;
    }

unfoldable pub merge_reconciled_sites :
    List SiteRevisionStatus → List SiteRevisionStatus → List SiteRevisionStatus
unfolding merge_site
merge_reconciled_sites current [] = []
merge_reconciled_sites current (wanted ∷ desired) =
    merge_site current wanted ∷ merge_reconciled_sites current desired

module _ (api : ConditionApi) where
  abbrev set_all : List Condition → List Condition → List Condition
  set_all current [] = current
  set_all current (c ∷ desired) = set_all (api.set_status_condition current c) desired

  unfoldable pub merge_reconciled_status :
      MultiSitePostgresStatus → MultiSitePostgresStatus → MultiSitePostgresStatus
  unfolding merge_reconciled_sites
  merge_reconciled_status current desired = record current {
    observed_generation = desired.observed_generation;
    active_revision =
        if ltb current.active_revision desired.active_revision
        then desired.active_revision
        else current.active_revision;
    plan_fingerprint = desired.plan_fingerprint;
    phase = desired.phase;
    primary = desired.primary;
    synchronous_standbys = desired.synchronous_standbys;
    operation = elim desired.operation [
      | none ↦ current.operation
      | some operation ↦ some operation
    ];
    backup_schedules = desired.backup_schedules;
    conditions = set_all current.conditions desired.conditions;
    sites = merge_reconciled_sites current.sites desired.sites;
  }
