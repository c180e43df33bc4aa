-- ===== src/Tests/Instances.antt =====
-- The instance controller at concrete inputs.
use mspsql.Base.{
  some, pos, ◌==◌, if◌then◌else◌, ◌≤◌, String, true, false, ◌≡◌, refl, ◌≢◌, ◌⊎◌, none, arith, [],
  ◌∷◌, List, All, contains, eq_iff,
}
use text.Mathlib.Text.{starts_with}
use mspsql.Api.Common.{SiteRevisionStatus}
use mspsql.Api.Instance.{MultiSitePostgres, MultiSitePostgresStatus, unset}
use mspsql.Upgrade.{is_condition_true, all_sites_applied}
use mspsql.Instance.Topology.{aggregate_topology}
use mspsql.Instance.Topology.Counting.{IsUnique}
use mspsql.Instance.Topology.Consensus.{IsAgreed, FreshOf, aggregate_topology-IsAgreed}
use mspsql.Instance.Addresses.{address_plan}
use mspsql.Instance.Addresses.Migration.{IsUnderWay, Planned, address_plan_one_by_one}
use mspsql.Instance.Status.{merge_reconciled_status, previous_site_status}
use mspsql.Instance.Status.Merging.{IsSameReport, merge_keeps_reports, merge_active_revision}
use mspsql.Api.Meta.{Condition}
use mspsql.Tests.Samples.{condition, conditions, instance_at, site_status, instance_status}
use mspsql.Tests.Plans.{site_plan}
use mspsql.Plan.{catalog}
use mspsql.Instance.Credentials.{RotationText, credential_rotation_plan, primary_reports}

abbrev quiet : MultiSitePostgres
quiet = instance_at "" unset

-- Both sites have just named the same primary.
abbrev observed : MultiSitePostgres
observed =
    let report : SiteRevisionStatus → SiteRevisionStatus =
      λ site. record site { primary = "postgres-a-0"; topology_observed_at = some 8 } in
    record quiet {
      status = record (quiet.status) {
        sites = report (site_status "a" 7) ∷ report (site_status "b" 7) ∷ [];
      };
    }

aggregate_topology-IsAgreed_example :
    ((is_condition_true conditions
          (aggregate_topology conditions starts_with observed 9).status.conditions
          "TopologyReady"
        ≡ false)
      × ((aggregate_topology conditions starts_with observed 9).status.primary ≡ "")
      × ((aggregate_topology conditions starts_with observed 9).status.synchronous_standbys ≡ [])
      × ((p : String) → IsAgreed conditions starts_with observed 9 p → ⊥))
    ⊎ ((is_condition_true conditions
            (aggregate_topology conditions starts_with observed 9).status.conditions
            "TopologyReady"
          ≡ true)
        × IsAgreed conditions starts_with observed 9
            (aggregate_topology conditions starts_with observed 9).status.primary
        × ((fresh : List SiteRevisionStatus)
            → FreshOf conditions starts_with observed 9 observed.status.sites fresh
            → All IsUnique fresh
            → (s : String)
            → contains
                (aggregate_topology conditions starts_with observed 9).status.synchronous_standbys
                s
              ≡ true
            → All (λ (x : SiteRevisionStatus). contains x.synchronous_standbys s ≡ true) fresh))
aggregate_topology-IsAgreed_example = aggregate_topology-IsAgreed conditions starts_with observed 9

abbrev uid_of : String → String → String → String → String
uid_of instance member old new = member

address_plan_one_by_one_example :
    (IsUnderWay uid_of quiet site_plan
      × ((address_plan uid_of quiet site_plan).migration ≡ site_plan.address_migration)
      × ((address_plan uid_of quiet site_plan).addresses ≡ site_plan.member_addresses))
    ⊎ ((IsUnderWay uid_of quiet site_plan → ⊥)
        × Planned uid_of quiet site_plan (address_plan uid_of quiet site_plan))
address_plan_one_by_one_example = address_plan_one_by_one uid_of quiet site_plan

named : ◌≢◌ {A = String} "a" ""
named = λ e. ground (arith, eq_iff "a" "")

abbrev one_site : MultiSitePostgresStatus
one_site = record (instance_status 7) { sites = site_status "a" 7 ∷ [] }

abbrev two_sites : MultiSitePostgresStatus
two_sites = record (instance_status 6) { sites = site_status "a" 6 ∷ site_status "b" 6 ∷ [] }

merge_keeps_reports_example :
    IsSameReport
      (previous_site_status (merge_reconciled_status conditions one_site two_sites).sites "a")
      (previous_site_status one_site.sites "a")
    × ((previous_site_status
          (merge_reconciled_status conditions one_site two_sites).sites
          "a").desired_revision
        ≡ (previous_site_status two_sites.sites "a").desired_revision)
merge_keeps_reports_example = merge_keeps_reports conditions one_site two_sites "a" named refl refl

merge_active_revision_example :
    (8
      ≤ (merge_reconciled_status conditions
          (instance_status 8)
          (instance_status 7)).active_revision)
    × (7
        ≤ (merge_reconciled_status conditions
            (instance_status 8)
            (instance_status 7)).active_revision)
merge_active_revision_example =
    merge_active_revision conditions (instance_status 8) (instance_status 7)

abbrev rotation_text : RotationText
rotation_text = record {
  has_prefix = starts_with;
  trim_prefix = λ s prefix. s;
  split_commas = λ s. s ∷ [];
  parse_int = λ s. if s == "2" then some (pos 2) else if s == "1" then some (pos 1) else none;
}

abbrev with_message : String → String → Condition
with_message type message = record (condition type) { message = message }

-- Version 1 is active on every site, and version 2 is staged.
abbrev rotating : MultiSitePostgres
rotating =
    let report : SiteRevisionStatus → SiteRevisionStatus = λ site. record site {
      conditions =
          with_message "PostgresCredentialsActive" "1"
          ∷ with_message "CredentialRotationPending" "2"
          ∷ [];
    } in
    record quiet {
      status = record (quiet.status) {
        sites = report (site_status "a" 7) ∷ report (site_status "b" 7) ∷ [];
      };
    }

rotation_begins :
    credential_rotation_plan rotation_text rotating site_plan false
    ≡ some (record {
      version = 2;
      previous_version = 1;
      phase = catalog;
      target_member = "";
      updated_members = [];
    })
unfolding credential_rotation_plan primary_reports all_sites_applied
rotation_begins = refl
