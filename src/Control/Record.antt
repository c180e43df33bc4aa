-- ===== src/Control/Record.antt =====
-- What the server records of the plans that a site applies (`updateInstanceSite`,
-- `recordAcknowledgement`, `recordProgress`, `recordResult` and `triggerInstanceReconcile`).
--
-- Go's iteration over a map takes its keys in any order: `summaries` lists them in the order taken.
pub mod Lookup
use mspsql.Base.{
  ℕ, String, Bool, true, false, ◌&&◌, ◌||◌, not, Option, none, some, List, [], ◌∷◌, nat_eq, map,
  select, is_some, ◌==◌, insert, lookup, sort, if◌then◌else◌,
}
use mspsql.Api.Meta.{Condition, ConditionStatus, condition_false, ConditionApi}
use mspsql.Api.Common.{SiteRevisionStatus}
use mspsql.Api.Instance.{MultiSitePostgres}
use mspsql.Control.{
  Hub, instance_kind, HubCalls, Failure, not_found, call_failed, Outcome, done, failed, Report,
  HubText, put_object, set_site_condition,
}

pub record PlanAcknowledgement : Type 0 where
  pub instance_uid : String
  pub revision : ℕ
  pub accepted : Bool
  pub validation_errors : List String

pub record PlanProgress : Type 0 where
  pub instance_uid : String
  pub revision : ℕ
  pub phase : String
  pub summaries : List (String × String)

pub record PlanResult : Type 0 where
  pub operation_uid : String
  pub instance_uid : String
  pub applied_revision : ℕ
  pub conditions : List Report

abbrev pub has_uid : String → MultiSitePostgres → Bool
has_uid uid i = i.meta.uid == uid

-- `instancesByUID`: by the index, or all of them where the index fails.
unfoldable pub instances_by_uid : Hub → HubCalls → String → Outcome (List MultiSitePostgres)
instances_by_uid hub calls uid =
    if calls.index_fails
    then (if calls.list_fails instance_kind
        then failed (call_failed instance_kind)
        else done hub.instances)
    else done (select (has_uid uid) hub.instances)

unfoldable pub first_with_uid : String → List MultiSitePostgres → Option MultiSitePostgres
first_with_uid uid [] = none
first_with_uid uid (i ∷ instances) =
    let rest = first_with_uid uid instances in if has_uid uid i then some i else rest

abbrev pub write_instance : Hub → MultiSitePostgres → Hub
write_instance hub i = record hub {
  instances = put_object (λ (x : MultiSitePostgres). x.meta) i hub.instances;
}

abbrev stamp : ℕ → Condition → Condition
stamp generation c = record c { observed_generation = generation }

abbrev pub stamped : ℕ → SiteRevisionStatus → SiteRevisionStatus
stamped generation site = record site { conditions = map (stamp generation) site.conditions }

-- The sites with the first of a name changed; the site before, after, and the closure's flag.
pub record Changed : Type 0 where
  pub sites : List SiteRevisionStatus
  pub before : SiteRevisionStatus
  pub after : SiteRevisionStatus
  pub flag : Bool

unfoldable pub change_site :
    (SiteRevisionStatus → SiteRevisionStatus × Bool)
    → ℕ
    → String
    → List SiteRevisionStatus
    → Option Changed
change_site update generation name [] = none
change_site update generation name (site ∷ sites) =
    let rest = change_site update generation name sites in
    let (new, flag) = update site in
    if site.name == name
    then some (record {
      sites = stamped generation new ∷ sites;
      before = site;
      after = stamped generation new;
      flag = flag;
    })
    else elim rest [
      | none ↦ none
      | some changed ↦ some (record changed { sites = site ∷ changed.sites })
    ]

abbrev pub with_sites : MultiSitePostgres → List SiteRevisionStatus → MultiSitePostgres
with_sites i sites = record i { status = record (i.status) { sites = sites } }

-- `updateInstanceSite`; the Boolean is what the closure leaves in the variables of its caller.
unfoldable pub update_instance_site :
    HubText
    → Hub
    → HubCalls
    → String
    → String
    → (SiteRevisionStatus → SiteRevisionStatus × Bool)
    → Hub × Outcome Bool
unfolding instances_by_uid first_with_uid change_site
update_instance_site text hub calls uid site_name update = elim (instances_by_uid hub calls uid) [
  | failed e ↦ (hub, failed e)
  | done instances ↦ elim (first_with_uid uid instances) [
    | none ↦ (hub, failed (not_found "instance UID was not found"))
    | some i ↦ elim (change_site update i.meta.generation site_name i.status.sites) [
      | none ↦ (hub, failed (not_found "site is not part of the instance"))
      | some changed ↦
          if text.is_same_site changed.before changed.after
          then (hub, done changed.flag)
          else if calls.update_fails instance_kind i.meta.name
          then (hub, failed (call_failed instance_kind))
          else (write_instance hub (with_sites i changed.sites), done changed.flag)
    ]
  ]
]

-- `Client.Patch` of the annotation; a patch counts as an update of the instance.
unfoldable pub trigger_instance_reconcile : Hub → HubCalls → String → ℕ → Hub × Outcome Unit
unfolding instances_by_uid first_with_uid
trigger_instance_reconcile hub calls uid now = elim (instances_by_uid hub calls uid) [
  | failed e ↦ (hub, failed e)
  | done instances ↦ elim (first_with_uid uid instances) [
    | none ↦ (hub, failed (not_found "instance UID was not found"))
    | some i ↦
        if calls.update_fails instance_kind i.meta.name
        then (hub, failed (call_failed instance_kind))
        else (
          write_instance hub (record i {
            annotations = record (i.annotations) { address_observation = some now };
          }),
          done tt,
        )
  ]
]

abbrev pub drop_flag : Hub × Outcome Bool → Hub × Outcome Unit
drop_flag (hub, done _) = (hub, done tt)
drop_flag (hub, failed e) = (hub, failed e)

module _ (api : ConditionApi) (text : HubText) where
  unfoldable pub acknowledge : PlanAcknowledgement → SiteRevisionStatus → SiteRevisionStatus × Bool
  unfolding set_site_condition
  acknowledge ack site =
      if not (nat_eq ack.revision site.desired_revision)
      then (site, false)
      else if ack.accepted
      then (record site { acknowledged_revision = ack.revision; phase = "Applying" }, false)
      else (
        record site {
          phase = "Rejected";
          conditions =
              set_site_condition api site.conditions "PlanAccepted" condition_false
                "ValidationFailed" (text.join ack.validation_errors);
        },
        false,
      )

  unfoldable pub record_acknowledgement :
      Hub → HubCalls → String → PlanAcknowledgement → Hub × Outcome Unit
  unfolding update_instance_site acknowledge
  record_acknowledgement hub calls site_name ack =
      drop_flag (update_instance_site text hub calls ack.instance_uid site_name (acknowledge ack))

  -- One summary of a progress report.
  unfoldable pub take_summary :
      String × String → SiteRevisionStatus × Bool → SiteRevisionStatus × Bool
  unfolding set_site_condition
  take_summary (key, value) (site, seen) =
      let addressed : SiteRevisionStatus × Bool = elim (text.cut_prefix key "address/") [
        | none ↦ (site, seen)
        | some member ↦ (record site { addresses = insert member value site.addresses }, true)
      ] in
      elim (text.cut_prefix key "condition/") [
        | none ↦ addressed
        | some type ↦ elim (text.read_report value) [
          | none ↦ addressed
          | some (status, reason, message) ↦ (
            record (addressed.0) {
              conditions = set_site_condition api addressed.0.conditions type status reason message;
            },
            true,
          )
        ]
      ]

  unfoldable pub take_summaries :
      List (String × String) → SiteRevisionStatus × Bool → SiteRevisionStatus × Bool
  unfolding take_summary
  take_summaries [] acc = acc
  take_summaries (entry ∷ entries) acc = take_summaries entries (take_summary entry acc)

  unfoldable pub reported_standbys : List (String × String) → List String
  reported_standbys [] = []
  reported_standbys (entry ∷ entries) =
      let rest = reported_standbys entries in
      elim (text.cut_prefix entry.0 "topology/synchronous/") [
        | none ↦ rest
        | some member ↦ if entry.1 == "healthy" then member ∷ rest else rest
      ]

  abbrev is_empty : List String → Bool
  is_empty [] = true
  is_empty (x ∷ xs) = false

  abbrev pub has_topology : PlanProgress → Bool
  has_topology p =
      is_some (lookup "topology/primary" p.summaries)
      || not (is_empty (reported_standbys p.summaries))

  abbrev pub reported_primary : PlanProgress → String
  reported_primary p = elim (lookup "topology/primary" p.summaries) [ none ↦ "" | some v ↦ v ]

  abbrev pub observe_topology : PlanProgress → ℕ → SiteRevisionStatus → SiteRevisionStatus
  observe_topology p now site =
      if has_topology p
      then record site {
        primary = reported_primary p;
        synchronous_standbys = sort (reported_standbys p.summaries);
        topology_observed_at = some now;
      }
      else site

  unfoldable pub take_progress : PlanProgress → ℕ → SiteRevisionStatus → SiteRevisionStatus × Bool
  unfolding take_summaries reported_standbys
  take_progress p now site =
      if not (nat_eq p.revision site.desired_revision)
      then (site, false)
      else let (taken, seen) =
          take_summaries p.summaries (record site { phase = p.phase }, false) in
        (observe_topology p now taken, seen)

  -- After the update: an error, or a trigger where the report had something to tell.
  unfoldable pub after_progress :
      HubCalls → PlanProgress → ℕ → Hub × Outcome Bool → Hub × Outcome Unit
  unfolding trigger_instance_reconcile reported_standbys
  after_progress calls p now (hub, failed e) = (hub, failed e)
  after_progress calls p now (hub, done seen) =
      if seen || has_topology p
      then trigger_instance_reconcile hub calls p.instance_uid now
      else (hub, done tt)

  unfoldable pub record_progress : Hub → HubCalls → String → PlanProgress → ℕ → Hub × Outcome Unit
  unfolding update_instance_site take_progress after_progress
  record_progress hub calls site_name p now =
      after_progress calls p now
        (update_instance_site text hub calls p.instance_uid site_name (take_progress p now))

  -- The conditions of a result, and the phase that a deletion gives.
  unfoldable pub take_reports : List Report → SiteRevisionStatus → SiteRevisionStatus
  unfolding set_site_condition
  take_reports [] site = site
  take_reports (report ∷ reports) site =
      let next = record site {
        conditions =
            set_site_condition api site.conditions report.type (text.status_of report.status)
              report.reason report.message;
        phase =
            if report.type == "Deleted" && report.status == "True" then "Deleted" else site.phase;
      } in
      take_reports reports next

  unfoldable pub take_result : PlanResult → SiteRevisionStatus → SiteRevisionStatus × Bool
  unfolding take_reports
  take_result result site =
      if not (nat_eq result.applied_revision site.desired_revision) then (site, false) else (
        take_reports result.conditions
            (record site { applied_revision = result.applied_revision; phase = "Ready" }),
        false,
      )

  unfoldable pub after_result : HubCalls → String → ℕ → Hub × Outcome Bool → Hub × Outcome Unit
  unfolding trigger_instance_reconcile
  after_result calls uid now (hub, failed e) = (hub, failed e)
  after_result calls uid now (hub, done _) = trigger_instance_reconcile hub calls uid now

  -- `recordResult` of a plan, which has no operation.
  unfoldable pub record_plan_result : Hub → HubCalls → String → PlanResult → ℕ → Hub × Outcome Unit
  unfolding update_instance_site take_result after_result
  record_plan_result hub calls site_name result now =
      after_result calls result.instance_uid now
        (update_instance_site text hub calls result.instance_uid site_name (take_result result))
