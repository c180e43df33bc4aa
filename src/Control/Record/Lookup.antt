-- ===== src/Control/Record/Lookup.antt =====
-- How `updateInstanceSite` finds the instance and the site of a report.
use mspsql.Base.{
  ℕ, String, Bool, true, false, ◌≡◌, refl, none, some, List, [], ◌∷◌, All, select, arith, ◌==◌,
}
use mspsql.Api.Meta.{ConditionApi}
use mspsql.Api.Common.{SiteRevisionStatus}
use mspsql.Api.Instance.{MultiSitePostgres}
use mspsql.Control.{Hub, instance_kind, HubCalls, not_found, done, failed, HubText}
use mspsql.Control.Record.{
  PlanAcknowledgement, PlanProgress, PlanResult, has_uid, instances_by_uid, first_with_uid,
  change_site, update_instance_site, after_progress, after_result, acknowledge, take_progress,
  take_result, record_acknowledgement, record_progress, record_plan_result,
}

first_with_uid-select :
    (uid : String) (instances : List MultiSitePostgres)
    → first_with_uid uid (select (has_uid uid) instances) ≡ first_with_uid uid instances
unfolding first_with_uid
first_with_uid-select uid [] = refl
first_with_uid-select uid (i ∷ instances) = ground (arith, first_with_uid-select uid instances)

-- The calls with the index working, and with it failing.
abbrev pub with_index : Bool → HubCalls → HubCalls
with_index fails calls = record calls { index_fails = fails }

unindexed :
    (hub : Hub) (calls : HubCalls) (uid : String)
    → calls.index_fails ≡ true
    → calls.list_fails instance_kind ≡ false
    → instances_by_uid hub calls uid ≡ done hub.instances
unfolding instances_by_uid
unindexed hub calls uid fails listed = ground (arith, fails, listed)

indexed :
    (hub : Hub) (calls : HubCalls) (uid : String)
    → calls.index_fails ≡ false
    → instances_by_uid hub calls uid ≡ done (select (has_uid uid) hub.instances)
unfolding instances_by_uid
indexed hub calls uid works = ground (arith, works)

-- Where all instances can be listed, an update of a site's status does the same with the index of the
-- instances' UIDs as without it.
pub update_instance_site-with_index :
    (text : HubText) (hub : Hub) (calls : HubCalls) (uid site_name : String)
    (update : SiteRevisionStatus → SiteRevisionStatus × Bool)
    → calls.list_fails instance_kind ≡ false
    → update_instance_site text hub (with_index true calls) uid site_name update
      ≡ update_instance_site text hub (with_index false calls) uid site_name update
unfolding update_instance_site
update_instance_site-with_index text hub calls uid site_name update listed =
    let without = unindexed hub (with_index true calls) uid refl listed in
    let by_index = indexed hub (with_index false calls) uid refl in
    let same = first_with_uid-select uid hub.instances in ground (arith, without, by_index, same)

abbrev pub IsNotNamed : String → SiteRevisionStatus → Type 0
IsNotNamed name site = (site.name == name) ≡ false

change_site-none :
    (update : SiteRevisionStatus → SiteRevisionStatus × Bool) (generation : ℕ) (name : String)
    (sites : List SiteRevisionStatus)
    → All (IsNotNamed name) sites
    → change_site update generation name sites ≡ none
unfolding change_site
change_site-none update generation name [] h = refl
change_site-none update generation name (site ∷ sites) h =
    rw (h.0, change_site-none update generation name sites h.1) refl

module _ (api : ConditionApi) (text : HubText) (hub : Hub) (calls : HubCalls) (site_name : String)
    (i : MultiSitePostgres) where
  unnamed_site_refused :
      (update : SiteRevisionStatus → SiteRevisionStatus × Bool) (uid : String)
      → calls.index_fails ≡ false
      → first_with_uid uid hub.instances ≡ some i
      → All (IsNotNamed site_name) i.status.sites
      → update_instance_site text hub calls uid site_name update
        ≡ (hub, failed (not_found "site is not part of the instance"))
  unfolding update_instance_site
  unnamed_site_refused update uid works found unnamed =
      rw
        (
          indexed hub calls uid works,
          update_instance_site,
          first_with_uid-select uid hub.instances,
          found,
          change_site-none update i.meta.generation site_name i.status.sites unnamed,
        )
        refl

  -- A report on a plan is refused, and nothing is stored, where no site of the instance has the name of
  -- the registration that reports. The name that counts is the site's own, not that of the registration
  -- it refers to.
  pub reports_need_own_name :
      (ack : PlanAcknowledgement) (p : PlanProgress) (result : PlanResult) (now : ℕ)
      → calls.index_fails ≡ false
      → All (IsNotNamed site_name) i.status.sites
      → first_with_uid ack.instance_uid hub.instances ≡ some i
      → first_with_uid p.instance_uid hub.instances ≡ some i
      → first_with_uid result.instance_uid hub.instances ≡ some i
      → (record_acknowledgement api text hub calls site_name ack
          ≡ (hub, failed (not_found "site is not part of the instance")))
        × (record_progress api text hub calls site_name p now
            ≡ (hub, failed (not_found "site is not part of the instance")))
        × (record_plan_result api text hub calls site_name result now
            ≡ (hub, failed (not_found "site is not part of the instance")))
  unfolding record_acknowledgement record_progress record_plan_result after_progress after_result
  reports_need_own_name ack p result now works unnamed of_ack of_progress of_result = (
    rw (unnamed_site_refused (acknowledge api text ack) ack.instance_uid works of_ack unnamed) refl,
    rw
        (unnamed_site_refused (take_progress api text p now) p.instance_uid works of_progress
          unnamed)
        refl,
    rw
        (unnamed_site_refused (take_result api text result) result.instance_uid works of_result
          unnamed)
        refl,
  )
