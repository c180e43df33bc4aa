-- ===== src/Control/Receive/Keeping.antt =====
-- What the handlers of a plan's and a directive's reports leave alone in the stored objects.
use mspsql.Base.{
  ℕ, String, Bool, ◌≡◌, refl, ◌∙◌, inl, inr, some, List, [], ◌∷◌, All, select, Bool-cases,
  Option-cases, arith, ◌==◌,
}
use mspsql.Api.Meta.{ConditionApi}
use mspsql.Api.Common.{SiteRevisionStatus}
use mspsql.Api.Instance.{MultiSitePostgres}
use mspsql.Control.{Hub, instance_kind, HubCalls, Outcome, done, failed, HubText}
use mspsql.Control.Store.{All-put_object}
use mspsql.Control.Record.{
  PlanAcknowledgement, PlanProgress, PlanResult, has_uid, instances_by_uid, first_with_uid,
  write_instance, stamped, Changed, change_site, with_sites, update_instance_site,
  trigger_instance_reconcile, drop_flag, acknowledge, record_acknowledgement, take_progress,
  after_progress, record_progress, take_result, after_result, record_plan_result,
}

-- What an update of a site must keep, and the stamp that follows it.
module _ (S : SiteRevisionStatus → Type 0)
    (stamp-S : (generation : ℕ) (s : SiteRevisionStatus) → S s → S (stamped generation s)) where
  abbrev pub OnSites : MultiSitePostgres → Type 0
  OnSites i = All S i.status.sites

  abbrev pub InSites : Hub → Type 0
  InSites hub = All OnSites hub.instances

  -- A handler that leaves the registrations, and keeps a property of the sites.
  pub record Keeps (hub next : Hub) : Type 0 where
    pub same_registrations : next.registrations ≡ hub.registrations
    pub keeps_sites : InSites hub → InSites next

  pub Keeps-refl : (hub : Hub) → Keeps hub hub
  Keeps-refl hub = record { same_registrations = refl; keeps_sites = λ h. h }

  pub Keeps-trans : (a b c : Hub) → Keeps a b → Keeps b c → Keeps a c
  Keeps-trans a b c p q = record {
    same_registrations = q.same_registrations ∙ p.same_registrations;
    keeps_sites = λ h. q.keeps_sites (p.keeps_sites h);
  }

  select-OnSites :
      (p : MultiSitePostgres → Bool) (instances : List MultiSitePostgres)
      → All OnSites instances
      → All OnSites (select p instances)
  select-OnSites p [] h = tt
  select-OnSites p (i ∷ instances) h = elim (Bool-cases (p i)) [
    | inl e ↦ rw e (h.0, select-OnSites p instances h.1)
    | inr e ↦ rw e (select-OnSites p instances h.1)
  ]

  instances_by_uid-OnSites :
      (hub : Hub) (calls : HubCalls) (uid : String) (instances : List MultiSitePostgres)
      → instances_by_uid hub calls uid ≡ done instances
      → InSites hub
      → All OnSites instances
  unfolding instances_by_uid
  instances_by_uid-OnSites hub calls uid instances e h =
      let some_listed = select-OnSites (has_uid uid) hub.instances h in ground (arith, some_listed)

  first_with_uid-OnSites :
      (uid : String) (instances : List MultiSitePostgres) (i : MultiSitePostgres)
      → first_with_uid uid instances ≡ some i
      → All OnSites instances
      → OnSites i
  unfolding first_with_uid
  first_with_uid-OnSites uid [] i e h = cc
  first_with_uid-OnSites uid (x ∷ instances) i e h = elim (Bool-cases (has_uid uid x)) [
    | inl here ↦ ground (arith, h.0)
    | inr there ↦ first_with_uid-OnSites uid instances i (rw (there) at e) h.1
  ]

  change_site-OnSites :
      (update : SiteRevisionStatus → SiteRevisionStatus × Bool) (generation : ℕ) (name : String)
      (sites : List SiteRevisionStatus) (changed : Changed)
      → ((s : SiteRevisionStatus) → S s → S (update s).0)
      → change_site update generation name sites ≡ some changed
      → All S sites
      → All S changed.sites
  unfolding change_site
  change_site-OnSites update generation name [] changed keeps e h = cc
  change_site-OnSites update generation name (s ∷ sites) changed keeps e h =
      elim (Bool-cases (s.name == name)) [
        | inl here ↦
            let new = stamp-S generation (update s).0 (keeps s h.0) in ground (arith, new, h.1)
        | inr there ↦ elim (Option-cases (change_site update generation name sites)) [
          | inl missing ↦ absurd (ground (arith, there, missing))
          | inr (rest, found) ↦
              let tail = change_site-OnSites update generation name sites rest keeps found h.1 in
              ground (arith, tail, h.0, there, found)
        ]
      ]

  pub write_instance-Keeps :
      (hub : Hub) (i : MultiSitePostgres)
      → (InSites hub → OnSites i)
      → Keeps hub (write_instance hub i)
  write_instance-Keeps hub i h = record {
    same_registrations = refl;
    keeps_sites =
        λ k. All-put_object (λ (x : MultiSitePostgres). x.meta) OnSites i hub.instances (h k) k;
  }

  pub update_instance_site-Keeps :
      (text : HubText) (hub : Hub) (calls : HubCalls) (uid site_name : String)
      (update : SiteRevisionStatus → SiteRevisionStatus × Bool)
      → ((s : SiteRevisionStatus) → S s → S (update s).0)
      → Keeps hub (update_instance_site text hub calls uid site_name update).0
  unfolding update_instance_site
  update_instance_site-Keeps text hub calls uid site_name update keeps =
      by_list (instances_by_uid hub calls uid) refl
    where
      by_list :
          (listed : Outcome (List MultiSitePostgres))
          → instances_by_uid hub calls uid ≡ listed
          → Keeps hub (update_instance_site text hub calls uid site_name update).0
      by_list (failed e) h = rw (h, update_instance_site) (Keeps-refl hub)
      by_list (done instances) h = elim (Option-cases (first_with_uid uid instances)) [
        | inl none_found ↦ rw (h, update_instance_site, none_found) (Keeps-refl hub)
        | inr (i, found) ↦
            elim (Option-cases (change_site update i.meta.generation site_name i.status.sites)) [
              | inl no_site ↦ rw (h, update_instance_site, found, no_site) (Keeps-refl hub)
              | inr (changed, named_so) ↦
                  let written = write_instance-Keeps hub (with_sites i changed.sites) (λ k.
                    change_site-OnSites update i.meta.generation site_name i.status.sites changed
                      keeps named_so
                      (first_with_uid-OnSites uid instances i found
                        (instances_by_uid-OnSites hub calls uid instances h k))) in
                  rw (h, update_instance_site, found, named_so)
                    (elim (Bool-cases (text.is_same_site changed.before changed.after)) [
                      | inl same ↦ rw same (Keeps-refl hub)
                      | inr new ↦ elim (Bool-cases (calls.update_fails instance_kind i.meta.name)) [
                        | inl fails ↦ rw (new, fails) (Keeps-refl hub)
                        | inr writes ↦ rw (new, writes) written
                      ]
                    ])
            ]
      ]

  pub trigger_instance_reconcile-Keeps :
      (hub : Hub) (calls : HubCalls) (uid : String) (now : ℕ)
      → Keeps hub (trigger_instance_reconcile hub calls uid now).0
  unfolding trigger_instance_reconcile
  trigger_instance_reconcile-Keeps hub calls uid now = by_list (instances_by_uid hub calls uid) refl
    where
      by_list :
          (listed : Outcome (List MultiSitePostgres))
          → instances_by_uid hub calls uid ≡ listed
          → Keeps hub (trigger_instance_reconcile hub calls uid now).0
      by_list (failed e) h = rw (h, trigger_instance_reconcile) (Keeps-refl hub)
      by_list (done instances) h = elim (Option-cases (first_with_uid uid instances)) [
        | inl none_found ↦ rw (h, trigger_instance_reconcile, none_found) (Keeps-refl hub)
        | inr (i, found) ↦
            rw (h, trigger_instance_reconcile, found)
              (elim (Bool-cases (calls.update_fails instance_kind i.meta.name)) [
                | inl fails ↦ rw fails (Keeps-refl hub)
                | inr writes ↦ rw writes (
                    write_instance-Keeps hub _ (λ k.
                      first_with_uid-OnSites uid instances i found
                        (instances_by_uid-OnSites hub calls uid instances h k)))
              ])
      ]

  drop_flag-hub : (r : Hub × Outcome Bool) → (drop_flag r).0 ≡ r.0
  drop_flag-hub (hub, done _) = refl
  drop_flag-hub (hub, failed e) = refl

  module _ (api : ConditionApi) (text : HubText) where
    pub record_acknowledgement-Keeps :
        (hub : Hub) (calls : HubCalls) (site_name : String) (ack : PlanAcknowledgement)
        → ((s : SiteRevisionStatus) → S s → S (acknowledge api text ack s).0)
        → Keeps hub (record_acknowledgement api text hub calls site_name ack).0
    unfolding record_acknowledgement
    record_acknowledgement-Keeps hub calls site_name ack keeps =
        rw
          (drop_flag-hub (
            update_instance_site text hub calls ack.instance_uid site_name
              (acknowledge api text ack)))
          (update_instance_site-Keeps text hub calls ack.instance_uid site_name
            (acknowledge api text ack) keeps)

    after_progress-Keeps :
        (hub : Hub) (calls : HubCalls) (p : PlanProgress) (now : ℕ) (r : Hub × Outcome Bool)
        → Keeps hub r.0
        → Keeps hub (after_progress api text calls p now r).0
    unfolding after_progress
    after_progress-Keeps hub calls p now (next, failed e) k = k
    after_progress-Keeps hub calls p now (next, done seen) k =
        let after =
          Keeps-trans hub next _ k
            (trigger_instance_reconcile-Keeps next calls p.instance_uid now) in
        ground (arith, k, after)

    pub record_progress-Keeps :
        (hub : Hub) (calls : HubCalls) (site_name : String) (p : PlanProgress) (now : ℕ)
        → ((s : SiteRevisionStatus) → S s → S (take_progress api text p now s).0)
        → Keeps hub (record_progress api text hub calls site_name p now).0
    unfolding record_progress
    record_progress-Keeps hub calls site_name p now keeps = after_progress-Keeps hub calls p now _ (
        update_instance_site-Keeps text hub calls p.instance_uid site_name
          (take_progress api text p now) keeps)

    after_result-Keeps :
        (hub : Hub) (calls : HubCalls) (uid : String) (now : ℕ) (r : Hub × Outcome Bool)
        → Keeps hub r.0
        → Keeps hub (after_result api text calls uid now r).0
    unfolding after_result
    after_result-Keeps hub calls uid now (next, failed e) k = k
    after_result-Keeps hub calls uid now (next, done _) k =
        Keeps-trans hub next _ k (trigger_instance_reconcile-Keeps next calls uid now)

    pub record_plan_result-Keeps :
        (hub : Hub) (calls : HubCalls) (site_name : String) (result : PlanResult) (now : ℕ)
        → ((s : SiteRevisionStatus) → S s → S (take_result api text result s).0)
        → Keeps hub (record_plan_result api text hub calls site_name result now).0
    unfolding record_plan_result
    record_plan_result-Keeps hub calls site_name result now keeps =
        after_result-Keeps hub calls result.instance_uid now _ (
          update_instance_site-Keeps text hub calls result.instance_uid site_name
            (take_result api text result) keeps)
