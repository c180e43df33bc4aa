-- ===== src/Control/Receive/Outcomes.antt =====
-- What the handlers of a directive's result leave alone in the stored objects.
use mspsql.Base.{
  ℕ, String, ◌≡◌, refl, ◌∙◌, inl, inr, some, List, [], ◌∷◌, All, select, Bool-cases, subst, sym,
  Option-cases, arith, ◌==◌,
}
use mspsql.Api.Meta.{ConditionApi, ObjectMeta}
use mspsql.Api.Common.{SiteRevisionStatus}
use mspsql.Api.Instance.{MultiSitePostgres, MultiSitePostgresStatus}
use mspsql.Api.Upgrade.{PostgresUpgrade}
use mspsql.Api.Declarations.{PostgresDatabase, PostgresUser, PostgresRestore}
use mspsql.Control.{
  ConfigMap, OwnerReference, Hub, Kind, instance_kind, database, user, restore_kind, upgrade_kind,
  config_map, HubCalls, HubText, get_object, put_object, value_of, has_label, Report,
}
use mspsql.Control.Store.{All-put_object, get_object-All}
use mspsql.Control.Dispatch.{then_go_keeps}
use mspsql.Control.Record.{PlanResult, stamped, take_result}
use mspsql.Control.Results.{
  take_evidence, update_backup_evidence, set_recovery_window_condition, take_instance_reports,
  instance_after, instance_backup_after, mark_backup_schedule_operation, directive_succeeded,
  backup_verified, backup_ready, with_marked_schedule, upgrade_backup_after, database_after,
  user_after, restore_after, upgrade_after,
}
use mspsql.Control.Receive.{
  rewrite_object, record_instance_backup, set_instances, set_upgrades, set_databases, set_users,
  set_restores, record_upgrade_backup_result, record_upgrade_directive_result,
  record_owned_directive_result, directive_of, record_directive_result, record_result,
  is_post_upgrade,
}
use mspsql.Control.Receive.Keeping.{
  OnSites, Keeps, Keeps-refl, Keeps-trans, record_plan_result-Keeps,
}

module _ (api : ConditionApi) (text : HubText) where
  take_evidence-sites :
      (status : MultiSitePostgresStatus) (r : Report)
      → (take_evidence api text status r).sites ≡ status.sites
  unfolding take_evidence
  take_evidence-sites status r = ground arith

  update_backup_evidence-sites :
      (status : MultiSitePostgresStatus) (reports : List Report)
      → (update_backup_evidence api text status reports).sites ≡ status.sites
  unfolding update_backup_evidence
  update_backup_evidence-sites status [] = refl
  update_backup_evidence-sites status (r ∷ reports) =
      update_backup_evidence-sites (take_evidence api text status r) reports
      ∙ take_evidence-sites status r

  take_instance_reports-sites :
      (reports : List Report) (i : MultiSitePostgres)
      → (take_instance_reports api text reports i).status.sites ≡ i.status.sites
  unfolding take_instance_reports
  take_instance_reports-sites [] i = refl
  take_instance_reports-sites (r ∷ reports) i = take_instance_reports-sites reports _

  backup_ready-sites :
      (i : MultiSitePostgres) → (backup_ready api text i).status.sites ≡ i.status.sites
  unfolding set_recovery_window_condition
  backup_ready-sites i = ground arith

  with_marked_schedule-sites :
      (i : MultiSitePostgres) (result : PlanResult) (site_name : String)
      → (with_marked_schedule api text i result site_name).status.sites ≡ i.status.sites
  unfolding mark_backup_schedule_operation
  with_marked_schedule-sites i result site_name = refl

  instance_after-sites :
      (result : PlanResult) (site_name : String) (i : MultiSitePostgres)
      → (instance_after api text result site_name i).status.sites ≡ i.status.sites
  unfolding instance_after
  instance_after-sites result site_name i =
      let reported = take_instance_reports api text result.conditions i in
      let same = take_instance_reports-sites result.conditions i in
      let ended =
        backup_ready-sites (
          with_marked_schedule api text (backup_verified api text result.conditions reported) result
            site_name)
        ∙ (with_marked_schedule-sites (backup_verified api text result.conditions reported) result
              site_name
            ∙ (update_backup_evidence-sites reported.status result.conditions ∙ same)) in
      let failed_so = with_marked_schedule-sites reported result site_name ∙ same in
      ground (arith, ended, failed_so)

  instance_backup_after-sites :
      (result : PlanResult) (i : MultiSitePostgres)
      → (instance_backup_after api text result i).status.sites ≡ i.status.sites
  unfolding instance_backup_after
  instance_backup_after-sites result i =
      backup_ready-sites (backup_verified api text result.conditions i)
      ∙ update_backup_evidence-sites i.status result.conditions

-- A rewrite changes nothing, or writes the list with the object changed.
rewrite_object_keeps :
    {A : Type 0} (meta_of : A → ObjectMeta) (calls : HubCalls) (kind : Kind)
    (namespace name : String) (hub : Hub) (objects : List A) (write : List A → Hub) (change : A → A)
    (P : Hub → Type 0)
    → P hub
    → ((a : A)
        → get_object meta_of objects namespace name ≡ some a
        → P (write (put_object meta_of (change a) objects)))
    → P (rewrite_object meta_of calls kind namespace name hub objects write change).0
unfolding rewrite_object
rewrite_object_keeps meta_of calls kind namespace name hub objects write change P h keeps =
    elim (Bool-cases (calls.get_fails kind name)) [
      | inl fails ↦ rw fails h
      | inr reads ↦ elim (Option-cases (get_object meta_of objects namespace name)) [
        | inl missing_here ↦ rw (reads, missing_here) h
        | inr (a, found) ↦ elim (Bool-cases (calls.update_fails kind name)) [
          | inl fails ↦ rw (reads, found, fails) h
          | inr writes ↦ rw (reads, found, writes) (keeps a found)
        ]
      ]
    ]

module _ (S : SiteRevisionStatus → Type 0)
    (stamp-S : (generation : ℕ) (s : SiteRevisionStatus) → S s → S (stamped generation s)) where
  -- An object of another kind than an instance.
  other_object-Keeps :
      {A : Type 0} (meta_of : A → ObjectMeta) (calls : HubCalls) (kind : Kind)
      (namespace name : String) (hub : Hub) (objects : List A) (write : List A → Hub)
      (change : A → A)
      → ((xs : List A) → Keeps S stamp-S hub (write xs))
      → Keeps S stamp-S hub
          (rewrite_object meta_of calls kind namespace name hub objects write change).0
  other_object-Keeps meta_of calls kind namespace name hub objects write change h =
      rewrite_object_keeps meta_of calls kind namespace name hub objects write change
        (Keeps S stamp-S hub) (Keeps-refl S stamp-S hub) (λ a found. h _)

  instance-Keeps :
      (calls : HubCalls) (namespace name : String) (hub : Hub)
      (change : MultiSitePostgres → MultiSitePostgres)
      → ((i : MultiSitePostgres) → (change i).status.sites ≡ i.status.sites)
      → Keeps S stamp-S hub
          (rewrite_object
            (λ (i : MultiSitePostgres). i.meta)
            calls
            instance_kind
            namespace
            name
            hub
            hub.instances
            (set_instances hub)
            change).0
  instance-Keeps calls namespace name hub change same =
      rewrite_object_keeps (λ (i : MultiSitePostgres). i.meta) calls instance_kind namespace name
        hub hub.instances (set_instances hub) change (Keeps S stamp-S hub)
        (Keeps-refl S stamp-S hub)
        (λ i found. record {
          same_registrations = refl;
          keeps_sites = λ k.
              All-put_object (λ (x : MultiSitePostgres). x.meta) (OnSites S stamp-S) (change i)
                hub.instances
                (subst (All S) (sym (same i)) (
                  get_object-All (λ (x : MultiSitePostgres). x.meta) (OnSites S stamp-S)
                    hub.instances namespace name i k found))
                k;
        })

  untouched :
      (hub next : Hub)
      → next.registrations ≡ hub.registrations
      → next.instances ≡ hub.instances
      → Keeps S stamp-S hub next
  untouched hub next r i = record {
    same_registrations = r;
    keeps_sites = λ k. subst (All (OnSites S stamp-S)) (sym i) k;
  }

  module _ (api : ConditionApi) (text : HubText) where
    record_instance_backup-Keeps :
        (hub next : Hub) (calls : HubCalls) (c : ConfigMap) (result : PlanResult)
        → Keeps S stamp-S hub next
        → Keeps S stamp-S hub (record_instance_backup api text calls c result next).0
    unfolding record_instance_backup
    record_instance_backup-Keeps hub next calls c result k =
        elim (Bool-cases (directive_succeeded result.conditions)) [
          | inr other ↦ rw other k
          | inl ended ↦ rw ended (
              Keeps-trans S stamp-S hub next _ k (
                instance-Keeps calls c.namespace (value_of c "instanceRef") next
                  (instance_backup_after api text result)
                  (instance_backup_after-sites api text result)))
        ]

    record_upgrade_backup_result-Keeps :
        (hub : Hub) (calls : HubCalls) (c : ConfigMap) (name : String) (result : PlanResult)
        → Keeps S stamp-S hub (record_upgrade_backup_result api text hub calls c name result).0
    unfolding record_upgrade_backup_result
    record_upgrade_backup_result-Keeps hub calls c name result =
        then_go_keeps (Keeps S stamp-S hub) _ (record_instance_backup api text calls c result)
          (other_object-Keeps (λ (u : PostgresUpgrade). u.meta) calls upgrade_kind c.namespace name
            hub hub.upgrades (set_upgrades hub)
            (upgrade_backup_after api text (is_post_upgrade c) result)
            (λ xs. untouched hub (set_upgrades hub xs) refl refl))
          (λ next k. record_instance_backup-Keeps hub next calls c result k)

    record_upgrade_directive_result-Keeps :
        (hub : Hub) (calls : HubCalls) (c : ConfigMap) (name : String) (result : PlanResult)
        → Keeps S stamp-S hub (record_upgrade_directive_result api text hub calls c name result).0
    unfolding record_upgrade_directive_result
    record_upgrade_directive_result-Keeps hub calls c name result =
        elim (Bool-cases (value_of c "type" == "Backup")) [
          | inl backup ↦ rw backup (record_upgrade_backup_result-Keeps hub calls c name result)
          | inr other ↦ rw other (
              other_object-Keeps (λ (u : PostgresUpgrade). u.meta) calls upgrade_kind c.namespace
                name hub hub.upgrades (set_upgrades hub) (upgrade_after api text result)
                (λ xs. untouched hub (set_upgrades hub xs) refl refl))
        ]

    record_owned_directive_result-Keeps :
        (hub : Hub) (calls : HubCalls) (c : ConfigMap) (owner : OwnerReference) (site_name : String)
        (result : PlanResult)
        → Keeps S stamp-S hub
            (record_owned_directive_result api text hub calls c owner site_name result).0
    unfolding record_owned_directive_result
    record_owned_directive_result-Keeps hub calls c owner site_name result =
        let deleting = value_of c "deleting" == "true" in
        let of_instance =
          instance-Keeps calls c.namespace owner.name hub (instance_after api text result site_name)
            (instance_after-sites api text result site_name) in
        let of_database =
          other_object-Keeps (λ (d : PostgresDatabase). d.meta) calls database c.namespace
            owner.name hub hub.databases (set_databases hub)
            (database_after api text deleting result site_name)
            (λ xs. untouched hub (set_databases hub xs) refl refl) in
        let of_user =
          other_object-Keeps (λ (u : PostgresUser). u.meta) calls user c.namespace owner.name hub
            hub.users (set_users hub) (user_after api text deleting result site_name)
            (λ xs. untouched hub (set_users hub xs) refl refl) in
        let of_restore =
          other_object-Keeps (λ (r : PostgresRestore). r.meta) calls restore_kind c.namespace
            owner.name hub hub.restores (set_restores hub) (restore_after api text result)
            (λ xs. untouched hub (set_restores hub xs) refl refl) in
        let of_upgrade = record_upgrade_directive_result-Keeps hub calls c owner.name result in
        let of_none = Keeps-refl S stamp-S hub in
        ground (arith, of_instance, of_database, of_user, of_restore, of_upgrade, of_none)

    record_directive_result-Keeps :
        (hub : Hub) (calls : HubCalls) (site_name : String) (result : PlanResult)
        → Keeps S stamp-S hub (record_directive_result api text hub calls site_name result).0
    unfolding record_directive_result
    record_directive_result-Keeps hub calls site_name result =
        elim (Bool-cases (calls.list_fails config_map)) [
          | inl fails ↦ rw fails (Keeps-refl S stamp-S hub)
          | inr listed ↦
              elim (Option-cases (
                directive_of api text result.operation_uid
                  (select (has_label "multisite-postgres.dev/directive") hub.config_maps))) [
                    | inl none_found ↦ rw (listed, none_found) (Keeps-refl S stamp-S hub)
                    | inr ((c, owner), found) ↦
                        rw (listed, found)
                          (record_owned_directive_result-Keeps hub calls c owner site_name result)
                  ]
        ]

    pub record_result-Keeps :
        (hub : Hub) (calls : HubCalls) (site_name : String) (result : PlanResult) (now : ℕ)
        → ((s : SiteRevisionStatus) → S s → S (take_result api text result s).0)
        → Keeps S stamp-S hub (record_result api text hub calls site_name result now).0
    unfolding record_result
    record_result-Keeps hub calls site_name result now keeps =
        elim (Bool-cases (result.operation_uid == "")) [
          | inl plan ↦
              rw plan
                (record_plan_result-Keeps S stamp-S api text hub calls site_name result now keeps)
          | inr directive ↦ rw directive (record_directive_result-Keeps hub calls site_name result)
        ]
