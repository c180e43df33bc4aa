-- ===== src/Instance/Status/Merging.antt =====
-- The reports and the revision in a status that `mergeReconciledStatus` makes.
use mspsql.Base.{
  ◌≤◌, String, Bool, true, false, ◌≡◌, refl, ◌≢◌, subst, List, [], ◌∷◌, Bool-cases, inl, inr,
  eq_iff, arith, ◌==◌, any,
}
use mspsql.Api.Meta.{ConditionApi}
use mspsql.Api.Common.{SiteRevisionStatus}
use mspsql.Api.Instance.{MultiSitePostgresStatus}
use mspsql.Instance.Status.{
  previous_site_status, merge_site, merge_reconciled_sites, merge_reconciled_status,
}

-- The reports of a site, which the control server writes.
pub record IsSameReport (a b : SiteRevisionStatus) : Type 0 where
  pub acknowledged : a.acknowledged_revision ≡ b.acknowledged_revision
  pub applied : a.applied_revision ≡ b.applied_revision
  pub addresses : a.addresses ≡ b.addresses
  pub primary : a.primary ≡ b.primary
  pub standbys : a.synchronous_standbys ≡ b.synchronous_standbys
  pub observed_at : a.topology_observed_at ≡ b.topology_observed_at
  pub heartbeat : a.last_heartbeat_time ≡ b.last_heartbeat_time
  pub conditions : a.conditions ≡ b.conditions

abbrev pub is_listed : List SiteRevisionStatus → String → Bool
is_listed sites name = any (λ (x : SiteRevisionStatus). x.name == name) sites

previous_site_status-name :
    (sites : List SiteRevisionStatus) (name : String)
    → is_listed sites name ≡ true
    → (previous_site_status sites name).name ≡ name
unfolding previous_site_status
previous_site_status-name [] name h = absurd (ground arith)
previous_site_status-name (x ∷ sites) name h = elim (Bool-cases (x.name == name)) [
  | inl e ↦ rw e ((eq_iff x.name name).0 e)
  | inr e ↦ rw e (previous_site_status-name sites name (ground arith))
]

merge_site-IsSameReport :
    (current : List SiteRevisionStatus) (wanted : SiteRevisionStatus)
    → wanted.name ≢ ""
    → is_listed current wanted.name ≡ true
    → IsSameReport (merge_site current wanted) (previous_site_status current wanted.name)
unfolding merge_site
merge_site-IsSameReport current wanted named listed =
    let known : (previous_site_status current wanted.name).name == "" ≡ false =
      ground (arith, previous_site_status-name current wanted.name listed, eq_iff wanted.name "") in
    rw known (record {
      acknowledged = refl;
      applied = refl;
      addresses = refl;
      primary = refl;
      standbys = refl;
      observed_at = refl;
      heartbeat = refl;
      conditions = refl;
    })

merge_first :
    (current : List SiteRevisionStatus) (wanted : SiteRevisionStatus) (name : String)
    → wanted.name ≡ name
    → name ≢ ""
    → is_listed current name ≡ true
    → IsSameReport (merge_site current wanted) (previous_site_status current name)
merge_first current wanted name same =
    subst
      (λ n.
        n ≢ ""
        → is_listed current n ≡ true
        → IsSameReport (merge_site current wanted) (previous_site_status current n))
      same (merge_site-IsSameReport current wanted)

merge_site-wanted :
    (current : List SiteRevisionStatus) (wanted : SiteRevisionStatus)
    → ((merge_site current wanted).name ≡ wanted.name)
      × ((merge_site current wanted).desired_revision ≡ wanted.desired_revision)
unfolding merge_site
merge_site-wanted current wanted = (refl, refl)

merged_site-desired_revision :
    (current desired : List SiteRevisionStatus) (name : String)
    → is_listed desired name ≡ true
    → (previous_site_status (merge_reconciled_sites current desired) name).desired_revision
      ≡ (previous_site_status desired name).desired_revision
unfolding merge_reconciled_sites previous_site_status
merged_site-desired_revision current [] name wanted = absurd (ground arith)
merged_site-desired_revision current (x ∷ desired) name wanted =
    let (same_name, same_revision) = merge_site-wanted current x in
    elim (Bool-cases (x.name == name)) [
      | inl e ↦ rw (same_name, e) same_revision
      | inr e ↦ rw (same_name, e) (merged_site-desired_revision current desired name (ground arith))
    ]

merged_site-IsSameReport :
    (current desired : List SiteRevisionStatus) (name : String)
    → name ≢ ""
    → is_listed current name ≡ true
    → is_listed desired name ≡ true
    → IsSameReport
        (previous_site_status (merge_reconciled_sites current desired) name)
        (previous_site_status current name)
unfolding merge_reconciled_sites previous_site_status
merged_site-IsSameReport current [] name named listed wanted = absurd (ground arith)
merged_site-IsSameReport current (x ∷ desired) name named listed wanted =
    elim (Bool-cases (x.name == name)) [
      | inl e ↦ rw e (merge_first current x name ((eq_iff x.name name).0 e) named listed)
      | inr e ↦ rw e (merged_site-IsSameReport current desired name named listed (ground arith))
    ]

-- For a site that has a name, that the status on the server lists and that the pass wants to list, the
-- merged status has the site's acknowledged and applied revisions, addresses, primary, standbys, times
-- of observation and heartbeat, and conditions as on the server, whatever the pass had read, and
-- its desired revision as the pass wants it. Nothing is stated of the phase of a site, or of the
-- schedules and conditions of the instance, which the pass overwrites.
pub merge_keeps_reports :
    (api : ConditionApi) (current desired : MultiSitePostgresStatus) (name : String)
    → name ≢ ""
    → is_listed current.sites name ≡ true
    → is_listed desired.sites name ≡ true
    → IsSameReport
        (previous_site_status (merge_reconciled_status api current desired).sites name)
        (previous_site_status current.sites name)
      × ((previous_site_status
            (merge_reconciled_status api current desired).sites
            name).desired_revision
          ≡ (previous_site_status desired.sites name).desired_revision)
unfolding merge_reconciled_status
merge_keeps_reports api current desired name named listed wanted = (
  merged_site-IsSameReport current.sites desired.sites name named listed wanted,
  merged_site-desired_revision current.sites desired.sites name wanted,
)

-- The merged status has the higher of the two active revisions, so that no pass takes it back.
pub merge_active_revision :
    (api : ConditionApi) (current desired : MultiSitePostgresStatus)
    → (current.active_revision ≤ (merge_reconciled_status api current desired).active_revision)
      × (desired.active_revision ≤ (merge_reconciled_status api current desired).active_revision)
unfolding merge_reconciled_status
merge_active_revision api current desired = ground arith
