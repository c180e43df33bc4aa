-- ===== src/Upgrade/Contract/Qualified.antt =====
-- What is known of a major upgrade that meets the contract.
use mspsql.Base.{
  ℕ, String, Bool, true, false, ◌≡◌, ◌≤◌, Option, none, some, List, [], ◌∷◌, All, is_some, contains,
  nat_eq_iff, Option-cases, inl, inr, eq_iff, arith, ◌==◌,
}
use mspsql.Api.Common.{StorageRollbackPolicy, PostgresSiteSpec}
use mspsql.Api.Instance.{MultiSitePostgres}
use mspsql.Api.Upgrade.{PostgresUpgrade, MajorUpgradeBenchmark}
use mspsql.Api.Site.{SiteRegistration}
use mspsql.Upgrade.Contract.{
  is_positive, exceeds, rollback_policy, snapshot_class_discovered, checked_class, is_pinned,
  validate_policy, validate_site_storage, validate_storage, is_future, is_old, validate_benchmark,
  validate_major_upgrade_contract,
}

module _ (contains_text : String → String → Bool) (reads : String → Option SiteRegistration) where
  -- A site whose data can be rolled back: its StorageClass was tested, and its registration has a
  -- policy for it, with a VolumeSnapshotClass that is discovered where the policy needs one.
  pub record CanRollBack (tested : List String) (site : PostgresSiteSpec) (class : String)
      : Type 0 where
    pub covered : contains tested class ≡ true
    pub registration : SiteRegistration
    pub registered : reads site.site_registration_ref ≡ some registration
    pub policy : StorageRollbackPolicy
    pub permitted : rollback_policy registration.spec.storage_rollback_policies class ≡ some policy
    pub discovered :
        (policy.strategy == "VolumeSnapshot") ≡ true
        → snapshot_class_discovered registration.status.discovered_volume_snapshot_classes
            policy.volume_snapshot_class_name
          ≡ true

  abbrev pub IsCovered : List String → PostgresSiteSpec → Type 0
  IsCovered tested site =
      (class : String) → checked_class site ≡ some class → CanRollBack tested site class

  validate_site_storage-IsCovered :
      (tested : List String) (site : PostgresSiteSpec)
      → validate_site_storage contains_text reads tested site ≡ none
      → IsCovered tested site
  unfolding validate_site_storage validate_policy
  validate_site_storage-IsCovered tested site h class checked =
      elim (Option-cases (reads site.site_registration_ref)) [
        | inl unread ↦ absurd (ground (arith, h, checked, unread))
        | inr (registration, registered) ↦
            elim (Option-cases
              (rollback_policy registration.spec.storage_rollback_policies class)) [
                | inl no_policy ↦ absurd (ground (arith, h, checked, registered, no_policy))
                | inr (policy, permitted) ↦ record {
                  covered = ground (arith, h, checked);
                  registration = registration;
                  registered = registered;
                  policy = policy;
                  permitted = permitted;
                  discovered =
                      λ snapshots. ground (arith, h, checked, registered, permitted, snapshots);
                }
              ]
      ]

  validate_storage-IsCovered :
      (tested : List String) (sites : List PostgresSiteSpec)
      → validate_storage contains_text reads tested sites ≡ none
      → All (IsCovered tested) sites
  unfolding validate_storage
  validate_storage-IsCovered tested [] h = tt
  validate_storage-IsCovered tested (site ∷ sites) h =
      elim (Option-cases (validate_site_storage contains_text reads tested site)) [
        | inl accepted ↦ (
          validate_site_storage-IsCovered tested site accepted,
          validate_storage-IsCovered tested sites (ground (arith, h, accepted)),
        )
        | inr (e, refused) ↦ absurd (ground (arith, h, refused))
      ]

  -- The benchmark of the contract: of this upgrade image, these versions and this TDE mode, recent, with an
  -- outage within the target, and over the StorageClass of every data site that requests storage
  -- for PostgreSQL.
  pub record IsBenchmarked (u : PostgresUpgrade) (i : MultiSitePostgres) (now : ℕ)
      (b : MajorUpgradeBenchmark) : Type 0 where
    pub has_benchmark : u.spec.benchmark ≡ some b
    pub pinned_evidence : is_pinned contains_text reads b.evidence ≡ true
    pub past : is_future contains_text reads b.tested_at now ≡ false
    pub recent : is_old contains_text reads b.tested_at now ≡ false
    pub same_image : b.upgrade_image ≡ u.spec.upgrade_image
    pub same_source : b.source_major_version ≡ i.spec.postgres.major_version
    pub same_target : b.target_major_version ≡ u.spec.target_major_version
    pub same_tde : b.tde_enabled ≡ i.spec.tde.enabled
    pub within_target : exceeds b.estimated_write_outage u.spec.service_restoration_target ≡ false
    pub covers_sites : All (IsCovered b.postgres_storage_classes) i.spec.sites

  -- An upgrade that may start.
  pub record IsQualified (u : PostgresUpgrade) (i : MultiSitePostgres) (now : ℕ) : Type 0 where
    pub no_downgrade : i.spec.postgres.major_version ≤ u.spec.target_major_version
    pub pinned_upgrade_image : is_pinned contains_text reads u.spec.upgrade_image ≡ true
    pub pinned_target_image : is_pinned contains_text reads u.spec.target_image ≡ true
    pub keeps_rollback : is_positive u.spec.rollback_retention ≡ true
    pub has_repository : is_some i.spec.backup ≡ true
    pub benchmark : MajorUpgradeBenchmark
    pub benchmarked : IsBenchmarked u i now benchmark

  validate_benchmark-storage :
      (u : PostgresUpgrade) (i : MultiSitePostgres) (b : MajorUpgradeBenchmark) (now : ℕ)
      → validate_benchmark contains_text reads u i b now ≡ none
      → validate_storage contains_text reads b.postgres_storage_classes i.spec.sites ≡ none
  unfolding validate_benchmark
  validate_benchmark-storage u i b now h = ground (arith, h)

  validate_benchmark-IsBenchmarked :
      (u : PostgresUpgrade) (i : MultiSitePostgres) (b : MajorUpgradeBenchmark) (now : ℕ)
      → u.spec.benchmark ≡ some b
      → validate_benchmark contains_text reads u i b now ≡ none
      → IsBenchmarked u i now b
  unfolding validate_benchmark
  validate_benchmark-IsBenchmarked u i b now has h = record {
    has_benchmark = has;
    pinned_evidence = ground (arith, h);
    past = ground (arith, h);
    recent = ground (arith, h);
    same_image = ground (arith, h, eq_iff b.upgrade_image u.spec.upgrade_image);
    same_source =
        ground (arith, h, nat_eq_iff b.source_major_version i.spec.postgres.major_version);
    same_target = ground (arith, h, nat_eq_iff b.target_major_version u.spec.target_major_version);
    same_tde = ground (arith, h);
    within_target = ground (arith, h);
    covers_sites =
        validate_storage-IsCovered b.postgres_storage_classes i.spec.sites
          (validate_benchmark-storage u i b now h);
  }

  -- A major upgrade that the contract accepts is no downgrade, has both images pinned by digest, a
  -- rollback that is kept, a backup repository, and a recent benchmark of its upgrade image, versions and
  -- TDE mode, within the target and over the StorageClass of every data site that requests storage
  -- for PostgreSQL, each with a policy to roll it back. The benchmark says nothing of the target
  -- image.
  pub validate_major_upgrade_contract-IsQualified :
      (u : PostgresUpgrade) (i : MultiSitePostgres) (now : ℕ)
      → validate_major_upgrade_contract contains_text reads u i now ≡ none
      → IsQualified u i now
  unfolding validate_major_upgrade_contract
  validate_major_upgrade_contract-IsQualified u i now h = elim (Option-cases i.spec.backup) [
    | inl no_repository_here ↦ absurd (ground (arith, h, no_repository_here))
    | inr (repository, configured) ↦ elim (Option-cases u.spec.benchmark) [
      | inl none_here ↦ absurd (ground (arith, h, configured, none_here))
      | inr (b, has) ↦ record {
        no_downgrade = ground (arith, h);
        pinned_upgrade_image = ground (arith, h);
        pinned_target_image = ground (arith, h);
        keeps_rollback = ground (arith, h);
        has_repository = ground (arith, configured);
        benchmark = b;
        benchmarked =
            validate_benchmark-IsBenchmarked u i b now has (ground (arith, h, configured, has));
      }
    ]
  ]
