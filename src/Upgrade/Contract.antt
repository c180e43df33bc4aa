-- ===== src/Upgrade/Contract.antt =====
-- What a major upgrade needs before it may start (`validateMajorUpgradeContract`, `rollbackPolicy`,
-- `snapshotClassDiscovered`). `strings.Contains` is a parameter.
pub mod Qualified
use mspsql.Base.{
  ℕ, zero, suc, ◌+◌, ◌-◌, ◌*◌, ℤ, pos, negsuc, String, Bool, true, false, ◌&&◌, ◌||◌, not, Option,
  none, some, List, [], ◌∷◌, ltb, nat_eq, any, ◌==◌, contains, if◌then◌else◌,
}
use mspsql.Api.Common.{
  SiteRole, role_data, StorageRollbackPolicy, VolumeSnapshotClassInventory, PostgresSiteSpec,
  StorageRequest,
}
use mspsql.Api.Instance.{MultiSitePostgres}
use mspsql.Api.Upgrade.{PostgresUpgrade, MajorUpgradeBenchmark}
use mspsql.Api.Site.{SiteRegistration}
use mspsql.Upgrade.Retry.{second}

pub data ContractError : Type 0 where
  downgrade no_upgrade_image upgrade_image_unpinned target_image_unpinned retention_not_positive
        no_repository no_benchmark benchmark_incomplete evidence_unpinned benchmark_in_future
        benchmark_too_old benchmark_image benchmark_versions benchmark_tde outage_over_target :
      ContractError
  storage_uncovered registration_unread no_rollback_policy snapshot_class_undiscovered :
      String → ContractError

abbrev pub is_positive : ℤ → Bool
is_positive (pos (suc n)) = true
is_positive _ = false

abbrev pub exceeds : ℤ → ℤ → Bool
exceeds (pos a) (pos b) = ltb b a
exceeds (pos a) (negsuc b) = true
exceeds (negsuc a) (pos b) = false
exceeds (negsuc a) (negsuc b) = ltb a b

unfoldable pub rollback_policy : List StorageRollbackPolicy → String → Option StorageRollbackPolicy
rollback_policy [] storage_class = none
rollback_policy (policy ∷ policies) storage_class =
    let rest = rollback_policy policies storage_class in
    if policy.storage_class_name == storage_class then some policy else rest

unfoldable pub snapshot_class_discovered : List VolumeSnapshotClassInventory → String → Bool
snapshot_class_discovered classes name =
    not (name == "")
    && any (λ (c : VolumeSnapshotClassInventory). c.name == name && not (c.driver == "")) classes

abbrev is_data_role : SiteRole → Bool
is_data_role role_data = true
is_data_role _ = false

-- The StorageClass that the loop checks at a site, none where it goes on to the next.
abbrev pub checked_class : PostgresSiteSpec → Option String
checked_class site = elim site.storage.postgres [
  | none ↦ none
  | some request ↦ if is_data_role site.role then some request.storage_class_name else none
]

-- The first refusal, or none.
abbrev pub or_else : Option ContractError → Option ContractError → Option ContractError
or_else none rest = rest
or_else (some e) rest = some e

abbrev pub refuse_if : Bool → ContractError → Option ContractError
refuse_if test e = if test then some e else none

-- `reads` gives the registration of a name, none where the call fails.
module _ (contains_text : String → String → Bool) (reads : String → Option SiteRegistration) where
  abbrev pub is_pinned : String → Bool
  is_pinned image = contains_text image "@sha256:"

  unfoldable pub validate_policy : String → String → SiteRegistration → Option ContractError
  unfolding rollback_policy snapshot_class_discovered
  validate_policy name class registration =
      elim (rollback_policy registration.spec.storage_rollback_policies class) [
        | none ↦ some (no_rollback_policy name)
        | some policy ↦
            refuse_if
              (policy.strategy == "VolumeSnapshot"
                && not (
                    snapshot_class_discovered registration.status.discovered_volume_snapshot_classes
                      policy.volume_snapshot_class_name))
              (snapshot_class_undiscovered name)
      ]

  -- One site: its StorageClass is tested, and its registration can roll it back.
  unfoldable pub validate_site_storage : List String → PostgresSiteSpec → Option ContractError
  unfolding validate_policy
  validate_site_storage tested site = elim (checked_class site) [
    | none ↦ none
    | some class ↦
        if not (contains tested class)
        then some (storage_uncovered site.name)
        else elim (reads site.site_registration_ref) [
          | none ↦ some (registration_unread site.name)
          | some registration ↦ validate_policy site.name class registration
        ]
  ]

  unfoldable pub validate_storage : List String → List PostgresSiteSpec → Option ContractError
  unfolding validate_site_storage
  validate_storage tested [] = none
  validate_storage tested (site ∷ sites) =
      let rest = validate_storage tested sites in or_else (validate_site_storage tested site) rest

  -- `TestedAt` in the future, and too old; the zero time is none.
  abbrev pub is_future : Option ℕ → ℕ → Bool
  is_future none now = false
  is_future (some t) now = ltb (now + 300 * second) t

  abbrev pub is_old : Option ℕ → ℕ → Bool
  is_old none now = true
  is_old (some t) now = ltb (30 * 24 * 3600 * second) (now - t)

  unfoldable pub validate_benchmark :
      PostgresUpgrade → MultiSitePostgres → MajorUpgradeBenchmark → ℕ → Option ContractError
  unfolding validate_storage
  validate_benchmark u i b now =
      if not (is_positive b.estimated_write_outage) || b.evidence == ""
      then some benchmark_incomplete
      else if not (is_pinned b.evidence)
      then some evidence_unpinned
      else if is_future b.tested_at now
      then some benchmark_in_future
      else if is_old b.tested_at now
      then some benchmark_too_old
      else if not (b.upgrade_image == u.spec.upgrade_image)
      then some benchmark_image
      else if not (nat_eq b.source_major_version i.spec.postgres.major_version)
          || not (nat_eq b.target_major_version u.spec.target_major_version)
      then some benchmark_versions
      else if not (if b.tde_enabled then i.spec.tde.enabled else not i.spec.tde.enabled)
      then some benchmark_tde
      else if exceeds b.estimated_write_outage u.spec.service_restoration_target
      then some outage_over_target
      else validate_storage b.postgres_storage_classes i.spec.sites

  unfoldable pub validate_major_upgrade_contract :
      PostgresUpgrade → MultiSitePostgres → ℕ → Option ContractError
  unfolding validate_benchmark
  validate_major_upgrade_contract u i now =
      if ltb u.spec.target_major_version i.spec.postgres.major_version
      then some downgrade
      else if u.spec.upgrade_image == ""
      then some no_upgrade_image
      else if not (is_pinned u.spec.upgrade_image)
      then some upgrade_image_unpinned
      else if not (is_pinned u.spec.target_image)
      then some target_image_unpinned
      else if not (is_positive u.spec.rollback_retention)
      then some retention_not_positive
      else elim i.spec.backup [
        | none ↦ some no_repository
        | some _ ↦ elim u.spec.benchmark [
          | none ↦ some no_benchmark
          | some b ↦ validate_benchmark u i b now
        ]
      ]
