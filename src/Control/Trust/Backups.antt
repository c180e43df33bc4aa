-- ===== src/Control/Trust/Backups.antt =====
-- The directive that the upgrade controller makes for the backup at the end of a major upgrade
-- (`ensurePostUpgradeBackup` of internal/controller/postgresupgrade_controller.go), as the server checks
-- it.
use mspsql.Base.{
  ℕ, String, true, false, ◌≡◌, refl, none, some, [], ◌∷◌, lookup, lookup-insert, eq_refl, arith,
  ◌==◌,
}
use mspsql.Api.Meta.{ConditionApi}
use mspsql.Api.Instance.{MultiSitePostgres}
use mspsql.Api.Upgrade.{PostgresUpgrade}
use mspsql.Upgrade.{BackupDirective, Stored, Calls, set_upgrade_phase, update}
use mspsql.Upgrade.Backup.{
  backup_operation_uid, backup_directive_name, post_upgrade_directive, issue_backup_directive,
}
use mspsql.Control.{
  OwnerReference, ConfigMap, Hub, upgrade_kind, HubCalls, done, HubText, get_object,
}
use mspsql.Control.Trust.{
  group_version, upgrade_backup_matches, upgrade_backup_directive_trusted, directive_owner_trusted,
}

-- The owner that `SetControllerReference` writes, as it documents.
abbrev pub upgrade_owner : PostgresUpgrade → OwnerReference
upgrade_owner u = record {
  api_version = group_version;
  kind = "PostgresUpgrade";
  name = u.meta.name;
  uid = u.meta.uid;
  controller = true;
}

-- The ConfigMap of a backup directive; `backup_text` is the JSON of its type and time.
abbrev pub backup_config_map :
    (String → ℕ → String) → PostgresUpgrade → String → BackupDirective → ConfigMap
backup_config_map backup_text u name d = record {
  namespace = u.meta.namespace;
  name = name;
  labels =
      ("multisite-postgres.dev/directive", "Backup")
      ∷ ("multisite-postgres.dev/instance-ref", d.instance_ref)
      ∷ [];
  owner_references = upgrade_owner u ∷ [];
  contents =
      ("type", d.type)
      ∷ ("instanceRef", d.instance_ref)
      ∷ ("deleting", d.deleting)
      ∷ ("operationUID", d.operation_uid)
      ∷ ("upgradeBackupPhase", d.upgrade_backup_phase)
      ∷ ("spec.json", backup_text d.backup_type d.scheduled_at)
      ∷ [];
}

module _ (text : HubText) (hub : Hub) (calls : HubCalls) (backup_text : String → ℕ → String)
    (u : PostgresUpgrade) (i : MultiSitePostgres) (requested_at : ℕ) where
  present : ConfigMap
  present =
      backup_config_map backup_text u
        (backup_directive_name u.meta.uid u.status.post_upgrade_backup_attempt)
        (post_upgrade_directive u requested_at)

  present-matches :
      u.status.post_upgrade_backup_requested_at ≡ some requested_at
      → upgrade_backup_matches present u ≡ true
  unfolding present upgrade_backup_matches lookup
  present-matches asked =
      rw
        (
          asked,
          eq_refl (backup_directive_name u.meta.uid u.status.post_upgrade_backup_attempt),
          eq_refl (backup_operation_uid u.meta.uid u.status.post_upgrade_backup_attempt),
        )
        refl

  present-upgrade_trusted :
      u.status.post_upgrade_backup_requested_at ≡ some requested_at
      → get_object (λ (x : PostgresUpgrade). x.meta) hub.upgrades u.meta.namespace u.meta.name
        ≡ some u
      → calls.get_fails upgrade_kind u.meta.name ≡ false
      → i.meta.name ≡ u.spec.instance_ref
      → upgrade_backup_directive_trusted hub calls present (upgrade_owner u) i ≡ done true
  unfolding present upgrade_backup_directive_trusted lookup
  present-upgrade_trusted asked stored reads named =
      rw
        (
          reads,
          stored,
          named,
          eq_refl u.spec.instance_ref,
          eq_refl u.meta.uid,
          present-matches asked,
        )
        refl

  present-trusted :
      u.status.post_upgrade_backup_requested_at ≡ some requested_at
      → get_object (λ (x : PostgresUpgrade). x.meta) hub.upgrades u.meta.namespace u.meta.name
        ≡ some u
      → calls.get_fails upgrade_kind u.meta.name ≡ false
      → (u.meta.uid == "") ≡ false
      → i.meta.name ≡ u.spec.instance_ref
      → directive_owner_trusted text hub calls present (some (upgrade_owner u)) i ≡ done true
  unfolding present directive_owner_trusted lookup
  present-trusted asked stored reads has_uid named =
      let trusted = present-upgrade_trusted asked stored reads named in
      rw (has_uid, named, eq_refl u.spec.instance_ref) trusted

  -- What a pass of the upgrade controller that makes the directive stores under its name.
  issued-present :
      (api : ConditionApi) (hash : String → ℕ → ℕ) (pass : Calls) (s : Stored) (now : ℕ)
      (d : BackupDirective)
      → lookup (backup_directive_name u.meta.uid u.status.post_upgrade_backup_attempt) s.directives
        ≡ none
      → lookup
          (backup_directive_name u.meta.uid u.status.post_upgrade_backup_attempt)
          (issue_backup_directive api hash pass s u requested_at now).0.directives
        ≡ some d
      → d ≡ post_upgrade_directive u requested_at
  unfolding issue_backup_directive set_upgrade_phase update
  issued-present api hash pass s now d absent_before issued =
      let name = backup_directive_name u.meta.uid u.status.post_upgrade_backup_attempt in
      let inserted = lookup-insert name name (post_upgrade_directive u requested_at) s.directives in
      let same = eq_refl name in ground (arith, inserted, same, absent_before, issued)

  -- The directive that a pass of the upgrade controller makes for its last backup is one that the server
  -- trusts, for the upgrade as stored with the request on record, and for the instance that it names.
  pub issued_backup_trusted :
      (api : ConditionApi) (hash : String → ℕ → ℕ) (pass : Calls) (s : Stored) (now : ℕ)
      (d : BackupDirective)
      → lookup (backup_directive_name u.meta.uid u.status.post_upgrade_backup_attempt) s.directives
        ≡ none
      → lookup
          (backup_directive_name u.meta.uid u.status.post_upgrade_backup_attempt)
          (issue_backup_directive api hash pass s u requested_at now).0.directives
        ≡ some d
      → u.status.post_upgrade_backup_requested_at ≡ some requested_at
      → get_object (λ (x : PostgresUpgrade). x.meta) hub.upgrades u.meta.namespace u.meta.name
        ≡ some u
      → calls.get_fails upgrade_kind u.meta.name ≡ false
      → (u.meta.uid == "") ≡ false
      → i.meta.name ≡ u.spec.instance_ref
      → directive_owner_trusted text hub calls
          (backup_config_map backup_text u
            (backup_directive_name u.meta.uid u.status.post_upgrade_backup_attempt)
            d)
          (some (upgrade_owner u))
          i
        ≡ done true
  unfolding present
  issued_backup_trusted api hash pass s now d absent_before issued asked stored reads has_uid
        named =
      rw (issued-present api hash pass s now d absent_before issued)
        (present-trusted asked stored reads has_uid named)
