-- ===== src/Control/Results/Release.antt =====
-- The last backup of a major upgrade, from the result that the server records to the pass of the upgrade
-- controller that reads it (`recordUpgradeBackupResult`, and `ensurePostUpgradeBackup` of
-- internal/controller/postgresupgrade_controller.go).
use mspsql.Base.{
  ℕ, String, Bool, true, false, ◌≡◌, refl, ◌∙◌, some, List, Bool-cases, inl, inr, arith,
}
use mspsql.Api.Meta.{Condition, ConditionApi, condition_true, condition_false}
use mspsql.Api.Upgrade.{PostgresUpgrade}
use mspsql.Upgrade.{Stored, Calls, Return, status_condition}
use mspsql.Upgrade.Backup.{finish_backup, fail_backup, await_backup, ensure_post_upgrade_backup}
use mspsql.Control.{HubText, set_instance_condition}
use mspsql.Control.Record.{PlanResult}
use mspsql.Control.Results.{directive_succeeded, upgrade_backup_after}

module _ (api : ConditionApi) (hash : String → ℕ → ℕ) (text : HubText)
    (same_find : (cs : List Condition) (t : String)
      → status_condition cs t ≡ api.find_status_condition cs t) where
  -- The condition that a result of the last backup sets.
  abbrev recorded : Bool → PostgresUpgrade → Condition
  recorded true u = record {
    type = "PostUpgradeBackupReady";
    status = condition_true;
    observed_generation = u.meta.generation;
    reason = "BackupVerified";
    message = "pgBackRest completed the post-upgrade full backup and verified archived WAL";
  }
  recorded false u = record {
    type = "PostUpgradeBackupReady";
    status = condition_false;
    observed_generation = u.meta.generation;
    reason = "BackupFailed";
    message = "The required full backup or WAL verification failed";
  }

  recorded_condition :
      (result : PlanResult) (u : PostgresUpgrade)
      → status_condition
          (upgrade_backup_after api text true result u).status.conditions
          "PostUpgradeBackupReady"
        ≡ some (recorded (directive_succeeded result.conditions) u)
  unfolding upgrade_backup_after set_instance_condition
  recorded_condition result u = elim (Bool-cases (directive_succeeded result.conditions)) [
    | inl ended ↦ rw ended (
        same_find _ "PostUpgradeBackupReady"
        ∙ api.find-set u.status.conditions (recorded true u) "PostUpgradeBackupReady")
    | inr failed_so ↦ rw failed_so (
        same_find _ "PostUpgradeBackupReady"
        ∙ api.find-set u.status.conditions (recorded false u) "PostUpgradeBackupReady")
  ]

  -- Once the server has recorded a result of the last backup, the next pass of the upgrade controller
  -- goes on where the backup succeeded, and where it failed takes it as a failed attempt.
  pub recorded_backup_decides :
      (result : PlanResult) (calls : Calls) (s : Stored) (u : PostgresUpgrade) (now : ℕ)
      (ready : PostgresUpgrade → Stored × Return)
      → let after = upgrade_backup_after api text true result u in
        (directive_succeeded result.conditions ≡ true
          → ensure_post_upgrade_backup api hash calls s after now ready
            ≡ ready (finish_backup api hash after now))
        × (directive_succeeded result.conditions ≡ false
            → ensure_post_upgrade_backup api hash calls s after now ready
              ≡ fail_backup api hash calls s after
                  "The required full backup or WAL verification failed" now)
  unfolding ensure_post_upgrade_backup await_backup
  recorded_backup_decides result calls s u now ready =
      let seen = recorded_condition result u in
      (
        λ ended. ground (arith, rw (ended) at seen),
        λ failed_so. rw (rw (failed_so) at seen, ensure_post_upgrade_backup, await_backup) refl,
      )
