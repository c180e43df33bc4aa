-- ===== src/Upgrade/Backup/Limits.antt =====
-- The attempts and the directives of `ensurePostUpgradeBackup`.
use mspsql.Base.{
  ℕ, ◌≤◌, String, false, ◌≡◌, refl, inl, inr, Option, some, lookup, lookup-insert, is_some, leb,
  Bool-cases, Option-cases, eq_iff, arith, ◌==◌, ◌&&◌, ◌||◌,
}
use mspsql.Api.Meta.{Condition, ConditionApi}
use mspsql.Api.Common.{OperationProgressStatus}
use mspsql.Api.Upgrade.{PostgresUpgrade}
use mspsql.Upgrade.{Stored, Calls, BackupDirective, set_upgrade_phase}
use mspsql.Upgrade.Backup.{
  max_post_upgrade_backup_attempts, give_up_backup, retry_backup, request_backup,
  issue_backup_directive, fail_backup, await_backup, with_operation, operation_of, failed_operation,
  message_of, false_reason, is_before, backup_directive_name, backup_operation_uid,
}

module _ (api : ConditionApi) (hash : String → ℕ → ℕ) where
  -- At most the attempts allowed are on record, and every directive that was there is as it was.
  pub record IsWithin (s t : Stored) : Type 0 where
    pub attempts : t.upgrade.status.post_upgrade_backup_attempt ≤ max_post_upgrade_backup_attempts
    pub kept :
        (name : String) (d : BackupDirective)
        → lookup name s.directives ≡ some d
        → lookup name t.directives ≡ some d

  module _ (calls : Calls) (s : Stored) (u : PostgresUpgrade) (now : ℕ)
      (stored : s.upgrade.status.post_upgrade_backup_attempt ≤ max_post_upgrade_backup_attempts)
      (copied : u.status.post_upgrade_backup_attempt ≤ max_post_upgrade_backup_attempts) where
    abbrev Within : Stored → Type 0
    Within t = (t.upgrade.status.post_upgrade_backup_attempt ≤ 5) × (t.directives ≡ s.directives)

    from_Within : (t : Stored) → Within t → IsWithin s t
    from_Within t (le, same) = record { attempts = le; kept = λ name d found. rw same found }

    give_up_backup-Within :
        (op : OperationProgressStatus) → Within (give_up_backup api hash calls s u op).0
    unfolding give_up_backup
    give_up_backup-Within op = elim (Bool-cases calls.status_fails) [
      | inl e ↦ rw e (stored, refl)
      | inr e ↦ rw e (copied, refl)
    ]

    retry_backup-Within :
        (op : OperationProgressStatus)
        → leb max_post_upgrade_backup_attempts u.status.post_upgrade_backup_attempt ≡ false
        → Within (retry_backup api hash calls s u op now).0
    unfolding retry_backup
    retry_backup-Within op left = elim (Bool-cases calls.status_fails) [
      | inl e ↦ rw e (stored, refl)
      | inr e ↦ rw e (ground arith, refl)
    ]

    request_backup-Within :
        (op : OperationProgressStatus) → Within (request_backup api hash calls s u op now).0
    unfolding request_backup
    request_backup-Within op = elim (Bool-cases calls.status_fails) [
      | inl e ↦ rw e (stored, refl)
      | inr e ↦ rw e (copied, refl)
    ]

    fail_backup-Within : (message : String) → Within (fail_backup api hash calls s u message now).0
    unfolding fail_backup
    fail_backup-Within message =
        elim (Bool-cases
          (leb max_post_upgrade_backup_attempts u.status.post_upgrade_backup_attempt)) [
            | inl over ↦ rw over (give_up_backup-Within (failed_operation api hash u message now))
            | inr left ↦
                rw left (retry_backup-Within (failed_operation api hash u message now) left)
          ]

    requested : ℕ → BackupDirective
    requested at = record {
      type = "Backup";
      instance_ref = u.spec.instance_ref;
      deleting = "false";
      operation_uid = backup_operation_uid u.meta.uid u.status.post_upgrade_backup_attempt;
      upgrade_backup_phase = "post-upgrade";
      backup_type = "full";
      scheduled_at = at;
    }

    -- A directive is created only under a name that is free.
    issue_backup_directive-IsWithin :
        (at : ℕ) → IsWithin s (issue_backup_directive api hash calls s u at now).0
    unfolding issue_backup_directive set_upgrade_phase requested
    issue_backup_directive-IsWithin at =
        let name = backup_directive_name u.meta.uid u.status.post_upgrade_backup_attempt in
        record {
          attempts = ground arith;
          kept = λ other d found.
              elim (Bool-cases
                (calls.get_fails || is_some (lookup name s.directives) || calls.create_fails)) [
                  | inl still ↦ ground arith
                  | inr free ↦ ground (
                    arith,
                    lookup-insert name other (requested at) s.directives,
                    eq_iff name other,
                  )
                ];
        }

module _ (api : ConditionApi) (hash : String → ℕ → ℕ) where
  -- Where the upgrade that is stored and the pass's copy of it have made at most five attempts,
  -- whatever the condition says and whichever calls fail: after the wait for the post-upgrade backup the stored upgrade
  -- has made at most five, and every directive that was there is as it was.
  pub await_backup-IsWithin :
      (calls : Calls) (s : Stored) (u : PostgresUpgrade) (condition : Option Condition) (now : ℕ)
      → s.upgrade.status.post_upgrade_backup_attempt ≤ max_post_upgrade_backup_attempts
      → u.status.post_upgrade_backup_attempt ≤ max_post_upgrade_backup_attempts
      → IsWithin api hash s (await_backup api hash calls s u condition now).0
  unfolding await_backup
  await_backup-IsWithin calls s u condition now stored copied =
      elim (Bool-cases (false_reason condition == "BackupFailed")) [
        | inl bad ↦ rw bad (
            from_Within api hash calls s u now stored copied _
              (fail_backup-Within api hash calls s u now stored copied (message_of condition)))
        | inr fine ↦
            elim (Bool-cases (
              false_reason condition == "BackupRetryRequested"
              && is_before now (operation_of api hash u now).next_retry_at)) [
                | inl early ↦
                    rw (fine, early) (record { attempts = stored; kept = λ name d found. found })
                | inr due ↦ elim (Option-cases u.status.post_upgrade_backup_requested_at) [
                  | inl unasked ↦
                      rw (fine, due, unasked)
                        (from_Within api hash calls s u now stored copied _ (
                          request_backup-Within api hash calls s u now stored copied
                            (operation_of api hash u now)))
                  | inr (at, asked) ↦
                      rw (fine, due, asked)
                        (issue_backup_directive-IsWithin api hash calls s
                          (with_operation u (operation_of api hash u now)) now stored copied at)
                ]
              ]
      ]
