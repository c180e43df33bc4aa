-- ===== src/Upgrade/Backup.antt =====
-- The full backup that a major upgrade waits for at its end (`ensurePostUpgradeBackup`).
pub mod Limits
use mspsql.Base.{
  ℕ, ◌+◌, ◌-◌, ◌*◌, ◌≡◌, ◌⊎◌, inl, inr, Bool-cases, arith, String, Bool, true, false, ◌&&◌, Option,
  none, some, [], ◌∷◌, ltb, leb, is_some, ◌==◌, if◌then◌else◌, texts, format_int, lookup, insert,
}
use mspsql.Api.Meta.{Condition, condition_false, ConditionApi, is_true, is_false}
use mspsql.Api.Common.{OperationProgressStatus}
use mspsql.Api.Upgrade.{PostgresUpgrade}
use mspsql.Upgrade.{
  Stored, Calls, get_directive, create_directive, Return, finished, failed, BackupDirective, update,
  finish, status_condition, set_condition, set_upgrade_phase,
}
use mspsql.Upgrade.Retry.{second, post_upgrade_backup_retry_delay}

abbrev pub max_post_upgrade_backup_attempts : ℕ
max_post_upgrade_backup_attempts = 5

abbrev pub post_upgrade_backup_deadline : ℕ
post_upgrade_backup_deadline = 24 * 3600 * second

-- `ensureUpgradeOperationProgress`: the operation that the status then points to.
unfoldable pub ensure_upgrade_operation_progress :
    Option OperationProgressStatus → String → ℕ → OperationProgressStatus
ensure_upgrade_operation_progress none operation_uid now = record {
  operation_uid = operation_uid;
  phase = "PostUpgradeBackup";
  attempt = 0;
  worker = "";
  site = "";
  next_retry_at = none;
  deadline_at = some (now + post_upgrade_backup_deadline);
  last_error_reason = "";
  last_error_message = "";
  terminal = false;
  manual_intervention_required = false;
}
ensure_upgrade_operation_progress (some op) operation_uid now =
    let deadline : Option ℕ =
      if is_some op.deadline_at
      then op.deadline_at
      else some (now + post_upgrade_backup_deadline) in
    record op { deadline_at = deadline }

-- The operation's UID and the directive's name at an attempt.
abbrev pub backup_operation_uid : String → ℕ → String
backup_operation_uid uid attempt = texts (uid ∷ "-post-upgrade-backup-" ∷ format_int attempt ∷ [])

abbrev pub backup_directive_name : String → ℕ → String
backup_directive_name uid attempt =
    texts ("mspsql-post-upgrade-backup-" ∷ uid ∷ "-" ∷ format_int attempt ∷ [])

-- The directive of the present attempt.
abbrev pub post_upgrade_directive : PostgresUpgrade → ℕ → BackupDirective
post_upgrade_directive u requested_at = record {
  type = "Backup";
  instance_ref = u.spec.instance_ref;
  deleting = "false";
  operation_uid = backup_operation_uid u.meta.uid u.status.post_upgrade_backup_attempt;
  upgrade_backup_phase = "post-upgrade";
  backup_type = "full";
  scheduled_at = requested_at;
}

abbrev with_operation : PostgresUpgrade → OperationProgressStatus → PostgresUpgrade
with_operation u op = record u { status = record (u.status) { operation = some op } }

-- The reason of the condition, where it is False.
abbrev pub false_reason : Option Condition → String
false_reason none = ""
false_reason (some c) = if is_false c.status then c.reason else ""

abbrev pub true_condition : Option Condition → Bool
true_condition none = false
true_condition (some c) = is_true c.status

abbrev message_of : Option Condition → String
message_of none = ""
message_of (some c) = c.message

abbrev is_before : ℕ → Option ℕ → Bool
is_before now none = false
is_before now (some t) = ltb now t

abbrev delay_until : ℕ → Option ℕ → ℕ
delay_until now none = 0
delay_until now (some t) = t - now

module _ (api : ConditionApi) (hash : String → ℕ → ℕ) where
  -- The backup failed, and no attempt is left: an operator has to repair the repository.
  unfoldable pub give_up_backup :
      Calls → Stored → PostgresUpgrade → OperationProgressStatus → Stored × Return
  unfolding update set_condition
  give_up_backup calls s u op =
      let cs =
        set_condition api u.status.conditions u.meta.generation "PostUpgradeBackupReady"
          condition_false "ManualInterventionRequired"
          "Post-upgrade backup retry limit reached; fix repository access and request operator repair" in
      update calls s
        (record u {
          status = record (u.status) {
            operation = some (record op {
              terminal = true;
              manual_intervention_required = true;
              next_retry_at = none;
            });
            conditions =
                set_condition api cs u.meta.generation "Ready" condition_false
                  "ManualInterventionRequired"
                  "Major upgrade is blocked until the required post-upgrade backup is repaired";
            phase = "Finalizing";
          };
        })
        (finish 0)

  -- The backup failed: a new attempt, under a new name, after a delay.
  unfoldable pub retry_backup :
      Calls → Stored → PostgresUpgrade → OperationProgressStatus → ℕ → Stored × Return
  unfolding update set_condition
  retry_backup calls s u op now =
      let attempt = u.status.post_upgrade_backup_attempt + 1 in
      let delay = post_upgrade_backup_retry_delay hash u.meta.uid attempt in
      update calls s
        (record u {
          status = record (u.status) {
            post_upgrade_backup_attempt = attempt;
            post_upgrade_backup_requested_at = none;
            operation = some (record op {
              operation_uid = backup_operation_uid u.meta.uid attempt;
              attempt = attempt;
              next_retry_at = some (now + delay);
              terminal = false;
              manual_intervention_required = false;
            });
            conditions =
                set_condition api u.status.conditions u.meta.generation "PostUpgradeBackupReady"
                  condition_false "BackupRetryRequested"
                  "Retrying the required post-upgrade full backup";
          };
        })
        (finish delay)

  -- No request is on record: make one.
  unfoldable pub request_backup :
      Calls → Stored → PostgresUpgrade → OperationProgressStatus → ℕ → Stored × Return
  unfolding update set_condition
  request_backup calls s u op now =
      update calls s
        (record u {
          status = record (u.status) {
            post_upgrade_backup_requested_at = some now;
            operation = some (record op {
              operation_uid = backup_operation_uid u.meta.uid u.status.post_upgrade_backup_attempt;
              phase = "PostUpgradeBackup";
              attempt = u.status.post_upgrade_backup_attempt;
              next_retry_at = none;
            });
            conditions =
                set_condition api u.status.conditions u.meta.generation "PostUpgradeBackupReady"
                  condition_false "BackupRequested"
                  "Waiting for the post-upgrade full backup and archived WAL verification";
          };
        })
        (finish 0)

  -- The directive of the attempt, created where it is missing, and the wait for its result.
  unfoldable pub issue_backup_directive : Calls → Stored → PostgresUpgrade → ℕ → ℕ → Stored × Return
  unfolding set_upgrade_phase
  issue_backup_directive calls s u requested_at now =
      let name = backup_directive_name u.meta.uid u.status.post_upgrade_backup_attempt in
      let directive = post_upgrade_directive u requested_at in
      let wait = λ (t : Stored).
        set_upgrade_phase api calls t u "Finalizing" "PostUpgradeBackupProgressing"
          "Waiting for the post-upgrade full backup" now in
      if calls.get_fails
      then (s, failed get_directive)
      else if is_some (lookup name s.directives)
      then wait s
      else if calls.create_fails
      then (s, failed create_directive)
      else wait (record s { directives = insert name directive s.directives })

  -- The operation on record, and with it as the pass goes on.
  abbrev pub operation_of : PostgresUpgrade → ℕ → OperationProgressStatus
  operation_of u now =
      ensure_upgrade_operation_progress u.status.operation
        (backup_operation_uid u.meta.uid u.status.post_upgrade_backup_attempt) now

  -- The backup is done: the operation is over.
  unfoldable pub finish_backup : PostgresUpgrade → ℕ → PostgresUpgrade
  unfolding ensure_upgrade_operation_progress
  finish_backup u now = with_operation u (record (operation_of u now) {
    terminal = true;
    manual_intervention_required = false;
    last_error_reason = "";
    last_error_message = "";
    next_retry_at = none;
  })

  abbrev pub failed_operation : PostgresUpgrade → String → ℕ → OperationProgressStatus
  failed_operation u message now = record (operation_of u now) {
    attempt = u.status.post_upgrade_backup_attempt;
    last_error_reason = "BackupFailed";
    last_error_message = message;
  }

  -- The attempt failed.
  unfoldable pub fail_backup : Calls → Stored → PostgresUpgrade → String → ℕ → Stored × Return
  unfolding ensure_upgrade_operation_progress give_up_backup retry_backup
  fail_backup calls s u message now =
      let op = failed_operation u message now in
      if leb max_post_upgrade_backup_attempts u.status.post_upgrade_backup_attempt
      then give_up_backup calls s u op
      else retry_backup calls s u op now

  -- The branches that leave the pass before the backup is done.
  unfoldable pub await_backup :
      Calls → Stored → PostgresUpgrade → Option Condition → ℕ → Stored × Return
  unfolding fail_backup request_backup issue_backup_directive
  await_backup calls s u condition now =
      let op = operation_of u now in
      if false_reason condition == "BackupFailed"
      then fail_backup calls s u (message_of condition) now
      else if false_reason condition == "BackupRetryRequested" && is_before now op.next_retry_at
      then (s, finished (delay_until now op.next_retry_at))
      else elim u.status.post_upgrade_backup_requested_at [
        | none ↦ request_backup calls s u op now
        | some requested_at ↦ issue_backup_directive calls s (with_operation u op) requested_at now
      ]

  -- `ready` is the rest of the pass once the backup is done, over the upgrade as changed here.
  unfoldable pub ensure_post_upgrade_backup :
      Calls → Stored → PostgresUpgrade → ℕ → (PostgresUpgrade → Stored × Return) → Stored × Return
  unfolding finish_backup await_backup
  ensure_post_upgrade_backup calls s u now ready =
      let condition = status_condition u.status.conditions "PostUpgradeBackupReady" in
      if true_condition condition
      then ready (finish_backup u now)
      else await_backup calls s u condition now

  give_up_backup-instance :
      (calls : Calls) (s : Stored) (u : PostgresUpgrade) (op : OperationProgressStatus)
      → (give_up_backup calls s u op).0.instance ≡ s.instance
  unfolding give_up_backup
  give_up_backup-instance calls s u op = ground arith

  retry_backup-instance :
      (calls : Calls) (s : Stored) (u : PostgresUpgrade) (op : OperationProgressStatus) (now : ℕ)
      → (retry_backup calls s u op now).0.instance ≡ s.instance
  unfolding retry_backup
  retry_backup-instance calls s u op now = ground arith

  request_backup-instance :
      (calls : Calls) (s : Stored) (u : PostgresUpgrade) (op : OperationProgressStatus) (now : ℕ)
      → (request_backup calls s u op now).0.instance ≡ s.instance
  unfolding request_backup
  request_backup-instance calls s u op now = ground arith

  issue_backup_directive-instance :
      (calls : Calls) (s : Stored) (u : PostgresUpgrade) (requested_at now : ℕ)
      → (issue_backup_directive calls s u requested_at now).0.instance ≡ s.instance
  unfolding issue_backup_directive
  issue_backup_directive-instance calls s u requested_at now = ground arith

  -- The wait for the last backup leaves the instance alone.
  pub await_backup-instance :
      (calls : Calls) (s : Stored) (u : PostgresUpgrade) (condition : Option Condition) (now : ℕ)
      → (await_backup calls s u condition now).0.instance ≡ s.instance
  unfolding await_backup
  await_backup-instance calls s u condition now = ground arith

  -- The pass goes on once the backup is done; until then the instance stays.
  pub ensure_post_upgrade_backup_cases :
      (calls : Calls) (s : Stored) (u : PostgresUpgrade) (now : ℕ)
      (ready : PostgresUpgrade → Stored × Return)
      → ((true_condition (status_condition u.status.conditions "PostUpgradeBackupReady") ≡ true)
          × (ensure_post_upgrade_backup calls s u now ready ≡ ready (finish_backup u now)))
        ⊎ ((ensure_post_upgrade_backup calls s u now ready).0.instance ≡ s.instance)
  unfolding ensure_post_upgrade_backup
  ensure_post_upgrade_backup_cases calls s u now ready =
      elim (Bool-cases
        (true_condition (status_condition u.status.conditions "PostUpgradeBackupReady"))) [
          | inl done ↦ inl (done, rw done)
          | inr waiting ↦ inr (
              rw waiting (
                await_backup-instance calls s u
                  (status_condition u.status.conditions "PostUpgradeBackupReady") now))
        ]
