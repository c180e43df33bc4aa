-- ===== src/Upgrade/Major/Closing.antt =====
-- The last phase of `reconcileMajorUpgrade`, with sites that settle between its passes and a backup that
-- is made once its directive is stored.
use mspsql.Base.{
  ℕ, zero, suc, String, true, false, ◌≡◌, refl, ◌≢◌, ◌⊎◌, List, arith, some, none, eq_iff, eq_refl,
  subst, Option, is_some, lookup, insert, lookup-insert, ◌==◌, ◌≤◌, Bool-cases, Option-cases, inl,
  inr,
}
use mspsql.Api.Meta.{ConditionApi}
use mspsql.Api.Instance.{MajorUpgradePhase, replicas, major_finalize, unset, major}
use mspsql.Upgrade.{Stored, Calls, major_phase_applied, status_condition}
use mspsql.Api.Meta.{Condition}
use mspsql.Api.Common.{OperationProgressStatus}
use mspsql.Upgrade.{set_upgrade_phase}
use mspsql.Upgrade.Backup.{
  true_condition, false_reason, ensure_post_upgrade_backup, backup_directive_name, request_backup,
  issue_backup_directive, await_backup, operation_of,
}
use mspsql.Upgrade.Major.{
  HasSuffix, reconcile_major_upgrade, major_upgrade_failed, replicas_ready, complete_phase,
  continue_major_upgrade, end_upgrade,
}
use mspsql.Api.Upgrade.{PostgresUpgrade}

abbrev pub all_succeed : Calls
all_succeed = record {
  patch_fails = false;
  status_fails = false;
  get_fails = false;
  create_fails = false;
}

-- The upgrade owns the instance, at a phase and with a revision to wait for.
pub record IsAt (s : Stored) (p : MajorUpgradePhase) : Type 0 where
  pub named : s.instance.annotations.upgrade_uid ≢ ""
  pub owned : s.instance.annotations.upgrade_uid ≡ s.upgrade.meta.uid
  pub marked : s.instance.annotations.upgrade_phase ≡ major p
  pub awaited : (r : ℕ) × (s.instance.annotations.upgrade_revision ≡ some r)

insert-held :
    {V : Type 0} (name : String) (v : V) (entries : List (String × V))
    → is_some (lookup name (insert name v entries)) ≡ true
insert-held name v entries =
    let looked = lookup-insert name name v entries in ground (arith, looked, eq_refl name)

module _ (api : ConditionApi) (has_suffix : HasSuffix) (hash : String → ℕ → ℕ) where
  -- The condition of the last backup, and the name of the directive that asks for it.
  abbrev pub backup_condition : Stored → Option Condition
  backup_condition s = status_condition s.upgrade.status.conditions "PostUpgradeBackupReady"

  abbrev pub backup_name : Stored → String
  backup_name s =
      backup_directive_name s.upgrade.meta.uid s.upgrade.status.post_upgrade_backup_attempt

  -- The directive is stored.
  abbrev pub IsIssued : Stored → Type 0
  IsIssued s = is_some (lookup (backup_name s) s.directives) ≡ true

  -- Between two passes at the last phase, the backup is reported done once its directive is stored, no
  -- failure is on record, and the request, the attempt and the directives stay as they were.
  pub record IsAnswered (s t : Stored) : Type 0 where
    pub unfailed : (false_reason (backup_condition t) == "BackupFailed") ≡ false
    pub not_retried : (false_reason (backup_condition t) == "BackupRetryRequested") ≡ false
    pub answered : IsIssued s → true_condition (backup_condition t) ≡ true
    pub same_request :
        t.upgrade.status.post_upgrade_backup_requested_at
        ≡ s.upgrade.status.post_upgrade_backup_requested_at
    pub same_name : backup_name t ≡ backup_name s
    pub same_directives : t.directives ≡ s.directives

  -- Between two passes, from `s` to `t`, the sites apply the phase without failing; at the phase of the
  -- replicas these are in sync; and at the last phase the backup that was asked for is made.
  pub record IsSettled (p : MajorUpgradePhase) (s t : Stored) : Type 0 where
    pub applied : major_phase_applied t.instance ≡ true
    pub unfailed : major_upgrade_failed has_suffix t.instance ≡ false
    pub in_sync : p ≡ replicas → replicas_ready api t.instance ≡ true
    pub at_last : p ≡ major_finalize → IsAnswered s t

  -- Nobody else writes the upgrade's annotations.
  abbrev pub Settles : (Stored → Stored) → Type 0
  Settles settle =
      (s : Stored) (p : MajorUpgradePhase) → IsAt s p → IsAt (settle s) p × IsSettled p s (settle s)

  abbrev pub pass : Stored → ℕ → Stored
  pass s now = (reconcile_major_upgrade api has_suffix hash all_succeed s s.upgrade now).0

  -- The clock from the next pass on.
  abbrev pub later : (ℕ → ℕ) → ℕ → ℕ
  later clock n = clock (suc n)

  -- `n` passes, each after the sites have settled, at the times of a clock.
  unfoldable pub passes : (Stored → Stored) → ℕ → (ℕ → ℕ) → Stored → Stored
  passes settle zero clock s = s
  passes settle (suc n) clock s = passes settle n (later clock) (pass (settle s) (clock 0))

  -- A pass at a settled instance completes the phase.
  pub settled_pass :
      (s : Stored) (p : MajorUpgradePhase) (now : ℕ)
      → IsAt s p
      → major_phase_applied s.instance ≡ true
      → major_upgrade_failed has_suffix s.instance ≡ false
      → pass s now ≡ (complete_phase api has_suffix hash p all_succeed s s.upgrade s.instance now).0
  unfolding reconcile_major_upgrade continue_major_upgrade
  settled_pass s p now at applied unfailed =
      ground (arith, eq_iff s.instance.annotations.upgrade_uid "", eq_refl s.upgrade.meta.uid)

  pub record IsComplete (s : Stored) : Type 0 where
    pub released : s.instance.annotations.upgrade_uid ≡ ""
    pub unmarked : s.instance.annotations.upgrade_phase ≡ unset
    pub completed : s.upgrade.status.phase ≡ "Completed"

  end_upgrade-IsComplete :
      (s : Stored) (u : PostgresUpgrade)
      → IsComplete (end_upgrade api has_suffix hash all_succeed s u s.instance).0
  unfolding end_upgrade
  end_upgrade-IsComplete s u = record { released = refl; unmarked = refl; completed = refl }

  backed_up-IsComplete :
      (s : Stored) (now : ℕ)
      → true_condition (backup_condition s) ≡ true
      → IsComplete
          (complete_phase api has_suffix hash major_finalize all_succeed s s.upgrade s.instance
            now).0
  unfolding complete_phase ensure_post_upgrade_backup
  backed_up-IsComplete s now backed_up = rw backed_up (end_upgrade-IsComplete s _)

  -- The request is on record, and with it what the next pass needs.
  pub record IsRequested (s : Stored) : Type 0 where
    pub requested_at : ℕ
    pub recorded : s.upgrade.status.post_upgrade_backup_requested_at ≡ some requested_at

  request_backup-IsAt :
      (s : Stored) (op : OperationProgressStatus) (now : ℕ)
      → IsAt s major_finalize
      → IsAt (request_backup api hash all_succeed s s.upgrade op now).0 major_finalize
        × IsRequested (request_backup api hash all_succeed s s.upgrade op now).0
  unfolding request_backup
  request_backup-IsAt s op now at = (
    record { named = at.named; owned = at.owned; marked = at.marked; awaited = at.awaited },
    record { requested_at = now; recorded = refl },
  )

  issue_backup_directive-IsIssued :
      (s : Stored) (op : OperationProgressStatus) (requested_at now : ℕ)
      → IsAt s major_finalize
      → IsAt
          (issue_backup_directive api hash all_succeed s
            (record (s.upgrade) { status = record (s.upgrade.status) { operation = some op } })
            requested_at
            now).0
          major_finalize
        × IsIssued
            (issue_backup_directive api hash all_succeed s
              (record (s.upgrade) { status = record (s.upgrade.status) { operation = some op } })
              requested_at
              now).0
  unfolding issue_backup_directive set_upgrade_phase
  issue_backup_directive-IsIssued s op requested_at now at =
      elim (Bool-cases (is_some (lookup (backup_name s) s.directives))) [
        | inl held ↦ rw held (
          record { named = at.named; owned = at.owned; marked = at.marked; awaited = at.awaited },
          held,
        )
        | inr absent ↦ rw absent (
          record { named = at.named; owned = at.owned; marked = at.marked; awaited = at.awaited },
          insert-held (backup_name s) _ s.directives,
        )
      ]

  waiting_pass :
      (s : Stored) (now : ℕ)
      → true_condition (backup_condition s) ≡ false
      → (false_reason (backup_condition s) == "BackupFailed") ≡ false
      → (false_reason (backup_condition s) == "BackupRetryRequested") ≡ false
      → IsAt s major_finalize
      → ((s.upgrade.status.post_upgrade_backup_requested_at ≡ none)
          × IsAt
              (complete_phase api has_suffix hash major_finalize all_succeed s s.upgrade s.instance
                now).0
              major_finalize
          × IsRequested
              (complete_phase api has_suffix hash major_finalize all_succeed s s.upgrade s.instance
                now).0)
        ⊎ (IsAt
              (complete_phase api has_suffix hash major_finalize all_succeed s s.upgrade s.instance
                now).0
              major_finalize
            × IsIssued
                (complete_phase api has_suffix hash major_finalize all_succeed s s.upgrade
                  s.instance now).0)
  unfolding complete_phase ensure_post_upgrade_backup await_backup
  waiting_pass s now waits unfailed not_retried at =
      elim (Option-cases s.upgrade.status.post_upgrade_backup_requested_at) [
        | inl never ↦
            let (there, asked) =
              request_backup-IsAt s (operation_of api hash s.upgrade now) now at in
            inl (
              never,
              rw (waits, unfailed, not_retried, never) there,
              rw (waits, unfailed, not_retried, never) asked,
            )
        | inr (requested_at, recorded) ↦
            let (there, issued) =
              issue_backup_directive-IsIssued s (operation_of api hash s.upgrade now) requested_at
                now at in
            inr (
              rw (waits, unfailed, not_retried, recorded) there,
              rw (waits, unfailed, not_retried, recorded) issued,
            )
      ]

  -- A pass at the last phase, after the sites have settled.
  last_pass :
      (s t : Stored) (now : ℕ)
      → IsAt t major_finalize
      → IsSettled major_finalize s t
      → IsComplete (pass t now)
        ⊎ (((IsIssued s → ⊥)
              × (s.upgrade.status.post_upgrade_backup_requested_at ≡ none)
              × IsAt (pass t now) major_finalize
              × IsRequested (pass t now))
            ⊎ ((IsIssued s → ⊥) × IsAt (pass t now) major_finalize × IsIssued (pass t now)))
  last_pass s t now at st =
      let same = settled_pass t major_finalize now at st.applied st.unfailed in
      let answer = st.at_last refl in
      elim (Bool-cases (true_condition (backup_condition t))) [
        | inl done ↦ inl (rw same (backed_up-IsComplete t now done))
        | inr waits ↦
            let unissued : IsIssued s → ⊥ =
              λ issued. let done = answer.answered issued in ground (arith, done, waits) in
            elim (waiting_pass t now waits answer.unfailed answer.not_retried at) [
              | inl (never, there, asked) ↦ inr (
                  inl (
                    unissued,
                    subst (λ (o : Option ℕ). o ≡ none) answer.same_request never,
                    rw same there,
                    rw same asked,
                  ))
              | inr (there, issued) ↦ inr (inr (unissued, rw same there, rw same issued))
            ]
      ]

  -- From the last phase: three passes, where the first asks for the backup and the second makes
  -- its directive, or fewer.
  issued-IsComplete :
      (settle : Stored → Stored) (s : Stored) (clock : ℕ → ℕ)
      → Settles settle
      → IsAt s major_finalize
      → IsIssued s
      → IsComplete (passes settle 1 clock s)
  unfolding passes
  issued-IsComplete settle s clock ok at issued =
      let (at', st) = ok s major_finalize at in
      elim (last_pass s (settle s) (clock 0) at' st) [
        | inl done ↦ done
        | inr (inl (unissued, _, _, _)) ↦ absurd (unissued issued)
        | inr (inr (unissued, _, _)) ↦ absurd (unissued issued)
      ]

  -- Within so many passes, and at least one, the upgrade is complete.
  abbrev pub CompletesWithin : (Stored → Stored) → ℕ → (ℕ → ℕ) → Stored → Type 0
  CompletesWithin settle limit clock s =
      (n : ℕ) × (1 ≤ n) × (n ≤ limit) × IsComplete (passes settle n clock s)

  requested-IsComplete :
      (settle : Stored → Stored) (s : Stored) (clock : ℕ → ℕ)
      → Settles settle
      → IsAt s major_finalize
      → IsRequested s
      → CompletesWithin settle 2 clock s
  unfolding passes
  requested-IsComplete settle s clock ok at asked =
      let (at', st) = ok s major_finalize at in
      elim (last_pass s (settle s) (clock 0) at' st) [
        | inl done ↦ (1, omega arith, omega arith, done)
        | inr (inl (_, never, _, _)) ↦ absurd (let known = asked.recorded in cc)
        | inr (inr (_, there, issued)) ↦ (
          2,
          omega arith,
          omega arith,
          issued-IsComplete settle (pass (settle s) (clock 0)) (later clock) ok there issued,
        )
      ]

  pub finalize-IsComplete :
      (settle : Stored → Stored) (s : Stored) (clock : ℕ → ℕ)
      → Settles settle
      → IsAt s major_finalize
      → CompletesWithin settle 3 clock s
  unfolding passes
  finalize-IsComplete settle s clock ok at =
      let (at', st) = ok s major_finalize at in
      elim (last_pass s (settle s) (clock 0) at' st) [
        | inl done ↦ (1, omega arith, omega arith, done)
        | inr (inl (_, _, there, asked)) ↦
            let (n, low, high, done) =
              requested-IsComplete settle (pass (settle s) (clock 0)) (later clock) ok there
                asked in
            (suc n, omega (arith, low), omega (arith, high), done)
        | inr (inr (_, there, issued)) ↦ (
          2,
          omega arith,
          omega arith,
          issued-IsComplete settle (pass (settle s) (clock 0)) (later clock) ok there issued,
        )
      ]
