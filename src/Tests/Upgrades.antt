-- ===== src/Tests/Upgrades.antt =====
-- Upgrades at concrete inputs.
use mspsql.Base.{
  eq_iff, ℕ, ◌+◌, ◌≤◌, Bool, true, false, ◌≡◌, refl, ◌≢◌, ◌⊎◌, inl, inr, some, none, List, [],
  is_some, lookup, Bool-cases, arith,
}
use mspsql.Api.Meta.{Condition}
use mspsql.Api.Instance.{
  minor, major, MajorUpgradePhase, major_finalize, preflight, replicas, restore_writes, member,
}
use mspsql.Upgrade.{Stored, all_sites_applied, is_condition_true, major_phase_applied}
use mspsql.Upgrade.Backup.{await_backup, backup_directive_name}
use mspsql.Upgrade.Backup.Limits.{IsWithin, await_backup-IsWithin}
use mspsql.Upgrade.Retry.{
  post_upgrade_backup_retry_base, post_upgrade_backup_retry_max, post_upgrade_backup_retry_delay,
  post_upgrade_backup_retry_delay_bounds,
}
use mspsql.Upgrade.Major.{
  reconcile_major_upgrade, major_upgrade_failed, replicas_ready, advance_major_phase,
}
use mspsql.Upgrade.Major.Diagram.{Move}
use mspsql.Upgrade.Major.Moves.{reconcile_major_upgrade-Move}
use mspsql.Upgrade.Major.Gates.{Reopens, writes_stay_stopped, spec_changes_last}
use mspsql.Upgrade.Major.Progress.{History, start, moved, major_upgrade_bounded}
use mspsql.Upgrade.Major.Closing.{all_succeed, IsAt, Settles, IsAnswered, CompletesWithin}
use mspsql.Upgrade.Major.Completion.{passes-IsComplete, is_preflight}
use mspsql.Upgrade.Minor.{reconcile_minor_upgrade}
use mspsql.Upgrade.Minor.Rollout.{Roll}
use mspsql.Upgrade.Minor.Rollout.Steps.{reconcile_minor_upgrade-Roll}
use mspsql.Agent.Phases.{stops_writes}
use mspsql.Tests.Samples.{
  conditions, fails_by_name, hash, instance_at, upgrade, stored_at, instance_status,
}

reconcile_major_upgrade-Move_example :
    Move conditions fails_by_name upgrade
      (instance_at "upgrade" (major replicas))
      (reconcile_major_upgrade conditions fails_by_name hash all_succeed
        (stored_at (major replicas))
        upgrade
        9).0.instance
reconcile_major_upgrade-Move_example =
    reconcile_major_upgrade-Move conditions fails_by_name hash all_succeed
      (stored_at (major replicas)) upgrade 9

-- Of the phase that waits for the replicas the pass makes the one that brings write service back.
reopening_test :
    (reconcile_major_upgrade conditions fails_by_name hash all_succeed
      (stored_at (major replicas))
      upgrade
      9).0.instance.annotations.upgrade_phase
    ≡ major restore_writes
unfolding reconcile_major_upgrade major_upgrade_failed major_phase_applied all_sites_applied
    replicas_ready is_condition_true advance_major_phase
reopening_test = refl

owner_named :
    (s : Stored)
    → s.instance.annotations.upgrade_uid ≡ "upgrade"
    → s.instance.annotations.upgrade_uid ≢ ""
owner_named s e = λ z. ground (
  arith,
  eq_iff s.instance.annotations.upgrade_uid "",
  eq_iff s.instance.annotations.upgrade_uid "upgrade",
  eq_iff "upgrade" "",
)

writes_stay_stopped_example :
    (q : MajorUpgradePhase) × ((reconcile_major_upgrade conditions fails_by_name hash all_succeed
        (stored_at (major replicas))
        upgrade
        9).0.instance.annotations.upgrade_phase
      ≡ major q)
    × ((stops_writes q ≡ true)
        ⊎ (Reopens conditions fails_by_name (instance_at "upgrade" (major replicas)) replicas q
            × (major_phase_applied (instance_at "upgrade" (major replicas)) ≡ true)))
writes_stay_stopped_example =
    writes_stay_stopped conditions fails_by_name hash all_succeed (stored_at (major replicas))
      upgrade 9 replicas (owner_named (stored_at (major replicas)) refl) refl refl

spec_changes_last_example :
    ((reconcile_major_upgrade conditions fails_by_name hash all_succeed
        (stored_at (major restore_writes))
        upgrade
        9).0.instance.spec
      ≡ (instance_at "upgrade" (major restore_writes)).spec)
    ⊎ ((major restore_writes ≡ major restore_writes)
        × ((instance_at "upgrade" (major restore_writes)).annotations.upgrade_uid
            ≡ upgrade.meta.uid)
        × (major_phase_applied (instance_at "upgrade" (major restore_writes)) ≡ true)
        × (major_upgrade_failed fails_by_name (instance_at "upgrade" (major restore_writes))
            ≡ false)
        × ((reconcile_major_upgrade conditions fails_by_name hash all_succeed
              (stored_at (major restore_writes))
              upgrade
              9).0.instance.spec.postgres.image
            ≡ "postgres:17")
        × ((reconcile_major_upgrade conditions fails_by_name hash all_succeed
              (stored_at (major restore_writes))
              upgrade
              9).0.instance.spec.postgres.major_version
            ≡ 17))
spec_changes_last_example =
    spec_changes_last conditions fails_by_name hash all_succeed (stored_at (major restore_writes))
      upgrade 9

one_move :
    History conditions fails_by_name hash
      (instance_at "upgrade" (major replicas))
      1
      (reconcile_major_upgrade conditions fails_by_name hash all_succeed
        (stored_at (major replicas))
        upgrade
        9).0.instance
one_move =
    moved all_succeed (stored_at (major replicas)) upgrade 9 replicas restore_writes start refl
      reopening_test (λ z. ground arith)

major_upgrade_bounded_example : (1 + 1 ≤ 2) × (1 ≤ 9)
major_upgrade_bounded_example =
    major_upgrade_bounded conditions fails_by_name hash (instance_at "upgrade" (major replicas))
      replicas restore_writes 1
      (reconcile_major_upgrade conditions fails_by_name hash all_succeed
        (stored_at (major replicas)) upgrade 9).0.instance
      (owner_named (stored_at (major replicas)) refl) refl one_move reopening_test

-- The backup is done once its directive is stored.
abbrev backup_answer : Bool → List Condition
backup_answer true = upgrade.status.conditions
backup_answer false = []

abbrev is_issued : Stored → Bool
is_issued s = is_some (
    lookup (backup_directive_name s.upgrade.meta.uid s.upgrade.status.post_upgrade_backup_attempt)
      s.directives)

-- Sites that apply whatever they are asked for, and make the backup.
abbrev settle : Stored → Stored
settle s = record s {
  instance = record (s.instance) {
    status =
        instance_status (elim s.instance.annotations.upgrade_revision [ none ↦ 0 | some r ↦ r ]);
  };
  upgrade = record (s.upgrade) {
    status = record (s.upgrade.status) { conditions = backup_answer (is_issued s) };
  };
}

applied_at :
    (s : Stored) (r : ℕ)
    → s.instance.annotations.upgrade_revision ≡ some r
    → major_phase_applied (settle s).instance ≡ true
unfolding major_phase_applied all_sites_applied
applied_at s r e = rw e (ground arith)

answers : (s : Stored) → IsAnswered conditions fails_by_name hash s (settle s)
answers s = elim (Bool-cases (is_issued s)) [
  | inl issued ↦ record {
    unfailed = rw issued refl;
    not_retried = rw issued refl;
    answered = λ h. rw issued refl;
    same_request = refl;
    same_name = refl;
    same_directives = refl;
  }
  | inr unissued ↦ record {
    unfailed = rw unissued refl;
    not_retried = rw unissued refl;
    answered = λ h. absurd (ground (arith, h, unissued));
    same_request = refl;
    same_name = refl;
    same_directives = refl;
  }
]

settles : Settles conditions fails_by_name hash settle
unfolding major_upgrade_failed replicas_ready is_condition_true
settles s p at = (
  record { named = at.named; owned = at.owned; marked = at.marked; awaited = at.awaited },
  record {
    applied = applied_at s at.awaited.0 at.awaited.1;
    unfailed = refl;
    in_sync = λ e. ground arith;
    at_last = λ e. answers s;
  },
)

IsAt-preflight : IsAt (stored_at (major preflight)) preflight
IsAt-preflight = record {
  named = owner_named (stored_at (major preflight)) refl;
  owned = refl;
  marked = refl;
  awaited = (7, refl);
}

passes-IsComplete_example :
    CompletesWithin conditions fails_by_name hash settle 12 (λ n. n) (stored_at (major preflight))
passes-IsComplete_example =
    passes-IsComplete conditions fails_by_name hash settle 9 (stored_at (major preflight)) preflight
      (λ n. n) settles IsAt-preflight is_preflight refl

reconcile_minor_upgrade-Roll_example :
    Roll conditions upgrade
      (instance_at "upgrade" (minor member))
      (reconcile_minor_upgrade conditions all_succeed
        (stored_at (minor member))
        upgrade
        9).0.instance
reconcile_minor_upgrade-Roll_example =
    reconcile_minor_upgrade-Roll conditions all_succeed (stored_at (minor member)) upgrade 9

post_upgrade_backup_retry_delay_bounds_example :
    (post_upgrade_backup_retry_base ≤ post_upgrade_backup_retry_delay hash "upgrade" 3)
    × (post_upgrade_backup_retry_delay hash "upgrade" 3 ≤ post_upgrade_backup_retry_max)
post_upgrade_backup_retry_delay_bounds_example =
    post_upgrade_backup_retry_delay_bounds hash "upgrade" 3

await_backup-IsWithin_example :
    IsWithin conditions hash
      (stored_at (major major_finalize))
      (await_backup conditions hash all_succeed (stored_at (major major_finalize)) upgrade none 9).0
await_backup-IsWithin_example =
    await_backup-IsWithin conditions hash all_succeed (stored_at (major major_finalize)) upgrade
      none 9 (omega arith) (omega arith)
