-- ===== src/Upgrade/Deletion.antt =====
-- The deletion of an upgrade and the end of one that is over (`reconcileUpgradeDeletion` and
-- `reconcileTerminalUpgrade`). The upgrade stays stored until its finalizer is removed.
pub mod Safety
use mspsql.Base.{
  ℕ, ◌*◌, String, Bool, true, false, ◌&&◌, ◌||◌, not, Option, none, some, ◌==◌, if◌then◌else◌,
}
use mspsql.Api.Meta.{ConditionApi}
use mspsql.Api.Instance.{
  MultiSitePostgres, MajorUpgradePhase, preflight, drain, stop, snapshot, upgrade_primary,
  stanza_upgrade, start_primary, restore_writes, replicas, major_finalize, rollback, rollback_start,
  rollback_restore_writes, PhaseMark, unset, minor, major, unknown,
}
use mspsql.Api.Upgrade.{PostgresUpgrade}
use mspsql.Upgrade.{
  Stored, Calls, Call, get_instance, patch_instance, update_upgrade, Return, finished, failed,
  clear_upgrade_annotations, set_upgrade_phase, upgrade_blocked,
}
use mspsql.Upgrade.Retry.{second}
use mspsql.Upgrade.Major.{HasSuffix, advance_major_phase}

abbrev pub restore_progress_requeue : ℕ
restore_progress_requeue = 10 * second

-- What is stored, and whether the upgrade has its finalizer.
pub record Guarded : Type 0 where
  pub stored : Stored
  pub finalizer : Bool

-- What the `Get` of the instance finds, and whether the update of the upgrade fails.
pub data InstanceRead : Type 0 where
  instance_read instance_missing instance_unread : InstanceRead

pub record DeletionCalls : Type 0 where
  pub calls : Calls
  pub read : InstanceRead
  pub update_fails : Bool
  -- the annotation `force-abandon`
  pub force_abandon : Bool

unfoldable pub remove_finalizer : DeletionCalls → Stored → Guarded × Return
remove_finalizer d s =
    if d.update_fails
    then (record { stored = s; finalizer = true }, failed update_upgrade)
    else (record { stored = s; finalizer = false }, finished 0)

-- The instance without the upgrade's annotations, and then the finalizer.
unfoldable pub release_upgrade : DeletionCalls → Stored → Guarded × Return
unfolding remove_finalizer clear_upgrade_annotations
release_upgrade d s =
    if d.calls.patch_fails
    then (record { stored = s; finalizer = true }, failed patch_instance)
    else remove_finalizer d (record s { instance = clear_upgrade_annotations s.instance })

abbrev pub holds_instance : Stored → Bool
holds_instance s = s.instance.annotations.upgrade_uid == s.upgrade.meta.uid

abbrev pub is_over : String → Bool
is_over phase = phase == "Completed" || phase == "Failed"

-- A pass that keeps the finalizer and comes back after the given delay, if no call failed.
abbrev pub held : ℕ → Stored × Return → Guarded × Return
held delay (s, failed call) = (record { stored = s; finalizer = true }, failed call)
held delay (s, finished _) = (record { stored = s; finalizer = true }, finished delay)

module _ (api : ConditionApi) (has_suffix : HasSuffix) (hash : String → ℕ → ℕ) where
  -- The forced way: what `upgradeBlocked` returns is dropped.
  unfoldable pub abandon_upgrade : DeletionCalls → Stored → Guarded × Return
  unfolding upgrade_blocked remove_finalizer clear_upgrade_annotations
  abandon_upgrade d s =
      if holds_instance s && d.calls.patch_fails
      then (record { stored = s; finalizer = true }, failed patch_instance)
      else let cleared : Stored =
          if holds_instance s
          then record s { instance = clear_upgrade_annotations s.instance }
          else s in
        remove_finalizer d
          (upgrade_blocked api d.calls cleared cleared.upgrade "ForceAbandoned"
            "Upgrade deletion was force-abandoned; residual resources require operator review").0

  unfoldable pub roll_back_for_deletion : DeletionCalls → Stored → ℕ → Guarded × Return
  unfolding advance_major_phase
  roll_back_for_deletion d s now = held restore_progress_requeue (
      advance_major_phase api has_suffix hash d.calls s s.upgrade s.instance rollback "RollingBack"
        "DeletionRequested" "Rolling back before accepting operation deletion" now false)

  unfoldable pub await_rollback : DeletionCalls → Stored → ℕ → Guarded × Return
  unfolding set_upgrade_phase
  await_rollback d s now = held restore_progress_requeue (
      set_upgrade_phase api d.calls s s.upgrade s.upgrade.status.phase "CancellationInProgress"
        "Waiting for rollback to complete before deletion" now)

  unfoldable pub block_deletion : DeletionCalls → Stored → ℕ → Guarded × Return
  unfolding set_upgrade_phase
  block_deletion d s now = held 0 (
      set_upgrade_phase api d.calls s s.upgrade s.upgrade.status.phase "ForwardRepairRequired"
        "Upgrade deletion is blocked after writes may have resumed; repair forward or force-abandon with explicit approval"
        now)

  -- The `switch` on the phase that the instance is at.
  unfoldable pub delete_at : MajorUpgradePhase → DeletionCalls → Stored → ℕ → Guarded × Return
  unfolding release_upgrade roll_back_for_deletion await_rollback block_deletion
  delete_at preflight d s now = release_upgrade d s
  delete_at drain d s now = roll_back_for_deletion d s now
  delete_at stop d s now = roll_back_for_deletion d s now
  delete_at snapshot d s now = roll_back_for_deletion d s now
  delete_at upgrade_primary d s now = roll_back_for_deletion d s now
  delete_at stanza_upgrade d s now = roll_back_for_deletion d s now
  delete_at start_primary d s now = roll_back_for_deletion d s now
  delete_at rollback d s now = await_rollback d s now
  delete_at rollback_start d s now = await_rollback d s now
  delete_at rollback_restore_writes d s now = await_rollback d s now
  delete_at restore_writes d s now = block_deletion d s now
  delete_at replicas d s now = block_deletion d s now
  delete_at major_finalize d s now = block_deletion d s now

  unfoldable pub delete_marked : PhaseMark → DeletionCalls → Stored → ℕ → Guarded × Return
  unfolding delete_at block_deletion
  delete_marked (major phase) d s now = delete_at phase d s now
  delete_marked _ d s now = block_deletion d s now

  abbrev pub may_go : Stored → Bool
  may_go s =
      not (holds_instance s) || (s.upgrade.status.phase == "" || is_over s.upgrade.status.phase)

  unfoldable pub delete_found : DeletionCalls → Stored → ℕ → Guarded × Return
  unfolding abandon_upgrade remove_finalizer delete_marked
  delete_found d s now =
      if d.force_abandon
      then abandon_upgrade d s
      else if may_go s
      then remove_finalizer d s
      else delete_marked s.instance.annotations.upgrade_phase d s now

  unfoldable pub reconcile_upgrade_deletion : DeletionCalls → Guarded → ℕ → Guarded × Return
  unfolding delete_found remove_finalizer
  reconcile_upgrade_deletion d g now = if not g.finalizer then (g, finished 0) else elim d.read [
    | instance_unread ↦ (g, failed get_instance)
    | instance_missing ↦ remove_finalizer d g.stored
    | instance_read ↦ delete_found d g.stored now
  ]

  -- `reconcileTerminalUpgrade`: whether it took the pass, and a failed patch.
  unfoldable pub reconcile_terminal_upgrade : Calls → Stored → Stored × (Bool × Option Call)
  unfolding clear_upgrade_annotations
  reconcile_terminal_upgrade calls s =
      if not (is_over s.upgrade.status.phase)
      then (s, (false, none))
      else if holds_instance s
      then (if calls.patch_fails
          then (s, (true, some patch_instance))
          else (record s { instance = clear_upgrade_annotations s.instance }, (true, none)))
      else (s, (true, none))
