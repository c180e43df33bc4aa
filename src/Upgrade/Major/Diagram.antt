-- ===== src/Upgrade/Major/Diagram.antt =====
-- The diagram of a major upgrade: its edges, the gate of each, and what one pass may do.
use mspsql.Base.{true, false, ◌≡◌, ◌⊎◌, ◌==◌}
use mspsql.Api.Meta.{ConditionApi}
use mspsql.Api.Instance.{
  MultiSitePostgres, MajorUpgradePhase, preflight, drain, stop, snapshot, upgrade_primary,
  stanza_upgrade, start_primary, restore_writes, replicas, major_finalize, rollback, rollback_start,
  rollback_restore_writes, major,
}
use mspsql.Api.Upgrade.{PostgresUpgrade}
use mspsql.Upgrade.{major_phase_applied, clear_upgrade_annotations, is_condition_true}
use mspsql.Upgrade.Major.{
  HasSuffix, major_upgrade_failed, rolls_back, is_rolling_back, at_phase, replicas_ready,
}

-- The edges of the diagram that a pass takes once every site has applied the phase.
pub data Edge : MajorUpgradePhase → MajorUpgradePhase → Type 0 where
  draining : Edge preflight drain
  stopping : Edge drain stop
  capturing : Edge stop snapshot
  converting : Edge snapshot upgrade_primary
  restanzaing : Edge upgrade_primary stanza_upgrade
  starting : Edge stanza_upgrade start_primary
  reseeding : Edge start_primary replicas
  reopening : Edge replicas restore_writes
  finalizing : Edge restore_writes major_finalize
  restarting : Edge rollback rollback_start
  reverting : Edge rollback_start rollback_restore_writes

-- The two phases that an upgrade ends in.
pub data IsLast : MajorUpgradePhase → Type 0 where
  upgraded : IsLast major_finalize
  rolled_back : IsLast rollback_restore_writes

module _ (api : ConditionApi) (has_suffix : HasSuffix) where
  -- What must hold for the instance to go from phase `p` to phase `q`.
  pub data Gate (i : MultiSitePostgres) (p q : MajorUpgradePhase) : Type 0 where
    -- Every site has applied the phase, none has failed unless a rollback is under way, and write
    -- service waits for the replicas.
    done :
        Edge p q
        → major_phase_applied i ≡ true
        → (major_upgrade_failed has_suffix i ≡ false) ⊎ (is_rolling_back p ≡ true)
        → (p ≡ replicas → replicas_ready api i ≡ true)
        → Gate i p q
    -- A site failed while the data directories can still be restored.
    fail :
        q ≡ rollback → rolls_back p ≡ true → major_upgrade_failed has_suffix i ≡ true → Gate i p q

  -- What one pass may do to the stored instance `i`, for an upgrade `u`.
  pub data Move (u : PostgresUpgrade) (i j : MultiSitePostgres) : Type 0 where
    stay : j ≡ i → Move u i j
    -- An unowned instance with a known primary is taken.
    claim :
        i.annotations.upgrade_uid ≡ ""
        → is_condition_true api i.status.conditions "TopologyReady" ≡ true
        → (i.status.primary == "") ≡ false
        → j.annotations.upgrade_phase ≡ major preflight
        → j.annotations.upgrade_uid ≡ u.meta.uid
        → j.annotations.upgrade_from ≡ i.status.primary
        → j.spec ≡ i.spec
        → Move u i j
    step :
        (p q : MajorUpgradePhase)
        → i.annotations.upgrade_uid ≡ u.meta.uid
        → i.annotations.upgrade_phase ≡ major p
        → Gate i p q
        → j ≡ at_phase (record i { spec = j.spec }) q
        → (j.spec ≡ i.spec)
          ⊎ ((p ≡ restore_writes)
              × (j.spec.postgres.image ≡ u.spec.target_image)
              × (j.spec.postgres.major_version ≡ u.spec.target_major_version))
        → Move u i j
    clear :
        (p : MajorUpgradePhase)
        → i.annotations.upgrade_uid ≡ u.meta.uid
        → i.annotations.upgrade_phase ≡ major p
        → IsLast p
        → major_phase_applied i ≡ true
        → j ≡ clear_upgrade_annotations i
        → Move u i j
