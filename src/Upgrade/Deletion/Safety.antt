-- ===== src/Upgrade/Deletion/Safety.antt =====
-- When a deleted upgrade lets its instance go.
use mspsql.Base.{
  ℕ, String, true, false, ◌≡◌, refl, ap, sym, subst, ◌⊎◌, inl, inr, List, [], ◌∷◌, Bool-cases,
  arith,
}
use mspsql.Api.Meta.{ConditionApi}
use mspsql.Api.Instance.{MajorUpgradePhase, preflight, PhaseMark, unset, minor, major, unknown}
use mspsql.Upgrade.{Stored, Return, finished, failed, clear_upgrade_annotations}
use mspsql.Upgrade.Major.{HasSuffix}
use mspsql.Upgrade.Deletion.{
  Guarded, InstanceRead, instance_read, instance_missing, instance_unread, DeletionCalls,
  remove_finalizer, release_upgrade, holds_instance, held, roll_back_for_deletion, await_rollback,
  block_deletion, delete_at, delete_marked, may_go, delete_found, reconcile_upgrade_deletion,
}

module _ (api : ConditionApi) (has_suffix : HasSuffix) (hash : String → ℕ → ℕ) where
  held-finalizer : (delay : ℕ) (r : Stored × Return) → (held delay r).0.finalizer ≡ true
  held-finalizer delay (s, failed call) = refl
  held-finalizer delay (s, finished d) = refl

  -- At a phase, only the one before anything was done lets the instance go.
  delete_at-finalizer :
      (phase : MajorUpgradePhase) (d : DeletionCalls) (s : Stored) (now : ℕ)
      → ((delete_at api has_suffix hash phase d s now).0.finalizer ≡ true)
        ⊎ ((phase ≡ preflight)
            × ((delete_at api has_suffix hash phase d s now).0.stored.instance
                ≡ clear_upgrade_annotations s.instance))
  unfolding delete_at release_upgrade remove_finalizer roll_back_for_deletion await_rollback
      block_deletion
  delete_at-finalizer preflight d s now = elim (Bool-cases d.calls.patch_fails) [
    | inl fails ↦ inl (rw fails refl)
    | inr writes ↦ elim (Bool-cases d.update_fails) [
      | inl fails ↦ inl (rw (writes, fails) refl)
      | inr removed ↦ inr (refl, rw (writes, removed) refl)
    ]
  ]
  delete_at-finalizer _ d s now = inl (held-finalizer _ _)

  -- What a pass over a deleted upgrade needs to let it go.
  abbrev pub LetsGo : DeletionCalls → Stored → Guarded → Type 0
  LetsGo d s after =
      (d.read ≡ instance_missing)
      ⊎ ((d.force_abandon ≡ true)
          ⊎ ((may_go api has_suffix hash s ≡ true)
              ⊎ ((s.instance.annotations.upgrade_phase ≡ major preflight)
                  × (after.stored.instance ≡ clear_upgrade_annotations s.instance))))

  delete_marked-LetsGo :
      (mark : PhaseMark) (d : DeletionCalls) (s : Stored) (now : ℕ)
      → ((delete_marked api has_suffix hash mark d s now).0.finalizer ≡ true)
        ⊎ ((mark ≡ major preflight)
            × ((delete_marked api has_suffix hash mark d s now).0.stored.instance
                ≡ clear_upgrade_annotations s.instance))
  unfolding delete_marked block_deletion
  delete_marked-LetsGo (major phase) d s now = elim (delete_at-finalizer phase d s now) [
    | inl kept ↦ inl kept
    | inr (first, cleared) ↦ inr (ap major first, cleared)
  ]
  delete_marked-LetsGo unset d s now = inl (held-finalizer _ _)
  delete_marked-LetsGo (minor phase) d s now = inl (held-finalizer _ _)
  delete_marked-LetsGo (unknown text) d s now = inl (held-finalizer _ _)

  delete_found-marked :
      (d : DeletionCalls) (s : Stored) (now : ℕ)
      → d.force_abandon ≡ false
      → may_go api has_suffix hash s ≡ false
      → delete_found api has_suffix hash d s now
        ≡ delete_marked api has_suffix hash s.instance.annotations.upgrade_phase d s now
  unfolding delete_found
  delete_found-marked d s now unforced claimed = ground (arith, unforced, claimed)

  found-deleted :
      (d : DeletionCalls) (s : Stored) (now : ℕ)
      → d.read ≡ instance_read
      → reconcile_upgrade_deletion api has_suffix hash d
          (record { stored = s; finalizer = true })
          now
        ≡ delete_found api has_suffix hash d s now
  unfolding reconcile_upgrade_deletion
  found-deleted d s now read = ground (arith, read)

  delete_found-LetsGo :
      (d : DeletionCalls) (s : Stored) (now : ℕ)
      → ((delete_found api has_suffix hash d s now).0.finalizer ≡ true)
        ⊎ LetsGo d s (delete_found api has_suffix hash d s now).0
  delete_found-LetsGo d s now = elim (Bool-cases d.force_abandon) [
    | inl forced ↦ inr (inr (inl forced))
    | inr unforced ↦ elim (Bool-cases (may_go api has_suffix hash s)) [
      | inl free ↦ inr (inr (inr (inl free)))
      | inr claimed ↦
          subst (λ (r : Guarded × Return). (r.0.finalizer ≡ true) ⊎ LetsGo d s r.0)
            (sym (delete_found-marked d s now unforced claimed))
            (elim (delete_marked-LetsGo s.instance.annotations.upgrade_phase d s now) [
              | inl kept ↦ inl kept
              | inr (first, cleared) ↦ inr (inr (inr (inr (first, cleared))))
            ])
    ]
  ]

  -- A pass over a deleted upgrade that removes its finalizer has found the instance gone, was forced, or
  -- the upgrade holds no instance or is over or was never begun, or the upgrade was still at its
  -- preflight and its annotations are cleared.
  pub reconcile_upgrade_deletion-LetsGo :
      (d : DeletionCalls) (s : Stored) (now : ℕ)
      → (reconcile_upgrade_deletion api has_suffix hash d
          (record { stored = s; finalizer = true })
          now).0.finalizer
        ≡ false
      → LetsGo d s
          (reconcile_upgrade_deletion api has_suffix hash d
            (record { stored = s; finalizer = true })
            now).0
  unfolding reconcile_upgrade_deletion
  reconcile_upgrade_deletion-LetsGo d s now gone = by_read d.read refl gone
    where
      by_read :
          (r : InstanceRead)
          → d.read ≡ r
          → (reconcile_upgrade_deletion api has_suffix hash d
              (record { stored = s; finalizer = true })
              now).0.finalizer
            ≡ false
          → LetsGo d s
              (reconcile_upgrade_deletion api has_suffix hash d
                (record { stored = s; finalizer = true })
                now).0
      by_read instance_missing h k = inl h
      by_read instance_unread h k = absurd (ground (arith, rw (h, reconcile_upgrade_deletion) at k))
      by_read instance_read h k =
          subst (λ (r : Guarded × Return). LetsGo d s r.0) (sym (found-deleted d s now h))
            (elim (delete_found-LetsGo d s now) [
              | inl kept ↦ absurd (
                  ground (
                    arith,
                    ap (λ (r : Guarded × Return). r.0.finalizer) (found-deleted d s now h),
                    k,
                    kept,
                  ))
              | inr goes ↦ goes
            ])

  -- A deleted upgrade whose instance is in a rollback.
  pub record IsInRollback (phase : MajorUpgradePhase) (status : String) (g : Guarded) : Type 0 where
    pub kept : g.finalizer ≡ true
    pub is_owned : holds_instance g.stored ≡ true
    pub marked : g.stored.instance.annotations.upgrade_phase ≡ major phase
    pub shown : g.stored.upgrade.status.phase ≡ status

  -- A pass that reads the instance, unforced.
  pub record IsPlain (d : DeletionCalls) : Type 0 where
    pub read : d.read ≡ instance_read
    pub unforced : d.force_abandon ≡ false

  -- The passes over a deleted upgrade, each with its time.
  unfoldable pub deletion_passes : List (DeletionCalls × ℕ) → Guarded → Guarded
  unfolding reconcile_upgrade_deletion
  deletion_passes [] g = g
  deletion_passes ((d, now) ∷ passes) g =
      deletion_passes passes (reconcile_upgrade_deletion api has_suffix hash d g now).0
