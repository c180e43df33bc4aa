-- ===== src/Upgrade/Major/Gates.antt =====
-- The write service between `reconcileMajorUpgrade` and the agent's rendering, and the spec's version.
use mspsql.Base.{ℕ, ◌≢◌, ap, ◌∙◌, String, true, false, ◌≡◌, refl, ◌⊎◌, inl, inr, arith}
use mspsql.Api.Meta.{ConditionApi}
use mspsql.Api.Instance.{
  MultiSitePostgres, MajorUpgradePhase, restore_writes, replicas, rollback_start,
  rollback_restore_writes, major,
}
use mspsql.Plan.{SitePlan}
use mspsql.Agent.Phases.{stops_writes, major_member_stopped, major_write_service_stopped}
use mspsql.Upgrade.{Stored, Calls, major_phase_applied, clear_upgrade_annotations}
use mspsql.Upgrade.Major.{
  HasSuffix, major_upgrade_failed, is_rolling_back, replicas_ready, reconcile_major_upgrade,
  at_phase,
}
use mspsql.Api.Upgrade.{PostgresUpgrade}
use mspsql.Upgrade.Major.Diagram.{
  Edge, draining, stopping, capturing, converting, restanzaing, starting, reseeding, reopening,
  finalizing, restarting, reverting, IsLast, upgraded, rolled_back, Gate, done, fail, Move, stay,
  claim, step, clear,
}
use mspsql.Upgrade.Major.Moves.{reconcile_major_upgrade-Move}

-- Wherever the agent keeps a member down, it keeps the write service down too.
pub member_stopped-write_stopped :
    (desired : SitePlan) (member : String)
    → major_member_stopped desired member ≡ true
    → major_write_service_stopped desired ≡ true
unfolding major_member_stopped major_write_service_stopped
member_stopped-write_stopped desired member h = ground arith

module _ (api : ConditionApi) (has_suffix : HasSuffix) where
  -- How the write service may come back: with the replicas in sync, or on the source version.
  pub data Reopens (i : MultiSitePostgres) (p q : MajorUpgradePhase) : Type 0 where
    forward :
        p ≡ replicas
        → q ≡ restore_writes
        → replicas_ready api i ≡ true
        → major_upgrade_failed has_suffix i ≡ false
        → Reopens i p q
    backward : p ≡ rollback_start → q ≡ rollback_restore_writes → Reopens i p q

  Gate-Reopens :
      (i : MultiSitePostgres) (p q : MajorUpgradePhase)
      → Gate api has_suffix i p q
      → stops_writes p ≡ true
      → (stops_writes q ≡ true) ⊎ (Reopens i p q × (major_phase_applied i ≡ true))
  Gate-Reopens i p q (fail to back failed) h = inl (rw to)
  Gate-Reopens i p q (done e applied ok ready) h = by_edge p q e h ok ready
    where
      by_edge :
          (p q : MajorUpgradePhase)
          → Edge p q
          → stops_writes p ≡ true
          → (major_upgrade_failed has_suffix i ≡ false) ⊎ (is_rolling_back p ≡ true)
          → (p ≡ replicas → replicas_ready api i ≡ true)
          → (stops_writes q ≡ true) ⊎ (Reopens i p q × (major_phase_applied i ≡ true))
      by_edge _ _ draining h ok ready = inl refl
      by_edge _ _ stopping h ok ready = inl refl
      by_edge _ _ capturing h ok ready = inl refl
      by_edge _ _ converting h ok ready = inl refl
      by_edge _ _ restanzaing h ok ready = inl refl
      by_edge _ _ starting h ok ready = inl refl
      by_edge _ _ reseeding h ok ready = inl refl
      by_edge _ _ reopening h ok ready =
          inr (forward refl refl (ready refl) (ground arith), applied)
      by_edge _ _ finalizing h ok ready = cc
      by_edge _ _ restarting h ok ready = inl refl
      by_edge _ _ reverting h ok ready = inr (backward refl refl, applied)

  IsLast-writes : (p : MajorUpgradePhase) → IsLast p → stops_writes p ≡ true → ⊥
  IsLast-writes _ upgraded h = cc
  IsLast-writes _ rolled_back h = cc

module _ (api : ConditionApi) (has_suffix : HasSuffix) (hash : String → ℕ → ℕ) where
  -- While the phase of an owned instance keeps the write service down, a pass leaves it at such a phase, or
  -- brings the service back: to the target version once every site has applied the phase of the replicas
  -- without a failure and the standbys required are in sync, or to the source version once every site
  -- has verified the rollback.
  pub writes_stay_stopped :
      (calls : Calls) (s : Stored) (u : PostgresUpgrade) (now : ℕ) (p : MajorUpgradePhase)
      → s.instance.annotations.upgrade_uid ≢ ""
      → s.instance.annotations.upgrade_phase ≡ major p
      → stops_writes p ≡ true
      → (q : MajorUpgradePhase) × ((reconcile_major_upgrade api has_suffix hash calls s u
            now).0.instance.annotations.upgrade_phase
          ≡ major q)
        × ((stops_writes q ≡ true)
            ⊎ (Reopens api has_suffix s.instance p q × (major_phase_applied s.instance ≡ true)))
  writes_stay_stopped calls s u now p named at h =
      kept _ (reconcile_major_upgrade-Move api has_suffix hash calls s u now)
    where
      kept :
          (j : MultiSitePostgres)
          → Move api has_suffix u s.instance j
          → (q : MajorUpgradePhase) × (j.annotations.upgrade_phase ≡ major q)
            × ((stops_writes q ≡ true)
                ⊎ (Reopens api has_suffix s.instance p q × (major_phase_applied s.instance ≡ true)))
      kept j (stay e) = (p, rw e at, inl h)
      kept j (claim free _ _ _ _ _ _) = absurd (named free)
      kept j (step a b _ am gate e _) =
          let same : p ≡ a = ground arith in
          (
            b,
            ap (λ (x : MultiSitePostgres). x.annotations.upgrade_phase) e ∙ unfold at_phase in refl,
            Gate-Reopens api has_suffix s.instance p b (rw same gate) h,
          )
      kept j (clear a _ am last _ e) =
          let same : p ≡ a = ground arith in
          absurd (IsLast-writes api has_suffix p (rw same last) h)

  -- A pass changes the spec of the instance in one case only: every site has brought write service
  -- back and none reports a failure; then the spec takes the image and the version of the upgrade that owns the
  -- instance.
  pub spec_changes_last :
      (calls : Calls) (s : Stored) (u : PostgresUpgrade) (now : ℕ)
      → ((reconcile_major_upgrade api has_suffix hash calls s u now).0.instance.spec
          ≡ s.instance.spec)
        ⊎ ((s.instance.annotations.upgrade_phase ≡ major restore_writes)
            × (s.instance.annotations.upgrade_uid ≡ u.meta.uid)
            × (major_phase_applied s.instance ≡ true)
            × (major_upgrade_failed has_suffix s.instance ≡ false)
            × ((reconcile_major_upgrade api has_suffix hash calls s u
                  now).0.instance.spec.postgres.image
                ≡ u.spec.target_image)
            × ((reconcile_major_upgrade api has_suffix hash calls s u
                  now).0.instance.spec.postgres.major_version
                ≡ u.spec.target_major_version))
  spec_changes_last calls s u now =
      by_move _ (reconcile_major_upgrade-Move api has_suffix hash calls s u now)
    where
      at_restore_writes :
          (q : MajorUpgradePhase)
          → Gate api has_suffix s.instance restore_writes q
          → (major_phase_applied s.instance ≡ true)
            × (major_upgrade_failed has_suffix s.instance ≡ false)
      at_restore_writes q (done _ applied (inl fine) _) = (applied, fine)
      at_restore_writes q (done _ applied (inr back) _) = cc
      at_restore_writes q (fail _ back _) = cc

      by_move :
          (j : MultiSitePostgres)
          → Move api has_suffix u s.instance j
          → (j.spec ≡ s.instance.spec)
            ⊎ ((s.instance.annotations.upgrade_phase ≡ major restore_writes)
                × (s.instance.annotations.upgrade_uid ≡ u.meta.uid)
                × (major_phase_applied s.instance ≡ true)
                × (major_upgrade_failed has_suffix s.instance ≡ false)
                × (j.spec.postgres.image ≡ u.spec.target_image)
                × (j.spec.postgres.major_version ≡ u.spec.target_major_version))
      by_move j (stay e) = inl (ap (λ (x : MultiSitePostgres). x.spec) e)
      by_move j (claim _ _ _ _ _ _ e) = inl e
      by_move j (step p q own am gate e (inl same)) = inl same
      by_move j (step p q own am gate e (inr (back, image, version))) =
          let (applied, fine) = at_restore_writes q (rw back at gate) in
          inr (am ∙ ap (λ x. major x) back, own, applied, fine, image, version)
      by_move j (clear p _ _ _ _ e) =
          inl (ap (λ (x : MultiSitePostgres). x.spec) e ∙ unfold clear_upgrade_annotations in refl)
