-- ===== src/Upgrade/Major/Moves.antt =====
-- The passes of `reconcileMajorUpgrade`, branch by branch, against the diagram.
use mspsql.Base.{
  ◌||◌, texts, ◌∷◌, [], ℕ, String, Bool, true, false, ◌≡◌, refl, ◌⊎◌, inl, inr, not, ◌==◌,
  if◌then◌else◌, Bool-cases, arith, eq_iff, some,
}
use mspsql.Api.Meta.{ConditionApi}
use mspsql.Api.Instance.{
  MultiSitePostgres, MajorUpgradePhase, preflight, drain, stop, snapshot, upgrade_primary,
  stanza_upgrade, start_primary, restore_writes, replicas, major_finalize, rollback, rollback_start,
  rollback_restore_writes, PhaseMark, unset, minor, major, unknown, member, switchover, finalize,
}
use mspsql.Api.Upgrade.{PostgresUpgrade}
use mspsql.Upgrade.{
  Stored, Calls, next_revision, set_upgrade_phase, upgrade_blocked, major_phase_applied,
  clear_upgrade_annotations, is_condition_true,
}
use mspsql.Upgrade.Backup.{ensure_post_upgrade_backup_cases}
use mspsql.Upgrade.Major.{
  HasSuffix, phase_text, major_upgrade_failed, rolls_back, is_rolling_back, at_phase,
  replicas_ready, advance_major_phase, begin_major_upgrade, restore_spec, end_upgrade, end_rollback,
  complete_phase, continue_major_upgrade, unknown_phase, major_pass, reconcile_major_upgrade,
}
use mspsql.Upgrade.Major.Diagram.{
  draining, stopping, capturing, converting, restanzaing, starting, reseeding, reopening,
  finalizing, restarting, reverting, IsLast, upgraded, rolled_back, Gate, done, fail, Move, stay,
  claim, step, clear,
}

-- The operations that write the upgrade's status leave the instance alone.
pub set_upgrade_phase-instance :
    (api : ConditionApi) (calls : Calls) (s : Stored) (u : PostgresUpgrade) (a b c : String)
    (now : ℕ)
    → (set_upgrade_phase api calls s u a b c now).0.instance ≡ s.instance
unfolding set_upgrade_phase
set_upgrade_phase-instance api calls s u a b c now = ground arith

pub upgrade_blocked-instance :
    (api : ConditionApi) (calls : Calls) (s : Stored) (u : PostgresUpgrade) (a b : String)
    → (upgrade_blocked api calls s u a b).0.instance ≡ s.instance
unfolding upgrade_blocked
upgrade_blocked-instance api calls s u a b = ground arith

module _ (api : ConditionApi) (has_suffix : HasSuffix) (hash : String → ℕ → ℕ) where
  advance_major_phase-instance :
      (calls : Calls) (s : Stored) (u : PostgresUpgrade) (i : MultiSitePostgres)
      (next : MajorUpgradePhase) (a b c : String) (now : ℕ) (outage : Bool)
      → (advance_major_phase api has_suffix hash calls s u i next a b c now outage).0.instance
        ≡ (if calls.patch_fails then s.instance else at_phase i next)
  unfolding advance_major_phase
  advance_major_phase-instance calls s u i next a b c now outage = ground arith

  restore_spec-instance :
      (calls : Calls) (s : Stored) (u : PostgresUpgrade) (i : MultiSitePostgres) (now : ℕ)
      → (restore_spec api has_suffix hash calls s u i now).0.instance ≡ (
          if calls.patch_fails
          then s.instance
          else at_phase
              (record i {
                spec = record (i.spec) {
                  postgres = record (i.spec.postgres) {
                    major_version = u.spec.target_major_version;
                    image = u.spec.target_image;
                  };
                };
              })
              major_finalize)
  unfolding restore_spec
  restore_spec-instance calls s u i now = ground arith

  end_upgrade-instance :
      (calls : Calls) (s : Stored) (u : PostgresUpgrade) (i : MultiSitePostgres)
      → ((end_upgrade api has_suffix hash calls s u i).0.instance ≡ s.instance)
        ⊎ ((end_upgrade api has_suffix hash calls s u i).0.instance ≡ clear_upgrade_annotations i)
  unfolding end_upgrade
  end_upgrade-instance calls s u i = ground arith

  end_rollback-instance :
      (calls : Calls) (s : Stored) (u : PostgresUpgrade) (i : MultiSitePostgres) (now : ℕ)
      → ((end_rollback api has_suffix hash calls s u i now).0.instance ≡ s.instance)
        ⊎ ((end_rollback api has_suffix hash calls s u i now).0.instance
            ≡ clear_upgrade_annotations i)
  unfolding end_rollback
  end_rollback-instance calls s u i now = ground arith

  unknown_phase-instance :
      (calls : Calls) (s : Stored) (u : PostgresUpgrade) (now : ℕ) (text : String)
      → (unknown_phase api has_suffix hash text calls s u s.instance now).0.instance ≡ s.instance
  unfolding unknown_phase set_upgrade_phase
  unknown_phase-instance calls s u now text = ground arith

  module _ (calls : Calls) (s : Stored) (u : PostgresUpgrade) (now : ℕ) where
    abbrev topology_unknown : Bool
    topology_unknown =
        s.instance.status.primary == ""
        || not (is_condition_true api s.instance.status.conditions "TopologyReady")

    begin_major_upgrade_blocked :
        topology_unknown ≡ true
        → (begin_major_upgrade api has_suffix hash calls s u s.instance now).0.instance ≡ s.instance
    unfolding begin_major_upgrade
    begin_major_upgrade_blocked h = ground arith

    begin_major_upgrade_failed :
        topology_unknown ≡ false
        → calls.patch_fails ≡ true
        → (begin_major_upgrade api has_suffix hash calls s u s.instance now).0.instance ≡ s.instance
    unfolding begin_major_upgrade
    begin_major_upgrade_failed h e = ground arith

    begin_major_upgrade-instance :
        topology_unknown ≡ false
        → calls.patch_fails ≡ false
        → (begin_major_upgrade api has_suffix hash calls s u s.instance now).0.instance
          ≡ record (s.instance) {
            annotations = record (s.instance.annotations) {
              upgrade_uid = u.meta.uid;
              upgrade_name = u.meta.name;
              upgrade_phase = major preflight;
              upgrade_from = s.instance.status.primary;
              upgrade_source_major = some s.instance.spec.postgres.major_version;
              upgrade_revision = some (next_revision s.instance.status.active_revision);
            };
          }
    unfolding begin_major_upgrade
    begin_major_upgrade-instance h e = ground arith

  -- The instance as stored, and the upgrade that owns it.
  module _ (calls : Calls) (s : Stored) (u : PostgresUpgrade) (now : ℕ)
      (owned : s.instance.annotations.upgrade_uid ≡ u.meta.uid) where
    advance-Move :
        (p q : MajorUpgradePhase) (a b c : String) (outage : Bool)
        → s.instance.annotations.upgrade_phase ≡ major p
        → Gate api has_suffix s.instance p q
        → Move api has_suffix u s.instance
            (advance_major_phase api has_suffix hash calls s u s.instance q a b c now
              outage).0.instance
    advance-Move p q a b c outage marked gate =
        rw (advance_major_phase-instance calls s u s.instance q a b c now outage)
          (choose (Bool-cases calls.patch_fails))
      where
        choose :
            (calls.patch_fails ≡ true) ⊎ (calls.patch_fails ≡ false)
            → Move api has_suffix u s.instance
                (if calls.patch_fails then s.instance else at_phase s.instance q)
        choose (inl e) = rw e (stay refl)
        choose (inr e) =
            rw e
              (step p q owned marked gate (unfold at_phase in refl) (inl (unfold at_phase in refl)))

    restore_spec-Move :
        s.instance.annotations.upgrade_phase ≡ major restore_writes
        → Gate api has_suffix s.instance restore_writes major_finalize
        → Move api has_suffix u s.instance
            (restore_spec api has_suffix hash calls s u s.instance now).0.instance
    restore_spec-Move marked gate = elim (Bool-cases calls.patch_fails) [
      | inl e ↦ stay (rw (restore_spec-instance calls s u s.instance now, e))
      | inr e ↦
          rw (restore_spec-instance calls s u s.instance now, e)
            (step restore_writes major_finalize owned marked gate (unfold at_phase in refl)
              (inr (refl, unfold at_phase in refl, unfold at_phase in refl)))
    ]

    clear-Move :
        (p : MajorUpgradePhase) (j : MultiSitePostgres)
        → s.instance.annotations.upgrade_phase ≡ major p
        → IsLast p
        → major_phase_applied s.instance ≡ true
        → (j ≡ s.instance) ⊎ (j ≡ clear_upgrade_annotations s.instance)
        → Move api has_suffix u s.instance j
    clear-Move p j marked last applied (inl e) = stay e
    clear-Move p j marked last applied (inr e) = clear p owned marked last applied e

    -- The phases of the diagram whose pass is one `advance_major_phase`.
    module _ (applied : major_phase_applied s.instance ≡ true) where
      complete_phase-Move :
          (p : MajorUpgradePhase)
          → s.instance.annotations.upgrade_phase ≡ major p
          → (major_upgrade_failed has_suffix s.instance ≡ false) ⊎ (is_rolling_back p ≡ true)
          → Move api has_suffix u s.instance
              (complete_phase api has_suffix hash p calls s u s.instance now).0.instance
      unfolding complete_phase
      complete_phase-Move preflight m f =
          advance-Move preflight drain _ _ _ _ m (done draining applied f (λ e. cc))
      complete_phase-Move drain m f =
          advance-Move drain stop _ _ _ _ m (done stopping applied f (λ e. cc))
      complete_phase-Move stop m f =
          advance-Move stop snapshot _ _ _ _ m (done capturing applied f (λ e. cc))
      complete_phase-Move snapshot m f =
          advance-Move snapshot upgrade_primary _ _ _ _ m (done converting applied f (λ e. cc))
      complete_phase-Move upgrade_primary m f =
          advance-Move upgrade_primary stanza_upgrade _ _ _ _ m
            (done restanzaing applied f (λ e. cc))
      complete_phase-Move stanza_upgrade m f =
          advance-Move stanza_upgrade start_primary _ _ _ _ m (done starting applied f (λ e. cc))
      complete_phase-Move start_primary m f =
          advance-Move start_primary replicas _ _ _ _ m (done reseeding applied f (λ e. cc))
      complete_phase-Move replicas m f = elim (Bool-cases (replicas_ready api s.instance)) [
        | inl ready ↦
            rw ready (
              advance-Move replicas restore_writes _ _ _ _ m
                (done reopening applied f (λ _. ready)))
        | inr pending ↦ rw pending (stay (set_upgrade_phase-instance api calls s u _ _ _ now))
      ]
      complete_phase-Move restore_writes m f =
          restore_spec-Move m (done finalizing applied f (λ e. cc))
      complete_phase-Move major_finalize m f =
          elim (ensure_post_upgrade_backup_cases api hash calls s u now
            (λ v. end_upgrade api has_suffix hash calls s v s.instance)) [
              | inl (_, e) ↦ rw e (
                  clear-Move major_finalize _ m upgraded applied
                    (end_upgrade-instance calls s _ s.instance))
              | inr e ↦ stay e
            ]
      complete_phase-Move rollback m f =
          advance-Move rollback rollback_start _ _ _ _ m (done restarting applied f (λ e. cc))
      complete_phase-Move rollback_start m f =
          advance-Move rollback_start rollback_restore_writes _ _ _ _ m
            (done reverting applied f (λ e. cc))
      complete_phase-Move rollback_restore_writes m f =
          clear-Move rollback_restore_writes _ m rolled_back applied
            (end_rollback-instance calls s u s.instance now)

    continue_major_upgrade-Move :
        (p : MajorUpgradePhase)
        → s.instance.annotations.upgrade_phase ≡ major p
        → Move api has_suffix u s.instance
            (continue_major_upgrade api has_suffix hash p calls s u s.instance now).0.instance
    unfolding continue_major_upgrade
    continue_major_upgrade-Move p m =
        elim (Bool-cases (major_upgrade_failed has_suffix s.instance)) [
          | inl failure ↦ elim (Bool-cases (rolls_back p)) [
            | inl back ↦
                rw (failure, back) (advance-Move p rollback _ _ _ _ m (fail refl back failure))
            | inr ahead ↦ elim (Bool-cases (is_rolling_back p)) [
              | inl rolling ↦ rw (failure, ahead, rolling) (applied_or_wait p m (inr rolling))
              | inr forward ↦
                  rw (failure, ahead, forward)
                    (stay (set_upgrade_phase-instance api calls s u _ _ _ now))
            ]
          ]
          | inr success ↦ rw success (applied_or_wait p m (inl success))
        ]
      where
        applied_or_wait :
            (p : MajorUpgradePhase)
            → s.instance.annotations.upgrade_phase ≡ major p
            → (major_upgrade_failed has_suffix s.instance ≡ false) ⊎ (is_rolling_back p ≡ true)
            → Move api has_suffix u s.instance
                (if not (major_phase_applied s.instance)
                  then set_upgrade_phase api calls s u
                      (phase_text p)
                      "PhaseProgressing"
                      (texts ("Waiting for all sites to complete " ∷ phase_text p ∷ []))
                      now
                  else complete_phase api has_suffix hash p calls s u s.instance now).0.instance
        applied_or_wait p m f = elim (Bool-cases (major_phase_applied s.instance)) [
          | inl applied ↦ rw applied (complete_phase-Move applied p m f)
          | inr pending ↦ rw pending (stay (set_upgrade_phase-instance api calls s u _ _ _ now))
        ]

    unknown_phase-Move :
        (text : String)
        → Move api has_suffix u s.instance
            (unknown_phase api has_suffix hash text calls s u s.instance now).0.instance
    unknown_phase-Move text = stay (kept text)
      where
        kept :
            (text : String)
            → (unknown_phase api has_suffix hash text calls s u s.instance now).0.instance
              ≡ s.instance
        kept text = unknown_phase-instance calls s u now text

    major_pass-Move :
        (m : PhaseMark)
        → s.instance.annotations.upgrade_phase ≡ m
        → Move api has_suffix u s.instance
            (major_pass api has_suffix hash m calls s u s.instance now).0.instance
    unfolding major_pass
    major_pass-Move (major p) e = continue_major_upgrade-Move p e
    major_pass-Move unset e = unknown_phase-Move _
    major_pass-Move (minor member) e = unknown_phase-Move _
    major_pass-Move (minor switchover) e = unknown_phase-Move _
    major_pass-Move (minor finalize) e = unknown_phase-Move _
    major_pass-Move (unknown text) e = unknown_phase-Move _

  begin_major_upgrade-Move :
      (calls : Calls) (s : Stored) (u : PostgresUpgrade) (now : ℕ)
      → s.instance.annotations.upgrade_uid ≡ ""
      → Move api has_suffix u s.instance
          (begin_major_upgrade api has_suffix hash calls s u s.instance now).0.instance
  begin_major_upgrade-Move calls s u now free =
      elim (Bool-cases (
        s.instance.status.primary == ""
        || not (is_condition_true api s.instance.status.conditions "TopologyReady"))) [
          | inl blocked ↦ stay (begin_major_upgrade_blocked calls s u now blocked)
          | inr clear_way ↦ elim (Bool-cases calls.patch_fails) [
            | inl failing ↦ stay (begin_major_upgrade_failed calls s u now clear_way failing)
            | inr fine ↦
                rw (begin_major_upgrade-instance calls s u now clear_way fine)
                  (claim free (ground arith) (ground arith) refl refl refl refl)
          ]
        ]

  -- A pass over a major upgrade leaves the instance alone, takes it, moves it along one edge of the
  -- diagram whose gate holds, or lets it go at the end.
  pub reconcile_major_upgrade-Move :
      (calls : Calls) (s : Stored) (u : PostgresUpgrade) (now : ℕ)
      → Move api has_suffix u s.instance
          (reconcile_major_upgrade api has_suffix hash calls s u now).0.instance
  unfolding reconcile_major_upgrade
  reconcile_major_upgrade-Move calls s u now =
      elim (Bool-cases (s.instance.annotations.upgrade_uid == "")) [
        | inl free ↦ rw free (begin_major_upgrade-Move calls s u now ((eq_iff _ _).0 free))
        | inr taken ↦ elim (Bool-cases (s.instance.annotations.upgrade_uid == u.meta.uid)) [
          | inl own ↦
              rw (taken, own)
                (major_pass-Move calls s u now ((eq_iff _ _).0 own)
                  s.instance.annotations.upgrade_phase refl)
          | inr other ↦ rw (taken, other) (stay (upgrade_blocked-instance api calls s u _ _))
        ]
      ]
