-- ===== src/Upgrade/Major/Progress.antt =====
-- Histories of an instance under `reconcileMajorUpgrade`, and the phases ahead of it.
use mspsql.Base.{
  ℕ, suc, ◌+◌, ◌≤◌, ◌<◌, String, true, ◌≡◌, refl, ◌⊎◌, inl, inr, ◌≢◌, arith, sym, ◌∙◌, ap,
}
use mspsql.Api.Meta.{ConditionApi}
use mspsql.Api.Instance.{
  MultiSitePostgres, MajorUpgradePhase, preflight, drain, stop, snapshot, upgrade_primary,
  stanza_upgrade, start_primary, restore_writes, replicas, major_finalize, rollback, rollback_start,
  rollback_restore_writes, PhaseMark, unset, minor, major, unknown,
}
use mspsql.Upgrade.{Stored, Calls, clear_upgrade_annotations}
use mspsql.Upgrade.Major.{HasSuffix, rolls_back, reconcile_major_upgrade, at_phase}
use mspsql.Api.Upgrade.{PostgresUpgrade}
use mspsql.Upgrade.Major.Diagram.{
  Edge, draining, stopping, capturing, converting, restanzaing, starting, reseeding, reopening,
  finalizing, restarting, reverting, Gate, done, fail, Move, stay, claim, step, clear,
}
use mspsql.Upgrade.Major.Moves.{reconcile_major_upgrade-Move}

-- How many phases are still ahead, at most.
abbrev pub rank : MajorUpgradePhase → ℕ
rank preflight = 9
rank drain = 8
rank stop = 7
rank snapshot = 6
rank upgrade_primary = 5
rank stanza_upgrade = 4
rank start_primary = 3
rank replicas = 2
rank restore_writes = 1
rank major_finalize = 0
rank rollback = 2
rank rollback_start = 1
rank rollback_restore_writes = 0

abbrev pub mark_rank : PhaseMark → ℕ
mark_rank (major p) = rank p
mark_rank unset = 0
mark_rank (minor _) = 0
mark_rank (unknown _) = 0

Edge-rank : {p q : MajorUpgradePhase} → Edge p q → rank q < rank p
Edge-rank draining = omega arith
Edge-rank stopping = omega arith
Edge-rank capturing = omega arith
Edge-rank converting = omega arith
Edge-rank restanzaing = omega arith
Edge-rank starting = omega arith
Edge-rank reseeding = omega arith
Edge-rank reopening = omega arith
Edge-rank finalizing = omega arith
Edge-rank restarting = omega arith
Edge-rank reverting = omega arith

rolls_back-rank : (p : MajorUpgradePhase) → rolls_back p ≡ true → 2 < rank p
rolls_back-rank p h = ground arith

module _ (api : ConditionApi) (has_suffix : HasSuffix) (hash : String → ℕ → ℕ) where
  Gate-rank :
      (i : MultiSitePostgres) (p q : MajorUpgradePhase)
      → Gate api has_suffix i p q
      → rank q < rank p
  Gate-rank i p q (done e _ _ _) = Edge-rank e
  Gate-rank i p q (fail to back _) = rw to (rolls_back-rank p back)

  -- A history of the instance from its being taken on: passes of this controller, of any upgrade
  -- and with any calls failing, between changes by others that leave the annotations alone. It counts the
  -- passes that moved the instance from one major phase to another.
  pub data History (i : MultiSitePostgres) : ℕ → MultiSitePostgres → Type 0 where
    start : History i 0 i
    others :
        {n : ℕ} {j k : MultiSitePostgres}
        → History i n j
        → k.annotations ≡ j.annotations
        → History i n k
    quiet :
        {n : ℕ} (calls : Calls) (s : Stored) (u : PostgresUpgrade) (now : ℕ)
        → History i n s.instance
        → (reconcile_major_upgrade api has_suffix hash calls s u
            now).0.instance.annotations.upgrade_phase
          ≡ s.instance.annotations.upgrade_phase
        → History i n (reconcile_major_upgrade api has_suffix hash calls s u now).0.instance
    moved :
        {n : ℕ} (calls : Calls) (s : Stored) (u : PostgresUpgrade) (now : ℕ)
        (p q : MajorUpgradePhase)
        → History i n s.instance
        → s.instance.annotations.upgrade_phase ≡ major p
        → (reconcile_major_upgrade api has_suffix hash calls s u
            now).0.instance.annotations.upgrade_phase
          ≡ major q
        → p ≢ q
        → History i (suc n) (reconcile_major_upgrade api has_suffix hash calls s u now).0.instance

  -- A pass that keeps the phase, or goes to another one, keeps the owner.
  Move-uid :
      (u : PostgresUpgrade) (i j : MultiSitePostgres) (p q : MajorUpgradePhase)
      → Move api has_suffix u i j
      → i.annotations.upgrade_uid ≢ ""
      → (j.annotations.upgrade_phase ≡ i.annotations.upgrade_phase)
        ⊎ (j.annotations.upgrade_phase ≡ major q)
      → j.annotations.upgrade_uid ≢ ""
  Move-uid u i j p q (stay e) h k =
      λ z. h (ap (λ (x : MultiSitePostgres). x.annotations.upgrade_uid) (sym e) ∙ z)
  Move-uid u i j p q (claim free _ _ _ _ _ _) h k = absurd (h free)
  Move-uid u i j p q (step a b _ _ _ e _) h k = λ z. h (
      sym (ap (λ (x : MultiSitePostgres). x.annotations.upgrade_uid) e ∙ unfold at_phase in refl)
      ∙ z)
  Move-uid u i j p q (clear a _ m _ _ e) h k = absurd (ground (arith, unset_mark))
    where
      unset_mark : j.annotations.upgrade_phase ≡ unset
      unset_mark =
          ap (λ (x : MultiSitePostgres). x.annotations.upgrade_phase) e
          ∙ unfold clear_upgrade_annotations in refl

  Move-rank :
      (u : PostgresUpgrade) (i j : MultiSitePostgres) (p q : MajorUpgradePhase)
      → Move api has_suffix u i j
      → i.annotations.upgrade_uid ≢ ""
      → i.annotations.upgrade_phase ≡ major p
      → j.annotations.upgrade_phase ≡ major q
      → p ≢ q
      → rank q < rank p
  Move-rank u i j p q (stay e) h m n d =
      absurd (d (ground (arith, ap (λ (x : MultiSitePostgres). x.annotations.upgrade_phase) e)))
  Move-rank u i j p q (claim free _ _ _ _ _ _) h m n d = absurd (h free)
  Move-rank u i j p q (step a b _ am gate e _) h m n d =
      ground (arith, Gate-rank i a b gate, marked)
    where
      marked : j.annotations.upgrade_phase ≡ major b
      marked =
          ap (λ (x : MultiSitePostgres). x.annotations.upgrade_phase) e ∙ unfold at_phase in refl
  Move-rank u i j p q (clear a _ am _ _ e) h m n d = absurd (ground (arith, unset_mark))
    where
      unset_mark : j.annotations.upgrade_phase ≡ unset
      unset_mark =
          ap (λ (x : MultiSitePostgres). x.annotations.upgrade_phase) e
          ∙ unfold clear_upgrade_annotations in refl

  History-rank :
      (i : MultiSitePostgres) {n : ℕ} {j : MultiSitePostgres}
      → i.annotations.upgrade_uid ≢ ""
      → History i n j
      → (j.annotations.upgrade_uid ≢ "")
        × (n + mark_rank j.annotations.upgrade_phase ≤ mark_rank i.annotations.upgrade_phase)
  History-rank i h start = (h, omega arith)
  History-rank i h (others r e) = let (uid, le) = History-rank i h r in rw e (uid, le)
  History-rank i h (quiet calls s u now r same) =
      let (uid, le) = History-rank i h r in
      (
        Move-uid u s.instance _ preflight preflight
            (reconcile_major_upgrade-Move api has_suffix hash calls s u now) uid (inl same),
        rw same le,
      )
  History-rank i h (moved {n} calls s u now p q r m e d) =
      let (uid, le) = History-rank i h r in
      let mv = reconcile_major_upgrade-Move api has_suffix hash calls s u now in
      (
        Move-uid u s.instance _ p q mv uid (inr e),
        counted n p q (Move-rank u s.instance _ p q mv uid m e d) (rw m at le) e,
      )
    where
      counted :
          (n : ℕ) (p q : MajorUpgradePhase) {m : PhaseMark}
          → rank q < rank p
          → n + rank p ≤ mark_rank i.annotations.upgrade_phase
          → m ≡ major q
          → suc n + mark_rank m ≤ mark_rank i.annotations.upgrade_phase
      counted n p q lt le e = rw e (omega arith)

  -- However the sites behave, whichever calls fail and whatever others do besides writing the upgrade's
  -- annotations, an instance that a major upgrade has taken on goes through at most nine changes
  -- of phase, and each leaves fewer to go.
  pub major_upgrade_bounded :
      (i : MultiSitePostgres) (p q : MajorUpgradePhase) (n : ℕ) (j : MultiSitePostgres)
      → i.annotations.upgrade_uid ≢ ""
      → i.annotations.upgrade_phase ≡ major p
      → History i n j
      → j.annotations.upgrade_phase ≡ major q
      → (n + rank q ≤ rank p) × (n ≤ 9)
  major_upgrade_bounded i p q n j h m r e =
      let (_, le) = History-rank i h r in
      let bound : n + rank q ≤ rank p = rw m at (rw e at le) in (bound, ground (arith, bound))
