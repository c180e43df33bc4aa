-- ===== src/Upgrade/Major/Completion.antt =====
-- Runs of `reconcileMajorUpgrade` with sites that settle between its passes.
use mspsql.Base.{ℕ, zero, suc, String, Bool, true, false, ◌≡◌, refl, ◌≢◌, arith, ◌+◌}
use mspsql.Api.Meta.{ConditionApi}
use mspsql.Api.Instance.{
  MajorUpgradePhase, preflight, drain, stop, snapshot, upgrade_primary, stanza_upgrade,
  start_primary, restore_writes, replicas, major_finalize,
}
use mspsql.Upgrade.{Stored}
use mspsql.Upgrade.Major.{
  HasSuffix, replicas_ready, complete_phase, advance_major_phase, restore_spec,
}
use mspsql.Upgrade.Major.Progress.{rank}
use mspsql.Upgrade.Major.Closing.{
  all_succeed, IsAt, Settles, pass, passes, settled_pass, later, CompletesWithin,
  finalize-IsComplete,
}

-- The phases of an upgrade that has not been rolled back.
pub data IsForward : MajorUpgradePhase → Type 0 where
  is_preflight : IsForward preflight
  is_drain : IsForward drain
  is_stop : IsForward stop
  is_snapshot : IsForward snapshot
  is_upgrade_primary : IsForward upgrade_primary
  is_stanza_upgrade : IsForward stanza_upgrade
  is_start_primary : IsForward start_primary
  is_replicas : IsForward replicas
  is_restore_writes : IsForward restore_writes
  is_finalize : IsForward major_finalize

module _ (api : ConditionApi) (has_suffix : HasSuffix) (hash : String → ℕ → ℕ) where
  advance_major_phase-IsAt :
      (s : Stored) (p q : MajorUpgradePhase) (a b c : String) (now : ℕ) (outage : Bool)
      → IsAt s p
      → IsAt
          (advance_major_phase api has_suffix hash all_succeed s s.upgrade s.instance q a b c now
            outage).0
          q
  unfolding advance_major_phase
  advance_major_phase-IsAt s p q a b c now outage at = record {
    named = at.named;
    owned = at.owned;
    marked = refl;
    awaited = (_, refl);
  }

  restore_spec-IsAt :
      (s : Stored) (now : ℕ)
      → IsAt s restore_writes
      → IsAt
          (restore_spec api has_suffix hash all_succeed s s.upgrade s.instance now).0
          major_finalize
  unfolding restore_spec
  restore_spec-IsAt s now at = record {
    named = at.named;
    owned = at.owned;
    marked = refl;
    awaited = (_, refl);
  }

  -- A forward phase but the last gives way to one with a rank lower by one.
  complete_phase-IsAt :
      (s : Stored) (p : MajorUpgradePhase) (now : ℕ)
      → IsAt s p
      → (p ≡ replicas → replicas_ready api s.instance ≡ true)
      → IsForward p
      → p ≢ major_finalize
      → (q : MajorUpgradePhase) × IsAt
          (complete_phase api has_suffix hash p all_succeed s s.upgrade s.instance now).0
          q
        × IsForward q
        × (rank p ≡ suc (rank q))
  unfolding complete_phase
  complete_phase-IsAt s _ now at st is_preflight d =
      (drain, advance_major_phase-IsAt s preflight drain _ _ _ now true at, is_drain, refl)
  complete_phase-IsAt s _ now at st is_drain d =
      (stop, advance_major_phase-IsAt s drain stop _ _ _ now false at, is_stop, refl)
  complete_phase-IsAt s _ now at st is_stop d =
      (snapshot, advance_major_phase-IsAt s stop snapshot _ _ _ now false at, is_snapshot, refl)
  complete_phase-IsAt s _ now at st is_snapshot d = (
    upgrade_primary,
    advance_major_phase-IsAt s snapshot upgrade_primary _ _ _ now false at,
    is_upgrade_primary,
    refl,
  )
  complete_phase-IsAt s _ now at st is_upgrade_primary d = (
    stanza_upgrade,
    advance_major_phase-IsAt s upgrade_primary stanza_upgrade _ _ _ now false at,
    is_stanza_upgrade,
    refl,
  )
  complete_phase-IsAt s _ now at st is_stanza_upgrade d = (
    start_primary,
    advance_major_phase-IsAt s stanza_upgrade start_primary _ _ _ now false at,
    is_start_primary,
    refl,
  )
  complete_phase-IsAt s _ now at st is_start_primary d = (
    replicas,
    advance_major_phase-IsAt s start_primary replicas _ _ _ now false at,
    is_replicas,
    refl,
  )
  complete_phase-IsAt s _ now at st is_replicas d = (
    restore_writes,
    rw (st refl) (advance_major_phase-IsAt s replicas restore_writes _ _ _ now false at),
    is_restore_writes,
    refl,
  )
  complete_phase-IsAt s _ now at st is_restore_writes d =
      (major_finalize, restore_spec-IsAt s now at, is_finalize, refl)
  complete_phase-IsAt s _ now at st is_finalize d = absurd (d refl)

  rank-finalize : (p : MajorUpgradePhase) → IsForward p → zero ≡ rank p → p ≡ major_finalize
  rank-finalize _ is_finalize e = refl
  rank-finalize _ is_preflight e = absurd (omega arith)
  rank-finalize _ is_drain e = absurd (omega arith)
  rank-finalize _ is_stop e = absurd (omega arith)
  rank-finalize _ is_snapshot e = absurd (omega arith)
  rank-finalize _ is_upgrade_primary e = absurd (omega arith)
  rank-finalize _ is_stanza_upgrade e = absurd (omega arith)
  rank-finalize _ is_start_primary e = absurd (omega arith)
  rank-finalize _ is_replicas e = absurd (omega arith)
  rank-finalize _ is_restore_writes e = absurd (omega arith)

  -- At any forward phase, an upgrade completes and lets the instance go within as many passes as there
  -- are phases ahead and three more, which ask for the last backup, make its directive and end the
  -- upgrade, at whatever times. The calls succeed, and between two passes the sites apply the phase
  -- without failing, the replicas get in sync at their phase, nobody else writes the upgrade's
  -- annotations, and at the last phase no backup fails, one whose directive is stored is reported
  -- done, and the request, the attempt and the directives stay as they were.
  pub passes-IsComplete :
      (settle : Stored → Stored) (n : ℕ) (s : Stored) (p : MajorUpgradePhase) (clock : ℕ → ℕ)
      → Settles api has_suffix hash settle
      → IsAt s p
      → IsForward p
      → n ≡ rank p
      → CompletesWithin api has_suffix hash settle (n + 3) clock s
  unfolding passes
  passes-IsComplete settle zero s p clock ok at f e =
      finalize-IsComplete api has_suffix hash settle s clock ok (rw (rank-finalize p f e) at at)
  passes-IsComplete settle (suc n) s p clock ok at f e =
      let now = clock 0 in
      let (at', st) = ok s p at in
      let not_last : p ≢ major_finalize = λ z. absurd (ground arith) in
      let (q, atq, fq, eq) = complete_phase-IsAt (settle s) p now at' st.in_sync f not_last in
      let atq' : IsAt (pass api has_suffix hash (settle s) now) q =
        rw (settled_pass api has_suffix hash (settle s) p now at' st.applied st.unfailed) atq in
      let (m, low, high, done) =
        passes-IsComplete settle n (pass api has_suffix hash (settle s) now) q
          (later api has_suffix hash clock) ok atq' fq (omega arith) in
      (suc m, omega (arith, low), omega (arith, high), done)
