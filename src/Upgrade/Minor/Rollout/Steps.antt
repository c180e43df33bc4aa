-- ===== src/Upgrade/Minor/Rollout/Steps.antt =====
-- The passes of `reconcileMinorUpgrade`, branch by branch, against the steps of the rollout.
use mspsql.Base.{
  ℕ, String, true, false, List, [], ◌≡◌, refl, ◌≢◌, ◌⊎◌, inl, inr, not, ◌==◌, if◌then◌else◌, eq_iff,
  arith, Bool-cases,
}
use mspsql.Api.Meta.{ConditionApi}
use mspsql.Api.Instance.{
  MultiSitePostgres, PhaseMark, unset, minor, major, unknown, member, switchover, finalize,
}
use mspsql.Api.Upgrade.{PostgresUpgrade}
use mspsql.Upgrade.{
  Stored, Calls, clear_upgrade_annotations, instance_ready_for_operation, is_condition_true,
  complete_upgrade, upgrade_blocked, finish, set_upgrade_phase,
}
use mspsql.Upgrade.Minor.{
  split_members, claimed_minor, switching, finalizing_minor, rolling_next, switched_over,
  select_upgrade_candidate, begin_minor_upgrade, complete_member, member_pass, switchover_pass,
  finalize_pass, minor_pass, reconcile_minor_upgrade,
}
use mspsql.Upgrade.Minor.Rollout.{
  upgraded_now, IsReady, Roll, stay, claim, switch, roll, settle, promoted, release,
}
use mspsql.Upgrade.Minor.Rollout.Candidates.{
  append_unique-contains, select-IsNext, select-standby, select-IsCovered,
}

module _ (api : ConditionApi) (calls : Calls) (s : Stored) (u : PostgresUpgrade) (now : ℕ) where
  -- A name that is not the empty text.
  named : (name : String) → (name == "") ≡ false → name ≢ ""
  named name h = λ e. ground (arith, eq_iff name "")

  -- A pass either leaves the instance or writes it as one of its patches does.
  abbrev Writes : Stored → MultiSitePostgres → Type 0
  Writes t j = (t.instance ≡ s.instance) ⊎ (t.instance ≡ j)

  begin-Writes :
      (select_upgrade_candidate s.instance [] == "") ≡ false
      → Writes
          (begin_minor_upgrade api calls s u s.instance now).0
          (claimed_minor u s.instance (select_upgrade_candidate s.instance []))
  unfolding begin_minor_upgrade
  begin-Writes h = ground arith

  begin-stays :
      (select_upgrade_candidate s.instance [] == "") ≡ true
      → (begin_minor_upgrade api calls s u s.instance now).0.instance ≡ s.instance
  unfolding begin_minor_upgrade
  begin-stays h = ground arith

  begin-Roll :
      s.instance.annotations.upgrade_uid ≡ ""
      → Roll api u s.instance (begin_minor_upgrade api calls s u s.instance now).0.instance
  begin-Roll free = elim (Bool-cases (select_upgrade_candidate s.instance [] == "")) [
    | inl none_found ↦ stay (begin-stays none_found)
    | inr found ↦
        let name = named (select_upgrade_candidate s.instance []) found in
        elim (begin-Writes found) [
          | inl e ↦ stay e
          | inr e ↦
              claim _ free (select-IsNext s.instance [] name) (select-standby s.instance name) e
        ]
  ]

  complete_member_switch :
      (upgraded : List String)
      → s.instance.annotations.upgrade_switched ≡ false
      → Writes
          (complete_member api calls s u s.instance upgraded now).0
          (switching s.instance s.instance.annotations.upgrade_member upgraded)
  unfolding complete_member
  complete_member_switch upgraded h = ground arith

  complete_member_settle :
      (upgraded : List String)
      → s.instance.annotations.upgrade_switched ≡ true
      → (select_upgrade_candidate s.instance upgraded == "") ≡ true
      → Writes
          (complete_member api calls s u s.instance upgraded now).0
          (finalizing_minor u s.instance)
  unfolding complete_member
  complete_member_settle upgraded h e = ground arith

  complete_member_roll :
      (upgraded : List String)
      → s.instance.annotations.upgrade_switched ≡ true
      → (select_upgrade_candidate s.instance upgraded == "") ≡ false
      → Writes
          (complete_member api calls s u s.instance upgraded now).0
          (rolling_next s.instance (select_upgrade_candidate s.instance upgraded) upgraded)
  unfolding complete_member
  complete_member_roll upgraded h e = ground arith

  module _ (at : s.instance.annotations.upgrade_phase ≡ minor member) where
    complete_member-Roll :
        IsReady api u s.instance
        → Roll api u s.instance
            (complete_member api calls s u s.instance (upgraded_now s.instance) now).0.instance
    complete_member-Roll ready = elim (Bool-cases s.instance.annotations.upgrade_switched) [
      | inr fresh ↦ elim (complete_member_switch (upgraded_now s.instance) fresh) [
        | inl e ↦ stay e
        | inr e ↦ switch ready at fresh e
      ]
      | inl switched ↦
          elim (Bool-cases (select_upgrade_candidate s.instance (upgraded_now s.instance) == "")) [
            | inl last ↦ elim (complete_member_settle (upgraded_now s.instance) switched last) [
              | inl e ↦ stay e
              | inr e ↦
                  settle ready at switched
                    (select-IsCovered s.instance (upgraded_now s.instance)
                      s.instance.annotations.upgrade_member (append_unique-contains _ _)
                      ((eq_iff _ _).0 last))
                    e
            ]
            | inr found ↦ elim (complete_member_roll (upgraded_now s.instance) switched found) [
              | inl e ↦ stay e
              | inr e ↦
                  roll _ ready at switched
                    (select-IsNext s.instance (upgraded_now s.instance)
                      (named (select_upgrade_candidate s.instance (upgraded_now s.instance)) found))
                    e
            ]
          ]
    ]

    member_pass-cases :
        ((member_pass api calls s u s.instance now).0.instance ≡ s.instance)
        ⊎ ((instance_ready_for_operation api s.instance ≡ true)
            × ((member_pass api calls s u s.instance now).0.instance
                ≡ (complete_member api calls s u s.instance
                    (upgraded_now s.instance)
                    now).0.instance))
    unfolding member_pass set_upgrade_phase
    member_pass-cases = ground arith

    member_pass-Roll :
        s.instance.annotations.upgrade_uid ≡ u.meta.uid
        → Roll api u s.instance (member_pass api calls s u s.instance now).0.instance
    member_pass-Roll own = elim member_pass-cases [
      | inl e ↦ stay e
      | inr (ready, e) ↦ rw e (complete_member-Roll (record { owned = own; ready = ready }))
    ]

  abbrev next_after_switchover : String
  next_after_switchover =
      select_upgrade_candidate s.instance (split_members s.instance.annotations.upgraded_members)

  switchover_pass-cases :
      ((switchover_pass api calls s u s.instance now).0.instance ≡ s.instance)
      ⊎ (((s.instance.status.primary == s.instance.annotations.upgrade_candidate) ≡ true)
          × (is_condition_true api s.instance.status.conditions "TopologyReady" ≡ true)
          × ((next_after_switchover == "") ≡ false)
          × ((switchover_pass api calls s u s.instance now).0.instance
              ≡ switched_over s.instance next_after_switchover))
  unfolding switchover_pass
  switchover_pass-cases = ground arith

  switchover_pass-Roll :
      s.instance.annotations.upgrade_uid ≡ u.meta.uid
      → s.instance.annotations.upgrade_phase ≡ minor switchover
      → Roll api u s.instance (switchover_pass api calls s u s.instance now).0.instance
  switchover_pass-Roll own at = elim switchover_pass-cases [
    | inl e ↦ stay e
    | inr (same, topology, found, e) ↦
        promoted _ own at ((eq_iff _ _).0 same) topology
          (select-IsNext s.instance _ (named next_after_switchover found)) e
  ]

  finalize_pass-cases :
      ((finalize_pass api calls s u s.instance now).0.instance ≡ s.instance)
      ⊎ ((instance_ready_for_operation api s.instance ≡ true)
          × ((finalize_pass api calls s u s.instance now).0.instance
              ≡ clear_upgrade_annotations s.instance))
  unfolding finalize_pass
  finalize_pass-cases = ground arith

  finalize_pass-Roll :
      s.instance.annotations.upgrade_uid ≡ u.meta.uid
      → s.instance.annotations.upgrade_phase ≡ minor finalize
      → Roll api u s.instance (finalize_pass api calls s u s.instance now).0.instance
  finalize_pass-Roll own at = elim finalize_pass-cases [
    | inl e ↦ stay e
    | inr (ready, e) ↦ release (record { owned = own; ready = ready }) at e
  ]

  blocked-Roll :
      (a b : String) → Roll api u s.instance (upgrade_blocked api calls s u a b).0.instance
  unfolding upgrade_blocked
  blocked-Roll a b = stay (ground arith)

  minor_pass-Roll :
      (mark : PhaseMark)
      → s.instance.annotations.upgrade_uid ≡ u.meta.uid
      → s.instance.annotations.upgrade_phase ≡ mark
      → Roll api u s.instance (minor_pass api mark calls s u s.instance now).0.instance
  unfolding minor_pass
  minor_pass-Roll (minor member) own at = member_pass-Roll at own
  minor_pass-Roll (minor switchover) own at = switchover_pass-Roll own at
  minor_pass-Roll (minor finalize) own at = finalize_pass-Roll own at
  minor_pass-Roll unset own at = blocked-Roll _ _
  minor_pass-Roll (major phase) own at = blocked-Roll _ _
  minor_pass-Roll (unknown text) own at = blocked-Roll _ _

  complete-stays : (complete_upgrade api calls s u (finish 0)).0.instance ≡ s.instance
  unfolding complete_upgrade
  complete-stays = ground arith

  -- A pass over a minor upgrade leaves the instance alone, takes it with a synchronous standby as
  -- the first member, asks for a switchover once that member has rolled out, goes on to one member
  -- that is neither the primary nor upgraded, gives the spec the target image once only the
  -- primary may be left, or lets the instance go once every site is ready.
  pub reconcile_minor_upgrade-Roll :
      Roll api u s.instance (reconcile_minor_upgrade api calls s u now).0.instance
  unfolding reconcile_minor_upgrade
  reconcile_minor_upgrade-Roll =
      elim (Bool-cases (u.spec.target_image == s.instance.spec.postgres.image)) [
        | inl there ↦ elim (Bool-cases (s.instance.annotations.upgrade_uid == "")) [
          | inl free ↦ rw (there, free) (stay complete-stays)
          | inr taken ↦ rw (there, taken) owned_pass
        ]
        | inr away ↦ elim (Bool-cases (s.instance.annotations.upgrade_uid == "")) [
          | inl free ↦ rw (away, free) (begin-Roll ((eq_iff _ _).0 free))
          | inr taken ↦ rw (away, taken) owned_pass
        ]
      ]
    where
      owned_pass :
          Roll api u s.instance
            (if not (s.instance.annotations.upgrade_uid == u.meta.uid)
              then upgrade_blocked api calls s u "OperationConflict"
                  "instance is owned by another upgrade operation"
              else minor_pass api s.instance.annotations.upgrade_phase calls s u s.instance
                  now).0.instance
      owned_pass = elim (Bool-cases (s.instance.annotations.upgrade_uid == u.meta.uid)) [
        | inl own ↦
            rw own (minor_pass-Roll s.instance.annotations.upgrade_phase ((eq_iff _ _).0 own) refl)
        | inr other ↦ rw other (blocked-Roll _ _)
      ]
