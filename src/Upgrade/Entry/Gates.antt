-- ===== src/Upgrade/Entry/Gates.antt =====
-- What must hold before an upgrade may touch an instance.
use mspsql.Base.{
  ℕ, String, true, false, ◌≡◌, refl, ap, ◌⊎◌, inl, inr, none, some, List, any, is_some, nat_eq,
  Option-cases, Bool-cases, arith,
}
use mspsql.Api.Meta.{ConditionApi}
use mspsql.Api.Upgrade.{PostgresUpgrade}
use mspsql.Api.Declarations.{PostgresRestore}
use mspsql.Upgrade.{Stored, Calls, Return, upgrade_blocked, set_upgrade_phase, update}
use mspsql.Upgrade.Deletion.{
  Guarded, InstanceRead, instance_read, instance_missing, instance_unread, holds_instance, is_over,
}
use mspsql.Upgrade.Contract.{validate_major_upgrade_contract}
use mspsql.Upgrade.Entry.{
  Pass, Controller, conflicts, restores_over, is_older, issue_fresh_backup, request_fresh_backup,
  fresh_backup_done, fresh_backup_failure, ensure_fresh_upgrade_backup, begin_contract,
  start_upgrade, is_unhealthy, enter_upgrade, reconcile_read, reconcile, kept,
}

module _ (api : ConditionApi) (c : Controller) where
  -- A healthy instance with a backup of the last day, that no other upgrade and no restore targets; and
  -- for a major upgrade a fresh backup and a contract that is met.
  pub record MayStart (p : Pass) (s : Stored) (u : PostgresUpgrade) (now : ℕ) : Type 0 where
    pub healthy : is_unhealthy api c s.instance ≡ false
    pub recent : is_older s.instance.status.last_backup_time now ≡ false
    pub upgrades : List PostgresUpgrade
    pub listed : p.upgrades ≡ some upgrades
    pub alone : any (conflicts u) upgrades ≡ false
    pub restores : List PostgresRestore
    pub restores_listed : p.restores ≡ some restores
    pub unrestored : any (restores_over u) restores ≡ false
    pub ready_for_major :
        nat_eq u.spec.target_major_version s.instance.spec.postgres.major_version ≡ false
        → (fresh_backup_done api u ≡ true)
          × (validate_major_upgrade_contract c.contains_text c.reads u s.instance now ≡ none)

  upgrade_blocked-instance :
      (calls : Calls) (s : Stored) (u : PostgresUpgrade) (reason message : String)
      → (upgrade_blocked api calls s u reason message).0.instance ≡ s.instance
  unfolding upgrade_blocked update
  upgrade_blocked-instance calls s u reason message = ground arith

  request_fresh_backup-instance :
      (calls : Calls) (s : Stored) (u : PostgresUpgrade) (now : ℕ)
      → (request_fresh_backup api calls s u now).0.instance ≡ s.instance
  unfolding request_fresh_backup update
  request_fresh_backup-instance calls s u now = ground arith

  issue_fresh_backup-instance :
      (calls : Calls) (s : Stored) (u : PostgresUpgrade) (requested_at now : ℕ)
      → (issue_fresh_backup api calls s u requested_at now).0.instance ≡ s.instance
  unfolding issue_fresh_backup set_upgrade_phase update
  issue_fresh_backup-instance calls s u requested_at now = ground arith

  abbrev MajorReady : Stored → PostgresUpgrade → ℕ → Type 0
  MajorReady s u now =
      (fresh_backup_done api u ≡ true)
      × (validate_major_upgrade_contract c.contains_text c.reads u s.instance now ≡ none)

  begin_contract-instance :
      (calls : Calls) (s : Stored) (u : PostgresUpgrade) (now : ℕ)
      → ((begin_contract api c calls u now s).0.instance ≡ s.instance)
        ⊎ (validate_major_upgrade_contract c.contains_text c.reads u s.instance now ≡ none)
  unfolding begin_contract
  begin_contract-instance calls s u now =
      elim (Option-cases
        (validate_major_upgrade_contract c.contains_text c.reads u s.instance now)) [
          | inl accepted ↦ inr accepted
          | inr (e, refused) ↦ inl (
              rw (refused, begin_contract)
                (upgrade_blocked-instance calls s u "PlatformContractRejected" (c.error_text e)))
        ]

  start_upgrade-instance :
      (calls : Calls) (s : Stored) (u : PostgresUpgrade) (now : ℕ)
      → ((start_upgrade api c calls s u now).0.instance ≡ s.instance)
        ⊎ (nat_eq u.spec.target_major_version s.instance.spec.postgres.major_version ≡ false
            → MajorReady s u now)
  unfolding start_upgrade ensure_fresh_upgrade_backup
  start_upgrade-instance calls s u now =
      elim (Bool-cases
        (nat_eq u.spec.target_major_version s.instance.spec.postgres.major_version)) [
          | inl minor_so ↦ inr (λ major_so. absurd (ground (arith, minor_so, major_so)))
          | inr major_so ↦ elim (Bool-cases (fresh_backup_done api u)) [
            | inl fresh ↦ elim (begin_contract-instance calls s u now) [
              | inl same ↦ inl (rw (major_so, fresh) same)
              | inr accepted ↦ inr (λ h. (fresh, accepted))
            ]
            | inr stale ↦ elim (Option-cases (fresh_backup_failure api u)) [
              | inr (message, broken) ↦ inl (
                  rw (major_so, stale, broken)
                    (upgrade_blocked-instance calls s u "FreshBackupFailed" message))
              | inl pending ↦ elim (Option-cases u.status.preflight_backup_requested_at) [
                | inl unasked ↦ inl (
                    rw (major_so, stale, pending, unasked)
                      (request_fresh_backup-instance calls s u now))
                | inr (requested_at, asked) ↦ inl (
                    rw (major_so, stale, pending, asked)
                      (issue_fresh_backup-instance calls s u requested_at now))
              ]
            ]
          ]
        ]

  enter_upgrade-MayStart :
      (p : Pass) (s : Stored) (u : PostgresUpgrade) (now : ℕ)
      → ((enter_upgrade api c p s u now).0.instance ≡ s.instance) ⊎ MayStart p s u now
  unfolding enter_upgrade
  enter_upgrade-MayStart p s u now =
      let calls = p.deletion.calls in
      elim (Bool-cases (is_unhealthy api c s.instance)) [
        | inl sick ↦ inl (rw sick (upgrade_blocked-instance calls s u "PreflightFailed" _))
        | inr healthy ↦ elim (Bool-cases (is_older s.instance.status.last_backup_time now)) [
          | inl old ↦ inl (rw (healthy, old) (upgrade_blocked-instance calls s u "BackupTooOld" _))
          | inr recent ↦ elim (Option-cases p.upgrades) [
            | inl unlisted ↦ inl (rw (healthy, recent, unlisted) refl)
            | inr (upgrades, listed) ↦ elim (Bool-cases (any (conflicts u) upgrades)) [
              | inl taken ↦ inl (
                  rw (healthy, recent, listed, taken)
                    (upgrade_blocked-instance calls s u "OperationConflict" _))
              | inr alone ↦ elim (Option-cases p.restores) [
                | inl unlisted ↦ inl (rw (healthy, recent, listed, alone, unlisted) refl)
                | inr (restores, restores_listed) ↦
                    elim (Bool-cases (any (restores_over u) restores)) [
                      | inl taken ↦ inl (
                          rw (healthy, recent, listed, alone, restores_listed, taken)
                            (upgrade_blocked-instance calls s u "OperationConflict" _))
                      | inr unrestored ↦ elim (start_upgrade-instance calls s u now) [
                        | inl same ↦
                            inl (
                              rw (healthy, recent, listed, alone, restores_listed, unrestored) same)
                        | inr gated ↦ inr (record {
                          healthy = healthy;
                          recent = recent;
                          upgrades = upgrades;
                          listed = listed;
                          alone = alone;
                          restores = restores;
                          restores_listed = restores_listed;
                          unrestored = unrestored;
                          ready_for_major = gated;
                        })
                      ]
                    ]
              ]
            ]
          ]
        ]
      ]

  reconcile_read-enter :
      (p : Pass) (s : Stored) (u : PostgresUpgrade) (now : ℕ)
      → holds_instance s ≡ false
      → reconcile_read api c p s u now ≡ enter_upgrade api c p s u now
  unfolding reconcile_read
  reconcile_read-enter p s u now free = ground (arith, free)

  kept-instance : (r : Stored × Return) → (kept r).0.stored ≡ r.0
  kept-instance (s, r) = refl

  -- A pass over an upgrade that is not deleted and not over, and holds no instance, leaves the instance
  -- alone, or the instance is healthy with a backup of the last day, no other upgrade and no restore
  -- targets it, and for a major upgrade a fresh backup is done and the contract is met.
  pub reconcile-MayStart :
      (p : Pass) (g : Guarded) (now : ℕ)
      → is_some g.stored.upgrade.meta.deletion_timestamp ≡ false
      → is_over g.stored.upgrade.status.phase ≡ false
      → holds_instance g.stored ≡ false
      → ((reconcile api c p g now).0.stored.instance ≡ g.stored.instance)
        ⊎ MayStart p g.stored g.stored.upgrade now
  unfolding reconcile
  reconcile-MayStart p g now alive open_still free = elim (Bool-cases g.finalizer) [
    | inr unguarded ↦ inl (ground (arith, alive, open_still, unguarded))
    | inl guarded ↦ by_read p.deletion.read refl
  ]
    where
      by_read :
          (r : InstanceRead)
          → p.deletion.read ≡ r
          → ((reconcile api c p g now).0.stored.instance ≡ g.stored.instance)
            ⊎ MayStart p g.stored g.stored.upgrade now
      by_read instance_read h = elim (enter_upgrade-MayStart p g.stored g.stored.upgrade now) [
        | inr may ↦ inr may
        | inl same ↦ inl (
            ground (
              arith,
              alive,
              open_still,
              h,
              ap (λ (s : Stored). s.instance)
                  (kept-instance (reconcile_read api c p g.stored g.stored.upgrade now)),
              ap (λ (r : Stored × Return). r.0.instance)
                  (reconcile_read-enter p g.stored g.stored.upgrade now free),
              same,
            ))
      ]
      by_read instance_missing h = inl (
          ground (
            arith,
            alive,
            open_still,
            h,
            upgrade_blocked-instance p.deletion.calls g.stored g.stored.upgrade
                "InstanceUnavailable" p.read_error,
          ))
      by_read instance_unread h = inl (
          ground (
            arith,
            alive,
            open_still,
            h,
            upgrade_blocked-instance p.deletion.calls g.stored g.stored.upgrade
                "InstanceUnavailable" p.read_error,
          ))
