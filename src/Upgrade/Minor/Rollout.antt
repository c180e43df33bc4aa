-- ===== src/Upgrade/Minor/Rollout.antt =====
-- The rollout of a minor upgrade: which member is next, and what one pass may do.
pub mod Candidates
pub mod Steps
use mspsql.Base.{String, true, false, List, [], ◌≡◌, ◌≢◌, ◌⊎◌, contains}
use mspsql.Api.Meta.{ConditionApi}
use mspsql.Api.Instance.{MultiSitePostgres, minor, member, switchover, finalize}
use mspsql.Api.Upgrade.{PostgresUpgrade}
use mspsql.Upgrade.{clear_upgrade_annotations, instance_ready_for_operation, is_condition_true}
use mspsql.Upgrade.Minor.{
  postgres_members, split_members, append_unique, claimed_minor, switching, finalizing_minor,
  rolling_next, switched_over,
}

-- A member that may be taken down next.
pub record IsNext (i : MultiSitePostgres) (upgraded : List String) (name : String) : Type 0 where
  pub named : name ≢ ""
  pub standby : name ≢ i.status.primary
  pub not_upgraded : contains upgraded name ≡ false

-- Every member has been upgraded, except that the primary may not have been.
abbrev pub IsCovered : MultiSitePostgres → List String → Type 0
IsCovered i upgraded =
    (name : String)
    → contains (postgres_members i.spec.sites) name ≡ true
    → (contains upgraded name ≡ true) ⊎ (name ≡ i.status.primary)

-- The upgraded members, with the one that has just rolled out.
abbrev pub upgraded_now : MultiSitePostgres → List String
upgraded_now i =
    append_unique (split_members i.annotations.upgraded_members) i.annotations.upgrade_member

module _ (api : ConditionApi) where
  -- The instance belongs to the upgrade and every site has applied its revision and is ready.
  pub record IsReady (u : PostgresUpgrade) (i : MultiSitePostgres) : Type 0 where
    pub owned : i.annotations.upgrade_uid ≡ u.meta.uid
    pub ready : instance_ready_for_operation api i ≡ true

  -- What one pass may do to the stored instance `i`, for an upgrade `u`.
  pub data Roll (u : PostgresUpgrade) (i j : MultiSitePostgres) : Type 0 where
    stay : j ≡ i → Roll u i j
    claim :
        (name : String)
        → i.annotations.upgrade_uid ≡ ""
        → IsNext i [] name
        → contains i.status.synchronous_standbys name ≡ true
        → j ≡ claimed_minor u i name
        → Roll u i j
    switch :
        IsReady u i
        → i.annotations.upgrade_phase ≡ minor member
        → i.annotations.upgrade_switched ≡ false
        → j ≡ switching i i.annotations.upgrade_member (upgraded_now i)
        → Roll u i j
    roll :
        (next : String)
        → IsReady u i
        → i.annotations.upgrade_phase ≡ minor member
        → i.annotations.upgrade_switched ≡ true
        → IsNext i (upgraded_now i) next
        → j ≡ rolling_next i next (upgraded_now i)
        → Roll u i j
    settle :
        IsReady u i
        → i.annotations.upgrade_phase ≡ minor member
        → i.annotations.upgrade_switched ≡ true
        → IsCovered i (upgraded_now i)
        → j ≡ finalizing_minor u i
        → Roll u i j
    promoted :
        (next : String)
        → i.annotations.upgrade_uid ≡ u.meta.uid
        → i.annotations.upgrade_phase ≡ minor switchover
        → i.status.primary ≡ i.annotations.upgrade_candidate
        → is_condition_true api i.status.conditions "TopologyReady" ≡ true
        → IsNext i (split_members i.annotations.upgraded_members) next
        → j ≡ switched_over i next
        → Roll u i j
    release :
        IsReady u i
        → i.annotations.upgrade_phase ≡ minor finalize
        → j ≡ clear_upgrade_annotations i
        → Roll u i j
