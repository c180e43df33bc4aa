-- ===== src/Upgrade/Minor.antt =====
-- A pass over a minor upgrade (`reconcileMinorUpgrade`, `selectUpgradeCandidate` and its helpers).
-- The annotation of the upgraded members holds their names between commas; here it is their list,
-- empty for the empty text.
pub mod Rollout
use mspsql.Base.{
  ℕ, zero, suc, ◌+◌, String, Bool, true, false, ◌&&◌, ◌||◌, Option, none, some, List, [], ◌∷◌, ◌++◌,
  not, ◌==◌, if◌then◌else◌, texts, contains, sort, select, format_int,
}
use mspsql.Api.Meta.{ConditionApi}
use mspsql.Api.Common.{PostgresSiteSpec}
use mspsql.Api.Instance.{
  MultiSitePostgres, PhaseMark, unset, minor, major, unknown, UpgradePhase, member, switchover,
  finalize,
}
use mspsql.Api.Upgrade.{PostgresUpgrade}
use mspsql.Upgrade.{
  Stored, Calls, Return, patch, update, finish, next_revision, clear_upgrade_annotations,
  instance_ready_for_operation, is_condition_true, set_upgrade_phase, upgrade_blocked,
  complete_upgrade,
}

-- The members of a site, by the ordinals below `n`.
abbrev site_members : String → ℕ → List String
site_members name zero = []
site_members name (suc n) =
    site_members name n ++ texts ("postgres-" ∷ name ∷ "-" ∷ format_int n ∷ []) ∷ []

abbrev all_members : List PostgresSiteSpec → List String
all_members [] = []
all_members (x ∷ sites) = site_members x.name x.components.postgres_replicas ++ all_members sites

unfoldable pub postgres_members : List PostgresSiteSpec → List String
unfolding sort
postgres_members sites = sort (all_members sites)

-- `slices.Compact`
unfoldable pub compact : List String → List String
compact [] = []
compact (x ∷ xs) = keep_first x (compact xs)
  where
    keep_first : String → List String → List String
    keep_first x [] = x ∷ []
    keep_first x (y ∷ ys) = if x == y then y ∷ ys else x ∷ y ∷ ys

unfoldable pub split_members : List String → List String
unfolding sort compact
split_members members = compact (sort members)

unfoldable pub append_unique : List String → String → List String
unfolding sort
append_unique members name = sort (if contains members name then members else members ++ name ∷ [])

abbrev first : List String → String
first [] = ""
first (x ∷ xs) = x

-- What may be upgraded next: at first a synchronous standby, then any member not upgraded yet, and
-- never the primary.
unfoldable pub upgrade_candidates : MultiSitePostgres → List String → List String
upgrade_candidates i [] =
    select (λ standby. not (standby == i.status.primary)) i.status.synchronous_standbys
upgrade_candidates i (x ∷ upgraded) =
    select (λ name. not (name == i.status.primary) && not (contains (x ∷ upgraded) name))
      (postgres_members i.spec.sites)

unfoldable pub select_upgrade_candidate : MultiSitePostgres → List String → String
unfolding upgrade_candidates sort
select_upgrade_candidate i upgraded = first (sort (upgrade_candidates i upgraded))

-- `status.UpgradedMembers = upgraded` in the copy of the upgrade.
abbrev pub recorded : PostgresUpgrade → List String → PostgresUpgrade
recorded u upgraded = record u { status = record (u.status) { upgraded_members = upgraded } }

-- The instance after each of the patches.
unfoldable pub claimed_minor : PostgresUpgrade → MultiSitePostgres → String → MultiSitePostgres
claimed_minor u i candidate = record i {
  annotations = record (i.annotations) {
    upgrade_uid = u.meta.uid;
    upgrade_name = u.meta.name;
    upgrade_phase = minor member;
    upgrade_member = candidate;
    upgraded_members = [];
    upgrade_revision = some (next_revision i.status.active_revision);
  };
}

unfoldable pub switching : MultiSitePostgres → String → List String → MultiSitePostgres
switching i name upgraded = record i {
  annotations = record (i.annotations) {
    upgrade_phase = minor switchover;
    upgraded_members = upgraded;
    upgrade_from = i.status.primary;
    upgrade_candidate = name;
    upgrade_revision = some (next_revision i.status.active_revision);
  };
}

unfoldable pub finalizing_minor : PostgresUpgrade → MultiSitePostgres → MultiSitePostgres
finalizing_minor u i = record i {
  spec = record (i.spec) { postgres = record (i.spec.postgres) { image = u.spec.target_image } };
  annotations = record (i.annotations) {
    upgrade_phase = minor finalize;
    upgrade_revision = some (next_revision i.status.active_revision);
  };
}

unfoldable pub rolling_next : MultiSitePostgres → String → List String → MultiSitePostgres
rolling_next i next upgraded = record i {
  annotations = record (i.annotations) {
    upgrade_member = next;
    upgraded_members = upgraded;
    upgrade_revision = some (next_revision i.status.active_revision);
  };
}

unfoldable pub switched_over : MultiSitePostgres → String → MultiSitePostgres
switched_over i next = record i {
  annotations = record (i.annotations) {
    upgrade_phase = minor member;
    upgrade_member = next;
    upgrade_switched = true;
    upgrade_revision = some (next_revision i.status.active_revision);
  };
}

module _ (api : ConditionApi) where
  unfoldable pub begin_minor_upgrade :
      Calls → Stored → PostgresUpgrade → MultiSitePostgres → ℕ → Stored × Return
  unfolding patch set_upgrade_phase upgrade_blocked claimed_minor select_upgrade_candidate
  begin_minor_upgrade calls s u i now =
      let candidate = select_upgrade_candidate i [] in
      if candidate == ""
      then upgrade_blocked api calls s u "NoUpgradeCandidate"
          "a healthy synchronous standby is required for the first rollout"
      else patch calls s (claimed_minor u i candidate) (λ t.
        set_upgrade_phase api calls t u "RollingReplicas" "ReplicaSelected"
          (texts ("Upgrading synchronous standby " ∷ candidate ∷ [])) now)

  -- The three ways on once the member has rolled out: `upgraded` has it already.
  unfoldable pub complete_member :
      Calls → Stored → PostgresUpgrade → MultiSitePostgres → List String → ℕ → Stored × Return
  unfolding patch set_upgrade_phase switching finalizing_minor rolling_next select_upgrade_candidate
  complete_member calls s u i upgraded now =
      let name = i.annotations.upgrade_member in
      let next = select_upgrade_candidate i upgraded in
      if not i.annotations.upgrade_switched
      then patch calls s (switching i name upgraded) (λ t.
        set_upgrade_phase api calls t (recorded u upgraded) "SwitchingOver" "ReplicaVerified"
          (texts ("Requesting Patroni switchover to " ∷ name ∷ [])) now)
      else if next == ""
      then patch calls s (finalizing_minor u i) (λ t.
        set_upgrade_phase api calls t (recorded u upgraded) "Finalizing" "MembersVerified"
          "Reconciling the stable target image plan" now)
      else patch calls s (rolling_next i next upgraded) (λ t.
        set_upgrade_phase api calls t (recorded u upgraded) "RollingMembers" "MemberVerified"
          (texts ("Upgrading member " ∷ next ∷ [])) now)

  unfoldable pub member_pass :
      Calls → Stored → PostgresUpgrade → MultiSitePostgres → ℕ → Stored × Return
  unfolding complete_member set_upgrade_phase upgrade_blocked split_members append_unique
  member_pass calls s u i now =
      let name = i.annotations.upgrade_member in
      if name == ""
      then upgrade_blocked api calls s u "InvalidState" "member rollout phase has no target member"
      else if not (instance_ready_for_operation api i)
      then set_upgrade_phase api calls s u "RollingReplicas" "MemberProgressing"
          (texts ("Waiting for verified rollout of " ∷ name ∷ [])) now
      else complete_member calls s u i
          (append_unique (split_members i.annotations.upgraded_members) name) now

  unfoldable pub switchover_pass :
      Calls → Stored → PostgresUpgrade → MultiSitePostgres → ℕ → Stored × Return
  unfolding patch set_upgrade_phase upgrade_blocked split_members switched_over
      select_upgrade_candidate
  switchover_pass calls s u i now =
      let candidate = i.annotations.upgrade_candidate in
      let upgraded = split_members i.annotations.upgraded_members in
      let next = select_upgrade_candidate i upgraded in
      if candidate == "" || i.annotations.upgrade_from == ""
      then upgrade_blocked api calls s u "InvalidState"
          "switchover phase is missing primary or candidate"
      else if not (i.status.primary == candidate)
          || not (is_condition_true api i.status.conditions "TopologyReady")
      then set_upgrade_phase api calls s u "SwitchingOver" "SwitchoverProgressing"
          (texts ("Waiting for Patroni to promote " ∷ candidate ∷ [])) now
      else if next == ""
      then upgrade_blocked api calls s u "InvalidState"
          "no remaining member was found after switchover"
      else patch calls s (switched_over i next) (λ t.
        set_upgrade_phase api calls t (recorded u upgraded) "RollingMembers" "SwitchoverVerified"
          (texts ("Primary moved safely; upgrading member " ∷ next ∷ [])) now)

  unfoldable pub finalize_pass :
      Calls → Stored → PostgresUpgrade → MultiSitePostgres → ℕ → Stored × Return
  unfolding patch set_upgrade_phase complete_upgrade clear_upgrade_annotations
  finalize_pass calls s u i now =
      if not (instance_ready_for_operation api i)
      then set_upgrade_phase api calls s u "Finalizing" "StablePlanProgressing"
          "Waiting for every site to apply the stable target image" now
      else complete_upgrade api calls s u
          (λ t. patch calls t (clear_upgrade_annotations i) (finish 0))

  unfoldable pub minor_pass :
      PhaseMark → Calls → Stored → PostgresUpgrade → MultiSitePostgres → ℕ → Stored × Return
  unfolding member_pass switchover_pass finalize_pass upgrade_blocked
  minor_pass (minor member) calls s u i now = member_pass calls s u i now
  minor_pass (minor switchover) calls s u i now = switchover_pass calls s u i now
  minor_pass (minor finalize) calls s u i now = finalize_pass calls s u i now
  minor_pass unset calls s u i now =
      upgrade_blocked api calls s u "InvalidState" "instance has an unknown minor-upgrade phase"
  minor_pass (major phase) calls s u i now =
      upgrade_blocked api calls s u "InvalidState" "instance has an unknown minor-upgrade phase"
  minor_pass (unknown text) calls s u i now =
      upgrade_blocked api calls s u "InvalidState" "instance has an unknown minor-upgrade phase"

  unfoldable pub reconcile_minor_upgrade : Calls → Stored → PostgresUpgrade → ℕ → Stored × Return
  unfolding begin_minor_upgrade minor_pass complete_upgrade upgrade_blocked
  reconcile_minor_upgrade calls s u now =
      let i = s.instance in
      if u.spec.target_image == i.spec.postgres.image && i.annotations.upgrade_uid == ""
      then complete_upgrade api calls s u (finish 0)
      else if i.annotations.upgrade_uid == ""
      then begin_minor_upgrade calls s u i now
      else if not (i.annotations.upgrade_uid == u.meta.uid)
      then upgrade_blocked api calls s u "OperationConflict"
          "instance is owned by another upgrade operation"
      else minor_pass i.annotations.upgrade_phase calls s u i now
