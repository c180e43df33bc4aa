-- ===== src/Instance/Topology.antt =====
-- What the hub believes of an instance's topology (`aggregateTopology`,
-- `setSynchronousReplicationCondition`). `strings.HasPrefix` is a parameter. Go's maps of counts are
-- the distinct keys and a count for each.
pub mod Counting
pub mod Consensus
use mspsql.Base.{
  ℕ, zero, suc, ◌+◌, ◌-◌, ◌*◌, String, Bool, true, false, ◌&&◌, ◌||◌, Option, none, some, List, [],
  ◌∷◌, ◌++◌, not, length, ltb, nat_eq, select, contains, sort, texts, format_int, ◌==◌,
  if◌then◌else◌,
}
use mspsql.Api.Meta.{Condition, ConditionStatus, condition_true, condition_false, ConditionApi}
use mspsql.Api.Common.{
  SiteRole, role_data, role_witness, role_other, PostgresSiteSpec, SiteRevisionStatus,
}
use mspsql.Api.Instance.{
  MultiSitePostgres, PhaseMark, unset, minor, major, unknown, MajorUpgradePhase, stop, snapshot,
  upgrade_primary, stanza_upgrade, rollback, start_primary,
}
use mspsql.Upgrade.{set_condition}

abbrev pub HasPrefix : Type 0
HasPrefix = String → String → Bool

-- Two minutes, in nanoseconds.
abbrev pub observation_limit : ℕ
observation_limit = 120_000_000_000

-- The phases in which PostgreSQL is stopped on purpose, and the one with the primary alone.
abbrev pub is_stopped : PhaseMark → Bool
is_stopped (major stop) = true
is_stopped (major snapshot) = true
is_stopped (major upgrade_primary) = true
is_stopped (major stanza_upgrade) = true
is_stopped (major rollback) = true
is_stopped _ = false

abbrev pub is_primary_only : PhaseMark → Bool
is_primary_only (major start_primary) = true
is_primary_only _ = false

abbrev is_data : SiteRole → Bool
is_data role_data = true
is_data _ = false

abbrev seeds_restore : MultiSitePostgres → Bool
seeds_restore i = i.annotations.restore_phase == "Seed"

-- How many sites must have reported.
unfoldable pub data_sites : MultiSitePostgres → ℕ
data_sites i =
    if seeds_restore i || is_primary_only i.annotations.upgrade_phase
    then 1
    else length (select (λ (x : PostgresSiteSpec). is_data x.role) i.spec.sites)

-- Whether an observation is older than the limit. A time in the future is not.
abbrev is_stale : ℕ → Option ℕ → Bool
is_stale now none = true
is_stale now (some observed_at) = ltb observation_limit (now - observed_at)

-- Whether the loop takes the site's observation.
unfoldable pub is_observed : HasPrefix → MultiSitePostgres → ℕ → SiteRevisionStatus → Bool
is_observed has_prefix i now site =
    not (
      is_primary_only i.annotations.upgrade_phase
      && not (has_prefix i.annotations.upgrade_from (texts ("postgres-" ∷ site.name ∷ "-" ∷ []))))
    && not (site.primary == "" || is_stale now site.topology_observed_at)

unfoldable pub observed_sites : HasPrefix → MultiSitePostgres → ℕ → List SiteRevisionStatus
unfolding is_observed
observed_sites has_prefix i now = select (is_observed has_prefix i now) i.status.sites

-- The keys of a map of counts.
unfoldable pub distinct : List String → List String
distinct [] = []
distinct (x ∷ xs) = let rest = distinct xs in if contains rest x then rest else x ∷ rest

abbrev pub primaries : List SiteRevisionStatus → List String
primaries [] = []
primaries (x ∷ xs) = x.primary ∷ primaries xs

abbrev pub standbys : List SiteRevisionStatus → List String
standbys [] = []
standbys (x ∷ xs) = x.synchronous_standbys ++ standbys xs

unfoldable pub count : String → List String → ℕ
count s [] = 0
count s (x ∷ xs) = let rest = count s xs in if x == s then suc rest else rest

-- The standbys that are counted once for each of `n` sites.
unfoldable pub agreed_standbys : List SiteRevisionStatus → ℕ → List String
unfolding distinct count sort
agreed_standbys observed n =
    sort (select (λ s. nat_eq (count s (standbys observed)) n) (distinct (standbys observed)))

abbrev pub first_or_empty : List String → String
first_or_empty [] = ""
first_or_empty (x ∷ xs) = x

module _ (api : ConditionApi) where
  unfoldable pub set_synchronous_replication_condition : MultiSitePostgres → MultiSitePostgres
  unfolding set_condition
  set_synchronous_replication_condition i =
      let required = i.spec.postgres.synchronous_standby_count in
      let observed = length i.status.synchronous_standbys in
      let set : ConditionStatus → String → String → MultiSitePostgres = λ status reason message.
        record i {
          status = record (i.status) {
            conditions =
                set_condition api i.status.conditions i.meta.generation
                  "SynchronousReplicationReady" status reason message;
          };
        } in
      if ltb observed required
      then set condition_false "StandbysPending" (
          texts (
            "Observed "
            ∷ format_int observed
            ∷ " of "
            ∷ format_int required
            ∷ " required synchronous standbys"
            ∷ []))
      else set condition_true "RequiredStandbysReady"
          (texts ("Observed all " ∷ format_int required ∷ " required synchronous standbys" ∷ []))

  -- The primary, the standbys and the two conditions, as each way out of the function sets them.
  unfoldable pub set_topology :
      MultiSitePostgres
      → String
      → List String
      → ConditionStatus
      → String
      → String
      → MultiSitePostgres
  unfolding set_condition set_synchronous_replication_condition
  set_topology i primary synchronous status reason message =
      set_synchronous_replication_condition (record i {
        status = record (i.status) {
          primary = primary;
          synchronous_standbys = synchronous;
          conditions =
              set_condition api i.status.conditions i.meta.generation "TopologyReady" status reason
                message;
        };
      })

  unfoldable pub aggregate_topology : HasPrefix → MultiSitePostgres → ℕ → MultiSitePostgres
  unfolding set_topology data_sites observed_sites distinct agreed_standbys
  aggregate_topology has_prefix i now =
      let expected = data_sites i in
      let observed = observed_sites has_prefix i now in
      let leaders = distinct (primaries observed) in
      if is_stopped i.annotations.upgrade_phase
      then set_topology i "" [] condition_false "PostgreSQLStopped"
          "Topology observation is suspended while PostgreSQL is intentionally stopped"
      else if not (nat_eq (length observed) expected)
      then set_topology i "" [] condition_false "InsufficientObservations" (
          texts (
            "Received "
            ∷ format_int (length observed)
            ∷ " of "
            ∷ format_int expected
            ∷ " current data-site topology observations"
            ∷ []))
      else if not (nat_eq (length leaders) 1)
      then set_topology i "" [] condition_false "ConflictingObservations"
          "Data sites disagree about the current Patroni leader"
      else set_topology i (first_or_empty leaders) (agreed_standbys observed expected)
          condition_true "ObserverConsensus" "All data sites report the same Patroni leader"
