-- ===== src/Instance/Topology/Consensus.antt =====
-- The primary and the standbys that `aggregateTopology` names, and the reports behind them.
use mspsql.Base.{
  ℕ, String, true, false, ◌≡◌, refl, ◌⊎◌, inl, inr, ◌∙◌, ap, Option, none, List, [], ◌∷◌, contains,
  length, All, some, nat_eq, Bool-cases, arith, ◌==◌, if◌then◌else◌, ltb, texts, format_int,
  nat_eq_iff, ◌+◌, ◌≤◌, ◌≢◌, select, Option-cases, eq_iff, eq_refl,
}
use mspsql.Api.Meta.{
  Condition, ConditionStatus, condition_true, condition_false, ConditionApi, is_true,
}
use mspsql.Api.Common.{SiteRevisionStatus}
use mspsql.Api.Instance.{MultiSitePostgres}
use mspsql.Upgrade.{set_condition, is_condition_true}
use mspsql.Instance.Topology.{
  HasPrefix, is_stopped, is_primary_only, is_observed, data_sites, observed_sites, distinct,
  primaries, agreed_standbys, first_or_empty, set_synchronous_replication_condition, set_topology,
  aggregate_topology,
}
use mspsql.Instance.Topology.Counting.{IsUnique, single-All, agreed-All}

single : (xs : List String) → length xs ≡ 1 → xs ≡ first_or_empty xs ∷ []
single [] h = absurd (omega arith)
single (x ∷ []) h = refl
single (x ∷ y ∷ xs) h = absurd (omega arith)

-- The leaders of reports that name the same primary.
All-single :
    (sites : List SiteRevisionStatus) (p : String)
    → All (λ (x : SiteRevisionStatus). x.primary ≡ p) sites
    → 1 ≤ length sites
    → distinct (primaries sites) ≡ p ∷ []
unfolding distinct
All-single [] p same h = absurd (omega (arith, h))
All-single (x ∷ []) p (same, _) h = ap (λ (s : String). s ∷ []) same
All-single (x ∷ y ∷ sites) p (same, rest) h =
    let one = All-single (y ∷ sites) p rest (omega arith) in
    let there : contains (distinct (primaries (y ∷ sites))) x.primary ≡ true =
      rw (one, same) (ground (arith, eq_refl p)) in
    rw there one

distinct-some :
    (sites : List SiteRevisionStatus) → length (distinct (primaries sites)) ≡ 1 → 1 ≤ length sites
unfolding distinct
distinct-some [] h = absurd (omega (arith, h))
distinct-some (x ∷ sites) h = omega arith

module _ (api : ConditionApi) (has_prefix : HasPrefix) where
  is_condition_true-set_condition :
      (cs : List Condition) (generation : ℕ) (type : String) (status : ConditionStatus)
      (reason message query : String)
      → is_condition_true api (set_condition api cs generation type status reason message) query
        ≡ (if type == query then is_true status else is_condition_true api cs query)
  unfolding set_condition is_condition_true
  is_condition_true-set_condition cs generation type status reason message query =
      let new : Condition = record {
        type = type;
        status = status;
        observed_generation = generation;
        reason = reason;
        message = message;
      } in
      ap (λ (o : Option Condition). elim o [ none ↦ false | some c ↦ is_true c.status ])
        (api.find-set cs new query)
      ∙ elim (Bool-cases (type == query)) [ inl e ↦ rw e refl | inr e ↦ rw e refl ]

  set_topology_lem :
      (i : MultiSitePostgres) (primary : String) (synchronous : List String)
      (status : ConditionStatus) (reason message : String)
      → ((set_topology api i primary synchronous status reason message).status.primary ≡ primary)
        × ((set_topology api i primary synchronous status reason
              message).status.synchronous_standbys
            ≡ synchronous)
        × (is_condition_true api
              (set_topology api i primary synchronous status reason message).status.conditions
              "TopologyReady"
            ≡ is_true status)
  unfolding set_topology set_synchronous_replication_condition
  set_topology_lem i primary synchronous status reason message =
      let cs =
        set_condition api i.status.conditions i.meta.generation "TopologyReady" status reason
          message in
      let first =
        is_condition_true-set_condition i.status.conditions i.meta.generation "TopologyReady" status
          reason message "TopologyReady" in
      let second : (s : ConditionStatus) (r m : String)
          → is_condition_true api
              (set_condition api cs i.meta.generation "SynchronousReplicationReady" s r m)
              "TopologyReady"
            ≡ is_true status =
        λ s r m.
          is_condition_true-set_condition cs i.meta.generation "SynchronousReplicationReady" s r m
            "TopologyReady"
          ∙ first in
      elim (Bool-cases (ltb (length synchronous) i.spec.postgres.synchronous_standby_count)) [
        | inl few ↦ rw few (refl, refl, second _ _ _)
        | inr enough ↦ rw enough (refl, refl, second _ _ _)
      ]

  -- A report that counts: it names a primary, it is at most two minutes old, and, while only the
  -- primary runs, it is of the primary's site.
  pub record IsFresh (i : MultiSitePostgres) (now : ℕ) (site : SiteRevisionStatus) : Type 0 where
    pub names : site.primary ≢ ""
    pub observed_at : ℕ
    pub observed : site.topology_observed_at ≡ some observed_at
    pub recent : now ≤ observed_at + 120_000_000_000
    pub of_primary :
        is_primary_only i.annotations.upgrade_phase ≡ true
        → has_prefix i.annotations.upgrade_from (texts ("postgres-" ∷ site.name ∷ "-" ∷ [])) ≡ true

  is_observed-IsFresh :
      (i : MultiSitePostgres) (now : ℕ) (site : SiteRevisionStatus)
      → is_observed has_prefix i now site ≡ true
      → IsFresh i now site
  unfolding is_observed
  is_observed-IsFresh i now site h = elim (Option-cases site.topology_observed_at) [
    | inl never ↦ absurd (ground (arith, h, never))
    | inr (t, seen) ↦ record {
      names = ground (arith, h, eq_iff site.primary "");
      observed_at = t;
      observed = seen;
      recent = ground (arith, h, seen);
      of_primary = λ alone. ground (arith, h, alone);
    }
  ]

  IsFresh-is_observed :
      (i : MultiSitePostgres) (now : ℕ) (site : SiteRevisionStatus)
      → IsFresh i now site
      → is_observed has_prefix i now site ≡ true
  unfolding is_observed
  IsFresh-is_observed i now site f =
      let seen = f.observed in
      let recent = f.recent in
      let names = f.names in
      elim (Bool-cases (is_primary_only i.annotations.upgrade_phase)) [
        | inl alone ↦
            let of_primary = f.of_primary alone in
            ground (arith, seen, recent, names, alone, of_primary, eq_iff site.primary "")
        | inr all_run ↦ ground (arith, seen, recent, names, all_run, eq_iff site.primary "")
      ]

  -- The reports that count, in their order, and no others.
  pub data FreshOf (i : MultiSitePostgres) (now : ℕ)
      : List SiteRevisionStatus → List SiteRevisionStatus → Type 0 where
    no_sites : FreshOf i now [] []
    counted :
        {site : SiteRevisionStatus} {sites fresh : List SiteRevisionStatus}
        → IsFresh i now site
        → FreshOf i now sites fresh
        → FreshOf i now (site ∷ sites) (site ∷ fresh)
    passed_over :
        {site : SiteRevisionStatus} {sites fresh : List SiteRevisionStatus}
        → (IsFresh i now site → ⊥)
        → FreshOf i now sites fresh
        → FreshOf i now (site ∷ sites) fresh

  select-FreshOf :
      (i : MultiSitePostgres) (now : ℕ) (sites : List SiteRevisionStatus)
      → FreshOf i now sites (select (is_observed has_prefix i now) sites)
  select-FreshOf i now [] = no_sites
  select-FreshOf i now (site ∷ sites) =
      let rest = select-FreshOf i now sites in
      elim (Bool-cases (is_observed has_prefix i now site)) [
        | inl taken ↦ rw taken (counted (is_observed-IsFresh i now site taken) rest)
        | inr left ↦
            rw left (passed_over (λ f. ground (arith, left, IsFresh-is_observed i now site f)) rest)
      ]

  observed_sites-FreshOf :
      (i : MultiSitePostgres) (now : ℕ)
      → FreshOf i now i.status.sites (observed_sites has_prefix i now)
  unfolding observed_sites
  observed_sites-FreshOf i now = select-FreshOf i now i.status.sites

  FreshOf-select :
      (i : MultiSitePostgres) (now : ℕ) (sites fresh : List SiteRevisionStatus)
      → FreshOf i now sites fresh
      → fresh ≡ select (is_observed has_prefix i now) sites
  FreshOf-select i now _ _ no_sites = refl
  FreshOf-select i now _ _ (counted {site} {sites} {fresh} f rest) =
      rw (IsFresh-is_observed i now site f)
        (ap (λ (xs : List SiteRevisionStatus). site ∷ xs) (FreshOf-select i now sites fresh rest))
  FreshOf-select i now _ _ (passed_over {site} {sites} {fresh} stale rest) =
      elim (Bool-cases (is_observed has_prefix i now site)) [
        | inl taken ↦ absurd (stale (is_observed-IsFresh i now site taken))
        | inr left ↦ rw left (FreshOf-select i now sites fresh rest)
      ]

  FreshOf-observed_sites :
      (i : MultiSitePostgres) (now : ℕ) (fresh : List SiteRevisionStatus)
      → FreshOf i now i.status.sites fresh
      → fresh ≡ observed_sites has_prefix i now
  unfolding observed_sites
  FreshOf-observed_sites i now fresh f = FreshOf-select i now i.status.sites fresh f

  -- PostgreSQL is not stopped on purpose, there are as many reports that count as sites that must
  -- report, at least one, and all of them name the primary.
  pub record IsAgreed (i : MultiSitePostgres) (now : ℕ) (primary : String) : Type 0 where
    pub running : is_stopped i.annotations.upgrade_phase ≡ false
    pub fresh : List SiteRevisionStatus
    pub are_fresh : FreshOf i now i.status.sites fresh
    pub all_report : length fresh ≡ data_sites i
    pub some_report : 1 ≤ length fresh
    pub same_primary : All (λ (x : SiteRevisionStatus). x.primary ≡ primary) fresh

  abbrev after : MultiSitePostgres → ℕ → MultiSitePostgres
  after i now = aggregate_topology api has_prefix i now

  aggregate_topology_cases :
      (i : MultiSitePostgres) (now : ℕ)
      → ((reason : String) × (message : String) × (after i now
            ≡ set_topology api i "" [] condition_false reason message)
          × ((p : String) → IsAgreed i now p → ⊥))
        ⊎ (IsAgreed i now (first_or_empty (distinct (primaries (observed_sites has_prefix i now))))
            × (after i now
                ≡ set_topology api i
                    (first_or_empty (distinct (primaries (observed_sites has_prefix i now))))
                    (agreed_standbys (observed_sites has_prefix i now) (data_sites i))
                    condition_true
                    "ObserverConsensus"
                    "All data sites report the same Patroni leader"))
  unfolding aggregate_topology
  aggregate_topology_cases i now =
      let observed = observed_sites has_prefix i now in
      let leaders = distinct (primaries observed) in
      elim (Bool-cases (is_stopped i.annotations.upgrade_phase)) [
        | inl stopped ↦ inl (
          "PostgreSQLStopped",
          "Topology observation is suspended while PostgreSQL is intentionally stopped",
          rw stopped refl,
          λ p agreed. let running = agreed.running in ground (arith, stopped, running),
        )
        | inr running ↦ elim (Bool-cases (nat_eq (length observed) (data_sites i))) [
          | inr few ↦ inl (
            "InsufficientObservations",
            texts (
                "Received "
                ∷ format_int (length observed)
                ∷ " of "
                ∷ format_int (data_sites i)
                ∷ " current data-site topology observations"
                ∷ []),
            rw (running, few) refl,
            λ p agreed.
                let same = FreshOf-observed_sites i now agreed.fresh agreed.are_fresh in
                let enough : length observed ≡ data_sites i = rw same at agreed.all_report in
                ground (arith, few, enough),
          )
          | inl enough ↦ elim (Bool-cases (nat_eq (length leaders) 1)) [
            | inr many ↦ inl (
              "ConflictingObservations",
              "Data sites disagree about the current Patroni leader",
              rw (running, enough, many) refl,
              λ p agreed.
                  let same = FreshOf-observed_sites i now agreed.fresh agreed.are_fresh in
                  let one : leaders ≡ p ∷ [] =
                    All-single observed p (rw same at agreed.same_primary)
                      (rw same at agreed.some_report) in
                  let counted : nat_eq (length leaders) 1 ≡ true = rw one refl in
                  ground (arith, many, counted),
            )
            | inl one ↦ inr (
              record {
                fresh = observed;
                are_fresh = observed_sites-FreshOf i now;
                all_report = (nat_eq_iff _ _).0 enough;
                some_report = distinct-some observed ((nat_eq_iff _ _).0 one);
                same_primary =
                    single-All observed (first_or_empty leaders)
                      (single leaders ((nat_eq_iff _ _).0 one));
                running = running;
              },
              rw (running, enough, one) refl,
            )
          ]
        ]
      ]

  -- After the aggregation the topology is ready, and the primary is the one that the reports agree on,
  -- or it is not ready, no primary and no standby is named, and the reports agree on no primary.
  -- Reports agree where PostgreSQL is not stopped on purpose and as many reports that count as sites
  -- that must report, at least one, all name the primary. Where no report lists a
  -- standby twice, a standby that is named is in every report that counts.
  pub aggregate_topology-IsAgreed :
      (i : MultiSitePostgres) (now : ℕ)
      → ((is_condition_true api
              (aggregate_topology api has_prefix i now).status.conditions
              "TopologyReady"
            ≡ false)
          × ((aggregate_topology api has_prefix i now).status.primary ≡ "")
          × ((aggregate_topology api has_prefix i now).status.synchronous_standbys ≡ [])
          × ((p : String) → IsAgreed i now p → ⊥))
        ⊎ ((is_condition_true api
                (aggregate_topology api has_prefix i now).status.conditions
                "TopologyReady"
              ≡ true)
            × IsAgreed i now (aggregate_topology api has_prefix i now).status.primary
            × ((fresh : List SiteRevisionStatus)
                → FreshOf i now i.status.sites fresh
                → All IsUnique fresh
                → (s : String)
                → contains (aggregate_topology api has_prefix i now).status.synchronous_standbys s
                  ≡ true
                → All (λ (x : SiteRevisionStatus). contains x.synchronous_standbys s ≡ true) fresh))
  aggregate_topology-IsAgreed i now = elim (aggregate_topology_cases i now) [
    | inl (reason, message, e, disagree) ↦
        let (a, b, c) = set_topology_lem i "" [] condition_false reason message in
        inl (rw e c, rw e a, rw e b, disagree)
    | inr (agreed, e) ↦
        let observed = observed_sites has_prefix i now in
        let (a, b, c) =
          set_topology_lem i (first_or_empty (distinct (primaries observed)))
            (agreed_standbys observed (data_sites i)) condition_true "ObserverConsensus"
            "All data sites report the same Patroni leader" in
        let all_report : length observed ≡ data_sites i =
          rw (FreshOf-observed_sites i now agreed.fresh agreed.are_fresh) at agreed.all_report in
        inr (
          rw e c,
          rw (e, a) agreed,
          λ fresh f unique s h.
              let same = FreshOf-observed_sites i now fresh f in
              rw same (agreed-All s observed (rw same at unique) (rw all_report (rw (e, b) at h))),
        )
  ]
