-- ===== src/Upgrade/Minor/Rollout/Candidates.antt =====
-- What `selectUpgradeCandidate` selects, and what is left when it selects nothing.
use mspsql.Base.{
  ℕ, zero, suc, String, Bool, true, false, ◌&&◌, List, [], ◌∷◌, ◌++◌, ◌≡◌, refl, ◌≢◌, inl, inr, not,
  ◌==◌, contains, sort, select, texts-named, format_int, contains-sort, contains-append,
  contains-select, eq_iff, eq_refl, arith, Bool-cases, ◌∙◌, sym,
}
use mspsql.Api.Common.{PostgresSiteSpec}
use mspsql.Api.Instance.{MultiSitePostgres}
use mspsql.Upgrade.Minor.{
  site_members, all_members, postgres_members, append_unique, first, upgrade_candidates,
  select_upgrade_candidate,
}
use mspsql.Upgrade.Minor.Rollout.{IsNext, IsCovered}

first-contains : (xs : List String) → first xs ≢ "" → contains xs (first xs) ≡ true
first-contains [] h = absurd (h refl)
first-contains (x ∷ xs) h = ground (arith, eq_refl x)

first-empty : (xs : List String) → first xs ≡ "" → contains xs "" ≡ false → xs ≡ []
first-empty [] h k = refl
first-empty (x ∷ xs) h k = absurd (ground (arith, eq_iff x ""))

site_members-named : (name : String) (n : ℕ) → contains (site_members name n) "" ≡ false
site_members-named name zero = refl
site_members-named name (suc n) =
    contains-append (site_members name n) _ ""
    ∙ rw (site_members-named name n, texts-named "postgres-" (name ∷ "-" ∷ format_int n ∷ []) refl)
        refl

all_members-named : (sites : List PostgresSiteSpec) → contains (all_members sites) "" ≡ false
all_members-named [] = refl
all_members-named (x ∷ sites) =
    contains-append (site_members x.name x.components.postgres_replicas) (all_members sites) ""
    ∙ rw (site_members-named x.name x.components.postgres_replicas, all_members-named sites) refl

postgres_members-named :
    (sites : List PostgresSiteSpec) → contains (postgres_members sites) "" ≡ false
unfolding postgres_members
postgres_members-named sites = contains-sort (all_members sites) "" ∙ all_members-named sites

pub append_unique-contains :
    (xs : List String) (name : String) → contains (append_unique xs name) name ≡ true
unfolding append_unique
append_unique-contains xs name = elim (Bool-cases (contains xs name)) [
  | inl e ↦ rw e (contains-sort xs name ∙ e)
  | inr e ↦ rw e (
      contains-sort (xs ++ name ∷ []) name
      ∙ contains-append xs (name ∷ []) name
      ∙ ground (arith, eq_refl name))
]

select-contains :
    (i : MultiSitePostgres) (upgraded : List String)
    → select_upgrade_candidate i upgraded ≢ ""
    → contains (upgrade_candidates i upgraded) (select_upgrade_candidate i upgraded) ≡ true
unfolding select_upgrade_candidate
select-contains i upgraded h =
    sym (contains-sort (upgrade_candidates i upgraded) _)
    ∙ first-contains (sort (upgrade_candidates i upgraded)) h

candidate-IsNext :
    (i : MultiSitePostgres) (upgraded : List String) (c : String)
    → c ≢ ""
    → contains (upgrade_candidates i upgraded) c ≡ true
    → IsNext i upgraded c
unfolding upgrade_candidates
candidate-IsNext i [] c h k = record {
  named = h;
  standby = ground (
    arith,
    contains-select (λ s. not (s == i.status.primary)) i.status.synchronous_standbys c,
    eq_iff c i.status.primary,
  );
  not_upgraded = refl;
}
candidate-IsNext i (x ∷ xs) c h k =
    let both =
      contains-select (λ s. not (s == i.status.primary) && not (contains (x ∷ xs) s))
        (postgres_members i.spec.sites) c in
    record {
      named = h;
      standby = ground (arith, both, eq_iff c i.status.primary);
      not_upgraded = ground (arith, both);
    }

pub select-IsNext :
    (i : MultiSitePostgres) (upgraded : List String)
    → select_upgrade_candidate i upgraded ≢ ""
    → IsNext i upgraded (select_upgrade_candidate i upgraded)
select-IsNext i upgraded h = candidate-IsNext i upgraded _ h (select-contains i upgraded h)

-- The first member to go is a synchronous standby.
pub select-standby :
    (i : MultiSitePostgres)
    → select_upgrade_candidate i [] ≢ ""
    → contains i.status.synchronous_standbys (select_upgrade_candidate i []) ≡ true
unfolding upgrade_candidates
select-standby i h =
    let k = select-contains i [] h in
    ground (
      arith,
      contains-select (λ s. not (s == i.status.primary)) i.status.synchronous_standbys
          (select_upgrade_candidate i []),
    )

-- Once a member is upgraded and none can be selected, only the primary can be left.
pub select-IsCovered :
    (i : MultiSitePostgres) (upgraded : List String) (name : String)
    → contains upgraded name ≡ true
    → select_upgrade_candidate i upgraded ≡ ""
    → IsCovered i upgraded
unfolding select_upgrade_candidate upgrade_candidates
select-IsCovered i [] name h e = absurd (ground arith)
select-IsCovered i (x ∷ xs) name h e = λ m k.
    let p : String → Bool = λ s. not (s == i.status.primary) && not (contains (x ∷ xs) s) in
    let members = postgres_members i.spec.sites in
    let unnamed : contains (select p members) "" ≡ false =
      contains-select p members "" ∙ rw (postgres_members-named i.spec.sites) (ground arith) in
    let nothing : sort (select p members) ≡ [] =
      first-empty (sort (select p members)) e (contains-sort (select p members) "" ∙ unnamed) in
    let none_left : contains (select p members) m ≡ false =
      sym (contains-sort (select p members) m) ∙ rw nothing refl in
    ground (arith, contains-select p members m, eq_iff m i.status.primary)
