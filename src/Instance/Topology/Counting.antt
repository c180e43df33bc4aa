-- ===== src/Instance/Topology/Counting.antt =====
-- Counts of names over the sites' reports (`primaryCounts` and `standbyCounts`).
use mspsql.Base.{
  ◌+◌, ◌≤◌, String, Bool, true, ◌≡◌, refl, ◌∙◌, sym, List, [], ◌∷◌, ◌++◌, contains, length, All,
  select, contains-sort, contains-select, nat_eq, Bool-cases, inl, inr, eq_iff, eq_refl, arith,
  ◌==◌,
}
use mspsql.Api.Common.{SiteRevisionStatus}
use mspsql.Instance.Topology.{distinct, primaries, standbys, count, agreed_standbys}

contains-distinct : (xs : List String) (s : String) → contains (distinct xs) s ≡ contains xs s
unfolding distinct
contains-distinct [] s = refl
contains-distinct (x ∷ xs) s = elim (Bool-cases (contains (distinct xs) x)) [
  | inl there ↦ rw there (elim (Bool-cases (x == s)) [
    | inl e ↦
        rw (e)
          (contains-distinct xs s ∙ sym (contains-distinct xs s) ∙ (rw ((eq_iff x s).0 e) at there))
    | inr e ↦ rw e (contains-distinct xs s)
  ])
  | inr away ↦ rw away (ground (arith, contains-distinct xs s))
]

count-append : (s : String) (xs ys : List String) → count s (xs ++ ys) ≡ count s xs + count s ys
unfolding count
count-append s [] ys = omega arith
count-append s (x ∷ xs) ys = ground (arith, count-append s xs ys)

-- A site reports no standby twice.
abbrev pub IsUnique : SiteRevisionStatus → Type 0
IsUnique site = (s : String) → count s site.synchronous_standbys ≤ 1

-- As many counts as reports: every report has it.
pub count-All :
    (s : String) (sites : List SiteRevisionStatus)
    → All IsUnique sites
    → (count s (standbys sites) ≤ length sites)
      × (count s (standbys sites) ≡ length sites
          → All (λ (x : SiteRevisionStatus). count s x.synchronous_standbys ≡ 1) sites)
unfolding count
count-All s [] u = (omega arith, λ e. tt)
count-All s (x ∷ xs) (one, rest) =
    let (le, each) = count-All s xs rest in
    let total = count-append s x.synchronous_standbys (standbys xs) in
    let most = one s in (ground arith, λ e. (ground arith, each (ground arith)))

-- One distinct leader: every site names it.
pub single-All :
    (sites : List SiteRevisionStatus) (name : String)
    → distinct (primaries sites) ≡ name ∷ []
    → All (λ (x : SiteRevisionStatus). x.primary ≡ name) sites
single-All sites name h = each sites (λ s k. rw h at (contains-distinct (primaries sites) s ∙ k))
  where
    each :
        (xs : List SiteRevisionStatus)
        → ((s : String) → contains (primaries xs) s ≡ true → contains (name ∷ []) s ≡ true)
        → All (λ (x : SiteRevisionStatus). x.primary ≡ name) xs
    each [] k = tt
    each (x ∷ xs) k = (
      ground (arith, k x.primary (ground (arith, eq_refl x.primary)), eq_iff name x.primary),
      each xs (λ s c. k s (ground arith)),
    )

-- A count of 1 is a report.
count-contains : (s : String) (xs : List String) → count s xs ≡ 1 → contains xs s ≡ true
unfolding count
count-contains s [] h = absurd (omega arith)
count-contains s (x ∷ xs) h = elim (Bool-cases (x == s)) [
  | inl e ↦ rw e refl
  | inr e ↦ ground (arith, count-contains s xs)
]

pub agreed-All :
    (s : String) (sites : List SiteRevisionStatus)
    → All IsUnique sites
    → contains (agreed_standbys sites (length sites)) s ≡ true
    → All (λ (x : SiteRevisionStatus). contains x.synchronous_standbys s ≡ true) sites
unfolding agreed_standbys
agreed-All s sites u h =
    let test : String → Bool = λ t. nat_eq (count t (standbys sites)) (length sites) in
    let chosen : contains (select test (distinct (standbys sites))) s ≡ true =
      sym (contains-sort (select test (distinct (standbys sites))) s) ∙ h in
    let counted : count s (standbys sites) ≡ length sites =
      ground (arith, contains-select test (distinct (standbys sites)) s) in
    each sites ((count-All s sites u).1 counted)
  where
    each :
        (xs : List SiteRevisionStatus)
        → All (λ (x : SiteRevisionStatus). count s x.synchronous_standbys ≡ 1) xs
        → All (λ (x : SiteRevisionStatus). contains x.synchronous_standbys s ≡ true) xs
    each [] k = tt
    each (x ∷ xs) (k, rest) = (count-contains s x.synchronous_standbys k, each xs rest)
