-- ===== src/Instance/Addresses/Migration.antt =====
-- The changes of addresses that `addressPlan` makes.
use mspsql.Base.{
  String, Bool, true, false, ◌≡◌, refl, ◌≢◌, ◌⊎◌, inl, inr, ◌∙◌, sym, ap, Option, none, some, List,
  [], ◌∷◌, contains, get, insert, lookup-insert, not, is_some, Bool-cases, eq_iff, eq_refl, arith,
  select, sort, contains-sort, contains-select, ◌==◌, ◌&&◌, if◌then◌else◌,
}
use mspsql.Api.Instance.{MultiSitePostgres}
use mspsql.Plan.{SitePlan, AddressMigrationPlan}
use mspsql.Upgrade.{all_sites_applied}
use mspsql.Instance.Addresses.{
  Addresses, observed_addresses, expected_address_members, addresses_complete, changed_members,
  AddressPlan, migrate_address, address_plan,
}

get-insert :
    (k j v : String) (m : Addresses) → get j (insert k v m) ≡ (if k == j then v else get j m)
get-insert k j v m =
    ap (λ (o : Option String). elim o [ none ↦ "" | some x ↦ x ]) (lookup-insert k j v m)
    ∙ elim (Bool-cases (k == j)) [ inl e ↦ rw e refl | inr e ↦ rw e refl ]

module _ (operation_uid_of : String → String → String → String → String) where
  -- A new migration of one member: it is the only one whose address changes.
  pub record IsMigration (i : MultiSitePostgres) (previous : SitePlan) (p : AddressPlan)
      : Type 0 where
    pub plan : AddressMigrationPlan
    pub planned : p.migration ≡ some plan
    pub expected : contains (expected_address_members i.spec.sites) plan.member ≡ true
    pub old : plan.old_address ≡ get plan.member previous.member_addresses
    pub seen : plan.new_address ≡ get plan.member (observed_addresses i.status.sites [])
    pub usable : plan.new_address ≢ ""
    pub changed : plan.new_address ≢ plan.old_address
    pub moved : get plan.member p.addresses ≡ plan.new_address
    pub others :
        (name : String)
        → plan.member ≢ name
        → get name p.addresses ≡ get name previous.member_addresses

  migrate-IsMigration :
      (i : MultiSitePostgres) (previous : SitePlan) (member : String)
      → contains
          (changed_members
            (observed_addresses i.status.sites [])
            previous.member_addresses
            (expected_address_members i.spec.sites))
          member
        ≡ true
      → IsMigration i previous (
          migrate_address operation_uid_of i
            (observed_addresses i.status.sites [])
            previous.member_addresses
            member)
  unfolding migrate_address changed_members
  migrate-IsMigration i previous member h =
      let observed = observed_addresses i.status.sites [] in
      let planned = previous.member_addresses in
      let test : String → Bool =
        λ name. not (get name observed == "") && not (get name observed == get name planned) in
      let chosen : test member && contains (expected_address_members i.spec.sites) member ≡ true =
        sym (contains-select test (expected_address_members i.spec.sites) member) ∙ h in
      record {
        plan = record {
          operation_uid =
              operation_uid_of i.meta.uid member (get member planned) (get member observed);
          member = member;
          old_address = get member planned;
          new_address = get member observed;
        };
        planned = refl;
        expected = ground arith;
        old = refl;
        seen = refl;
        usable = ground (arith, eq_iff (get member observed) "");
        changed = ground (arith, eq_iff (get member observed) (get member planned));
        moved = get-insert member member (get member observed) planned ∙ rw (eq_refl member) refl;
        others = λ name d.
            get-insert member name (get member observed) planned
            ∙ elim (Bool-cases (member == name)) [
              | inl e ↦ absurd (d ((eq_iff member name).0 e))
              | inr e ↦ rw e refl
            ];
      }

  -- A migration is planned that some site has not applied.
  abbrev pub IsUnderWay : MultiSitePostgres → SitePlan → Type 0
  IsUnderWay i previous =
      (is_some previous.address_migration ≡ true)
      × (all_sites_applied i.status.sites i.status.active_revision ≡ false)

  -- No expected member was seen at another address than the planned one.
  abbrev pub IsUnmoved : MultiSitePostgres → SitePlan → Type 0
  IsUnmoved i previous =
      (name : String)
      → contains (expected_address_members i.spec.sites) name ≡ true
      → (get name (observed_addresses i.status.sites []) ≡ "")
        ⊎ (get name (observed_addresses i.status.sites []) ≡ get name previous.member_addresses)

  -- Where no migration is under way: the addresses are first taken as observed, all at once, until
  -- the plan has one for every member; then they stay, or one member moves.
  pub data Planned (i : MultiSitePostgres) (previous : SitePlan) (p : AddressPlan) : Type 0 where
    collected :
        addresses_complete previous.member_addresses (expected_address_members i.spec.sites) ≡ false
        → p.migration ≡ none
        → p.addresses ≡ observed_addresses i.status.sites []
        → Planned i previous p
    unchanged :
        addresses_complete previous.member_addresses (expected_address_members i.spec.sites) ≡ true
        → IsUnmoved i previous
        → p.migration ≡ none
        → p.addresses ≡ previous.member_addresses
        → Planned i previous p
    moving :
        addresses_complete previous.member_addresses (expected_address_members i.spec.sites) ≡ true
        → IsMigration i previous p
        → Planned i previous p

  none-IsUnmoved :
      (i : MultiSitePostgres) (previous : SitePlan)
      → sort (
          changed_members
            (observed_addresses i.status.sites [])
            previous.member_addresses
            (expected_address_members i.spec.sites))
        ≡ []
      → IsUnmoved i previous
  unfolding changed_members
  none-IsUnmoved i previous e name listed =
      let observed = observed_addresses i.status.sites [] in
      let planned = previous.member_addresses in
      let expected = expected_address_members i.spec.sites in
      let test : String → Bool = λ member.
        not (get member observed == "") && not (get member observed == get member planned) in
      let absent : contains (select test expected) name ≡ false =
        sym (contains-sort (select test expected) name) ∙ rw e refl in
      let chosen = contains-select test expected name in
      elim (Bool-cases (get name observed == "")) [
        | inl unseen ↦ inl ((eq_iff (get name observed) "").0 unseen)
        | inr seen ↦ elim (Bool-cases (get name observed == get name planned)) [
          | inl same ↦ inr ((eq_iff (get name observed) (get name planned)).0 same)
          | inr differs ↦ absurd (ground (arith, absent, chosen, seen, differs, listed))
        ]
      ]

  -- A plan of the addresses, by the members whose address was seen to change.
  by_changed :
      (i : MultiSitePostgres) (previous : SitePlan) (changed : List String)
      → addresses_complete previous.member_addresses (expected_address_members i.spec.sites) ≡ true
      → sort (
          changed_members
            (observed_addresses i.status.sites [])
            previous.member_addresses
            (expected_address_members i.spec.sites))
        ≡ changed
      → Planned i previous (elim changed [
        | [] ↦ record {
          addresses = previous.member_addresses;
          candidates = observed_addresses i.status.sites [];
          migration = none;
        }
        | member ∷ _ ↦
            migrate_address operation_uid_of i
              (observed_addresses i.status.sites [])
              previous.member_addresses
              member
      ])
  by_changed i previous [] complete e = unchanged complete (none-IsUnmoved i previous e) refl refl
  by_changed i previous (member ∷ rest) complete e = moving complete (
      migrate-IsMigration i previous member (
        sym (
          contains-sort
            (changed_members (observed_addresses i.status.sites []) previous.member_addresses
              (expected_address_members i.spec.sites))
            member)
        ∙ rw e (ground (arith, eq_refl member))))

  -- A migration that is under way is kept, with the addresses as planned. Where none is, the addresses
  -- are those observed as long as the plan lacks one for some member; once it has all, they stay, which
  -- means that no member was seen at another address, or one expected member moves to the
  -- address observed for it, and no other member's address changes.
  pub address_plan_one_by_one :
      (i : MultiSitePostgres) (previous : SitePlan)
      → (IsUnderWay i previous
          × ((address_plan operation_uid_of i previous).migration ≡ previous.address_migration)
          × ((address_plan operation_uid_of i previous).addresses ≡ previous.member_addresses))
        ⊎ ((IsUnderWay i previous → ⊥)
            × Planned i previous (address_plan operation_uid_of i previous))
  unfolding address_plan
  address_plan_one_by_one i previous =
      let expected = expected_address_members i.spec.sites in
      elim (Bool-cases (
        is_some previous.address_migration
        && not (all_sites_applied i.status.sites i.status.active_revision))) [
          | inl busy ↦ inl ((ground arith, ground arith), rw busy refl, rw busy refl)
          | inr free ↦ inr (
            (λ (some_planned, unapplied). ground (arith, free, some_planned, unapplied)),
            elim (Bool-cases (addresses_complete previous.member_addresses expected)) [
              | inr lacking ↦ rw (free, lacking) (collected lacking refl refl)
              | inl complete ↦ rw (free, complete) (by_changed i previous _ complete refl)
            ],
          )
        ]
