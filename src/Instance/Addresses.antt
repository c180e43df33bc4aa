-- ===== src/Instance/Addresses.antt =====
-- Which addresses the members are planned at (`addressPlan`, `expectedAddressMembers`,
-- `addressesComplete`). `previous` is the plan that `activeSitePlan` reads; an absent address reads as the
-- empty text. `operation_uid_of` is the SHA-256 of the instance, the member and both addresses.
pub mod Migration
use mspsql.Base.{
  ℕ, zero, suc, ◌+◌, String, Bool, true, false, ◌&&◌, Option, none, some, List, [], ◌∷◌, ◌++◌, not,
  get, insert, select, sort, all, texts, format_int, is_some, ltb, ◌==◌, if◌then◌else◌,
}
use mspsql.Api.Common.{PostgresSiteSpec, SiteRevisionStatus}
use mspsql.Api.Instance.{MultiSitePostgres}
use mspsql.Plan.{SitePlan, AddressMigrationPlan}
use mspsql.Upgrade.{all_sites_applied}

abbrev pub Addresses : Type 0
Addresses = List (String × String)

-- `maps.Copy(into, from)`
unfoldable pub copy : Addresses → Addresses → Addresses
copy into [] = into
copy into ((k, v) ∷ rest) = copy (insert k v into) rest

abbrev pub observed_addresses : List SiteRevisionStatus → Addresses → Addresses
observed_addresses [] observed = observed
observed_addresses (x ∷ sites) observed = observed_addresses sites (copy observed x.addresses)

abbrev numbered : String → String → ℕ → List String
numbered kind name zero = []
numbered kind name (suc n) =
    numbered kind name n ++ texts (kind ∷ name ∷ "-" ∷ format_int n ∷ []) ∷ []

abbrev members_of : List PostgresSiteSpec → List String
members_of [] = []
members_of (x ∷ sites) =
    numbered "etcd-" x.name x.components.etcd_replicas
    ++ numbered "postgres-" x.name x.components.postgres_replicas
    ++ (if ltb 0 x.components.pgpool_replicas then texts ("pgpool-" ∷ x.name ∷ []) ∷ [] else [])
    ++ members_of sites

unfoldable pub expected_address_members : List PostgresSiteSpec → List String
unfolding sort
expected_address_members sites = sort (members_of sites)

unfoldable pub addresses_complete : Addresses → List String → Bool
addresses_complete addresses [] = false
addresses_complete addresses (x ∷ expected) =
    all (λ member. not (get member addresses == "")) (x ∷ expected)

-- The members whose address was seen to change.
unfoldable pub changed_members : Addresses → Addresses → List String → List String
changed_members observed planned expected =
    select
      (λ member. not (get member observed == "") && not (get member observed == get member planned))
      expected

pub record AddressPlan : Type 0 where
  pub addresses : Addresses
  pub candidates : Addresses
  pub migration : Option AddressMigrationPlan

module _ (operation_uid_of : String → String → String → String → String) where
  -- The migration of one member.
  unfoldable pub migrate_address : MultiSitePostgres → Addresses → Addresses → String → AddressPlan
  migrate_address i observed planned member = record {
    addresses = insert member (get member observed) planned;
    candidates = observed;
    migration = some (record {
      operation_uid = operation_uid_of i.meta.uid member (get member planned) (get member observed);
      member = member;
      old_address = get member planned;
      new_address = get member observed;
    });
  }

  unfoldable pub address_plan : MultiSitePostgres → SitePlan → AddressPlan
  unfolding migrate_address changed_members addresses_complete expected_address_members
  address_plan i previous =
      let observed = observed_addresses i.status.sites [] in
      let planned = previous.member_addresses in
      let expected = expected_address_members i.spec.sites in
      if is_some previous.address_migration
        && not (all_sites_applied i.status.sites i.status.active_revision)
      then record {
        addresses = planned;
        candidates = observed;
        migration = previous.address_migration;
      }
      else if not (addresses_complete planned expected)
      then record { addresses = observed; candidates = observed; migration = none }
      else elim (sort (changed_members observed planned expected)) [
        | [] ↦ record { addresses = planned; candidates = observed; migration = none }
        | member ∷ _ ↦ migrate_address i observed planned member
      ]
