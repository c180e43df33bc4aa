-- ===== src/Policy.antt =====
-- What a site's registration permits of a site of an instance (internal/controller/policy.go).
pub mod Membership
pub mod Permitted
use mspsql.Base.{
  String, Bool, true, false, ◌&&◌, ◌||◌, not, Option, none, some, List, [], ◌∷◌, any, contains,
  ◌==◌, if◌then◌else◌,
}
use mspsql.Api.Common.{
  SiteRole, role_data, IssuerReference, StorageClassInventory, StorageRequest, PostgresSiteSpec,
}
use mspsql.Api.Site.{SiteRegistration}

pub data PolicyError : Type 0 where
  revoked etcd_storage postgres_storage address_pool etcd_issuer etcd_peer_issuer etcd_client_issuer
        postgres_issuer pgpool_issuer backup_issuer storage_not_discovered :
      PolicyError

unfoldable pub issuer_allowed : List IssuerReference → IssuerReference → Bool
issuer_allowed [] requested = false
issuer_allowed (item ∷ items) requested =
    item.name == requested.name && (item.kind == requested.kind && item.group == requested.group)
    || issuer_allowed items requested

unfoldable pub discovered_storage_class : List StorageClassInventory → Option StorageRequest → Bool
discovered_storage_class inventory none = true
discovered_storage_class inventory (some requested) =
    any (λ (item : StorageClassInventory). item.name == requested.storage_class_name) inventory

-- The loaded value of an optional part, checked where it is there.
abbrev pub permits : List String → Option String → Bool
permits allowed none = true
permits allowed (some name) = contains allowed name

abbrev pub class_of : Option StorageRequest → Option String
class_of none = none
class_of (some requested) = some requested.storage_class_name

abbrev pub pool_of : PostgresSiteSpec → Option String
pool_of site = elim site.load_balancer [ none ↦ none | some balancer ↦ some balancer.address_pool ]

abbrev pub is_data_site : SiteRole → Bool
is_data_site role_data = true
is_data_site _ = false

-- An issuer that is named must be allowed.
abbrev pub allows_named : List IssuerReference → IssuerReference → Bool
allows_named allowed requested = requested.name == "" || issuer_allowed allowed requested

abbrev pub backup_issuers : SiteRegistration → List IssuerReference
backup_issuers registration = elim registration.spec.permitted_issuers.backup [
  | [] ↦ registration.spec.permitted_issuers.postgres
  | item ∷ items ↦ item ∷ items
]

-- The checks on a data site.
unfoldable pub validate_data_issuers : PostgresSiteSpec → SiteRegistration → Option PolicyError
unfolding issuer_allowed
validate_data_issuers site registration =
    if not (
      issuer_allowed registration.spec.permitted_issuers.postgres
        site.certificates.postgres_issuer_ref)
    then some postgres_issuer
    else if not (
        issuer_allowed registration.spec.permitted_issuers.pgpool
          site.certificates.pgpool_issuer_ref)
    then some pgpool_issuer
    else if not (allows_named (backup_issuers registration) site.certificates.backup_issuer_ref)
    then some backup_issuer
    else none

abbrev pub both_discovered : PostgresSiteSpec → SiteRegistration → Bool
both_discovered site registration =
    discovered_storage_class registration.status.discovered_storage_classes site.storage.etcd
    && discovered_storage_class registration.status.discovered_storage_classes site.storage.postgres

abbrev pub discovery_refusal : PostgresSiteSpec → SiteRegistration → Option PolicyError
discovery_refusal site registration =
    if both_discovered site registration then none else some storage_not_discovered

unfoldable pub validate_site_policy : PostgresSiteSpec → SiteRegistration → Option PolicyError
unfolding validate_data_issuers issuer_allowed discovered_storage_class
validate_site_policy site registration =
    if registration.spec.revoked
    then some revoked
    else if not
        (permits registration.spec.permitted_storage_classes.etcd (class_of site.storage.etcd))
    then some etcd_storage
    else if not (
        permits registration.spec.permitted_storage_classes.postgres
          (class_of site.storage.postgres))
    then some postgres_storage
    else if not (permits registration.spec.metallb_address_pools (pool_of site))
    then some address_pool
    else if not
        (issuer_allowed registration.spec.permitted_issuers.etcd site.certificates.etcd_issuer_ref)
    then some etcd_issuer
    else if not (
        allows_named registration.spec.permitted_issuers.etcd
          site.certificates.etcd_peer_issuer_ref)
    then some etcd_peer_issuer
    else if not (
        allows_named registration.spec.permitted_issuers.etcd
          site.certificates.etcd_client_issuer_ref)
    then some etcd_client_issuer
    else if is_data_site site.role
    then elim (validate_data_issuers site registration) [
      | some e ↦ some e
      | none ↦ discovery_refusal site registration
    ]
    else discovery_refusal site registration
