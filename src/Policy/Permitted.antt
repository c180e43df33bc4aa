-- ===== src/Policy/Permitted.antt =====
-- The requests of a site that its registration permits.
use mspsql.Base.{
  String, true, false, ◌≡◌, ◌≢◌, refl, ◌↔◌, none, some, List, [], ◌∷◌, Member, Option-cases,
  Bool-cases, inl, inr, arith, subst,
}
use mspsql.Api.Common.{
  PostgresSiteSpec, IssuerReference, LoadBalancerSpec, SiteRole, role_data, role_witness,
  role_other,
}
use mspsql.Api.Site.{SiteRegistration}
use mspsql.Policy.{
  permits, pool_of, is_data_site, allows_named, backup_issuers, validate_data_issuers,
  both_discovered, validate_site_policy,
}
use mspsql.Policy.Membership.{
  AllowsClass, AllowsNamed, contains-to, contains-from, issuer_allowed-to, issuer_allowed-from,
  AllowsClass-to, AllowsClass-from, AllowsNamed-to, AllowsNamed-from,
}

-- The issuers for backups: those that are listed, and PostgreSQL's where none is.
pub data BackupIssuers (registration : SiteRegistration) : List IssuerReference → Type 0 where
  listed :
      registration.spec.permitted_issuers.backup ≢ []
      → BackupIssuers registration registration.spec.permitted_issuers.backup
  as_postgres :
      registration.spec.permitted_issuers.backup ≡ []
      → BackupIssuers registration registration.spec.permitted_issuers.postgres

-- The issuers of a data site.
pub record AllowsData (site : PostgresSiteSpec) (registration : SiteRegistration) : Type 0 where
  pub postgres :
      Member site.certificates.postgres_issuer_ref registration.spec.permitted_issuers.postgres
  pub pgpool : Member site.certificates.pgpool_issuer_ref registration.spec.permitted_issuers.pgpool
  pub for_backups : List IssuerReference
  pub are_for_backups : BackupIssuers registration for_backups
  pub backup : AllowsNamed for_backups site.certificates.backup_issuer_ref

-- The registration is not revoked, permits the StorageClasses of etcd and PostgreSQL, which its cluster
-- has, the address pool, the issuers of etcd and, for a data site, those of AllowsData.
pub record IsPermitted (site : PostgresSiteSpec) (registration : SiteRegistration) : Type 0 where
  pub active : registration.spec.revoked ≡ false
  pub etcd_class :
      AllowsClass registration.spec.permitted_storage_classes.etcd
        registration.status.discovered_storage_classes site.storage.etcd
  pub postgres_class :
      AllowsClass registration.spec.permitted_storage_classes.postgres
        registration.status.discovered_storage_classes site.storage.postgres
  pub pool :
      (balancer : LoadBalancerSpec)
      → site.load_balancer ≡ some balancer
      → Member balancer.address_pool registration.spec.metallb_address_pools
  pub etcd : Member site.certificates.etcd_issuer_ref registration.spec.permitted_issuers.etcd
  pub etcd_peer :
      AllowsNamed registration.spec.permitted_issuers.etcd site.certificates.etcd_peer_issuer_ref
  pub etcd_client :
      AllowsNamed registration.spec.permitted_issuers.etcd site.certificates.etcd_client_issuer_ref
  pub of_data : site.role ≡ role_data → AllowsData site registration

pool-to :
    (site : PostgresSiteSpec) (pools : List String)
    → permits pools (pool_of site) ≡ true
    → (balancer : LoadBalancerSpec) → site.load_balancer ≡ some balancer
    → Member balancer.address_pool pools
pool-to site pools h balancer same =
    contains-to pools balancer.address_pool (ground (arith, h, same))

pool-from :
    (site : PostgresSiteSpec) (pools : List String)
    → ((balancer : LoadBalancerSpec)
        → site.load_balancer ≡ some balancer
        → Member balancer.address_pool pools)
    → permits pools (pool_of site) ≡ true
pool-from site pools a = elim (Option-cases site.load_balancer) [
  | inl absent ↦ ground (arith, absent)
  | inr (balancer, present) ↦
      let allowed = contains-from pools balancer.address_pool (a balancer present) in
      ground (arith, present, allowed)
]

is_data_site-to : (role : SiteRole) → is_data_site role ≡ true → role ≡ role_data
is_data_site-to role_data h = refl
is_data_site-to role_witness h = absurd cc
is_data_site-to (role_other name) h = absurd cc

backup_issuers-are :
    (registration : SiteRegistration) → BackupIssuers registration (backup_issuers registration)
backup_issuers-are registration = go registration.spec.permitted_issuers.backup refl
  where
    go :
        (xs : List IssuerReference)
        → registration.spec.permitted_issuers.backup ≡ xs
        → BackupIssuers registration (elim xs [
          | [] ↦ registration.spec.permitted_issuers.postgres
          | item ∷ items ↦ item ∷ items
        ])
    go [] e = as_postgres e
    go (x ∷ xs) e = subst (BackupIssuers registration) e (listed (λ empty. absurd cc))

BackupIssuers-are :
    (registration : SiteRegistration) (xs : List IssuerReference)
    → BackupIssuers registration xs
    → xs ≡ backup_issuers registration
BackupIssuers-are registration _ (as_postgres e) = rw e refl
BackupIssuers-are registration _ (listed some_listed) =
    go registration.spec.permitted_issuers.backup some_listed
  where
    go :
        (xs : List IssuerReference)
        → xs ≢ []
        → xs ≡ (elim xs [
          | [] ↦ registration.spec.permitted_issuers.postgres
          | item ∷ items ↦ item ∷ items
        ])
    go [] k = absurd (k refl)
    go (x ∷ xs) k = refl

module _ (site : PostgresSiteSpec) (registration : SiteRegistration) where
  data-Allows : validate_data_issuers site registration ≡ none → AllowsData site registration
  unfolding validate_data_issuers
  data-Allows h = record {
    postgres = issuer_allowed-to _ _ (ground (arith, h));
    pgpool = issuer_allowed-to _ _ (ground (arith, h));
    for_backups = backup_issuers registration;
    are_for_backups = backup_issuers-are registration;
    backup = AllowsNamed-to _ _ (ground (arith, h));
  }

  Allows-data : AllowsData site registration → validate_data_issuers site registration ≡ none
  unfolding validate_data_issuers
  Allows-data a =
      let postgres = issuer_allowed-from _ _ a.postgres in
      let pgpool = issuer_allowed-from _ _ a.pgpool in
      let same = BackupIssuers-are registration a.for_backups a.are_for_backups in
      let backup : allows_named (backup_issuers registration) site.certificates.backup_issuer_ref
          ≡ true =
        AllowsNamed-from (backup_issuers registration) _ (rw same at a.backup) in
      ground (arith, postgres, pgpool, backup)

  data_accepted :
      validate_site_policy site registration ≡ none
      → is_data_site site.role ≡ true
      → validate_data_issuers site registration ≡ none
  unfolding validate_site_policy
  data_accepted h is_so = elim (Option-cases (validate_data_issuers site registration)) [
    | inl accepted ↦ accepted
    | inr (e, refused) ↦ absurd (ground (arith, h, is_so, refused))
  ]

  accepted-IsPermitted :
      validate_site_policy site registration ≡ none → IsPermitted site registration
  unfolding validate_site_policy
  accepted-IsPermitted h = record {
    active = ground (arith, h);
    etcd_class = AllowsClass-to _ _ _ (ground (arith, h)) (ground (arith, h));
    postgres_class = AllowsClass-to _ _ _ (ground (arith, h)) (ground (arith, h));
    pool = pool-to site registration.spec.metallb_address_pools (ground (arith, h));
    etcd = issuer_allowed-to _ _ (ground (arith, h));
    etcd_peer = AllowsNamed-to _ _ (ground (arith, h));
    etcd_client = AllowsNamed-to _ _ (ground (arith, h));
    of_data = λ role. data-Allows (data_accepted h (rw role refl));
  }

  IsPermitted-accepted :
      IsPermitted site registration → validate_site_policy site registration ≡ none
  unfolding validate_site_policy
  IsPermitted-accepted p =
      let (etcd_class, etcd_found) = AllowsClass-from _ _ _ p.etcd_class in
      let (postgres_class, postgres_found) = AllowsClass-from _ _ _ p.postgres_class in
      let discovered : both_discovered site registration ≡ true =
        ground (arith, etcd_found, postgres_found) in
      let pool = pool-from site registration.spec.metallb_address_pools p.pool in
      let etcd = issuer_allowed-from _ _ p.etcd in
      let etcd_peer = AllowsNamed-from _ _ p.etcd_peer in
      let etcd_client = AllowsNamed-from _ _ p.etcd_client in
      elim (Bool-cases (is_data_site site.role)) [
        | inl is_so ↦
            let accepted = Allows-data (p.of_data (is_data_site-to site.role is_so)) in
            rw
              (
                p.active, etcd_class, postgres_class, pool, etcd, etcd_peer, etcd_client, is_so,
                accepted, discovered,
              )
              refl
        | inr witness ↦
            rw
              (
                p.active, etcd_class, postgres_class, pool, etcd, etcd_peer, etcd_client, witness,
                discovered,
              )
              refl
      ]

  -- The policy accepts a site exactly when its registration is not revoked, and permits the StorageClasses
  -- of its etcd and PostgreSQL storage, which must be discovered, its address pool, its issuer of
  -- etcd, its issuers of etcd peers and clients where they are named, and, for a data site, its
  -- issuers of PostgreSQL and Pgpool and, where it is named, of backups.
  pub validate_site_policy_iff :
      (validate_site_policy site registration ≡ none) ↔ IsPermitted site registration
  validate_site_policy_iff = (accepted-IsPermitted, IsPermitted-accepted)
