-- ===== src/Instance/Credentials/Order.antt =====
-- The stages of a rotation that `credentialRotationPlan` plans.
use mspsql.Base.{
  ℕ, ◌<◌, ◌≤◌, Bool, true, false, ◌≡◌, ◌≢◌, ◌⊎◌, Option, none, some, is_some, contains, All,
}
use mspsql.Api.Instance.{MultiSitePostgres}
use mspsql.Plan.{
  SitePlan, CredentialRotationPlan, catalog, rotate_member, revoke, finalize_rotation,
}
use mspsql.Upgrade.{all_sites_applied}
use mspsql.Instance.Credentials.{
  RotationText, active_credential_version, common_staged_credential_version, primary_reports,
  credential_updated_members, replica_order, credential_member_order,
}

module _ (text : RotationText) where
  -- Where a rotation stands: the catalog first, then the members in order, then the revocation.
  pub data Stage (i : MultiSitePostgres) (p : CredentialRotationPlan) : Type 0 where
    in_catalog :
        p.phase ≡ catalog
        → primary_reports text "CredentialCatalogUpdated" i.status.primary i.status.sites p.version
          ≡ false
        → Stage i p
    at_member :
        p.phase ≡ rotate_member
        → primary_reports text "CredentialCatalogUpdated" i.status.primary i.status.sites p.version
          ≡ true
        → contains (credential_updated_members text i p.version) p.target_member ≡ false
        → contains (credential_member_order text i) p.target_member ≡ true
        → (p.target_member ≡ i.status.primary
            → i.status.primary ≢ ""
            → contains i.status.synchronous_standbys i.status.primary ≡ false
            → All
                (λ name. contains (credential_updated_members text i p.version) name ≡ true)
                (replica_order text i))
        → Stage i p
    revoking :
        p.phase ≡ revoke
        → All
            (λ name. contains (credential_updated_members text i p.version) name ≡ true)
            (credential_member_order text i)
        → primary_reports text "PreviousCredentialsRevoked" i.status.primary i.status.sites
            p.version
          ≡ false
        → Stage i p
    finishing :
        p.phase ≡ finalize_rotation
        → All
            (λ name. contains (credential_updated_members text i p.version) name ≡ true)
            (credential_member_order text i)
        → primary_reports text "PreviousCredentialsRevoked" i.status.primary i.status.sites
            p.version
          ≡ true
        → Stage i p

  -- A rotation is planned that some site has not applied.
  abbrev pub IsRotating : MultiSitePostgres → SitePlan → Type 0
  IsRotating i active =
      (is_some active.credential_rotation ≡ true)
      × (all_sites_applied i.status.sites i.status.active_revision ≡ false)

  -- The version that a rotation is from.
  abbrev pub previous_version_of : MultiSitePostgres → SitePlan → ℕ
  previous_version_of i active = elim active.credential_rotation [
    | none ↦ active_credential_version text i
    | some rotation ↦ rotation.previous_version
  ]

  -- What is planned where no rotation is under way, and why.
  pub data Next (i : MultiSitePostgres) (active : SitePlan) (busy : Bool)
      : Option CredentialRotationPlan → Type 0 where
    other_work : busy ≡ true → Next i active busy none
    nothing_staged :
        busy ≡ false → common_staged_credential_version text i ≡ none → Next i active busy none
    no_change :
        (version : ℕ)
        → busy ≡ false
        → common_staged_credential_version text i ≡ some version
        → (previous_version_of i active < 1) ⊎ (previous_version_of i active ≡ version)
        → Next i active busy none
    stage :
        (p : CredentialRotationPlan)
        → busy ≡ false
        → common_staged_credential_version text i ≡ some p.version
        → p.previous_version ≡ previous_version_of i active
        → 1 ≤ p.previous_version
        → p.version ≢ p.previous_version
        → Stage i p
        → Next i active busy (some p)
