-- ===== src/Control/Aggregate.antt =====
-- The conditions of an instance from those of its sites (`aggregateInstanceConditions`,
-- `aggregateCommonTrust`, `aggregateBackupTLS` and `siteRole`).
pub mod Trust
use mspsql.Base.{
  ℕ, suc, String, Bool, true, false, ◌&&◌, ◌||◌, not, Option, none, some, List, [], ◌∷◌, all, any,
  select, is_some, ◌==◌, texts, if◌then◌else◌,
}
use mspsql.Api.Meta.{
  Condition, ConditionStatus, condition_true, condition_false, ConditionApi, is_true,
}
use mspsql.Api.Common.{SiteRole, role_witness, role_other, PostgresSiteSpec, SiteRevisionStatus}
use mspsql.Api.Instance.{MultiSitePostgres}
use mspsql.Control.{set_instance_condition}

unfoldable pub site_role : List PostgresSiteSpec → String → SiteRole
site_role [] name = role_other ""
site_role (site ∷ sites) name =
    let rest = site_role sites name in if site.name == name then site.role else rest

abbrev pub is_witness_role : SiteRole → Bool
is_witness_role role_witness = true
is_witness_role _ = false

-- The sites that a condition is about: all, or those with no witness.
abbrev pub applicable : Bool → MultiSitePostgres → List SiteRevisionStatus
applicable data_only i =
    select
      (λ (s : SiteRevisionStatus).
        not (data_only && is_witness_role (site_role i.spec.sites s.name)))
      i.status.sites

abbrev pub is_nonempty : {A : Type 0} → List A → Bool
is_nonempty [] = false
is_nonempty (x ∷ xs) = true

abbrev pub data_condition : String → Bool
data_condition type = type == "PatroniReady" || type == "TDEVerified"

-- The state of the loop of `aggregateCommonTrust`.
pub data Trusted : Type 0 where
  awaiting mismatch : Trusted
  common : String → Trusted

module _ (api : ConditionApi) where
  abbrev pub site_reports : String → SiteRevisionStatus → Bool
  site_reports type s = elim (api.find_status_condition s.conditions type) [
    | none ↦ false
    | some c ↦ is_true c.status
  ]

  abbrev pub all_sites_report : String → MultiSitePostgres → Bool
  all_sites_report type i =
      is_nonempty (applicable (data_condition type) i)
      && all (site_reports type) (applicable (data_condition type) i)

  abbrev set_on : MultiSitePostgres → String → ConditionStatus → String → String → MultiSitePostgres
  set_on i type status reason message = record i {
    status = record (i.status) {
      conditions =
          set_instance_condition api i.status.conditions i.meta.generation type status reason
            message;
    };
  }

  unfoldable pub aggregate_condition : MultiSitePostgres → String → MultiSitePostgres
  unfolding site_role set_instance_condition
  aggregate_condition i type =
      if type == "TDEVerified" && not i.spec.tde.enabled
      then i
      else if all_sites_report type i
      then set_on i type condition_true "AllSitesReady"
          (texts ("All applicable sites report " ∷ type ∷ []))
      else set_on i type condition_false "AwaitingSites"
          (texts ("Waiting for all applicable sites to report " ∷ type ∷ []))

  unfoldable pub aggregate_listed : List String → MultiSitePostgres → MultiSitePostgres
  unfolding aggregate_condition
  aggregate_listed [] i = i
  aggregate_listed (type ∷ types) i = aggregate_listed types (aggregate_condition i type)

  abbrev pub true_message_of : String → SiteRevisionStatus → Option String
  true_message_of type s = elim (api.find_status_condition s.conditions type) [
    | none ↦ none
    | some c ↦ if is_true c.status then some c.message else none
  ]

  -- The loop, from the fingerprint so far.
  unfoldable pub common_trust : String → String → List SiteRevisionStatus → Trusted
  common_trust type fingerprint [] = common fingerprint
  common_trust type fingerprint (s ∷ sites) = elim (true_message_of type s) [
    | none ↦ awaiting
    | some message ↦ elim (fingerprint == "") [
      | true ↦ common_trust type message sites
      | false ↦ elim (message == fingerprint) [
        | true ↦ common_trust type fingerprint sites
        | false ↦ mismatch
      ]
    ]
  ]

  unfoldable pub aggregate_common_trust :
      MultiSitePostgres → String → Bool → String → MultiSitePostgres
  unfolding site_role common_trust set_instance_condition
  aggregate_common_trust i type data_only component =
      elim (common_trust type "" (applicable data_only i)) [
        | awaiting ↦ set_on i type condition_false "AwaitingSites" (
            texts (
              "Waiting for all applicable sites to report their " ∷ component ∷ " trust bundle"
              ∷ []))
        | mismatch ↦
            set_on i type condition_false "TrustBundleMismatch"
              (texts (component ∷ " issuers do not publish the same CA bundle across sites" ∷ []))
        | common _ ↦
            if is_nonempty (applicable data_only i)
            then set_on i type condition_true "CommonTrustBundle"
                (texts ("All applicable sites use the same " ∷ component ∷ " CA bundle" ∷ []))
            else i
      ]

  unfoldable pub aggregate_backup_tls : MultiSitePostgres → MultiSitePostgres
  unfolding aggregate_common_trust
  aggregate_backup_tls i =
      if is_some i.spec.backup
      then aggregate_common_trust i "BackupTLSReady" true "pgBackRest"
      else i

  unfoldable pub aggregate_instance_conditions : MultiSitePostgres → MultiSitePostgres
  unfolding aggregate_listed aggregate_common_trust aggregate_backup_tls
  aggregate_instance_conditions i = aggregate_backup_tls (
      aggregate_common_trust
        (aggregate_listed
          ("LoadBalancersAllocated" ∷ "CertificatesReady" ∷ "EtcdTLSReady" ∷ "EtcdQuorate"
            ∷ "PatroniReady" ∷ "TDEVerified" ∷ [])
          i)
        "EtcdTLSReady" false "etcd")
