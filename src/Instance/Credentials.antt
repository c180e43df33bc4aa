-- ===== src/Instance/Credentials.antt =====
-- How far a rotation of credentials is (`credentialRotationPlan` and the helpers that read the
-- sites' conditions). `active` is the plan that `activeSitePlan` reads.
pub mod Order
use mspsql.Base.{
  ℕ, zero, suc, ℤ, pos, negsuc, String, Bool, true, false, ◌&&◌, ◌||◌, Option, none, some, List, [],
  ◌∷◌, ◌++◌, not, ltb, nat_eq, is_some, contains, select, sort, texts, format_int, ◌==◌,
  if◌then◌else◌,
}
use mspsql.Api.Meta.{Condition, is_true}
use mspsql.Api.Common.{
  SiteRole, role_data, role_witness, role_other, PostgresSiteSpec, SiteRevisionStatus,
}
use mspsql.Api.Instance.{MultiSitePostgres}
use mspsql.Plan.{
  SitePlan, CredentialRotationPlan, CredentialRotationPhase, catalog, rotate_member, revoke,
  finalize_rotation,
}
use mspsql.Upgrade.{all_sites_applied, status_condition}
use mspsql.Upgrade.Minor.{split_members}
use mspsql.Instance.Addresses.{expected_address_members}
use mspsql.Instance.Topology.{distinct}

-- What the code uses of `strings` and `strconv`.
pub record RotationText : Type 0 where
  pub has_prefix : String → String → Bool
  pub trim_prefix : String → String → String
  pub split_commas : String → List String
  pub parse_int : String → Option ℤ

-- `siteRoleForName`; no site of the name has the empty role.
unfoldable pub site_role_for_name : List PostgresSiteSpec → String → SiteRole
site_role_for_name [] name = role_other ""
site_role_for_name (x ∷ sites) name =
    let rest = site_role_for_name sites name in if x.name == name then x.role else rest

abbrev is_witness : SiteRole → Bool
is_witness role_witness = true
is_witness _ = false

-- The message of the site's condition of a type, if it is true.
abbrev true_message : SiteRevisionStatus → String → Option String
true_message site type = elim (status_condition site.conditions type) [
  | none ↦ none
  | some c ↦ if is_true c.status then some c.message else none
]

-- The first of the members that is not among the updated ones.
unfoldable pub first_missing : List String → List String → Option String
first_missing updated [] = none
first_missing updated (x ∷ order) =
    let rest = first_missing updated order in if contains updated x then rest else some x

module _ (text : RotationText) where
  -- A version that is a number of at least 1.
  abbrev parse_version : String → Option ℕ
  parse_version message = elim (text.parse_int message) [
    | none ↦ none
    | some (pos zero) ↦ none
    | some (pos (suc n)) ↦ some (suc n)
    | some (negsuc n) ↦ none
  ]

  -- The version that a site's condition reports, where it agrees with `version`, the one before it.
  unfoldable pub site_version : SiteRevisionStatus → String → ℕ → Option ℕ
  site_version site type version = elim (true_message site type) [
    | none ↦ none
    | some message ↦ elim (parse_version message) [
      | none ↦ none
      | some v ↦ if not (nat_eq version 0) && not (nat_eq v version) then none else some v
    ]
  ]

  -- Both loops over the sites but the witnesses: the version they agree on.
  unfoldable pub common_version :
      List PostgresSiteSpec → String → List SiteRevisionStatus → ℕ → Option ℕ
  unfolding site_version site_role_for_name
  common_version specs type [] version = some version
  common_version specs type (site ∷ sites) version =
      if is_witness (site_role_for_name specs site.name)
      then common_version specs type sites version
      else elim (site_version site type version) [
        | none ↦ none
        | some v ↦ common_version specs type sites v
      ]

  unfoldable pub active_credential_version : MultiSitePostgres → ℕ
  unfolding common_version
  active_credential_version i =
      elim (common_version i.spec.sites "PostgresCredentialsActive" i.status.sites 0) [
        | none ↦ 0
        | some v ↦ v
      ]

  -- `none` for "not staged".
  unfoldable pub common_staged_credential_version : MultiSitePostgres → Option ℕ
  unfolding common_version
  common_staged_credential_version i =
      let applicable =
        select
          (λ (x : SiteRevisionStatus). not (is_witness (site_role_for_name i.spec.sites x.name)))
          i.status.sites in
      elim applicable [
        | [] ↦ none
        | _ ∷ _ ↦ common_version i.spec.sites "CredentialRotationPending" i.status.sites 0
      ]

  -- The first site whose name the primary's begins with decides: `credentialCatalogUpdated` and
  -- `previousCredentialsRevoked`, by the type of the condition.
  unfoldable pub primary_reports : String → String → List SiteRevisionStatus → ℕ → Bool
  primary_reports type primary [] version = false
  primary_reports type primary (site ∷ sites) version =
      if not (text.has_prefix primary (texts ("postgres-" ∷ site.name ∷ "-" ∷ [])))
      then primary_reports type primary sites version
      else elim (true_message site type) [
        | none ↦ false
        | some message ↦ message == format_int version
      ]

  abbrev members_in : String → List String
  members_in message = if message == "" then [] else text.split_commas message

  abbrev reported_members : List SiteRevisionStatus → String → List String
  reported_members [] prefix = []
  reported_members (site ∷ sites) prefix =
      let rest = reported_members sites prefix in
      elim (true_message site "CredentialMembersUpdated") [
        | none ↦ rest
        | some message ↦
            if text.has_prefix message prefix
            then split_members (members_in (text.trim_prefix message prefix)) ++ rest
            else rest
      ]

  unfoldable pub credential_updated_members : MultiSitePostgres → ℕ → List String
  credential_updated_members i version =
      sort (distinct (reported_members i.status.sites (texts (format_int version ∷ ":" ∷ []))))

  -- The members that are neither the primary nor in the order yet, added at its end.
  unfoldable pub add_members : String → List String → List String → List String
  add_members primary order [] = order
  add_members primary order (member ∷ members) =
      add_members primary
        (if text.has_prefix member "postgres-"
            && not (member == primary)
            && not (contains order member)
          then order ++ member ∷ []
          else order)
        members

  unfoldable pub replica_order : MultiSitePostgres → List String
  unfolding add_members
  replica_order i =
      add_members i.status.primary (sort i.status.synchronous_standbys)
        (expected_address_members i.spec.sites)

  unfoldable pub credential_member_order : MultiSitePostgres → List String
  unfolding replica_order
  credential_member_order i =
      if i.status.primary == "" then replica_order i else replica_order i ++ i.status.primary ∷ []

  -- The plan of a rotation from one version to another.
  unfoldable pub rotation_step : MultiSitePostgres → ℕ → ℕ → CredentialRotationPlan
  unfolding primary_reports credential_updated_members first_missing credential_member_order
  rotation_step i version previous =
      let updated = credential_updated_members i version in
      let at : CredentialRotationPhase → String → List String → CredentialRotationPlan =
        λ phase target members. record {
          version = version;
          previous_version = previous;
          phase = phase;
          target_member = target;
          updated_members = members;
        } in
      if not (primary_reports "CredentialCatalogUpdated" i.status.primary i.status.sites version)
      then at catalog "" []
      else elim (first_missing updated (credential_member_order i)) [
        | some member ↦ at rotate_member member updated
        | none ↦
            if not
              (primary_reports "PreviousCredentialsRevoked" i.status.primary i.status.sites version)
            then at revoke "" updated
            else at finalize_rotation "" updated
      ]

  -- `busy` tells that an address migration, a restore or an upgrade is planned.
  unfoldable pub credential_rotation_plan :
      MultiSitePostgres → SitePlan → Bool → Option CredentialRotationPlan
  unfolding rotation_step active_credential_version common_staged_credential_version
  credential_rotation_plan i active busy =
      if is_some active.credential_rotation
        && not (all_sites_applied i.status.sites i.status.active_revision)
      then active.credential_rotation
      else if busy
      then none
      else elim (common_staged_credential_version i) [
        | none ↦ none
        | some version ↦
            let previous : ℕ = elim active.credential_rotation [
              | none ↦ active_credential_version i
              | some rotation ↦ rotation.previous_version
            ] in
            if ltb previous 1 || nat_eq previous version
            then none
            else some (rotation_step i version previous)
      ]
