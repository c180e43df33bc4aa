-- ===== src/Control/Targets.antt =====
-- Which site a directive is for (`selectBackupSource`, `memberSite`, `memberTargetsSite` and
-- `directiveTargetsSite`).
use mspsql.Base.{
  String, Bool, true, false, ◌||◌, List, [], ◌∷◌, is_some, ◌==◌, lookup, sort, if◌then◌else◌,
}
use mspsql.Api.Common.{PostgresSiteSpec, SiteRevisionStatus}
use mspsql.Api.Instance.{MultiSitePostgres}

-- The site that has observed a member, the empty text for none.
unfoldable pub member_site_in : List SiteRevisionStatus → String → String
member_site_in [] member = ""
member_site_in (observed ∷ rest) member =
    let later = member_site_in rest member in
    if is_some (lookup member observed.addresses) then observed.name else later

unfoldable pub member_site : MultiSitePostgres → String → String
unfolding member_site_in
member_site i member = member_site_in i.status.sites member

unfoldable pub first_known : MultiSitePostgres → List String → String
unfolding member_site
first_known i [] = if member_site i i.status.primary == "" then "" else i.status.primary
first_known i (standby ∷ rest) =
    let later = first_known i rest in if member_site i standby == "" then later else standby

unfoldable pub select_backup_source : MultiSitePostgres → String
unfolding first_known
select_backup_source i = first_known i (sort i.status.synchronous_standbys)

-- `desired.SiteRegistrationRef == siteName` at the first site with the name.
unfoldable pub registration_matches : List PostgresSiteSpec → String → String → Bool
registration_matches [] target site_name = false
registration_matches (desired ∷ rest) target site_name =
    let later = registration_matches rest target site_name in
    if desired.name == target then desired.site_registration_ref == site_name else later

unfoldable pub member_targets_site : MultiSitePostgres → String → String → Bool
unfolding member_site registration_matches
member_targets_site i member site_name =
    registration_matches i.spec.sites (member_site i member) site_name

abbrev pub has_site : List PostgresSiteSpec → String → Bool
has_site [] name = false
has_site (desired ∷ rest) name = desired.name == name || has_site rest name

-- The two loops of `directiveTargetsSite`: an observing site that the spec no longer names is passed
-- over.
unfoldable pub primary_targets_site :
    List PostgresSiteSpec → List SiteRevisionStatus → String → String → Bool
unfolding registration_matches
primary_targets_site desired [] primary site_name = false
primary_targets_site desired (observed ∷ rest) primary site_name =
    let later = primary_targets_site desired rest primary site_name in
    if is_some (lookup primary observed.addresses)
    then (if has_site desired observed.name
        then registration_matches desired observed.name site_name
        else later)
    else later

unfoldable pub directive_targets_site : MultiSitePostgres → String → String → Bool
unfolding primary_targets_site
directive_targets_site i type site_name =
    if type == "Database" || type == "User"
    then (if i.status.primary == ""
        then false
        else primary_targets_site i.spec.sites i.status.sites i.status.primary site_name)
    else true
