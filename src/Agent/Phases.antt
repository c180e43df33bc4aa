-- ===== src/Agent/Phases.antt =====
-- What the agent renders at each phase of a major upgrade (internal/agent/render.go).
use mspsql.Base.{
  String, Bool, true, false, ◌&&◌, ◌||◌, none, some, contains, not, ◌==◌, if◌then◌else◌,
}
use mspsql.Api.Instance.{
  MajorUpgradePhase, drain, stop, snapshot, upgrade_primary, stanza_upgrade, start_primary,
  restore_writes, replicas, major_finalize, rollback, rollback_start,
}
use mspsql.Plan.{SitePlan}

-- The phases in which `majorMemberStopped` stops every member, and those in which the primary runs.
abbrev pub stops_all : MajorUpgradePhase → Bool
stops_all stop = true
stops_all snapshot = true
stops_all upgrade_primary = true
stops_all stanza_upgrade = true
stops_all rollback = true
stops_all _ = false

abbrev pub runs_primary_only : MajorUpgradePhase → Bool
runs_primary_only start_primary = true
runs_primary_only rollback_start = true
runs_primary_only _ = false

unfoldable pub major_member_stopped : SitePlan → String → Bool
major_member_stopped desired member = elim desired.major_upgrade [
  | none ↦ false
  | some m ↦
      if stops_all m.phase
      then true
      else if runs_primary_only m.phase
      then not (member == m.primary)
      else false
]

abbrev pub stops_writes : MajorUpgradePhase → Bool
stops_writes drain = true
stops_writes stop = true
stops_writes snapshot = true
stops_writes upgrade_primary = true
stops_writes stanza_upgrade = true
stops_writes start_primary = true
stops_writes replicas = true
stops_writes rollback = true
stops_writes rollback_start = true
stops_writes _ = false

unfoldable pub major_write_service_stopped : SitePlan → Bool
major_write_service_stopped desired = elim desired.major_upgrade [
  | none ↦ false
  | some m ↦ stops_writes m.phase
]

abbrev runs_target : MajorUpgradePhase → Bool
runs_target replicas = true
runs_target restore_writes = true
runs_target major_finalize = true
runs_target _ = false

-- The image of a member outside a major upgrade, or in a phase that names none.
abbrev minor_member_image : SitePlan → String → String
minor_member_image desired member = elim desired.upgrade [
  | none ↦ desired.postgres.image
  | some u ↦
      if member == u.target_member || contains u.upgraded_members member
      then u.target_image
      else desired.postgres.image
]

abbrev is_start_primary : MajorUpgradePhase → Bool
is_start_primary start_primary = true
is_start_primary _ = false

unfoldable pub postgres_member_image : SitePlan → String → String
postgres_member_image desired member = elim desired.major_upgrade [
  | none ↦ minor_member_image desired member
  | some m ↦
      if is_start_primary m.phase && member == m.primary
      then m.target_image
      else if runs_target m.phase
      then m.target_image
      else minor_member_image desired member
]
