-- ===== src/Tests/Servers.antt =====
-- The control server at concrete inputs.
use mspsql.Base.{
  ℕ, true, false, ◌≡◌, refl, ◌↔◌, ◌&&◌, any, all, insert, some, List, [], ◌∷◌, pos, ℤ, arith,
  lookup, format_int,
}
use mspsql.Control.{Hub, HubCalls, Report, not_found, done, failed}
use mspsql.Control.Dispatch.{sync}
use mspsql.Control.Dispatch.Streams.{IsOrderly, operations, rounds, rounds-IsOrderly}
use mspsql.Control.Dispatch.Authorised.{Adds, sync-Adds}
use mspsql.Control.Session.Binding.{IsBound}
use mspsql.Control.Targets.{directive_targets_site}
use mspsql.Control.Trust.{directive_owner_trusted}
use mspsql.Directive.{sign_directive}
use mspsql.Control.Record.{
  PlanResult, PlanAcknowledgement, PlanProgress, first_with_uid, update_instance_site, take_result,
  record_acknowledgement, record_progress, record_plan_result,
}
use mspsql.Control.Receive.{received, tick, heartbeat, result_message}
use mspsql.Control.Receive.Keeping.{InSites}
use mspsql.Control.Receive.Revisions.{IsWithin, stamped-IsWithin}
use mspsql.Control.Receive.History.{
  Event, opens, steps, after_events, binding_is_permanent, revisions_stay_within,
}
use mspsql.Tests.Plans.{crypto, plan_codec, payload_codec}
use mspsql.Upgrade.{finished, set_upgrade_phase, update}
use mspsql.Upgrade.Backup.{
  backup_directive_name, post_upgrade_directive, issue_backup_directive, fail_backup,
  ensure_post_upgrade_backup,
}
use mspsql.Upgrade.Major.Closing.{all_succeed}
use mspsql.Api.Instance.{major, major_finalize}
use mspsql.Api.Upgrade.{PostgresUpgrade}
use mspsql.Control.Trust.Owned.{OfDatabase, OfUser, declared_directive_trusted_iff}
use mspsql.Control.Trust.Backups.{backup_config_map, upgrade_owner, issued_backup_trusted}
use mspsql.Control.Record.Lookup.{
  with_index, update_instance_site-with_index, reports_need_own_name,
}
use mspsql.Control.Results.{is_success, directive_succeeded, upgrade_backup_after}
use mspsql.Control.Results.Success.{is_no_failure, directive_succeeded_lem}
use mspsql.Control.Results.Release.{recorded_backup_decides}
use mspsql.Tests.Samples.{conditions, hash, upgrade, stored_at}
use mspsql.Tests.Hubs.{
  hub_text, all_calls_succeed, site_a, instance_a, database_owner, database_directive, hub_a,
  empty_stream, moved_hello, peer_a, authority,
}

-- A round sends the plan and the directive.
first_round_test :
    operations
      (sync hub_text crypto plan_codec payload_codec hub_a all_calls_succeed "a" "site" 5
        (pos 0)
        empty_stream).0.outbox
    ≡ "database-1-false" ∷ []
unfolding sync lookup directive_targets_site directive_owner_trusted format_int sign_directive
first_round_test = refl

sync-Adds_example :
    Adds hub_text crypto plan_codec payload_codec hub_a all_calls_succeed "a" "site" 5 empty_stream
      (sync hub_text crypto plan_codec payload_codec hub_a all_calls_succeed "a" "site" 5
        (pos 0)
        empty_stream).0
sync-Adds_example =
    sync-Adds hub_text crypto plan_codec payload_codec hub_a all_calls_succeed "a" "site" 5 (pos 0)
      empty_stream

abbrev two_rounds : List (Hub × HubCalls × ℕ × ℤ)
two_rounds = (hub_a, all_calls_succeed, 5, pos 0) ∷ (hub_a, all_calls_succeed, 6, pos 1) ∷ []

rounds-IsOrderly_example :
    IsOrderly (rounds hub_text crypto plan_codec payload_codec "a" "site" two_rounds empty_stream)
unfolding lookup
rounds-IsOrderly_example =
    rounds-IsOrderly hub_text crypto plan_codec payload_codec "a" "site" two_rounds empty_stream
      (record { remembered = refl; once = tt; latest = λ uid. refl; increasing = tt })

abbrev applied_eight : PlanResult
applied_eight = record {
  operation_uid = "";
  instance_uid = "instance";
  applied_revision = 8;
  conditions = [];
}

-- The site moves to another cluster, beats, and reports its revision.
abbrev history : List Event
history =
    opens all_calls_succeed (some moved_hello) peer_a 3
    ∷ steps all_calls_succeed site_a empty_stream (pos 0) 4 (received heartbeat)
    ∷ steps all_calls_succeed site_a empty_stream (pos 0) 5
        (received (result_message applied_eight))
    ∷ steps all_calls_succeed site_a empty_stream (pos 0) 6 tick
    ∷ []

binding_is_permanent_example :
    IsBound "a" "c1"
      (after_events conditions hub_text crypto plan_codec payload_codec authority history hub_a)
binding_is_permanent_example =
    binding_is_permanent conditions hub_text crypto plan_codec payload_codec authority "a" "c1"
      history hub_a refl (site_a, refl, refl)

revisions_stay_within_example :
    InSites IsWithin stamped-IsWithin
      (after_events conditions hub_text crypto plan_codec payload_codec authority history hub_a)
revisions_stay_within_example =
    revisions_stay_within conditions hub_text crypto plan_codec payload_codec authority history
      hub_a ((record { acknowledged = ground arith; applied = ground arith }, tt), tt)

declared_directive_trusted_iff_example :
    (((database_owner.kind ≡ "PostgresDatabase")
        × (directive_owner_trusted hub_text hub_a all_calls_succeed database_directive
              (some database_owner)
              instance_a
            ≡ done true))
      ↔ OfDatabase hub_text hub_a all_calls_succeed database_directive database_owner instance_a)
    × (((database_owner.kind ≡ "PostgresUser")
          × (directive_owner_trusted hub_text hub_a all_calls_succeed database_directive
                (some database_owner)
                instance_a
              ≡ done true))
        ↔ OfUser hub_text hub_a all_calls_succeed database_directive database_owner instance_a)
declared_directive_trusted_iff_example =
    declared_directive_trusted_iff hub_text hub_a all_calls_succeed database_directive
      database_owner instance_a

update_instance_site-with_index_example :
    update_instance_site hub_text hub_a
      (with_index true all_calls_succeed)
      "instance"
      "a"
      (take_result conditions hub_text applied_eight)
    ≡ update_instance_site hub_text hub_a
        (with_index false all_calls_succeed)
        "instance"
        "a"
        (take_result conditions hub_text applied_eight)
update_instance_site-with_index_example =
    update_instance_site-with_index hub_text hub_a all_calls_succeed "instance" "a"
      (take_result conditions hub_text applied_eight) refl

abbrev acknowledged_eight : PlanAcknowledgement
acknowledged_eight = record {
  instance_uid = "instance";
  revision = 8;
  accepted = true;
  validation_errors = [];
}

abbrev progress_eight : PlanProgress
progress_eight = record {
  instance_uid = "instance";
  revision = 8;
  phase = "Applying";
  summaries = [];
}

-- The registration "production-a" of the site "a".
reports_need_own_name_example :
    (record_acknowledgement conditions hub_text hub_a all_calls_succeed "production-a"
        acknowledged_eight
      ≡ (hub_a, failed (not_found "site is not part of the instance")))
    × (record_progress conditions hub_text hub_a all_calls_succeed "production-a" progress_eight 5
        ≡ (hub_a, failed (not_found "site is not part of the instance")))
    × (record_plan_result conditions hub_text hub_a all_calls_succeed "production-a" applied_eight 5
        ≡ (hub_a, failed (not_found "site is not part of the instance")))
unfolding first_with_uid
reports_need_own_name_example =
    reports_need_own_name conditions hub_text hub_a all_calls_succeed "production-a" instance_a
      acknowledged_eight progress_eight applied_eight 5 refl (refl, tt) refl refl refl

abbrev reports : List Report
reports =
    record { type = "Succeeded"; status = "True"; reason = ""; message = "" }
    ∷ record { type = "Ready"; status = "False"; reason = ""; message = "" }
    ∷ []

directive_succeeded_lem_example :
    directive_succeeded reports ≡ (any is_success reports && all is_no_failure reports)
directive_succeeded_lem_example = directive_succeeded_lem reports

abbrev failed_backup : PlanResult
failed_backup = record {
  operation_uid = "upgrade-post-upgrade-backup-0";
  instance_uid = "instance";
  applied_revision = 0;
  conditions = record { type = "Succeeded"; status = "False"; reason = ""; message = "" } ∷ [];
}

recorded_backup_decides_example :
    (directive_succeeded failed_backup.conditions ≡ true
      → ensure_post_upgrade_backup conditions hash all_succeed
          (stored_at (major major_finalize))
          (upgrade_backup_after conditions hub_text true failed_backup upgrade)
          9
          (λ u. (stored_at (major major_finalize), finished 0))
        ≡ (stored_at (major major_finalize), finished 0))
    × (directive_succeeded failed_backup.conditions ≡ false
        → ensure_post_upgrade_backup conditions hash all_succeed
            (stored_at (major major_finalize))
            (upgrade_backup_after conditions hub_text true failed_backup upgrade)
            9
            (λ u. (stored_at (major major_finalize), finished 0))
          ≡ fail_backup conditions hash all_succeed
              (stored_at (major major_finalize))
              (upgrade_backup_after conditions hub_text true failed_backup upgrade)
              "The required full backup or WAL verification failed"
              9)
recorded_backup_decides_example =
    recorded_backup_decides conditions hash hub_text (λ cs t. refl) failed_backup all_succeed
      (stored_at (major major_finalize)) upgrade 9
      (λ u. (stored_at (major major_finalize), finished 0))

-- The upgrade with its backup asked for at time 4.
abbrev asking : PostgresUpgrade
asking = record upgrade {
  status = record (upgrade.status) { post_upgrade_backup_requested_at = some 4 };
}

abbrev hub_asking : Hub
hub_asking = record hub_a { upgrades = asking ∷ [] }

issued_backup_trusted_example :
    directive_owner_trusted hub_text hub_asking all_calls_succeed
      (backup_config_map
        (λ type t. type)
        asking
        (backup_directive_name "upgrade" 0)
        (post_upgrade_directive asking 4))
      (some (upgrade_owner asking))
      instance_a
    ≡ done true
unfolding issue_backup_directive lookup insert set_upgrade_phase update format_int
issued_backup_trusted_example =
    issued_backup_trusted hub_text hub_asking all_calls_succeed (λ type t. type) asking instance_a 4
      conditions hash all_succeed (stored_at (major major_finalize)) 9
      (post_upgrade_directive asking 4) refl refl refl refl refl refl refl
