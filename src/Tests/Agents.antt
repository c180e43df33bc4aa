-- ===== src/Tests/Agents.antt =====
-- The agent at concrete inputs.
use mspsql.Base.{
  ◌<◌, String, true, false, ◌≡◌, refl, ◌⊎◌, some, none, Option, arith, List, [], ◌∷◌, lookup,
  insert, ◌==◌, if◌then◌else◌, format_int, eq_iff, pos,
}
use mspsql.Api.Meta.{Condition}
use mspsql.Api.Instance.{snapshot}
use mspsql.Plan.{SitePlan, Envelope, MajorUpgradePlan, verify, check_plan, Bytes}
use mspsql.Directive.{verify_directive, check_payload}
use mspsql.Agent.Phases.{major_member_stopped, major_write_service_stopped}
use mspsql.Upgrade.Major.Gates.{member_stopped-write_stopped}
use mspsql.Agent.Cache.{
  Cached, CacheCalls, CacheText, entry_of, cache_name, load, load_entry, store,
}
use mspsql.Agent.Cache.History.{IsHeld}
use mspsql.Agent.Cache.Rollback.{start, stores, revision_never_goes_back}
use mspsql.Agent.Directives.{
  StateText, DirectiveEntry, DirectiveMessage, ApplyCalls, UpsertCalls, Executor, Entries,
  sent_result, apply_directive, resume_directive, start_directive, execute_directive, mark_running,
  mark_terminal, upsert, send_directive_result,
}
use mspsql.Agent.Directives.Resume.{executes}
use mspsql.Agent.Directives.Delivery.{executes_once}
use mspsql.Agent.Directives.Delivery
use mspsql.Tests.Plans.{crypto, repeat, site_plan, plan_codec, envelope, payload_codec}

-- The one list of conditions that is written here is the empty one.
abbrev marshal : List Condition → Option String
marshal [] = some "[]"
marshal (c ∷ cs) = none

abbrev unmarshal : String → Option (List Condition)
unmarshal j = if j == "[]" then some [] else none

unmarshal-marshal : (cs : List Condition) (j : String) → marshal cs ≡ some j → unmarshal j ≡ some cs
unmarshal-marshal [] j h = ground (arith, eq_iff j "[]")
unmarshal-marshal (c ∷ cs) j h = absurd (ground arith)

marshal-named : (cs : List Condition) (j : String) → marshal cs ≡ some j → (j == "") ≡ false
marshal-named [] j h = ground (arith, eq_iff j "[]", eq_iff j "", eq_iff "[]" "")
marshal-named (c ∷ cs) j h = absurd (ground arith)

abbrev state_text : StateText
state_text = record {
  name_of = λ operation. operation;
  marshal_conditions = marshal;
  unmarshal_conditions = unmarshal;
  unmarshal-marshal = unmarshal-marshal;
  marshal-named = marshal-named;
}

abbrev upsert_fine : UpsertCalls
upsert_fine = record { get_fails = false; create_fails = false; update_fails = false }

abbrev apply_fine : ApplyCalls
apply_fine = record {
  load_fails = false;
  running = upsert_fine;
  send_running_fails = false;
  terminal = upsert_fine;
  send_result_fails = false;
  now = 9;
}

abbrev message : DirectiveMessage
message = record { operation_uid = "operation"; instance_uid = "instance"; directive_json = [] }

abbrev executor : Option Executor
executor = some (λ p. ([], none))

abbrev open_envelope : Bytes → Option Envelope
open_envelope b = some (envelope 1)

abbrev served : Entries
served =
    (apply_directive state_text crypto payload_codec open_envelope (repeat 32) "site" true
      apply_fine [] message executor).entries

served_fine :
    (apply_directive state_text crypto payload_codec open_envelope
      (repeat 32)
      "site"
      true
      apply_fine
      []
      message
      executor).error
    ≡ none
unfolding apply_directive verify_directive check_payload resume_directive start_directive
    execute_directive mark_running mark_terminal upsert send_directive_result lookup insert
served_fine = refl

nothing_stored : (e : DirectiveEntry) → lookup "operation" [] ≡ some e → e.instance_uid ≡ "instance"
unfolding lookup
nothing_stored e h = absurd (ground arith)

executes_once_example :
    (executes
        (apply_directive state_text crypto payload_codec open_envelope
          (repeat 32)
          "site"
          true
          apply_fine
          served
          message
          executor).effects
      ≡ false)
    × ((apply_directive state_text crypto payload_codec open_envelope
            (repeat 32)
            "site"
            true
            apply_fine
            served
            message
            executor).error
          ≡ none
        → (cs : List Condition) × ((apply_directive state_text crypto payload_codec open_envelope
              (repeat 32)
              "site"
              true
              apply_fine
              served
              message
              executor).effects
            ≡ sent_result cs ∷ []))
executes_once_example =
    executes_once state_text crypto payload_codec open_envelope (repeat 32) "site" apply_fine
      apply_fine [] served message message executor executor nothing_stored served_fine
      Delivery.Served.start refl refl

abbrev cache_text : CacheText
cache_text = record {
  to_lower = λ s. s;
  replace_all = λ s old new. s;
  len = λ s. 8;
  slice_to = λ s n. s;
  marshal_raw = λ b. elim b [ [] ↦ none | r ∷ _ ↦ some (format_int r) ];
  unmarshal_raw = λ j. if j == "8" then some (8 ∷ []) else if j == "7" then some (7 ∷ []) else none;
}

abbrev calls_fine : CacheCalls
calls_fine = record {
  load_fails = false;
  get_fails = false;
  create_fails = false;
  update_fails = false;
}

abbrev cache : Cached
cache =
    (cache_name crypto plan_codec cache_text "instance", entry_of (envelope 7) site_plan "7" 9) ∷ []

held : IsHeld crypto plan_codec cache_text (repeat 32) "site" cache "instance" site_plan
unfolding load load_entry cache_name verify check_plan lookup format_int
held = record {
  entry = entry_of (envelope 7) site_plan "7" 9;
  found = refl;
  labelled = refl;
  loaded = refl;
}

compact :
    (j : String)
    → cache_text.marshal_raw (8 ∷ []) ≡ some j
    → cache_text.unmarshal_raw j ≡ some (8 ∷ [])
unfolding format_int
compact j h = ground (arith, eq_iff j "8")

abbrev later_cache : Cached
later_cache =
    (store crypto plan_codec cache_text calls_fine (repeat 32) "site" cache (envelope 8) "instance"
      10).0

revision_never_goes_back_example :
    (q : SitePlan) × IsHeld crypto plan_codec cache_text (repeat 32) "site" later_cache "instance" q
    × ((7 < q.revision) ⊎ (q ≡ site_plan))
revision_never_goes_back_example =
    revision_never_goes_back crypto plan_codec cache_text (repeat 32) "site" cache later_cache
      "instance" site_plan held (stores calls_fine (envelope 8) "instance" 10 start compact)

abbrev snapshot_plan : MajorUpgradePlan
snapshot_plan = record {
  operation_uid = "upgrade";
  phase = snapshot;
  primary = "postgres-a-0";
  source_major = 16;
  target_major = 17;
  target_image = "postgres:17";
  upgrade_image = "upgrade:17";
  rollback_retention = pos 0;
  rollback_policies = [];
}

abbrev stopped_plan : SitePlan
stopped_plan = record site_plan { major_upgrade = some snapshot_plan }

member_is_stopped : major_member_stopped stopped_plan "postgres-b-0" ≡ true
unfolding major_member_stopped
member_is_stopped = refl

member_stopped-write_stopped_example : major_write_service_stopped stopped_plan ≡ true
member_stopped-write_stopped_example =
    member_stopped-write_stopped stopped_plan "postgres-b-0" member_is_stopped
