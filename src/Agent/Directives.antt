-- ===== src/Agent/Directives.antt =====
-- How the agent carries out a directive (internal/control/directive_state.go, and `applyDirective`
-- and `sendDirectiveResult` of internal/control/client.go).
--
-- A ConfigMap for each operation keeps the state of its directive. An outcome lists what the agent
-- did for others to see, in order. A retry on a conflict reads again and is the call that counts.
pub mod Once
pub mod Replay
pub mod Resume
pub mod Delivery
use mspsql.Base.{
  ℕ, String, Bool, true, false, ◌&&◌, ◌||◌, ◌≡◌, Option, none, some, List, [], ◌∷◌, ◌++◌, lookup,
  insert, not, ◌==◌, if◌then◌else◌, any,
}
use mspsql.Api.Meta.{Condition, condition_false, is_false}
use mspsql.Plan.{Bytes, Envelope, Crypto, Codec}
use mspsql.Directive.{Payload, Signed, signed, refused, verify_directive, DirectiveError}

abbrev pub state_running : String
state_running = "Running"

abbrev pub state_succeeded : String
state_succeeded = "Succeeded"

abbrev pub state_failed : String
state_failed = "Failed"

abbrev pub is_terminal : String → Bool
is_terminal phase = phase == state_succeeded || phase == state_failed

pub record DirectiveState : Type 0 where
  pub operation_uid : String
  pub instance_uid : String
  pub phase : String
  pub conditions : List Condition

-- The `Data` of the ConfigMap; its labels repeat the instance.
pub record DirectiveEntry : Type 0 where
  pub operation_uid : String
  pub instance_uid : String
  pub phase : String
  pub conditions_json : String
  pub updated_at : ℕ

abbrev pub Entries : Type 0
Entries = List (String × DirectiveEntry)

-- `directiveStateName` (SHA-256 in hexadecimal) is `name_of`; conditions are written and read as JSON.
pub record StateText : Type 0 where
  pub name_of : String → String
  pub marshal_conditions : List Condition → Option String
  pub unmarshal_conditions : String → Option (List Condition)
  pub unmarshal-marshal :
      (cs : List Condition) (j : String)
      → marshal_conditions cs ≡ some j
      → unmarshal_conditions j ≡ some cs
  pub marshal-named :
      (cs : List Condition) (j : String) → marshal_conditions cs ≡ some j → (j == "") ≡ false

-- `encodeDirectiveState`, with the conditions as JSON.
abbrev pub entry_for : DirectiveState → String → ℕ → DirectiveEntry
entry_for state json now = record {
  operation_uid = state.operation_uid;
  instance_uid = state.instance_uid;
  phase = state.phase;
  conditions_json = json;
  updated_at = now;
}

-- Which of the calls of an upsert fail.
pub record UpsertCalls : Type 0 where
  pub get_fails : Bool
  pub create_fails : Bool
  pub update_fails : Bool

-- `OperationDirective`
pub record DirectiveMessage : Type 0 where
  pub operation_uid : String
  pub instance_uid : String
  pub directive_json : Bytes

pub data Effect : Type 0 where
  sent_running : Effect
  executed : Payload → Effect
  sent_result : List Condition → Effect

pub data ApplyError : Type 0 where
  unreadable no_executor state_failed_call decode_failed send_failed : ApplyError
  unverified : DirectiveError → ApplyError

pub record Outcome : Type 0 where
  pub entries : Entries
  pub effects : List Effect
  pub error : Option ApplyError

-- What fails while a directive is carried out, and the time on the clock.
pub record ApplyCalls : Type 0 where
  pub load_fails : Bool
  pub running : UpsertCalls
  pub send_running_fails : Bool
  pub terminal : UpsertCalls
  pub send_result_fails : Bool
  pub now : ℕ

-- `DirectiveExecutor.Execute`: the conditions, and the text of the error if there is one.
abbrev pub Executor : Type 0
Executor = Payload → List Condition × Option String

abbrev pub execution_failed : List Condition → Option String → List Condition
execution_failed cs none = cs
execution_failed cs (some message) =
    cs
    ++ (record {
      type = "Succeeded";
      status = condition_false;
      observed_generation = 0;
      reason = "ExecutionFailed";
      message = message;
    })
      ∷ []

module _ (text : StateText) where
  -- `decodeDirectiveState`
  unfoldable pub decode_state : DirectiveEntry → Option DirectiveState
  decode_state entry =
      let state_with : List Condition → DirectiveState = λ cs. record {
        operation_uid = entry.operation_uid;
        instance_uid = entry.instance_uid;
        phase = entry.phase;
        conditions = cs;
      } in
      if entry.conditions_json == ""
      then some (state_with [])
      else elim (text.unmarshal_conditions entry.conditions_json) [
        | none ↦ none
        | some cs ↦ some (state_with cs)
      ]

  -- `upsert`: whether it succeeded. A terminal entry is left as it is.
  unfoldable pub upsert : UpsertCalls → Entries → DirectiveState → ℕ → Entries × Bool
  upsert calls entries state now = elim (text.marshal_conditions state.conditions) [
    | none ↦ (entries, false)
    | some json ↦
        let name = text.name_of state.operation_uid in
        let entry = entry_for state json now in
        if calls.get_fails then (entries, false) else elim (lookup name entries) [
          | none ↦
              if calls.create_fails then (entries, false) else (insert name entry entries, true)
          | some current ↦
              if is_terminal current.phase
              then (entries, true)
              else if calls.update_fails
              then (entries, false)
              else (insert name entry entries, true)
        ]
  ]

  unfoldable pub mark_running : UpsertCalls → Entries → String → String → ℕ → Entries × Bool
  unfolding upsert
  mark_running calls entries operation_uid instance_uid now =
      upsert calls entries
        (record {
          operation_uid = operation_uid;
          instance_uid = instance_uid;
          phase = state_running;
          conditions = [];
        })
        now

  abbrev pub has_failed : List Condition → Bool
  has_failed conditions =
      any (λ (c : Condition). c.type == "Succeeded" && is_false c.status) conditions

  abbrev pub terminal_phase : List Condition → String
  terminal_phase conditions = if has_failed conditions then state_failed else state_succeeded

  unfoldable pub mark_terminal :
      UpsertCalls → Entries → String → String → List Condition → ℕ → Entries × Bool
  unfolding upsert
  mark_terminal calls entries operation_uid instance_uid conditions now =
      upsert calls entries
        (record {
          operation_uid = operation_uid;
          instance_uid = instance_uid;
          phase = terminal_phase conditions;
          conditions = conditions;
        })
        now

  -- `sendDirectiveResult`, after what has happened already.
  unfoldable pub send_directive_result : Bool → Entries → List Effect → List Condition → Outcome
  send_directive_result fails entries effects conditions =
      if fails
      then record { entries = entries; effects = effects; error = some send_failed }
      else record {
        entries = entries;
        effects = effects ++ sent_result conditions ∷ [];
        error = none;
      }

  abbrev pub failed_with : Entries → List Effect → ApplyError → Outcome
  failed_with entries effects e = record { entries = entries; effects = effects; error = some e }

  -- From the report that the directive is running on. `keeps` tells that a state store is configured.
  unfoldable pub execute_directive :
      Bool → ApplyCalls → Entries → DirectiveMessage → Executor → Payload → Outcome
  unfolding mark_terminal send_directive_result
  execute_directive keeps calls entries message execute payload =
      let effects = sent_running ∷ executed payload ∷ [] in
      let conditions = execution_failed (execute payload).0 (execute payload).1 in
      let marked =
        mark_terminal calls.terminal entries message.operation_uid message.instance_uid conditions
          calls.now in
      if calls.send_running_fails
      then failed_with entries [] send_failed
      else if not keeps
      then send_directive_result calls.send_result_fails entries effects conditions
      else if marked.1
      then send_directive_result calls.send_result_fails marked.0 effects conditions
      else failed_with marked.0 effects state_failed_call

  unfoldable pub start_directive :
      ApplyCalls → Entries → DirectiveMessage → Executor → Payload → Outcome
  unfolding mark_running execute_directive
  start_directive calls entries message execute payload =
      let marked =
        mark_running calls.running entries message.operation_uid message.instance_uid calls.now in
      if marked.1
      then execute_directive true calls marked.0 message execute payload
      else failed_with marked.0 [] state_failed_call

  -- With a state store: what is stored for the operation decides.
  unfoldable pub resume_directive :
      ApplyCalls → Entries → DirectiveMessage → Executor → Payload → Outcome
  unfolding start_directive decode_state send_directive_result
  resume_directive calls entries message execute payload =
      if calls.load_fails
      then failed_with entries [] state_failed_call
      else elim (lookup (text.name_of message.operation_uid) entries) [
        | none ↦ start_directive calls entries message execute payload
        | some entry ↦ elim (decode_state entry) [
          | none ↦ failed_with entries [] decode_failed
          | some state ↦
              if state.instance_uid == message.instance_uid && is_terminal state.phase
              then send_directive_result calls.send_result_fails entries [] state.conditions
              else start_directive calls entries message execute payload
        ]
      ]

  module _ (crypto : Crypto) (codec : Codec Payload) (unmarshal_envelope : Bytes → Option Envelope)
      (public_key : Bytes) (site_uid : String) where
    unfoldable pub apply_directive :
        Bool → ApplyCalls → Entries → DirectiveMessage → Option Executor → Outcome
    unfolding resume_directive execute_directive
    apply_directive keeps calls entries message executor =
        elim (unmarshal_envelope message.directive_json) [
          | none ↦ failed_with entries [] unreadable
          | some envelope ↦
              elim (verify_directive crypto codec public_key envelope site_uid message.instance_uid
                message.operation_uid) [
                  | refused e ↦ failed_with entries [] (unverified e)
                  | signed payload ↦ elim executor [
                    | none ↦ failed_with entries [] no_executor
                    | some execute ↦
                        if keeps
                        then resume_directive calls entries message execute payload
                        else execute_directive false calls entries message execute payload
                  ]
                ]
        ]
