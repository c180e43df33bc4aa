-- ===== src/Agent/Directives/Replay.antt =====
-- `MarkRunning`, `MarkTerminal` and the run between them, in terms of what is stored.
use mspsql.Base.{
  ℕ, String, Bool, true, false, ◌≡◌, refl, sym, ap, ◌∙◌, inl, inr, Option, none, some, List, [],
  lookup, insert, lookup-insert, Bool-cases, eq_refl, arith,
}
use mspsql.Api.Meta.{Condition}
use mspsql.Directive.{Payload}
use mspsql.Agent.Directives.{
  DirectiveState, DirectiveEntry, Entries, StateText, entry_for, UpsertCalls, DirectiveMessage,
  Effect, ApplyCalls, Executor, is_terminal, upsert, mark_running, mark_terminal, terminal_phase,
  has_failed, send_directive_result, execute_directive, start_directive, execution_failed,
}
use mspsql.Agent.Directives.Once.{upsert_cases, upsert_kept, decode_state-entry_for, IsFinished}

module _ (text : StateText) where
  pub IsFinished-kept :
      (calls : UpsertCalls) (entries : Entries) (state : DirectiveState) (now : ℕ)
      (op inst : String)
      → IsFinished text entries op inst
      → IsFinished text (upsert text calls entries state now).0 op inst
  IsFinished-kept calls entries state now op inst h = record {
    entry = h.entry;
    found = upsert_kept text calls entries state now (text.name_of op) h.entry h.found h.over;
    over = h.over;
    state = h.state;
    decoded = h.decoded;
    instance_of = h.instance_of;
    phase_of = h.phase_of;
  }

  send_entries :
      (fails : Bool) (entries : Entries) (effects : List Effect) (cs : List Condition)
      → (send_directive_result text fails entries effects cs).entries ≡ entries
  unfolding send_directive_result
  send_entries fails entries effects cs = ground arith

  terminal_phase-is_terminal : (cs : List Condition) → is_terminal (terminal_phase text cs) ≡ true
  terminal_phase-is_terminal cs = elim (Bool-cases (has_failed text cs)) [
    | inl bad ↦ rw bad refl
    | inr good ↦ rw good refl
  ]

  -- What is stored of an operation may still be written.
  abbrev pub IsOpen : Entries → String → Type 0
  IsOpen entries op =
      (e : DirectiveEntry) → lookup (text.name_of op) entries ≡ some e → is_terminal e.phase ≡ false

  mark_terminal-IsFinished :
      (calls : UpsertCalls) (entries : Entries) (op inst : String) (cs : List Condition) (now : ℕ)
      → IsOpen entries op
      → (mark_terminal text calls entries op inst cs now).1 ≡ true
      → IsFinished text (mark_terminal text calls entries op inst cs now).0 op inst
  unfolding mark_terminal
  mark_terminal-IsFinished calls entries op inst cs now open_yet ended =
      let st : DirectiveState = record {
        operation_uid = op;
        instance_uid = inst;
        phase = terminal_phase text cs;
        conditions = cs;
      } in
      elim (upsert_cases text calls entries st now) [
        | inl (_, because) ↦
            let (e, found, over) = because ended in absurd (ground (arith, open_yet e found))
        | inr (j, marshalled, written, _) ↦ record {
          entry = entry_for st j now;
          found = rw written (
              lookup-insert (text.name_of op) (text.name_of op) (entry_for st j now) entries
              ∙ rw (eq_refl (text.name_of op)) refl);
          over = terminal_phase-is_terminal cs;
          state = st;
          decoded = decode_state-entry_for text st j now marshalled;
          instance_of = refl;
          phase_of = refl;
        }
      ]

  mark_running-IsOpen :
      (calls : UpsertCalls) (entries : Entries) (op inst : String) (now : ℕ)
      → IsOpen entries op
      → IsOpen (mark_running text calls entries op inst now).0 op
  unfolding mark_running
  mark_running-IsOpen calls entries op inst now open_yet =
      let st : DirectiveState = record {
        operation_uid = op;
        instance_uid = inst;
        phase = "Running";
        conditions = [];
      } in
      elim (upsert_cases text calls entries st now) [
        | inl (same, _) ↦ rw same open_yet
        | inr (j, marshalled, written, _) ↦ λ e found.
            let stored : lookup (text.name_of op)
                  (insert (text.name_of op) (entry_for st j now) entries)
                ≡ some (entry_for st j now) =
              lookup-insert (text.name_of op) (text.name_of op) (entry_for st j now) entries
              ∙ rw (eq_refl (text.name_of op)) refl in
            let same : some e ≡ some (entry_for st j now) = sym found ∙ rw written stored in
            let phase : e.phase ≡ "Running" =
              ap (λ (o : Option DirectiveEntry). elim o [ none ↦ "" | some x ↦ x.phase ]) same in
            rw phase refl
      ]

  pub send_entries-IsFinished :
      (fails : Bool) (entries : Entries) (effects : List Effect) (cs : List Condition)
      (op inst : String)
      → IsFinished text entries op inst
      → IsFinished text (send_directive_result text fails entries effects cs).entries op inst
  send_entries-IsFinished fails entries effects cs op inst h =
      rw (send_entries fails entries effects cs) h

  -- A directive that runs to its end without an error has ended in the store.
  execute_directive-IsFinished :
      (calls : ApplyCalls) (entries : Entries) (m : DirectiveMessage) (execute : Executor)
      (payload : Payload)
      → IsOpen entries m.operation_uid
      → (execute_directive text true calls entries m execute payload).error ≡ none
      → IsFinished text
          (execute_directive text true calls entries m execute payload).entries
          m.operation_uid
          m.instance_uid
  unfolding execute_directive
  execute_directive-IsFinished calls entries m execute payload open_yet fine =
      let cs = execution_failed (execute payload).0 (execute payload).1 in
      elim (Bool-cases calls.send_running_fails) [
        | inl failing ↦ absurd (ground arith)
        | inr sent ↦
            elim (Bool-cases
              (mark_terminal text calls.terminal entries m.operation_uid m.instance_uid cs
                calls.now).1) [
                  | inr failing ↦ absurd (ground arith)
                  | inl marked ↦
                      rw (sent, marked)
                        (send_entries-IsFinished calls.send_result_fails _ _ cs m.operation_uid
                          m.instance_uid
                          (mark_terminal-IsFinished calls.terminal entries m.operation_uid
                            m.instance_uid cs calls.now open_yet marked))
                ]
      ]

  pub start_directive-IsFinished :
      (calls : ApplyCalls) (entries : Entries) (m : DirectiveMessage) (execute : Executor)
      (payload : Payload)
      → IsOpen entries m.operation_uid
      → (start_directive text calls entries m execute payload).error ≡ none
      → IsFinished text
          (start_directive text calls entries m execute payload).entries
          m.operation_uid
          m.instance_uid
  unfolding start_directive
  start_directive-IsFinished calls entries m execute payload open_yet fine =
      elim (Bool-cases
        (mark_running text calls.running entries m.operation_uid m.instance_uid calls.now).1) [
          | inr failing ↦ absurd (ground arith)
          | inl marked ↦ rw marked (
              execute_directive-IsFinished calls _ m execute payload
                (mark_running-IsOpen calls.running entries m.operation_uid m.instance_uid calls.now
                  open_yet)
                (ground arith))
        ]
