-- ===== src/Agent/Directives/Resume.antt =====
-- `applyDirective` by what is stored, in terms of what it stores.
use mspsql.Base.{
  String, Bool, true, false, ◌≡◌, ◌∙◌, inl, inr, none, some, List, [], ◌∷◌, lookup, Option-cases,
  Bool-cases, eq_refl, arith, ◌==◌, ◌&&◌,
}
use mspsql.Directive.{Payload}
use mspsql.Agent.Directives.{
  DirectiveState, DirectiveEntry, Entries, StateText, DirectiveMessage, Effect, sent_running,
  executed, sent_result, ApplyCalls, Executor, is_terminal, decode_state, mark_running,
  mark_terminal, execute_directive, start_directive, resume_directive, execution_failed,
}
use mspsql.Agent.Directives.Once.{IsFinished}
use mspsql.Agent.Directives.Replay.{
  IsFinished-kept, send_entries-IsFinished, start_directive-IsFinished,
}

-- Whether a directive was carried out.
abbrev pub executes : List Effect → Bool
executes [] = false
executes (sent_running ∷ rest) = executes rest
executes (executed payload ∷ rest) = true
executes (sent_result cs ∷ rest) = executes rest

module _ (text : StateText) where
  decode_state_lem :
      (entry : DirectiveEntry) (st : DirectiveState)
      → decode_state text entry ≡ some st
      → (st.instance_uid ≡ entry.instance_uid) × (st.phase ≡ entry.phase)
  unfolding decode_state
  decode_state_lem entry st h =
      elim (Option-cases (text.unmarshal_conditions entry.conditions_json)) [
        | inl missing ↦ ground arith
        | inr (cs, read) ↦ ground arith
      ]

  -- What is stored of an operation is of the message's instance.
  abbrev pub IsOurs : Entries → DirectiveMessage → Type 0
  IsOurs entries m =
      (e : DirectiveEntry)
      → lookup (text.name_of m.operation_uid) entries ≡ some e
      → e.instance_uid ≡ m.instance_uid

  pub resume_directive-IsFinished :
      (calls : ApplyCalls) (entries : Entries) (m : DirectiveMessage) (execute : Executor)
      (payload : Payload)
      → IsOurs entries m
      → (resume_directive text calls entries m execute payload).error ≡ none
      → IsFinished text
          (resume_directive text calls entries m execute payload).entries
          m.operation_uid
          m.instance_uid
  unfolding resume_directive
  resume_directive-IsFinished calls entries m execute payload ours fine =
      elim (Bool-cases calls.load_fails) [
        | inl failing ↦ absurd (ground arith)
        | inr reads ↦ elim (Option-cases (lookup (text.name_of m.operation_uid) entries)) [
          | inl fresh ↦
              rw (reads, fresh)
                (start_directive-IsFinished text calls entries m execute payload
                  (λ e found. absurd (ground arith)) (rw (reads, fresh) at fine))
          | inr (entry, found) ↦ elim (Option-cases (decode_state text entry)) [
            | inl unread ↦ absurd (ground arith)
            | inr (st, read) ↦
                let (same, phase) = decode_state_lem entry st read in
                elim (Bool-cases (is_terminal entry.phase)) [
                  | inl over ↦
                      let ended : st.instance_uid == m.instance_uid && is_terminal st.phase ≡ true =
                        rw (same, phase, ours entry found)
                          (ground (arith, eq_refl m.instance_uid)) in
                      rw (reads, found, read, ended)
                        (send_entries-IsFinished text calls.send_result_fails entries []
                          st.conditions m.operation_uid m.instance_uid
                          (record {
                            entry = entry;
                            found = found;
                            over = over;
                            state = st;
                            decoded = read;
                            instance_of = same ∙ ours entry found;
                            phase_of = phase;
                          }))
                  | inr open_yet ↦
                      let going : st.instance_uid == m.instance_uid && is_terminal st.phase
                          ≡ false =
                        rw phase (ground arith) in
                      rw (reads, found, read, going)
                        (start_directive-IsFinished text calls entries m execute payload
                          (λ e found'. ground arith) (rw (reads, found, read, going) at fine))
                ]
          ]
        ]
      ]

  pub execute_directive-kept :
      (keeps : Bool) (calls : ApplyCalls) (entries : Entries) (m : DirectiveMessage)
      (execute : Executor) (payload : Payload) (op inst : String)
      → IsFinished text entries op inst
      → IsFinished text
          (execute_directive text keeps calls entries m execute payload).entries
          op
          inst
  unfolding execute_directive
  execute_directive-kept keeps calls entries m execute payload op inst h =
      let cs = execution_failed (execute payload).0 (execute payload).1 in
      elim (Bool-cases calls.send_running_fails) [
        | inl failing ↦ rw failing h
        | inr sent ↦ elim (Bool-cases keeps) [
          | inr forgets ↦
              rw (sent, forgets)
                (send_entries-IsFinished text calls.send_result_fails entries _ cs op inst h)
          | inl kept ↦
              let h' : IsFinished text
                  (mark_terminal text calls.terminal entries m.operation_uid m.instance_uid cs
                    calls.now).0
                  op inst =
                unfold mark_terminal in
                IsFinished-kept text calls.terminal entries _ calls.now op inst h in
              elim (Bool-cases
                (mark_terminal text calls.terminal entries m.operation_uid m.instance_uid cs
                  calls.now).1) [
                    | inl marked ↦
                        rw (sent, kept, marked)
                          (send_entries-IsFinished text calls.send_result_fails _ _ cs op inst h')
                    | inr failing ↦ rw (sent, kept, failing) h'
                  ]
        ]
      ]

  start_directive-kept :
      (calls : ApplyCalls) (entries : Entries) (m : DirectiveMessage) (execute : Executor)
      (payload : Payload) (op inst : String)
      → IsFinished text entries op inst
      → IsFinished text (start_directive text calls entries m execute payload).entries op inst
  unfolding start_directive
  start_directive-kept calls entries m execute payload op inst h =
      let h' : IsFinished text
          (mark_running text calls.running entries m.operation_uid m.instance_uid calls.now).0 op
          inst =
        unfold mark_running in IsFinished-kept text calls.running entries _ calls.now op inst h in
      elim (Bool-cases
        (mark_running text calls.running entries m.operation_uid m.instance_uid calls.now).1) [
          | inl marked ↦
              rw marked (execute_directive-kept true calls _ m execute payload op inst h')
          | inr failing ↦ rw failing h'
        ]

  pub resume_directive-kept :
      (calls : ApplyCalls) (entries : Entries) (m : DirectiveMessage) (execute : Executor)
      (payload : Payload) (op inst : String)
      → IsFinished text entries op inst
      → IsFinished text (resume_directive text calls entries m execute payload).entries op inst
  unfolding resume_directive
  resume_directive-kept calls entries m execute payload op inst h =
      elim (Bool-cases calls.load_fails) [
        | inl failing ↦ rw failing h
        | inr reads ↦ elim (Option-cases (lookup (text.name_of m.operation_uid) entries)) [
          | inl fresh ↦
              rw (reads, fresh) (start_directive-kept calls entries m execute payload op inst h)
          | inr (entry, found) ↦ elim (Option-cases (decode_state text entry)) [
            | inl unread ↦ rw (reads, found, unread) h
            | inr (st, read) ↦
                elim (Bool-cases (st.instance_uid == m.instance_uid && is_terminal st.phase)) [
                  | inl ended ↦
                      rw (reads, found, read, ended)
                        (send_entries-IsFinished text calls.send_result_fails entries []
                          st.conditions op inst h)
                  | inr going ↦
                      rw (reads, found, read, going)
                        (start_directive-kept calls entries m execute payload op inst h)
                ]
          ]
        ]
      ]
