-- ===== src/Agent/Directives/Delivery.antt =====
-- Deliveries of directives to an agent, one after another (`applyDirective`).
use mspsql.Base.{
  String, Bool, true, false, ◌≡◌, refl, ◌⊎◌, inl, inr, Option, none, List, [], ◌∷◌, Option-cases,
  Bool-cases, eq_refl, arith, ◌==◌, ◌&&◌, if◌then◌else◌,
}
use mspsql.Api.Meta.{Condition}
use mspsql.Plan.{Bytes, Envelope, Crypto, Codec}
use mspsql.Directive.{Payload, Signed, signed, refused, verify_directive, DirectiveError}
use mspsql.Agent.Directives.{
  Entries, StateText, DirectiveMessage, sent_result, ApplyError, Outcome, ApplyCalls, Executor,
  is_terminal, send_directive_result, execute_directive, resume_directive, apply_directive,
  failed_with, unreadable, unverified, no_executor,
}
use mspsql.Agent.Directives.Once.{IsFinished}
use mspsql.Agent.Directives.Resume.{
  executes, IsOurs, resume_directive-IsFinished, execute_directive-kept, resume_directive-kept,
}

Signed-cases :
    (r : Signed Payload)
    → ((p : Payload) × (r ≡ signed p)) ⊎ ((e : DirectiveError) × (r ≡ refused e))
Signed-cases (signed p) = inl (p, refl)
Signed-cases (refused e) = inr (e, refl)

module _ (text : StateText) where
  resume_again :
      (calls : ApplyCalls) (entries : Entries) (m : DirectiveMessage) (execute : Executor)
      (payload : Payload) (h : IsFinished text entries m.operation_uid m.instance_uid)
      → (executes (resume_directive text calls entries m execute payload).effects ≡ false)
        × ((resume_directive text calls entries m execute payload).error ≡ none
            → (resume_directive text calls entries m execute payload).effects
              ≡ sent_result h.state.conditions ∷ [])
  unfolding resume_directive send_directive_result
  resume_again calls entries m execute payload h =
      let ended : h.state.instance_uid == m.instance_uid && is_terminal h.state.phase ≡ true =
        rw (h.instance_of, h.phase_of, h.over) (ground (arith, eq_refl m.instance_uid)) in
      elim (Bool-cases calls.load_fails) [
        | inl failing ↦ rw failing (refl, λ z. absurd (ground arith))
        | inr reads ↦
            rw (reads, h.found, h.decoded, ended)
              (elim (Bool-cases calls.send_result_fails) [
                | inl lost ↦ rw lost (refl, λ z. absurd (ground arith))
                | inr sent ↦ rw sent (refl, λ z. refl)
              ])
      ]

  module _ (crypto : Crypto) (codec : Codec Payload) (unmarshal_envelope : Bytes → Option Envelope)
      (public_key : Bytes) (site_uid : String) where
    abbrev run : Bool → ApplyCalls → Entries → DirectiveMessage → Option Executor → Outcome
    run = apply_directive text crypto codec unmarshal_envelope public_key site_uid

    -- Either the message is refused before anything is done, or a payload that is signed for this site and
    -- operation goes to the executor.
    run_cases :
        (keeps : Bool) (calls : ApplyCalls) (entries : Entries) (m : DirectiveMessage)
        (executor : Option Executor)
        → ((e : ApplyError) × (run keeps calls entries m executor ≡ failed_with text entries [] e))
          ⊎ ((execute : Executor) × (payload : Payload) × (run keeps calls entries m executor ≡ (
                if keeps
                then resume_directive text calls entries m execute payload
                else execute_directive text false calls entries m execute payload)))
    unfolding apply_directive
    run_cases keeps calls entries m executor =
        elim (Option-cases (unmarshal_envelope m.directive_json)) [
          | inl missing ↦ inl (unreadable, rw (missing, apply_directive) refl)
          | inr (envelope, read) ↦
              elim (Signed-cases (
                verify_directive crypto codec public_key envelope site_uid m.instance_uid
                  m.operation_uid)) [
                    | inr (e, bad) ↦ inl (unverified e, rw (read, apply_directive, bad) refl)
                    | inl (payload, good) ↦ elim (Option-cases executor) [
                      | inl without ↦
                          inl (no_executor, rw (read, apply_directive, good, without) refl)
                      | inr (execute, given) ↦
                          inr (execute, payload, rw (read, apply_directive, good, given) refl)
                    ]
                  ]
        ]

    -- The directives that an agent is sent, for any operations, in any order and with any failures.
    pub data Served (s : Entries) : Entries → Type 0 where
      start : Served s s
      serves :
          {t : Entries} (keeps : Bool) (calls : ApplyCalls) (m : DirectiveMessage)
          (executor : Option Executor)
          → Served s t
          → Served s (run keeps calls t m executor).entries

    Served-kept :
        (s t : Entries) (op inst : String)
        → IsFinished text s op inst
        → Served s t
        → IsFinished text t op inst
    Served-kept s _ op inst h start = h
    Served-kept s _ op inst h (serves {t} keeps calls m executor r) =
        let h' = Served-kept s t op inst h r in
        elim (run_cases keeps calls t m executor) [
          | inl (e, same) ↦ rw same h'
          | inr (execute, payload, same) ↦ rw same (by_store keeps t calls m execute payload h')
        ]
      where
        by_store :
            (keeps : Bool) (t : Entries) (calls : ApplyCalls) (m : DirectiveMessage)
            (execute : Executor) (payload : Payload)
            → IsFinished text t op inst
            → IsFinished text
                (if keeps
                  then resume_directive text calls t m execute payload
                  else execute_directive text false calls t m execute payload).entries
                op
                inst
        by_store true t calls m execute payload h' =
            resume_directive-kept text calls t m execute payload op inst h'
        by_store false t calls m execute payload h' =
            execute_directive-kept text false calls t m execute payload op inst h'

    delivered-IsFinished :
        (calls : ApplyCalls) (s : Entries) (m : DirectiveMessage) (executor : Option Executor)
        → IsOurs text s m
        → (run true calls s m executor).error ≡ none
        → IsFinished text (run true calls s m executor).entries m.operation_uid m.instance_uid
    delivered-IsFinished calls s m executor ours fine = elim (run_cases true calls s m executor) [
      | inl (e, same) ↦ absurd (ground arith)
      | inr (execute, payload, same) ↦
          rw same
            (resume_directive-IsFinished text calls s m execute payload ours (rw same at fine))
    ]

    -- An agent with a state store has served a directive without an error, and what it had stored of
    -- the operation, if anything, was of the directive's instance. Whatever it serves from then on,
    -- a directive of the same operation and instance is not carried out: where no error comes up,
    -- a result is sent, and nothing else.
    pub executes_once :
        (calls later : ApplyCalls) (s t : Entries) (m again : DirectiveMessage)
        (executor other : Option Executor)
        → IsOurs text s m
        → (run true calls s m executor).error ≡ none
        → Served (run true calls s m executor).entries t
        → again.operation_uid ≡ m.operation_uid
        → again.instance_uid ≡ m.instance_uid
        → (executes (run true later t again other).effects ≡ false)
          × ((run true later t again other).error ≡ none
              → (cs : List Condition) × ((run true later t again other).effects
                  ≡ sent_result cs ∷ []))
    executes_once calls later s t m again executor other ours fine served same_operation
          same_instance =
        let h =
          Served-kept _ t m.operation_uid m.instance_uid
            (delivered-IsFinished calls s m executor ours fine) served in
        let h' : IsFinished text t again.operation_uid again.instance_uid =
          rw (same_operation, same_instance) h in
        elim (run_cases true later t again other) [
          | inl (e, same) ↦ rw same (refl, λ z. absurd (ground arith))
          | inr (execute, payload, same) ↦
              let (quiet, sends) = resume_again later t again execute payload h' in
              rw same (quiet, λ z. (h'.state.conditions, sends z))
        ]
