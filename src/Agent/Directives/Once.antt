-- ===== src/Agent/Directives/Once.antt =====
-- Upserts of a directive's state (`upsert`), and what a finished directive has stored.
use mspsql.Base.{
  ℕ, String, true, false, ◌≡◌, refl, ◌∙◌, ◌⊎◌, inl, inr, some, lookup, insert, lookup-insert,
  Option-cases, Bool-cases, eq_iff, arith, ◌==◌, ◌||◌,
}
use mspsql.Agent.Directives.{
  DirectiveState, DirectiveEntry, Entries, StateText, entry_for, UpsertCalls, is_terminal,
  decode_state, upsert,
}

module _ (text : StateText) where
  -- An upsert that writes does so over no terminal entry; one that succeeds without writing has found one.
  pub upsert_cases :
      (calls : UpsertCalls) (entries : Entries) (state : DirectiveState) (now : ℕ)
      → (((upsert text calls entries state now).0 ≡ entries)
          × ((upsert text calls entries state now).1 ≡ true
              → (e : DirectiveEntry) × (lookup (text.name_of state.operation_uid) entries ≡ some e)
                × (is_terminal e.phase ≡ true)))
        ⊎ ((j : String) × (text.marshal_conditions state.conditions ≡ some j)
            × ((upsert text calls entries state now).0
                ≡ insert (text.name_of state.operation_uid) (entry_for state j now) entries)
            × ((e : DirectiveEntry)
                → lookup (text.name_of state.operation_uid) entries ≡ some e
                → is_terminal e.phase ≡ false))
  unfolding upsert
  upsert_cases calls entries state now =
      elim (Option-cases (text.marshal_conditions state.conditions)) [
        | inl unwritten ↦ inl (rw (unwritten, upsert) refl, λ z. absurd (ground arith))
        | inr (j, written) ↦
            elim (Option-cases (lookup (text.name_of state.operation_uid) entries)) [
              | inl fresh ↦ elim (Bool-cases (calls.get_fails || calls.create_fails)) [
                | inl failing ↦ inl (ground arith, λ z. absurd (ground arith))
                | inr fine ↦ inr (j, written, ground arith, λ e found. absurd (ground arith))
              ]
              | inr (e, found) ↦ elim (Bool-cases (is_terminal e.phase)) [
                | inl over ↦ inl (ground arith, λ z. (e, found, over))
                | inr open_yet ↦ elim (Bool-cases (calls.get_fails || calls.update_fails)) [
                  | inl failing ↦ inl (ground arith, λ z. absurd (ground arith))
                  | inr fine ↦ inr (j, written, ground arith, λ d found'. ground arith)
                ]
              ]
            ]
      ]

  pub upsert_kept :
      (calls : UpsertCalls) (entries : Entries) (state : DirectiveState) (now : ℕ) (name : String)
      (entry : DirectiveEntry)
      → lookup name entries ≡ some entry
      → is_terminal entry.phase ≡ true
      → lookup name (upsert text calls entries state now).0 ≡ some entry
  upsert_kept calls entries state now name entry found over =
      elim (upsert_cases calls entries state now) [
        | inl (same, _) ↦ rw same found
        | inr (j, _, written, open_yet) ↦ rw written (
            lookup-insert (text.name_of state.operation_uid) name (entry_for state j now) entries
            ∙ elim (Bool-cases (text.name_of state.operation_uid == name)) [
              | inl same ↦ absurd (ground (arith, open_yet entry (rw ((eq_iff _ _).0 same) found)))
              | inr differs ↦ rw differs found
            ])
      ]

  pub decode_state-entry_for :
      (state : DirectiveState) (j : String) (now : ℕ)
      → text.marshal_conditions state.conditions ≡ some j
      → decode_state text (entry_for state j now) ≡ some state
  unfolding decode_state
  decode_state-entry_for state j now written =
      rw
        (
          text.marshal-named state.conditions j written,
          text.unmarshal-marshal state.conditions j written,
        )
        refl

  -- The directive of an operation has ended, for an instance.
  pub record IsFinished (entries : Entries) (operation_uid instance_uid : String) : Type 0 where
    pub entry : DirectiveEntry
    pub found : lookup (text.name_of operation_uid) entries ≡ some entry
    pub over : is_terminal entry.phase ≡ true
    pub state : DirectiveState
    pub decoded : decode_state text entry ≡ some state
    pub instance_of : state.instance_uid ≡ instance_uid
    pub phase_of : state.phase ≡ entry.phase
