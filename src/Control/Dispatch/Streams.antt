-- ===== src/Control/Dispatch/Streams.antt =====
-- The messages of a stream over any rounds of `sendPlans`.
use mspsql.Base.{
  ℕ, ◌+◌, ◌<◌, ℤ, String, false, ◌≡◌, refl, ap, sym, subst, ◌∙◌, inl, inr, List, [], ◌∷◌, leb,
  contains, select, Member, at_head, in_tail, insert, lookup-insert, Bool-cases, arith, ◌==◌,
  if◌then◌else◌,
}
use mspsql.Plan.{Bytes, Crypto, Codec, SitePlan}
use mspsql.Directive.{Payload}
use mspsql.Control.{
  ConfigMap, Hub, HubCalls, config_map, has_label, Outcome-cases, HubText, value_of,
}
use mspsql.Control.Dispatch.{
  HubMessage, plan_message, directive_message, certificate_message, Stream, then_go_keeps,
  each_members, is_plan_for, Step, skipped, sent_one, stopped, send_plan, sent_revision, push_plan,
  push_directive, send_one_directive, send_listed, send_directives, max_directives_per_sync, sync,
  ensure_site_active,
}
use mspsql.Control.Dispatch.Steps.{send_plan-SendsPlan, send_one-SendsDirective}

-- The operations of the directives on a stream, the newest first.
abbrev pub operations : List HubMessage → List String
operations [] = []
operations (directive_message uid instance_uid type json ∷ messages) = uid ∷ operations messages
operations (plan_message uid revision json ∷ messages) = operations messages
operations (certificate_message id certificate ca not_after ∷ messages) = operations messages

abbrev pub AllDifferent : List String → Type 0
AllDifferent [] = Unit
AllDifferent (s ∷ xs) = (contains xs s ≡ false) × AllDifferent xs

-- The revision of the newest plan of an instance, 0 for none.
abbrev pub newest : List HubMessage → String → ℕ
newest [] uid = 0
newest (plan_message other revision json ∷ messages) uid =
    let rest = newest messages uid in if other == uid then revision else rest
newest (directive_message operation other type json ∷ messages) uid = newest messages uid
newest (certificate_message id certificate ca not_after ∷ messages) uid = newest messages uid

-- Each plan has a higher revision than the ones of its instance before it.
abbrev pub IsIncreasing : List HubMessage → Type 0
IsIncreasing [] = Unit
IsIncreasing (plan_message uid revision json ∷ messages) =
    (newest messages uid < revision) × IsIncreasing messages
IsIncreasing (directive_message operation other type json ∷ messages) = IsIncreasing messages
IsIncreasing (certificate_message id certificate ca not_after ∷ messages) = IsIncreasing messages

-- A stream whose two maps are those of its messages, none sent twice or out of order.
pub record IsOrderly (st : Stream) : Type 0 where
  pub remembered : st.sent_directives ≡ operations st.outbox
  pub once : AllDifferent (operations st.outbox)
  pub latest : (uid : String) → sent_revision st.sent_plans uid ≡ newest st.outbox uid
  pub increasing : IsIncreasing st.outbox

sent_revision-insert :
    (key uid : String) (r : ℕ) (sent : List (String × ℕ))
    → sent_revision (insert key r sent) uid ≡ (if key == uid then r else sent_revision sent uid)
sent_revision-insert key uid r sent =
    let looked = lookup-insert key uid r sent in ground (arith, looked)

module _ (text : HubText) (crypto : Crypto) (plans : Codec SitePlan)
    (payloads : Codec Payload) where
  module _ (P : Stream → Type 0) (hub : Hub) (calls : HubCalls) (site_name site_uid : String)
      (now : ℕ)
      (turn : (c : ConfigMap) (st : Stream)
        → Member c (select (has_label "multisite-postgres.dev/directive") hub.config_maps)
        → P st
        → P
            (send_one_directive text crypto plans payloads hub calls site_name site_uid now c
              st).0) where
    -- The stream and the outcome of a turn.
    abbrev turned : ConfigMap → Stream → Stream × Step
    turned c st =
        send_one_directive text crypto plans payloads hub calls site_name site_uid now c st

    send_listed_keeps :
        (limit count : ℕ) (cs : List ConfigMap) (st : Stream)
        → ((c : ConfigMap)
            → Member c cs
            → Member c (select (has_label "multisite-postgres.dev/directive") hub.config_maps))
        → P st
        → P
            (send_listed text crypto plans payloads hub calls site_name site_uid now limit count cs
              st).0
    unfolding send_listed
    send_listed_keeps limit count [] st inside h = h
    send_listed_keeps limit count (c ∷ cs) st inside h =
        by_step (turned c st).1 refl (turn c st (inside c at_head) h)
          (λ n k. send_listed_keeps limit n cs (turned c st).0 (λ d m. inside d (in_tail m)) k)
      where
        by_step :
            (step : Step)
            → (turned c st).1 ≡ step
            → P (turned c st).0
            → ((n : ℕ)
                → P (turned c st).0
                → P
                    (send_listed text crypto plans payloads hub calls site_name site_uid now limit n
                      cs
                      (turned c st).0).0)
            → P
                (send_listed text crypto plans payloads hub calls site_name site_uid now limit count
                  (c ∷ cs)
                  st).0
        by_step (stopped e) h k rest = rw (h, send_listed) k
        by_step skipped h k rest = rw (h, send_listed) (rest count k)
        by_step sent_one h k rest = elim (Bool-cases (leb limit (count + 1))) [
          | inl full ↦ rw (h, send_listed, full) k
          | inr more ↦ rw (h, send_listed, more) (rest (count + 1) k)
        ]

    send_directives_keeps :
        (configured : ℤ) (st : Stream)
        → P st
        → P
            (send_directives text crypto plans payloads hub calls site_name site_uid now configured
              st).0
    unfolding send_directives
    send_directives_keeps configured st h = elim (Bool-cases (calls.list_fails config_map)) [
      | inl fails ↦ rw fails h
      | inr listed ↦
          rw listed (send_listed_keeps (max_directives_per_sync configured) 0 _ st (λ c m. m) h)
    ]

    pub sync_keeps :
        ((c : ConfigMap) (st : Stream)
          → Member c (select (is_plan_for text crypto plans payloads site_uid) hub.config_maps)
          → P st
          → P (send_plan text crypto plans payloads calls c st).0)
        → (configured : ℤ) (st : Stream) → P st
        → P (sync text crypto plans payloads hub calls site_name site_uid now configured st).0
    unfolding sync
    sync_keeps plan_turn configured st h =
        elim (Outcome-cases (ensure_site_active hub calls site_name site_uid)) [
          | inl (e, refused) ↦ rw (refused, sync) h
          | inr (ok, active) ↦ elim (Bool-cases (calls.list_fails config_map)) [
            | inl fails ↦ rw (active, sync, fails) h
            | inr listed ↦
                rw (active, sync, listed)
                  (then_go_keeps P _ _
                    (each_members P (send_plan text crypto plans payloads calls) _ plan_turn _ st
                      (λ c m. m) h)
                    (send_directives_keeps configured))
          ]
        ]

  push_plan-IsOrderly :
      (st : Stream) (p : SitePlan) (encoded : Bytes)
      → leb p.revision (sent_revision st.sent_plans p.instance_uid) ≡ false
      → IsOrderly st
      → IsOrderly (push_plan st p encoded)
  push_plan-IsOrderly st p encoded newer h = record {
    remembered = h.remembered;
    once = h.once;
    latest = λ uid.
        sent_revision-insert p.instance_uid uid p.revision st.sent_plans
        ∙ elim (Bool-cases (p.instance_uid == uid)) [
          | inl same ↦ rw same refl
          | inr other ↦ rw other (h.latest uid)
        ];
    increasing = (ground (arith, newer, h.latest p.instance_uid), h.increasing);
  }

  send_plan-IsOrderly :
      (calls : HubCalls) (c : ConfigMap) (st : Stream)
      → IsOrderly st
      → IsOrderly (send_plan text crypto plans payloads calls c st).0
  send_plan-IsOrderly calls c st h =
      elim (send_plan-SendsPlan text crypto plans payloads calls c st) [
        | inl same ↦ subst IsOrderly (sym same) h
        | inr s ↦ subst IsOrderly (sym s.after) (push_plan-IsOrderly st s.plan s.encoded s.newer h)
      ]

  push_directive-IsOrderly :
      (st : Stream) (operation instance_uid type : String) (json : Bytes)
      → contains st.sent_directives operation ≡ false
      → IsOrderly st
      → IsOrderly (push_directive st (directive_message operation instance_uid type json) operation)
  push_directive-IsOrderly st operation instance_uid type json fresh h = record {
    remembered = ap (λ (xs : List String). operation ∷ xs) h.remembered;
    once = (rw (h.remembered) at fresh, h.once);
    latest = h.latest;
    increasing = h.increasing;
  }

  send_one-IsOrderly :
      (hub : Hub) (calls : HubCalls) (site_name site_uid : String) (now : ℕ) (c : ConfigMap)
      (st : Stream)
      → IsOrderly st
      → IsOrderly
          (send_one_directive text crypto plans payloads hub calls site_name site_uid now c st).0
  send_one-IsOrderly hub calls site_name site_uid now c st h =
      elim (send_one-SendsDirective text crypto plans payloads hub calls site_name site_uid now c
        st) [
          | inl same ↦ subst IsOrderly (sym same) h
          | inr s ↦ subst IsOrderly (sym s.after) (
              push_directive-IsOrderly st (value_of c "operationUID") s.of_instance.meta.uid
                (value_of c "type") s.encoded s.fresh h)
        ]

  -- A round: what is stored then, which calls fail, the time, and the configured limit.
  unfoldable pub rounds : String → String → List (Hub × HubCalls × ℕ × ℤ) → Stream → Stream
  unfolding sync
  rounds site_name site_uid [] st = st
  rounds site_name site_uid ((hub, calls, now, configured) ∷ rest) st =
      rounds site_name site_uid rest
        (sync text crypto plans payloads hub calls site_name site_uid now configured st).0

  -- On a stream in order, such as an empty one, whatever is stored at each round and whichever calls
  -- fail, each plan
  -- has a higher revision than the plans of its instance that were sent before it, and no operation's
  -- directive is sent twice.
  pub rounds-IsOrderly :
      (site_name site_uid : String) (rs : List (Hub × HubCalls × ℕ × ℤ)) (st : Stream)
      → IsOrderly st
      → IsOrderly (rounds site_name site_uid rs st)
  unfolding rounds
  rounds-IsOrderly site_name site_uid [] st h = h
  rounds-IsOrderly site_name site_uid ((hub, calls, now, configured) ∷ rest) st h =
      rounds-IsOrderly site_name site_uid rest _ (
        sync_keeps IsOrderly hub calls site_name site_uid now
          (λ c s m. send_one-IsOrderly hub calls site_name site_uid now c s)
          (λ c s m. send_plan-IsOrderly calls c s) configured st h)
