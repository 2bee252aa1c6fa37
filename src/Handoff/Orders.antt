-- ===== src/Handoff/Orders.antt =====
-- The orders that the gateway has validated, from their envelope to the result of the handoff.
use agent_embassy.Prelude.{
  ℕ, ◌<◌, String, ◌≡◌, refl, sym, subst, ap, ◌∙◌, true, false, Option, none, some, ◌∷◌, inl, inr,
  Option-cases,
}
use agent_embassy.Prelude.Dict.{get}
use agent_embassy.Prelude.Int.{ℤ, pos}
use agent_embassy.Python.Json.{Json, Body}
use agent_embassy.Python.Text.{is_empty, is_ascii}
use agent_embassy.Python.Fields.{text_up_to, positive_up_to}
use agent_embassy.Python.Fields.Read.{
  Within, InRange, Each, Each-some, text_up_to-Within, positive_up_to-InRange,
}
use agent_embassy.Verify.Action
use agent_embassy.Verify.Action.{Envelope, Mode, Result, ok, err}
use agent_embassy.Verify.Requests.{Tier3OrderRequest, order_request}
use agent_embassy.Verify.Orders.{handoff_envelope}
use agent_embassy.Verify.Network.{HandoffStatus, answered, parsed, parse_ok_body}
use agent_embassy.Agent.World
use agent_embassy.Agent.World.{Settings, Outcome, Post, executed}
use agent_embassy.Agent.Channels.{message, read_answer}
use agent_embassy.Agent.Execution
use agent_embassy.Agent.Execution.{Routing, route, execute_action}
use agent_embassy.Agent.Execution.Executed.{execute_action-executed}
use agent_embassy.Agent.Execution.Replay.{execute_action-stored}
use agent_embassy.Agent.Execution.Sound.{Answers, IsSound, execute_action-Answers}
use agent_embassy.Agent.Endpoints.{outcome}
use agent_embassy.Agent.Bodies.{post_body, answer_fields}
use agent_embassy.Handoff.{agent_action, envelope_fields}
use agent_embassy.Handoff.Understood.{IsSendable, answer-learned, post_body-sent}

pub record IsOrder (body : Tier3OrderRequest) : Type 0 where
  pub item : Within 200 body.item
  pub quantity : InRange 10000 body.quantity
  pub amount_cents : InRange 1000000 body.amount_cents

order_request-IsOrder :
    (item : String) (quantity amount : ℤ) → Each IsOrder (order_request item quantity amount)
unfolding order_request
order_request-IsOrder item quantity amount = elim (Option-cases (text_up_to 200 item)) [
  | inl bad ↦ rw (bad, order_request) tt
  | inr (i, fine) ↦ elim (Option-cases (positive_up_to 10000 quantity)) [
    | inl none_of ↦ rw (fine, none_of, order_request) tt
    | inr (q, some_of) ↦ elim (Option-cases (positive_up_to 1000000 amount)) [
      | inl free ↦ rw (fine, some_of, free, order_request) tt
      | inr (a, cost) ↦
          rw (fine, some_of, cost, order_request)
            (record {
              item = Each-some (Within 200) _ i (text_up_to-Within 200 item) fine;
              quantity =
                  Each-some (InRange 10000) _ q (positive_up_to-InRange 10000 quantity) some_of;
              amount_cents =
                  Each-some (InRange 1000000) _ a (positive_up_to-InRange 1000000 amount) cost;
            })
    ]
  ]
]

abbrev IsSendableResult : Result Envelope → Type 0
IsSendableResult (ok v) = IsSendable v
IsSendableResult (err e) = ⊥

-- The envelope of a validated order is within the bounds that the agent demands.
handoff_envelope-IsSendable :
    (id client : String) (body : Tier3OrderRequest) (mode : Mode) (limit used : ℕ)
    (approved_by : Option String) (w : Action.World) (v : Envelope)
    → IsOrder body
    → Within 64 id
    → Within 200 client
    → 0 < limit
    → 0 < w.store.tier3_window_seconds
    → (handoff_envelope id client body mode limit used approved_by w).0 ≡ ok v
    → IsSendable v
unfolding handoff_envelope
handoff_envelope-IsSendable id client body mode limit used approved_by w v fine named known granted
      window e =
    subst IsSendableResult e (record {
      action_type = refl;
      action_id = named;
      client_id = known;
      item = fine.item;
      quantity = fine.quantity;
      amount_cents = fine.amount_cents;
      granted = granted;
      window = window;
    })

-- The envelope carries the order, under its id and its client.
abbrev Carries : String → String → Tier3OrderRequest → Result Envelope → Type 0
Carries id client body (ok v) =
    (v.action_id ≡ id)
    × (v.client_id ≡ client)
    × (v.item ≡ body.item)
    × (v.quantity ≡ body.quantity)
    × (v.amount_cents ≡ body.amount_cents)
Carries id client body (err e) = ⊥

handoff_envelope-Carries :
    (id client : String) (body : Tier3OrderRequest) (mode : Mode) (limit used : ℕ)
    (approved_by : Option String) (w : Action.World) (v : Envelope)
    → (handoff_envelope id client body mode limit used approved_by w).0 ≡ ok v
    → Carries id client body (ok v)
unfolding handoff_envelope
handoff_envelope-Carries id client body mode limit used approved_by w v e =
    subst (Carries id client body) e (refl, refl, refl, refl, refl)

carried :
    {A : Type 0} (f : String → String → String → ℕ → ℕ → A) (id client : String)
    (body : Tier3OrderRequest) (v : Envelope)
    → Carries id client body (ok v)
    → f v.action_id v.client_id v.item v.quantity v.amount_cents
      ≡ f id client body.item body.quantity body.amount_cents
carried f id client body v (named, known, item, quantity, amount) =
    rw (named, known, item, quantity, amount) refl

-- The outcome of an action that was executed over `channel`.
abbrev pub executed_over : String → String → Option String → String → Outcome
executed_over id channel decided_by reference = record {
  action_id = id;
  status = executed;
  channel = some channel;
  decided_by = decided_by;
  reference = some reference;
}

-- For an order that the gateway has validated, with an id of 64 and a client of 200 characters at
-- most, a grant and a window that are not zero: when its envelope arrives with the agent's token,
-- which is ASCII, the id is new to the agent, the rules or the LLM route it to a channel and the stub
-- of that channel answers with a reference, the agent posts one message, the one of that channel for
-- this id, client, item, quantity and amount; it answers that the action was executed over that
-- channel under that reference, and stores that answer under the id; and the gateway reads the answer
-- as exactly that, never as unknown. Every stored result of the agent stays a complete answer, if all
-- were before. pydantic takes a JSON integer for an int and the time of the envelope for a float.
pub order-understood :
    (coerce : Json → Option ℤ) (coerce_float : Json → Option Json) (timestamp : ℕ → Json)
    → ((n : ℕ) → coerce (Json.int (pos n)) ≡ some (pos n))
    → ((n : ℕ) → coerce_float (timestamp n) ≡ some (timestamp n))
    → (item : String) (quantity amount : ℤ) (body : Tier3OrderRequest)
    → order_request item quantity amount ≡ some body
    → (id client : String) (mode : Mode) (limit used : ℕ) (approved_by : Option String)
      (gateway : Action.World) (v : Envelope)
    → Within 64 id
    → Within 200 client
    → 0 < limit
    → 0 < gateway.store.tier3_window_seconds
    → (handoff_envelope id client body mode limit used approved_by gateway).0 ≡ ok v
    → (settings : Settings) (prompt_of : Execution.Envelope → String)
      (token status_token detail : String) (w routed : World.World) (r : Routing)
      (channel reference : String) (m : Post)
    → is_empty token ≡ false
    → is_ascii token ≡ true
    → 0 < settings.result_map_max
    → IsSound w.results
    → get w.results id ≡ none
    → route settings prompt_of (agent_action v) w ≡ (r, routed)
    → r.channel ≡ some channel
    → message channel id client body.item body.quantity body.amount_cents ≡ some m
    → read_answer (routed.outside.stubs 0) ≡ (true, some reference)
    → (let (reply, after) =
          post_body coerce coerce_float settings prompt_of token status_token
            (some token)
            (envelope_fields timestamp v)
            w in
        let o = executed_over id channel r.decided_by reference in
        (reply ≡ outcome o)
        × (after.posted ≡ m ∷ w.posted)
        × (get after.results id ≡ some o)
        × (parse_ok_body (Body.json (Json.obj (answer_fields o detail))) id
            ≡ parsed (answered HandoffStatus.executed (some channel) r.decided_by (some reference)))
        × IsSound after.results)
order-understood coerce coerce_float timestamp takes_ints takes_times item quantity amount body
      valid id client mode limit used approved_by gateway v named known granted window sent settings
      prompt_of token status_token detail w routed r channel reference m shown plain room sound new
      routes chosen posts executes =
    let fine =
      handoff_envelope-IsSendable id client body mode limit used approved_by gateway v
        (Each-some IsOrder _ body (order_request-IsOrder item quantity amount) valid) named known
        granted window sent in
    let carries =
      handoff_envelope-Carries id client body mode limit used approved_by gateway v sent in
    let e = agent_action v in
    let (done, posted) =
      execute_action-executed settings prompt_of e w routed r channel reference m
        (ap (λ i. get w.results i) carries.0 ∙ new) routes chosen
        (carried (message channel) id client body v carries ∙ posts) executes in
    let stored = execute_action-stored settings prompt_of e w room in
    let (answers, still) = execute_action-Answers settings prompt_of e w sound in
    let o = executed_over id channel r.decided_by reference in
    let same = done ∙ ap (λ i. executed_over i channel r.decided_by reference) carries.0 in
    rw
      (post_body-sent coerce coerce_float timestamp takes_ints takes_times settings prompt_of token
        status_token v w shown plain fine)
      (
        ap outcome same,
        posted,
        ap (λ i. get (execute_action settings prompt_of e w).1.results i) (sym carries.0)
            ∙ (stored ∙ ap some same),
        answer-learned id o detail
            (subst (λ i. Answers i o) carries.0 (subst (Answers v.action_id) same answers)),
        still,
      )
