-- ===== src/Handoff/Understood.antt =====
-- The agent understands what the gateway sends, and the gateway what the agent answers.
use agent_embassy.Prelude.{
  ℕ, zero, suc, ◌<◌, String, ◌≡◌, refl, ap, ◌∙◌, true, false, Option, none, some, arith, str_eq,
  str_eq_refl, str_eq_iff,
}
use agent_embassy.Prelude.Int.{ℤ, pos}
use agent_embassy.Python.Json.{Json, Body, get_field, as_str}
use agent_embassy.Python.Text.{is_empty, is_ascii}
use agent_embassy.Python.Fields.{bind}
use agent_embassy.Python.Fields.Read.{Within, InRange, text_field-read, number_field-read}
use agent_embassy.Verify.Action.{Envelope, Mode}
use agent_embassy.Verify.Network.{
  answered, parsed, parse_ok_body, parse_fields, checked, valid_status,
}
use agent_embassy.Agent.World
use agent_embassy.Agent.World.{Outcome, Status, executed, failed, Settings}
use agent_embassy.Agent.Execution
use agent_embassy.Agent.Execution.{execute_action}
use agent_embassy.Agent.Execution.Sound.{
  rules_decided, llm_decided, Complete, refused, carried_out, Answers,
}
use agent_embassy.Agent.Endpoints.{outcome, refusal, post_action, execute_valid}
use agent_embassy.Agent.Bodies.{
  ActionEnvelope, bounded_below, positive, read_mandate, read_action_envelope, read_order_payload,
  read_payload, to_envelope, post_valid, post_body, answer_fields, or_null, status_text,
  optional_text, valid_mode, valid_type,
}
use agent_embassy.Handoff.{
  mode_text, payload_fields, mandate_fields, envelope_fields, agent_action, handoff_status, learned,
}

-- An envelope within the bounds that the agent demands.
pub record IsSendable (v : Envelope) : Type 0 where
  pub action_type : v.action_type ≡ "order.place"
  pub action_id : Within 64 v.action_id
  pub client_id : Within 200 v.client_id
  pub item : Within 200 v.item
  pub quantity : InRange 10000 v.quantity
  pub amount_cents : InRange 1000000 v.amount_cents
  pub granted : 0 < v.weekly_limit_cents
  pub window : 0 < v.window_seconds

-- The gateway reads an answer as what it is.
read_text : (o : Option String) → as_str (some (or_null o)) ≡ o
read_text none = refl
read_text (some s) = refl

read_status :
    (s : Status) (channel decided_by reference : Option String) (detail : String)
    → Complete s channel decided_by reference
    → checked
        (handoff_status s)
        (some (or_null channel))
        (some (or_null decided_by))
        (some (or_null reference))
      ≡ parsed (answered (handoff_status s) channel decided_by reference)
unfolding checked
read_status failed channel decided_by reference detail refused =
    rw (read_text channel, read_text decided_by, read_text reference)
read_status executed none decided_by reference detail x = elim x [ ]
read_status executed (some channel) decided_by none detail x = elim x [ ]
read_status executed (some channel) _ (some reference) detail (carried_out rules_decided full) =
    rw full
read_status executed (some channel) _ (some reference) detail (carried_out llm_decided full) =
    rw full

status-known : (s : Status) → valid_status (some (status_text s)) ≡ some (handoff_status s)
unfolding valid_status
status-known executed = refl
status-known failed = refl

pub answer-learned :
    (id : String) (o : Outcome) (detail : String)
    → Answers id o
    → parse_ok_body (Body.json (Json.obj (answer_fields o detail))) id ≡ parsed (learned o)
unfolding parse_ok_body parse_fields answer_fields get_field
answer-learned id o detail known =
    let named : str_eq o.action_id id ≡ true = (str_eq_iff o.action_id id).1 known.own in
    rw (named, status-known o.status)
      (read_status o.status o.channel o.decided_by o.reference detail known.complete)

positive-pos : (n : ℕ) → 0 < n → positive (pos n) ≡ some n
positive-pos zero h = absurd (omega arith)
positive-pos (suc n) h = refl

type-valid : (t : String) → t ≡ "order.place" → valid_type t ≡ some t
type-valid t h = rw h

token-accepted :
    (token : String)
    → is_empty token ≡ false
    → is_ascii token ≡ true
    → refusal token (some token) ≡ none
unfolding refusal
token-accepted token shown plain = rw (shown, plain, str_eq_refl token)

mode-valid : (m : Mode) → valid_mode (mode_text m) ≡ some (mode_text m)
mode-valid Mode.within_mandate = refl
mode-valid Mode.approved_by_human = refl

approver-read : (o : Option String) → optional_text (some (or_null o)) ≡ some o
approver-read none = refl
approver-read (some s) = refl

abbrev as_read : Envelope → ActionEnvelope
as_read v = record {
  action_id = v.action_id;
  action_type = v.action_type;
  client_id = v.client_id;
  payload = payload_fields v;
  mandate = record {
    mode = mode_text v.mode;
    weekly_limit_cents = v.weekly_limit_cents;
    used_cents = v.used_cents;
    remaining_cents = v.remaining_cents;
    window_seconds = v.window_seconds;
    approved_by = v.approved_by;
  };
}

module _ (coerce : Json → Option ℤ) (coerce_float : Json → Option Json) (timestamp : ℕ → Json)
    (takes_ints : (n : ℕ) → coerce (Json.int (pos n)) ≡ some (pos n))
    (takes_times : (n : ℕ) → coerce_float (timestamp n) ≡ some (timestamp n)) where
  read_payload-sent :
      (v : Envelope)
      → IsSendable v
      → read_order_payload coerce coerce_float (payload_fields v)
        ≡ some (record { item = v.item; quantity = v.quantity; amount_cents = v.amount_cents })
  unfolding read_order_payload payload_fields get_field
  read_payload-sent v fine =
      let f = payload_fields v in
      rw (
        text_field-read f "item" 200 v.item refl fine.item,
        number_field-read coerce f "quantity" 10000 v.quantity (takes_ints v.quantity) refl
            fine.quantity,
        number_field-read coerce f "amount_cents" 1000000 v.amount_cents (takes_ints v.amount_cents)
            refl fine.amount_cents,
      )

  read_mandate-sent :
      (v : Envelope)
      → IsSendable v
      → read_mandate coerce coerce_float (mandate_fields v)
        ≡ some (record {
          mode = mode_text v.mode;
          weekly_limit_cents = v.weekly_limit_cents;
          used_cents = v.used_cents;
          remaining_cents = v.remaining_cents;
          window_seconds = v.window_seconds;
          approved_by = v.approved_by;
        })
  unfolding read_mandate mandate_fields get_field bounded_below
  read_mandate-sent v fine = rw (
    mode-valid v.mode,
    takes_ints v.weekly_limit_cents,
    positive-pos v.weekly_limit_cents fine.granted,
    takes_ints v.used_cents,
    takes_ints v.remaining_cents,
    takes_ints v.window_seconds,
    positive-pos v.window_seconds fine.window,
    approver-read v.approved_by,
  )

  read_action_envelope-sent :
      (v : Envelope)
      → IsSendable v
      → read_action_envelope coerce coerce_float (envelope_fields timestamp v) ≡ some (as_read v)
  unfolding read_action_envelope envelope_fields get_field
  read_action_envelope-sent v fine =
      let f = envelope_fields timestamp v in
      rw (
        text_field-read f "action_id" 64 v.action_id refl fine.action_id,
        type-valid v.action_type fine.action_type,
        text_field-read f "client_id" 200 v.client_id refl fine.client_id,
        takes_times v.requested_at,
        read_mandate-sent v fine,
      )

  -- What the endpoint does with the envelope.
  pub post_body-sent :
      (settings : Settings) (prompt_of : Execution.Envelope → String) (token status_token : String)
      (v : Envelope) (w : World.World)
      → is_empty token ≡ false
      → is_ascii token ≡ true
      → IsSendable v
      → post_body coerce coerce_float settings prompt_of token status_token
          (some token)
          (envelope_fields timestamp v)
          w
        ≡ (let (o, after) = execute_action settings prompt_of (agent_action v) w in
            (outcome o, after))
  unfolding post_body post_valid read_payload to_envelope post_action execute_valid
  post_body-sent settings prompt_of token status_token v w shown plain fine =
      ap
        (λ a. post_valid coerce coerce_float settings prompt_of token status_token (some token) a w)
        (read_action_envelope-sent v fine)
      ∙ ap
          (λ p.
            post_action settings prompt_of token status_token (some token)
              (bind p λ q. some (to_envelope coerce coerce_float (as_read v) q)) w)
          (read_payload-sent v fine)
      ∙ rw (token-accepted token shown plain, post_action)
