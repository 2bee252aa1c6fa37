-- ===== src/Handoff.antt =====
-- The handoff of an action as JSON: what verify/main.py sends (`_handoff_envelope`) and what
-- verify/agent_handoff.py makes of the agent's answer.
pub mod Understood
pub mod Orders
mod Tests
use agent_embassy.Prelude.{ℕ, String}
use agent_embassy.Prelude.Int.{pos}
use agent_embassy.Python.Json.{Json, Fields, field, end}
use agent_embassy.Verify.Action.{Envelope, Mode}
use agent_embassy.Verify.Network.{HandoffStatus, HandoffResult, answered}
use agent_embassy.Agent.World.{Outcome, Status, executed, failed}
use agent_embassy.Agent.Execution
use agent_embassy.Agent.Bodies.{or_null}

abbrev pub mode_text : Mode → String
mode_text Mode.within_mandate = "within_mandate"
mode_text Mode.approved_by_human = "approved_by_human"

-- The objects of the envelope.
unfoldable pub payload_fields : Envelope → Fields
payload_fields v = field "item" (Json.str v.item) (
    field "quantity" (Json.int (pos v.quantity))
      (field "amount_cents" (Json.int (pos v.amount_cents)) end))

unfoldable pub mandate_fields : Envelope → Fields
mandate_fields v = field "mode" (Json.str (mode_text v.mode)) (
    field "weekly_limit_cents" (Json.int (pos v.weekly_limit_cents)) (
      field "used_cents" (Json.int (pos v.used_cents)) (
        field "remaining_cents" (Json.int (pos v.remaining_cents)) (
          field "window_seconds" (Json.int (pos v.window_seconds))
            (field "approved_by" (or_null v.approved_by) end)))))

-- The body of the request; `timestamp` is the JSON number of a clock reading.
unfoldable pub envelope_fields : (ℕ → Json) → Envelope → Fields
envelope_fields timestamp v = field "action_id" (Json.str v.action_id) (
    field "action_type" (Json.str v.action_type) (
      field "client_id" (Json.str v.client_id) (
        field "requested_at" (timestamp v.requested_at) (
          field "payload" (Json.obj (payload_fields v))
            (field "mandate" (Json.obj (mandate_fields v)) end)))))

-- The action that the agent reads from it.
abbrev pub agent_action : Envelope → Execution.Envelope
agent_action v = record {
  action_id = v.action_id;
  action_type = v.action_type;
  client_id = v.client_id;
  item = v.item;
  quantity = v.quantity;
  amount_cents = v.amount_cents;
  mode = mode_text v.mode;
}

abbrev pub handoff_status : Status → HandoffStatus
handoff_status executed = HandoffStatus.executed
handoff_status failed = HandoffStatus.failed

-- What the gateway is to learn from an answer.
abbrev pub learned : Outcome → HandoffResult
learned o = answered (handoff_status o.status) o.channel o.decided_by o.reference
