-- ===== src/Agent/Bodies.antt =====
-- agent/main.py: the bodies of requests (`Mandate`, `ActionEnvelope`, `OrderPayload`) as pydantic
-- validates them, and the body of an answer.
pub mod Bounds
use agent_embassy.Prelude.{
  ℕ, zero, suc, String, Bool, Option, none, some, if◌then◌else◌, str_eq, ◌||◌,
}
use agent_embassy.Prelude.Int.{ℤ, pos, negsuc}
use agent_embassy.Python.Json.{Json, Fields, field, end, get_field, as_str}
use agent_embassy.Python.Fields.{bind, text_field, number_field}
use agent_embassy.Agent.World.{Outcome, Status, executed, failed, Settings, State, pure}
use agent_embassy.Agent.Execution.{Envelope}
use agent_embassy.Agent.Endpoints.{Answer, refused, post_action}

-- `Field(gt=0)`, `Field(ge=0)`
abbrev pub positive : ℤ → Option ℕ
positive (pos zero) = none
positive (pos (suc n)) = some (suc n)
positive (negsuc n) = none

abbrev pub not_negative : ℤ → Option ℕ
not_negative (pos n) = some n
not_negative (negsuc n) = none

-- `str | None`; a missing field has the default `None`.
abbrev pub optional_text : Option Json → Option (Option String)
optional_text none = some none
optional_text (some Json.null) = some none
optional_text (some (Json.str s)) = some (some s)
optional_text (some _) = none

abbrev pub as_dict : Option Json → Option Fields
as_dict (some (Json.obj fields)) = some fields
as_dict _ = none

abbrev pub valid_mode : String → Option String
valid_mode s = if str_eq s "within_mandate" || str_eq s "approved_by_human" then some s else none

abbrev pub valid_type : String → Option String
valid_type s = if str_eq s "order.place" then some s else none

-- `Mandate`
pub record Mandate : Type 0 where
  pub mode : String
  pub weekly_limit_cents : ℕ
  pub used_cents : ℕ
  pub remaining_cents : ℕ
  pub window_seconds : ℕ
  pub approved_by : Option String

-- `ActionEnvelope`, without the time of the request, which nothing reads.
pub record ActionEnvelope : Type 0 where
  pub action_id : String
  pub action_type : String
  pub client_id : String
  pub payload : Fields
  pub mandate : Mandate

-- `OrderPayload`
pub record OrderPayload : Type 0 where
  pub item : String
  pub quantity : ℕ
  pub amount_cents : ℕ

-- What pydantic makes of a value for a field of type `int`, and for one of type `float`.
module _ (coerce : Json → Option ℤ) (coerce_float : Json → Option Json) where
  unfoldable pub bounded_below : (ℤ → Option ℕ) → Fields → String → Option ℕ
  bounded_below bound fields key = bind (get_field fields key) λ v. bind (coerce v) bound

  unfoldable pub read_mandate : Fields → Option Mandate
  unfolding bounded_below
  read_mandate f = bind (bind (as_str (get_field f "mode")) valid_mode) λ mode.
      bind (bounded_below positive f "weekly_limit_cents") λ limit.
        bind (bounded_below not_negative f "used_cents") λ used.
          bind (bounded_below not_negative f "remaining_cents") λ remaining.
            bind (bounded_below positive f "window_seconds") λ window.
              bind (optional_text (get_field f "approved_by")) λ approved_by. some (record {
                mode = mode;
                weekly_limit_cents = limit;
                used_cents = used;
                remaining_cents = remaining;
                window_seconds = window;
                approved_by = approved_by;
              })

  unfoldable pub read_action_envelope : Fields → Option ActionEnvelope
  unfolding read_mandate
  read_action_envelope f = bind (text_field f "action_id" 64) λ action_id.
      bind (bind (as_str (get_field f "action_type")) valid_type) λ action_type.
        bind (text_field f "client_id" 200) λ client_id.
          bind (bind (get_field f "requested_at") coerce_float) λ requested_at.
            bind (as_dict (get_field f "payload")) λ payload.
              bind (bind (as_dict (get_field f "mandate")) read_mandate) λ mandate. some (record {
                action_id = action_id;
                action_type = action_type;
                client_id = client_id;
                payload = payload;
                mandate = mandate;
              })

  unfoldable pub read_order_payload : Fields → Option OrderPayload
  read_order_payload f = bind (text_field f "item" 200) λ item.
      bind (number_field coerce f "quantity" 10000) λ quantity.
        bind (number_field coerce f "amount_cents" 1000000) λ amount_cents.
          some (record { item = item; quantity = quantity; amount_cents = amount_cents })

  -- What the execution reads of the two.
  unfoldable pub to_envelope : ActionEnvelope → OrderPayload → Envelope
  to_envelope a p = record {
    action_id = a.action_id;
    action_type = a.action_type;
    client_id = a.client_id;
    item = p.item;
    quantity = p.quantity;
    amount_cents = p.amount_cents;
    mode = a.mandate.mode;
  }

  unfoldable pub read_payload : ActionEnvelope → Option Envelope
  unfolding read_order_payload to_envelope
  read_payload a = bind (read_order_payload a.payload) λ p. some (to_envelope a p)

  -- The action of a body that is valid as a whole.
  unfoldable pub read_action : Fields → Option Envelope
  unfolding read_action_envelope read_payload
  read_action f = bind (read_action_envelope f) read_payload

  -- The endpoint: the framework validates the envelope before the handler reads the token.
  unfoldable pub post_valid :
      Settings
      → (Envelope → String)
      → (agent_token status_token : String) → Option String
      → Option ActionEnvelope
      → State Answer
  unfolding read_payload
  post_valid settings prompt_of agent_token status_token given none = pure (refused 422)
  post_valid settings prompt_of agent_token status_token given (some a) =
      post_action settings prompt_of agent_token status_token given (read_payload a)

  unfoldable pub post_body :
      Settings
      → (Envelope → String)
      → (agent_token status_token : String) → Option String
      → Fields
      → State Answer
  unfolding read_action_envelope post_valid
  post_body settings prompt_of agent_token status_token given body =
      post_valid settings prompt_of agent_token status_token given (read_action_envelope body)

abbrev pub or_null : Option String → Json
or_null none = Json.null
or_null (some s) = Json.str s

abbrev pub status_text : Status → String
status_text executed = "executed"
status_text failed = "failed"

-- The body that `_decide_and_execute` returns; `detail` is its text for people.
unfoldable pub answer_fields : Outcome → String → Fields
answer_fields o detail = field "action_id" (Json.str o.action_id) (
    field "status" (Json.str (status_text o.status)) (
      field "channel" (or_null o.channel) (
        field "decided_by" (or_null o.decided_by)
          (field "reference" (or_null o.reference) (field "detail" (Json.str detail) end)))))
