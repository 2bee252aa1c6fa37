-- ===== src/Agent/Channels.antt =====
-- agent/channels.py: the dispatch of an action to one stub channel.
pub mod Texts
use agent_embassy.Prelude.{
  ℕ, String, Bool, true, false, Option, none, some, ◌∷◌, if◌then◌else◌, str_eq,
}
use agent_embassy.Prelude.Int.{pos}
use agent_embassy.Python.Json.{Json, Body, Fields, end, field, get_field, as_str}
use agent_embassy.Python.Text.{is_empty, decimal, euros, ◌+++◌}
use agent_embassy.Agent.World.{Post, State, pure, rest}

-- `isinstance(reference, str) and reference`
abbrev pub accepted_reference : Option String → Bool × Option String
accepted_reference none = (false, none)
accepted_reference (some reference) =
    if is_empty reference then (false, none) else (true, some reference)

-- What `_post` reads from the answer; every exception counts as not executed.
unfoldable pub read_answer : Option Body → Bool × Option String
unfolding get_field
read_answer (some (Body.json (Json.obj fields))) =
    accepted_reference (as_str (get_field fields "reference"))
read_answer _ = (false, none)

-- `_post`
unfoldable pub post : Post → State (Bool × Option String)
unfolding read_answer
post message w = (
  read_answer (w.outside.stubs 0),
  record w {
    outside = record w.outside { stubs = rest w.outside.stubs };
    posted = message ∷ w.posted;
  },
)

-- The three payloads.
unfoldable pub erp_order : String → String → String → ℕ → ℕ → Fields
erp_order action_id client_id item quantity amount_cents = field "action_id" (Json.str action_id) (
    field "client_id" (Json.str client_id) (
      field "item" (Json.str item) (
        field "quantity" (Json.int (pos quantity))
          (field "amount_cents" (Json.int (pos amount_cents)) end))))

unfoldable pub order_line : String → ℕ → ℕ → String
order_line item quantity amount_cents =
    decimal quantity +++ " x " +++ item +++ " for EUR " +++ euros amount_cents

unfoldable pub order_title : String → String → String
order_title action_id client_id = "Order " +++ action_id +++ " from " +++ client_id

unfoldable pub slack_text : String → String → String → ℕ → ℕ → String
slack_text action_id client_id item quantity amount_cents =
    order_title action_id client_id
    +++ ": "
    +++ order_line item quantity amount_cents
    +++ " -- needs manual handling"

unfoldable pub slack_message : String → String → Fields
slack_message action_id text =
    field "action_id" (Json.str action_id) (field "text" (Json.str text) end)

unfoldable pub email : String → String → String → String → Fields
email action_id to subject body = field "action_id" (Json.str action_id) (
    field "to" (Json.str to)
      (field "subject" (Json.str subject) (field "body" (Json.str body) end)))

-- What `execute` posts for a channel; there is nothing to post to an unknown one.
unfoldable pub message : String → String → String → String → ℕ → ℕ → Option Post
message channel action_id client_id item quantity amount_cents =
    if str_eq channel "mock_erp"
    then some (record {
      path = "/mock-erp/orders";
      payload = erp_order action_id client_id item quantity amount_cents;
    })
    else if str_eq channel "slack_stub"
    then some (record {
      path = "/slack/webhook";
      payload = slack_message action_id (slack_text action_id client_id item quantity amount_cents);
    })
    else if str_eq channel "email_stub"
    then some (record {
      path = "/email/send";
      payload =
          email action_id "operations@example.invalid" (order_title action_id client_id)
            (order_line item quantity amount_cents);
    })
    else none

unfoldable pub send : Option Post → State (Bool × Option String)
unfolding post
send none = pure (false, none)
send (some m) = post m

-- `execute`
unfoldable pub execute : String → String → String → String → ℕ → ℕ → State (Bool × Option String)
execute channel action_id client_id item quantity amount_cents =
    send (message channel action_id client_id item quantity amount_cents)
