-- ===== src/Stubs/Tests.antt =====
-- The stubs at a concrete action: an order that the agent has read from a body and posts to Slack.
use agent_embassy.Prelude.{◌+◌, refl, some, none, Option, []}
use agent_embassy.Prelude.Int.{ℤ, pos}
use agent_embassy.Python.Json.{Json, Fields, get_field, field, end}
use agent_embassy.Python.Text.{decimal, euros}
use agent_embassy.Agent.Tests
use agent_embassy.Agent.World
use agent_embassy.Agent.World.{Post}
use agent_embassy.Agent.Execution.{Envelope, by_rules, dispatch}
use agent_embassy.Agent.Channels.{message, slack_message, slack_text, order_title, order_line}
use agent_embassy.Agent.Bodies.{
  read_action, read_action_envelope, read_mandate, read_payload, read_order_payload, bounded_below,
  to_envelope,
}
use agent_embassy.Python.Fields.{text_field, number_field}
use agent_embassy.Stubs.{serve}
use agent_embassy.Stubs
use agent_embassy.Stubs.Delivered.{Delivered, answer_of, message-Delivered}
use agent_embassy.Stubs.Executed.{IsExecuted, dispatch-IsExecuted}

-- An integer field that takes integers only.
abbrev strict : Json → Option ℤ
strict (Json.int n) = some n
strict _ = none

abbrev mandate : Fields
mandate = field "mode" (Json.str "within_mandate") (
    field "weekly_limit_cents" (Json.int (pos 5000)) (
      field "used_cents" (Json.int (pos 0)) (
        field "remaining_cents" (Json.int (pos 5000))
          (field "window_seconds" (Json.int (pos 604800)) (field "approved_by" Json.null end)))))

abbrev body : Fields
body = field "action_id" (Json.str "act-1700-beefbeef") (
    field "action_type" (Json.str "order.place") (
      field "client_id" (Json.str "shop") (
        field "requested_at" (Json.float "1700.5") (
          field "payload"
            (Json.obj (
              field "item" (Json.str "flour") (
                field "quantity" (Json.int (pos 2))
                  (field "amount_cents" (Json.int (pos 3000)) end))))
            (field "mandate" (Json.obj mandate) end)))))

abbrev order : Envelope
order = record {
  action_id = "act-1700-beefbeef";
  action_type = "order.place";
  client_id = "shop";
  item = "flour";
  quantity = 2;
  amount_cents = 3000;
  mode = "within_mandate";
}

abbrev post : Post
post = record {
  path = "/slack/webhook";
  payload = field "action_id" (Json.str "act-1700-beefbeef") (
      field "text"
        (Json.str
          "Order act-1700-beefbeef from shop: 2 x flour for EUR 30.00 -- needs manual handling")
        end);
}

abbrev empty : Stubs.World
empty = record { deliveries = []; clock = λ n. 1700 + n }

message-Delivered_example : Delivered "slack_stub" post (serve strict post.path post.payload empty)
unfolding read_action read_action_envelope read_mandate read_payload read_order_payload
    bounded_below to_envelope text_field number_field get_field message slack_message slack_text
    order_title order_line decimal euros
message-Delivered_example =
    message-Delivered strict some (λ n. refl) body order refl "slack_stub" post refl empty

-- The agent with these stubs behind it.
abbrev agent : World.World
agent = record Tests.world {
  outside = record Tests.world.outside {
    stubs = λ _. answer_of (serve strict post.path post.payload empty).0;
  };
}

dispatch-IsExecuted_example :
    (d : Delivered "slack_stub" post (serve strict post.path post.payload empty)) × IsExecuted
      d.reference post agent
      (dispatch Tests.settings
        (λ _. "")
        order
        (by_rules (some "slack_stub"))
        (some "slack_stub")
        agent)
unfolding read_action read_action_envelope read_mandate read_payload read_order_payload
    bounded_below to_envelope text_field number_field get_field message slack_message slack_text
    order_title order_line decimal euros
dispatch-IsExecuted_example =
    dispatch-IsExecuted strict some (λ n. refl) body order refl Tests.settings (λ _. "")
      (by_rules (some "slack_stub")) "slack_stub" post refl empty agent refl
