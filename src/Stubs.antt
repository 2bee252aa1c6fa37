-- ===== src/Stubs.antt =====
-- stubs/main.py: the three stub channels behind the agent and the record of their deliveries.
pub mod Delivered
pub mod Executed
mod Tests
use agent_embassy.Prelude.{
  ℕ, suc, ◌-◌, String, Option, none, some, List, [], ◌∷◌, ◌++◌, reverse, ltb, if◌then◌else◌, str_eq,
  length, drop,
}
use agent_embassy.Prelude.Int.{ℤ, pos}
use agent_embassy.Python.Json.{Json, Fields, end, field}
use agent_embassy.Python.Fields.{bind, text_field, number_field}
use agent_embassy.Python.Text.{decimal, last, ◌+++◌}

-- A row of `_deliveries`; the payload is what `model_dump` returns.
pub record Delivery : Type 0 where
  pub at : ℕ
  pub channel : String
  pub reference : String
  pub payload : Fields

-- `_deliveries`, the newest last, and the readings of the clock to come.
pub record World : Type 0 where
  pub deliveries : List Delivery
  pub clock : ℕ → ℕ

abbrev pub deliveries_max : ℕ
deliveries_max = 500

-- `_record`: the oldest rows that are too many are deleted.
unfoldable pub kept : List Delivery → List Delivery
kept longer =
    if ltb deliveries_max (length longer)
    then drop (length longer - deliveries_max) longer
    else longer

unfoldable pub record_delivery : String → String → Fields → World → World
record_delivery channel reference payload w = record {
  deliveries = kept (
      w.deliveries
      ++ record { at = w.clock 0; channel = channel; reference = reference; payload = payload }
        ∷ []);
  clock = λ n. w.clock (suc n);
}

-- An answer by what it is: 200 with a body, a 422 of the validation, or a 404 of the router.
pub data Reply : Type 0 where
  served : Fields → Reply
  unprocessable not_found : Reply

pub record ErpOrder : Type 0 where
  pub action_id : String
  pub client_id : String
  pub item : String
  pub quantity : ℕ
  pub amount_cents : ℕ

pub record SlackMessage : Type 0 where
  pub action_id : String
  pub text : String

pub record Email : Type 0 where
  pub action_id : String
  pub to : String
  pub subject : String
  pub body : String

-- `model_dump` of the three.
unfoldable pub dump_erp_order : ErpOrder → Fields
dump_erp_order o = field "action_id" (Json.str o.action_id) (
    field "client_id" (Json.str o.client_id) (
      field "item" (Json.str o.item) (
        field "quantity" (Json.int (pos o.quantity))
          (field "amount_cents" (Json.int (pos o.amount_cents)) end))))

unfoldable pub dump_slack_message : SlackMessage → Fields
dump_slack_message m = field "action_id" (Json.str m.action_id) (field "text" (Json.str m.text) end)

unfoldable pub dump_email : Email → Fields
dump_email m = field "action_id" (Json.str m.action_id) (
    field "to" (Json.str m.to)
      (field "subject" (Json.str m.subject) (field "body" (Json.str m.body) end)))

-- The validation of the three bodies; `coerce` is what pydantic makes of a value for an `int` field.
unfoldable pub read_erp_order : (Json → Option ℤ) → Fields → Option ErpOrder
read_erp_order coerce f = bind (text_field f "action_id" 64) λ action_id.
    bind (text_field f "client_id" 200) λ client_id. bind (text_field f "item" 200) λ item.
      bind (number_field coerce f "quantity" 10000) λ quantity.
        bind (number_field coerce f "amount_cents" 1000000) λ amount_cents. some (record {
          action_id = action_id;
          client_id = client_id;
          item = item;
          quantity = quantity;
          amount_cents = amount_cents;
        })

unfoldable pub read_slack_message : Fields → Option SlackMessage
read_slack_message f = bind (text_field f "action_id" 64) λ action_id.
    bind (text_field f "text" 2000) λ text. some (record { action_id = action_id; text = text })

unfoldable pub read_email : Fields → Option Email
read_email f = bind (text_field f "action_id" 64) λ action_id. bind (text_field f "to" 200) λ to.
    bind (text_field f "subject" 500) λ subject.
      bind (text_field f "body" 5000)
        λ body. some (record { action_id = action_id; to = to; subject = subject; body = body })

-- f"{prefix}-{int(time.time())}-{action_id[-8:]}"
unfoldable pub reference_of : String → ℕ → String → String
reference_of prefix now action_id = prefix +++ "-" +++ decimal now +++ "-" +++ last 8 action_id

-- What the three handlers do with a valid body: the clock is read for the reference, then for the
-- row.
unfoldable pub deliver : String → String → String → Fields → World → Reply × World
deliver prefix channel action_id payload w =
    let reference = reference_of prefix (w.clock 0) action_id in
    (
      served (
          field "reference" (Json.str reference) (
            field "disclaimer"
              (Json.str
                "Illustrative stub -- no real ERP/Slack/email is connected (see ARCHITECTURE.md).")
              end)),
      record_delivery channel reference payload (record w { clock = λ n. w.clock (suc n) }),
    )

unfoldable pub mock_erp_order : Option ErpOrder → World → Reply × World
mock_erp_order none w = (unprocessable, w)
mock_erp_order (some order) w = deliver "ERP" "mock_erp" order.action_id (dump_erp_order order) w

unfoldable pub slack_webhook : Option SlackMessage → World → Reply × World
slack_webhook none w = (unprocessable, w)
slack_webhook (some message) w =
    deliver "SLACK" "slack_stub" message.action_id (dump_slack_message message) w

unfoldable pub email_send : Option Email → World → Reply × World
email_send none w = (unprocessable, w)
email_send (some email) w = deliver "EMAIL" "email_stub" email.action_id (dump_email email) w

-- A POST request, by its path.
unfoldable pub serve : (Json → Option ℤ) → String → Fields → World → Reply × World
serve coerce path body w =
    if str_eq path "/mock-erp/orders"
    then mock_erp_order (read_erp_order coerce body) w
    else if str_eq path "/slack/webhook"
    then slack_webhook (read_slack_message body) w
    else if str_eq path "/email/send"
    then email_send (read_email body) w
    else (not_found, w)

-- `deliveries`: the entries of its answer.
unfoldable pub deliveries : World → List Delivery
deliveries w = reverse w.deliveries
