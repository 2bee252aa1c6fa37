-- ===== src/Agent/Channels/Texts.antt =====
-- How long the texts of the messages can get.
use Prim.Native.String
use agent_embassy.Prelude.{ℕ, ◌+◌, ◌≤◌, ◌<◌, String, arith}
use agent_embassy.Python.Text.{decimal, euros, ◌+++◌}
use agent_embassy.Python.Text.Count.{count-append, count-decimal_quantity, count-euros}
use agent_embassy.Agent.Channels.{order_line, order_title, slack_text}

count_positive-append : (s t : String) → 0 < String.count s → 0 < String.count (s +++ t)
count_positive-append s t h = omega (arith, count-append s t)

pub count-order_title :
    (id client : String)
    → (0 < String.count (order_title id client))
      × (String.count (order_title id client) ≤ 12 + String.count id + String.count client)
unfolding order_title
count-order_title id client = (
  count_positive-append "Order " (id +++ " from " +++ client) (omega arith),
  omega (
    arith,
    count-append "Order " (id +++ " from " +++ client),
    count-append id (" from " +++ client),
    count-append " from " client,
  ),
)

pub count-order_line :
    (item : String) (quantity amount : ℕ)
    → quantity ≤ 10000
    → amount ≤ 1000000
    → (0 < String.count (order_line item quantity amount))
      × (String.count (order_line item quantity amount) ≤ 25 + String.count item)
unfolding order_line
count-order_line item quantity amount few cheap =
    let tail = item +++ " for EUR " +++ euros amount in
    let whole = count-append (decimal quantity) (" x " +++ tail) in
    let middle = count-append " x " tail in
    (
      omega (arith, whole, middle),
      omega (
        arith,
        whole,
        middle,
        count-append item (" for EUR " +++ euros amount),
        count-append " for EUR " (euros amount),
        count-decimal_quantity quantity few,
        count-euros amount cheap,
      ),
    )

pub count-slack_text :
    (id client item : String) (quantity amount : ℕ)
    → quantity ≤ 10000
    → amount ≤ 1000000
    → (0 < String.count (slack_text id client item quantity amount))
      × (String.count (slack_text id client item quantity amount)
          ≤ 64 + String.count id + String.count client + String.count item)
unfolding slack_text
count-slack_text id client item quantity amount few cheap =
    let line = order_line item quantity amount in
    let whole =
      count-append (order_title id client) (": " +++ line +++ " -- needs manual handling") in
    let title = count-order_title id client in
    (
      omega (arith, whole, title.0),
      omega (
        arith,
        whole,
        title.1,
        count-append ": " (line +++ " -- needs manual handling"),
        count-append line " -- needs manual handling",
        (count-order_line item quantity amount few cheap).1,
      ),
    )
