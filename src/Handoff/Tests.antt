-- ===== src/Handoff/Tests.antt =====
-- The handoff at a concrete order of the client "shop".
use agent_embassy.Prelude.{ℕ, ◌≡◌, refl, none, some, Option, [], ◌∷◌, arith}
use agent_embassy.Prelude.Dict.{get}
use agent_embassy.Prelude.Int.{ℤ, pos}
use agent_embassy.Python.Json.{Json, Body}
use agent_embassy.Python.Text.{is_ascii}
use agent_embassy.Verify.Action.{Envelope, Mode}
use agent_embassy.Verify.Store.{new_store}
use agent_embassy.Verify.Requests.{Tier3OrderRequest, order_request}
use agent_embassy.Verify.Orders.{handoff_envelope}
use agent_embassy.Verify.Network.{HandoffStatus, answered, parsed, parse_ok_body}
use agent_embassy.Verify.Tests.{world}
use agent_embassy.Agent.Tests
use agent_embassy.Agent.World.{Post}
use agent_embassy.Agent.Rules.{evaluate}
use agent_embassy.Agent.Channels.{erp_order, message, read_answer}
use agent_embassy.Agent.Execution.{route, by_rules}
use agent_embassy.Agent.Endpoints.{outcome}
use agent_embassy.Agent.Execution.Sound.{IsSound}
use agent_embassy.Agent.Bodies.{post_body, answer_fields}
use agent_embassy.Handoff.{envelope_fields}
use agent_embassy.Handoff.Orders.{executed_over, order-understood}

abbrev strict : Json → Option ℤ
strict (Json.int n) = some n
strict _ = none

abbrev timestamp : ℕ → Json
timestamp n = Json.int (pos n)

-- An order that the first rule of the agent routes to the ERP.
abbrev small : Tier3OrderRequest
small = record { item = "flour"; quantity = 2; amount_cents = 1500 }

abbrev sent : Envelope
sent = record {
  action_id = "act-1";
  action_type = "order.place";
  client_id = "shop";
  requested_at = 100;
  item = "flour";
  quantity = 2;
  amount_cents = 1500;
  mode = Mode.within_mandate;
  weekly_limit_cents = 5000;
  used_cents = 1500;
  remaining_cents = 3500;
  window_seconds = 604800;
  approved_by = none;
}

abbrev erp_post : Post
erp_post = record { path = "/mock-erp/orders"; payload = erp_order "act-1" "shop" "flour" 2 1500 }

order-understood_example :
    (let (reply, after) =
        post_body strict some Tests.settings
          (λ _. "")
          "secret"
          "peek"
          (some "secret")
          (envelope_fields timestamp sent)
          Tests.world in
      let o = executed_over "act-1" "mock_erp" (some "rules") "R-1" in
      (reply ≡ outcome o)
      × (after.posted ≡ erp_post ∷ [])
      × (get after.results "act-1" ≡ some o)
      × (parse_ok_body (Body.json (Json.obj (answer_fields o "done"))) "act-1"
          ≡ parsed (answered HandoffStatus.executed (some "mock_erp") (some "rules") (some "R-1")))
      × IsSound after.results)
unfolding order_request handoff_envelope new_store is_ascii route evaluate message read_answer
order-understood_example =
    order-understood strict some timestamp (λ n. refl) (λ n. refl) "flour" (pos 2) (pos 1500) small
      refl "act-1" "shop" Mode.within_mandate 5000 1500 none world sent (omega arith, omega arith)
      (omega arith, omega arith) (omega arith) (omega arith) refl Tests.settings (λ _. "") "secret"
      "peek" "done" Tests.world Tests.world (by_rules (some "mock_erp")) "mock_erp" "R-1" erp_post
      refl refl (omega arith) tt refl refl refl refl refl
