-- ===== src/Agent/Tests.antt =====
-- The theorems about agent/ at concrete inputs.
use agent_embassy.Prelude.{length, ◌≤◌, ◌≡◌, refl, none, some, [], ◌∷◌, arith, str_eq_iff}
use agent_embassy.Python.Json.{Json, Body, field, end}
use agent_embassy.Agent.Rules.{boots}
use agent_embassy.Agent.World.{World, Settings}
use agent_embassy.Agent.Execution.{Envelope, route, execute_action}
use agent_embassy.Agent.Execution.Authority.{IsAllowed, route-IsAllowed}
use agent_embassy.Agent.Execution.Replay.{execute_action-again}
use agent_embassy.Agent.Locks.Progress.{Onward, can_be_answered}
use agent_embassy.Agent.Locks.Once.{dispatched_once}
use agent_embassy.Agent.Locks.{
  take_lock, dispatch, start, later, System, Reach, executing, answered, requests,
}
use agent_embassy.Agent.Locks.Race.{double_dispatch}

abbrev pub settings : Settings
settings = record {
  config = record {
    allowed_channels = "mock_erp" ∷ "email_stub" ∷ [];
    rules =
        record {
          action_type = "order.place";
          max_amount_cents = some 2000;
          channel = "mock_erp";
          fallback_channel = none;
        }
        ∷ record {
          action_type = "order.place";
          max_amount_cents = none;
          channel = "llm";
          fallback_channel = some "email_stub";
        }
        ∷ [];
  };
  llm_model = "small";
  result_map_max = 5;
  decision_log_max = 5;
}

abbrev pub choice : Body
choice = Body.json (Json.obj (field "channel" (Json.str "root_shell") end))

abbrev pub world : World
world = record {
  results = [];
  decision_log = [];
  outside = record {
    clock = λ n. n;
    stubs = λ _. some (Body.json (Json.obj (field "reference" (Json.str "R-1") end)));
    completions = λ _. some ("{\"channel\": \"root_shell\"}", choice);
  };
  posted = [];
}

abbrev order : Envelope
order = record {
  action_id = "a1";
  action_type = "order.place";
  client_id = "shop";
  item = "flour";
  quantity = 2;
  amount_cents = 3000;
  mode = "within_mandate";
}

-- Another order under the same action id.
abbrev other_order : Envelope
other_order = record order { item = "sugar"; quantity = 7; amount_cents = 1000 }

route-IsAllowed_example :
    IsAllowed ("mock_erp" ∷ "email_stub" ∷ []) (route settings (λ _. "") order world).0.channel
unfolding boots
route-IsAllowed_example = route-IsAllowed settings (λ _. "") order world refl

execute_action-again_example :
    execute_action settings (λ _. "") other_order (execute_action settings (λ _. "") order world).1
    ≡ execute_action settings (λ _. "") order world
execute_action-again_example =
    execute_action-again settings (λ _. "") order other_order world (omega arith) refl

double_dispatch_example :
    (s : System) × Reach (requests "a1" "b1") s
    × (s.phase 0 ≡ executing 0)
    × (s.phase 2 ≡ executing 2)
    × (s.dispatched ≡ "a1" ∷ "b1" ∷ "a1" ∷ [])
double_dispatch_example = double_dispatch "a1" "b1" (ground (arith, str_eq_iff "a1" "b1"))

-- A request for "a1" that is being executed.
abbrev run : (s : System) × Reach (λ _. "a1") s
run = (_, later (later start (take_lock 0 refl)) (dispatch 0 0 refl refl refl))

dispatched_once_example : length run.0.dispatched ≤ 1
dispatched_once_example = dispatched_once "a1" run.0 run.1

-- A second request for "a1", which has not arrived yet.
can_be_answered_example : (t : System) × Onward (λ _. "a1") run.0 t × (t.phase 1 ≡ answered)
can_be_answered_example = can_be_answered (λ _. "a1") run.0 1 run.1
