-- ===== src/Agent/Execution.antt =====
-- agent/main.py: `execute_action`, one request at a time; the locks are in Agent/Locks.antt.
pub mod Authority
pub mod Executed
pub mod Replay
pub mod Sound
use agent_embassy.Prelude.{
  ℕ, ◌-◌, String, Bool, true, false, not, Option, none, some, List, [], ◌∷◌, ◌++◌, ltb,
  if◌then◌else◌, str_eq, drop, length,
}
use agent_embassy.Prelude.Dict.{get, put}
use agent_embassy.Agent.Rules.{evaluate, fallback_channel}
use agent_embassy.Agent.World.{
  World, Outcome, Decision, Status, executed, failed, Settings, State, pure, time, ◌>>=◌, ◌>>◌,
}
use agent_embassy.Agent.Llm.{LlmOutcome, is_configured, choose_channel}
use agent_embassy.Agent.Channels.{execute}

-- An `ActionEnvelope` whose payload is a valid `OrderPayload`.
pub record Envelope : Type 0 where
  pub action_id : String
  pub action_type : String
  pub client_id : String
  pub item : String
  pub quantity : ℕ
  pub amount_cents : ℕ
  pub mode : String

-- The routing decision of `_decide_and_execute`: the channel and who decided, with the LLM's prompt
-- and raw answer for the log.
pub record Routing : Type 0 where
  pub channel : Option String
  pub decided_by : Option String
  pub llm_prompt : Option String
  pub llm_raw : Option String

abbrev pub by_rules : Option String → Routing
by_rules channel = record {
  channel = channel;
  decided_by = some "rules";
  llm_prompt = none;
  llm_raw = none;
}

abbrev pub by_llm : Option String → Option String
by_llm none = some "rules"
by_llm (some _) = some "llm"

abbrev pub of_outcome : LlmOutcome → Routing
of_outcome o = record {
  channel = o.channel;
  decided_by = by_llm o.channel;
  llm_prompt = o.prompt;
  llm_raw = o.raw_text;
}

module _ (settings : Settings) (prompt_of : Envelope → String) where
  open settings use {config, llm_model, result_map_max, decision_log_max}

  route_decision : Envelope → Option String → State Routing
  route_decision envelope none = pure (by_rules none)
  route_decision envelope (some decision) =
      if str_eq decision "llm"
      then (if is_configured llm_model
          then (do
            outcome ← choose_channel llm_model (prompt_of envelope) config.allowed_channels
            pure (of_outcome outcome))
          else pure (by_rules (fallback_channel config envelope.action_type envelope.amount_cents)))
      else pure (by_rules (some decision))

  -- The first half of `_decide_and_execute`.
  unfoldable pub route : Envelope → State Routing
  unfolding route_decision choose_channel
  route envelope =
      route_decision envelope (evaluate config envelope.action_type envelope.amount_cents)

  -- `_log_decision`
  unfoldable pub log_decision : Decision → State (Unit {0})
  log_decision entry w =
      let longer = w.decision_log ++ entry ∷ [] in
      (tt, record w { decision_log = drop (length longer - decision_log_max) longer })

  unfoldable pub log_outcome : Envelope → Routing → Option String → Bool → State (Unit {0})
  unfolding log_decision
  log_outcome envelope r decided_by done = do
    now ← time
    log_decision (record {
      at = now;
      action_id = envelope.action_id;
      client_id = envelope.client_id;
      item = envelope.item;
      amount_cents = envelope.amount_cents;
      mode = envelope.mode;
      decided_by = decided_by;
      channel = r.channel;
      executed = done;
      llm_prompt = r.llm_prompt;
      llm_raw = r.llm_raw;
    })

  unfoldable pub outcome_of : Envelope → Routing → Bool → Option String → Outcome
  outcome_of envelope r true reference = record {
    action_id = envelope.action_id;
    status = executed;
    channel = r.channel;
    decided_by = r.decided_by;
    reference = reference;
  }
  outcome_of envelope r false reference = record {
    action_id = envelope.action_id;
    status = failed;
    channel = r.channel;
    decided_by = r.decided_by;
    reference = none;
  }

  -- The second half of `_decide_and_execute`: no channel is a failure.
  unfoldable pub dispatch : Envelope → Routing → Option String → State Outcome
  unfolding log_outcome outcome_of execute
  dispatch envelope r none = do
    log_outcome envelope r none false
    pure (record {
      action_id = envelope.action_id;
      status = failed;
      channel = none;
      decided_by = none;
      reference = none;
    })
  dispatch envelope r (some channel) = do
    answer ←
        execute channel envelope.action_id envelope.client_id envelope.item envelope.quantity
          envelope.amount_cents
    log_outcome envelope r r.decided_by answer.0
    pure (outcome_of envelope r answer.0 answer.1)

  -- `_decide_and_execute`
  unfoldable pub decide_and_execute : Envelope → State Outcome
  unfolding route dispatch
  decide_and_execute envelope = do r ← route envelope; dispatch envelope r r.channel

  -- `_store_result`: the map of results, without the oldest entries that are too many.
  unfoldable pub store_result : String → Outcome → State Outcome
  store_result action_id body w =
      let longer = put w.results action_id body in
      (body, record w { results = drop (length longer - result_map_max) longer })

  execute_new : Envelope → Option Outcome → State Outcome
  unfolding decide_and_execute store_result
  execute_new envelope (some existing) = pure existing
  execute_new envelope none = do
    body ← decide_and_execute envelope
    store_result envelope.action_id body

  -- `execute_action`, from the lock on.
  unfoldable pub execute_action : Envelope → State Outcome
  unfolding execute_new
  execute_action envelope w = execute_new envelope (get w.results envelope.action_id) w
