-- ===== src/Stubs/Executed.antt =====
-- The agent's dispatch with the stubs behind it.
use agent_embassy.Prelude.{ℕ, String, ◌≡◌, refl, ap, ◌∙◌, Option, some, ◌∷◌}
use agent_embassy.Prelude.Int.{ℤ, pos}
use agent_embassy.Python.Json.{Json, Fields}
use agent_embassy.Agent.World
use agent_embassy.Agent.World.{Post, Outcome, Settings, executed}
use agent_embassy.Agent.Channels.{message, read_answer}
use agent_embassy.Agent.Execution.{
  Envelope, Routing, dispatch, log_outcome, log_decision, outcome_of,
}
use agent_embassy.Agent.Execution.Executed.{execute-posted}
use agent_embassy.Agent.Bodies.{read_action}
use agent_embassy.Stubs.{World, serve}
use agent_embassy.Stubs.Delivered.{Delivered, answer_of, message-Delivered}

-- What an action that was dispatched to the stubs has come to.
abbrev pub IsExecuted : String → Post → World.World → Outcome × World.World → Type 0
IsExecuted reference m before (o, after) =
    (o.status ≡ executed) × (o.reference ≡ some reference) × (after.posted ≡ m ∷ before.posted)

-- An action that has passed the agent's validation and is dispatched to a channel, with the stubs
-- behind it, is executed: one message is posted, the stubs list it first among their deliveries, and
-- the outcome carries the reference under which they list it. pydantic takes a JSON integer for a
-- field of type int.
pub dispatch-IsExecuted :
    (coerce : Json → Option ℤ) (coerce_float : Json → Option Json)
    → ((n : ℕ) → coerce (Json.int (pos n)) ≡ some (pos n))
    → (f : Fields) (e : Envelope) → read_action coerce coerce_float f ≡ some e
    → (settings : Settings) (prompt_of : Envelope → String) (r : Routing) (channel : String)
      (m : Post)
    → message channel e.action_id e.client_id e.item e.quantity e.amount_cents ≡ some m
    → (stubs : World) (w : World.World)
    → w.outside.stubs 0 ≡ answer_of (serve coerce m.path m.payload stubs).0
    → (d : Delivered channel m (serve coerce m.path m.payload stubs)) × IsExecuted d.reference m w
        (dispatch settings prompt_of e r (some channel) w)
unfolding dispatch log_outcome log_decision outcome_of
dispatch-IsExecuted coerce coerce_float takes_ints f e valid settings prompt_of r channel m posts
      stubs w behind =
    let d = message-Delivered coerce coerce_float takes_ints f e valid channel m posts stubs in
    let (answered, sent) =
      execute-posted channel e.action_id e.client_id e.item e.quantity e.amount_cents m w
        d.reference posts (ap read_answer behind ∙ d.executed) in
    (d, rw answered (refl, refl, sent))
