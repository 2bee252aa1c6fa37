-- ===== src/Agent/Execution/Executed.antt =====
-- A new action that is routed to a channel is executed.
use agent_embassy.Prelude.{
  ℕ, String, ◌≡◌, refl, sym, ap, ◌∙◌, true, Bool-cases, Option, none, some, ◌∷◌, List, str_eq, inl,
  inr,
}
use agent_embassy.Prelude.Dict.{get}
use agent_embassy.Agent.Rules.{evaluate}
use agent_embassy.Agent.World.{World, Post, executed, Settings}
use agent_embassy.Agent.Llm.{is_configured, choose_channel}
use agent_embassy.Agent.Channels.{message, execute, send, post, read_answer}
use agent_embassy.Agent.Execution.{
  Envelope, Routing, route_decision, route, log_decision, log_outcome, outcome_of, dispatch,
  decide_and_execute, store_result, execute_new, execute_action,
}

-- Choosing a channel posts nothing.
choose-posted :
    (model prompt : String) (allowed : List String) (w : World)
    → (choose_channel model prompt allowed w).1.posted ≡ w.posted
unfolding choose_channel
choose-posted model prompt allowed w = elim (Bool-cases (is_configured model)) [
  | inl on ↦ rw on
  | inr off ↦ rw off
]

-- Posting a message that is answered as executed under a reference.
pub execute-posted :
    (channel id client item : String) (quantity amount : ℕ) (m : Post) (w : World)
    (reference : String)
    → message channel id client item quantity amount ≡ some m
    → read_answer (w.outside.stubs 0) ≡ (true, some reference)
    → ((execute channel id client item quantity amount w).0 ≡ (true, some reference))
      × ((execute channel id client item quantity amount w).1.posted ≡ m ∷ w.posted)
unfolding execute send post
execute-posted channel id client item quantity amount m w reference posts answered =
    rw posts (answered, refl)

module _ (settings : Settings) (prompt_of : Envelope → String) where
  routed-posted :
      (e : Envelope) (o : Option String) (w : World)
      → (route_decision settings prompt_of e o w).1.posted ≡ w.posted
  unfolding route_decision
  routed-posted e none w = refl
  routed-posted e (some d) w = elim (Bool-cases (str_eq d "llm")) [
    | inr direct ↦ rw direct
    | inl llm ↦ elim (Bool-cases (is_configured settings.llm_model)) [
      | inl on ↦
          rw (llm, on)
            (choose-posted settings.llm_model (prompt_of e) settings.config.allowed_channels w)
      | inr off ↦ rw (llm, off)
    ]
  ]

  pub route-posted : (e : Envelope) (w : World) → (route settings prompt_of e w).1.posted ≡ w.posted
  unfolding route
  route-posted e w = routed-posted e (evaluate settings.config e.action_type e.amount_cents) w

  dispatch-executed :
      (e : Envelope) (r : Routing) (channel reference : String) (m : Post) (w : World)
      → message channel e.action_id e.client_id e.item e.quantity e.amount_cents ≡ some m
      → read_answer (w.outside.stubs 0) ≡ (true, some reference)
      → (let (o, after) = dispatch settings prompt_of e r (some channel) w in
          (o ≡ record {
            action_id = e.action_id;
            status = executed;
            channel = r.channel;
            decided_by = r.decided_by;
            reference = some reference;
          })
          × (after.posted ≡ m ∷ w.posted))
  unfolding dispatch log_outcome log_decision outcome_of
  dispatch-executed e r channel reference m w posts executes =
      let (answered, sent) =
        execute-posted channel e.action_id e.client_id e.item e.quantity e.amount_cents m w
          reference posts executes in
      rw answered (refl, sent)

  -- An action with a new id whose routing names a channel, where the stub executes the message of
  -- that channel: the message is posted, and the outcome says so.
  pub execute_action-executed :
      (e : Envelope) (w routed : World) (r : Routing) (channel reference : String) (m : Post)
      → get w.results e.action_id ≡ none
      → route settings prompt_of e w ≡ (r, routed)
      → r.channel ≡ some channel
      → message channel e.action_id e.client_id e.item e.quantity e.amount_cents ≡ some m
      → read_answer (routed.outside.stubs 0) ≡ (true, some reference)
      → (let (o, after) = execute_action settings prompt_of e w in
          (o ≡ record {
            action_id = e.action_id;
            status = executed;
            channel = some channel;
            decided_by = r.decided_by;
            reference = some reference;
          })
          × (after.posted ≡ m ∷ w.posted))
  unfolding execute_action execute_new decide_and_execute store_result
  execute_action-executed e w routed r channel reference m new routes chosen posts executes =
      let kept : routed.posted ≡ w.posted = ap (λ s. s.1.posted) (sym routes) ∙ route-posted e w in
      let (done, sent) =
        dispatch-executed e (record r { channel = some channel }) channel reference m routed posts
          executes in
      rw (new, routes, chosen) (done, sent ∙ ap (λ l. m ∷ l) kept)
