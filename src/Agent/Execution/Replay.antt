-- ===== src/Agent/Execution/Replay.antt =====
-- An action that was executed is not executed again.
use agent_embassy.Prelude.{
  ℕ, zero, suc, ◌<◌, String, ◌≡◌, refl, ap, ◌∙◌, Option, none, some, List, [], ◌∷◌, arith, str_eq,
  str_eq_refl, drop, length, inl, inr, Option-cases, Bool-cases,
}
use agent_embassy.Prelude.Dict.{Dict, get, put, get-put}
use agent_embassy.Agent.Rules.{evaluate}
use agent_embassy.Agent.World.{World, Outcome, Settings}
use agent_embassy.Agent.Llm.{is_configured, choose_channel}
use agent_embassy.Agent.Channels.{execute, message, send, post}
use agent_embassy.Agent.Execution.{
  Envelope, Routing, route_decision, route, log_decision, log_outcome, dispatch, decide_and_execute,
  store_result, execute_new, execute_action,
}

-- A new key is the newest: dropping older entries does not lose it.
get-drop-put :
    {V : Type 0} (d : Dict V) (k : String) (v : V) (n : ℕ)
    → get d k ≡ none
    → n < length (put d k v)
    → get (drop n (put d k v)) k ≡ some v
get-drop-put [] k v zero new room = rw (str_eq_refl k)
get-drop-put [] k v (suc n) new room = absurd (omega arith)
get-drop-put ((j, u) ∷ d) k v zero new room = ground (arith, get-put d k k v, str_eq_refl k)
get-drop-put ((j, u) ∷ d) k v (suc n) new room = ground (arith, get-drop-put d k v n)

length-put : {V : Type 0} (d : Dict V) (k : String) (v : V) → 0 < length (put d k v)
length-put [] k v = omega arith
length-put ((j, u) ∷ d) k v = ground arith

choose-results :
    (model prompt : String) (allowed : List String) (w : World)
    → (choose_channel model prompt allowed w).1.results ≡ w.results
unfolding choose_channel
choose-results model prompt allowed w = elim (Bool-cases (is_configured model)) [
  | inl on ↦ rw on
  | inr off ↦ rw off
]

module _ (settings : Settings) (prompt_of : Envelope → String) where
  routed-results :
      (e : Envelope) (o : Option String) (w : World)
      → (route_decision settings prompt_of e o w).1.results ≡ w.results
  unfolding route_decision
  routed-results e none w = refl
  routed-results e (some d) w = elim (Bool-cases (str_eq d "llm")) [
    | inr direct ↦ rw direct
    | inl llm ↦ elim (Bool-cases (is_configured settings.llm_model)) [
      | inl on ↦
          rw (llm, on)
            (choose-results settings.llm_model (prompt_of e) settings.config.allowed_channels w)
      | inr off ↦ rw (llm, off)
    ]
  ]

  dispatch-results :
      (e : Envelope) (r : Routing) (o : Option String) (w : World)
      → (dispatch settings prompt_of e r o w).1.results ≡ w.results
  unfolding dispatch log_outcome log_decision execute send post
  dispatch-results e r none w = refl
  dispatch-results e r (some c) w =
      elim (Option-cases (message c e.action_id e.client_id e.item e.quantity e.amount_cents)) [
        | inl nowhere ↦ rw nowhere
        | inr (path, found) ↦ rw found
      ]

  pub decided-results :
      (e : Envelope) (w : World) → (decide_and_execute settings prompt_of e w).1.results ≡ w.results
  unfolding decide_and_execute route
  decided-results e w =
      let (r, w') = route settings prompt_of e w in
      dispatch-results e r r.channel w'
      ∙ routed-results e (evaluate settings.config e.action_type e.amount_cents) w

  -- What `execute_action` makes of the stored result that it finds.
  abbrev Settles : Envelope → World → Option Outcome → Type 0
  Settles e w found =
      let (first, w') = execute_new settings prompt_of e found w in
      get w'.results e.action_id ≡ some first

  settles :
      (e : Envelope) (w : World) (found : Option Outcome)
      → 0 < settings.result_map_max
      → get w.results e.action_id ≡ found
      → Settles e w found
  unfolding execute_new store_result
  settles e w none room new =
      let (first, w') = decide_and_execute settings prompt_of e w in
      get-drop-put w'.results e.action_id first _
        (ap (λ d. get d e.action_id) (decided-results e w) ∙ new)
        (omega (arith, length-put w'.results e.action_id first))
  settles e w (some o) room known = known

  -- The answer for an action id is stored under it.
  pub execute_action-stored :
      (e : Envelope) (w : World)
      → 0 < settings.result_map_max
      → get (execute_action settings prompt_of e w).1.results e.action_id
        ≡ some (execute_action settings prompt_of e w).0
  unfolding execute_action
  execute_action-stored e w room = settles e w (get w.results e.action_id) room refl

  -- Where the map of results may hold an entry, the second of two requests in a row for an action id,
  -- whatever else its envelope says, answers what the first one answered and leaves the world as the
  -- first one did: no stub and no LLM is called, and nothing is logged.
  pub execute_action-again :
      (e again : Envelope) (w : World)
      → 0 < settings.result_map_max
      → again.action_id ≡ e.action_id
      → execute_action settings prompt_of again (execute_action settings prompt_of e w).1
        ≡ execute_action settings prompt_of e w
  unfolding execute_action execute_new
  execute_action-again e again w room same =
      let (first, w') = execute_action settings prompt_of e w in
      ap (λ f. execute_new settings prompt_of again f w')
        (ap (λ i. get w'.results i) same ∙ execute_action-stored e w room)
