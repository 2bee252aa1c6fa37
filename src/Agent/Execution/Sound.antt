-- ===== src/Agent/Execution/Sound.antt =====
-- What every answer of the agent, and every result that it stores, looks like.
use agent_embassy.Prelude.{
  ℕ, zero, suc, String, ◌≡◌, refl, Bool, true, false, Option, none, some, [], ◌∷◌, str_eq,
  str_eq_iff, drop, inl, inr, Bool-cases,
}
use agent_embassy.Prelude.Dict.{Dict, get, put}
use agent_embassy.Python.Json.{Json, Body, get_field, as_str}
use agent_embassy.Python.Text.{is_empty}
use agent_embassy.Python.Fields.Read.{Each}
use agent_embassy.Agent.Rules.{evaluate}
use agent_embassy.Agent.World.{World, Outcome, Status, executed, failed, Settings, Post}
use agent_embassy.Agent.Llm.{choose_channel, is_configured}
use agent_embassy.Agent.Channels.{read_answer, accepted_reference, execute, message, send, post}
use agent_embassy.Agent.Execution.{
  Envelope, Routing, route_decision, route, dispatch, log_outcome, log_decision, outcome_of,
  decide_and_execute, store_result, execute_new, execute_action, by_llm,
}
use agent_embassy.Agent.Execution.Replay.{decided-results}

-- Who may have decided, by the fields of an answer.
pub data Decides : Option String → Type 0 where
  rules_decided : Decides (some "rules")
  llm_decided : Decides (some "llm")

-- An executed action has a channel, someone who decided and a reference that is not empty.
pub data Complete : Status → Option String → Option String → Option String → Type 0 where
  refused :
      {channel decided_by reference : Option String} → Complete failed channel decided_by reference
  carried_out :
      {channel reference : String} {decided_by : Option String}
      → Decides decided_by
      → is_empty reference ≡ false
      → Complete executed (some channel) decided_by (some reference)

-- An answer for the action `id`.
pub record Answers (id : String) (o : Outcome) : Type 0 where
  pub own : o.action_id ≡ id
  pub complete : Complete o.status o.channel o.decided_by o.reference

-- Every stored result is an answer for the id that it is stored under.
abbrev pub IsSound : Dict Outcome → Type 0
IsSound [] = Unit
IsSound ((id, o) ∷ results) = Answers id o × IsSound results

get-Answers : (d : Dict Outcome) (id : String) → IsSound d → Each (Answers id) (get d id)
get-Answers [] id sound = tt
get-Answers ((j, p) ∷ d) id (first, others) = elim (Bool-cases (str_eq j id)) [
  | inl same ↦ rw (same, ← (str_eq_iff j id).0 same) first
  | inr other ↦ rw other (get-Answers d id others)
]

put-IsSound :
    (d : Dict Outcome) (id : String) (o : Outcome) → IsSound d → Answers id o → IsSound (put d id o)
put-IsSound [] id o sound new = (new, tt)
put-IsSound ((j, p) ∷ d) id o (first, others) new = elim (Bool-cases (str_eq j id)) [
  | inl same ↦ rw (same, (str_eq_iff j id).0 same) (new, others)
  | inr other ↦ rw other (first, put-IsSound d id o others new)
]

drop-IsSound : (n : ℕ) (d : Dict Outcome) → IsSound d → IsSound (drop n d)
drop-IsSound zero d sound = sound
drop-IsSound (suc n) [] sound = tt
drop-IsSound (suc n) (e ∷ d) (first, others) = drop-IsSound n d others

-- What `_post` reads as executed has a reference.
data Referenced : Bool × Option String → Type 0 where
  not_executed : {reference : Option String} → Referenced (false, reference)
  with_reference :
      {reference : String} → is_empty reference ≡ false → Referenced (true, some reference)

accepted_reference-Referenced : (o : Option String) → Referenced (accepted_reference o)
accepted_reference-Referenced none = not_executed
accepted_reference-Referenced (some reference) = elim (Bool-cases (is_empty reference)) [
  | inl empty ↦ rw empty not_executed
  | inr full ↦ rw full (with_reference full)
]

read_answer-Referenced : (b : Option Body) → Referenced (read_answer b)
unfolding read_answer get_field
read_answer-Referenced (some (Body.json (Json.obj fields))) =
    accepted_reference-Referenced (as_str (get_field fields "reference"))
read_answer-Referenced _ = not_executed

execute-Referenced :
    (channel id client item : String) (quantity amount : ℕ) (w : World)
    → Referenced (execute channel id client item quantity amount w).0
unfolding execute send post
execute-Referenced channel id client item quantity amount w =
    sent (message channel id client item quantity amount)
  where
    sent : (m : Option Post) → Referenced (send m w).0
    sent none = not_executed
    sent (some m) = read_answer-Referenced (w.outside.stubs 0)

module _ (settings : Settings) (prompt_of : Envelope → String) where
  -- The decision that `route` hands over.
  route_decision-Decides :
      (e : Envelope) (o : Option String) (w : World)
      → Decides (route_decision settings prompt_of e o w).0.decided_by
  unfolding route_decision
  route_decision-Decides e none w = rules_decided
  route_decision-Decides e (some d) w = elim (Bool-cases (str_eq d "llm")) [
    | inr direct ↦ rw direct rules_decided
    | inl llm ↦ elim (Bool-cases (is_configured settings.llm_model)) [
      | inl on ↦
          rw (llm, on)
            (chosen
              (choose_channel settings.llm_model (prompt_of e) settings.config.allowed_channels
                w).0.channel)
      | inr off ↦ rw (llm, off) rules_decided
    ]
  ]
    where
      chosen : (c : Option String) → Decides (by_llm c)
      chosen none = rules_decided
      chosen (some c) = llm_decided

  outcome_of-Answers :
      (e : Envelope) (r : Routing) (channel : String) (a : Bool × Option String)
      → r.channel ≡ some channel
      → Decides r.decided_by
      → Referenced a
      → Answers e.action_id (outcome_of settings prompt_of e r a.0 a.1)
  unfolding outcome_of
  outcome_of-Answers e r channel _ at known not_executed = record { own = refl; complete = refused }
  outcome_of-Answers e r channel _ at known (with_reference full) = record {
    own = refl;
    complete = rw at (carried_out known full);
  }

  dispatch-Answers :
      (e : Envelope) (r : Routing) (o : Option String) (w : World)
      → r.channel ≡ o
      → Decides r.decided_by
      → Answers e.action_id (dispatch settings prompt_of e r o w).0
  unfolding dispatch log_outcome log_decision
  dispatch-Answers e r none w at known = record { own = refl; complete = refused }
  dispatch-Answers e r (some channel) w at known =
      outcome_of-Answers e r channel
        (execute channel e.action_id e.client_id e.item e.quantity e.amount_cents w).0 at known
        (execute-Referenced channel e.action_id e.client_id e.item e.quantity e.amount_cents w)

  decided-Answers :
      (e : Envelope) (w : World) → Answers e.action_id (decide_and_execute settings prompt_of e w).0
  unfolding decide_and_execute route
  decided-Answers e w =
      let (r, w') = route settings prompt_of e w in
      dispatch-Answers e r r.channel w' refl
        (route_decision-Decides e (evaluate settings.config e.action_type e.amount_cents) w)

  -- An execution answers for its own action, completely: what is executed has a channel, the rules or
  -- the LLM behind it and a reference; and every stored result stays such an answer.
  pub execute_action-Answers :
      (e : Envelope) (w : World)
      → IsSound w.results
      → (let (o, w') = execute_action settings prompt_of e w in
          Answers e.action_id o × IsSound w'.results)
  unfolding execute_action execute_new store_result
  execute_action-Answers e w sound =
      settled (get w.results e.action_id) (get-Answers w.results e.action_id sound)
    where
      settled :
          (found : Option Outcome)
          → Each (Answers e.action_id) found
          → (let (o, w') = execute_new settings prompt_of e found w in
              Answers e.action_id o × IsSound w'.results)
      settled (some o) known = (known, sound)
      settled none known =
          let (o, w') = decide_and_execute settings prompt_of e w in
          let answers = decided-Answers e w in
          let before : IsSound w'.results = rw (decided-results settings prompt_of e w) sound in
          (
            answers,
            drop-IsSound _ (put w'.results e.action_id o)
                (put-IsSound w'.results e.action_id o before answers),
          )
