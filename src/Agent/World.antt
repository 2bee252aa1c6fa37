-- ===== src/Agent/World.antt =====
-- The state of the internal agent (agent/main.py), the messages that it sends and what it is
-- answered. A handler returns or raises; what was written before a raise stays written.
use agent_embassy.Prelude.{ℕ, suc, String, Bool, Option, List}
use agent_embassy.Prelude.Dict.{Dict}
use agent_embassy.Python.Json.{Body, Fields}
use agent_embassy.Agent.Rules.{Config}

-- The body that `execute_action` answers with; its free text `detail` is left out.
pub data Status : Type 0 where
  executed failed : Status

pub record Outcome : Type 0 where
  pub action_id : String
  pub status : Status
  pub channel : Option String
  pub decided_by : Option String
  pub reference : Option String

-- A row of `_decision_log`.
pub record Decision : Type 0 where
  pub at : ℕ
  pub action_id : String
  pub client_id : String
  pub item : String
  pub amount_cents : ℕ
  pub mode : String
  pub decided_by : Option String
  pub channel : Option String
  pub executed : Bool
  pub llm_prompt : Option String
  pub llm_raw : Option String

-- What `channels._post` sends: the path and the JSON object.
pub record Post : Type 0 where
  pub path : String
  pub payload : Fields

-- The answers of the stubs, by the JSON of their bodies, and the contents of the LLM's answers, call
-- by call; `none` is a call that raised.
pub record Outside : Type 0 where
  pub clock : ℕ → ℕ
  pub stubs : ℕ → Option Body
  pub completions : ℕ → Option (String × Body)

-- `_results` and `_decision_log`, newest last; `posted` lists what was sent to the stubs, the last
-- first.
pub record World : Type 0 where
  pub results : Dict Outcome
  pub decision_log : List Decision
  pub outside : Outside
  pub posted : List Post

-- The configuration: rules.json, the model's name (empty for none) and the two bounds.
pub record Settings : Type 0 where
  pub config : Config
  pub llm_model : String
  pub result_map_max : ℕ
  pub decision_log_max : ℕ

abbrev pub State : Type 0 → Type 0
State A = World → A × World

abbrev pub rest {ℓ} : {A : Type ℓ} → (ℕ → A) → ℕ → A
rest f n = f (suc n)

infixl 5 ◌>>=◌ ◌>>◌
abbrev pub ◌>>=◌ : {A B : Type 0} → State A → (A → State B) → State B
◌>>=◌ m f w = let (a, w') = m w in f a w'

abbrev pub ◌>>◌ : {A B : Type 0} → State A → State B → State B
m >> k = m >>= λ _. k

abbrev pub pure : {A : Type 0} → A → State A
pure a w = (a, w)

abbrev pub time : State ℕ
time w =
    (w.outside.clock 0, record w { outside = record w.outside { clock = rest w.outside.clock } })
