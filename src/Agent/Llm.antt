-- ===== src/Agent/Llm.antt =====
-- agent/llm.py: the choice of a channel by the LLM, and the validation of what it answers.
use Prim.Native.String
use agent_embassy.Prelude.{
  String, Bool, not, Option, none, some, List, [], ◌∷◌, if◌then◌else◌, str_eq,
}
use agent_embassy.Python.Json.{Json, Body, end, field}
use agent_embassy.Python.Text.{is_empty}
use agent_embassy.Agent.World.{State, rest}

pub record LlmOutcome : Type 0 where
  pub channel : Option String
  pub prompt : Option String
  pub raw_text : Option String

-- `is_configured`
abbrev pub is_configured : String → Bool
is_configured model = not (is_empty model)

-- The loop of `_validate` over the allowed channels.
unfoldable pub allowed_equal : String → List String → Option String
allowed_equal value [] = none
allowed_equal value (channel ∷ channels) =
    if str_eq value channel then some channel else allowed_equal value channels

-- `_validate`, where the body is what `json.loads` makes of the stripped text.
unfoldable pub validate : Body → List String → Option String
unfolding allowed_equal
validate (Body.json (Json.obj (field key (Json.str value) end))) allowed =
    if str_eq key "channel" then allowed_equal value allowed else none
validate _ allowed = none

abbrev pub no_decision : Option String → LlmOutcome
no_decision prompt = record { channel = none; prompt = prompt; raw_text = none }

-- The outcome of a call that was made: `none` is any failure on the way, `some` the content of the
-- completion, as a text and as parsed.
abbrev pub read_completion : String → List String → Option (String × Body) → LlmOutcome
read_completion prompt allowed none = no_decision (some prompt)
read_completion prompt allowed (some (raw, body)) = record {
  channel = validate body allowed;
  prompt = some prompt;
  raw_text = some (String.slice raw 0 2000);
}

-- `choose_channel`; `prompt` is the text of the user message.
unfoldable pub choose_channel : String → String → List String → State LlmOutcome
unfolding validate
choose_channel model prompt allowed w =
    if is_configured model
    then (
      read_completion prompt allowed (w.outside.completions 0),
      record w { outside = record w.outside { completions = rest w.outside.completions } },
    )
    else (no_decision none, w)
