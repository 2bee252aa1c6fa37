-- ===== src/Admin/GatewayPages.antt =====
-- admin/main.py: the form of the Tier 1 configuration, the audit view of Tier 3 and the page of the
-- internal agent. What a template shows is represented by what it is given.
use agent_embassy.Prelude.{ℕ, String, Option, none, some, List, [], ◌∷◌, if◌then◌else◌}
use agent_embassy.Prelude.Int.{ℤ}
use agent_embassy.Prelude.Dict.{Dict}
use agent_embassy.Python.Json.{Json, nil, end, truthy}
use agent_embassy.Admin.Http.{Action, pure, ◌>>=◌}
use agent_embassy.Admin.Schema.{Form, input}
use agent_embassy.Admin.Tier1
use agent_embassy.Admin.Tier1.{config_fields, get_config, update_config}
use agent_embassy.Admin.Tier3
use agent_embassy.Admin.Tier3.{list_audit}
use agent_embassy.Admin.AgentStatus
use agent_embassy.Admin.AgentStatus.{get_status}

-- The error of the form: of the client, or the fields that are no whole numbers.
pub data FormError : Type 0 where
  client : Tier1.Problem → FormError
  no_numbers : List String → FormError

pub data Page : Type 0 where
  config_page : (status : ℕ) → (values : Json) → Option Tier1.Problem → Page
  config_form : (status : ℕ) → (raw_values : Dict String) → FormError → Page
  audit_page : (status : ℕ) → (entries : Json) → Option Tier3.Problem → Page
  agent_page : (status : ℕ) → AgentStatus.Status → Page
  redirect : (location : String) → Page

-- `value or {}`, `value or []`
abbrev pub or_empty : Json → Json
or_empty v = if truthy v then v else Json.obj end

abbrev pub or_nil : Json → Json
or_nil v = if truthy v then v else Json.arr nil

-- `tier1_config_form`
abbrev pub show_config : Tier1.ConfigResult → Page
show_config (Tier1.values v) = config_page 200 (or_empty v) none
show_config (Tier1.error e) = config_page 502 (Json.obj end) (some e)

unfoldable pub tier1_config_form : Action Page
unfolding get_config
tier1_config_form = get_config >>= λ result. pure (show_config result)

-- `raw_values`
unfoldable pub raw_values : Form → List String → Dict String
raw_values form [] = []
raw_values form (name ∷ names) = (name, input form name) ∷ raw_values form names

abbrev pub add_parsed : String → Option ℤ → Dict ℤ × List String → Dict ℤ × List String
add_parsed name none (parsed, bad_fields) = (parsed, name ∷ bad_fields)
add_parsed name (some n) (parsed, bad_fields) = ((name, n) ∷ parsed, bad_fields)

abbrev pub after_update : Dict String → Tier1.ConfigResult → Page
after_update raw (Tier1.values v) = redirect "/tier1-config"
after_update raw (Tier1.error e) = config_form 400 raw (client e)

-- `int_of` is `int` of a text, with none for a ValueError.
module _ (int_of : String → Option ℤ) where
  -- The loop over `raw_values`.
  unfoldable pub parse_values : Dict String → Dict ℤ × List String
  parse_values [] = ([], [])
  parse_values ((name, raw) ∷ rest) = add_parsed name (int_of raw) (parse_values rest)

  abbrev pub update_parsed : Dict String → Dict ℤ × List String → Action Page
  update_parsed raw (parsed, []) = update_config parsed >>= λ result. pure (after_update raw result)
  update_parsed raw (parsed, name ∷ names) = pure (config_form 400 raw (no_numbers (name ∷ names)))

  -- `tier1_config_update`
  unfoldable pub tier1_config_update : Form → Action Page
  unfolding raw_values parse_values update_config
  tier1_config_update form =
      update_parsed (raw_values form config_fields) (parse_values (raw_values form config_fields))

-- `tier3_audit`
abbrev pub show_audit : Tier3.Result → Page
show_audit (Tier3.done entries) = audit_page 200 (or_nil entries) none
show_audit (Tier3.error e) = audit_page 502 (Json.arr nil) (some e)

-- `quote` is a parameter that all functions of admin/tier3_client.py take in the model.
unfoldable pub tier3_audit : (String → String) → Action Page
unfolding list_audit
tier3_audit quote = list_audit quote >>= λ result. pure (show_audit result)

-- `internal_agent`
abbrev pub show_status : AgentStatus.Status → Page
show_status (AgentStatus.status rules llm decisions) =
    agent_page 200 (AgentStatus.status rules llm (or_nil decisions))
show_status (AgentStatus.error e) = agent_page 502 (AgentStatus.error e)

unfoldable pub internal_agent : Action Page
unfolding get_status
internal_agent = get_status >>= λ result. pure (show_status result)
