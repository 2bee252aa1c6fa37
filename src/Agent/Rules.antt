-- ===== src/Agent/Rules.antt =====
-- agent/rules.py: the routing rules, their check at import and their evaluation.
use agent_embassy.Prelude.{
  ℕ, String, Bool, true, false, ◌&&◌, ◌||◌, not, Option, none, some, List, [], ◌∷◌, ltb,
  if◌then◌else◌, str_eq, any, all,
}
use agent_embassy.Python.Text.{is_empty}

-- A rule of rules.json whose fields have the types that the check at import demands.
pub record Rule : Type 0 where
  pub action_type : String
  pub max_amount_cents : Option ℕ
  pub channel : String
  pub fallback_channel : Option String

pub record Config : Type 0 where
  pub allowed_channels : List String
  pub rules : List Rule

abbrev pub member : String → List String → Bool
member s l = any (λ t. str_eq t s) l

-- The demands on one rule.
abbrev valid_fallback : List String → Rule → Option String → Bool
valid_fallback allowed rule none = true
valid_fallback allowed rule (some fallback) = member fallback allowed && str_eq rule.channel "llm"

unfoldable pub valid_rule : List String → Rule → Bool
valid_rule allowed rule =
    (member rule.channel allowed || str_eq rule.channel "llm")
    && valid_fallback allowed rule rule.fallback_channel

abbrev is_nil : List String → Bool
is_nil [] = true
is_nil (_ ∷ _) = false

-- The check of the module's import: without it the service does not start.
unfoldable pub boots : Config → Bool
unfolding valid_rule
boots config =
    not (is_nil config.allowed_channels)
    && (all (λ c. not (is_empty c)) config.allowed_channels
        && all (valid_rule config.allowed_channels) config.rules)

abbrev over_ceiling : Option ℕ → ℕ → Bool
over_ceiling none amount_cents = false
over_ceiling (some ceiling) amount_cents = ltb ceiling amount_cents

-- The two `continue`s of `_match`, negated.
abbrev pub applies : String → ℕ → Rule → Bool
applies action_type amount_cents rule =
    str_eq rule.action_type action_type && not (over_ceiling rule.max_amount_cents amount_cents)

-- `_match`
unfoldable pub first_match : String → ℕ → List Rule → Option Rule
first_match action_type amount_cents [] = none
first_match action_type amount_cents (rule ∷ rules) =
    if applies action_type amount_cents rule
    then some rule
    else first_match action_type amount_cents rules

abbrev channel_of : Option Rule → Option String
channel_of none = none
channel_of (some rule) = some rule.channel

abbrev fallback_of : Option Rule → Option String
fallback_of none = none
fallback_of (some rule) = rule.fallback_channel

-- `evaluate`
unfoldable pub evaluate : Config → String → ℕ → Option String
unfolding first_match
evaluate config action_type amount_cents =
    channel_of (first_match action_type amount_cents config.rules)

-- `fallback_channel`
unfoldable pub fallback_channel : Config → String → ℕ → Option String
unfolding first_match
fallback_channel config action_type amount_cents =
    fallback_of (first_match action_type amount_cents config.rules)
