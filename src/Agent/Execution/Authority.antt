-- ===== src/Agent/Execution/Authority.antt =====
-- Who chooses the channel: the rules, and the LLM only among the allowed channels.
use agent_embassy.Prelude.{
  ℕ, String, ◌≡◌, refl, true, false, Option, none, some, List, [], ◌∷◌, arith, str_eq, str_eq_refl,
  all, inl, inr, Bool-cases, Option-cases,
}
use agent_embassy.Python.Json.{Json, Body, field, end}
use agent_embassy.Agent.Rules.{
  Rule, Config, member, valid_rule, boots, applies, first_match, evaluate, fallback_channel,
}
use agent_embassy.Agent.World.{World, Settings}
use agent_embassy.Agent.Llm.{
  validate, allowed_equal, read_completion, choose_channel, is_configured,
}
use agent_embassy.Agent.Execution.{Envelope, route_decision, route}

-- A channel that may be used: none at all, or one of the list.
abbrev pub IsAllowed : List String → Option String → Type 0
IsAllowed allowed none = Unit
IsAllowed allowed (some channel) = member channel allowed ≡ true

IsAllowed-cons :
    (c : String) (channels : List String) (o : Option String)
    → IsAllowed channels o
    → IsAllowed (c ∷ channels) o
IsAllowed-cons c channels none h = tt
IsAllowed-cons c channels (some d) h = ground arith

allowed_equal-IsAllowed :
    (value : String) (channels : List String) → IsAllowed channels (allowed_equal value channels)
unfolding allowed_equal
allowed_equal-IsAllowed value [] = tt
allowed_equal-IsAllowed value (c ∷ channels) = elim (Bool-cases (str_eq value c)) [
  | inl same ↦ rw same (rw (str_eq_refl c))
  | inr other ↦ rw other (IsAllowed-cons c channels _ (allowed_equal-IsAllowed value channels))
]

-- Whatever the LLM answers, the validation lets through nothing but an allowed channel.
pub validate-IsAllowed :
    (body : Body) (allowed : List String) → IsAllowed allowed (validate body allowed)
unfolding validate
validate-IsAllowed (Body.json (Json.obj (field key (Json.str value) end))) allowed =
    elim (Bool-cases (str_eq key "channel")) [
      | inl named ↦ rw named (allowed_equal-IsAllowed value allowed)
      | inr other ↦ rw other tt
    ]
validate-IsAllowed _ allowed = tt

first_match-valid :
    (allowed : List String) (action : String) (amount : ℕ) (rules : List Rule) (rule : Rule)
    → all (valid_rule allowed) rules ≡ true
    → first_match action amount rules ≡ some rule
    → valid_rule allowed rule ≡ true
unfolding first_match
first_match-valid allowed action amount [] rule v m = cc
first_match-valid allowed action amount (r ∷ rules) rule v m =
    elim (Bool-cases (applies action amount r)) [
      | inl fits ↦ let same : some r ≡ some rule = rw fits at m in ground arith
      | inr fails ↦
          first_match-valid allowed action amount rules rule (ground arith) (rw fails at m)
    ]

valid_channel :
    (allowed : List String) (rule : Rule)
    → valid_rule allowed rule ≡ true
    → str_eq rule.channel "llm" ≡ false
    → member rule.channel allowed ≡ true
unfolding valid_rule
valid_channel allowed rule v h = ground arith

valid_fallback_channel :
    (allowed : List String) (rule : Rule) (o : Option String)
    → rule.fallback_channel ≡ o
    → valid_rule allowed rule ≡ true
    → IsAllowed allowed o
unfolding valid_rule
valid_fallback_channel allowed rule none e v = tt
valid_fallback_channel allowed rule (some f) e v = ground arith

boots-rules :
    (config : Config)
    → boots config ≡ true
    → all (valid_rule config.allowed_channels) config.rules ≡ true
unfolding boots
boots-rules config b = ground arith

fallback-IsAllowed :
    (config : Config) (action : String) (amount : ℕ)
    → boots config ≡ true
    → IsAllowed config.allowed_channels (fallback_channel config action amount)
unfolding fallback_channel
fallback-IsAllowed config action amount b =
    elim (Option-cases (first_match action amount config.rules)) [
      | inl missing ↦ rw missing tt
      | inr (rule, found) ↦ rw found (
          valid_fallback_channel config.allowed_channels rule rule.fallback_channel refl (
            first_match-valid config.allowed_channels action amount config.rules rule
              (boots-rules config b) found))
    ]

completion-IsAllowed :
    (prompt : String) (allowed : List String) (answer : Option (String × Body))
    → IsAllowed allowed (read_completion prompt allowed answer).channel
completion-IsAllowed prompt allowed none = tt
completion-IsAllowed prompt allowed (some (raw, body)) = validate-IsAllowed body allowed

choose-IsAllowed :
    (model prompt : String) (allowed : List String) (w : World)
    → IsAllowed allowed (choose_channel model prompt allowed w).0.channel
unfolding choose_channel
choose-IsAllowed model prompt allowed w = elim (Bool-cases (is_configured model)) [
  | inl on ↦ rw on (completion-IsAllowed prompt allowed (w.outside.completions 0))
  | inr off ↦ rw off tt
]

module _ (settings : Settings) (prompt_of : Envelope → String) where
  chosen-IsAllowed :
      (e : Envelope) (rule : Rule) (w : World)
      → boots settings.config ≡ true
      → valid_rule settings.config.allowed_channels rule ≡ true
      → IsAllowed settings.config.allowed_channels
          (route_decision settings prompt_of e (some rule.channel) w).0.channel
  unfolding route_decision
  chosen-IsAllowed e rule w b v = elim (Bool-cases (str_eq rule.channel "llm")) [
    | inr direct ↦ rw direct (valid_channel settings.config.allowed_channels rule v direct)
    | inl llm ↦ elim (Bool-cases (is_configured settings.llm_model)) [
      | inl on ↦
          rw (llm, on)
            (choose-IsAllowed settings.llm_model (prompt_of e) settings.config.allowed_channels w)
      | inr off ↦ rw (llm, off) (fallback-IsAllowed settings.config e.action_type e.amount_cents b)
    ]
  ]

  -- In a service that has started, an order is routed to no channel or to an allowed one, whoever
  -- decides: the rules, the LLM, or the fallback in its place.
  pub route-IsAllowed :
      (e : Envelope) (w : World)
      → boots settings.config ≡ true
      → IsAllowed settings.config.allowed_channels (route settings prompt_of e w).0.channel
  unfolding route evaluate route_decision
  route-IsAllowed e w b =
      elim (Option-cases (first_match e.action_type e.amount_cents settings.config.rules)) [
        | inl missing ↦ rw missing tt
        | inr (rule, found) ↦ rw found (
            chosen-IsAllowed e rule w b (
              first_match-valid settings.config.allowed_channels e.action_type e.amount_cents
                settings.config.rules rule (boots-rules settings.config b) found))
      ]
