-- ===== src/Agent/Endpoints.antt =====
-- agent/main.py: the two endpoints around the execution, with their tokens.
use agent_embassy.Prelude.{
  ℕ, String, ◌≡◌, refl, not, ◌&&◌, Option, none, some, List, str_eq, reverse, if◌then◌else◌,
}
use agent_embassy.Python.Text.{is_empty, is_ascii}
use agent_embassy.Agent.World.{Outcome, Decision, Settings, State, pure, ◌>>=◌}
use agent_embassy.Agent.Execution.{Envelope, execute_action}

-- An answer: the body of an execution, the decisions of the status page, or an error by its status.
pub data Answer : Type 0 where
  outcome : Outcome → Answer
  decisions : List Decision → Answer
  refused : (status : ℕ) → Answer

-- `_require_agent_token`, `_require_status_token`: the status of the refusal, if any. The comparison
-- of `secrets.compare_digest` fails on texts that are not ASCII.
unfoldable pub refusal : String → Option String → Option ℕ
refusal configured none = some 403
refusal configured (some given) =
    if is_empty given
    then some 403
    else if not (is_ascii given && is_ascii configured)
    then some 500
    else if str_eq given configured
    then none
    else some 403

-- The two tokens of the service.
module _ (settings : Settings) (prompt_of : Envelope → String)
    (agent_token status_token : String) where
  -- What follows the check of the token: the envelope, or none where its payload is refused.
  unfoldable pub execute_valid : Option Envelope → State Answer
  unfolding execute_action
  execute_valid none = pure (refused 422)
  execute_valid (some envelope) =
      execute_action settings prompt_of envelope >>= λ body. pure (outcome body)

  -- `execute_action`, with the payload as `OrderPayload` makes it.
  unfoldable pub post_action : Option String → Option Envelope → State Answer
  unfolding refusal execute_valid
  post_action given envelope = elim (refusal agent_token given) [
    | some status ↦ pure (refused status)
    | none ↦ execute_valid envelope
  ]

  -- `status`, without the summaries of the configuration.
  unfoldable pub status : Option String → State Answer
  unfolding refusal
  status given w = elim (refusal status_token given) [
    | some code ↦ (refused code, w)
    | none ↦ (decisions (reverse w.decision_log), w)
  ]

refusal-wrong : refusal "secret" (some "guess") ≡ some 403
unfolding refusal is_ascii
refusal-wrong = refl
