-- ===== src/Admin/AgentStatus.antt =====
-- admin/agent_client.py: the status of the internal agent.
use agent_embassy.Prelude.{ℕ, Option, none, some, ◌==◌, if◌then◌else◌}
use agent_embassy.Python.Json.{Json, nil, get_field}
use agent_embassy.Python.Attempt
use agent_embassy.Python.Attempt.{Attempt, value, fields_of, loads}
use agent_embassy.Admin.Http.{
  Method, Reply, Action, response, unreachable, failed, attempt, request, ◌>>=◌,
}

-- `AgentStatusResult`
pub data Problem : Type 0 where
  not_reached unparseable : Problem
  http : (status : ℕ) → Problem

pub data Status : Type 0 where
  status : (rules llm : Option Json) (decisions : Json) → Status
  error : Problem → Status

abbrev or_nil : Option Json → Json
or_nil none = Json.arr nil
or_nil (some v) = v

-- Any failure to get a response is one error here.
unfoldable pub read_status : Reply → Attempt Status
unfolding get_field
read_status unreachable = value (error not_reached)
read_status failed = value (error not_reached)
read_status (response code location body) =
    if code == 200
    then Attempt.◌>>=◌ (loads body) (λ found. elim found [
      | none ↦ value (error unparseable)
      | some v ↦ Attempt.◌>>=◌ (fields_of v) λ fields. value (
          status (get_field fields "rules") (get_field fields "llm")
            (or_nil (get_field fields "decisions")))
    ])
    else value (error (http code))

-- `get_status`
unfoldable pub get_status : Action Status
unfolding read_status
get_status = do reply ← request Method.get "/internal/status" none; attempt (read_status reply)
