-- ===== src/Verify/Network.antt =====
-- verify/agent_handoff.py (the handoff to the internal agent) and verify/introspection.py (the
-- token check against Keycloak). Each reply is taken from the outside world, call by call.
pub mod Attempts
use agent_embassy.Prelude.{
  ℕ, String, Bool, true, false, ◌&&◌, ◌||◌, not, Option, none, some, List, ◌∷◌, ◌==◌, if◌then◌else◌,
  str_eq, is_none,
}
use agent_embassy.Python.Json.{Json, Fields, Body, get_field, as_str, is_true}
use agent_embassy.Python.Text.{is_empty}
use agent_embassy.Verify.Action.{
  World, Envelope, Transport, Action, Result, ok, err, rest, pure, raise, ◌>>=◌,
}

-- `HandoffResult`: a constructor for each `kind`, where `answered` is the kind "ok", whose status is
-- "executed" or "failed".
pub data HandoffStatus : Type 0 where
  executed failed : HandoffStatus

pub data HandoffResult : Type 0 where
  answered : HandoffStatus → (channel decided_by reference : Option String) → HandoffResult
  down unknown : HandoffResult

-- What `_parse_ok_body` does: it returns a result or `None`, or it fails with the `TypeError` of a
-- list or a dict that is looked up in a set.
pub data Parsed : Type 0 where
  parsed : HandoffResult → Parsed
  not_parsed type_error : Parsed

-- A value that `in` can look up in a set.
abbrev pub is_hashable : Option Json → Bool
is_hashable (some (Json.arr _)) = false
is_hashable (some (Json.obj _)) = false
is_hashable _ = true

-- The member of `_VALID_STATUSES` that a text is.
unfoldable pub valid_status : Option String → Option HandoffStatus
valid_status none = none
valid_status (some s) =
    if str_eq s "executed"
    then some HandoffStatus.executed
    else if str_eq s "failed"
    then some HandoffStatus.failed
    else none

-- `decided_by in _VALID_DECIDED_BY`, for a value that can be looked up.
abbrev pub valid_decided_by : Option String → Bool
valid_decided_by none = false
valid_decided_by (some s) = str_eq s "rules" || str_eq s "llm"

-- `isinstance(reference, str) and reference`
abbrev pub non_empty : Option String → Bool
non_empty none = false
non_empty (some s) = not (is_empty s)

-- The checks after the status is known to be one of the two.
unfoldable pub checked : HandoffStatus → (channel decided_by reference : Option Json) → Parsed
checked HandoffStatus.failed channel decided_by reference =
    parsed (answered HandoffStatus.failed (as_str channel) (as_str decided_by) (as_str reference))
checked HandoffStatus.executed channel decided_by reference =
    if is_none (as_str channel)
    then not_parsed
    else if not (is_hashable decided_by)
    then type_error
    else if valid_decided_by (as_str decided_by) && non_empty (as_str reference)
    then parsed
        (answered HandoffStatus.executed (as_str channel) (as_str decided_by) (as_str reference))
    else not_parsed

abbrev checked_status : Option HandoffStatus → Fields → Parsed
checked_status none fields = not_parsed
checked_status (some status) fields =
    checked status (get_field fields "channel") (get_field fields "decided_by")
      (get_field fields "reference")

-- `data.get("action_id") == expected_action_id`
abbrev pub same_text : Option String → String → Bool
same_text none t = false
same_text (some s) t = str_eq s t

unfoldable pub parse_fields : Fields → String → Parsed
unfolding get_field valid_status checked
parse_fields fields expected_action_id =
    if not (same_text (as_str (get_field fields "action_id")) expected_action_id)
    then not_parsed
    else if not (is_hashable (get_field fields "status"))
    then type_error
    else checked_status (valid_status (as_str (get_field fields "status"))) fields

-- `_parse_ok_body`
unfoldable pub parse_ok_body : Body → String → Parsed
unfolding parse_fields
parse_ok_body (Body.json (Json.obj fields)) expected = parse_fields fields expected
parse_ok_body _ expected = not_parsed

-- `_post_action`: one attempt.
unfoldable pub post_action : Envelope → Action Transport
post_action envelope w = (
  ok (w.outside.agent 0),
  record w {
    outside = record w.outside { agent = rest w.outside.agent };
    sent = envelope ∷ w.sent;
  },
)

abbrev pub result_of : Parsed → Action HandoffResult
result_of (parsed r) = pure r
result_of not_parsed = pure unknown
result_of type_error = raise 500 "TypeError"

-- What `execute_handoff` makes of the transport of its last attempt.
unfoldable pub read_transport : Envelope → Transport → Action HandoffResult
unfolding parse_ok_body
read_transport envelope Transport.timeout = pure unknown
read_transport envelope Transport.down = pure down
read_transport envelope (Transport.response status body) =
    if status == 200 then result_of (parse_ok_body body envelope.action_id) else pure down

-- A timeout is followed by one more attempt with the same envelope.
unfoldable pub retry : Envelope → Transport → Action Transport
unfolding post_action
retry envelope Transport.timeout = post_action envelope
retry envelope t = pure t

-- `execute_handoff`
unfoldable pub execute_handoff : Envelope → Action HandoffResult
unfolding retry read_transport
execute_handoff envelope = do
  first ← post_action envelope
  last ← retry envelope first
  read_transport envelope last

-- What `introspect_access_token` does: it returns the claims, raises `InvalidToken`, or fails with
-- an exception that is neither (bytes that are no UTF-8, JSON that is no object).
pub data Introspected : Type 0 where
  claims : Fields → Introspected
  invalid_token : Introspected
  uncaught : String → Introspected

unfoldable pub read_introspection : ℕ → Body → Introspected
unfolding get_field
read_introspection status Body.undecodable =
    if status == 200 then uncaught "UnicodeDecodeError" else invalid_token
read_introspection status Body.malformed = invalid_token
read_introspection status (Body.json (Json.obj fields)) =
    if status == 200 && is_true (get_field fields "active") then claims fields else invalid_token
read_introspection status (Body.json _) =
    if status == 200 then uncaught "AttributeError" else invalid_token

-- `introspect_access_token`, with the request of `_post_introspect` to Keycloak.
unfoldable pub introspect_access_token : Action Introspected
unfolding read_introspection
introspect_access_token w = (
  ok (read_introspection (w.outside.introspections 0).0 (w.outside.introspections 0).1),
  record w { outside = record w.outside { introspections = rest w.outside.introspections } },
)
