-- ===== src/Admin/Tier3.antt =====
-- admin/tier3_client.py: grants, audit view and approvals of the running gateway.
use agent_embassy.Prelude.{ℕ, String, Option, none, some, ◌==◌, if◌then◌else◌}
use agent_embassy.Prelude.Int.{ℤ}
use agent_embassy.Python.Text.{◌+++◌}
use agent_embassy.Python.Json.{Json, end, field, nil, get_field, truthy}
use agent_embassy.Python.Attempt
use agent_embassy.Python.Attempt.{Attempt, value, fields_of, loads}
use agent_embassy.Admin.Http.{
  Method, Reply, Action, pure, attempt, request, status_of, body_of, ◌>>=◌,
}

-- The errors of the results: a constructor for each text, with what is put into it. `detail` is the
-- text of the gateway, where it gives one.
pub data Problem : Type 0 where
  http : (status : ℕ) → Problem
  unparseable out_of_range : Problem
  no_longer_pending mandate_revoked agent_unavailable : Problem
  detail : Json → Problem
  not_executed : Problem

-- `GrantResult`, `AuditResult`, `ApprovalsResult`, `ApprovalActionResult`
pub data Result : Type 0 where
  done : Json → Result
  error : Problem → Result

-- The JSON of a reply under `except json.JSONDecodeError`, and what is made of it.
abbrev pub parsed : Reply → (Json → Attempt Result) → Attempt Result
parsed reply use_it =
    Attempt.◌>>=◌ (loads (body_of reply))
      λ found. elim found [ none ↦ value (error unparseable) | some v ↦ use_it v ]

-- `_parse_grant`
unfoldable pub parse_grant : Reply → Attempt Result
parse_grant reply =
    if status_of reply == 200
    then parsed reply (λ v. value (done v))
    else value (error (http (status_of reply)))

abbrev entries_or_nil : Option Json → Json
entries_or_nil none = Json.arr nil
entries_or_nil (some v) = v

-- `parsed.get("entries", [])`
unfoldable pub parse_entries : Reply → Attempt Result
unfolding get_field
parse_entries reply =
    if status_of reply == 200
    then parsed reply (λ v.
      Attempt.◌>>=◌ (fields_of v)
        λ fields. value (done (entries_or_nil (get_field fields "entries"))))
    else value (error (http (status_of reply)))

-- `detail or "..."`
abbrev detail_or : Option Json → Problem
detail_or none = not_executed
detail_or (some v) = if truthy v then detail v else not_executed

-- The error of a 502: its `detail`, where the body is JSON.
unfoldable pub parse_502 : Reply → Attempt Result
unfolding get_field
parse_502 reply = Attempt.◌>>=◌ (loads (body_of reply)) λ found. elim found [
  | none ↦ value (error not_executed)
  | some v ↦
      Attempt.◌>>=◌ (fields_of v) λ fields. value (error (detail_or (get_field fields "detail")))
]

-- What `_approval_action` makes of the reply.
unfoldable pub read_action : Reply → Attempt Result
unfolding parse_502
read_action reply =
    if status_of reply == 404
    then value (error no_longer_pending)
    else if status_of reply == 409
    then value (error mandate_revoked)
    else if status_of reply == 503
    then value (error agent_unavailable)
    else if status_of reply == 502
    then parse_502 reply
    else if status_of reply == 200
    then parsed reply (λ v. value (done v))
    else value (error (http (status_of reply)))

-- `quote` is `urllib.parse.quote` with no safe characters.
module _ (quote : String → String) where
  grant_url : String → String
  grant_url client_id = "/tier3/admin-grants/" +++ quote client_id

  -- `get_grant`
  unfoldable pub get_grant : String → Action Result
  unfolding parse_grant grant_url
  get_grant client_id = do
    reply ← request Method.get (grant_url client_id) none
    attempt (parse_grant reply)

  abbrev pub limit_body : ℤ → Json
  limit_body weekly_limit_cents =
      Json.obj (field "weekly_limit_cents" (Json.int weekly_limit_cents) end)

  -- `set_grant`
  unfoldable pub set_grant : String → ℤ → Action Result
  unfolding parse_grant grant_url
  set_grant client_id weekly_limit_cents = do
    reply ← request Method.put (grant_url client_id) (some (limit_body weekly_limit_cents))
    if status_of reply == 422 then pure (error out_of_range) else attempt (parse_grant reply)

  -- `revoke_grant`
  unfoldable pub revoke_grant : String → Action Result
  unfolding parse_grant grant_url
  revoke_grant client_id = do
    reply ← request Method.delete (grant_url client_id) none
    attempt (parse_grant reply)

  -- `list_audit`, `list_pending`
  unfoldable pub list_audit : Action Result
  unfolding parse_entries
  list_audit = do
    reply ← request Method.get "/tier3/admin-audit" none
    attempt (parse_entries reply)

  unfoldable pub list_pending : Action Result
  unfolding parse_entries
  list_pending = do
    reply ← request Method.get "/tier3/admin-approvals" none
    attempt (parse_entries reply)

  -- `_approval_action`
  unfoldable pub approval_action : String → String → Action Result
  unfolding read_action
  approval_action action_id verb = do
    reply ←
        request Method.post ("/tier3/admin-approvals/" +++ quote action_id +++ "/" +++ verb) none
    attempt (read_action reply)

  unfoldable pub approve_action : String → Action Result
  unfolding approval_action
  approve_action action_id = approval_action action_id "approve"

  unfoldable pub reject_action : String → Action Result
  unfolding approval_action
  reject_action action_id = approval_action action_id "reject"
