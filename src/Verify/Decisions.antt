-- ===== src/Verify/Decisions.antt =====
-- verify/main.py: the endpoints that follow up on an order: the grants of the admin, the approval
-- queue with its decisions, the audit view and the status poll of a client.
pub mod Once
pub mod Privacy
pub mod Revocation
pub mod Listing
mod Tests
use agent_embassy.Prelude.{
  ℕ, ◌+◌, String, Bool, true, false, not, Option, none, some, List, [], ◌∷◌, reverse, map, leb,
  if◌then◌else◌, str_eq,
}
use agent_embassy.Prelude.Dict.{get, put, remove, values}
use agent_embassy.Prelude.Int.{ℤ, sub_ℕ}
use agent_embassy.Verify.Store.{
  Store, Tier3Event, Tier3PendingAction, Tier3Resolution, Outcome, Reason, Status, Detail,
}
use agent_embassy.Verify.Action.{
  Action, Mode, ok, pure, raise, gets, modify, time, require, ◌>>=◌, ◌>>◌,
}
use agent_embassy.Verify.Audit.{record_tier3_event, tier3_used_cents}
use agent_embassy.Verify.Approvals.{
  prune_tier3_pending, set_tier3_resolution, get_tier3_resolution, drop_pending, pop_pending,
  ids_where,
}
use agent_embassy.Verify.Network.{
  Introspected, claims, invalid_token, uncaught, execute_handoff, introspect_access_token,
}
use agent_embassy.Verify.Requests.{
  Request, client_ip, bearer_token, check_rate_limit, require_internal_admin, Tier3OrderRequest,
}
use agent_embassy.Verify.Orders.{
  Confirmation, handoff_envelope, settle_handoff, claimed_client, is_success,
}

-- `_tier3_grant_dict`
pub record GrantState : Type 0 where
  pub client_id : String
  pub weekly_limit_cents : Option ℕ
  pub used_cents : ℕ
  pub remaining_cents : Option ℤ
  pub window_seconds : ℕ

abbrev pub remaining_of : Option ℕ → ℕ → Option ℤ
remaining_of none used = none
remaining_of (some limit) used = some (sub_ℕ limit used)

unfoldable pub tier3_grant_dict : String → Action GrantState
tier3_grant_dict client_id = do
  limit ← gets (λ s. get s.tier3_grants client_id)
  used ← tier3_used_cents client_id
  window ← gets (λ s. s.tier3_window_seconds)
  pure (record {
    client_id = client_id;
    weekly_limit_cents = limit;
    used_cents = used;
    remaining_cents = remaining_of limit used;
    window_seconds = window;
  })

-- `get_tier3_grant`
unfoldable pub get_tier3_grant : String → Option String → String → Action GrantState
get_tier3_grant admin_token given client_id = do
  require_internal_admin admin_token given
  tier3_grant_dict client_id

-- `put_tier3_grant`, with the limit that its body's validation gave
unfoldable pub put_tier3_grant : String → Option String → String → ℕ → Action GrantState
put_tier3_grant admin_token given client_id weekly_limit_cents = do
  require_internal_admin admin_token given
  modify (λ s. record s { tier3_grants = put s.tier3_grants client_id weekly_limit_cents })
  tier3_grant_dict client_id

-- The rejection of a pending action that was popped: it is audited and resolved.
unfoldable pub refuse_pending :
    String → String → Tier3PendingAction → Reason → Detail → Action (Unit {0})
refuse_pending action_id client_id action reason detail = do
  record_tier3_event client_id action.item action.amount_cents Outcome.rejected reason
      (some action_id)
  set_tier3_resolution action_id client_id Status.rejected detail none none

-- The loop of `delete_tier3_grant` over the client's pending actions.
unfoldable pub cancel_each : String → List String → Action (Unit {0})
cancel_each client_id [] = pure tt
cancel_each client_id (id ∷ ids) = do
  action ← pop_pending id
  refuse_pending id client_id action Reason.mandate_revoked Detail.cancelled_by_revocation
  cancel_each client_id ids

-- The section of `delete_tier3_grant` under `tier3_lock`.
unfoldable pub revoke : String → Action (Unit {0})
revoke client_id = do
  modify (λ s. record s { tier3_grants = remove s.tier3_grants client_id })
  prune_tier3_pending
  own ← gets (λ s. ids_where (λ a. str_eq a.client_id client_id) s.tier3_pending)
  cancel_each client_id own

-- `delete_tier3_grant`
unfoldable pub delete_tier3_grant : String → Option String → String → Action GrantState
delete_tier3_grant admin_token given client_id = do
  require_internal_admin admin_token given
  revoke client_id
  tier3_grant_dict client_id

-- `get_tier3_audit`
unfoldable pub get_tier3_audit : String → Option String → Action (List Tier3Event)
get_tier3_audit admin_token given = do
  require_internal_admin admin_token given
  gets (λ s. reverse s.tier3_events)

-- `tier3_pending.pop(action_id, None)`, refused with a 404 where there is no such action.
unfoldable pub take_pending : String → Option Tier3PendingAction → Action Tier3PendingAction
take_pending action_id none = raise 404 "unknown, expired, or already resolved action"
take_pending action_id (some action) = do modify (drop_pending action_id); pure action

unfoldable pub claim_pending : String → Action Tier3PendingAction
claim_pending action_id = do
  prune_tier3_pending
  found ← gets (λ s. get s.tier3_pending action_id)
  take_pending action_id found

-- What `approve_tier3_action` knows when it leaves the lock.
pub record Approved : Type 0 where
  pub action : Tier3PendingAction
  pub limit : ℕ
  pub used : ℕ

-- The grant is looked up once more: without one the action is refused.
unfoldable pub approve_under : String → Tier3PendingAction → Option ℕ → Action Approved
approve_under action_id action none = do
  refuse_pending action_id action.client_id action Reason.revoked_while_pending
      Detail.revoked_in_queue
  raise 409 "this client's mandate was revoked while the action was pending"
approve_under action_id action (some limit) = do
  used ← tier3_used_cents action.client_id
  record_tier3_event action.client_id action.item action.amount_cents Outcome.accepted
      Reason.approved_by_human (some action_id)
  pure (record { action = action; limit = limit; used = used })

unfoldable pub approve_claimed : String → Tier3PendingAction → Action Approved
approve_claimed action_id action = do
  grant ← gets (λ s. get s.tier3_grants action.client_id)
  approve_under action_id action grant

-- The section of `approve_tier3_action` under `tier3_lock`.
unfoldable pub approve_pending : String → Action Approved
approve_pending action_id = do action ← claim_pending action_id; approve_claimed action_id action

abbrev pub order_of : Tier3PendingAction → Tier3OrderRequest
order_of action = record {
  item = action.item;
  quantity = action.quantity;
  amount_cents = action.amount_cents;
}

-- The handoff after the approval.
unfoldable pub carry_out : String → Approved → Action Confirmation
carry_out action_id a = do
  envelope ←
      handoff_envelope action_id a.action.client_id (order_of a.action) Mode.approved_by_human
        a.limit a.used (some "admin")
  result ← execute_handoff envelope
  settle_handoff action_id a.action.client_id (order_of a.action) result a.limit a.used true

-- `approve_tier3_action`
unfoldable pub approve_tier3_action : String → Option String → String → Action Confirmation
approve_tier3_action admin_token given action_id = do
  require_internal_admin admin_token given
  approved ← approve_pending action_id
  carry_out action_id approved

unfoldable pub reject_claimed : String → Tier3PendingAction → Action String
reject_claimed action_id action = do
  refuse_pending action_id action.client_id action Reason.rejected_by_human Detail.refused_by_human
  pure action_id

-- `reject_tier3_action`; its answer repeats the action id.
unfoldable pub reject_tier3_action : String → Option String → String → Action String
reject_tier3_action admin_token given action_id = do
  require_internal_admin admin_token given
  action ← claim_pending action_id
  reject_claimed action_id action

-- `sorted(..., key=lambda a: a.queued_at)`: a stable insertion sort.
unfoldable pub insert_by_age :
    Tier3PendingAction → List Tier3PendingAction → List Tier3PendingAction
insert_by_age a [] = a ∷ []
insert_by_age a (b ∷ bs) =
    if leb a.queued_at b.queued_at then a ∷ b ∷ bs else b ∷ insert_by_age a bs

unfoldable pub sort_by_age : List Tier3PendingAction → List Tier3PendingAction
sort_by_age [] = []
sort_by_age (a ∷ as') = insert_by_age a (sort_by_age as')

unfoldable pub with_grants :
    List Tier3PendingAction → Action (List (Tier3PendingAction × GrantState))
with_grants [] = pure []
with_grants (a ∷ more) = do
  grant ← tier3_grant_dict a.client_id
  others ← with_grants more
  pure ((a, grant) ∷ others)

-- `list_tier3_approvals`
unfoldable pub list_tier3_approvals :
    String → Option String → Action (List (Tier3PendingAction × GrantState))
list_tier3_approvals admin_token given = do
  require_internal_admin admin_token given
  prune_tier3_pending
  entries ← gets (λ s. sort_by_age (values s.tier3_pending))
  with_grants entries

-- The caller of the status poll. Nothing is audited on this path.
unfoldable pub poll_claims : Introspected → Action String
poll_claims (claims fields) = pure (claimed_client fields)
poll_claims invalid_token = raise 401 "invalid, expired, or revoked access token"
poll_claims (uncaught exception) = raise 500 exception

unfoldable pub poll_token : Option String → Action String
poll_token none = raise 401 "missing bearer access token"
poll_token (some token) = do found ← introspect_access_token; poll_claims found

-- A resolution is shown to the client that it belongs to.
unfoldable pub show_own : String → Option Tier3Resolution → Action Tier3Resolution
show_own client_id none = raise 404 "unknown action id"
show_own client_id (some r) =
    if str_eq r.client_id client_id then pure r else raise 404 "unknown action id"

-- From the identified client on.
unfoldable pub poll_as : String → String → Action Tier3Resolution
poll_as action_id client_id = do
  prune_tier3_pending
  resolution ← get_tier3_resolution action_id
  show_own client_id resolution

-- `get_tier3_order_status`
unfoldable pub get_tier3_order_status : String → Request → Action Tier3Resolution
get_tier3_order_status action_id request = do
  most ← gets (λ s. s.tier3_poll_rate_limit_max)
  window ← gets (λ s. s.tier3_poll_rate_limit_window)
  allowed ← check_rate_limit "tier3_poll" (client_ip request) most window
  require allowed 429 "too many status requests, slow down"
  require (is_success request.ssl_client_verify) 401 "client certificate not verified"
  client_id ← poll_token (bearer_token request.authorization)
  poll_as action_id client_id
