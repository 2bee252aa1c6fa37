-- ===== src/Verify/Orders.antt =====
-- verify/main.py: placing an order (`create_tier3_order`), the envelope for the internal agent and
-- the settlement of the handoff.
pub mod Budget
pub mod Silence
pub mod Release
pub mod Spending
use agent_embassy.Prelude.{
  ℕ, ◌+◌, ◌-◌, max, String, Bool, true, false, not, Option, none, some, List, leb, if◌then◌else◌,
  str_eq, length, select,
}
use agent_embassy.Prelude.Dict.{get, values}
use agent_embassy.Prelude.Int.{ℤ, sub_ℕ}
use agent_embassy.Python.Json.{Json, Fields, get_field}
use agent_embassy.Python.Text.{is_empty, decimal, ◌+++◌}
use agent_embassy.Verify.Store.{Store, Tier3PendingAction, Outcome, Reason, Status, Detail}
use agent_embassy.Verify.Action.{
  Action, Envelope, Mode, ok, pure, raise, gets, time, random_token, require, ◌>>=◌, ◌>>◌,
}
use agent_embassy.Verify.Audit.{record_tier3_event, tier3_used_cents, settle_tier3_event}
use agent_embassy.Verify.Approvals.{prune_tier3_pending, queue_tier3_action, set_tier3_resolution}
use agent_embassy.Verify.Network.{
  HandoffStatus, HandoffResult, answered, down, unknown, Introspected, claims, invalid_token,
  uncaught, execute_handoff, introspect_access_token,
}
use agent_embassy.Verify.Requests.{
  Request, client_ip, bearer_token, check_rate_limit, Tier3OrderRequest,
}

-- The body of the answer to an executed order; `price_cents` is `price` before its division by 100.
pub record Confirmation : Type 0 where
  pub order_number : Option String
  pub item : String
  pub quantity : ℕ
  pub price_cents : ℕ
  pub action_id : String
  pub channel : Option String
  pub status_path : String
  pub remaining_cents : ℤ

-- The answers to an order that are no errors: 201, and 202 for one that waits for a human.
pub data OrderReply : Type 0 where
  created : Confirmation → OrderReply
  pending_approval : (action_id status_path : String) (expires_at : ℕ) → OrderReply

abbrev pub status_path : String → String
status_path action_id = "/tier3/orders/" +++ action_id

-- `_handoff_envelope`
unfoldable pub handoff_envelope :
    String → String → Tier3OrderRequest → Mode → ℕ → ℕ → Option String → Action Envelope
handoff_envelope action_id client_id body mode limit used approved_by = do
  now ← time
  window ← gets (λ s. s.tier3_window_seconds)
  pure (record {
    action_id = action_id;
    action_type = "order.place";
    client_id = client_id;
    requested_at = now;
    item = body.item;
    quantity = body.quantity;
    amount_cents = body.amount_cents;
    mode = mode;
    weekly_limit_cents = limit;
    used_cents = used;
    remaining_cents = limit - used;
    window_seconds = window;
    approved_by = approved_by;
  })

-- The three ways in which `_settle_handoff` ends with an error.
unfoldable pub settle_failure :
    String → String → Outcome → Reason → Status → Detail → ℕ → String → Action Confirmation
settle_failure action_id client_id outcome reason status detail http_status http_detail = do
  settle_tier3_event action_id outcome reason none
  set_tier3_resolution action_id client_id status detail none none
  raise http_status http_detail

-- `_settle_handoff`
unfoldable pub settle_handoff :
    String → String → Tier3OrderRequest → HandoffResult → ℕ → ℕ → Bool → Action Confirmation
settle_handoff action_id client_id body
      (answered HandoffStatus.executed channel decided_by reference) limit used by_human =
    do
      settle_tier3_event action_id Outcome.accepted
          (Reason.executed_via by_human channel decided_by) reference
      set_tier3_resolution action_id client_id Status.executed (Detail.done_via channel) channel
          reference
      pure (record {
        order_number = reference;
        item = body.item;
        quantity = body.quantity;
        price_cents = body.amount_cents;
        action_id = action_id;
        channel = channel;
        status_path = status_path action_id;
        remaining_cents = sub_ℕ limit (used + body.amount_cents);
      })
settle_handoff action_id client_id body (answered HandoffStatus.failed _ _ _) limit used by_human =
    settle_failure action_id client_id Outcome.rejected (Reason.not_executed by_human) Status.failed
      Detail.could_not_execute 502
      "the internal agent could not execute this action; the mandate budget was not consumed"
settle_handoff action_id client_id body down limit used by_human =
    settle_failure action_id client_id Outcome.rejected (Reason.agent_unavailable by_human)
      Status.failed Detail.agent_down 503
      "the internal agent is unavailable; the action was not executed and the mandate budget was not consumed"
settle_handoff action_id client_id body unknown limit used by_human =
    settle_failure action_id client_id Outcome.accepted (Reason.incomplete by_human)
      Status.execution_unknown Detail.handoff_incomplete 502
      ("the handoff to the internal agent did not complete: the action MAY have executed. "
        +++ "Do not resubmit -- the mandate budget has been consumed pending reconciliation; "
        +++ "poll /tier3/orders/" +++ action_id)

-- A refusal of an order: it is audited, then raised.
unfoldable pub refuse_order :
    {A : Type 0} → String → Tier3OrderRequest → Reason → Option String → ℕ → String → Action A
refuse_order client_id body reason action_id status detail = do
  record_tier3_event client_id body.item body.amount_cents Outcome.rejected reason action_id
  raise status detail

-- `claims.get("client_id") or claims.get("azp") or "unknown"`; Keycloak gives texts for both.
abbrev pub text_or : Option Json → String → String
text_or (some (Json.str s)) other = if is_empty s then other else s
text_or _ other = other

unfoldable pub claimed_client : Fields → String
claimed_client fields =
    text_or (get_field fields "client_id") (text_or (get_field fields "azp") "unknown")

abbrev pub is_success : Option String → Bool
is_success none = false
is_success (some s) = str_eq s "SUCCESS"

-- The part of `create_tier3_order` that finds out who is calling, from the claims on.
unfoldable pub order_client : Tier3OrderRequest → Introspected → Action String
order_client body (claims fields) = pure (claimed_client fields)
order_client body invalid_token =
    refuse_order "unknown" body Reason.token_rejected none 401
      "invalid, expired, or revoked access token"
order_client body (uncaught exception) = raise 500 exception

unfoldable pub order_token : Tier3OrderRequest → Option String → Action String
order_token body none =
    refuse_order "unknown" body Reason.missing_bearer none 401 "missing bearer access token"
order_token body (some token) = do found ← introspect_access_token; order_client body found

-- From the certificate check to the client's id.
unfoldable pub authenticate_order : Tier3OrderRequest → Request → Action String
authenticate_order body request =
    if not (is_success request.ssl_client_verify)
    then refuse_order "unknown" body Reason.certificate_not_verified none 401
        "client certificate not verified"
    else order_token body (bearer_token request.authorization)

-- The grant of the client.
unfoldable pub granted : Tier3OrderRequest → String → Option ℕ → Action ℕ
granted body client_id none =
    refuse_order client_id body Reason.no_grant none 403 "no Tier 3 grant for this client"
granted body client_id (some limit) = pure limit

-- What the section under `tier3_lock` has done.
pub data Reservation : Type 0 where
  reserved : (used : ℕ) → Reservation
  queued queue_full : Reservation

abbrev pub pending_count : String → Store → ℕ
pending_count client_id s =
    length
      (select (λ (a : Tier3PendingAction). str_eq a.client_id client_id) (values s.tier3_pending))

-- The over-mandate branch of that section, once the pending actions of the client are counted.
unfoldable pub queue_or_refuse :
    String → String → Tier3OrderRequest → ℕ → ℕ → Bool → Action Reservation
queue_or_refuse action_id client_id body remaining limit full =
    if full then pure queue_full else (do
      queue_tier3_action action_id client_id body.item body.quantity body.amount_cents
      record_tier3_event client_id body.item body.amount_cents Outcome.queued
          (Reason.exceeds_mandate remaining limit) (some action_id)
      set_tier3_resolution action_id client_id Status.queued Detail.awaiting_approval none none
      pure queued)

unfoldable pub over_mandate : String → String → Tier3OrderRequest → ℕ → ℕ → Action Reservation
over_mandate action_id client_id body used limit = do
  prune_tier3_pending
  full ← gets (λ s. leb s.tier3_pending_max_per_client (pending_count client_id s))
  queue_or_refuse action_id client_id body (limit - used) limit full

unfoldable pub reserve_budget : String → String → Tier3OrderRequest → ℕ → Action (Unit {0})
reserve_budget action_id client_id body used =
    record_tier3_event client_id body.item body.amount_cents Outcome.accepted Reason.within_mandate
      (some action_id)

-- The section under `tier3_lock`.
unfoldable pub reserve : String → String → Tier3OrderRequest → ℕ → Action Reservation
reserve action_id client_id body limit = do
  used ← tier3_used_cents client_id
  if leb (used + body.amount_cents) limit
      then (do reserve_budget action_id client_id body used; pure (reserved used))
      else over_mandate action_id client_id body used limit

-- `store.tier3_pending[action_id].expires_at` in the 202 answer
unfoldable pub pending_reply : String → Option Tier3PendingAction → Action OrderReply
pending_reply action_id none = raise 500 "KeyError"
pending_reply action_id (some action) =
    pure (pending_approval action_id (status_path action_id) action.expires_at)

-- The handler from the end of the locked section on.
unfoldable pub complete_order :
    String → String → Tier3OrderRequest → ℕ → Reservation → Action OrderReply
complete_order action_id client_id body limit (reserved used) = do
  envelope ← handoff_envelope action_id client_id body Mode.within_mandate limit used none
  result ← execute_handoff envelope
  confirmation ← settle_handoff action_id client_id body result limit used false
  pure (created confirmation)
complete_order action_id client_id body limit queued = do
  action ← gets (λ s. get s.tier3_pending action_id)
  pending_reply action_id action
complete_order action_id client_id body limit queue_full =
    refuse_order client_id body Reason.queue_full (some action_id) 403
      "too many actions already awaiting approval for this client"

-- f"act-{int(time.time())}-{secrets.token_hex(4)}"
unfoldable pub new_action_id : Action String
new_action_id = do now ← time; hex ← random_token; pure ("act-" +++ decimal now +++ "-" +++ hex)

-- `create_tier3_order`
unfoldable pub create_tier3_order : Tier3OrderRequest → Request → Action OrderReply
create_tier3_order body request = do
  most ← gets (λ s. s.tier3_rate_limit_max)
  window ← gets (λ s. s.tier3_rate_limit_window)
  allowed ← check_rate_limit "tier3_orders" (client_ip request) most window
  require allowed 429 "too many Tier 3 order requests, slow down"
  client_id ← authenticate_order body request
  grant ← gets (λ s. get s.tier3_grants client_id)
  limit ← granted body client_id grant
  action_id ← new_action_id
  reservation ← reserve action_id client_id body limit
  complete_order action_id client_id body limit reservation
