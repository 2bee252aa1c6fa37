-- ===== src/Verify/Orders/Silence.antt =====
-- When the internal agent is asked, and when it is not.
use agent_embassy.Prelude.{
  ℕ, String, ◌≡◌, refl, Bool, true, false, ◌||◌, Option, none, some, List, ◌==◌, arith, inl, inr,
  Bool-cases,
}
use agent_embassy.Verify.Store.{Tier3PendingAction, Reason}
use agent_embassy.Verify.Action.{
  World, HttpError, Envelope, Mode, Transport, Action, Result, ok, err, pure, random_token, ◌>>=◌,
}
use agent_embassy.Verify.Action.Rules.{
  Preserves, Quiet, Avoids, Quiet-Preserves, Quiet-Avoids, Quiet-bind, Avoids-bind, Preserves-gets,
  Preserves-require, preserves_rules,
}
use agent_embassy.Verify.Approvals.Frame.{
  IsApart, IsAside, frame_rules, used-Preserves, prune-Preserves, record-Preserves,
}
use agent_embassy.Verify.Audit.{settle_tier3_event}
use agent_embassy.Verify.Approvals.{set_tier3_resolution}
use agent_embassy.Verify.Network.{
  HandoffStatus, HandoffResult, answered, down, unknown, Introspected, claims, invalid_token,
  uncaught, introspect_access_token, execute_handoff, Parsed, parsed, not_parsed, type_error,
  parse_ok_body, result_of, read_transport, retry, post_action,
}
use agent_embassy.Verify.Requests.{Request, check_rate_limit, Tier3OrderRequest}
use agent_embassy.Verify.Orders.{
  OrderReply, created, pending_approval, Reservation, reserved, queued, queue_full, refuse_order,
  order_client, order_token, authenticate_order, granted, queue_or_refuse, over_mandate,
  reserve_budget, reserve, pending_reply, complete_order, new_action_id, create_tier3_order,
  settle_handoff, settle_failure, handoff_envelope,
}

abbrev pub sent : World → List Envelope
sent w = w.sent

pub sent-IsApart : IsApart sent
sent-IsApart = record { clock = λ w c. refl; events = λ w l. refl; resolutions = λ w d. refl }

pub sent-IsAside : IsAside sent
sent-IsAside = record { apart = sent-IsApart; pending = λ w d. refl }

-- The answers of an order that was not handed to the agent: 202, and the refusals 401, 403 and 429.
abbrev pub IsUnsent : Result OrderReply → Type 0
IsUnsent (ok (created _)) = ⊥
IsUnsent (ok (pending_approval _ _ _)) = Unit
IsUnsent (err e) = (e.status == 401 || (e.status == 403 || e.status == 429)) ≡ true

rate-Preserves : (b ip : String) (n k : ℕ) → Preserves sent (check_rate_limit b ip n k)
unfolding check_rate_limit
rate-Preserves b ip n k = record { at = λ w. refl }

token-Preserves : Preserves sent random_token
token-Preserves = record { at = λ w. refl }

introspect-Preserves : Preserves sent introspect_access_token
unfolding introspect_access_token
introspect-Preserves = record { at = λ w. refl }

refuse-Preserves :
    {A : Type 0} (c : String) (body : Tier3OrderRequest) (r : Reason) (id : Option String) (n : ℕ)
    (d : String)
    → Preserves sent (refuse_order {A = A} c body r id n d)
unfolding refuse_order
refuse-Preserves c body r id n d = search (frame_rules, sent-IsApart)

client-Preserves :
    (body : Tier3OrderRequest) (i : Introspected) → Preserves sent (order_client body i)
unfolding order_client
client-Preserves body (claims fields) = search preserves_rules
client-Preserves body invalid_token = search (preserves_rules, refuse-Preserves)
client-Preserves body (uncaught x) = search preserves_rules

order_token-Preserves :
    (body : Tier3OrderRequest) (t : Option String) → Preserves sent (order_token body t)
unfolding order_token
order_token-Preserves body none = search (preserves_rules, refuse-Preserves)
order_token-Preserves body (some t) =
    search (preserves_rules, introspect-Preserves, client-Preserves)

authenticate-Preserves :
    (body : Tier3OrderRequest) (request : Request)
    → Preserves sent (authenticate_order body request)
unfolding authenticate_order
authenticate-Preserves body request =
    search (preserves_rules, refuse-Preserves, order_token-Preserves)

granted-Preserves :
    (body : Tier3OrderRequest) (c : String) (g : Option ℕ) → Preserves sent (granted body c g)
unfolding granted
granted-Preserves body c none = search (preserves_rules, refuse-Preserves)
granted-Preserves body c (some l) = search preserves_rules

queue-Preserves_all :
    (id c : String) (body : Tier3OrderRequest) (remaining limit : ℕ) (full : Bool)
    → Preserves sent (queue_or_refuse id c body remaining limit full)
unfolding queue_or_refuse
queue-Preserves_all id c body remaining limit full =
    search (frame_rules, sent-IsApart, sent-IsAside) depth 8

over-Preserves :
    (id c : String) (body : Tier3OrderRequest) (used limit : ℕ)
    → Preserves sent (over_mandate id c body used limit)
unfolding over_mandate
over-Preserves id c body used limit =
    search (preserves_rules, prune-Preserves, sent-IsAside, queue-Preserves_all)

budget-Preserves :
    (id c : String) (body : Tier3OrderRequest) (used : ℕ)
    → Preserves sent (reserve_budget id c body used)
unfolding reserve_budget
budget-Preserves id c body used = search (record-Preserves, sent-IsApart)

-- No envelope is sent under the lock.
pub reserve-Preserves :
    (id c : String) (body : Tier3OrderRequest) (limit : ℕ)
    → Preserves sent (reserve id c body limit)
unfolding reserve
reserve-Preserves id c body limit =
    search (preserves_rules, used-Preserves, sent-IsApart, budget-Preserves, over-Preserves) depth 7

new_action_id-Preserves : Preserves sent new_action_id
unfolding new_action_id
new_action_id-Preserves = record { at = λ w. refl }

-- Once the agent was asked, no answer is one of those.
settled_never :
    (r : HandoffResult) (id c : String) (body : Tier3OrderRequest) (limit used : ℕ) (h : Bool)
    → Avoids IsUnsent (settle_handoff id c body r limit used h >>= λ x. pure (created x))
unfolding settle_handoff settle_failure settle_tier3_event set_tier3_resolution
settled_never (answered HandoffStatus.executed ch by ref) id c body limit used h = record {
  at = λ w p. p;
}
settled_never (answered HandoffStatus.failed ch by ref) id c body limit used h = record {
  at = λ w p. cc;
}
settled_never down id c body limit used h = record { at = λ w p. cc }
settled_never unknown id c body limit used h = record { at = λ w p. cc }

parsed_errors :
    (p : Parsed) (w : World) (x : HttpError) → (result_of p w).0 ≡ err x → x.status ≡ 500
parsed_errors (parsed r) w x e = cc
parsed_errors not_parsed w x e = cc
parsed_errors type_error w x e = ground arith

read_errors :
    (e : Envelope) (t : Transport) (w : World) (x : HttpError)
    → (read_transport e t w).0 ≡ err x
    → x.status ≡ 500
unfolding read_transport
read_errors e Transport.timeout w x p = cc
read_errors e Transport.down w x p = cc
read_errors e (Transport.response status body) w x p = elim (Bool-cases (status == 200)) [
  | inl h ↦ parsed_errors (parse_ok_body body e.action_id) w x (rw h at p)
  | inr h ↦ let q : (pure down w).0 ≡ err x = rw h at p in cc q
]

retried_errors :
    (e : Envelope) (t : Transport) (w : World) (x : HttpError)
    → ((retry e t >>= read_transport e) w).0 ≡ err x
    → x.status ≡ 500
unfolding retry post_action
retried_errors e Transport.timeout w x p = read_errors e _ _ x p
retried_errors e Transport.down w x p = read_errors e Transport.down w x p
retried_errors e (Transport.response status body) w x p =
    read_errors e (Transport.response status body) w x p

-- The only error of the handoff itself is the uncaught one of a malformed answer.
pub handoff_errors :
    (e : Envelope) (w : World) (x : HttpError) → (execute_handoff e w).0 ≡ err x → x.status ≡ 500
unfolding execute_handoff post_action
handoff_errors e w x p = retried_errors e (w.outside.agent 0) _ x p

handoff_never :
    (e : Envelope) (k : HandoffResult → Action OrderReply)
    → ((r : HandoffResult) → Avoids IsUnsent (k r))
    → Avoids IsUnsent (execute_handoff e >>= k)
handoff_never e k q =
    Avoids-bind (execute_handoff e) k
      (λ w x p u. let s : x.status ≡ 500 = handoff_errors e w x p in cc (rw s at u)) q

envelope-Preserves :
    (id c : String) (body : Tier3OrderRequest) (limit used : ℕ)
    → Preserves sent (handoff_envelope id c body Mode.within_mandate limit used none)
unfolding handoff_envelope
envelope-Preserves id c body limit used = record { at = λ w. refl }

pending_reply-Preserves :
    (id : String) (found : Option Tier3PendingAction) → Preserves sent (pending_reply id found)
unfolding pending_reply
pending_reply-Preserves id none = search preserves_rules
pending_reply-Preserves id (some a) = search preserves_rules

complete-Quiet :
    (id c : String) (body : Tier3OrderRequest) (limit : ℕ) (r : Reservation)
    → Quiet sent IsUnsent (complete_order id c body limit r)
unfolding complete_order
complete-Quiet id c body limit (reserved used) =
    Quiet-bind (handoff_envelope id c body Mode.within_mandate limit used none) _
      (envelope-Preserves id c body limit used)
      λ e. Quiet-Avoids _ (handoff_never e _ λ r. settled_never r id c body limit used false)
complete-Quiet id c body limit queued =
    Quiet-Preserves _ (search (preserves_rules, pending_reply-Preserves))
complete-Quiet id c body limit queue_full = Quiet-Preserves _ (refuse-Preserves c body _ _ _ _)

ruleset quiet_rules = (
  Quiet-bind, Preserves-gets, Preserves-require, rate-Preserves, authenticate-Preserves,
  granted-Preserves, new_action_id-Preserves, reserve-Preserves, complete-Quiet,
)

create-Quiet :
    (body : Tier3OrderRequest) (request : Request)
    → Quiet sent IsUnsent (create_tier3_order body request)
unfolding create_tier3_order
create-Quiet body request = search quiet_rules depth 12

-- An order that is answered with 202, or refused with 401, 403 or 429, has sent nothing to the
-- internal agent.
pub create_tier3_order-unsent :
    (body : Tier3OrderRequest) (request : Request) (w : World)
    → IsUnsent (create_tier3_order body request w).0
    → (create_tier3_order body request w).1.sent ≡ w.sent
create_tier3_order-unsent body request w p = (create-Quiet body request).at w p
