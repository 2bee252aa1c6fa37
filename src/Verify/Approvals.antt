-- ===== src/Verify/Approvals.antt =====
-- verify/main.py: the approval queue (`prune_tier3_pending`, `queue_tier3_action`) and the pollable
-- resolutions (`set_tier3_resolution`, `get_tier3_resolution`) of the class `Store`.
pub mod Frame
pub mod Queue
pub mod Resolutions
use agent_embassy.Prelude.{
  ℕ, ◌+◌, String, Bool, Option, none, some, List, [], ◌∷◌, map, ltb, leb, if◌then◌else◌, select,
}
use agent_embassy.Prelude.Dict.{Dict, get, put, remove, values}
use agent_embassy.Verify.Store.{
  Store, Tier3PendingAction, Tier3Resolution, Outcome, Reason, Status, Detail,
}
use agent_embassy.Verify.Capped.{cap_per_client}
use agent_embassy.Verify.Action.{Action, ok, pure, raise, gets, modify, time, ◌>>=◌, ◌>>◌}
use agent_embassy.Verify.Audit.{record_tier3_event}

-- `new if new is not None else old`
abbrev pub or_old : Option String → Option String → Option String
or_old none old = old
or_old (some new) old = some new

-- The resolution that is there already, changed in place.
abbrev pub renewed :
    ℕ → Status → Detail → Option String → Option String → Tier3Resolution → Tier3Resolution
renewed now status detail channel order_number r = record r {
  status = status;
  detail = detail;
  updated_at = now;
  channel = or_old channel r.channel;
  order_number = or_old order_number r.order_number;
}

abbrev pub entry_client : String × Tier3Resolution → String
entry_client e = e.1.client_id

-- `r.updated_at >= now - ttl`
abbrev pub is_fresh : ℕ → ℕ → String × Tier3Resolution → Bool
is_fresh now ttl e = leb now (e.1.updated_at + ttl)

-- A new resolution: it is added, then stale entries and each client's oldest ones are dropped.
unfoldable pub add_resolution : Tier3Resolution → Store → Store
add_resolution r s = record s {
  tier3_resolutions = cap_per_client entry_client s.tier3_resolution_max_per_client (
      select (is_fresh r.updated_at s.tier3_resolution_ttl_seconds)
        (put s.tier3_resolutions r.action_id r));
}

-- `Store.set_tier3_resolution` at the clock reading `now`.
unfoldable pub resolve :
    ℕ → String → String → Status → Detail → Option String → Option String → Store → Store
resolve now action_id client_id status detail channel order_number s =
    elim (get s.tier3_resolutions action_id) [
      | some r ↦ record s {
        tier3_resolutions =
            put s.tier3_resolutions action_id (renewed now status detail channel order_number r);
      }
      | none ↦
          add_resolution
            (record {
              action_id = action_id;
              client_id = client_id;
              status = status;
              detail = detail;
              created_at = now;
              updated_at = now;
              channel = channel;
              order_number = order_number;
            })
            s
    ]

unfoldable pub set_tier3_resolution :
    String → String → Status → Detail → Option String → Option String → Action (Unit {0})
set_tier3_resolution action_id client_id status detail channel order_number = do
  now ← time
  modify (resolve now action_id client_id status detail channel order_number)

-- `Store.get_tier3_resolution`: a stale resolution is deleted when it is read.
unfoldable pub forget_resolution : String → Action (Option Tier3Resolution)
forget_resolution action_id = do
  modify (λ s. record s { tier3_resolutions = remove s.tier3_resolutions action_id })
  pure none

unfoldable pub fresh_resolution : String → Option Tier3Resolution → Action (Option Tier3Resolution)
fresh_resolution action_id none = pure none
fresh_resolution action_id (some r) = do
  now ← time
  ttl ← gets (λ s. s.tier3_resolution_ttl_seconds)
  if ltb (r.updated_at + ttl) now then forget_resolution action_id else pure (some r)

unfoldable pub get_tier3_resolution : String → Action (Option Tier3Resolution)
get_tier3_resolution action_id = do
  found ← gets (λ s. get s.tier3_resolutions action_id)
  fresh_resolution action_id found

-- `Store.queue_tier3_action`
unfoldable pub queue_tier3_action : String → String → String → ℕ → ℕ → Action Tier3PendingAction
queue_tier3_action action_id client_id item quantity amount_cents = do
  now ← time
  ttl ← gets (λ s. s.tier3_pending_ttl_seconds)
  let action : Tier3PendingAction = record {
    action_id = action_id;
    client_id = client_id;
    item = item;
    quantity = quantity;
    amount_cents = amount_cents;
    queued_at = now;
    expires_at = now + ttl;
  }
  modify (λ s. record s { tier3_pending = put s.tier3_pending action_id action })
  pure action

-- `tier3_pending.pop(action_id)`, where a missing key is a `KeyError`; `pop_pending` keeps the
-- popped action in hand.
abbrev pub drop_pending : String → Store → Store
drop_pending action_id s = record s { tier3_pending = remove s.tier3_pending action_id }

unfoldable pub popped : String → Option Tier3PendingAction → Action Tier3PendingAction
popped action_id none = raise 500 "KeyError"
popped action_id (some action) = do modify (drop_pending action_id); pure action

unfoldable pub pop_pending : String → Action Tier3PendingAction
pop_pending action_id = do found ← gets (λ s. get s.tier3_pending action_id); popped action_id found

-- One round of the loop of `prune_tier3_pending`, from the popped action on.
unfoldable pub expire_one : String → Tier3PendingAction → Action (Unit {0})
expire_one id action = do
  record_tier3_event action.client_id action.item action.amount_cents Outcome.expired
      Reason.pending_expired (some id)
  set_tier3_resolution id action.client_id Status.expired Detail.expired_undecided none none

-- The loop over the expired ids.
unfoldable pub expire_each : List String → Action (Unit {0})
expire_each [] = pure tt
expire_each (id ∷ ids) = do action ← pop_pending id; expire_one id action; expire_each ids

-- `[a.action_id for a in pending.values() if test(a)]`
abbrev pub ids_where : (Tier3PendingAction → Bool) → Dict Tier3PendingAction → List String
ids_where test pending = map (λ a. a.action_id) (select test (values pending))

-- `Store.prune_tier3_pending`
unfoldable pub prune_tier3_pending : Action (Unit {0})
prune_tier3_pending = do
  now ← time
  overdue ← gets (λ s. ids_where (λ a. ltb a.expires_at now) s.tier3_pending)
  expire_each overdue
