-- ===== src/Verify/Audit.antt =====
-- verify/main.py: the audit trail of Tier 3 (`record_tier3_event`, `tier3_used_cents` and
-- `settle_tier3_event`), which is at once the record of the budget that is used.
pub mod View
pub mod Usage
pub mod Settlement
pub mod Reserved
pub mod Clean
use agent_embassy.Prelude.{
  ℕ, ◌+◌, String, Bool, true, false, ◌&&◌, Option, none, some, List, [], ◌∷◌, ◌++◌, reverse, leb,
  if◌then◌else◌, str_eq, select, sum_of,
}
use agent_embassy.Verify.Store.{Store, Tier3Event, Outcome, Reason}
use agent_embassy.Verify.Capped.{cap_per_client}
use agent_embassy.Verify.Action.{Action, modify, time, ok, ◌>>=◌}

-- `e.at >= now - window`
abbrev pub in_window : ℕ → ℕ → Tier3Event → Bool
in_window now window e = leb now (e.at + window)

abbrev pub is_accepted : Outcome → Bool
is_accepted Outcome.accepted = true
is_accepted _ = false

-- `record_tier3_event` with its clock reading in `e.at`: append, drop what has left the window, cap
-- each client's rows.
unfoldable pub append_event : Tier3Event → Store → Store
append_event e s = record s {
  tier3_events =
      cap_per_client (λ x. x.client_id) s.tier3_audit_max
        (select (in_window e.at s.tier3_window_seconds) (s.tier3_events ++ e ∷ []));
}

-- `Store.record_tier3_event`; no caller gives an order number.
unfoldable pub record_tier3_event :
    (client_id item : String) (amount_cents : ℕ)
    → Outcome
    → Reason
    → Option String
    → Action (Unit {0})
record_tier3_event client_id item amount_cents outcome reason action_id = do
  now ← time
  modify (
      append_event (record {
        at = now;
        client_id = client_id;
        item = item;
        amount_cents = amount_cents;
        outcome = outcome;
        reason = reason;
        order_number = none;
        action_id = action_id;
      }))

-- The rows that `tier3_used_cents` sums at the clock reading `now`.
abbrev pub counts : ℕ → ℕ → String → Tier3Event → Bool
counts now window client_id e =
    str_eq e.client_id client_id && (is_accepted e.outcome && in_window now window e)

-- `Store.tier3_used_cents` at the clock reading `now`.
unfoldable pub used_cents : ℕ → String → Store → ℕ
used_cents now client_id s =
    sum_of (λ e. e.amount_cents)
      (select (counts now s.tier3_window_seconds client_id) s.tier3_events)

unfoldable pub tier3_used_cents : String → Action ℕ
tier3_used_cents client_id = do now ← time; (λ w. (ok (used_cents now client_id w.store), w))

-- `event.action_id == action_id`
abbrev pub has_id : String → Option String → Bool
has_id action_id none = false
has_id action_id (some id) = str_eq id action_id

-- The new fields of the row that is settled; an order number is only overwritten by one.
abbrev pub settled : Outcome → Reason → Option String → Tier3Event → Tier3Event
settled outcome reason none e = record e { outcome = outcome; reason = reason }
settled outcome reason (some n) e = record e {
  outcome = outcome;
  reason = reason;
  order_number = some n;
}

-- The loop of `settle_tier3_event` over the reversed list: the first row that fits is changed.
pub settle_first : String → Outcome → Reason → Option String → List Tier3Event → List Tier3Event
settle_first action_id outcome reason order_number [] = []
settle_first action_id outcome reason order_number (e ∷ es) =
    if has_id action_id e.action_id
    then settled outcome reason order_number e ∷ es
    else e ∷ settle_first action_id outcome reason order_number es

-- `Store.settle_tier3_event`
unfoldable pub settle_event : String → Outcome → Reason → Option String → Store → Store
settle_event action_id outcome reason order_number s = record s {
  tier3_events =
      reverse (settle_first action_id outcome reason order_number (reverse s.tier3_events));
}

unfoldable pub settle_tier3_event : String → Outcome → Reason → Option String → Action (Unit {0})
settle_tier3_event action_id outcome reason order_number =
    modify (settle_event action_id outcome reason order_number)
