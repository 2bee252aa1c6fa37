-- ===== src/Verify/Orders/Budget.antt =====
-- The mandate: what the section under the lock lets through.
use agent_embassy.Prelude.{
  none, some, ℕ, ◌+◌, ◌≤◌, String, ◌≡◌, refl, ap, Bool, true, false, inl, inr, arith, leb, leb→le,
  Bool-cases,
}
use agent_embassy.Verify.Store.{Tier3Event, Outcome, Reason}
use agent_embassy.Verify.Action.{World, ok}
use agent_embassy.Verify.Action.Rules.{Returns, returns_rules}
use agent_embassy.Verify.Audit.{append_event, used_cents, record_tier3_event, tier3_used_cents}
use agent_embassy.Verify.Audit.Usage.{used_cents-append_event_le, used_cents_antitone, cost-le}
use agent_embassy.Verify.Requests.{Tier3OrderRequest}
use agent_embassy.Verify.Orders.{
  Reservation, reserved, queued, queue_full, over_mandate, queue_or_refuse, reserve_budget, reserve,
}

-- The section reports a reservation only from its within-mandate branch.
abbrev pub IsNotReserved : Reservation → Type 0
IsNotReserved (reserved _) = ⊥
IsNotReserved queued = Unit
IsNotReserved queue_full = Unit

queue_or_refuse-IsNotReserved :
    (id c : String) (body : Tier3OrderRequest) (remaining limit : ℕ) (full : Bool)
    → Returns IsNotReserved (queue_or_refuse id c body remaining limit full)
unfolding queue_or_refuse
queue_or_refuse-IsNotReserved id c body remaining limit true = search returns_rules
queue_or_refuse-IsNotReserved id c body remaining limit false = search returns_rules

pub over_mandate-IsNotReserved :
    (id c : String) (body : Tier3OrderRequest) (used limit : ℕ)
    → Returns IsNotReserved (over_mandate id c body used limit)
unfolding over_mandate
over_mandate-IsNotReserved id c body used limit =
    search (returns_rules, queue_or_refuse-IsNotReserved)

within_limit :
    (c : String) (limit now : ℕ) (w : World) (e : Tier3Event)
    → e.client_id ≡ c
    → w.outside.clock 0 ≤ e.at
    → e.at ≤ now
    → used_cents (w.outside.clock 0) c w.store + e.amount_cents ≤ limit
    → used_cents now c (append_event e w.store) ≤ limit
within_limit c limit now w e own steady later fits = rw (← own) (
    omega (
      arith,
      used_cents-append_event_le now e w.store later,
      cost-le now e w.store,
      used_cents_antitone (w.outside.clock 0) now c w.store (omega arith),
      ap (λ (k : String). used_cents now k w.store) own,
    ))

-- The row that reserves the budget of an order.
abbrev pub reservation : String → String → Tier3OrderRequest → World → Tier3Event
reservation id c body w = record {
  at = w.outside.clock 1;
  client_id = c;
  item = body.item;
  amount_cents = body.amount_cents;
  outcome = Outcome.accepted;
  reason = Reason.within_mandate;
  order_number = none;
  action_id = some id;
}

-- A reservation records that row and does nothing else to the store.
pub reserve-reserved :
    (id c : String) (body : Tier3OrderRequest) (limit used : ℕ) (w : World)
    → (reserve id c body limit w).0 ≡ ok (reserved used)
    → (reserve id c body limit w).1.store ≡ append_event (reservation id c body w) w.store
unfolding reserve tier3_used_cents reserve_budget record_tier3_event
reserve-reserved id c body limit used w e =
    elim (Bool-cases (leb (used_cents (w.outside.clock 0) c w.store + body.amount_cents) limit)) [
      | inl fits ↦ rw fits
      | inr over ↦ absurd (
          (over_mandate-IsNotReserved id c body (used_cents (w.outside.clock 0) c w.store) limit).at
            _ (reserved used) (rw over at e))
    ]

-- If an order is let through as within its mandate, then what its client has used from then on,
-- the order included, stays within the limit of the grant, while the clock does not run backwards.
pub reserve-within :
    (id c : String) (body : Tier3OrderRequest) (limit used now : ℕ) (w : World)
    → w.outside.clock 0 ≤ w.outside.clock 1
    → w.outside.clock 1 ≤ now
    → (reserve id c body limit w).0 ≡ ok (reserved used)
    → used_cents now c (reserve id c body limit w).1.store ≤ limit
unfolding reserve tier3_used_cents reserve_budget record_tier3_event
reserve-within id c body limit used now w steady later e =
    elim (Bool-cases (leb (used_cents (w.outside.clock 0) c w.store + body.amount_cents) limit)) [
      | inl fits ↦ rw fits (within_limit c limit now w _ refl steady later (leb→le _ _ fits))
      | inr over ↦ absurd (
          (over_mandate-IsNotReserved id c body (used_cents (w.outside.clock 0) c w.store) limit).at
            _ (reserved used) (rw over at e))
    ]
