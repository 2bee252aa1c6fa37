-- ===== src/Verify/Orders/Spending.antt =====
-- What an order within the mandate costs in the end, from the reservation to the settlement.
use agent_embassy.Prelude.{
  ℕ, ◌+◌, ◌≤◌, ◌<◌, String, ◌≡◌, refl, ap, ◌∙◌, false, some, [], arith, if◌then◌else◌, length,
  str_eq_refl,
}
use agent_embassy.Verify.Store.{Store, Tier3Event, Outcome}
use agent_embassy.Verify.Action.{World, ok}
use agent_embassy.Verify.Audit.{append_event, used_cents}
use agent_embassy.Verify.Audit.View.{rows}
use agent_embassy.Verify.Audit.Usage.{used_cents-append_event, cost}
use agent_embassy.Verify.Audit.Settlement.{share}
use agent_embassy.Verify.Audit.Reserved.{append_event-newest}
use agent_embassy.Verify.Network.{HandoffResult}
use agent_embassy.Verify.Requests.{Tier3OrderRequest}
use agent_embassy.Verify.Orders.{reserved, reserve, settle_handoff}
use agent_embassy.Verify.Orders.Budget.{reservation, reserve-reserved}
use agent_embassy.Verify.Orders.Release.{keeps_budget, settle_handoff-budget}

cost-live :
    (now : ℕ) (e : Tier3Event) (s : Store)
    → e.outcome ≡ Outcome.accepted
    → now ≤ e.at + s.tier3_window_seconds
    → cost now e s ≡ e.amount_cents
cost-live now e s paid live = rw paid (ground arith)

share-live :
    (now : ℕ) (e : Tier3Event) (s : Store)
    → e.outcome ≡ Outcome.accepted
    → now ≤ e.at + s.tier3_window_seconds
    → share now e.client_id s e ≡ e.amount_cents
share-live now e s paid live = rw (paid, str_eq_refl e.client_id) (ground arith)

settled_spending :
    (now : ℕ) (id : String) (body : Tier3OrderRequest) (limit used : ℕ) (result : HandoffResult)
    (s : Store) (e : Tier3Event) (after : World)
    → after.store ≡ append_event e s
    → e.action_id ≡ some id
    → e.outcome ≡ Outcome.accepted
    → e.at ≤ now
    → now ≤ e.at + s.tier3_window_seconds
    → length (rows e.client_id s) < s.tier3_audit_max
    → used_cents now e.client_id
        (settle_handoff id e.client_id body result limit used false after).1.store
      ≡ used_cents now e.client_id s + (if keeps_budget result then e.amount_cents else 0)
unfolding append_event
settled_spending now id body limit used result s e after same hit paid later live room =
    let c = e.client_id in
    let (before, split) = append_event-newest e s (omega arith) in
    let settles =
      settle_handoff-budget now c id c body limit used false after before [] e
        (ap (λ t. t.tier3_events) same ∙ split) hit refl paid result in
    let spends = ap (used_cents now c) same ∙ used_cents-append_event now e s later room in
    let amount = cost-live now e s paid live in
    let released = share-live now e after.store paid (rw same live) in
    ground (arith, settles, spends, amount, released)

-- An order that was let through as within its mandate costs its client, once the handoff is settled
-- and until the row leaves the window, exactly its amount if the action was or may have been executed,
-- and nothing otherwise. The handoff left the store alone, and the client has room for a row.
pub settle_handoff-spending :
    (id c : String) (body : Tier3OrderRequest) (limit used now : ℕ) (result : HandoffResult)
    (w after : World)
    → (reserve id c body limit w).0 ≡ ok (reserved used)
    → after.store ≡ (reserve id c body limit w).1.store
    → length (rows c w.store) < w.store.tier3_audit_max
    → w.outside.clock 1 ≤ now
    → now ≤ w.outside.clock 1 + w.store.tier3_window_seconds
    → used_cents now c (settle_handoff id c body result limit used false after).1.store
      ≡ used_cents now c w.store + (if keeps_budget result then body.amount_cents else 0)
settle_handoff-spending id c body limit used now result w after passed kept room later live =
    settled_spending now id body limit used result w.store (reservation id c body w) after
      (kept ∙ reserve-reserved id c body limit used w passed) refl refl later live room
