-- ===== src/Verify/Audit/Reserved.antt =====
-- The row that was recorded last.
use agent_embassy.Prelude.{
  ◌+◌, ◌<◌, ◌≡◌, ap, ◌∙◌, List, [], ◌∷◌, ◌++◌, arith, le→leb, select, select-append,
}
use agent_embassy.Verify.Store.{Store, Tier3Event}
use agent_embassy.Verify.Capped.{cap_per_client, cap_per_client-newest}
use agent_embassy.Verify.Audit.{in_window, append_event}

-- Where the cap is not zero, the event that is recorded is the last row of the trail.
pub append_event-newest :
    (e : Tier3Event) (s : Store)
    → 0 < s.tier3_audit_max
    → (before : List Tier3Event) × ((append_event e s).tier3_events ≡ before ++ e ∷ [])
unfolding append_event
append_event-newest e s room =
    let live = in_window e.at s.tier3_window_seconds in
    let (before, split) =
      cap_per_client-newest (λ x. x.client_id) s.tier3_audit_max (select live s.tier3_events) e
        room in
    (
      before,
      ap (cap_per_client (λ x. x.client_id) s.tier3_audit_max) (
            select-append live s.tier3_events (e ∷ [])
            ∙ rw (le→leb e.at (e.at + s.tier3_window_seconds) (omega arith)))
          ∙ split,
    )
