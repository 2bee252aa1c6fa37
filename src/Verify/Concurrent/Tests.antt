-- ===== src/Verify/Concurrent/Tests.antt =====
-- Concurrent orders at concrete inputs: an order within the mandate is in flight while another one
-- of the client is queued; then the first is settled.
use agent_embassy.Prelude.{◌≤◌, refl, false, [], ◌∷◌, arith}
use agent_embassy.Verify.Action.{World}
use agent_embassy.Verify.Network.{unknown}
use agent_embassy.Verify.Orders.{
  reserve, reserve_budget, over_mandate, queue_or_refuse, settle_handoff,
}
use agent_embassy.Verify.Audit.{append_event, used_cents, tier3_used_cents, record_tier3_event}
use agent_embassy.Verify.Approvals.{
  prune_tier3_pending, expire_each, pop_pending, popped, expire_one, set_tier3_resolution, resolve,
  add_resolution, queue_tier3_action,
}
use agent_embassy.Verify.Store.{new_store}
use agent_embassy.Verify.Capped.{cap_per_client, cap_loop}
use agent_embassy.Verify.Tests.{world, order}
use agent_embassy.Verify.Concurrent.{Step, Reach, start, later}
use agent_embassy.Verify.Concurrent.Mandate.{settle_handoff-Reach, Reach-within}

abbrev first_reserved : World
first_reserved = (reserve "p" "shop" order 5000 world).1

abbrev second_queued : World
second_queued = (reserve "q" "shop" order 5000 first_reserved).1

abbrev first_settled : World
first_settled = (settle_handoff "p" "shop" order unknown 5000 1500 false second_queued).1

interleaved : Reach "shop" 5000 world first_settled []
unfolding reserve tier3_used_cents reserve_budget record_tier3_event append_event used_cents
    new_store over_mandate prune_tier3_pending queue_or_refuse expire_each pop_pending popped
    cap_per_client cap_loop expire_one set_tier3_resolution resolve add_resolution
    queue_tier3_action
interleaved =
    let a : Reach "shop" 5000 world first_reserved ("p" ∷ []) =
      later start (Step.order "p" "shop" order 5000 (λ _. refl) refl refl refl) in
    let b : Reach "shop" 5000 world second_queued ("p" ∷ []) =
      later a (Step.order "q" "shop" order 5000 (λ _. refl) refl refl refl) in
    settle_handoff-Reach "p" "shop" order unknown 5000 1500 false refl b

Reach-within_example : used_cents (first_settled.outside.clock 0) "shop" first_settled.store ≤ 5000
unfolding used_cents new_store
Reach-within_example = Reach-within (λ n. omega arith) (omega arith) interleaved
