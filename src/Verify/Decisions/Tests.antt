-- ===== src/Verify/Decisions/Tests.antt =====
-- The approval queue of the world of the tests, in which one of two actions is overdue.
use mathlib.Core.List.{Perm}
use agent_embassy.Prelude.{refl, some, List, [], ◌∷◌}
use agent_embassy.Prelude.Int.{pos}
use agent_embassy.Prelude.Dict.{values}
use agent_embassy.Python.Text.{is_ascii}
use agent_embassy.Verify.Store.{Tier3PendingAction, new_store}
use agent_embassy.Verify.Capped.{cap_per_client, cap_loop}
use agent_embassy.Verify.Audit.{append_event, record_tier3_event, tier3_used_cents, used_cents}
use agent_embassy.Verify.Approvals.{
  prune_tier3_pending, expire_each, pop_pending, popped, expire_one, set_tier3_resolution, resolve,
  add_resolution,
}
use agent_embassy.Verify.Requests.{require_internal_admin}
use agent_embassy.Verify.Tests.{world, queued_action}
use agent_embassy.Verify.Decisions.{
  GrantState, list_tier3_approvals, with_grants, tier3_grant_dict, sort_by_age, insert_by_age,
}
use agent_embassy.Verify.Decisions.Listing.{IsByAge, list_tier3_approvals-Shown}

abbrev entries : List (Tier3PendingAction × GrantState)
entries =
    (
      queued_action "a3" 900,
      record {
        client_id = "shop";
        weekly_limit_cents = some 5000;
        used_cents = 1500;
        remaining_cents = some (pos 3500);
        window_seconds = 604800;
      },
    )
    ∷ []

list_tier3_approvals-Shown_example :
    IsByAge (queued_action "a3" 900 ∷ [])
    × Perm
        (queued_action "a3" 900 ∷ [])
        (values (list_tier3_approvals "boss" (some "boss") world).1.store.tier3_pending)
unfolding list_tier3_approvals with_grants tier3_grant_dict sort_by_age insert_by_age
    require_internal_admin is_ascii prune_tier3_pending expire_each pop_pending popped expire_one
    record_tier3_event append_event cap_per_client cap_loop set_tier3_resolution resolve
    add_resolution tier3_used_cents used_cents new_store
list_tier3_approvals-Shown_example =
    list_tier3_approvals-Shown "boss" (some "boss") world entries refl
