-- ===== src/Verify/Tests.antt =====
-- The theorems about verify/ at concrete inputs: a client "shop" with a mandate of 50 euros per
-- week, a neighbour "cafe", and the configuration that no environment variable changes.
use agent_embassy.Prelude.{
  ℕ, ◌+◌, ◌-◌, ◌≤◌, String, ◌≡◌, refl, true, false, Option, none, some, [], ◌∷◌, ◌++◌, newest,
  arith, if◌then◌else◌, select, str_eq, str_eq_iff,
}
use agent_embassy.Prelude.Dict.{get}
use agent_embassy.Python.Text.{is_ascii, strip}
use agent_embassy.Python.Json.{Json, Body, field, end}
use agent_embassy.Verify.Store.{
  Store, Tier3Event, Tier3PendingAction, Tier3Resolution, Outcome, Reason, Status, Detail,
  new_store,
}
use agent_embassy.Verify.Action.{World, Outside, Envelope, Mode, Transport, ok, err, time}
use agent_embassy.Verify.Audit.{
  append_event, used_cents, in_window, record_tier3_event, tier3_used_cents,
}
use agent_embassy.Verify.Audit.View.{rows, rows-append_event}
use agent_embassy.Verify.Audit.Usage.{used_cents-append_event_ne}
use agent_embassy.Verify.Audit.Settlement.{share}
use agent_embassy.Verify.Capped.{of_client, cap_per_client, of_client-cap_per_client}
use agent_embassy.Verify.Requests.{
  Request, Tier3OrderRequest, require_internal_admin, client_ip, check_rate_limit, hit_at,
}
use agent_embassy.Verify.Orders.{
  reserve, reserve_budget, settle_handoff, create_tier3_order, authenticate_order, refuse_order,
}
use agent_embassy.Verify.Network.{HandoffResult}
use agent_embassy.Verify.Orders.Release.{settle_handoff-budget, keeps_budget}
use agent_embassy.Verify.Orders.Silence.{create_tier3_order-unsent}
use agent_embassy.Verify.Approvals.{prune_tier3_pending}
use agent_embassy.Verify.Approvals.Queue.{prune_tier3_pending-live, live}
use agent_embassy.Verify.Decisions.{approve_tier3_action, reject_tier3_action}
use agent_embassy.Verify.Decisions.Once.{Refused, decision-once}
use agent_embassy.Verify.Network.{execute_handoff}
use agent_embassy.Verify.Network.Attempts.{attempts, execute_handoff-sent}
use agent_embassy.Verify.Requests.Bursts.{allowed_count, allowed_count-le}
use agent_embassy.Verify.Sessions.{
  prove_control, get_pending_challenge, pending_token, fetch_challenge_file, confirm_control,
  pending_or_404, issue_session, SessionReply, verify_challenge,
}
use agent_embassy.Verify.Sessions.Verified.{IsIssued, verify_challenge-Proves}
use agent_embassy.Verify.Domain.{validate_domain, check_normalised, valid}
use agent_embassy.Verify.Sessions.Control.{Proves, no_challenge, issue_session-spends}
use agent_embassy.Verify.Orders.Spending.{settle_handoff-spending}
use agent_embassy.Verify.Decisions.{revoke}
use agent_embassy.Verify.Decisions.Revocation.{Revoked, revoke-Revoked}
use agent_embassy.Verify.Approvals.{resolve, is_fresh}
use agent_embassy.Verify.Approvals.Resolutions.{resolutions_of, resolutions_of-resolve}

abbrev pub order : Tier3OrderRequest
order = record { item = "flour"; quantity = 2; amount_cents = 3000 }

abbrev pub event : String → ℕ → Outcome → Option String → Tier3Event
event c at outcome id = record {
  at = at;
  client_id = c;
  item = "flour";
  amount_cents = 1500;
  outcome = outcome;
  reason = Reason.within_mandate;
  order_number = none;
  action_id = id;
}

abbrev pub queued_action : String → ℕ → Tier3PendingAction
queued_action id expires_at = record {
  action_id = id;
  client_id = "shop";
  item = "flour";
  quantity = 2;
  amount_cents = 9000;
  queued_at = 10;
  expires_at = expires_at;
}

abbrev pub store : Store
unfolding new_store
store = record (new_store (λ _. none)) {
  tier3_grants = ("shop", 5000) ∷ [];
  tier3_events =
      event "cafe" 40 Outcome.accepted (some "a1")
      ∷ event "shop" 50 Outcome.accepted (some "a2")
      ∷ [];
  tier3_pending = ("a3", queued_action "a3" 900) ∷ ("a4", queued_action "a4" 90) ∷ [];
  challenges = ("example.org", ("t0k", 400)) ∷ [];
}

abbrev pub outside : Outside
outside = record {
  clock = λ n. 100 + n;
  tokens = λ _. "beef";
  introspections = λ _. (200, Body.malformed);
  agent = λ _. Transport.timeout;
  fetches = λ _ _. some (200, "t0k\n");
}

abbrev pub world : World
world = record { store = store; outside = outside; sent = [] }

-- A request of a caller whose certificate was not verified.
abbrev anonymous : Request
anonymous = record {
  forwarded_for = none;
  peer_host = some "10.0.0.1";
  authorization = none;
  ssl_client_verify = some "NONE";
}

abbrev resolution : Tier3Resolution
resolution = record {
  action_id = "a0";
  client_id = "shop";
  status = Status.executed;
  detail = Detail.done_via none;
  created_at = 20;
  updated_at = 30;
  channel = none;
  order_number = none;
}

-- The same world with nothing in the queue and one resolution.
abbrev idle : World
idle = record world {
  store = record store { tier3_pending = []; tier3_resolutions = ("a0", resolution) ∷ [] };
}

rows-append_event_example :
    rows "shop" (append_event (event "shop" 100 Outcome.queued none) store)
    ≡ newest store.tier3_audit_max (
        select (in_window 100 store.tier3_window_seconds) (
          of_client
            (λ x. x.client_id)
            "shop"
            (store.tier3_events ++ event "shop" 100 Outcome.queued none ∷ [])))
rows-append_event_example = rows-append_event (event "shop" 100 Outcome.queued none) store "shop"

used_cents-append_event_ne_example :
    used_cents 200 "cafe" (append_event (event "shop" 100 Outcome.accepted none) store)
    ≡ used_cents 200 "cafe" store
unfolding store new_store
used_cents-append_event_ne_example =
    used_cents-append_event_ne 200 (event "shop" 100 Outcome.accepted none) store "cafe"
      (ground (arith, str_eq_iff "shop" "cafe")) (ground arith) (omega arith)

of_client-cap_per_client_example :
    of_client (λ x. x) "a" (cap_per_client (λ x. x) 1 ("a" ∷ "b" ∷ "a" ∷ []))
    ≡ newest 1 (of_client (λ x. x) "a" ("a" ∷ "b" ∷ "a" ∷ []))
of_client-cap_per_client_example = of_client-cap_per_client (λ x. x) 1 "a" ("a" ∷ "b" ∷ "a" ∷ [])

settle_handoff-budget_example :
    used_cents 200 "cafe"
        (settle_handoff "a1" "cafe" order HandoffResult.down 5000 0 false world).1.store
      + (if keeps_budget HandoffResult.down
          then 0
          else share 200 "cafe" store (event "cafe" 40 Outcome.accepted (some "a1")))
    ≡ used_cents 200 "cafe" store
unfolding store new_store
settle_handoff-budget_example =
    settle_handoff-budget 200 "cafe" "a1" "cafe" order 5000 0 false world []
      (event "shop" 50 Outcome.accepted (some "a2") ∷ [])
      (event "cafe" 40 Outcome.accepted (some "a1")) refl refl refl refl HandoffResult.down

create_tier3_order-unsent_example : (create_tier3_order order anonymous world).1.sent ≡ world.sent
unfolding create_tier3_order check_rate_limit hit_at authenticate_order refuse_order
    record_tier3_event store new_store client_ip
create_tier3_order-unsent_example = create_tier3_order-unsent order anonymous world refl

decision-once_example :
    Refused "secret"
      (some "secret")
      "a3"
      (approve_tier3_action "secret" (some "secret") "a3" world).1
    × Refused "secret"
        (some "secret")
        "a3"
        (reject_tier3_action "secret" (some "secret") "a3" world).1
unfolding require_internal_admin store is_ascii
decision-once_example =
    decision-once "secret" (some "secret") "a3" world (λ w. refl) (refl, refl, (refl, refl, tt))

prune_tier3_pending-live_example :
    ((prune_tier3_pending world).0 ≡ ok tt)
    × ((k : String)
        → get (prune_tier3_pending world).1.store.tier3_pending k
          ≡ live 100 (get world.store.tier3_pending k))
unfolding store
prune_tier3_pending-live_example = prune_tier3_pending-live world (refl, refl, (refl, refl, tt))

abbrev envelope : Envelope
envelope = record {
  action_id = "a1";
  action_type = "order.place";
  client_id = "shop";
  requested_at = 100;
  item = "flour";
  quantity = 2;
  amount_cents = 3000;
  mode = Mode.within_mandate;
  weekly_limit_cents = 5000;
  used_cents = 0;
  remaining_cents = 5000;
  window_seconds = 604800;
  approved_by = none;
}

execute_handoff-sent_example :
    ((execute_handoff envelope world).1.sent ≡ attempts envelope (world.outside.agent 0) world.sent)
    × ((execute_handoff envelope world).1.store ≡ world.store)
execute_handoff-sent_example = execute_handoff-sent envelope world

allowed_count-le_example : allowed_count "verify:10.0.0.1" 2 60 (100 ∷ 101 ∷ 102 ∷ []) store ≤ 2 - 0
unfolding store new_store
allowed_count-le_example =
    allowed_count-le 100 "verify:10.0.0.1" 2 60 (100 ∷ 101 ∷ 102 ∷ []) store
      (omega arith, omega arith, (omega arith, omega arith, (omega arith, omega arith, tt)))

abbrev status_request : Request
status_request = record {
  forwarded_for = none;
  peer_host = some "10.0.0.1";
  authorization = some "Bearer t";
  ssl_client_verify = some "SUCCESS";
}

-- A host that is asked under another name serves nothing.
abbrev serving : World
serving = record world {
  outside = record outside {
    fetches = λ _ host. if str_eq host "example.org" then some (200, "t0k\n") else none;
  };
}

abbrev session : SessionReply
session = record {
  session_token = "beef";
  domain = "example.org";
  expires_in = 3600;
  expires_at = 3702;
}

verify_challenge-Proves_example :
    (validate_domain (λ s. s) (λ _. false) "Example.org." ≡ valid "example.org")
    × Proves "example.org" (time serving).1
    × IsIssued session
        (verify_challenge (λ s. s) (λ _. false) "Example.org." status_request serving).1.store
unfolding verify_challenge check_rate_limit hit_at client_ip prove_control get_pending_challenge
    pending_token fetch_challenge_file confirm_control pending_or_404 store strip validate_domain
    check_normalised is_ascii issue_session new_store
verify_challenge-Proves_example =
    verify_challenge-Proves (λ s. s) (λ _. false) "Example.org." status_request serving session refl

issue_session-spends_example :
    (prove_control "example.org" (issue_session "example.org" world).1).0 ≡ err no_challenge
issue_session-spends_example = issue_session-spends "example.org" world

-- Keycloak takes the token "t" for an active one of "shop".
abbrev asked : World
asked = record idle {
  outside = record idle.outside {
    introspections = λ _. (
      200,
      Body.json
          (Json.obj (field "active" (Json.bool true) (field "client_id" (Json.str "shop") end))),
    );
  };
}

-- The world after the reservation of the order.
abbrev handed_off : World
handed_off = record world { store = (reserve "a9" "shop" order 5000 world).1.store }

settle_handoff-spending_example :
    used_cents 500 "shop"
      (settle_handoff "a9" "shop" order HandoffResult.unknown 5000 1500 false handed_off).1.store
    ≡ used_cents 500 "shop" store + (if keeps_budget HandoffResult.unknown then 3000 else 0)
unfolding reserve tier3_used_cents reserve_budget record_tier3_event new_store store used_cents
settle_handoff-spending_example =
    settle_handoff-spending "a9" "shop" order 5000 1500 500 HandoffResult.unknown world handed_off
      refl refl (ground arith) (omega arith) (omega arith)

revoke-Revoked_example : Revoked "shop" 100 store.tier3_pending (revoke "shop" world)
unfolding store
revoke-Revoked_example = revoke-Revoked "shop" world (refl, refl, (refl, refl, tt))

resolutions_of-resolve_example :
    resolutions_of "shop"
      (resolve 100 "a7" "cafe" Status.queued Detail.awaiting_approval none none idle.store)
    ≡ select
        (is_fresh 100 idle.store.tier3_resolution_ttl_seconds)
        (resolutions_of "shop" idle.store)
unfolding store new_store
resolutions_of-resolve_example =
    resolutions_of-resolve 100 "a7" "cafe" "shop" Status.queued Detail.awaiting_approval none none
      idle.store refl (ground (arith, str_eq_iff "cafe" "shop")) (ground arith)
