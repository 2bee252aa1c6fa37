-- ===== src/Verify/Concurrent/Mandate.antt =====
-- Every step of concurrent orders keeps the mandate.
use agent_embassy.Prelude.{
  ℕ, ◌≤◌, String, ◌≡◌, Bool, true, false, ◌&&◌, not, Option, none, List, [], ◌∷◌, arith, str_eq,
  str_eq_iff,
}
use agent_embassy.Verify.Store.{Outcome, Reason, Status, Detail}
use agent_embassy.Verify.Action.{World}
use agent_embassy.Verify.Audit.{used_cents, settle_event, settle_tier3_event}
use agent_embassy.Verify.Audit.Usage.{used_cents_antitone}
use agent_embassy.Verify.Audit.Clean.{used_cents-settle_event_le, settle_event-IsClean}
use agent_embassy.Verify.Approvals.{set_tier3_resolution}
use agent_embassy.Verify.Network.{HandoffStatus, HandoffResult, answered, down, unknown}
use agent_embassy.Verify.Requests.{Tier3OrderRequest}
use agent_embassy.Verify.Orders.{settle_handoff, settle_failure}
use agent_embassy.Verify.Concurrent.{
  listed, without, IsSteady, Step, order, settle, resolve, expire, reject, revoke, elsewhere, Reach,
  start, later,
}
use agent_embassy.Verify.Concurrent.Invariant.{Holds, set-Keeps}
use agent_embassy.Verify.Concurrent.Decided.{reject-Keeps, revoke-Keeps}
use agent_embassy.Verify.Concurrent.Handlers.{prune-Keeps}
use agent_embassy.Verify.Concurrent.Reserving.{order-Holds}

listed-without :
    (id j : String) (ids : List String)
    → listed j (without id ids) ≡ true
    → (listed j ids && not (str_eq id j)) ≡ true
listed-without id j [] h = h
listed-without id j (i ∷ ids) h =
    ground (arith, listed-without id j ids, str_eq_iff i id, str_eq_iff i j, str_eq_iff id j)

module _ (c : String) (limit : ℕ) (ids : List String) where
  settled-Holds :
      (id : String) (o : Outcome) (r : Reason) (n : Option String) (w : World)
      → listed id ids ≡ true
      → Holds c limit ids w
      → Holds c limit (without id ids) (record w { store = settle_event id o r n w.store })
  unfolding settle_event
  settled-Holds id o r n w flying h = record {
    steady = h.steady;
    within = omega (
      arith,
      h.within,
      used_cents-settle_event_le (w.outside.clock 0) c id o r n w.store (h.clean id flying),
    );
    clean = λ j still.
        let (still_listed, other) : (listed j ids ≡ true) × (str_eq id j ≡ false) =
          ground (arith, listed-without id j ids still) in
        settle_event-IsClean c id j o r n w.store other (h.clean j still_listed);
    apart = λ j still. h.apart j (ground (arith, listed-without id j ids still));
  }

elsewhere-Holds :
    (c : String) (limit : ℕ) (ids : List String) (w w' : World)
    → w'.store ≡ w.store
    → w.outside.clock 0 ≤ w'.outside.clock 0
    → IsSteady w'
    → Holds c limit ids w
    → Holds c limit ids w'
elsewhere-Holds c limit ids w w' same forward steady h = record {
  steady = steady;
  within = rw same (
      omega (
        arith,
        h.within,
        used_cents_antitone (w.outside.clock 0) (w'.outside.clock 0) c w.store forward,
      ));
  clean = λ j flying. rw same (h.clean j flying);
  apart = λ j flying. rw same (h.apart j flying);
}

Step-Holds :
    (c : String) (limit : ℕ) {w w' : World} {ids ids' : List String}
    → Step c limit w ids w' ids'
    → Holds c limit ids w
    → Holds c limit ids' w'
unfolding settle_tier3_event
Step-Holds c limit (order id client body granted own free new apart) h =
    order-Holds c limit _ id client body granted _ own free new apart h
Step-Holds c limit (settle id outcome reason n flying) h =
    settled-Holds c limit _ id outcome reason n _ flying h
Step-Holds c limit (resolve id client status detail channel n) h =
    (set-Keeps c limit _ id client status detail channel n).at _ h
Step-Holds c limit (reject id) h = (reject-Keeps c limit _ id).at _ h
Step-Holds c limit (revoke client) h = (revoke-Keeps c limit _ client).at _ h
Step-Holds c limit expire h = (prune-Keeps c limit _).at _ h
Step-Holds c limit (elsewhere w' same forward steady) h =
    elsewhere-Holds c limit _ _ w' same forward steady h

Reach-Holds :
    {c : String} {limit : ℕ} {first w : World} {ids : List String}
    → IsSteady first
    → used_cents (first.outside.clock 0) c first.store ≤ limit
    → Reach c limit first w ids
    → Holds c limit ids w
Reach-Holds steady within start = record {
  steady = steady;
  within = within;
  clean = λ j flying. absurd (cc flying);
  apart = λ j flying. absurd (cc flying);
}
Reach-Holds {c} {limit} steady within (later reached step) =
    Step-Holds c limit step (Reach-Holds steady within reached)

-- The end of a handoff is two steps: the row of its order is changed, then its resolution is set.
pub settle_handoff-Reach :
    {c : String} {limit : ℕ} {first w : World} {ids : List String} (id client : String)
    (body : Tier3OrderRequest) (result : HandoffResult) (granted used : ℕ) (by_human : Bool)
    → listed id ids ≡ true
    → Reach c limit first w ids
    → Reach c limit first
        (settle_handoff id client body result granted used by_human w).1
        (without id ids)
unfolding settle_handoff settle_failure set_tier3_resolution settle_tier3_event
settle_handoff-Reach id client body (answered HandoffStatus.executed ch by ref) granted used
      by_human flying reached =
    later
      (later reached (settle id Outcome.accepted (Reason.executed_via by_human ch by) ref flying))
      (resolve id client Status.executed (Detail.done_via ch) ch ref)
settle_handoff-Reach id client body (answered HandoffStatus.failed ch by ref) granted used by_human
      flying reached =
    later (later reached (settle id Outcome.rejected (Reason.not_executed by_human) none flying))
      (resolve id client Status.failed Detail.could_not_execute none none)
settle_handoff-Reach id client body down granted used by_human flying reached =
    later
      (later reached (settle id Outcome.rejected (Reason.agent_unavailable by_human) none flying))
      (resolve id client Status.failed Detail.agent_down none none)
settle_handoff-Reach id client body unknown granted used by_human flying reached =
    later (later reached (settle id Outcome.accepted (Reason.incomplete by_human) none flying))
      (resolve id client Status.execution_unknown Detail.handoff_incomplete none none)

-- Where the grant of a client is `limit`, what the client has used stays within it through every
-- interleaving of the sections that orders, expiries of the queue, rejections and revocations run
-- under `tier3_lock`, of the settlements of handoffs in any order, of the resolutions that are set and
-- of clock readings: if it is within the limit at the start, with no order in flight, then it is after
-- any number of steps. The id of a new order is no older one's, an order is settled once, the clock
-- does not run backwards, no human approves an action of the queue meanwhile, and no order is refused
-- meanwhile: a refusal records its row outside of the lock.
pub Reach-within :
    {c : String} {limit : ℕ} {first w : World} {ids : List String}
    → IsSteady first
    → used_cents (first.outside.clock 0) c first.store ≤ limit
    → Reach c limit first w ids
    → used_cents (w.outside.clock 0) c w.store ≤ limit
Reach-within steady within reached = (Reach-Holds steady within reached).within
