-- ===== src/Verify/Concurrent.antt =====
-- verify/main.py: orders that are handled at the same time. `tier3_lock` makes the section of an
-- order that checks and reserves the budget one step; the handoff to the agent runs outside of it, so
-- the settlement of an order comes any number of steps of other requests later. A settlement is not
-- under the lock either: it changes the outcome of one row, which every list that holds the row shows,
-- and the resolution apart from it. The rows of refusals are recorded outside of the lock too, in
-- several steps that are no step here; Race shows what these do.
pub mod Invariant
pub mod Handlers
pub mod Decided
pub mod Reserving
pub mod Mandate
pub mod Race
pub mod Tests
use agent_embassy.Prelude.{
  ℕ, suc, ◌≤◌, String, ◌≡◌, Bool, true, false, not, Option, none, some, List, [], ◌∷◌, str_eq, any,
  select,
}
use agent_embassy.Prelude.Dict.{get}
use agent_embassy.Verify.Store.{Outcome, Reason, Status, Detail}
use agent_embassy.Verify.Action.{World, Result, ok, err, ◌>>=◌}
use agent_embassy.Verify.Audit.Settlement.{mentions}
use agent_embassy.Verify.Audit.{settle_tier3_event}
use agent_embassy.Verify.Approvals.{prune_tier3_pending, set_tier3_resolution}
use agent_embassy.Verify.Requests.{Tier3OrderRequest}
use agent_embassy.Verify.Decisions
use agent_embassy.Verify.Decisions.{claim_pending, reject_claimed}
use agent_embassy.Verify.Orders.{Reservation, reserved, queued, queue_full, reserve}

-- The action ids of the orders that hold a reservation and are not settled yet.
abbrev pub listed : String → List String → Bool
listed id ids = any (λ i. str_eq i id) ids

abbrev pub without : String → List String → List String
without id ids = select (λ i. not (str_eq i id)) ids

-- After the locked section: an order that was let through is handed to the agent.
abbrev pub in_flight_after : String → Result Reservation → List String → List String
in_flight_after id (ok (reserved used)) ids = id ∷ ids
in_flight_after id (ok queued) ids = ids
in_flight_after id (ok queue_full) ids = ids
in_flight_after id (err e) ids = ids

abbrev pub is_in_flight : Option String → List String → Bool
is_in_flight none ids = false
is_in_flight (some id) ids = listed id ids

-- The clock does not run backwards.
abbrev pub IsSteady : World → Type 0
IsSteady w = (n : ℕ) → w.outside.clock n ≤ w.outside.clock (suc n)

-- One step of some request, where the grant of the client `c` is `limit`. The id of a new order is
-- new; the two fields that `elsewhere` fixes are all that a handoff, a token check or a clock reading
-- leaves to the others.
pub data Step (c : String) (limit : ℕ) (w : World) (ids : List String)
    : World → List String → Type 0 where
  order :
      (id client : String) (body : Tier3OrderRequest) (granted : ℕ)
      → (client ≡ c → granted ≡ limit)
      → listed id ids ≡ false
      → mentions id w.store.tier3_events ≡ false
      → get w.store.tier3_pending id ≡ none
      → Step c limit w ids
          (reserve id client body granted w).1
          (in_flight_after id (reserve id client body granted w).0 ids)
  settle :
      (id : String) (outcome : Outcome) (reason : Reason) (order_number : Option String)
      → listed id ids ≡ true
      → Step c limit w ids (settle_tier3_event id outcome reason order_number w).1 (without id ids)
  resolve :
      (id client : String) (status : Status) (detail : Detail)
      (channel order_number : Option String)
      → Step c limit w ids
          (set_tier3_resolution id client status detail channel order_number w).1
          ids
  expire : Step c limit w ids (prune_tier3_pending w).1 ids
  reject : (id : String) → Step c limit w ids ((claim_pending id >>= reject_claimed id) w).1 ids
  revoke : (client : String) → Step c limit w ids (Decisions.revoke client w).1 ids
  elsewhere :
      (w' : World)
      → w'.store ≡ w.store
      → w.outside.clock 0 ≤ w'.outside.clock 0
      → IsSteady w'
      → Step c limit w ids w' ids

-- What the steps lead to from `first`, where no order is in flight.
pub data Reach (c : String) (limit : ℕ) (first : World) : World → List String → Type 0 where
  start : Reach c limit first first []
  later :
      {w w' : World} {ids ids' : List String}
      → Reach c limit first w ids
      → Step c limit w ids w' ids'
      → Reach c limit first w' ids'
