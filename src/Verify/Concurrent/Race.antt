-- ===== src/Verify/Concurrent/Race.antt =====
-- What a refusal does that is recorded outside of `tier3_lock`: `record_tier3_event` reads the rows and
-- writes a list made of them back, so a reservation that is made in between is lost.
use agent_embassy.Prelude.{ℕ, ◌+◌, ◌≤◌, String, ◌≡◌, ◌≢◌, refl, true, ◌∙◌, length, arith, leb}
use agent_embassy.Verify.Store.{Store, Tier3Event}
use agent_embassy.Verify.Action.{World, ok}
use agent_embassy.Verify.Audit.{append_event, used_cents, tier3_used_cents, record_tier3_event}
use agent_embassy.Verify.Audit.Usage.{used_cents-append_event_ne, used_cents_antitone}
use agent_embassy.Verify.Audit.View.{rows}
use agent_embassy.Verify.Requests.{Tier3OrderRequest}
use agent_embassy.Verify.Orders.{reserved, reserve, reserve_budget}
use agent_embassy.Verify.Concurrent.{IsSteady}

-- The last assignment of `record_tier3_event`, in a store `now`, of the rows that it has made from
-- those of the store `before`.
abbrev pub write_back : Tier3Event → Store → Store → Store
write_back e before now = record now { tier3_events = (append_event e before).tier3_events }

-- After the reservation of an order in `w`, and after the write-back of a refusal that has made its
-- rows from the store `before`.
abbrev pub overwritten :
    String → String → Tier3OrderRequest → ℕ → Tier3Event → Store → World → World
overwritten id client body limit e before w =
    let after = (reserve id client body limit w).1 in
    record after { store = write_back e before after.store }

fits→reserved :
    (id client : String) (body : Tier3OrderRequest) (limit : ℕ) (w : World)
    → used_cents (w.outside.clock 0) client w.store + body.amount_cents ≤ limit
    → (reserve id client body limit w).0
      ≡ ok (reserved (used_cents (w.outside.clock 0) client w.store))
unfolding reserve tier3_used_cents reserve_budget record_tier3_event
fits→reserved id client body limit w fits =
    let yes : leb (used_cents (w.outside.clock 0) client w.store + body.amount_cents) limit ≡ true =
      ground arith in
    rw yes refl

reserved-clock :
    (id client : String) (body : Tier3OrderRequest) (limit : ℕ) (w : World)
    → used_cents (w.outside.clock 0) client w.store + body.amount_cents ≤ limit
    → (reserve id client body limit w).1.outside.clock 0 ≡ w.outside.clock 2
unfolding reserve tier3_used_cents reserve_budget record_tier3_event
reserved-clock id client body limit w fits =
    let yes : leb (used_cents (w.outside.clock 0) client w.store + body.amount_cents) limit ≡ true =
      ground arith in
    rw yes refl

overwritten-used :
    (now : ℕ) (id client : String) (body : Tier3OrderRequest) (limit : ℕ) (e : Tier3Event)
    (before : Store) (w : World)
    → before.tier3_window_seconds ≡ w.store.tier3_window_seconds
    → used_cents (w.outside.clock 0) client w.store + body.amount_cents ≤ limit
    → used_cents now client (overwritten id client body limit e before w).store
      ≡ used_cents now client (append_event e before)
unfolding reserve tier3_used_cents reserve_budget record_tier3_event append_event used_cents
overwritten-used now id client body limit e before w same fits =
    let passes : leb (used_cents (w.outside.clock 0) client w.store + body.amount_cents) limit
        ≡ true =
      ground arith in
    rw (passes, same) refl

-- The reservation is lost: what the client has used is what it had used in the rows that the refusal
-- has read.
overwritten-loses :
    (id client : String) (body : Tier3OrderRequest) (limit : ℕ) (e : Tier3Event) (before : Store)
    (w : World)
    → IsSteady w
    → before.tier3_window_seconds ≡ w.store.tier3_window_seconds
    → e.client_id ≢ client
    → e.at ≤ w.outside.clock 0
    → length (rows client before) ≤ before.tier3_audit_max
    → used_cents (w.outside.clock 0) client w.store + body.amount_cents ≤ limit
    → used_cents
        ((overwritten id client body limit e before w).outside.clock 0)
        client
        (overwritten id client body limit e before w).store
      ≤ used_cents (w.outside.clock 0) client before
overwritten-loses id client body limit e before w steady same ne early few fits =
    let now = w.outside.clock 2 in
    let forward : w.outside.clock 0 ≤ now = omega (arith, steady 0, steady 1) in
    let kept : used_cents now client (overwritten id client body limit e before w).store
        ≡ used_cents now client before =
      overwritten-used now id client body limit e before w same fits
      ∙ used_cents-append_event_ne now e before client ne few (omega (arith, early, forward)) in
    rw (reserved-clock id client body limit w fits)
      (omega (arith, kept, used_cents_antitone (w.outside.clock 0) now client before forward))

-- Two orders of a client that each fit into what is left of its grant are both let through, however
-- much they cost together, if a refusal of another client, recorded outside of the lock, has made its
-- rows before the first order and assigns them between the two: the second order is then compared
-- with no more than what the client had used in the rows that the refusal has read. The rows of the
-- client are within the cap and the clock does not run backwards.
pub refusal-double_spend :
    (first second client : String) (body other : Tier3OrderRequest) (limit : ℕ) (e : Tier3Event)
    (before : Store) (w : World)
    → IsSteady w
    → before.tier3_window_seconds ≡ w.store.tier3_window_seconds
    → e.client_id ≢ client
    → e.at ≤ w.outside.clock 0
    → length (rows client before) ≤ before.tier3_audit_max
    → used_cents (w.outside.clock 0) client w.store + body.amount_cents ≤ limit
    → used_cents (w.outside.clock 0) client before + other.amount_cents ≤ limit
    → ((reserve first client body limit w).0
        ≡ ok (reserved (used_cents (w.outside.clock 0) client w.store)))
      × ((used : ℕ) × (used ≤ used_cents (w.outside.clock 0) client before)
          × ((reserve second client other limit (overwritten first client body limit e before w)).0
              ≡ ok (reserved used)))
refusal-double_spend first second client body other limit e before w steady same ne early few fits
      also =
    let v = overwritten first client body limit e before w in
    let lost = overwritten-loses first client body limit e before w steady same ne early few fits in
    (
      fits→reserved first client body limit w fits,
      (_, lost, fits→reserved second client other limit v (omega (arith, also, lost))),
    )
