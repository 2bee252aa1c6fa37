-- ===== src/Verify/Concurrent/Reserving.antt =====
-- The section of an order under the lock keeps what holds between the steps.
use agent_embassy.Prelude.{
  ℕ, suc, ◌+◌, ◌≤◌, String, ◌≡◌, refl, ap, subst, true, false, none, List, [], ◌∷◌, leb, leb→le,
  inl, inr, Bool-cases, arith, str_eq, str_eq_iff, all,
}
use agent_embassy.Prelude.Dict.{get}
use agent_embassy.Verify.Store.{Store, Tier3Event}
use agent_embassy.Verify.Action.{World, Result, ok, err, time}
use agent_embassy.Verify.Audit.{append_event, used_cents, record_tier3_event, tier3_used_cents}
use agent_embassy.Verify.Audit.Usage.{used_cents_antitone}
use agent_embassy.Verify.Audit.Settlement.{mentions, share}
use agent_embassy.Verify.Audit.Clean.{
  IsClean, is_clean, used_cents-append_event-share, append_event-IsClean,
}
use agent_embassy.Verify.Requests.{Tier3OrderRequest}
use agent_embassy.Verify.Orders.{
  Reservation, reserved, queued, queue_full, reserve, reserve_budget, over_mandate,
}
use agent_embassy.Verify.Orders.Budget.{IsNotReserved, over_mandate-IsNotReserved, reservation}
use agent_embassy.Verify.Concurrent.{listed, in_flight_after}
use agent_embassy.Verify.Concurrent.Invariant.{Holds, no_share, time-Keeps}
use agent_embassy.Verify.Concurrent.Handlers.{over_mandate-Keeps}

unmentioned-IsClean :
    (c id : String) (rows : List Tier3Event)
    → mentions id rows ≡ false
    → all (is_clean c id) rows ≡ true
unmentioned-IsClean c id [] new = refl
unmentioned-IsClean c id (e ∷ rows) new = ground (arith, unmentioned-IsClean c id rows)

-- What holds of a new order's id, and of the ids in flight, holds with the new one among them.
one_more :
    (P : String → Type 0) (id : String) (ids : List String)
    → P id
    → ((j : String) → listed j ids ≡ true → P j)
    → (j : String) → listed j (id ∷ ids) ≡ true
    → P j
one_more P id ids new old j flying = elim (Bool-cases (str_eq id j)) [
  | inl same ↦ subst P ((str_eq_iff id j).0 same) new
  | inr other ↦ old j (ground arith)
]

module _ (c : String) (limit : ℕ) (ids : List String) where
  reserved_within :
      (id client : String) (body : Tier3OrderRequest) (granted : ℕ) (w : World)
      → (client ≡ c → granted ≡ limit)
      → used_cents (w.outside.clock 0) client w.store + body.amount_cents ≤ granted
      → Holds c limit ids w
      → used_cents (w.outside.clock 2) c (append_event (reservation id client body w) w.store)
        ≤ limit
  reserved_within id client body granted w own fits h =
      let e = reservation id client body w in
      let grown = used_cents-append_event-share (w.outside.clock 2) c e w.store in
      let falls =
        used_cents_antitone (w.outside.clock 0) (w.outside.clock 2) c w.store
          (omega (arith, h.steady 0, h.steady 1)) in
      elim (Bool-cases (str_eq client c)) [
        | inl same ↦
            let is_own = (str_eq_iff client c).0 same in
            omega (
              arith,
              grown,
              falls,
              fits,
              own is_own,
              ap (λ (k : String). used_cents (w.outside.clock 0) k w.store) is_own,
              share-le (w.outside.clock 2) e w.store,
            )
        | inr other ↦
            omega (arith, grown, falls, h.within, no_share (w.outside.clock 2) c e w.store other)
      ]
    where
      share-le : (now : ℕ) (e : Tier3Event) (s : Store) → share now c s e ≤ e.amount_cents
      share-le now e s = ground arith

  reserved-Holds :
      (id client : String) (body : Tier3OrderRequest) (granted : ℕ) (w : World)
      → (client ≡ c → granted ≡ limit)
      → mentions id w.store.tier3_events ≡ false
      → get w.store.tier3_pending id ≡ none
      → used_cents (w.outside.clock 0) client w.store + body.amount_cents ≤ granted
      → Holds c limit ids w
      → Holds c limit (id ∷ ids) (record (time (time w).1).1 {
        store = append_event (reservation id client body w) w.store;
      })
  unfolding append_event
  reserved-Holds id client body granted w own new apart fits h = record {
    steady = λ n. h.steady (suc (suc n));
    within = reserved_within id client body granted w own fits h;
    clean = λ j flying.
        append_event-IsClean c j (reservation id client body w) w.store (ground arith) (
          one_more (λ k. IsClean c k w.store) id ids
            (unmentioned-IsClean c id w.store.tier3_events new) h.clean j flying);
    apart = one_more (λ k. get w.store.tier3_pending k ≡ none) id ids apart h.apart;
  }

  unreserved :
      (id : String) (r : Result Reservation)
      → ((a : Reservation) → r ≡ ok a → IsNotReserved a)
      → in_flight_after id r ids ≡ ids
  unreserved id (ok (reserved used)) h = absurd (h (reserved used) refl)
  unreserved id (ok queued) h = refl
  unreserved id (ok queue_full) h = refl
  unreserved id (err e) h = refl

  pub order-Holds :
      (id client : String) (body : Tier3OrderRequest) (granted : ℕ) (w : World)
      → (client ≡ c → granted ≡ limit)
      → listed id ids ≡ false
      → mentions id w.store.tier3_events ≡ false
      → get w.store.tier3_pending id ≡ none
      → Holds c limit ids w
      → Holds c limit
          (in_flight_after id (reserve id client body granted w).0 ids)
          (reserve id client body granted w).1
  unfolding reserve tier3_used_cents reserve_budget record_tier3_event
  order-Holds id client body granted w own free new apart h =
      let used = used_cents (w.outside.clock 0) client w.store in
      elim (Bool-cases (leb (used + body.amount_cents) granted)) [
        | inl fits ↦
            rw fits (reserved-Holds id client body granted w own new apart (leb→le _ _ fits) h)
        | inr over ↦ rw over (
            let queues = over_mandate id client body used granted in
            let asked = (time w).1 in
            rw
              (unreserved id (queues asked).0
                ((over_mandate-IsNotReserved id client body used granted).at asked))
              ((over_mandate-Keeps c limit ids id client body used granted free).at asked
                ((time-Keeps c limit ids).at w h)))
      ]
