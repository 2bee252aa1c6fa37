-- ===== src/Verify/Concurrent/Handlers.antt =====
-- The pruning of the queue and the over-mandate branch keep what holds between the steps.
use agent_embassy.Prelude.{
  ℕ, String, ◌≡◌, refl, Bool, false, Option, none, some, List, [], ◌∷◌, inl, inr, Bool-cases,
}
use agent_embassy.Prelude.Dict.{get}
use agent_embassy.Verify.Store.{Tier3PendingAction, Outcome, Reason, Status, Detail}
use agent_embassy.Verify.Action.{World, Action, ◌>>=◌, ◌>>◌}
use agent_embassy.Verify.Audit.{record_tier3_event}
use agent_embassy.Verify.Approvals.{
  popped, pop_pending, expire_one, expire_each, prune_tier3_pending,
}
use agent_embassy.Verify.Requests.{Tier3OrderRequest}
use agent_embassy.Verify.Orders.{queue_or_refuse, over_mandate}
use agent_embassy.Verify.Concurrent.{listed}
use agent_embassy.Verify.Concurrent.Invariant.{
  Holds, Keeps, keeps_rules, Keeps-bind, time-Keeps, record-Keeps, set-Keeps, drop-Keeps,
  queue-Keeps,
}

module _ (c : String) (limit : ℕ) (ids : List String) where
  expire_one-Keeps :
      (id : String) (a : Tier3PendingAction)
      → listed id ids ≡ false
      → Keeps c limit ids (expire_one id a)
  unfolding expire_one
  expire_one-Keeps id a free =
      Keeps-bind
        (record_tier3_event a.client_id a.item a.amount_cents Outcome.expired Reason.pending_expired
          (some id))
        _
        (record-Keeps c limit ids a.client_id a.item a.amount_cents Outcome.expired
          Reason.pending_expired (some id) free refl)
        (λ _.
          set-Keeps c limit ids id a.client_id Status.expired Detail.expired_undecided none none)

  pub popped_then :
      (id : String) (k : Tier3PendingAction → Action (Unit {0})) (found : Option Tier3PendingAction)
      (w : World)
      → ((a : Tier3PendingAction) → found ≡ some a → Keeps c limit ids (k a))
      → Holds c limit ids w
      → Holds c limit ids ((popped id found >>= k) w).1
  unfolding popped
  popped_then id k none w kept h = h
  popped_then id k (some a) w kept h = (kept a refl).at _ ((drop-Keeps c limit ids id).at w h)

  pub waiting_free :
      (id : String) (a : Tier3PendingAction) (w : World)
      → Holds c limit ids w
      → get w.store.tier3_pending id ≡ some a
      → listed id ids ≡ false
  waiting_free id a w h found = elim (Bool-cases (listed id ids)) [
    | inl flying ↦ absurd (cc (h.apart id flying, found))
    | inr free ↦ free
  ]

  expire_each-Keeps : (overdue : List String) → Keeps c limit ids (expire_each overdue)
  unfolding expire_each pop_pending
  expire_each-Keeps [] = search keeps_rules
  expire_each-Keeps (id ∷ overdue) = record {
    at = λ w h.
        popped_then id (λ a. expire_one id a >> expire_each overdue) (get w.store.tier3_pending id)
          w
          (λ a found.
            Keeps-bind (expire_one id a) _ (expire_one-Keeps id a (waiting_free id a w h found))
              (λ _. expire_each-Keeps overdue))
          h;
  }

  pub prune-Keeps : Keeps c limit ids prune_tier3_pending
  unfolding prune_tier3_pending
  prune-Keeps = search (keeps_rules, time-Keeps, expire_each-Keeps)

  queue_or_refuse-Keeps :
      (id client : String) (body : Tier3OrderRequest) (remaining granted : ℕ) (full : Bool)
      → listed id ids ≡ false
      → Keeps c limit ids (queue_or_refuse id client body remaining granted full)
  unfolding queue_or_refuse
  queue_or_refuse-Keeps id client body remaining granted full free =
      search (keeps_rules, queue-Keeps, record-Keeps, set-Keeps)

  pub over_mandate-Keeps :
      (id client : String) (body : Tier3OrderRequest) (used granted : ℕ)
      → listed id ids ≡ false
      → Keeps c limit ids (over_mandate id client body used granted)
  unfolding over_mandate
  over_mandate-Keeps id client body used granted free =
      search (keeps_rules, prune-Keeps, queue_or_refuse-Keeps)
