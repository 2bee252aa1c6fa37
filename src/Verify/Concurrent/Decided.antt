-- ===== src/Verify/Concurrent/Decided.antt =====
-- A rejection and a revocation keep what holds between the steps.
use agent_embassy.Prelude.{
  ℕ, String, ◌≡◌, refl, sym, subst, false, Option, none, some, List, [], ◌∷◌,
}
use agent_embassy.Prelude.Dict.{get, remove}
use agent_embassy.Verify.Store.{Store, Tier3PendingAction, Outcome, Reason, Status, Detail}
use agent_embassy.Verify.Action.{World, Action, Result, ok, err, gets, modify, ◌>>=◌, ◌>>◌}
use agent_embassy.Verify.Audit.{used_cents}
use agent_embassy.Verify.Approvals.{pop_pending, prune_tier3_pending}
use agent_embassy.Verify.Decisions.{
  refuse_pending, cancel_each, revoke, take_pending, claim_pending, reject_claimed,
}
use agent_embassy.Verify.Concurrent.{listed}
use agent_embassy.Verify.Concurrent.Invariant.{
  Holds, Keeps, keeps_rules, Keeps-bind, Keeps-pure, record-Keeps, set-Keeps, drop-Keeps,
}
use agent_embassy.Verify.Concurrent.Handlers.{popped_then, waiting_free, prune-Keeps}

module _ {A B C : Type 0} where
  regrouped :
      (f : A → Action B) (k : B → Action C) (r : Result A) (w : World)
      → (let s : Result B × World = elim r [ ok a ↦ f a w | err e ↦ (err e, w) ] in
          let t : Result C × World = elim s.0 [ ok b ↦ k b s.1 | err e ↦ (err e, s.1) ] in t)
        ≡ (let s : Result C × World = elim r [ ok a ↦ (f a >>= k) w | err e ↦ (err e, w) ] in s)
  regrouped f k (ok a) w = refl
  regrouped f k (err e) w = refl

  bind_assoc :
      (m : Action A) (f : A → Action B) (k : B → Action C) (w : World)
      → (m >>= f >>= k) w ≡ (m >>= λ a. f a >>= k) w
  bind_assoc m f k w = regrouped f k (m w).0 (m w).1

module _ (c : String) (limit : ℕ) (ids : List String) where
  refuse_pending-Keeps :
      (id client : String) (a : Tier3PendingAction) (reason : Reason) (detail : Detail)
      → listed id ids ≡ false
      → Keeps c limit ids (refuse_pending id client a reason detail)
  unfolding refuse_pending
  refuse_pending-Keeps id client a reason detail free =
      Keeps-bind _ _
        (record-Keeps c limit ids client a.item a.amount_cents Outcome.rejected reason (some id)
          free refl)
        (λ _. set-Keeps c limit ids id client Status.rejected detail none none)

  cancel_each-Keeps :
      (client : String) (own : List String) → Keeps c limit ids (cancel_each client own)
  unfolding cancel_each pop_pending
  cancel_each-Keeps client [] = search keeps_rules
  cancel_each-Keeps client (id ∷ own) = record {
    at = λ w h.
        popped_then c limit ids id
          (λ a.
            refuse_pending id client a Reason.mandate_revoked Detail.cancelled_by_revocation
            >> cancel_each client own)
          (get w.store.tier3_pending id) w
          (λ a found.
            Keeps-bind _ _
              (refuse_pending-Keeps id client a Reason.mandate_revoked
                Detail.cancelled_by_revocation (waiting_free c limit ids id a w h found))
              (λ _. cancel_each-Keeps client own))
          h;
  }

  ungrant-Keeps :
      (client : String)
      → Keeps c limit ids (modify (λ s. record s { tier3_grants = remove s.tier3_grants client }))
  unfolding used_cents
  ungrant-Keeps client = record {
    at = λ w h. record { steady = h.steady; within = h.within; clean = h.clean; apart = h.apart };
  }

  pub revoke-Keeps : (client : String) → Keeps c limit ids (revoke client)
  unfolding revoke
  revoke-Keeps client = search (keeps_rules, ungrant-Keeps, prune-Keeps, cancel_each-Keeps)

  taken_then :
      (id : String) (k : Tier3PendingAction → Action String) (found : Option Tier3PendingAction)
      (w : World)
      → ((a : Tier3PendingAction) → found ≡ some a → Keeps c limit ids (k a))
      → Holds c limit ids w
      → Holds c limit ids ((take_pending id found >>= k) w).1
  unfolding take_pending
  taken_then id k none w kept h = h
  taken_then id k (some a) w kept h = (kept a refl).at _ ((drop-Keeps c limit ids id).at w h)

  -- The section of a rejection under the lock.
  pub reject-Keeps : (id : String) → Keeps c limit ids (claim_pending id >>= reject_claimed id)
  unfolding claim_pending reject_claimed
  reject-Keeps id =
      let decide : Store → Action String =
        λ s. take_pending id (get s.tier3_pending id) >>= reject_claimed id in
      record {
        at = λ w h.
            subst (λ x. Holds c limit ids x.1)
              (sym (
                bind_assoc prune_tier3_pending
                  (λ _. gets (λ s. get s.tier3_pending id) >>= take_pending id) (reject_claimed id)
                  w))
              ((Keeps-bind prune_tier3_pending (λ _ v. decide v.store v) (prune-Keeps c limit ids)
                  λ _. record {
                    at = λ v held.
                        taken_then id (reject_claimed id) (get v.store.tier3_pending id) v
                          (λ a found.
                            Keeps-bind _ _
                              (refuse_pending-Keeps id a.client_id a Reason.rejected_by_human
                                Detail.refused_by_human
                                (waiting_free c limit ids id a v held found))
                              (λ _. Keeps-pure id))
                          held;
                  }).at
                w h);
      }
