-- ===== src/Verify/Approvals/Frame.antt =====
-- The parts of the world that auditing, resolving, queueing and expiring leave alone.
use agent_embassy.Prelude.{ℕ, String, ◌≡◌, refl, ◌∙◌, Option, none, some, List, [], ◌∷◌}
use agent_embassy.Prelude.Dict.{Dict, get}
use agent_embassy.Verify.Store.{
  Tier3Event, Tier3PendingAction, Tier3Resolution, Outcome, Reason, Status, Detail,
}
use agent_embassy.Verify.Action.{World, time, modify}
use agent_embassy.Verify.Action.Rules.{Preserves, Preserves-bind, preserves_rules}
use agent_embassy.Verify.Audit.{append_event, record_tier3_event, tier3_used_cents}
use agent_embassy.Verify.Approvals.{
  add_resolution, resolve, set_tier3_resolution, queue_tier3_action, drop_pending, popped,
  pop_pending, expire_one, expire_each, prune_tier3_pending, get_tier3_resolution, fresh_resolution,
  forget_resolution,
}

-- A part of the world that is neither the clock nor the audit trail or the resolutions.
pub record IsApart {B : Type 0} (f : World → B) : Type 0 where
  pub clock :
      (w : World) (c : ℕ → ℕ) → f (record w { outside = record w.outside { clock = c } }) ≡ f w
  pub events :
      (w : World) (l : List Tier3Event)
      → f (record w { store = record w.store { tier3_events = l } }) ≡ f w
  pub resolutions :
      (w : World) (d : Dict Tier3Resolution)
      → f (record w { store = record w.store { tier3_resolutions = d } }) ≡ f w

-- A part of the world that is not the approval queue either.
pub record IsAside {B : Type 0} (f : World → B) : Type 0 where
  pub apart : IsApart f
  pub pending :
      (w : World) (d : Dict Tier3PendingAction)
      → f (record w { store = record w.store { tier3_pending = d } }) ≡ f w

module _ {B : Type 0} {f : World → B} (apart : IsApart f) where
  pub time-Preserves : Preserves f time
  time-Preserves = record { at = λ w. apart.clock w _ }

  append-Preserves : (e : Tier3Event) → Preserves f (modify (append_event e))
  unfolding append_event
  append-Preserves e = record { at = λ w. apart.events w _ }

  pub record-Preserves :
      (c item : String) (amount : ℕ) (o : Outcome) (r : Reason) (id : Option String)
      → Preserves f (record_tier3_event c item amount o r id)
  unfolding record_tier3_event
  record-Preserves c item amount o r id = search (preserves_rules, time-Preserves, append-Preserves)

  resolve-same :
      (now : ℕ) (id c : String) (st : Status) (d : Detail) (ch n : Option String) (w : World)
      → (found : Option Tier3Resolution) → get w.store.tier3_resolutions id ≡ found
      → f (record w { store = resolve now id c st d ch n w.store }) ≡ f w
  unfolding resolve add_resolution
  resolve-same now id c st d ch n w none e = rw (e, resolve) (apart.resolutions w _)
  resolve-same now id c st d ch n w (some r) e = rw (e, resolve) (apart.resolutions w _)

  resolve-Preserves :
      (now : ℕ) (id c : String) (st : Status) (d : Detail) (ch n : Option String)
      → Preserves f (modify (resolve now id c st d ch n))
  resolve-Preserves now id c st d ch n = record {
    at = λ w. resolve-same now id c st d ch n w (get w.store.tier3_resolutions id) refl;
  }

  pub set-Preserves :
      (id c : String) (st : Status) (d : Detail) (ch n : Option String)
      → Preserves f (set_tier3_resolution id c st d ch n)
  unfolding set_tier3_resolution
  set-Preserves id c st d ch n = search (preserves_rules, time-Preserves, resolve-Preserves)

  pub used-Preserves : (c : String) → Preserves f (tier3_used_cents c)
  unfolding tier3_used_cents
  used-Preserves c = record { at = λ w. apart.clock w _ }

  forget-Preserves : (id : String) → Preserves f (forget_resolution id)
  unfolding forget_resolution
  forget-Preserves id = record { at = λ w. apart.resolutions w _ }

  fresh-Preserves :
      (id : String) (found : Option Tier3Resolution) → Preserves f (fresh_resolution id found)
  unfolding fresh_resolution
  fresh-Preserves id none = search preserves_rules
  fresh-Preserves id (some r) = search (preserves_rules, time-Preserves, forget-Preserves) depth 7

  pub get-Preserves : (id : String) → Preserves f (get_tier3_resolution id)
  unfolding get_tier3_resolution
  get-Preserves id = search (preserves_rules, fresh-Preserves)

module _ {B : Type 0} {f : World → B} (aside : IsAside f) where
  pub drop-Preserves : (id : String) → Preserves f (modify (drop_pending id))
  drop-Preserves id = record { at = λ w. aside.pending w _ }

  popped-Preserves :
      (id : String) (found : Option Tier3PendingAction) → Preserves f (popped id found)
  unfolding popped
  popped-Preserves id none = search preserves_rules
  popped-Preserves id (some a) = search (preserves_rules, drop-Preserves)

  pub pop-Preserves : (id : String) → Preserves f (pop_pending id)
  unfolding pop_pending
  pop-Preserves id = search (preserves_rules, popped-Preserves)

  expire_one-Preserves : (id : String) (a : Tier3PendingAction) → Preserves f (expire_one id a)
  unfolding expire_one
  expire_one-Preserves id a = search (preserves_rules, record-Preserves, set-Preserves, aside.apart)

  expire-Preserves : (ids : List String) → Preserves f (expire_each ids)
  unfolding expire_each
  expire-Preserves [] = search preserves_rules
  expire-Preserves (id ∷ ids) =
      Preserves-bind (pop_pending id) _ (pop-Preserves id) λ a.
        Preserves-bind (expire_one id a) _ (expire_one-Preserves id a) λ _. expire-Preserves ids

  pub prune-Preserves : Preserves f prune_tier3_pending
  unfolding prune_tier3_pending
  prune-Preserves = search (preserves_rules, time-Preserves, aside.apart, expire-Preserves)

  pub queue-Preserves :
      (id c item : String) (quantity amount : ℕ)
      → Preserves f (queue_tier3_action id c item quantity amount)
  unfolding queue_tier3_action
  queue-Preserves id c item quantity amount = record {
    at = λ w. aside.pending _ _ ∙ aside.apart.clock w _;
  }

pub ruleset frame_rules = (
  preserves_rules, time-Preserves, record-Preserves, set-Preserves, drop-Preserves, pop-Preserves,
  prune-Preserves, used-Preserves, queue-Preserves, get-Preserves,
)
