-- ===== src/Verify/Concurrent/Invariant.antt =====
-- What holds between the steps of concurrent orders, and the handlers that keep it.
use agent_embassy.Prelude.{
  ℕ, suc, ◌≤◌, String, ◌≡◌, refl, ap, ◌∙◌, Bool, true, false, ◌&&◌, Option, none, some, List, arith,
  str_eq, str_eq_iff, if◌then◌else◌, inl, inr, Bool-cases, Option-cases,
}
use agent_embassy.Prelude.Dict.{get, get-put, get-remove}
use agent_embassy.Verify.Store.{Store, Tier3Event, Outcome, Reason, Status, Detail}
use agent_embassy.Verify.Action.{
  World, Action, Result, ok, err, pure, raise, gets, time, modify, ◌>>=◌,
}
use agent_embassy.Verify.Audit.{append_event, used_cents, record_tier3_event, is_accepted, has_id}
use agent_embassy.Verify.Audit.Usage.{used_cents_antitone}
use agent_embassy.Verify.Audit.Settlement.{share}
use agent_embassy.Verify.Audit.Clean.{IsClean, used_cents-append_event-share, append_event-IsClean}
use agent_embassy.Verify.Approvals.{
  resolve, add_resolution, set_tier3_resolution, queue_tier3_action, drop_pending,
}
use agent_embassy.Verify.Approvals.Queue.{resolve-pending}
use agent_embassy.Verify.Orders.Release.{used_cents-resolve}
use agent_embassy.Verify.Concurrent.{listed, is_in_flight, IsSteady}

-- The client has used no more than its limit; every row of an order in flight is one that its
-- settlement cannot make dearer; and no such order waits for a human.
pub record Holds (c : String) (limit : ℕ) (ids : List String) (w : World) : Type 0 where
  pub steady : IsSteady w
  pub within : used_cents (w.outside.clock 0) c w.store ≤ limit
  pub clean : (id : String) → listed id ids ≡ true → IsClean c id w.store
  pub apart : (id : String) → listed id ids ≡ true → get w.store.tier3_pending id ≡ none

pub record Keeps (c : String) (limit : ℕ) (ids : List String) {A : Type 0} (m : Action A)
    : Type 0 where
  pub at : (w : World) → Holds c limit ids w → Holds c limit ids (m w).1

module _ {c : String} {limit : ℕ} {ids : List String} {A : Type 0} where
  pub Keeps-pure : (a : A) → Keeps c limit ids (pure a)
  Keeps-pure a = record { at = λ w h. h }

  pub Keeps-raise : (n : ℕ) (d : String) → Keeps c limit ids (raise {A = A} n d)
  Keeps-raise n d = record { at = λ w h. h }

  pub Keeps-gets : (g : Store → A) → Keeps c limit ids (gets g)
  Keeps-gets g = record { at = λ w h. h }

  pub Keeps-if :
      (b : Bool) {m n : Action A}
      → Keeps c limit ids m
      → Keeps c limit ids n
      → Keeps c limit ids (if b then m else n)
  Keeps-if true km kn = km
  Keeps-if false km kn = kn

module _ {c : String} {limit : ℕ} {ids : List String} {A B : Type 0} where
  continued :
      (k : A → Action B)
      → ((a : A) → Keeps c limit ids (k a))
      → (r : Result A) (w : World) → Holds c limit ids w
      → Holds c limit ids
          (let s : Result B × World = elim r [ ok a ↦ k a w | err e ↦ (err e, w) ] in s.1)
  continued k kept (ok a) w h = (kept a).at w h
  continued k kept (err e) w h = h

  pub Keeps-bind :
      (m : Action A) (k : A → Action B)
      → Keeps c limit ids m
      → ((a : A) → Keeps c limit ids (k a))
      → Keeps c limit ids (m >>= k)
  Keeps-bind m k first kept = record { at = λ w h. continued k kept (m w).0 (m w).1 (first.at w h) }

pub ruleset keeps_rules = (Keeps-pure, Keeps-raise, Keeps-gets, Keeps-if, Keeps-bind)

-- An id that is not in flight is none of those that are.
pub not_listed :
    (id j : String) (ids : List String)
    → listed id ids ≡ false
    → listed j ids ≡ true
    → str_eq id j ≡ false
not_listed id j ids free flying = elim (Bool-cases (str_eq id j)) [
  | inl same ↦ absurd (ground (arith, str_eq_iff id j))
  | inr other ↦ other
]

clean_row :
    (c j : String) (carried : Option String) (ids : List String)
    → is_in_flight carried ids ≡ false
    → listed j ids ≡ true
    → has_id j carried ≡ false
clean_row c j none ids free flying = refl
clean_row c j (some id) ids free flying = not_listed id j ids free flying

resolve-events :
    (now : ℕ) (id c : String) (st : Status) (de : Detail) (ch n : Option String) (s : Store)
    → (resolve now id c st de ch n s).tier3_events ≡ s.tier3_events
resolve-events now id c st de ch n s = elim (Option-cases (get s.tier3_resolutions id)) [
  | inl missing ↦ unfold resolve add_resolution in rw (missing, resolve)
  | inr (r, found) ↦ unfold resolve add_resolution in rw (found, resolve)
]

pub no_share :
    (now : ℕ) (c : String) (e : Tier3Event) (s : Store)
    → (is_accepted e.outcome && str_eq e.client_id c) ≡ false
    → share now c s e ≡ 0
no_share now c e s costless = ground arith

get_unless :
    {A : Type 0} {found : Option A} (b : Bool) → found ≡ none → (if b then none else found) ≡ none
get_unless true e = refl
get_unless false e = e

module _ (c : String) (limit : ℕ) (ids : List String) where
  pub time-Keeps : Keeps c limit ids time
  time-Keeps = record {
    at = λ w h. record {
      steady = λ n. h.steady (suc n);
      within = omega (
        arith,
        h.within,
        used_cents_antitone (w.outside.clock 0) (w.outside.clock 1) c w.store (h.steady 0),
      );
      clean = h.clean;
      apart = h.apart;
    };
  }

  -- A row that costs the client nothing and is of no order in flight.
  appended :
      (e : Tier3Event) (w : World)
      → is_in_flight e.action_id ids ≡ false
      → (is_accepted e.outcome && str_eq e.client_id c) ≡ false
      → Holds c limit ids w
      → Holds c limit ids (record w { store = append_event e w.store })
  unfolding append_event
  appended e w free costless h = record {
    steady = h.steady;
    within = omega (
      arith,
      h.within,
      used_cents-append_event-share (w.outside.clock 0) c e w.store,
      no_share (w.outside.clock 0) c e w.store costless,
    );
    clean = λ j flying.
        append_event-IsClean c j e w.store (rw (clean_row c j e.action_id ids free flying) refl)
          (h.clean j flying);
    apart = h.apart;
  }

  pub record-Keeps :
      (client item : String) (amount : ℕ) (o : Outcome) (r : Reason) (id : Option String)
      → is_in_flight id ids ≡ false
      → (is_accepted o && str_eq client c) ≡ false
      → Keeps c limit ids (record_tier3_event client item amount o r id)
  unfolding record_tier3_event
  record-Keeps client item amount o r id free costless = record {
    at = λ w h. appended _ (time w).1 free costless (time-Keeps.at w h);
  }

  resolved :
      (now : ℕ) (id client : String) (st : Status) (d : Detail) (ch n : Option String) (w : World)
      → Holds c limit ids w
      → Holds c limit ids (record w { store = resolve now id client st d ch n w.store })
  resolved now id client st d ch n w h = record {
    steady = h.steady;
    within = rw (used_cents-resolve (w.outside.clock 0) now c id client st d ch n w.store) h.within;
    clean = λ j flying. rw (resolve-events now id client st d ch n w.store) (h.clean j flying);
    apart = λ j flying.
        ap (λ q. get q j) (resolve-pending now id client st d ch n w.store) ∙ h.apart j flying;
  }

  pub set-Keeps :
      (id client : String) (st : Status) (d : Detail) (ch n : Option String)
      → Keeps c limit ids (set_tier3_resolution id client st d ch n)
  unfolding set_tier3_resolution
  set-Keeps id client st d ch n = record {
    at = λ w h. resolved (w.outside.clock 0) id client st d ch n (time w).1 (time-Keeps.at w h);
  }

  -- The queue is cut: no order in flight stands in it.
  pub drop-Keeps : (id : String) → Keeps c limit ids (modify (drop_pending id))
  unfolding used_cents
  drop-Keeps id = record {
    at = λ w h. record {
      steady = h.steady;
      within = h.within;
      clean = h.clean;
      apart = λ j flying.
          get-remove w.store.tier3_pending id j ∙ get_unless (str_eq id j) (h.apart j flying);
    };
  }

  pub queue-Keeps :
      (id client item : String) (quantity amount : ℕ)
      → listed id ids ≡ false
      → Keeps c limit ids (queue_tier3_action id client item quantity amount)
  unfolding queue_tier3_action used_cents
  queue-Keeps id client item quantity amount free = record {
    at = λ w h. record {
      steady = (time-Keeps.at w h).steady;
      within = (time-Keeps.at w h).within;
      clean = h.clean;
      apart = λ j flying.
          get-put w.store.tier3_pending id j _
          ∙ rw (not_listed id j ids free flying) (h.apart j flying);
    };
  }
