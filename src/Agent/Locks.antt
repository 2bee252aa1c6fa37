-- ===== src/Agent/Locks.antt =====
-- agent/main.py: requests that run at the same time, with the table of per-action locks
-- (`_action_lock`, the locked section of `execute_action`, the pruning in `_store_result`). No
-- result is evicted here: `_results` is taken to stay below its maximum.
pub mod Race
pub mod Once
pub mod Progress
use agent_embassy.Prelude.{
  ℕ, zero, suc, ◌+◌, String, ◌≡◌, ◌≢◌, refl, Bool, true, false, not, Option, none, some, List, [],
  ◌∷◌, ◌==◌, if◌then◌else◌, str_eq, any, select,
}
use agent_embassy.Prelude.Dict.{Dict, get, put}

-- Where a request stands: before `_action_lock`, waiting for the lock that it was given, inside
-- `channels.execute` with that lock, or answered.
pub data Phase : Type 0 where
  arrived answered : Phase
  waiting executing : (lock : ℕ) → Phase

-- `results` lists the action ids in `_results`; `locks` is `_action_locks`, a lock being a number;
-- `held` says which locks are taken; `dispatched` lists the ids of the dispatches made so far.
pub record System : Type 0 where
  pub results : List String
  pub locks : Dict ℕ
  pub next_lock : ℕ
  pub held : ℕ → Bool
  pub dispatched : List String
  pub phase : ℕ → Phase

abbrev pub init : System
init = record {
  results = [];
  locks = [];
  next_lock = 0;
  held = λ _. false;
  dispatched = [];
  phase = λ _. arrived;
}

abbrev pub update : {A : Type 0} → (ℕ → A) → ℕ → A → ℕ → A
update f i a j = if i == j then a else f j

abbrev pub member : String → List String → Bool
member id ids = any (λ i. str_eq i id) ids

-- `_action_lock`: the lock of the id, a new one if the table has none.
abbrev pub lock_of : String → System → ℕ
lock_of id s = elim (get s.locks id) [ some lock ↦ lock | none ↦ s.next_lock ]

abbrev pub with_lock : String → System → System
with_lock id s = elim (get s.locks id) [
  | some lock ↦ s
  | none ↦ record s { locks = put s.locks id s.next_lock; next_lock = s.next_lock + 1 }
]

-- The pruning: only ids that have a result keep their locks.
abbrev pub kept_locks : List String → Dict ℕ → Dict ℕ
kept_locks results locks = select (λ e. member e.0 results) locks

-- One step of request `i`, which is for the action `id i`.
pub data Step (id : ℕ → String) (s : System) : System → Type 0 where
  take_lock :
      (i : ℕ)
      → s.phase i ≡ arrived
      → Step id s
          (record (with_lock (id i) s) { phase = update s.phase i (waiting (lock_of (id i) s)) })
  replay :
      (i lock : ℕ)
      → s.phase i ≡ waiting lock
      → s.held lock ≡ false
      → member (id i) s.results ≡ true
      → Step id s (record s { phase = update s.phase i answered })
  dispatch :
      (i lock : ℕ)
      → s.phase i ≡ waiting lock
      → s.held lock ≡ false
      → member (id i) s.results ≡ false
      → Step id s (record s {
        held = update s.held lock true;
        dispatched = id i ∷ s.dispatched;
        phase = update s.phase i (executing lock);
      })
  store :
      (i lock : ℕ)
      → s.phase i ≡ executing lock
      → Step id s (record s {
        results = id i ∷ s.results;
        locks = kept_locks (id i ∷ s.results) s.locks;
        held = update s.held lock false;
        phase = update s.phase i answered;
      })

pub data Reach (id : ℕ → String) : System → Type 0 where
  start : Reach id init
  later : {s t : System} → Reach id s → Step id s t → Reach id t

-- Request 0 and its retry 2 are for the action `a`, request 1 for the action `b`.
abbrev pub requests : String → String → ℕ → String
requests a b zero = a
requests a b (suc zero) = b
requests a b (suc (suc n)) = a
