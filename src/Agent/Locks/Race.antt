-- ===== src/Agent/Locks/Race.antt =====
-- A request that is answered while another action is being executed takes that action's lock out of
-- the table.
use agent_embassy.Prelude.{String, ◌≡◌, ◌≢◌, refl, sym, false, [], ◌∷◌, arith, str_eq, str_eq_ne}
use agent_embassy.Agent.Locks.{
  executing, System, take_lock, dispatch, store, Reach, start, later, requests,
}

-- Of two different actions: while the first is being executed, the second is answered, which
-- prunes the lock of the first from the table. A retry of the first action then gets a new lock,
-- and the action is dispatched a second time while the first dispatch is still under way.
pub double_dispatch :
    (a b : String)
    → a ≢ b
    → (s : System) × Reach (requests a b) s
      × (s.phase 0 ≡ executing 0)
      × (s.phase 2 ≡ executing 2)
      × (s.dispatched ≡ a ∷ b ∷ a ∷ [])
double_dispatch a b distinct =
    let ab : str_eq a b ≡ false = str_eq_ne a b distinct in
    let ba : str_eq b a ≡ false = str_eq_ne b a (λ e. distinct (sym e)) in
    let r1 : Reach (requests a b) _ = later start (take_lock 0 refl) in
    let r2 = later r1 (dispatch 0 0 refl refl refl) in
    let r3 = later r2 (take_lock 1 refl) in
    let r4 = later r3 (dispatch 1 1 (ground arith) (ground arith) (ground arith)) in
    let r5 = later r4 (store 1 1 (ground arith)) in
    let r6 = later r5 (take_lock 2 (ground arith)) in
    let r7 = later r6 (dispatch 2 2 (ground arith) (ground arith) (ground arith)) in
    (_, r7, ground arith, ground arith, ground arith)
