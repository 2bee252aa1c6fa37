-- ===== src/Verify/Decisions/Revocation.antt =====
-- What the revocation of a mandate does to the grants and to the approval queue.
use agent_embassy.Prelude.{
  ℕ, String, ◌≡◌, refl, sym, subst, ap, ◌∙◌, Bool, Option, none, some, List, [], ◌∷◌, if◌then◌else◌,
  str_eq, str_eq_refl,
}
use agent_embassy.Prelude.Dict.{Dict, get, remove, get-remove}
use agent_embassy.Verify.Store.{Tier3PendingAction, Reason, Status, Detail}
use agent_embassy.Verify.Action.{World, Result, ok, err, ◌>>=◌, ◌>>◌}
use agent_embassy.Verify.Action.Rules.{Preserves, Preserves-bind, preserves_rules}
use agent_embassy.Verify.Audit.{append_event, record_tier3_event}
use agent_embassy.Verify.Approvals.{
  set_tier3_resolution, pop_pending, popped, ids_where, prune_tier3_pending,
}
use agent_embassy.Verify.Approvals.Frame.{
  IsApart, IsAside, set-Preserves, record-Preserves, pop-Preserves, prune-Preserves,
}
use agent_embassy.Verify.Approvals.Queue.{
  IsKeyed, Ready, Ready-remove, Ready-ids_where, Pops, merge, listed, listed-ids_where,
  resolve-pending, holds_at, live, prune_tier3_pending-live, prune-IsKeyed,
}
use agent_embassy.Verify.Decisions.{refuse_pending, cancel_each, revoke}

abbrev grants : World → Dict ℕ
grants w = w.store.tier3_grants

grants-IsApart : IsApart grants
grants-IsApart = record { clock = λ w c. refl; events = λ w l. refl; resolutions = λ w d. refl }

grants-IsAside : IsAside grants
grants-IsAside = record { apart = grants-IsApart; pending = λ w d. refl }

refuse-Preserves :
    (id c : String) (a : Tier3PendingAction) (r : Reason) (d : Detail)
    → Preserves grants (refuse_pending id c a r d)
unfolding refuse_pending
refuse-Preserves id c a r d =
    search (preserves_rules, record-Preserves, set-Preserves, grants-IsApart)

cancel-Preserves : (c : String) (ids : List String) → Preserves grants (cancel_each c ids)
unfolding cancel_each
cancel-Preserves c [] = search preserves_rules
cancel-Preserves c (id ∷ ids) =
    Preserves-bind (pop_pending id) _ (pop-Preserves grants-IsAside id) λ a.
      Preserves-bind (refuse_pending id c a Reason.mandate_revoked Detail.cancelled_by_revocation) _
        (refuse-Preserves id c a _ _) λ _. cancel-Preserves c ids

cancel_each-pending :
    (c : String) (ids : List String) (w : World) (d : Dict Tier3PendingAction)
    → w.store.tier3_pending ≡ d
    → Ready ids d
    → ((cancel_each c ids w).0 ≡ ok tt)
      × ((k : String)
          → get (cancel_each c ids w).1.store.tier3_pending k
            ≡ (if listed k ids then none else get d k))
unfolding cancel_each pop_pending popped refuse_pending record_tier3_event set_tier3_resolution
    append_event
cancel_each-pending c [] w d e r = (refl, λ k. ap (λ q. get q k) e)
cancel_each-pending c (id ∷ ids) w d e ((a, present), once, more) =
    let found : get w.store.tier3_pending id ≡ some a = ap (λ q. get q id) e ∙ present in
    let later =
      cancel_each-pending c ids _ (remove d id)
        (resolve-pending _ id c Status.rejected Detail.cancelled_by_revocation none none _
          ∙ ap (λ q. remove q id) e)
        (Ready-remove ids id d once more) in
    subst
      (λ f. Pops ids d id (
        (popped id f >>= λ b.
        refuse_pending id c b Reason.mandate_revoked Detail.cancelled_by_revocation
        >> cancel_each c ids)
          w))
      (sym found) (later.0, λ k. later.1 k ∙ merge ids d id k)

-- An entry of the queue, unless it is the client's.
abbrev belongs : String → Tier3PendingAction → Bool
belongs c a = str_eq a.client_id c

abbrev pub unless_own : String → Option Tier3PendingAction → Option Tier3PendingAction
unless_own c o = if holds_at (belongs c) o then none else o

-- The revocation, once the overdue actions are gone.
abbrev cancel_from : String → Result (Unit {0}) → World → Result (Unit {0}) × World
cancel_from c r w = elim r [
  | ok a ↦ cancel_each c (ids_where (belongs c) w.store.tier3_pending) w
  | err e ↦ (err e, w)
]

-- What a revocation has to leave, where `d` is the queue before it and `now` its clock reading.
abbrev pub Revoked : String → ℕ → Dict Tier3PendingAction → Result (Unit {0}) × World → Type 0
Revoked c now d r =
    (r.0 ≡ ok tt)
    × (get r.1.store.tier3_grants c ≡ none)
    × ((k : String) → get r.1.store.tier3_pending k ≡ unless_own c (live now (get d k)))

cancelled :
    (c : String) (now : ℕ) (d : Dict Tier3PendingAction) (w : World)
    → IsKeyed w.store.tier3_pending
    → get w.store.tier3_grants c ≡ none
    → ((k : String) → get w.store.tier3_pending k ≡ live now (get d k))
    → Revoked c now d (cancel_each c (ids_where (belongs c) w.store.tier3_pending) w)
cancelled c now d w h gone fresh =
    let q = w.store.tier3_pending in
    let ids = ids_where (belongs c) q in
    let pops = cancel_each-pending c ids w q refl (Ready-ids_where (belongs c) q h) in
    (
      pops.0,
      ap (λ g. get g c) ((cancel-Preserves c ids).at w) ∙ gone,
      λ k.
          pops.1 k
          ∙ ap (λ b. if b then none else get q k) (listed-ids_where (belongs c) q k h)
          ∙ ap (unless_own c) (fresh k),
    )

-- On a queue that has each action under its own id, once, the revocation of a mandate never fails;
-- after it the client has no grant, no action of the client is left in the queue, and of the actions
-- of other clients exactly those that are past their time at its clock reading are gone.
pub revoke-Revoked :
    (c : String) (w : World)
    → IsKeyed w.store.tier3_pending
    → Revoked c (w.outside.clock 0) w.store.tier3_pending (revoke c w)
unfolding revoke
revoke-Revoked c w h =
    let w1 = record w { store = record w.store { tier3_grants = remove w.store.tier3_grants c } } in
    let w2 = (prune_tier3_pending w1).1 in
    let prunes = prune_tier3_pending-live w1 h in
    subst (λ r. Revoked c (w.outside.clock 0) w.store.tier3_pending (cancel_from c r w2))
      (sym prunes.0)
      (cancelled c (w.outside.clock 0) w.store.tier3_pending w2 (prune-IsKeyed w1 h)
        (ap (λ g. get g c) ((prune-Preserves grants-IsAside).at w1)
          ∙ get-remove w.store.tier3_grants c c
          ∙ rw (str_eq_refl c))
        prunes.1)
