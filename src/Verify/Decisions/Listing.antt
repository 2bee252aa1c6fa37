-- ===== src/Verify/Decisions/Listing.antt =====
-- What the admin's list of the approval queue shows.
use mathlib.Core.List.{Perm}
use mathlib.Core.List.Perm
use agent_embassy.Prelude.{
  ◌≤◌, String, ◌≡◌, refl, ap, subst, Option, List, [], ◌∷◌, map, leb, leb→le, leb-false→lt, inl,
  inr, Bool-cases, arith,
}
use agent_embassy.Prelude.Dict.{values, get}
use agent_embassy.Verify.Store.{Tier3PendingAction}
use agent_embassy.Verify.Action.{World, Action, Result, ok, err, gets, ◌>>=◌, ◌>>◌}
use agent_embassy.Verify.Audit.{tier3_used_cents, used_cents}
use agent_embassy.Verify.Approvals.{prune_tier3_pending}
use agent_embassy.Verify.Requests.{require_internal_admin}
use agent_embassy.Verify.Decisions.{
  GrantState, remaining_of, tier3_grant_dict, insert_by_age, sort_by_age, with_grants,
  list_tier3_approvals,
}

-- No action of the list was queued before `a`.
abbrev IsOldest : Tier3PendingAction → List Tier3PendingAction → Type 0
IsOldest a [] = Unit
IsOldest a (b ∷ bs) = (a.queued_at ≤ b.queued_at) × IsOldest a bs

-- The oldest first.
abbrev pub IsByAge : List Tier3PendingAction → Type 0
IsByAge [] = Unit
IsByAge (a ∷ rest) = IsOldest a rest × IsByAge rest

earlier-IsOldest :
    (a b : Tier3PendingAction) (bs : List Tier3PendingAction)
    → a.queued_at ≤ b.queued_at
    → IsOldest b bs
    → IsOldest a bs
earlier-IsOldest a b [] h rest = tt
earlier-IsOldest a b (c ∷ bs) h (first, rest) = (omega arith, earlier-IsOldest a b bs h rest)

insert-IsOldest :
    (a b : Tier3PendingAction) (bs : List Tier3PendingAction)
    → a.queued_at ≤ b.queued_at
    → IsOldest a bs
    → IsOldest a (insert_by_age b bs)
unfolding insert_by_age
insert-IsOldest a b [] h rest = (h, tt)
insert-IsOldest a b (c ∷ bs) h (first, rest) = elim (Bool-cases (leb b.queued_at c.queued_at)) [
  | inl before ↦ rw before (h, (first, rest))
  | inr later ↦ rw later (first, insert-IsOldest a b bs h rest)
]

insert-IsByAge :
    (a : Tier3PendingAction) (bs : List Tier3PendingAction)
    → IsByAge bs
    → IsByAge (insert_by_age a bs)
unfolding insert_by_age
insert-IsByAge a [] sorted = (tt, tt)
insert-IsByAge a (b ∷ bs) (first, rest) = elim (Bool-cases (leb a.queued_at b.queued_at)) [
  | inl before ↦
      let h = leb→le a.queued_at b.queued_at before in
      rw before ((h, earlier-IsOldest a b bs h first), (first, rest))
  | inr later ↦
      let h = leb-false→lt a.queued_at b.queued_at later in
      rw later (insert-IsOldest b a bs (omega arith) first, insert-IsByAge a bs rest)
]

sort_by_age-IsByAge : (xs : List Tier3PendingAction) → IsByAge (sort_by_age xs)
unfolding sort_by_age
sort_by_age-IsByAge [] = tt
sort_by_age-IsByAge (x ∷ xs) = insert-IsByAge x (sort_by_age xs) (sort_by_age-IsByAge xs)

insert_perm :
    (a : Tier3PendingAction) (bs : List Tier3PendingAction) → Perm (insert_by_age a bs) (a ∷ bs)
unfolding insert_by_age
insert_perm a [] = Perm.rfl
insert_perm a (b ∷ bs) = elim (Bool-cases (leb a.queued_at b.queued_at)) [
  | inl before ↦ rw before Perm.rfl
  | inr later ↦ rw later (Perm.trans (Perm.cons b (insert_perm a bs)) (Perm.swap a b bs))
]

sort_perm : (xs : List Tier3PendingAction) → Perm (sort_by_age xs) xs
unfolding sort_by_age
sort_perm [] = Perm.rfl
sort_perm (x ∷ xs) = Perm.trans (insert_perm x (sort_by_age xs)) (Perm.cons x (sort_perm xs))

abbrev Entry : Type 0
Entry = Tier3PendingAction × GrantState

-- The actions of the answer are those of the queue, the oldest first.
abbrev pub Shown : Result (List (Tier3PendingAction × GrantState)) → World → Type 0
Shown (ok entries) w =
    IsByAge (map (λ e. e.0) entries) × Perm (map (λ e. e.0) entries) (values w.store.tier3_pending)
Shown (err e) w = Unit

after_step :
    {A : Type 0} (k : A → Action (List Entry)) (r : Result A) (w : World)
    → ((a : A) (v : World) → Shown (k a v).0 (k a v).1)
    → (let s : Result (List Entry) × World = elim r [ ok a ↦ k a w | err e ↦ (err e, w) ] in
        Shown s.0 s.1)
after_step k (ok a) w shown = shown a w
after_step k (err e) w shown = tt

-- What `with_grants` returns: the actions in their order, and the store untouched.
abbrev Gives : List Tier3PendingAction → World → Type 0
Gives actions w =
    (entries : List Entry) × (v : World) × (with_grants actions w ≡ (ok entries, v))
    × (map (λ e. e.0) entries ≡ actions)
    × (v.store ≡ w.store)

-- The grant of the client at the next reading of the clock.
abbrev grant_of : String → World → GrantState
grant_of client_id w =
    let limit = get w.store.tier3_grants client_id in
    let used = used_cents (w.outside.clock 0) client_id w.store in
    record {
      client_id = client_id;
      weekly_limit_cents = limit;
      used_cents = used;
      remaining_cents = remaining_of limit used;
      window_seconds = w.store.tier3_window_seconds;
    }

-- What follows the entries of the other actions.
abbrev continued : Entry → Result (List Entry) × World → Result (List Entry) × World
continued entry (r, w) = elim r [ ok others ↦ (ok (entry ∷ others), w) | err e ↦ (err e, w) ]

with_grants-Gives : (actions : List Tier3PendingAction) (w : World) → Gives actions w
unfolding with_grants tier3_grant_dict tier3_used_cents
with_grants-Gives [] w = ([], w, refl, refl, refl)
with_grants-Gives (a ∷ actions) w =
    let (entries, v, e, same, kept) =
      with_grants-Gives actions (tier3_grant_dict a.client_id w).1 in
    let step : with_grants (a ∷ actions) w ≡ (ok ((a, grant_of a.client_id w) ∷ entries), v) =
      ap (continued (a, grant_of a.client_id w)) e in
    ((a, grant_of a.client_id w) ∷ entries, v, step, ap (λ more. a ∷ more) same, kept)

with_grants-Shown :
    (w : World)
    → (let (r, v) = with_grants (sort_by_age (values w.store.tier3_pending)) w in Shown r v)
with_grants-Shown w =
    let actions = sort_by_age (values w.store.tier3_pending) in
    let (entries, v, e, same, kept) = with_grants-Gives actions w in
    rw (e, same, kept)
      (sort_by_age-IsByAge (values w.store.tier3_pending), sort_perm (values w.store.tier3_pending))

-- A list of the approval queue that is answered shows exactly the actions that are in the queue
-- after it, each as often as it is there, the one that was queued first at the front.
pub list_tier3_approvals-Shown :
    (admin_token : String) (given : Option String) (w : World)
    (entries : List (Tier3PendingAction × GrantState))
    → (list_tier3_approvals admin_token given w).0 ≡ ok entries
    → IsByAge (map (λ e. e.0) entries)
      × Perm
          (map (λ e. e.0) entries)
          (values (list_tier3_approvals admin_token given w).1.store.tier3_pending)
unfolding list_tier3_approvals
list_tier3_approvals-Shown admin_token given w entries e =
    let listing : Action (List Entry) =
      gets (λ s. sort_by_age (values s.tier3_pending)) >>= with_grants in
    let checked = require_internal_admin admin_token given w in
    subst (λ x. Shown x (list_tier3_approvals admin_token given w).1) e
      (after_step (λ _. prune_tier3_pending >> listing) checked.0 checked.1
        λ _ v.
          let pruned = prune_tier3_pending v in
          after_step (λ _. listing) pruned.0 pruned.1 λ _ u. with_grants-Shown u)
