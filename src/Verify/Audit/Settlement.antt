-- ===== src/Verify/Audit/Settlement.antt =====
-- What settling a reservation does to the audit trail and to the budget.
use mathlib.Core.List.{reverse-append, reverse-reverse, reverse-cons, append_assoc}
use agent_embassy.Prelude.{
  ℕ, ◌+◌, String, ◌≡◌, refl, ap, ◌∙◌, Bool, false, Option, some, List, [], ◌∷◌, ◌++◌, reverse,
  arith, if◌then◌else◌, str_eq_refl, select, select-append, sum_of, sum_of-append, any, any-reverse,
}
use agent_embassy.Verify.Store.{Store, Tier3Event, Outcome, Reason}
use agent_embassy.Verify.Audit.{has_id, counts, settled, settle_first, settle_event, used_cents}

-- Some row of the list carries the action id.
abbrev pub mentions : String → List Tier3Event → Bool
mentions id rows = any (λ e. has_id id e.action_id) rows

settle_first-skip :
    (id : String) (o : Outcome) (r : Reason) (n : Option String) (xs ys : List Tier3Event)
    → mentions id xs ≡ false
    → settle_first id o r n (xs ++ ys) ≡ xs ++ settle_first id o r n ys
unfolding settle_first
settle_first-skip id o r n [] ys h = refl
settle_first-skip id o r n (x ∷ xs) ys h = ground (arith, settle_first-skip id o r n xs ys)

settle_first-hit :
    (id : String) (o : Outcome) (r : Reason) (n : Option String) (e : Tier3Event)
    (ys : List Tier3Event)
    → e.action_id ≡ some id
    → settle_first id o r n (e ∷ ys) ≡ settled o r n e ∷ ys
unfolding settle_first
settle_first-hit id o r n e ys h = rw (h, str_eq_refl id)

reverse_middle :
    (before after : List Tier3Event) (e : Tier3Event)
    → reverse (before ++ (e ∷ after)) ≡ reverse after ++ (e ∷ reverse before)
reverse_middle before after e =
    rw (reverse-append, reverse-cons) (append_assoc (reverse after) (e ∷ []) (reverse before))

-- Settling an action id that some row carries changes exactly the newest such row: its outcome,
-- its reason and, where one is given, its order number. All other rows stay, in their order.
pub settle_event-middle :
    (id : String) (o : Outcome) (r : Reason) (n : Option String) (s : Store)
    (before after : List Tier3Event) (e : Tier3Event)
    → s.tier3_events ≡ before ++ (e ∷ after)
    → e.action_id ≡ some id
    → mentions id after ≡ false
    → (settle_event id o r n s).tier3_events ≡ before ++ (settled o r n e ∷ after)
unfolding settle_event
settle_event-middle id o r n s before after e split hit fresh =
    ap (λ l. reverse (settle_first id o r n l)) (ap reverse split ∙ reverse_middle before after e)
    ∙ ap reverse (
        settle_first-skip id o r n (reverse after) (e ∷ reverse before)
          (any-reverse (λ x. has_id id x.action_id) after ∙ fresh)
        ∙ ap (λ l. reverse after ++ l) (settle_first-hit id o r n e (reverse before) hit))
    ∙ reverse_middle (reverse after) (reverse before) (settled o r n e)
    ∙ simp reverse-reverse

-- What one row contributes to the used budget of client `c`.
abbrev pub share : ℕ → String → Store → Tier3Event → ℕ
share now c s e = if counts now s.tier3_window_seconds c e then e.amount_cents else 0

used_cents-middle :
    (now : ℕ) (c : String) (s : Store) (before after : List Tier3Event) (e : Tier3Event)
    → s.tier3_events ≡ before ++ (e ∷ after)
    → used_cents now c s
      ≡ sum_of
          (λ x. x.amount_cents)
          (select (counts now s.tier3_window_seconds c) (before ++ after))
        + share now c s e
unfolding used_cents
used_cents-middle now c s before after e split =
    rw (split, select-append, sum_of-append, select-append, sum_of-append) (ground arith)

-- Settling replaces the share that the newest row with the action id has in each client's used
-- budget by that of the settled row.
pub used_cents-settle_event :
    (now : ℕ) (c id : String) (o : Outcome) (r : Reason) (n : Option String) (s : Store)
    (before after : List Tier3Event) (e : Tier3Event)
    → s.tier3_events ≡ before ++ (e ∷ after)
    → e.action_id ≡ some id
    → mentions id after ≡ false
    → used_cents now c (settle_event id o r n s) + share now c s e
      ≡ used_cents now c s + share now c s (settled o r n e)
unfolding settle_event
used_cents-settle_event now c id o r n s before after e split hit fresh = omega (
  arith,
  used_cents-middle now c s before after e split,
  used_cents-middle now c (settle_event id o r n s) before after (settled o r n e)
      (settle_event-middle id o r n s before after e split hit fresh),
)
