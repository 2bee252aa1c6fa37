-- ===== src/Verify/Audit/Clean.antt =====
-- Why no change of the audit trail, but for a new accepted row, raises what a client has used.
use agent_embassy.Prelude.{
  ℕ, ◌+◌, ◌≤◌, String, ◌≡◌, refl, Bool, true, false, not, ◌||◌, Option, none, some, List, [], ◌∷◌,
  ◌++◌, reverse, arith, if◌then◌else◌, str_eq, str_eq_iff, select, select-append, sum_of,
  sum_of-append, all, all-append, all-reverse, all-select, sum_of-select-select,
  sum_of-select-reverse,
}
use agent_embassy.Verify.Store.{Store, Tier3Event, Outcome, Reason}
use agent_embassy.Verify.Capped.Parts.{sum-cap_per_client, all-cap_per_client}
use agent_embassy.Verify.Audit.{
  in_window, is_accepted, counts, append_event, used_cents, has_id, settle_first, settle_event,
}
use agent_embassy.Verify.Audit.Settlement.{share}

-- Settling this row under the id cannot raise what the client has used: the row does not carry the
-- id, or is accepted already, or is another client's.
abbrev pub is_clean : String → String → Tier3Event → Bool
is_clean c id e =
    if has_id id e.action_id then is_accepted e.outcome || not (str_eq e.client_id c) else true

abbrev pub IsClean : String → String → Store → Type 0
IsClean c id s = all (is_clean c id) s.tier3_events ≡ true

-- A new row raises what a client has used by its share at most.
pub used_cents-append_event-share :
    (now : ℕ) (c : String) (e : Tier3Event) (s : Store)
    → used_cents now c (append_event e s) ≤ used_cents now c s + share now c s e
unfolding append_event used_cents
used_cents-append_event-share now c e s =
    let p = counts now s.tier3_window_seconds c in
    let live = in_window e.at s.tier3_window_seconds in
    let longer = s.tier3_events ++ e ∷ [] in
    omega (
      arith,
      sum-cap_per_client (λ x. x.client_id) s.tier3_audit_max (λ x. x.amount_cents) p
          (select live longer),
      sum_of-select-select (λ x. x.amount_cents) p live longer,
      amounts-append_one p s.tier3_events e,
    )
  where
    amounts-append_one :
        (p : Tier3Event → Bool) (xs : List Tier3Event) (x : Tier3Event)
        → sum_of (λ y. y.amount_cents) (select p (xs ++ x ∷ []))
          ≡ sum_of (λ y. y.amount_cents) (select p xs) + (if p x then x.amount_cents else 0)
    amounts-append_one p xs x = rw (select-append, sum_of-append) (ground arith)

pub append_event-IsClean :
    (c id : String) (e : Tier3Event) (s : Store)
    → is_clean c id e ≡ true
    → IsClean c id s
    → IsClean c id (append_event e s)
unfolding append_event
append_event-IsClean c id e s fine clean =
    all-cap_per_client (λ x. x.client_id) s.tier3_audit_max (is_clean c id) _
      (all-select (is_clean c id) (in_window e.at s.tier3_window_seconds) (s.tier3_events ++ e ∷ [])
        (all-append (is_clean c id) s.tier3_events (e ∷ []) clean (ground arith)))

settle_first-le :
    (now window : ℕ) (c id : String) (o : Outcome) (r : Reason) (n : Option String)
    (xs : List Tier3Event)
    → all (is_clean c id) xs ≡ true
    → sum_of (λ x. x.amount_cents) (select (counts now window c) (settle_first id o r n xs))
      ≤ sum_of (λ x. x.amount_cents) (select (counts now window c) xs)
unfolding settle_first
settle_first-le now window c id o r n [] h = omega arith
settle_first-le now window c id o r none (x ∷ xs) h =
    ground (arith, settle_first-le now window c id o r none xs)
settle_first-le now window c id o r (some m) (x ∷ xs) h =
    ground (arith, settle_first-le now window c id o r (some m) xs)

-- Settling an id whose rows are all clean raises nothing.
pub used_cents-settle_event_le :
    (now : ℕ) (c id : String) (o : Outcome) (r : Reason) (n : Option String) (s : Store)
    → IsClean c id s
    → used_cents now c (settle_event id o r n s) ≤ used_cents now c s
unfolding settle_event used_cents
used_cents-settle_event_le now c id o r n s clean =
    let p = counts now s.tier3_window_seconds c in
    omega (
      arith,
      sum_of-select-reverse (λ x. x.amount_cents) p
          (settle_first id o r n (reverse s.tier3_events)),
      settle_first-le now s.tier3_window_seconds c id o r n (reverse s.tier3_events)
          (all-reverse (is_clean c id) s.tier3_events clean),
      sum_of-select-reverse (λ x. x.amount_cents) p s.tier3_events,
    )

apart_ids :
    (id j : String) (carried : Option String)
    → str_eq id j ≡ false
    → has_id id carried ≡ true
    → has_id j carried ≡ false
apart_ids id j none other h = refl
apart_ids id j (some k) other h = ground (arith, str_eq_iff k id, str_eq_iff k j, str_eq_iff id j)

settle_first-IsClean :
    (c id j : String) (o : Outcome) (r : Reason) (n : Option String) (xs : List Tier3Event)
    → str_eq id j ≡ false
    → all (is_clean c j) xs ≡ true
    → all (is_clean c j) (settle_first id o r n xs) ≡ true
unfolding settle_first
settle_first-IsClean c id j o r n [] other h = refl
settle_first-IsClean c id j o r none (x ∷ xs) other h =
    ground (arith, apart_ids id j x.action_id, settle_first-IsClean c id j o r none xs)
settle_first-IsClean c id j o r (some m) (x ∷ xs) other h =
    ground (arith, apart_ids id j x.action_id, settle_first-IsClean c id j o r (some m) xs)

-- Settling one id leaves the rows of another one clean.
pub settle_event-IsClean :
    (c id j : String) (o : Outcome) (r : Reason) (n : Option String) (s : Store)
    → str_eq id j ≡ false
    → IsClean c j s
    → IsClean c j (settle_event id o r n s)
unfolding settle_event
settle_event-IsClean c id j o r n s other clean =
    all-reverse (is_clean c j) (settle_first id o r n (reverse s.tier3_events)) (
      settle_first-IsClean c id j o r n (reverse s.tier3_events) other
        (all-reverse (is_clean c j) s.tier3_events clean))
