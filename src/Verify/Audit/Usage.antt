-- ===== src/Verify/Audit/Usage.antt =====
-- The budget that the audit trail shows as used, when an event is recorded.
use agent_embassy.Prelude.{
  ℕ, ◌+◌, ◌≤◌, ◌<◌, String, ◌≡◌, ◌≢◌, ap, sym, ◌∙◌, Bool, true, List, [], ◌∷◌, ◌++◌, reverse, arith,
  if◌then◌else◌, str_eq_refl, select, select-append, sum_of, sum_of-append, sum_of-reverse,
  select-reverse, sum_of-select-take, select_absorb, select-&&, length, length-append,
  length-select, newest, newest-all, take, ◌&&◌,
}
use agent_embassy.Verify.Store.{Store, Tier3Event}
use agent_embassy.Verify.Capped.{of_client}
use agent_embassy.Verify.Audit.{in_window, is_accepted, counts, append_event, used_cents}
use agent_embassy.Verify.Audit.View.{rows, rows-append_event, rows-append_event_ne}

abbrev spent : ℕ → ℕ → Tier3Event → Bool
spent now window e = is_accepted e.outcome && in_window now window e

abbrev total : List Tier3Event → ℕ
total = sum_of (λ e. e.amount_cents)

-- What is used depends on the client's own rows alone.
used-rows :
    (now : ℕ) (c : String) (s : Store)
    → used_cents now c s ≡ total (select (spent now s.tier3_window_seconds) (rows c s))
unfolding used_cents
used-rows now c s = ap total (select-&& _ _ s.tier3_events)

-- A row that counts at a later reading was in the window at an earlier one.
spent-in_window :
    (before now window : ℕ) (e : Tier3Event)
    → before ≤ now
    → spent now window e ≡ true
    → in_window before window e ≡ true
spent-in_window before now window e h k = ground arith

-- Recording an event of one client leaves what another client has used, at a reading not before the
-- event, as it was, if the rows of the other client are within the cap.
pub used_cents-append_event_ne :
    (now : ℕ) (e : Tier3Event) (s : Store) (c : String)
    → e.client_id ≢ c
    → length (rows c s) ≤ s.tier3_audit_max
    → e.at ≤ now
    → used_cents now c (append_event e s) ≡ used_cents now c s
unfolding append_event
used_cents-append_event_ne now e s c ne few later =
    used-rows now c (append_event e s)
    ∙ ap (λ l. total (select (spent now s.tier3_window_seconds) l))
        (rows-append_event_ne e s c ne few)
    ∙ ap total (
        select_absorb _ _ (λ x. spent-in_window e.at now s.tier3_window_seconds x later) (rows c s))
    ∙ sym (used-rows now c s)

total-newest :
    (p : Tier3Event → Bool) (n : ℕ) (xs : List Tier3Event)
    → total (select p (newest n xs)) ≤ total (select p xs)
total-newest p n xs =
    let taken = take n (reverse xs) in
    let front : total (select p (newest n xs)) ≡ total (select p taken) =
      ap total (select-reverse p taken) ∙ sum_of-reverse _ (select p taken) in
    let back : total (select p (reverse xs)) ≡ total (select p xs) =
      ap total (select-reverse p xs) ∙ sum_of-reverse _ (select p xs) in
    omega (arith, front, back, sum_of-select-take (λ e. e.amount_cents) p n (reverse xs))

-- The rows of the event's client before the cap is applied.
rows_before : Tier3Event → Store → List Tier3Event
rows_before e s =
    select (in_window e.at s.tier3_window_seconds)
      (of_client (λ x. x.client_id) e.client_id (s.tier3_events ++ e ∷ []))

-- What the event itself adds at the reading `now`.
abbrev pub cost : ℕ → Tier3Event → Store → ℕ
cost now e s = if spent now s.tier3_window_seconds e then e.amount_cents else 0

rows-append_self :
    (e : Tier3Event) (s : Store)
    → of_client (λ x. x.client_id) e.client_id (s.tier3_events ++ e ∷ [])
      ≡ rows e.client_id s ++ e ∷ []
rows-append_self e s = rw (select-append, str_eq_refl e.client_id)

total-append_one :
    (p : Tier3Event → Bool) (xs : List Tier3Event) (e : Tier3Event)
    → total (select p (xs ++ e ∷ [])) ≡ total (select p xs) + (if p e then e.amount_cents else 0)
total-append_one p xs e = rw (select-append, sum_of-append) (ground arith)

total-rows_before :
    (now : ℕ) (e : Tier3Event) (s : Store)
    → e.at ≤ now
    → total (select (spent now s.tier3_window_seconds) (rows_before e s))
      ≡ used_cents now e.client_id s + cost now e s
unfolding rows_before
total-rows_before now e s later =
    let spends = spent now s.tier3_window_seconds in
    ap total (select_absorb _ _ (λ x. spent-in_window e.at now s.tier3_window_seconds x later) _)
    ∙ ap (λ l. total (select spends l)) (rows-append_self e s)
    ∙ total-append_one spends (rows e.client_id s) e
    ∙ ap (λ (n : ℕ). n + cost now e s) (sym (used-rows now e.client_id s))

used-append_event :
    (now : ℕ) (e : Tier3Event) (s : Store)
    → used_cents now e.client_id (append_event e s)
      ≡ total
          (select (spent now s.tier3_window_seconds) (newest s.tier3_audit_max (rows_before e s)))
unfolding append_event rows_before
used-append_event now e s =
    used-rows now e.client_id (append_event e s)
    ∙ ap (λ l. total (select (spent now s.tier3_window_seconds) l))
        (rows-append_event e s e.client_id)

length-rows_before :
    (e : Tier3Event) (s : Store) → length (rows_before e s) ≤ length (rows e.client_id s) + 1
unfolding rows_before
length-rows_before e s = omega (
  arith,
  length-select (in_window e.at s.tier3_window_seconds)
      (of_client (λ x. x.client_id) e.client_id (s.tier3_events ++ e ∷ [])),
  ap length (rows-append_self e s),
  length-append (rows e.client_id s) (e ∷ []),
)

-- Recording an event raises what its client has used, at a reading not before the event, by its
-- amount at most, and not at all if it is not an accepted one.
pub used_cents-append_event_le :
    (now : ℕ) (e : Tier3Event) (s : Store)
    → e.at ≤ now
    → used_cents now e.client_id (append_event e s) ≤ used_cents now e.client_id s + cost now e s
used_cents-append_event_le now e s later = omega (
  arith,
  used-append_event now e s,
  total-newest (spent now s.tier3_window_seconds) s.tier3_audit_max (rows_before e s),
  total-rows_before now e s later,
)

-- With room for one more row of its client under the cap, the amount of an event is added exactly
-- to what its client has used, at a reading not before the event, if it is an accepted one in the
-- window, and nothing otherwise.
pub used_cents-append_event :
    (now : ℕ) (e : Tier3Event) (s : Store)
    → e.at ≤ now
    → length (rows e.client_id s) < s.tier3_audit_max
    → used_cents now e.client_id (append_event e s) ≡ used_cents now e.client_id s + cost now e s
used_cents-append_event now e s later room =
    used-append_event now e s
    ∙ ap (λ l. total (select (spent now s.tier3_window_seconds) l))
        (newest-all s.tier3_audit_max (rows_before e s) (omega (arith, length-rows_before e s)))
    ∙ total-rows_before now e s later

total-select_mono :
    (p q : Tier3Event → Bool) (xs : List Tier3Event)
    → ((x : Tier3Event) → p x ≡ true → q x ≡ true)
    → total (select p xs) ≤ total (select q xs)
total-select_mono p q [] h = omega arith
total-select_mono p q (x ∷ xs) h = ground (arith, h x, total-select_mono p q xs h)

-- As the clock goes on, with no event recorded, what counts as used only falls.
pub used_cents_antitone :
    (before now : ℕ) (c : String) (s : Store)
    → before ≤ now
    → used_cents now c s ≤ used_cents before c s
unfolding used_cents
used_cents_antitone before now c s h =
    total-select_mono (counts now s.tier3_window_seconds c) (counts before s.tier3_window_seconds c)
      s.tier3_events (λ x k. ground arith)

pub cost-le : (now : ℕ) (e : Tier3Event) (s : Store) → cost now e s ≤ e.amount_cents
cost-le now e s = ground arith
