-- ===== src/Verify/Audit/View.antt =====
-- What recording an event leaves of each client's rows.
use agent_embassy.Prelude.{
  ◌≤◌, String, ◌≡◌, ◌≢◌, ap, sym, subst, ◌∙◌, List, [], ◌∷◌, ◌++◌, arith, str_eq_ne, select,
  select-append, select_comm, length, newest, newest-all, length-newest, append-nil, length-select,
}
use agent_embassy.Verify.Store.{Store, Tier3Event}
use agent_embassy.Verify.Capped.{of_client, of_client-cap_per_client}
use agent_embassy.Verify.Audit.{in_window, append_event}

-- The audit rows of a client.
abbrev pub rows : String → Store → List Tier3Event
rows c s = of_client (λ x. x.client_id) c s.tier3_events

-- No client has more rows than the cap.
abbrev pub IsCapped : Store → Type 0
IsCapped s = (c : String) → length (rows c s) ≤ s.tier3_audit_max

-- After recording an event, each client's rows are the newest ones of those that are still in the
-- window, at most `tier3_audit_max` of them, whatever the other clients have in the trail.
pub rows-append_event :
    (e : Tier3Event) (s : Store) (c : String)
    → rows c (append_event e s)
      ≡ newest s.tier3_audit_max (
          select
            (in_window e.at s.tier3_window_seconds)
            (of_client (λ x. x.client_id) c (s.tier3_events ++ e ∷ [])))
unfolding append_event
rows-append_event e s c =
    of_client-cap_per_client (λ x. x.client_id) s.tier3_audit_max c _
    ∙ ap (newest s.tier3_audit_max) (select_comm _ _ (s.tier3_events ++ e ∷ []))

-- Recording an event keeps every client's rows under the cap.
pub append_event-IsCapped : (e : Tier3Event) (s : Store) → IsCapped (append_event e s)
unfolding append_event
append_event-IsCapped e s c =
    subst (λ l. length l ≤ s.tier3_audit_max) (sym (rows-append_event e s c))
      (omega (
        arith,
        length-newest s.tier3_audit_max (
            select (in_window e.at s.tier3_window_seconds)
              (of_client (λ x. x.client_id) c (s.tier3_events ++ e ∷ []))),
      ))

rows-append_ne :
    (e : Tier3Event) (s : Store) (c : String)
    → e.client_id ≢ c
    → of_client (λ x. x.client_id) c (s.tier3_events ++ e ∷ []) ≡ rows c s
rows-append_ne e s c ne = rw (select-append, str_eq_ne e.client_id c ne) (append-nil (rows c s))

-- An event of one client costs another client, whose rows are within the cap, no row that is still
-- in the window.
pub rows-append_event_ne :
    (e : Tier3Event) (s : Store) (c : String)
    → e.client_id ≢ c
    → length (rows c s) ≤ s.tier3_audit_max
    → rows c (append_event e s) ≡ select (in_window e.at s.tier3_window_seconds) (rows c s)
rows-append_event_ne e s c ne few =
    let live = in_window e.at s.tier3_window_seconds in
    rows-append_event e s c
    ∙ ap (λ l. newest s.tier3_audit_max (select live l)) (rows-append_ne e s c ne)
    ∙ newest-all s.tier3_audit_max (select live (rows c s))
        (omega (arith, length-select live (rows c s), few))
