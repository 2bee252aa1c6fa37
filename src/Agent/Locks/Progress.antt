-- ===== src/Agent/Locks/Progress.antt =====
-- No request is blocked for good: the locks never deadlock.
use agent_embassy.Prelude.{
  ℕ, String, ◌≡◌, refl, sym, ap, ◌∙◌, true, false, ◌==◌, inl, inr, arith, Bool-cases, Option-cases,
}
use agent_embassy.Prelude.Dict.{get}
use agent_embassy.Agent.Locks.{
  Phase, arrived, answered, waiting, executing, System, update, member, lock_of, with_lock, Step,
  take_lock, replay, dispatch, store, Reach, start, later,
}

-- The steps that lead on from a state.
pub data Onward (id : ℕ → String) (s : System) : System → Type 0 where
  here : Onward id s s
  then : {t u : System} → Onward id s t → Step id t u → Onward id s u

-- A lock that is taken is taken by a request that is executing.
abbrev IsOwned : System → Type 0
IsOwned s = (l : ℕ) → s.held l ≡ true → (i : ℕ) × (s.phase i ≡ executing l)

with_lock-held : (a : String) (s : System) → (with_lock a s).held ≡ s.held
with_lock-held a s = elim (Option-cases (get s.locks a)) [
  | inl missing ↦ rw (missing, with_lock)
  | inr (l, found) ↦ rw (found, with_lock)
]

update-same : {A : Type 0} (f : ℕ → A) (i : ℕ) (x : A) → update f i x i ≡ x
update-same f i x = let same : (i == i) ≡ true = ground arith in rw same

-- A request in another phase than `i` is another one, and stays as it is.
update-apart :
    (f : ℕ → Phase) (i j : ℕ) (p q x : Phase) → f i ≡ p → f j ≡ q → (p ≡ q → ⊥) → update f i x j ≡ q
update-apart f i j p q x at_i at_j apart = elim (Bool-cases (i == j)) [
  | inl same ↦ let one : i ≡ j = ground arith in absurd (apart (sym at_i ∙ ap f one ∙ at_j))
  | inr other ↦ rw other at_j
]

abbrev lock_of_phase : Phase → ℕ
lock_of_phase (executing l) = l
lock_of_phase (waiting l) = l
lock_of_phase arrived = 0
lock_of_phase answered = 0

IsOwned-step : (id : ℕ → String) (s t : System) → Step id s t → IsOwned s → IsOwned t
IsOwned-step id s _ (take_lock i at) owned l taken =
    let (j, running) = owned l (ap (λ h. h l) (sym (with_lock-held (id i) s)) ∙ taken) in
    (j, update-apart s.phase i j arrived (executing l) _ at running (λ e. cc))
IsOwned-step id s _ (replay i lock at free known) owned l taken =
    let (j, running) = owned l taken in
    (j, update-apart s.phase i j (waiting lock) (executing l) _ at running (λ e. cc))
IsOwned-step id s _ (dispatch i lock at free new) owned l taken = elim (Bool-cases (lock == l)) [
  | inl same ↦
      let one : lock ≡ l = ground arith in
      (i, update-same s.phase i (executing lock) ∙ ap executing one)
  | inr other ↦
      let (j, running) = owned l (rw other at taken) in
      (j, update-apart s.phase i j (waiting lock) (executing l) _ at running (λ e. cc))
]
IsOwned-step id s _ (store i lock at) owned l taken = elim (Bool-cases (lock == l)) [
  | inl same ↦ let wrong : false ≡ true = rw same at taken in cc
  | inr other ↦
      let (j, running) = owned l (rw other at taken) in
      (
        j,
        update-apart s.phase i j (executing lock) (executing l) _ at running
            λ e. let one : lock ≡ l = ap lock_of_phase e in ground arith,
      )
]

reached-IsOwned : (id : ℕ → String) (s : System) → Reach id s → IsOwned s
reached-IsOwned id _ start = λ l taken. cc
reached-IsOwned id t (later {s} r step) = IsOwned-step id s t step (reached-IsOwned id s r)

-- Some steps on from a state the request `i` is answered.
Answerable : (ℕ → String) → ℕ → System → Type 0
Answerable id i s = (t : System) × Onward id s t × (t.phase i ≡ answered)

after_step :
    (id : ℕ → String) (i : ℕ) (s t : System) → Step id s t → Answerable id i t → Answerable id i s
unfolding Answerable
after_step id i s t step (u, onward, done) = (u, joined u onward, done)
  where
    joined : (u : System) → Onward id t u → Onward id s u
    joined _ here = then here step
    joined _ (then path last) = then (joined _ path) last

ends : (id : ℕ → String) (i l : ℕ) (s : System) → s.phase i ≡ executing l → Answerable id i s
unfolding Answerable
ends id i l s at = (_, then here (store i l at), update-same s.phase i answered)

enters :
    (id : ℕ → String) (i l : ℕ) (s : System)
    → s.phase i ≡ waiting l
    → s.held l ≡ false
    → Answerable id i s
unfolding Answerable
enters id i l s at free = elim (Bool-cases (member (id i) s.results)) [
  | inl known ↦ (_, then here (replay i l at free known), update-same s.phase i answered)
  | inr new ↦
      after_step id i s _ (dispatch i l at free new)
        (ends id i l _ (update-same s.phase i (executing l)))
]

waits :
    (id : ℕ → String) (i l : ℕ) (s : System) → IsOwned s → s.phase i ≡ waiting l → Answerable id i s
waits id i l s owned at = elim (Bool-cases (s.held l)) [
  | inr free ↦ enters id i l s at free
  | inl taken ↦
      let (j, running) = owned l taken in
      after_step id i s _ (store j l running) (
        enters id i l _
          (update-apart s.phase j i (executing l) (waiting l) answered running at (λ e. cc))
          (update-same s.held l false))
]

-- In every reachable state of the agent, whatever actions are requested, every request can still be
-- answered: some steps of the requests lead to its answer, so that no lock is ever waited for in
-- vain.
pub can_be_answered :
    (id : ℕ → String) (s : System) (i : ℕ)
    → Reach id s
    → (t : System) × Onward id s t × (t.phase i ≡ answered)
unfolding Answerable
can_be_answered id s i r = from (s.phase i) refl
  where
    from : (p : Phase) → s.phase i ≡ p → (t : System) × Onward id s t × (t.phase i ≡ answered)
    from answered at = (s, here, at)
    from (executing l) at = ends id i l s at
    from (waiting l) at = waits id i l s (reached-IsOwned id s r) at
    from arrived at =
        let step = take_lock i at in
        after_step id i s _ step (
          waits id i (lock_of (id i) s) _ (reached-IsOwned id _ (later r step))
            (update-same s.phase i (waiting (lock_of (id i) s))))
