-- ===== src/Agent/Locks/Once.antt =====
-- The requests for a single action: the lock lets one of them dispatch it.
use agent_embassy.Prelude.{
  ℕ, String, ◌≡◌, refl, sym, ap, ◌∙◌, ◌≤◌, ◌+◌, Bool, true, false, Option, none, some, [], ◌∷◌,
  ◌==◌, ◌⊎◌, inl, inr, arith, str_eq_refl, length, Bool-cases,
}
use agent_embassy.Prelude.Dict.{Dict, get, put}
use agent_embassy.Agent.Locks.{
  Phase, arrived, answered, waiting, executing, System, update, member, lock_of, with_lock,
  kept_locks, Step, take_lock, replay, dispatch, store, Reach, start, later,
}

abbrev is_executing : Phase → Bool
is_executing (executing l) = true
is_executing arrived = false
is_executing answered = false
is_executing (waiting l) = false

-- The lock that a request was given and has not let go of.
abbrev lock_in : Phase → Option ℕ
lock_in (executing l) = some l
lock_in (waiting l) = some l
lock_in arrived = none
lock_in answered = none

update-cases :
    {A : Type 0} (f : ℕ → A) (i j : ℕ) (x : A)
    → ((i ≡ j) × (update f i x j ≡ x)) ⊎ (update f i x j ≡ f j)
update-cases f i j x = elim (Bool-cases (i == j)) [
  | inl same ↦ inl (ground arith, rw same)
  | inr other ↦ inr (rw other)
]

-- The table holds no lock yet, or the lock 0 of the action.
data Table (a : String) (s : System) : Type 0 where
  empty : s.locks ≡ [] → s.next_lock ≡ 0 → ((i : ℕ) → lock_in (s.phase i) ≡ none) → Table a s
  one : s.locks ≡ (a, 0) ∷ [] → ((i l : ℕ) → lock_in (s.phase i) ≡ some l → l ≡ 0) → Table a s

-- How far the action has come.
data Stage (a : String) (s : System) : Type 0 where
  idle :
      s.results ≡ [] → s.dispatched ≡ [] → ((i : ℕ) → is_executing (s.phase i) ≡ false) → Stage a s
  busy :
      (k : ℕ)
      → s.held 0 ≡ true
      → s.dispatched ≡ a ∷ []
      → ((i : ℕ) → is_executing (s.phase i) ≡ true → i ≡ k)
      → Stage a s
  done :
      member a s.results ≡ true
      → s.dispatched ≡ a ∷ []
      → ((i : ℕ) → is_executing (s.phase i) ≡ false)
      → Stage a s

-- Where the phase of one request changes.
quiet_update :
    (f : ℕ → Phase) (i : ℕ) (p : Phase)
    → is_executing p ≡ false
    → ((j : ℕ) → is_executing (f j) ≡ false)
    → (j : ℕ) → is_executing (update f i p j) ≡ false
quiet_update f i p h all j = elim (update-cases f i j p) [
  | inl (_, e) ↦ ap is_executing e ∙ h
  | inr e ↦ ap is_executing e ∙ all j
]

zero_update :
    (f : ℕ → Phase) (i : ℕ) (p : Phase)
    → ((l : ℕ) → lock_in p ≡ some l → l ≡ 0)
    → ((j l : ℕ) → lock_in (f j) ≡ some l → l ≡ 0)
    → (j l : ℕ) → lock_in (update f i p j) ≡ some l
    → l ≡ 0
zero_update f i p h all j l e = elim (update-cases f i j p) [
  | inl (_, q) ↦ h l (ap lock_in (sym q) ∙ e)
  | inr q ↦ all j l (ap lock_in (sym q) ∙ e)
]

busy_update :
    (f : ℕ → Phase) (i k : ℕ) (p : Phase)
    → is_executing p ≡ false
    → ((j : ℕ) → is_executing (f j) ≡ true → j ≡ k)
    → (j : ℕ) → is_executing (update f i p j) ≡ true
    → j ≡ k
busy_update f i k p h all j e = elim (update-cases f i j p) [
  | inl (_, q) ↦ let wrong : true ≡ false = sym e ∙ ap is_executing q ∙ h in cc
  | inr q ↦ all j (ap is_executing (sym q) ∙ e)
]

no_lock : {l : ℕ} → ◌≡◌ {A = Option ℕ} none (some l) → l ≡ 0
no_lock e = cc

some_zero : {l : ℕ} → ◌≡◌ {A = Option ℕ} (some 0) (some l) → l ≡ 0
some_zero e = ground arith

abbrev Sound : String → System → Type 0
Sound a s = Table a s × Stage a s

quiet-Stage :
    (a : String) (s : System) (i : ℕ) (p : Phase)
    → is_executing p ≡ false
    → Stage a s
    → Stage a (record s { phase = update s.phase i p })
quiet-Stage a s i p h (idle r d q) = idle r d (quiet_update s.phase i p h q)
quiet-Stage a s i p h (busy k held d q) = busy k held d (busy_update s.phase i k p h q)
quiet-Stage a s i p h (done r d q) = done r d (quiet_update s.phase i p h q)

relocked :
    (a : String) (s : System) (l : Dict ℕ) (n : ℕ)
    → Stage a s
    → Stage a (record s { locks = l; next_lock = n })
relocked a s l n (idle r d q) = idle r d q
relocked a s l n (busy k held d q) = busy k held d q
relocked a s l n (done r d q) = done r d q

answered-Table :
    (a : String) (s : System) (i : ℕ)
    → Table a s
    → Table a (record s { phase = update s.phase i answered })
answered-Table a s i (empty e n q) = empty e n λ j. elim (update-cases s.phase i j answered) [
  | inl (_, u) ↦ ap lock_in u
  | inr u ↦ ap lock_in u ∙ q j
]
answered-Table a s i (one e q) = one e (zero_update s.phase i answered (λ l. no_lock) q)

taken :
    (a : String) (s : System) (i : ℕ)
    → Sound a s
    → Sound a (record (with_lock a s) { phase = update s.phase i (waiting (lock_of a s)) })
taken a s i (empty e n q, stage) =
    let missing : get s.locks a ≡ none = ap (λ t. get t a) e in
    rw (missing, with_lock, lock_of)
      (
        one (rw (e, n)) (
            zero_update s.phase i (waiting s.next_lock) (λ l u. some_zero (ap some (sym n) ∙ u))
              λ j l u. no_lock (sym (q j) ∙ u)),
        quiet-Stage a _ i (waiting s.next_lock) refl
            (relocked a s (put s.locks a s.next_lock) (s.next_lock + 1) stage),
      )
taken a s i (one e q, stage) =
    let found : get s.locks a ≡ some 0 = ap (λ t. get t a) e ∙ rw (str_eq_refl a) in
    rw (found, with_lock, lock_of)
      (
        one e (zero_update s.phase i (waiting 0) (λ l. some_zero) q),
        quiet-Stage a s i (waiting 0) refl stage,
      )

replayed :
    (a : String) (s : System) (i : ℕ)
    → Sound a s
    → Sound a (record s { phase = update s.phase i answered })
replayed a s i (table, stage) = (answered-Table a s i table, quiet-Stage a s i answered refl stage)

-- The dispatch of a request that holds the lock and finds no result.
started :
    (a : String) (s : System) (i l : ℕ)
    → s.phase i ≡ waiting l
    → s.held l ≡ false
    → member a s.results ≡ false
    → Sound a s
    → Sound a (record s {
      held = update s.held l true;
      dispatched = a ∷ s.dispatched;
      phase = update s.phase i (executing l);
    })
started a s i l at free new (empty e n q, stage) =
    let wrong : none ≡ some l = sym (q i) ∙ ap lock_in at in cc
started a s i l at free new (one e q, stage) =
    (one e (zero_update s.phase i (executing l) (λ m u. q i m (ap lock_in at ∙ u)) q), begun stage)
  where
    begun :
        Stage a s
        → Stage a (record s {
          held = update s.held l true;
          dispatched = a ∷ s.dispatched;
          phase = update s.phase i (executing l);
        })
    begun (idle r d idle_all) =
        busy i (let z : l ≡ 0 = q i l (ap lock_in at) in rw z) (ap (λ t. a ∷ t) d) λ j u.
          elim (update-cases s.phase i j (executing l)) [
            | inl (same, _) ↦ sym same
            | inr other ↦
                let wrong : true ≡ false = sym u ∙ ap is_executing other ∙ idle_all j in cc
          ]
    begun (busy k held d all) =
        let z : l ≡ 0 = q i l (ap lock_in at) in
        let wrong : true ≡ false = sym held ∙ ap s.held (sym z) ∙ free in cc
    begun (done r d all) = let wrong : true ≡ false = sym r ∙ new in cc

alone :
    (f : ℕ → Phase) (i k : ℕ)
    → i ≡ k
    → ((j : ℕ) → is_executing (f j) ≡ true → j ≡ k)
    → (j : ℕ) → is_executing (update f i answered j) ≡ false
alone f i k same all j = elim (Bool-cases (i == j)) [
  | inl here ↦ rw here
  | inr there ↦ rw there (elim (Bool-cases (is_executing (f j))) [
    | inl running ↦ let other : j ≡ k = all j running in ground arith
    | inr still ↦ still
  ])
]

-- The end of a dispatch.
stored :
    (a : String) (s : System) (i l : ℕ)
    → s.phase i ≡ executing l
    → Sound a s
    → Sound a (record s {
      results = a ∷ s.results;
      locks = kept_locks (a ∷ s.results) s.locks;
      held = update s.held l false;
      phase = update s.phase i answered;
    })
stored a s i l at (empty e n q, stage) = let wrong : none ≡ some l = sym (q i) ∙ ap lock_in at in cc
stored a s i l at (one e q, stage) = (
  one (ap (kept_locks (a ∷ s.results)) e ∙ rw (str_eq_refl a))
      (zero_update s.phase i answered (λ m. no_lock) q),
  ended stage,
)
  where
    ended :
        Stage a s
        → Stage a (record s {
          results = a ∷ s.results;
          locks = kept_locks (a ∷ s.results) s.locks;
          held = update s.held l false;
          phase = update s.phase i answered;
        })
    ended (idle r d all) = let wrong : false ≡ true = sym (all i) ∙ ap is_executing at in cc
    ended (busy k held d all) =
        done (rw (str_eq_refl a)) d (alone s.phase i k (all i (ap is_executing at)) all)
    ended (done r d all) = let wrong : false ≡ true = sym (all i) ∙ ap is_executing at in cc

stepped : (a : String) (s t : System) → Step (λ _. a) s t → Sound a s → Sound a t
stepped a s _ (take_lock i at) h = taken a s i h
stepped a s _ (replay i l at free known) h = replayed a s i h
stepped a s _ (dispatch i l at free new) h = started a s i l at free new h
stepped a s _ (store i l at) h = stored a s i l at h

reached : (a : String) (s : System) → Reach (λ _. a) s → Sound a s
reached a _ start = (empty refl refl (λ i. refl), idle refl refl (λ i. refl))
reached a t (later {s} r step) = stepped a s t step (reached a s r)

-- However many requests for one action run at the same time, and in whatever order their steps come,
-- the action is dispatched once at most, when no other action is being requested.
pub dispatched_once : (a : String) (s : System) → Reach (λ _. a) s → length s.dispatched ≤ 1
dispatched_once a s r = at_most (reached a s r).1
  where
    at_most : Stage a s → length s.dispatched ≤ 1
    at_most (idle r d all) = rw d (omega arith)
    at_most (busy k held d all) = rw d (omega arith)
    at_most (done r d all) = rw d (omega arith)
