-- ===== src/Verify/Approvals/Queue.antt =====
-- What expiry does to the approval queue.
use agent_embassy.Prelude.{
  ℕ, String, ◌≡◌, refl, sym, subst, ap, ◌∙◌, Bool, false, Option, none, some, List, [], ◌∷◌, arith,
  ltb, if◌then◌else◌, str_eq, str_eq_iff, str_eq_refl, any, inl, inr, Bool-cases, Option-cases,
}
use agent_embassy.Prelude.Dict.{Dict, get, remove, get-remove}
use agent_embassy.Verify.Store.{Store, Tier3PendingAction, Status, Detail}
use agent_embassy.Verify.Action.{World, Result, ok, ◌>>=◌, ◌>>◌}
use agent_embassy.Verify.Audit.{append_event, record_tier3_event}
use agent_embassy.Verify.Approvals.{
  resolve, add_resolution, set_tier3_resolution, pop_pending, popped, expire_one, expire_each,
  ids_where, prune_tier3_pending,
}

-- The queue as `queue_tier3_action` builds it: each action stands under its own id, once.
abbrev pub IsKeyed : Dict Tier3PendingAction → Type 0
IsKeyed [] = Unit
IsKeyed ((k, a) ∷ d) = (a.action_id ≡ k) × (get d k ≡ none) × IsKeyed d

abbrev pub listed : String → List String → Bool
listed k ids = any (λ i. str_eq i k) ids

-- Ids that the loop can pop one after the other.
abbrev pub Ready : List String → Dict Tier3PendingAction → Type 0
Ready [] d = Unit
Ready (id ∷ ids) d =
    ((a : Tier3PendingAction) × (get d id ≡ some a)) × (listed id ids ≡ false) × Ready ids d

pub Ready-remove :
    (ids : List String) (id : String) (d : Dict Tier3PendingAction)
    → listed id ids ≡ false
    → Ready ids d
    → Ready ids (remove d id)
Ready-remove [] id d h r = tt
Ready-remove (j ∷ ids) id d h ((a, found), once, more) = (
  (a, ground (arith, get-remove d id j, str_eq_iff id j, str_eq_iff j id, found)),
  once,
  Ready-remove ids id d (ground arith) more,
)

pub resolve-pending :
    (now : ℕ) (id c : String) (st : Status) (de : Detail) (ch n : Option String) (s : Store)
    → (resolve now id c st de ch n s).tier3_pending ≡ s.tier3_pending
resolve-pending now id c st de ch n s = elim (Option-cases (get s.tier3_resolutions id)) [
  | inl missing ↦ unfold resolve add_resolution in rw (missing, resolve)
  | inr (r, found) ↦ unfold resolve add_resolution in rw (found, resolve)
]

-- The result and the queue of a loop over `id` and `ids`.
abbrev pub Pops :
    List String → Dict Tier3PendingAction → String → Result (Unit {0}) × World → Type 0
Pops ids d id r =
    (r.0 ≡ ok tt)
    × ((k : String)
        → get r.1.store.tier3_pending k ≡ (if listed k (id ∷ ids) then none else get d k))

pub merge :
    (ids : List String) (d : Dict Tier3PendingAction) (id k : String)
    → (if listed k ids then none else get (remove d id) k)
      ≡ (if listed k (id ∷ ids) then none else get d k)
merge ids d id k = ground (arith, get-remove d id k)

expire_each-pending :
    (ids : List String) (w : World) (d : Dict Tier3PendingAction)
    → w.store.tier3_pending ≡ d
    → Ready ids d
    → ((expire_each ids w).0 ≡ ok tt)
      × ((k : String)
          → get (expire_each ids w).1.store.tier3_pending k
            ≡ (if listed k ids then none else get d k))
unfolding expire_each pop_pending popped expire_one record_tier3_event set_tier3_resolution
    append_event
expire_each-pending [] w d e r = (refl, λ k. ap (λ q. get q k) e)
expire_each-pending (id ∷ ids) w d e ((a, present), once, more) =
    let found : get w.store.tier3_pending id ≡ some a = ap (λ q. get q id) e ∙ present in
    let later =
      expire_each-pending ids _ (remove d id)
        (resolve-pending _ id a.client_id Status.expired Detail.expired_undecided none none _
          ∙ ap (λ q. remove q id) e)
        (Ready-remove ids id d once more) in
    subst (λ f. Pops ids d id ((popped id f >>= λ b. expire_one id b >> expire_each ids) w))
      (sym found) (later.0, λ k. later.1 k ∙ merge ids d id k)

IsKeyed-get :
    (d : Dict Tier3PendingAction) (k : String)
    → get d k ≡ none
    → (j : String) → get (remove d j) k ≡ none
IsKeyed-get d k h j = ground (arith, get-remove d j k)

pub IsKeyed-remove : (d : Dict Tier3PendingAction) (j : String) → IsKeyed d → IsKeyed (remove d j)
IsKeyed-remove [] j h = tt
IsKeyed-remove ((k, a) ∷ d) j (own, once, more) = elim (Bool-cases (str_eq k j)) [
  | inl gone ↦ rw gone (IsKeyed-remove d j more)
  | inr stays ↦ rw stays (own, IsKeyed-get d k once j, IsKeyed-remove d j more)
]

-- The test at a key, where there is an action.
abbrev pub holds_at : (Tier3PendingAction → Bool) → Option Tier3PendingAction → Bool
holds_at test none = false
holds_at test (some a) = test a

pub listed-ids_where :
    (test : Tier3PendingAction → Bool) (d : Dict Tier3PendingAction) (k : String)
    → IsKeyed d
    → listed k (ids_where test d) ≡ holds_at test (get d k)
listed-ids_where test [] k h = refl
listed-ids_where test ((j, a) ∷ d) k (own, once, more) =
    ground (arith, listed-ids_where test d k more, str_eq_iff j k, str_eq_iff a.action_id k)

Ready-weaken :
    (ids : List String) (k : String) (a : Tier3PendingAction) (d : Dict Tier3PendingAction)
    → get d k ≡ none
    → Ready ids d
    → Ready ids ((k, a) ∷ d)
Ready-weaken [] k a d h r = tt
Ready-weaken (id ∷ ids) k a d h ((b, found), once, more) =
    ((b, ground (arith, str_eq_iff k id)), once, Ready-weaken ids k a d h more)

pub Ready-ids_where :
    (test : Tier3PendingAction → Bool) (d : Dict Tier3PendingAction)
    → IsKeyed d
    → Ready (ids_where test d) d
Ready-ids_where test [] h = tt
Ready-ids_where test ((k, a) ∷ d) (own, once, more) =
    let rest = Ready-weaken (ids_where test d) k a d once (Ready-ids_where test d more) in
    elim (Bool-cases (test a)) [
      | inl yes' ↦ rw yes' (
        (a, rw (own, str_eq_refl k)),
        rw own (listed-ids_where test d k more ∙ ap (holds_at test) once),
        rest,
      )
      | inr no' ↦ rw no' rest
    ]

-- What the queue shows at a key once the actions that have expired at `now` are gone.
abbrev pub live : ℕ → Option Tier3PendingAction → Option Tier3PendingAction
live now none = none
live now (some a) = if ltb a.expires_at now then none else some a

show_at :
    (now : ℕ) (o : Option Tier3PendingAction)
    → (if holds_at (λ a. ltb a.expires_at now) o then none else o) ≡ live now o
show_at now none = refl
show_at now (some a) = refl

-- On a queue that has each action under its own id, once, expiry never fails, removes exactly the
-- actions that are past their time at its clock reading, and leaves every other action in the
-- queue.
pub prune_tier3_pending-live :
    (w : World)
    → IsKeyed w.store.tier3_pending
    → ((prune_tier3_pending w).0 ≡ ok tt)
      × ((k : String)
          → get (prune_tier3_pending w).1.store.tier3_pending k
            ≡ live (w.outside.clock 0) (get w.store.tier3_pending k))
unfolding prune_tier3_pending
prune_tier3_pending-live w h =
    let d = w.store.tier3_pending in
    let test : Tier3PendingAction → Bool = λ a. ltb a.expires_at (w.outside.clock 0) in
    let pops = expire_each-pending (ids_where test d) _ d refl (Ready-ids_where test d h) in
    (pops.0, λ k. pops.1 k ∙ show_live (w.outside.clock 0) d k h)
  where
    show_live :
        (now : ℕ) (d : Dict Tier3PendingAction) (k : String)
        → IsKeyed d
        → (if listed k (ids_where (λ a. ltb a.expires_at now) d) then none else get d k)
          ≡ live now (get d k)
    show_live now d k h =
        rw (listed-ids_where (λ a. ltb a.expires_at now) d k h) (show_at now (get d k))

expire_each-IsKeyed :
    (ids : List String) (w : World)
    → IsKeyed w.store.tier3_pending
    → IsKeyed (expire_each ids w).1.store.tier3_pending
unfolding expire_each pop_pending popped expire_one record_tier3_event set_tier3_resolution
    append_event
expire_each-IsKeyed [] w h = h
expire_each-IsKeyed (id ∷ ids) w h = elim (Option-cases (get w.store.tier3_pending id)) [
  | inl missing ↦
      subst
        (λ f.
          IsKeyed
            ((popped id f >>= λ b. expire_one id b >> expire_each ids) w).1.store.tier3_pending)
        (sym missing) h
  | inr (a, found) ↦
      subst
        (λ f.
          IsKeyed
            ((popped id f >>= λ b. expire_one id b >> expire_each ids) w).1.store.tier3_pending)
        (sym found)
        (expire_each-IsKeyed ids _ (
          subst IsKeyed
            (sym (
              resolve-pending _ id a.client_id Status.expired Detail.expired_undecided none none _))
            (IsKeyed-remove w.store.tier3_pending id h)))
]

pub prune-IsKeyed :
    (w : World)
    → IsKeyed w.store.tier3_pending
    → IsKeyed (prune_tier3_pending w).1.store.tier3_pending
unfolding prune_tier3_pending
prune-IsKeyed w h = expire_each-IsKeyed _ _ h
