-- ===== src/Verify/Orders/Release.antt =====
-- What the end of a handoff does to the reserved budget.
use agent_embassy.Prelude.{
  ℕ, ◌+◌, String, ◌≡◌, ap, ◌∙◌, Bool, true, false, Option, none, some, List, ◌∷◌, ◌++◌, arith,
  if◌then◌else◌, Option-cases, inl, inr,
}
use agent_embassy.Prelude.Dict.{get}
use agent_embassy.Verify.Store.{Store, Tier3Event, Outcome, Reason, Status, Detail}
use agent_embassy.Verify.Action.{World}
use agent_embassy.Verify.Audit.{used_cents, settled, settle_event, settle_tier3_event}
use agent_embassy.Verify.Audit.Settlement.{mentions, share, used_cents-settle_event}
use agent_embassy.Verify.Approvals.{resolve, add_resolution, set_tier3_resolution}
use agent_embassy.Verify.Network.{HandoffStatus, HandoffResult, answered, down, unknown}
use agent_embassy.Verify.Requests.{Tier3OrderRequest}
use agent_embassy.Verify.Orders.{settle_handoff, settle_failure}

pub used_cents-resolve :
    (now t : ℕ) (k id c : String) (st : Status) (d : Detail) (ch n : Option String) (s : Store)
    → used_cents now k (resolve t id c st d ch n s) ≡ used_cents now k s
unfolding used_cents
used_cents-resolve now t k id c st d ch n s = elim (Option-cases (get s.tier3_resolutions id)) [
  | inl missing ↦ unfold resolve add_resolution in rw (missing, resolve)
  | inr (r, found) ↦ unfold resolve add_resolution in rw (found, resolve)
]

share-accepted :
    (now : ℕ) (k : String) (s : Store) (r : Reason) (n : Option String) (e : Tier3Event)
    → e.outcome ≡ Outcome.accepted
    → share now k s (settled Outcome.accepted r n e) ≡ share now k s e
share-accepted now k s r none e h = rw h
share-accepted now k s r (some n) e h = rw h

share-rejected :
    (now : ℕ) (k : String) (s : Store) (r : Reason) (e : Tier3Event)
    → share now k s (settled Outcome.rejected r none e) ≡ 0
share-rejected now k s r e = ground arith

-- The results after which the reserved amount stays used: the action was executed, or may have been.
abbrev pub keeps_budget : HandoffResult → Bool
keeps_budget (answered HandoffStatus.executed _ _ _) = true
keeps_budget (answered HandoffStatus.failed _ _ _) = false
keeps_budget down = false
keeps_budget unknown = true

module _ (now : ℕ) (k id c : String) (body : Tier3OrderRequest) (limit used : ℕ) (by_human : Bool)
    (w : World) (before after : List Tier3Event) (e : Tier3Event)
    (split : w.store.tier3_events ≡ before ++ (e ∷ after)) (hit : e.action_id ≡ some id)
    (newest : mentions id after ≡ false) (reserved : e.outcome ≡ Outcome.accepted) where
  settled_step :
      (o : Outcome) (r : Reason) (n : Option String) (t : ℕ) (st : Status) (d : Detail)
      (ch m : Option String)
      → used_cents now k (resolve t id c st d ch m (settle_event id o r n w.store))
          + share now k w.store e
        ≡ used_cents now k w.store + share now k w.store (settled o r n e)
  settled_step o r n t st d ch m =
      ap (λ (u : ℕ). u + share now k w.store e) (used_cents-resolve now t k id c st d ch m _)
      ∙ used_cents-settle_event now k id o r n w.store before after e split hit newest

  stays :
      (r : Reason) (n : Option String) (t : ℕ) (st : Status) (d : Detail) (ch m : Option String)
      → used_cents now k (resolve t id c st d ch m (settle_event id Outcome.accepted r n w.store))
          + 0
        ≡ used_cents now k w.store
  stays r n t st d ch m = omega (
    arith,
    settled_step Outcome.accepted r n t st d ch m,
    share-accepted now k w.store r n e reserved,
  )

  freed :
      (r : Reason) (t : ℕ) (st : Status) (d : Detail)
      → used_cents now k
            (resolve t id c st d none none (settle_event id Outcome.rejected r none w.store))
          + share now k w.store e
        ≡ used_cents now k w.store
  freed r t st d = omega (
    arith,
    settled_step Outcome.rejected r none t st d none none,
    share-rejected now k w.store r e,
  )

  -- Where the newest row with the action id is an accepted one, settling a handoff, whatever it came
  -- to, leaves the used budget of every client as it was with that row, if the action was or may
  -- have been executed, and otherwise takes exactly the share of that row out of it.
  pub settle_handoff-budget :
      (result : HandoffResult)
      → used_cents now k (settle_handoff id c body result limit used by_human w).1.store
          + (if keeps_budget result then 0 else share now k w.store e)
        ≡ used_cents now k w.store
  unfolding settle_handoff settle_failure settle_tier3_event set_tier3_resolution
  settle_handoff-budget (answered HandoffStatus.executed ch by ref) =
      stays (Reason.executed_via by_human ch by) ref _ Status.executed (Detail.done_via ch) ch ref
  settle_handoff-budget (answered HandoffStatus.failed ch by ref) =
      freed (Reason.not_executed by_human) _ Status.failed Detail.could_not_execute
  settle_handoff-budget down =
      freed (Reason.agent_unavailable by_human) _ Status.failed Detail.agent_down
  settle_handoff-budget unknown =
      stays (Reason.incomplete by_human) none _ Status.execution_unknown Detail.handoff_incomplete
        none none
