-- ===== src/Verify/Decisions/Once.antt =====
-- A queued action is decided once.
use agent_embassy.Prelude.{
  ℕ, String, ◌≡◌, refl, sym, subst, ap, ◌∙◌, Bool, Option, none, some, str_eq_refl,
}
use agent_embassy.Prelude.Dict.{Dict, get, get-remove}
use agent_embassy.Verify.Store.{Tier3PendingAction, Outcome, Reason, Status, Detail}
use agent_embassy.Verify.Action.{World, Envelope, Mode, Result, HttpError, ok, err, ◌>>=◌}
use agent_embassy.Verify.Action.Rules.{Preserves, preserves_rules, bind-after, bind-pass, bind-fail}
use agent_embassy.Verify.Audit.{settle_event, settle_tier3_event}
use agent_embassy.Verify.Approvals.{prune_tier3_pending}
use agent_embassy.Verify.Approvals.Frame.{IsApart, set-Preserves, record-Preserves, used-Preserves}
use agent_embassy.Verify.Approvals.Queue.{
  IsKeyed, IsKeyed-remove, prune_tier3_pending-live, prune-IsKeyed, live,
}
use agent_embassy.Verify.Network.{
  HandoffStatus, HandoffResult, answered, down, unknown, execute_handoff,
}
use agent_embassy.Verify.Network.Attempts.{execute_handoff-sent}
use agent_embassy.Verify.Requests.{Tier3OrderRequest, require_internal_admin}
use agent_embassy.Verify.Orders.{handoff_envelope, settle_handoff, settle_failure}
use agent_embassy.Verify.Decisions.{
  Approved, take_pending, claim_pending, refuse_pending, approve_under, approve_claimed,
  reject_claimed, approve_pending, carry_out, approve_tier3_action, reject_tier3_action,
}

abbrev pub queue : World → Dict Tier3PendingAction
queue w = w.store.tier3_pending

queue-IsApart : IsApart queue
queue-IsApart = record { clock = λ w c. refl; events = λ w l. refl; resolutions = λ w d. refl }

settle_event-Preserves :
    (id : String) (o : Outcome) (r : Reason) (n : Option String)
    → Preserves queue (settle_tier3_event id o r n)
unfolding settle_tier3_event settle_event
settle_event-Preserves id o r n = record { at = λ w. refl }

failure-Preserves :
    (id c : String) (o : Outcome) (r : Reason) (st : Status) (d : Detail) (n : ℕ) (text : String)
    → Preserves queue (settle_failure id c o r st d n text)
unfolding settle_failure
failure-Preserves id c o r st d n text =
    search (preserves_rules, settle_event-Preserves, set-Preserves, queue-IsApart)

settle-Preserves :
    (id c : String) (body : Tier3OrderRequest) (r : HandoffResult) (limit used : ℕ) (h : Bool)
    → Preserves queue (settle_handoff id c body r limit used h)
unfolding settle_handoff
settle-Preserves id c body (answered HandoffStatus.executed ch by ref) limit used h =
    search (preserves_rules, settle_event-Preserves, set-Preserves, queue-IsApart)
settle-Preserves id c body (answered HandoffStatus.failed ch by ref) limit used h =
    search failure-Preserves
settle-Preserves id c body down limit used h = search failure-Preserves
settle-Preserves id c body unknown limit used h = search failure-Preserves

handoff-Preserves : (e : Envelope) → Preserves queue (execute_handoff e)
handoff-Preserves e = record { at = λ w. ap (λ s. s.tier3_pending) (execute_handoff-sent e w).1 }

envelope-Preserves :
    (id c : String) (body : Tier3OrderRequest) (m : Mode) (limit used : ℕ) (by : Option String)
    → Preserves queue (handoff_envelope id c body m limit used by)
unfolding handoff_envelope
envelope-Preserves id c body m limit used by = record { at = λ w. refl }

carry_out-Preserves : (id : String) (a : Approved) → Preserves queue (carry_out id a)
unfolding carry_out
carry_out-Preserves id a =
    search (preserves_rules, envelope-Preserves, handoff-Preserves, settle-Preserves)

refuse_pending-Preserves :
    (id c : String) (a : Tier3PendingAction) (r : Reason) (d : Detail)
    → Preserves queue (refuse_pending id c a r d)
unfolding refuse_pending
refuse_pending-Preserves id c a r d =
    search (preserves_rules, record-Preserves, set-Preserves, queue-IsApart)

under-Preserves :
    (id : String) (a : Tier3PendingAction) (g : Option ℕ) → Preserves queue (approve_under id a g)
unfolding approve_under
under-Preserves id a none = search (preserves_rules, refuse_pending-Preserves)
under-Preserves id a (some limit) =
    search (preserves_rules, used-Preserves, record-Preserves, queue-IsApart)

-- The queue after an action was claimed: it is in order, and the action is gone.
abbrev pub Consumed : String → Dict Tier3PendingAction → Type 0
Consumed id d = IsKeyed d × (get d id ≡ none)

abbrev not_found : HttpError
not_found = record { status = 404; detail = "unknown, expired, or already resolved action" }

-- `claim_pending` after its expiry step.
abbrev claim_from :
    String
    → Result (Unit {0})
    → World
    → Option Tier3PendingAction
    → Result Tier3PendingAction × World
claim_from id r w found = elim r [ ok a ↦ take_pending id found w | err e ↦ (err e, w) ]

taken-Consumed :
    (id : String) (w : World) (found : Option Tier3PendingAction)
    → IsKeyed (queue w)
    → get (queue w) id ≡ found
    → Consumed id (queue (take_pending id found w).1)
unfolding take_pending
taken-Consumed id w none h e = (h, e)
taken-Consumed id w (some a) h e =
    (IsKeyed-remove (queue w) id h, rw (get-remove (queue w) id id, str_eq_refl id))

-- Whether it succeeds or not, a claim leaves the queue in order and without the action.
pub claim_pending-Consumed :
    (id : String) (w : World) → IsKeyed (queue w) → Consumed id (queue (claim_pending id w).1)
unfolding claim_pending
claim_pending-Consumed id w h =
    let w' = (prune_tier3_pending w).1 in
    subst (λ r. Consumed id (queue (claim_from id r w' (get (queue w') id)).1))
      (sym (prune_tier3_pending-live w h).0)
      (taken-Consumed id w' (get (queue w') id) (prune-IsKeyed w h) refl)

pub claim_pending-again :
    (id : String) (w : World) → Consumed id (queue w) → (claim_pending id w).0 ≡ err not_found
unfolding claim_pending take_pending
claim_pending-again id w (h, gone) =
    let w' = (prune_tier3_pending w).1 in
    let prunes = prune_tier3_pending-live w h in
    let missing : get (queue w') id ≡ none = prunes.1 id ∙ ap (live (w.outside.clock 0)) gone in
    subst (λ r. (claim_from id r w' (get (queue w') id)).0 ≡ err not_found) (sym prunes.0)
      (subst (λ f. (take_pending id f w').0 ≡ err not_found) (sym missing) refl)

-- The header of the admin passes the check.
abbrev pub IsAuthorised : String → Option String → Type 0
IsAuthorised token given = (w : World) → require_internal_admin token given w ≡ (ok tt, w)

claimed-Preserves : (id : String) (a : Tier3PendingAction) → Preserves queue (approve_claimed id a)
unfolding approve_claimed
claimed-Preserves id a = search (preserves_rules, under-Preserves)

rejected-Preserves : (id : String) (a : Tier3PendingAction) → Preserves queue (reject_claimed id a)
unfolding reject_claimed
rejected-Preserves id a = search (preserves_rules, refuse_pending-Preserves)

approve-queue :
    (id : String) (w : World)
    → queue ((approve_pending id >>= carry_out id) w).1 ≡ queue (claim_pending id w).1
unfolding approve_pending
approve-queue id w =
    bind-after (approve_pending id) (carry_out id) (carry_out-Preserves id) w
    ∙ bind-after (claim_pending id) (approve_claimed id) (claimed-Preserves id) w

-- The two answers to a decision on an action that is gone.
abbrev pub Refused : String → Option String → String → World → Type 0
Refused token given id w =
    ((approve_tier3_action token given id w).0 ≡ err not_found)
    × ((reject_tier3_action token given id w).0 ≡ err not_found)

approve-passed :
    (token : String) (given : Option String) (id : String) (w : World)
    → IsAuthorised token given
    → approve_tier3_action token given id w ≡ (approve_pending id >>= carry_out id) w
unfolding approve_tier3_action
approve-passed token given id w pass =
    bind-pass (require_internal_admin token given) (λ _. approve_pending id >>= carry_out id) w
      (pass w)

reject-passed :
    (token : String) (given : Option String) (id : String) (w : World)
    → IsAuthorised token given
    → reject_tier3_action token given id w ≡ (claim_pending id >>= reject_claimed id) w
unfolding reject_tier3_action
reject-passed token given id w pass =
    bind-pass (require_internal_admin token given) (λ _. claim_pending id >>= reject_claimed id) w
      (pass w)

Refused-Consumed :
    (token : String) (given : Option String) (id : String) (w : World)
    → IsAuthorised token given
    → Consumed id (queue w)
    → Refused token given id w
unfolding approve_pending
Refused-Consumed token given id w pass gone =
    let again = claim_pending-again id w gone in
    (
      ap (λ r. r.0) (approve-passed token given id w pass)
          ∙ bind-fail (approve_pending id) (carry_out id) w not_found
              (bind-fail (claim_pending id) (approve_claimed id) w not_found again),
      ap (λ r. r.0) (reject-passed token given id w pass)
          ∙ bind-fail (claim_pending id) (reject_claimed id) w not_found again,
    )

-- A decision of the admin, whatever comes of it, consumes the queued action: right after an
-- approval, and right after a rejection, another approval of it and another rejection are answered
-- with a 404. The admin's header passes the check, and the queue has each action under its own id,
-- once.
pub decision-once :
    (token : String) (given : Option String) (id : String) (w : World)
    → IsAuthorised token given
    → IsKeyed (queue w)
    → Refused token given id (approve_tier3_action token given id w).1
      × Refused token given id (reject_tier3_action token given id w).1
decision-once token given id w pass h =
    let claimed = claim_pending-Consumed id w h in
    (
      Refused-Consumed token given id _ pass (
          subst (Consumed id)
            (sym (ap (λ r. queue r.1) (approve-passed token given id w pass) ∙ approve-queue id w))
            claimed),
      Refused-Consumed token given id _ pass (
          subst (Consumed id)
            (sym (
              ap (λ r. queue r.1) (reject-passed token given id w pass)
              ∙ bind-after (claim_pending id) (reject_claimed id) (rejected-Preserves id) w))
            claimed),
    )
