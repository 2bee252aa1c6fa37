-- ===== src/Verify/Sessions/Control.antt =====
-- What proving control of a domain takes, and that a challenge serves once.
use agent_embassy.Prelude.{
  ℕ, ◌≤◌, String, ◌≡◌, refl, sym, subst, ap, ◌∙◌, Bool, true, false, Option, none, some, arith, ltb,
  ◌==◌, if◌then◌else◌, str_eq, str_eq_iff, str_eq_refl, inl, inr, Bool-cases,
}
use agent_embassy.Prelude.Dict.{get, get-remove}
use agent_embassy.Python.Text.{strip}
use agent_embassy.Verify.Action.{World, HttpError, Action, Result, ok, err, pure, time, ◌>>=◌}
use agent_embassy.Verify.Sessions.{
  pending_token, get_pending_challenge, expire_challenge, pending_or_404, fetch_challenge_file,
  confirm_control, prove_control, issue_session,
}

-- What the world must look like for a proof of control of `domain`: the pending challenge is in
-- time, and the host serves its token, up to white space around it, with status 200.
pub record Proves (domain : String) (w : World) : Type 0 where
  pub token : String
  pub expires_at : ℕ
  pub body : String
  pub pending : get w.store.challenges domain ≡ some (token, expires_at)
  pub in_time : w.outside.clock 0 ≤ expires_at
  pub served : w.outside.fetches 0 domain ≡ some (200, body)
  pub equal : strip body ≡ token

==→eq : (a b : ℕ) → (a == b) ≡ true → a ≡ b
==→eq a b h = ground arith

never : {x : HttpError} → ◌≡◌ {A = Result (Unit {0})} (err x) (ok tt) → ⊥
never h = cc

confirmed :
    (token : String) (fetched : Option (ℕ × String)) (w : World)
    → (confirm_control token fetched w).0 ≡ ok tt
    → (body : String) × (fetched ≡ some (200, body)) × (strip body ≡ token)
unfolding confirm_control
confirmed token none w h = cc
confirmed token (some (status, body)) w h = elim (Bool-cases (status == 200)) [
  | inl good ↦ elim (Bool-cases (str_eq (strip body) token)) [
    | inl same ↦ (
      body,
      ap (λ (n : ℕ). some (n, body)) (==→eq status 200 good),
      (str_eq_iff (strip body) token).0 same,
    )
    | inr other ↦ absurd (never (rw (good, other) at h))
  ]
  | inr bad ↦ absurd (never (rw bad at h))
]

-- `prove_control` on the challenge entry that it finds.
abbrev prove_from : String → Option (String × ℕ) → Action (Unit {0})
prove_from domain entry = do
  pending ← pending_token domain entry
  expected ← pending_or_404 pending
  fetched ← fetch_challenge_file domain
  confirm_control expected fetched

-- The same once the entry was found and the clock was read.
abbrev prove_at : String → String → Bool → Action (Unit {0})
prove_at domain token late = do
  pending ← if late then expire_challenge domain else pure (some token)
  expected ← pending_or_404 pending
  fetched ← fetch_challenge_file domain
  confirm_control expected fetched

timed :
    (domain token : String) (expires_at : ℕ) (w : World) (late : Bool)
    → get w.store.challenges domain ≡ some (token, expires_at)
    → ltb expires_at (w.outside.clock 0) ≡ late
    → (prove_at domain token late (time w).1).0 ≡ ok tt
    → Proves domain w
unfolding expire_challenge pending_or_404 fetch_challenge_file
timed domain token expires_at w true e l h = absurd (never h)
timed domain token expires_at w false e l h =
    let (body, served, equal) = confirmed token (w.outside.fetches 0 domain) _ h in
    record {
      token = token;
      expires_at = expires_at;
      body = body;
      pending = e;
      in_time = ground arith;
      served = served;
      equal = equal;
    }

proved :
    (domain : String) (w : World) (entry : Option (String × ℕ))
    → get w.store.challenges domain ≡ entry
    → (prove_from domain entry w).0 ≡ ok tt
    → Proves domain w
unfolding pending_token pending_or_404
proved domain w none e h = absurd (never h)
proved domain w (some (token, expires_at)) e h =
    timed domain token expires_at w (ltb expires_at (w.outside.clock 0)) e refl h

-- Control of a domain is confirmed only against the token that is pending for it and in time, served
-- by the host of that domain.
pub prove_control-Proves :
    (domain : String) (w : World) → (prove_control domain w).0 ≡ ok tt → Proves domain w
unfolding prove_control get_pending_challenge
prove_control-Proves domain w h = proved domain w (get w.store.challenges domain) refl h

abbrev pub no_challenge : HttpError
no_challenge = record {
  status = 404;
  detail = "no pending challenge for this domain, or it expired";
}

-- A session uses its challenge up: a proof of control of the domain right after it fails with a 404.
pub issue_session-spends :
    (domain : String) (w : World)
    → (prove_control domain (issue_session domain w).1).0 ≡ err no_challenge
unfolding issue_session prove_control get_pending_challenge
issue_session-spends domain w =
    let after = (issue_session domain w).1 in
    let gone : get after.store.challenges domain ≡ none =
      get-remove w.store.challenges domain domain ∙ rw (str_eq_refl domain) in
    subst (λ f. (prove_from domain f after).0 ≡ err no_challenge) (sym gone)
      (unfold pending_token pending_or_404 in refl)
