-- ===== src/Verify/Sessions/Verified.antt =====
-- What the endpoint /tier1/verify takes for a session, and what the session is for.
use agent_embassy.Prelude.{String, ◌≡◌, refl, sym, subst, ap, ◌∙◌, Bool, none, some, str_eq_refl}
use agent_embassy.Prelude.Dict.{get, get-put, get-remove}
use agent_embassy.Verify.Store.{Store}
use agent_embassy.Verify.Action.{World, HttpError, Action, Result, ok, err, pure, gets, time, ◌>>=◌}
use agent_embassy.Verify.Action.Rules.{require-ok, require-pass, bind-ok}
use agent_embassy.Verify.Requests.{Request, client_ip, check_rate_limit}
use agent_embassy.Verify.Domain.{Validated, valid, refused, Refusal, validate_domain}
use agent_embassy.Verify.Sessions.{
  SessionReply, validated, prove_control, issue_session, verify_challenge,
}
use agent_embassy.Verify.Sessions.Control.{Proves, prove_control-Proves}

-- `verify_challenge` from the proof of control on.
abbrev issued_for : String → Action SessionReply
issued_for domain = issue_session domain >>= λ issued. gets (λ s. s.session_ttl_seconds) >>= λ ttl.
    pure (record {
      session_token = issued.0;
      domain = domain;
      expires_in = ttl;
      expires_at = issued.1;
    })

abbrev proved_session : String → Action SessionReply
proved_session domain = prove_control domain >>= λ _. issued_for domain

-- What the reply says is what the store holds: its token is a session of its domain, and the domain
-- has no challenge any more.
abbrev pub IsIssued : SessionReply → Store → Type 0
IsIssued reply s =
    (get s.sessions reply.session_token ≡ some (reply.domain, reply.expires_at))
    × (get s.challenges reply.domain ≡ none)

abbrev ReplyIssued : String → Result SessionReply → Store → Type 0
ReplyIssued domain (ok reply) s = (reply.domain ≡ domain) × IsIssued reply s
ReplyIssued domain (err e) s = Unit

issued_for-ReplyIssued :
    (domain : String) (w : World)
    → ReplyIssued domain (issued_for domain w).0 (issued_for domain w).1.store
unfolding issue_session
issued_for-ReplyIssued domain w =
    let token = w.outside.tokens 0 in
    (
      refl,
      (
        get-put w.store.sessions token token _ ∙ rw (str_eq_refl token),
        get-remove w.store.challenges domain domain ∙ rw (str_eq_refl domain),
      ),
    )

no_session :
    {e : HttpError} {reply : SessionReply} → ◌≡◌ {A = Result SessionReply} (err e) (ok reply) → ⊥
no_session h = cc

-- The proof of control and the session.
session-Proves :
    (domain : String) (w : World) (reply : SessionReply)
    → (proved_session domain w).0 ≡ ok reply
    → (reply.domain ≡ domain) × Proves domain w × IsIssued reply (proved_session domain w).1.store
session-Proves domain w reply h =
    let (_, proof, h1, same) = bind-ok (λ _. issued_for domain) (prove_control domain) w reply h in
    let v = (prove_control domain w).1 in
    let (own, issued) : ReplyIssued domain (ok reply) (issued_for domain v).1.store =
      subst (λ r. ReplyIssued domain r (issued_for domain v).1.store) h1
        (issued_for-ReplyIssued domain v) in
    (
      own,
      prove_control-Proves domain w proof,
      subst (λ x. IsIssued reply x.1.store) (sym same) issued,
    )

module _ (lower_wide : String → String) (is_ip : String → Bool) where
  validated-Proves :
      (found : Validated) (w : World) (reply : SessionReply)
      → ((validated found >>= proved_session) w).0 ≡ ok reply
      → (found ≡ valid reply.domain)
        × Proves reply.domain w
        × IsIssued reply ((validated found >>= proved_session) w).1.store
  validated-Proves (valid domain) w reply h =
      let (own, proof, issued) = session-Proves domain w reply h in
      (ap valid (sym own), subst (λ d. Proves d w) (sym own) proof, issued)
  validated-Proves (refused (Refusal.invalid_domain text)) w reply h = absurd (no_session h)
  validated-Proves (refused Refusal.value_error) w reply h = absurd (no_session h)

  -- The endpoint gives a session only for a domain that `validate_domain` returns for the claim, whose
  -- pending challenge is in time at the second clock reading of the request and whose host, asked
  -- under that domain, serves the token of the challenge with status 200, up to white space around it;
  -- the token of the reply is then that of a session of that domain until the time that the reply
  -- says, and the challenge is gone.
  pub verify_challenge-Proves :
      (claimed : String) (request : Request) (w : World) (reply : SessionReply)
      → (verify_challenge lower_wide is_ip claimed request w).0 ≡ ok reply
      → (validate_domain lower_wide is_ip claimed ≡ valid reply.domain)
        × Proves reply.domain (time w).1
        × IsIssued reply (verify_challenge lower_wide is_ip claimed request w).1.store
  unfolding verify_challenge check_rate_limit
  verify_challenge-Proves claimed request w reply h =
      let limited =
        check_rate_limit "verify" (client_ip request) w.store.verify_rate_limit_max
          w.store.verify_rate_limit_window w in
      let found = validate_domain lower_wide is_ip claimed in
      let rest : Unit {0} → Action SessionReply = λ _. validated found >>= proved_session in
      let (passed, h1) =
        require-ok _ 429 "too many verify requests, slow down" rest limited.1 reply h in
      let same = require-pass _ 429 "too many verify requests, slow down" rest limited.1 passed in
      let (named, proof, issued) = validated-Proves found limited.1 reply h1 in
      (
        named,
        record {
          token = proof.token;
          expires_at = proof.expires_at;
          body = proof.body;
          pending = proof.pending;
          in_time = proof.in_time;
          served = proof.served;
          equal = proof.equal;
        },
        subst (λ x. IsIssued reply x.1.store) (sym same) issued,
      )
