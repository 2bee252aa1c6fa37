-- ===== src/Verify/Network/Attempts.antt =====
-- How often the handoff is attempted, with what, and what its result rests on.
use agent_embassy.Prelude.{◌≡◌, refl, inl, inr, List, ◌∷◌, ap, ◌∙◌, ◌==◌, Bool-cases}
use agent_embassy.Verify.Action.{World, Envelope, Transport, rest, ◌>>=◌}
use agent_embassy.Verify.Network.{
  Parsed, parsed, not_parsed, type_error, parse_ok_body, result_of, post_action, retry,
  read_transport, execute_handoff,
}

result_of-quiet : (p : Parsed) (w : World) → (result_of p w).1 ≡ w
result_of-quiet (parsed r) w = refl
result_of-quiet not_parsed w = refl
result_of-quiet type_error w = refl

read_transport-quiet : (e : Envelope) (t : Transport) (w : World) → (read_transport e t w).1 ≡ w
unfolding read_transport
read_transport-quiet e Transport.timeout w = refl
read_transport-quiet e Transport.down w = refl
read_transport-quiet e (Transport.response status body) w = elim (Bool-cases (status == 200)) [
  | inl h ↦ rw h (result_of-quiet (parse_ok_body body e.action_id) w)
  | inr h ↦ rw h
]

-- The envelopes of one handoff on top of those sent before: the same one twice after a timeout.
abbrev pub attempts : Envelope → Transport → List Envelope → List Envelope
attempts e Transport.timeout sent = e ∷ e ∷ sent
attempts e Transport.down sent = e ∷ sent
attempts e (Transport.response status body) sent = e ∷ sent

retried-sent :
    (e : Envelope) (t : Transport) (w : World)
    → (((retry e t >>= read_transport e) w).1.sent ≡ (retry e t w).1.sent)
      × (((retry e t >>= read_transport e) w).1.store ≡ w.store)
unfolding retry
retried-sent e Transport.timeout w =
    let q = read_transport-quiet e (w.outside.agent 0) (post_action e w).1 in
    unfold post_action in (ap (λ x. x.sent) q, ap (λ x. x.store) q)
retried-sent e Transport.down w =
    let q = read_transport-quiet e Transport.down w in (ap (λ x. x.sent) q, ap (λ x. x.store) q)
retried-sent e (Transport.response status body) w =
    let q = read_transport-quiet e (Transport.response status body) w in
    (ap (λ x. x.sent) q, ap (λ x. x.store) q)

retry-sent :
    (e : Envelope) (t : Transport) (w : World)
    → (retry e t (record w { sent = e ∷ w.sent })).1.sent ≡ attempts e t w.sent
unfolding retry
retry-sent e Transport.timeout w = refl
retry-sent e Transport.down w = refl
retry-sent e (Transport.response status body) w = refl

-- A handoff posts the given envelope once, and the same envelope once more exactly when the first
-- attempt timed out; nothing else is sent, and the store is left alone.
pub execute_handoff-sent :
    (e : Envelope) (w : World)
    → ((execute_handoff e w).1.sent ≡ attempts e (w.outside.agent 0) w.sent)
      × ((execute_handoff e w).1.store ≡ w.store)
unfolding execute_handoff
execute_handoff-sent e w =
    let next = record w { outside = record w.outside { agent = rest w.outside.agent } } in
    let both = retried-sent e (w.outside.agent 0) (record next { sent = e ∷ w.sent }) in
    (both.0 ∙ retry-sent e (w.outside.agent 0) next, both.1)
