-- ===== src/Agent/Bodies/Bounds.antt =====
-- The bounds of every action that passes the validation.
use agent_embassy.Prelude.{◌≡◌, Option, none, some}
use agent_embassy.Prelude.Int.{ℤ}
use agent_embassy.Python.Json.{Json, Fields, get_field, as_str}
use agent_embassy.Python.Fields.{bind, text_field, number_field}
use agent_embassy.Python.Fields.Read.{
  Within, InRange, Each, Each-bind, Each-some, text_field-Within, number_field-InRange,
}
use agent_embassy.Agent.Execution.{Envelope}
use agent_embassy.Agent.Bodies.{
  ActionEnvelope, OrderPayload, read_action_envelope, read_order_payload, read_payload, read_action,
  to_envelope, as_dict, valid_type, read_mandate,
}

pub record IsBounded (e : Envelope) : Type 0 where
  pub action_id : Within 64 e.action_id
  pub client_id : Within 200 e.client_id
  pub item : Within 200 e.item
  pub quantity : InRange 10000 e.quantity
  pub amount_cents : InRange 1000000 e.amount_cents

abbrev OfEnvelope : ActionEnvelope → Type 0
OfEnvelope a = Within 64 a.action_id × Within 200 a.client_id

abbrev OfPayload : OrderPayload → Type 0
OfPayload p = Within 200 p.item × InRange 10000 p.quantity × InRange 1000000 p.amount_cents

any_bind :
    {A B : Type 0} (Q : B → Type 0) (o : Option A) (k : A → Option B)
    → ((a : A) → Each Q (k a))
    → Each Q (bind o k)
any_bind Q none k kept = tt
any_bind Q (some a) k kept = kept a

module _ (coerce : Json → Option ℤ) (coerce_float : Json → Option Json) where
  read_action_envelope-bounds :
      (f : Fields) → Each OfEnvelope (read_action_envelope coerce coerce_float f)
  unfolding read_action_envelope
  read_action_envelope-bounds f =
      Each-bind (Within 64) OfEnvelope (text_field f "action_id" 64) _
        (text_field-Within f "action_id" 64)
        λ id known.
          any_bind OfEnvelope (bind (as_str (get_field f "action_type")) valid_type) _
            λ action_type.
              Each-bind (Within 200) OfEnvelope (text_field f "client_id" 200) _
                (text_field-Within f "client_id" 200)
                λ client held.
                  any_bind OfEnvelope (bind (get_field f "requested_at") coerce_float) _
                    λ requested_at.
                      any_bind OfEnvelope (as_dict (get_field f "payload")) _ λ payload.
                        any_bind OfEnvelope
                          (bind (as_dict (get_field f "mandate"))
                            (read_mandate coerce coerce_float))
                          _ λ mandate. (known, held)

  read_order_payload-bounds :
      (f : Fields) → Each OfPayload (read_order_payload coerce coerce_float f)
  unfolding read_order_payload
  read_order_payload-bounds f =
      Each-bind (Within 200) OfPayload (text_field f "item" 200) _ (text_field-Within f "item" 200)
        λ item known.
          Each-bind (InRange 10000) OfPayload (number_field coerce f "quantity" 10000) _
            (number_field-InRange coerce f "quantity" 10000)
            λ quantity some_of.
              Each-bind (InRange 1000000) OfPayload (number_field coerce f "amount_cents" 1000000) _
                (number_field-InRange coerce f "amount_cents" 1000000)
                λ amount cost. (known, some_of, cost)

  pub read_action-IsBounded :
      (f : Fields) (e : Envelope) → read_action coerce coerce_float f ≡ some e → IsBounded e
  unfolding read_action read_payload to_envelope
  read_action-IsBounded f e valid =
      Each-some IsBounded _ e
        (Each-bind OfEnvelope IsBounded (read_action_envelope coerce coerce_float f) _
          (read_action_envelope-bounds f)
          λ a known.
            Each-bind OfPayload IsBounded (read_order_payload coerce coerce_float a.payload) _
              (read_order_payload-bounds a.payload)
              λ p held. record {
                action_id = known.0;
                client_id = known.1;
                item = held.0;
                quantity = held.1;
                amount_cents = held.2;
              })
        valid
