-- ===== src/Stubs/Delivered.antt =====
-- The stubs take every message that the agent posts for an action that it has validated.
use Prim.Native.String
use mathlib.Core.List.{reverse-append}
use agent_embassy.Prelude.{
  ℕ, zero, suc, ◌-◌, ◌≤◌, ◌<◌, String, ◌≡◌, refl, ap, ◌∙◌, true, false, Option, none, some, List,
  [], ◌∷◌, ◌++◌, reverse, arith, str_eq, length, length-append, length-reverse, drop, ltb, inl, inr,
  Bool-cases, str_eq_iff,
}
use agent_embassy.Prelude.Int.{ℤ, pos}
use agent_embassy.Python.Json.{Json, Body, Fields, get_field}
use agent_embassy.Python.Text.{is_empty, decimal, last, ◌+++◌}
use agent_embassy.Python.Text.Count.{count-append, is_empty-count}
use agent_embassy.Python.Fields.Read.{Each, Each-some, Within, text_field-read, number_field-read}
use agent_embassy.Agent.World.{Post}
use agent_embassy.Agent.Execution.{Envelope}
use agent_embassy.Agent.Channels.{
  erp_order, slack_message, slack_text, email, order_title, order_line, message, read_answer,
}
use agent_embassy.Agent.Channels.Texts.{count-order_title, count-order_line, count-slack_text}
use agent_embassy.Agent.Bodies.{read_action}
use agent_embassy.Agent.Bodies.Bounds.{IsBounded, read_action-IsBounded}
use agent_embassy.Stubs.{
  Delivery, World, deliveries_max, kept, record_delivery, Reply, served, unprocessable, not_found,
  deliver, deliveries, serve, read_erp_order, read_slack_message, read_email, reference_of,
  dump_erp_order, dump_slack_message, dump_email, mock_erp_order, slack_webhook, email_send,
}

-- What `urlopen` and `json.loads` make of an answer for `_post`: a 404 and a 422 raise.
abbrev pub answer_of : Reply → Option Body
answer_of (served fields) = some (Body.json (Json.obj fields))
answer_of unprocessable = none
answer_of not_found = none

-- The agent reads the reply as executed under a reference; the list of deliveries shows that channel,
-- that reference and the payload as it was posted first, and no more rows than it may.
pub record Delivered (channel : String) (post : Post) (r : Reply × World) : Type 0 where
  pub at : ℕ
  pub reference : String
  pub older : List Delivery
  pub executed : read_answer (answer_of r.0) ≡ (true, some reference)
  pub listed :
      deliveries r.1
      ≡ record { at = at; channel = channel; reference = reference; payload = post.payload } ∷ older
  pub bounded : length (deliveries r.1) ≤ deliveries_max

drop-append :
    {A : Type 0} (n : ℕ) (xs ys : List A) → n ≤ length xs → drop n (xs ++ ys) ≡ drop n xs ++ ys
drop-append zero xs ys h = refl
drop-append (suc n) [] ys h = absurd (omega arith)
drop-append (suc n) (x ∷ xs) ys h = drop-append n xs ys (omega arith)

length-drop : {A : Type 0} (n : ℕ) (xs : List A) → length (drop n xs) ≡ length xs - n
length-drop zero xs = omega arith
length-drop (suc n) [] = omega arith
length-drop (suc n) (x ∷ xs) = omega (arith, length-drop n xs)

kept-append :
    (xs : List Delivery) (d : Delivery)
    → (front : List Delivery) × (kept (xs ++ d ∷ []) ≡ front ++ d ∷ [])
unfolding kept
kept-append xs d = elim (Bool-cases (ltb deliveries_max (length (xs ++ d ∷ [])))) [
  | inl full ↦ (
    drop (length (xs ++ d ∷ []) - deliveries_max) xs,
    rw full (
        drop-append (length (xs ++ d ∷ []) - deliveries_max) xs (d ∷ [])
          (omega (arith, length-append xs (d ∷ [])))),
  )
  | inr fits ↦ (xs, rw fits)
]

length-kept : (xs : List Delivery) → length (kept xs) ≤ deliveries_max
unfolding kept
length-kept xs = elim (Bool-cases (ltb deliveries_max (length xs))) [
  | inl full ↦ rw full (omega (arith, length-drop (length xs - deliveries_max) xs))
  | inr fits ↦ rw fits (ground arith)
]

-- A delivery answers with its reference and is listed first.
deliver-Delivered :
    (prefix channel id : String) (path : String) (payload : Fields) (w : World)
    → 0 < String.count prefix
    → Delivered channel
        (record { path = path; payload = payload })
        (deliver prefix channel id payload w)
unfolding deliver record_delivery deliveries read_answer reference_of
deliver-Delivered prefix channel id path payload w visible =
    let now = w.clock 0 in
    let shown : is_empty (reference_of prefix now id) ≡ false =
      is_empty-count (prefix +++ "-" +++ decimal now +++ "-" +++ last 8 id)
        (omega (arith, count-append prefix ("-" +++ decimal now +++ "-" +++ last 8 id))) in
    let row : Delivery = record {
      at = w.clock 1;
      channel = channel;
      reference = reference_of prefix (w.clock 0) id;
      payload = payload;
    } in
    let (front, split) = kept-append w.deliveries row in
    record {
      at = w.clock 1;
      reference = reference_of prefix (w.clock 0) id;
      older = reverse front;
      executed = rw shown;
      listed = ap reverse split ∙ reverse-append front (row ∷ []);
      bounded = omega (
        arith,
        length-reverse (kept (w.deliveries ++ row ∷ [])),
        length-kept (w.deliveries ++ row ∷ []),
      );
    }

module _ (coerce : Json → Option ℤ)
    (takes_ints : (n : ℕ) → coerce (Json.int (pos n)) ≡ some (pos n)) (e : Envelope)
    (bounds : IsBounded e) where
  read_erp_order-posted :
      read_erp_order coerce (erp_order e.action_id e.client_id e.item e.quantity e.amount_cents)
      ≡ some (record {
        action_id = e.action_id;
        client_id = e.client_id;
        item = e.item;
        quantity = e.quantity;
        amount_cents = e.amount_cents;
      })
  unfolding read_erp_order erp_order get_field
  read_erp_order-posted =
      let f = erp_order e.action_id e.client_id e.item e.quantity e.amount_cents in
      rw (
        text_field-read f "action_id" 64 e.action_id refl bounds.action_id,
        text_field-read f "client_id" 200 e.client_id refl bounds.client_id,
        text_field-read f "item" 200 e.item refl bounds.item,
        number_field-read coerce f "quantity" 10000 e.quantity (takes_ints e.quantity) refl
            bounds.quantity,
        number_field-read coerce f "amount_cents" 1000000 e.amount_cents (takes_ints e.amount_cents)
            refl bounds.amount_cents,
      )

  read_slack_message-posted :
      (text : String)
      → Within 2000 text
      → read_slack_message (slack_message e.action_id text)
        ≡ some (record { action_id = e.action_id; text = text })
  unfolding read_slack_message slack_message get_field
  read_slack_message-posted text fits =
      let f = slack_message e.action_id text in
      rw (
        text_field-read f "action_id" 64 e.action_id refl bounds.action_id,
        text_field-read f "text" 2000 text refl fits,
      )

  read_email-posted :
      (to subject body : String)
      → Within 200 to
      → Within 500 subject
      → Within 5000 body
      → read_email (email e.action_id to subject body)
        ≡ some (record { action_id = e.action_id; to = to; subject = subject; body = body })
  unfolding read_email email get_field
  read_email-posted to subject body a b c =
      let f = email e.action_id to subject body in
      rw (
        text_field-read f "action_id" 64 e.action_id refl bounds.action_id,
        text_field-read f "to" 200 to refl a,
        text_field-read f "subject" 500 subject refl b,
        text_field-read f "body" 5000 body refl c,
      )

  erp_order-Delivered :
      (w : World)
      → (let payload = erp_order e.action_id e.client_id e.item e.quantity e.amount_cents in
          Delivered "mock_erp"
            (record { path = "/mock-erp/orders"; payload = payload })
            (serve coerce "/mock-erp/orders" payload w))
  unfolding serve mock_erp_order dump_erp_order erp_order
  erp_order-Delivered w = rw read_erp_order-posted (
      deliver-Delivered "ERP" "mock_erp" e.action_id "/mock-erp/orders"
        (erp_order e.action_id e.client_id e.item e.quantity e.amount_cents) w (omega arith))

  slack_message-Delivered :
      (w : World)
      → (let payload =
            slack_message e.action_id
              (slack_text e.action_id e.client_id e.item e.quantity e.amount_cents) in
          Delivered "slack_stub"
            (record { path = "/slack/webhook"; payload = payload })
            (serve coerce "/slack/webhook" payload w))
  unfolding serve slack_webhook dump_slack_message slack_message
  slack_message-Delivered w =
      let text = slack_text e.action_id e.client_id e.item e.quantity e.amount_cents in
      let (some_text, size) =
        count-slack_text e.action_id e.client_id e.item e.quantity e.amount_cents bounds.quantity.1
          bounds.amount_cents.1 in
      let fits : Within 2000 text =
        (some_text, omega (arith, size, bounds.action_id.1, bounds.client_id.1, bounds.item.1)) in
      rw (read_slack_message-posted text fits) (
        deliver-Delivered "SLACK" "slack_stub" e.action_id "/slack/webhook"
          (slack_message e.action_id text) w (omega arith))

  email-Delivered :
      (w : World)
      → (let payload =
            email e.action_id "operations@example.invalid"
              (order_title e.action_id e.client_id)
              (order_line e.item e.quantity e.amount_cents) in
          Delivered "email_stub"
            (record { path = "/email/send"; payload = payload })
            (serve coerce "/email/send" payload w))
  unfolding serve email_send dump_email email
  email-Delivered w =
      let title = order_title e.action_id e.client_id in
      let line = order_line e.item e.quantity e.amount_cents in
      let (some_title, title_size) = count-order_title e.action_id e.client_id in
      let (some_line, line_size) =
        count-order_line e.item e.quantity e.amount_cents bounds.quantity.1 bounds.amount_cents.1 in
      let address : String = "operations@example.invalid" in
      let fits : Within 500 title =
        (some_title, omega (arith, title_size, bounds.action_id.1, bounds.client_id.1)) in
      let line_fits : Within 5000 line = (some_line, omega (arith, line_size, bounds.item.1)) in
      rw (read_email-posted address title line (omega arith, omega arith) fits line_fits) (
        deliver-Delivered "EMAIL" "email_stub" e.action_id "/email/send"
          (email e.action_id address title line) w (omega arith))

  delivered :
      (channel : String) (w : World)
      → Each
          (λ post. Delivered channel post (serve coerce post.path post.payload w))
          (message channel e.action_id e.client_id e.item e.quantity e.amount_cents)
  unfolding message
  delivered channel w = elim (Bool-cases (str_eq channel "mock_erp")) [
    | inl erp ↦ rw (erp, (str_eq_iff channel "mock_erp").0 erp) (erp_order-Delivered w)
    | inr not_erp ↦ elim (Bool-cases (str_eq channel "slack_stub")) [
      | inl slack ↦
          rw (not_erp, slack, (str_eq_iff channel "slack_stub").0 slack) (slack_message-Delivered w)
      | inr not_slack ↦ elim (Bool-cases (str_eq channel "email_stub")) [
        | inl mail ↦
            rw (not_erp, not_slack, mail, (str_eq_iff channel "email_stub").0 mail)
              (email-Delivered w)
        | inr unknown ↦ rw (not_erp, not_slack, unknown) tt
      ]
    ]
  ]

-- An action that has passed the agent's validation and is posted to a channel is delivered by the
-- stubs: the agent reads the answer as executed under a reference, and the list of deliveries then
-- shows this channel, this reference and the payload as it was posted first, with 500 rows at most.
-- pydantic takes a JSON integer for a field of type int.
pub message-Delivered :
    (coerce : Json → Option ℤ) (coerce_float : Json → Option Json)
    → ((n : ℕ) → coerce (Json.int (pos n)) ≡ some (pos n))
    → (f : Fields) (e : Envelope) → read_action coerce coerce_float f ≡ some e
    → (channel : String) (post : Post)
    → message channel e.action_id e.client_id e.item e.quantity e.amount_cents ≡ some post
    → (w : World) → Delivered channel post (serve coerce post.path post.payload w)
message-Delivered coerce coerce_float takes_ints f e valid channel post posted w =
    Each-some (λ p. Delivered channel p (serve coerce p.path p.payload w)) _ post
      (delivered coerce takes_ints e (read_action-IsBounded coerce coerce_float f e valid) channel
        w)
      posted
