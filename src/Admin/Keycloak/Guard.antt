-- ===== src/Admin/Keycloak/Guard.antt =====
-- Which clients the functions of admin/keycloak_client.py change.
use agent_embassy.Prelude.{
  String, ◌≡◌, refl, ap, ◌∙◌, ◌⊎◌, inl, inr, Bool, true, false, not, ◌&&◌, Option, none, some, List,
  ◌∷◌, select, ◌==◌, arith, str_eq, Bool-cases, if◌then◌else◌,
}
use agent_embassy.Python.Json.{Json, Body, field, end}
use agent_embassy.Python.Attempt
use agent_embassy.Python.Attempt.{Attempt, value, exception, fields_of, loads}
use agent_embassy.Admin.Http.{
  Method, Call, Reply, World, Action, pure, attempt, request, status_of, body_of, ◌>>=◌,
}
use agent_embassy.Admin.Keycloak.{
  ClientInfo, Outcome, found, not_found, error, Token, token, refusal, token_url, read_token,
  admin_token, is_partner_client, to_client_info, parsed, read_client, read_detail, get_with,
  get_client, no_admin, client_url, secret_url,
}
use agent_embassy.Admin.Keycloak.Manage.{
  handled, with_client, authorized, delete_client, regenerate_secret, set_client_enabled,
}

is_get : Method → Bool
is_get Method.get = true
is_get Method.post = false
is_get Method.put = false
is_get Method.delete = false

-- A request that changes something in Keycloak: no reading one, and none for a token.
abbrev pub is_change : Call → Bool
unfolding is_get
is_change call = not (is_get call.method) && not (str_eq call.url token_url)

abbrev pub changes : World → List Call
changes w = select is_change w.sent

-- The request for a token.
abbrev pub login : Call
login = record { method = Method.post; url = token_url; body = none }

module _ (realm audience : String) where
  -- The request for the client under `uuid`.
  abbrev pub fetch : String → Call
  fetch uuid = record { method = Method.get; url = client_url realm audience uuid; body = none }

  -- The reply shows a partner client.
  pub record ShowsPartner (reply : Reply) : Type 0 where
    pub rep : Json
    pub fetched : status_of reply ≡ 200
    pub body : body_of reply ≡ Body.json rep
    pub partner : is_partner_client realm audience rep ≡ value true

  -- What `read_client` does after the shape was tested.
  abbrev read_tested : Json → Attempt Bool → Attempt (Outcome ClientInfo)
  read_tested rep p = Attempt.◌>>=◌ p λ partner.
      if partner
      then Attempt.◌>>=◌ (fields_of rep) (λ fields.
        Attempt.◌>>=◌ (to_client_info realm audience fields) λ info. value (found info))
      else value not_found

  tested :
      (rep : Json) (p : Attempt Bool) (c : ClientInfo)
      → read_tested rep p ≡ value (found c)
      → p ≡ value true
  tested rep (value true) c e = refl
  tested rep (value false) c e = absurd (cc e)
  tested rep (exception x) c e = absurd (cc e)

  parsed-found :
      (b : Body) (c : ClientInfo)
      → parsed realm audience b (read_client realm audience) ≡ value (found c)
      → (rep : Json) × (b ≡ Body.json rep) × (is_partner_client realm audience rep ≡ value true)
  unfolding read_client
  parsed-found (Body.json rep) c e =
      (rep, refl, tested rep (is_partner_client realm audience rep) c e)
  parsed-found Body.malformed c e = absurd (cc e)
  parsed-found Body.undecodable c e = absurd (cc e)

  detail-found :
      (reply : Reply) (c : ClientInfo)
      → read_detail realm audience reply ≡ value (found c)
      → ShowsPartner reply
  unfolding read_detail
  detail-found reply c e = elim (Bool-cases (status_of reply == 404)) [
    | inl gone ↦ absurd (cc (rw gone at e))
    | inr here ↦ elim (Bool-cases (status_of reply == 200)) [
      | inl good ↦
          let (rep, body, partner) = parsed-found (body_of reply) c (rw (here, good) at e) in
          record { rep = rep; fetched = ground arith; body = body; partner = partner }
      | inr bad ↦ absurd (cc (rw (here, bad) at e))
    ]
  ]

  get_with-found :
      (uuid : String) (t : Token) (c : ClientInfo) (w : World)
      → (get_with realm audience uuid t w).0 ≡ value (found c)
      → ShowsPartner (w.replies 0)
        × ((get_with realm audience uuid t w).1.sent ≡ fetch uuid ∷ w.sent)
  unfolding get_with request
  get_with-found uuid (refusal x) c w e = absurd (cc e)
  get_with-found uuid (token t) c w e = (detail-found (w.replies 0) c e, refl)

  -- A client is found only if the second reply of the function shows a partner client, and that is
  -- the reply to the request for this client.
  get_client-found :
      (uuid : String) (c : ClientInfo) (w : World)
      → (get_client realm audience uuid w).0 ≡ value (found c)
      → ShowsPartner (w.replies 1)
        × ((get_client realm audience uuid w).1.sent ≡ fetch uuid ∷ login ∷ w.sent)
  unfolding get_client admin_token request
  get_client-found uuid c w e = get_with-found uuid (read_token (w.replies 0)) c (admin_token w).1 e

  get_with-changes :
      (uuid : String) (t : Token) (w : World)
      → changes (get_with realm audience uuid t w).1 ≡ changes w
  unfolding get_with request is_change
  get_with-changes uuid (refusal x) w = refl
  get_with-changes uuid (token t) w = refl

  get_client-changes :
      (uuid : String) (w : World) → changes (get_client realm audience uuid w).1 ≡ changes w
  unfolding get_client admin_token request is_change
  get_client-changes uuid w = get_with-changes uuid (read_token (w.replies 0)) (admin_token w).1

  -- What a function has done: it has changed nothing, or it has sent four requests, namely for a
  -- token, for the client under `uuid`, which the reply shows to be a partner client, for a token
  -- again, and `change`.
  abbrev pub Guarded : {A : Type 0} → String → Call → World → Attempt (Outcome A) × World → Type 0
  Guarded uuid change w r =
      (changes r.1 ≡ changes w)
      ⊎ ((r.1.sent ≡ change ∷ login ∷ fetch uuid ∷ login ∷ w.sent) × ShowsPartner (w.replies 1))

  -- One request under a new token, or none where there is no token.
  authorized-sent :
      {A : Type 0} (method : Method) (url : String) (body : Option Json)
      (read : Reply → Attempt (Outcome A)) (t : Token) (w : World)
      → (let after =
            ((elim t as (λ _. Action (Outcome A)) [
              | refusal e ↦ pure (error (no_admin e))
              | token _ ↦ request method url body >>= λ reply. attempt (read reply)
            ])
              w).1 in
          (after.sent ≡ w.sent)
          ⊎ (after.sent ≡ record { method = method; url = url; body = body } ∷ w.sent))
  unfolding request
  authorized-sent method url body read (refusal e) w = inl refl
  authorized-sent method url body read (token s) w = inr refl

  changed :
      {A : Type 0} (uuid : String) (method : Method) (url : String) (body : Option Json)
      (read : Reply → Attempt (Outcome A)) (c : ClientInfo) (w : World)
      → (get_client realm audience uuid w).0 ≡ value (found c)
      → Guarded uuid
          (record { method = method; url = url; body = body })
          w
          (authorized realm audience method url body read (get_client realm audience uuid w).1)
  unfolding authorized admin_token request is_change
  changed uuid method url body read c w e =
      let (partner, asked) = get_client-found uuid c w e in
      let w' = (get_client realm audience uuid w).1 in
      let w2 = (admin_token w').1 in
      elim (authorized-sent method url body read (read_token (w'.replies 0)) w2) [
        | inl nothing ↦ inl (ap (select is_change) nothing ∙ get_client-changes uuid w)
        | inr sent ↦ inr (
          sent ∙ ap (λ l. record { method = method; url = url; body = body } ∷ login ∷ l) asked,
          partner,
        )
      ]

  with_client-Guarded :
      {A : Type 0} (uuid : String) (method : Method) (url : String) (body : Option Json)
      (read : ClientInfo → Reply → Attempt (Outcome A)) (w : World)
      → Guarded uuid
          (record { method = method; url = url; body = body })
          w
          (with_client realm audience uuid
            (λ c. authorized realm audience method url body (read c))
            w)
  unfolding with_client
  with_client-Guarded {A = A} uuid method url body read w =
      guarded (get_client realm audience uuid w).0 refl
    where
      guarded :
          (d : Attempt (Outcome ClientInfo))
          → (get_client realm audience uuid w).0 ≡ d
          → Guarded {A = A} uuid
              (record { method = method; url = url; body = body })
              w
              (elim d [
                | value detail ↦
                    handled realm audience
                      (λ c. authorized realm audience method url body (read c))
                      detail
                      (get_client realm audience uuid w).1
                | exception x ↦ (exception x, (get_client realm audience uuid w).1)
              ])
      guarded (value (found c)) e = changed uuid method url body (read c) c w e
      guarded (value not_found) e = inl (get_client-changes uuid w)
      guarded (value (error p)) e = inl (get_client-changes uuid w)
      guarded (exception x) e = inl (get_client-changes uuid w)

  -- Deleting a client, giving it a new secret and enabling or disabling it send no request that
  -- changes anything in Keycloak, unless the reply to the request for the client under that id, sent
  -- before in the same call, is the representation of a partner client; then the one change sent is
  -- the DELETE of that client, the POST of its secret or the PUT of its field "enabled".
  pub changes-Guarded :
      (uuid : String) (enabled : Bool) (w : World)
      → Guarded uuid
          (record { method = Method.delete; url = client_url realm audience uuid; body = none })
          w
          (delete_client realm audience uuid w)
        × Guarded uuid
            (record { method = Method.post; url = secret_url realm audience uuid; body = none })
            w
            (regenerate_secret realm audience uuid w)
        × Guarded uuid
            (record {
              method = Method.put;
              url = client_url realm audience uuid;
              body = some (Json.obj (field "enabled" (Json.bool enabled) end));
            })
            w
            (set_client_enabled realm audience uuid enabled w)
  unfolding delete_client regenerate_secret set_client_enabled
  changes-Guarded uuid enabled w = (
    with_client-Guarded uuid _ _ _ _ w,
    with_client-Guarded uuid _ _ _ _ w,
    with_client-Guarded uuid _ _ _ _ w,
  )
