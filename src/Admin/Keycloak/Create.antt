-- ===== src/Admin/Keycloak/Create.antt =====
-- admin/keycloak_client.py: `create_client`.
use Prim.Native.Char.{code}
use agent_embassy.Prelude.{
  String, Bool, true, false, ◌&&◌, not, Option, none, some, ◌==◌, if◌then◌else◌,
}
use agent_embassy.Python.Text.{is_empty}
use agent_embassy.Python.Json.{Json, Fields, nil, cons, end, field, get_field}
use agent_embassy.Python.Attempt
use agent_embassy.Python.Attempt.{Attempt, value, exception, fields_of, loads}
use agent_embassy.Admin.Http.{
  Method, Reply, Action, response, unreachable, failed, pure, attempt, request, status_of, body_of,
  ◌>>=◌,
}
use agent_embassy.Admin.Keycloak.{
  ClientInfo, http, no_admin, already_exists, no_id, not_refetched, Outcome, found, not_found,
  error, Token, token, refusal, admin_token, clients_url, secret_url, get_client,
}

-- `s.rstrip("/")`
unfoldable pub strip_slashes : String → String
strip_slashes String.[] = String.[]
strip_slashes (String.◌∷◌ c s) =
    let rest = strip_slashes s in
    if is_empty rest && code c == b'/' then String.[] else String.◌∷◌ c rest

has_slash : String → Bool
has_slash String.[] = false
has_slash (String.◌∷◌ c s) = if code c == b'/' then true else has_slash s

-- `s.rsplit("/", 1)[-1]`: what follows the last slash.
unfoldable pub last_segment : String → String
unfolding has_slash
last_segment String.[] = String.[]
last_segment (String.◌∷◌ c s) =
    let rest = last_segment s in
    if has_slash s then rest else if code c == b'/' then s else String.◌∷◌ c s

-- The id in the header Location of a reply, where there is one.
abbrev pub location_of : Reply → String
location_of (response status none body) = ""
location_of (response status (some location) body) = location
location_of unreachable = ""
location_of failed = ""

unfoldable pub created_id : Reply → String
unfolding strip_slashes last_segment
created_id reply = last_segment (strip_slashes (location_of reply))

module _ (realm audience : String) where
  -- The mapper that puts the audience into the client's tokens.
  abbrev pub audience_mapper : Json
  audience_mapper = Json.obj (
      field "name" (Json.str "tier2-audience") (
        field "protocol" (Json.str "openid-connect") (
          field "protocolMapper" (Json.str "oidc-audience-mapper") (
            field "consentRequired" (Json.bool false) (
              field "config"
                (Json.obj (
                  field "included.custom.audience" (Json.str audience) (
                    field "id.token.claim" (Json.str "false")
                      (field "access.token.claim" (Json.str "true") end))))
                end)))))

  -- `body`: the representation that is posted.
  unfoldable pub new_client : String → String → Fields
  new_client client_id name = field "clientId" (Json.str client_id) (
      field "name" (Json.str (if is_empty name then client_id else name)) (
        field "enabled" (Json.bool true) (
          field "protocol" (Json.str "openid-connect") (
            field "publicClient" (Json.bool false) (
              field "standardFlowEnabled" (Json.bool false) (
                field "implicitFlowEnabled" (Json.bool false) (
                  field "directAccessGrantsEnabled" (Json.bool false) (
                    field "serviceAccountsEnabled" (Json.bool true) (
                      field "clientAuthenticatorType" (Json.str "client-secret")
                        (field "protocolMappers" (Json.arr (cons audience_mapper nil)) end))))))))))

  -- The secret of the new client; a body that is no JSON counts as none.
  unfoldable pub read_new_secret : Reply → Attempt (Option Json)
  unfolding get_field
  read_new_secret reply =
      if status_of reply == 200
      then Attempt.◌>>=◌ (loads (body_of reply)) (λ parsed. elim parsed [
        | none ↦ value none
        | some v ↦ Attempt.◌>>=◌ (fields_of v) λ fields. value (get_field fields "value")
      ])
      else value none

  unfoldable pub fetch_secret : String → ClientInfo → Action (Outcome (ClientInfo × Option Json))
  unfolding read_new_secret secret_url
  fetch_secret uuid client = do
    reply ← request Method.get (secret_url realm audience uuid) none
    secret ← attempt (read_new_secret reply)
    pure (found (client, secret))

  -- The client that was created is fetched again.
  unfoldable pub refetch : String → Action (Outcome (ClientInfo × Option Json))
  unfolding fetch_secret
  refetch uuid = do
    detail ← get_client realm audience uuid
    elim detail [
      | found client ↦ fetch_secret uuid client
      | not_found ↦ pure (error not_refetched)
      | error _ ↦ pure (error not_refetched)
    ]

  unfoldable pub after_post : String → Reply → Action (Outcome (ClientInfo × Option Json))
  unfolding refetch created_id
  after_post client_id reply =
      if status_of reply == 409
      then pure (error (already_exists client_id))
      else if not (status_of reply == 201)
      then pure (error (http (status_of reply)))
      else if is_empty (created_id reply)
      then pure (error no_id)
      else refetch (created_id reply)

  unfoldable pub create_with : String → String → Token → Action (Outcome (ClientInfo × Option Json))
  unfolding after_post new_client clients_url
  create_with client_id name (refusal e) = pure (error (no_admin e))
  create_with client_id name (token t) = do
    reply ←
        request Method.post (clients_url realm audience)
          (some (Json.obj (new_client client_id name)))
    after_post client_id reply

  -- `create_client`
  unfoldable pub create_client : String → String → Action (Outcome (ClientInfo × Option Json))
  unfolding create_with
  create_client client_id name = do t ← admin_token; create_with client_id name t
