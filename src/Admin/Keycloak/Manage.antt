-- ===== src/Admin/Keycloak/Manage.antt =====
-- admin/keycloak_client.py: the operations on one partner client, which is fetched first.
use agent_embassy.Prelude.{String, Bool, Option, none, some, ◌||◌, ◌==◌, if◌then◌else◌}
use agent_embassy.Python.Json.{Json, end, field, get_field}
use agent_embassy.Python.Attempt
use agent_embassy.Python.Attempt.{Attempt, value, fields_of}
use agent_embassy.Admin.Http.{
  Method, Reply, Action, pure, attempt, request, status_of, body_of, ◌>>=◌,
}
use agent_embassy.Admin.Keycloak.{
  ClientInfo, Outcome, found, not_found, error, http, no_admin, token, refusal, admin_token,
  client_url, secret_url, parsed, get_client,
}

module _ (realm audience : String) where
  -- `get_client`, then what a function does with a partner client that was found.
  abbrev pub handled :
      {A : Type 0} → (ClientInfo → Action (Outcome A)) → Outcome ClientInfo → Action (Outcome A)
  handled act (found client) = act client
  handled act not_found = pure not_found
  handled act (error e) = pure (error e)

  unfoldable pub with_client :
      {A : Type 0} → String → (ClientInfo → Action (Outcome A)) → Action (Outcome A)
  unfolding get_client
  with_client uuid act = do detail ← get_client realm audience uuid; handled act detail

  -- One more request under a new token of the administration interface.
  unfoldable pub authorized :
      {A : Type 0}
      → Method
      → String
      → Option Json
      → (Reply → Attempt (Outcome A))
      → Action (Outcome A)
  authorized method url body read = do
    t ← admin_token
    elim t [
      | refusal e ↦ pure (error (no_admin e))
      | token _ ↦ request method url body >>= λ reply. attempt (read reply)
    ]

  -- `parsed.get("value")`
  unfoldable pub read_secret : Reply → Attempt (Outcome (Option Json))
  unfolding get_field
  read_secret reply =
      if status_of reply == 200
      then parsed realm audience (body_of reply)
          (λ v. Attempt.◌>>=◌ (fields_of v) λ fields. value (found (get_field fields "value")))
      else value (error (http (status_of reply)))

  -- `get_secret`, `regenerate_secret`
  unfoldable pub get_secret : String → Action (Outcome (Option Json))
  unfolding with_client authorized read_secret secret_url
  get_secret uuid =
      with_client uuid λ _. authorized Method.get (secret_url realm audience uuid) none read_secret

  unfoldable pub regenerate_secret : String → Action (Outcome (Option Json))
  unfolding with_client authorized read_secret secret_url
  regenerate_secret uuid =
      with_client uuid λ _. authorized Method.post (secret_url realm audience uuid) none read_secret

  -- `delete_client`; the outcome is the client's id.
  unfoldable pub read_deletion : ClientInfo → Reply → Attempt (Outcome Json)
  read_deletion client reply =
      if status_of reply == 204 || status_of reply == 404
      then value (found client.client_id)
      else value (error (http (status_of reply)))

  unfoldable pub delete_client : String → Action (Outcome Json)
  unfolding with_client authorized read_deletion client_url
  delete_client uuid = with_client uuid λ client.
      authorized Method.delete (client_url realm audience uuid) none (read_deletion client)

  -- `set_client_enabled`
  unfoldable pub read_enabled : Bool → Reply → Attempt (Outcome Bool)
  read_enabled enabled reply =
      if status_of reply == 204
      then value (found enabled)
      else value (error (http (status_of reply)))

  unfoldable pub set_client_enabled : String → Bool → Action (Outcome Bool)
  unfolding with_client authorized read_enabled client_url
  set_client_enabled uuid enabled = with_client uuid λ _.
      authorized Method.put (client_url realm audience uuid)
        (some (Json.obj (field "enabled" (Json.bool enabled) end))) (read_enabled enabled)
