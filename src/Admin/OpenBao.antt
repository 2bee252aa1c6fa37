-- ===== src/Admin/OpenBao.antt =====
-- admin/openbao_client.py: the mirror of the partner clients' secrets in OpenBao.
use agent_embassy.Prelude.{
  ℕ, String, Bool, true, false, not, ◌&&◌, ◌||◌, Option, none, some, ◌==◌, if◌then◌else◌,
}
use agent_embassy.Python.Text.{is_empty, ◌+++◌}
use agent_embassy.Python.Json.{Json, Fields, end, field, get_field, truthy}
use agent_embassy.Python.Attempt
use agent_embassy.Python.Attempt.{Attempt, value, fields_of, fields_or_empty, loads}
use agent_embassy.Admin.Http.{
  Method, Reply, Action, pure, attempt, request, status_of, body_of, ◌>>=◌,
}
pub mod Mirror

-- The `error` of a result, a constructor for each text.
pub data Problem : Type 0 where
  empty_secret unparseable no_secret : Problem
  http : (status : ℕ) → Problem

-- `WriteResult` and `ReadResult`, a constructor for each combination of their flags that occurs.
pub data Outcome (A : Type 0) : Type 0 where
  done : A → Outcome A
  skipped not_found : Outcome A
  error : Problem → Outcome A

pub record Settings : Type 0 where
  pub address : String
  pub token : String

-- `configured`
abbrev pub configured : Settings → Bool
configured s = not (is_empty s.address) && not (is_empty s.token)

-- `_data_url`, `_metadata_url`
abbrev pub data_url : String → String
data_url client_id = "/v1/secret/data/tier2-clients/" +++ client_id

abbrev pub metadata_url : String → String
metadata_url client_id = "/v1/secret/metadata/tier2-clients/" +++ client_id

-- `{"client_secret": secret, "keycloak_uuid": keycloak_uuid}`
abbrev pub entry : Json → Json → Json
entry secret keycloak_uuid =
    Json.obj (field "client_secret" secret (field "keycloak_uuid" keycloak_uuid end))

abbrev pub written : Reply → Outcome (Unit {0})
written reply =
    if status_of reply == 200 || status_of reply == 204
    then done tt
    else error (http (status_of reply))

abbrev pub is_given : Option Json → Bool
is_given none = false
is_given (some secret) = truthy secret

abbrev pub given : Option Json → Json
given none = Json.null
given (some secret) = secret

-- `write_client_secret`
unfoldable pub write_client_secret :
    Settings → String → Option Json → Json → Action (Outcome (Unit {0}))
write_client_secret settings client_id secret keycloak_uuid =
    if not (configured settings)
    then pure skipped
    else if not (is_given secret)
    then pure (error empty_secret)
    else (do
      reply ←
          request Method.post (data_url client_id)
            (some (Json.obj (field "data" (entry (given secret) keycloak_uuid) end)))
      pure (written reply))

abbrev client_secret : Option Json → Outcome Json
client_secret none = error no_secret
client_secret (some Json.null) = error no_secret
client_secret (some secret) = done secret

-- `(parsed.get("data") or {}).get("data") or {}`, and the secret in it.
unfoldable pub read_entry : Json → Attempt (Outcome Json)
unfolding get_field
read_entry parsed = Attempt.◌>>=◌ (fields_of parsed) λ fields.
    Attempt.◌>>=◌ (fields_or_empty (get_field fields "data")) λ outer.
      Attempt.◌>>=◌ (fields_or_empty (get_field outer "data"))
        λ inner. value (client_secret (get_field inner "client_secret"))

unfoldable pub read_reply : Reply → Attempt (Outcome Json)
unfolding read_entry
read_reply reply =
    if status_of reply == 404
    then value not_found
    else if not (status_of reply == 200)
    then value (error (http (status_of reply)))
    else Attempt.◌>>=◌ (loads (body_of reply))
        (λ found. elim found [ none ↦ value (error unparseable) | some parsed ↦ read_entry parsed ])

-- `read_client_secret`
unfoldable pub read_client_secret : Settings → String → Action (Outcome Json)
unfolding read_reply
read_client_secret settings client_id =
    if not (configured settings)
    then pure skipped
    else (do reply ← request Method.get (data_url client_id) none; attempt (read_reply reply))

abbrev deleted : Reply → Outcome (Unit {0})
deleted reply = if status_of reply == 404 then done tt else written reply

-- `delete_client_secret`
unfoldable pub delete_client_secret : Settings → String → Action (Outcome (Unit {0}))
delete_client_secret settings client_id =
    if not (configured settings)
    then pure skipped
    else (do reply ← request Method.delete (metadata_url client_id) none; pure (deleted reply))
