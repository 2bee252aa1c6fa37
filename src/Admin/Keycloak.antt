-- ===== src/Admin/Keycloak.antt =====
-- admin/keycloak_client.py: the partner clients, managed through Keycloak's administration interface.
pub mod Create
pub mod Manage
pub mod Shape
pub mod Guard
use Prim.Native.Char.{code}
use Prim.Native.String
use agent_embassy.Prelude.{
  ℕ, String, Bool, true, false, not, ◌&&◌, ◌||◌, Option, none, some, List, [], ◌∷◌, leb, ◌==◌,
  str_eq, any, if◌then◌else◌,
}
use agent_embassy.Python.Text.{is_empty, ◌+++◌}
use agent_embassy.Python.Json.{
  Json, Items, Fields, Body, nil, cons, end, field, get_field, truthy, is_true, is_false,
  equals_text,
}
use agent_embassy.Python.Attempt
use agent_embassy.Python.Attempt.{
  Attempt, value, exception, fields_of, fields_or_empty, items_of, items_or_empty, loads,
}
use agent_embassy.Admin.Http.{
  Method, Reply, Action, response, unreachable, failed, pure, attempt, request, status_of, body_of,
  ◌>>=◌,
}

-- `ClientInfo`, whose first three fields are what Keycloak's representation holds there.
pub record ClientInfo : Type 0 where
  pub uuid : Json
  pub client_id : Json
  pub name : Json
  pub enabled : Bool
  pub has_audience_mapper : Bool

-- The errors of `_admin_token`.
pub data TokenError : Type 0 where
  refused : (status : ℕ) → TokenError
  not_reached no_token other : TokenError

-- The `error` of a result: a constructor for each text, with what is put into it.
pub data Problem : Type 0 where
  no_admin : TokenError → Problem
  http : (status : ℕ) → Problem
  unparseable : Problem
  already_exists : (client_id : String) → Problem
  no_id not_refetched : Problem

-- The result dataclasses, a constructor for each combination of `ok`, `not_found` and `error` that
-- occurs. `DetailResult`, `SecretResult`, `DeleteResult` and `EnabledResult` have all three.
pub data Outcome (A : Type 0) : Type 0 where
  found : A → Outcome A
  not_found : Outcome A
  error : Problem → Outcome A

-- `_BUILTIN_CLIENT_IDS`
abbrev pub builtin_client_ids : List String
builtin_client_ids =
    "account" ∷ "account-console" ∷ "admin-cli" ∷ "broker" ∷ "realm-management"
    ∷ "security-admin-console" ∷ "agent-embassy-tier2" ∷ []

-- `_admin_token`: what it makes of the reply. Only a status from 200 to 299 is no `HTTPError`.
pub data Token : Type 0 where
  token : Json → Token
  refusal : TokenError → Token

abbrev access_token : Option Json → Token
access_token none = refusal TokenError.other
access_token (some Json.null) = refusal TokenError.no_token
access_token (some t) = token t

unfoldable pub read_token : Reply → Token
unfolding get_field
read_token unreachable = refusal TokenError.not_reached
read_token failed = refusal TokenError.other
read_token (response status location (Body.json (Json.obj fields))) =
    if leb 200 status && leb status 299
    then access_token (get_field fields "access_token")
    else refusal (TokenError.refused status)
read_token (response status location _) =
    if leb 200 status && leb status 299
    then refusal TokenError.other
    else refusal (TokenError.refused status)

abbrev pub token_url : String
token_url = "/realms/master/protocol/openid-connect/token"

unfoldable pub admin_token : Action Token
unfolding read_token
admin_token = do reply ← request Method.post token_url none; pure (read_token reply)

module _ (realm audience : String) where
  clients_url : String
  clients_url = "/admin/realms/" +++ realm +++ "/clients"

  pub client_url : String → String
  unfolding clients_url
  client_url uuid = clients_url +++ "/" +++ uuid

  pub secret_url : String → String
  unfolding client_url
  secret_url uuid = client_url uuid +++ "/client-secret"

  -- One round of the loop of `_has_audience_mapper`.
  unfoldable pub mints_audience : Fields → Attempt Bool
  unfolding get_field
  mints_audience mapper =
      if equals_text (get_field mapper "protocolMapper") "oidc-audience-mapper"
      then Attempt.◌>>=◌ (fields_or_empty (get_field mapper "config")) (λ config. value (
          equals_text (get_field config "included.custom.audience") audience
          && equals_text (get_field config "access.token.claim") "true"))
      else value false

  unfoldable pub any_mapper : Items → Attempt Bool
  unfolding mints_audience
  any_mapper nil = value false
  any_mapper (cons mapper mappers) =
      let rest = any_mapper mappers in
      Attempt.◌>>=◌ (fields_of mapper)
        λ fields. Attempt.◌>>=◌ (mints_audience fields) λ hit. if hit then value true else rest

  -- `_has_audience_mapper`
  unfoldable pub has_audience_mapper : Fields → Attempt Bool
  unfolding any_mapper get_field
  has_audience_mapper rep =
      Attempt.◌>>=◌ (items_or_empty (get_field rep "protocolMappers")) any_mapper

  -- `value in _BUILTIN_CLIENT_IDS`; a list and a dict cannot be looked up in a set.
  unfoldable pub is_builtin : Option Json → Attempt Bool
  is_builtin (some (Json.str id)) = value (any (λ b. str_eq b id) builtin_client_ids)
  is_builtin (some (Json.arr _)) = exception "TypeError"
  is_builtin (some (Json.obj _)) = exception "TypeError"
  is_builtin _ = value false

  -- The shape of a partner client.
  unfoldable pub has_partner_shape : Fields → Bool
  unfolding get_field
  has_partner_shape rep =
      is_false (get_field rep "publicClient")
      && is_true (get_field rep "serviceAccountsEnabled")
      && is_false (get_field rep "standardFlowEnabled")
      && is_false (get_field rep "implicitFlowEnabled")
      && is_false (get_field rep "directAccessGrantsEnabled")

  -- `_is_partner_client`
  unfoldable pub is_partner_client : Json → Attempt Bool
  unfolding has_partner_shape is_builtin get_field
  is_partner_client rep = Attempt.◌>>=◌ (fields_of rep) λ fields.
      Attempt.◌>>=◌ (is_builtin (get_field fields "clientId"))
        λ builtin. value (not builtin && has_partner_shape fields)

  -- `rep[key]`
  abbrev pub required : Fields → String → Attempt Json
  required fields key = elim (get_field fields key) [
    | none ↦ exception "KeyError"
    | some v ↦ value v
  ]

  abbrev pub or_id : Option Json → Json → Json
  or_id none id = id
  or_id (some name) id = if truthy name then name else id

  abbrev pub holds : Option Json → Bool
  holds none = false
  holds (some v) = truthy v

  -- `_to_client_info`
  unfoldable pub to_client_info : Fields → Attempt ClientInfo
  unfolding get_field has_audience_mapper
  to_client_info rep = Attempt.◌>>=◌ (required rep "id") λ uuid.
      Attempt.◌>>=◌ (required rep "clientId") λ client_id.
        Attempt.◌>>=◌ (has_audience_mapper rep) λ mapper. value (record {
          uuid = uuid;
          client_id = client_id;
          name = or_id (get_field rep "name") client_id;
          enabled = holds (get_field rep "enabled");
          has_audience_mapper = mapper;
        })

  -- The list comprehension of `list_clients`.
  unfoldable pub partner_infos : Items → Attempt (List ClientInfo)
  unfolding is_partner_client to_client_info
  partner_infos nil = value []
  partner_infos (cons rep reps) =
      let rest = partner_infos reps in
      Attempt.◌>>=◌ (is_partner_client rep) λ partner.
        if partner
        then Attempt.◌>>=◌ (fields_of rep) (λ fields.
          Attempt.◌>>=◌ (to_client_info fields)
            λ info. Attempt.◌>>=◌ rest λ infos. value (info ∷ infos))
        else rest

  -- What a function does with the JSON of a reply: `json.loads` under its `except` clause.
  abbrev pub parsed : {A : Type 0} → Body → (Json → Attempt (Outcome A)) → Attempt (Outcome A)
  parsed body use_it =
      Attempt.◌>>=◌ (loads body)
        λ found. elim found [ none ↦ value (error unparseable) | some v ↦ use_it v ]

  -- `list_clients`
  unfoldable pub read_list : Reply → Attempt (Outcome (List ClientInfo))
  unfolding partner_infos
  read_list reply =
      if status_of reply == 200
      then parsed (body_of reply) (λ reps.
        Attempt.◌>>=◌ (items_of reps)
          λ items. Attempt.◌>>=◌ (partner_infos items) λ infos. value (found infos))
      else value (error (http (status_of reply)))

  unfoldable pub list_with : Token → Action (Outcome (List ClientInfo))
  unfolding read_list clients_url
  list_with (refusal e) = pure (error (no_admin e))
  list_with (token t) = do reply ← request Method.get clients_url none; attempt (read_list reply)

  unfoldable pub list_clients : Action (Outcome (List ClientInfo))
  unfolding list_with
  list_clients = do t ← admin_token; list_with t

  -- `get_client`
  unfoldable pub read_client : Json → Attempt (Outcome ClientInfo)
  unfolding is_partner_client to_client_info
  read_client rep = Attempt.◌>>=◌ (is_partner_client rep) λ partner.
      if partner
      then Attempt.◌>>=◌ (fields_of rep)
          (λ fields. Attempt.◌>>=◌ (to_client_info fields) λ info. value (found info))
      else value not_found

  unfoldable pub read_detail : Reply → Attempt (Outcome ClientInfo)
  unfolding read_client
  read_detail reply =
      if status_of reply == 404
      then value not_found
      else if status_of reply == 200
      then parsed (body_of reply) read_client
      else value (error (http (status_of reply)))

  unfoldable pub get_with : String → Token → Action (Outcome ClientInfo)
  unfolding read_detail client_url
  get_with uuid (refusal e) = pure (error (no_admin e))
  get_with uuid (token t) = do
    reply ← request Method.get (client_url uuid) none
    attempt (read_detail reply)

  unfoldable pub get_client : String → Action (Outcome ClientInfo)
  unfolding get_with
  get_client uuid = do t ← admin_token; get_with uuid t
