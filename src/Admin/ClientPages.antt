-- ===== src/Admin/ClientPages.antt =====
-- admin/main.py: the pages of the partner clients, which go through Keycloak, OpenBao and the gateway.
-- What a template shows is represented by what it is given.
pub mod Grants
pub mod Mirrored
use Prim.Native.Char.{code}
use Prim.Native.String
use agent_embassy.Prelude.{
  ℕ, zero, suc, ◌+◌, ◌-◌, ◌*◌, String, Bool, true, false, not, ◌&&◌, ◌||◌, Option, none, some, List,
  [], ◌∷◌, leb, ◌==◌, str_eq, if◌then◌else◌,
}
use agent_embassy.Prelude.Int.{ℤ, pos, negsuc}
use agent_embassy.Python.Text.{◌+++◌}
use agent_embassy.Python.Json.{Json, truthy}
use agent_embassy.Python.Attempt.{Attempt, value, exception}
use agent_embassy.Admin.Http.{Action, pure, attempt, ◌>>=◌}
use agent_embassy.Admin.Keycloak.{
  ClientInfo, Outcome, found, not_found, error, list_clients, get_client,
}
use agent_embassy.Admin.Keycloak.Manage.{
  get_secret, regenerate_secret, delete_client, set_client_enabled,
}
use agent_embassy.Admin.Keycloak
use agent_embassy.Admin.Keycloak.Create.{create_client}
use agent_embassy.Admin.OpenBao.{Settings, write_client_secret, delete_client_secret}
use agent_embassy.Admin.OpenBao
use agent_embassy.Admin.Tier3.{get_grant, set_grant, revoke_grant}
use agent_embassy.Admin.Tier3
use agent_embassy.Admin.Schema.{Form, input}

-- The error that a page shows.
pub data PageError : Type 0 where
  keycloak : Keycloak.Problem → PageError
  gateway : Tier3.Problem → PageError
  bad_client_id bad_limit : PageError

-- What `_render_client_detail` hands to its template.
pub record Detail : Type 0 where
  pub client : Option ClientInfo
  pub error : Option PageError
  pub secret : Option Json
  pub tier3_grant : Option Tier3.Result
  pub openbao_warning : Bool

pub data Page : Type 0 where
  clients_page : List ClientInfo → Option PageError → Page
  create_page : (client_id name : String) → PageError → Page
  detail_page : (status : ℕ) → Detail → Page
  redirect : (location : String) → Page
  no_such_client : Page

is_letter_or_digit : ℕ → Bool
is_letter_or_digit c =
    (leb b'A' c && leb c b'Z') || (leb b'a' c && leb c b'z') || (leb b'0' c && leb c b'9')

-- `[A-Za-z0-9._-]{0,254}$`, with `n` as the bound.
id_rest : ℕ → String → Bool
unfolding is_letter_or_digit
id_rest n String.[] = true
id_rest zero (String.◌∷◌ c s) = false
id_rest (suc n) (String.◌∷◌ c s) =
    (is_letter_or_digit (code c) || code c == b'.' || code c == b'_' || code c == b'-')
    && id_rest n s

-- `_CLIENT_ID_RE.match(client_id)`, of a text without white space at its ends.
unfoldable pub is_client_id : String → Bool
unfolding id_rest is_letter_or_digit
is_client_id String.[] = false
is_client_id (String.◌∷◌ c s) = is_letter_or_digit (code c) && id_rest 254 s

-- `weekly_limit_eur * 100`
abbrev pub cents : ℤ → ℤ
cents (pos n) = pos (n * 100)
cents (negsuc n) = negsuc ((n + 1) * 100 - 1)

-- `not (bao_result.ok or bao_result.skipped)`
abbrev pub failed_write : {A : Type 0} → OpenBao.Outcome A → Bool
failed_write (OpenBao.done _) = false
failed_write OpenBao.skipped = false
failed_write OpenBao.not_found = true
failed_write (OpenBao.error _) = true

-- `quote` is `urllib.parse.quote` with no safe characters, `text_of` is `str`, and `int_of` is `int`
-- with none for a ValueError.
module _ (realm audience : String) (settings : Settings) (quote : String → String)
    (text_of : Json → String) (int_of : String → Option ℤ) where
  -- `keycloak_clients_list`
  unfoldable pub keycloak_clients_list : Action Page
  unfolding list_clients
  keycloak_clients_list = do
    result ← list_clients realm audience
    pure (elim result [
      | found clients ↦ clients_page clients none
      | not_found ↦ clients_page [] none
      | error e ↦ clients_page [] (some (keycloak e))
    ])

  -- `quote(client_id, safe="")`, which wants a text.
  abbrev pub quotable : Json → Attempt String
  quotable (Json.str client_id) = value client_id
  quotable _ = exception "TypeError"

  -- `tier3_client.get_grant(client.client_id) if client else None`
  unfoldable pub grant_of : Option ClientInfo → Action (Option Tier3.Result)
  unfolding get_grant
  grant_of none = pure none
  grant_of (some client) = attempt (quotable client.client_id) >>= λ client_id.
      get_grant quote client_id >>= λ grant. pure (some grant)

  abbrev pub with_grant :
      ℕ → Option ClientInfo → Option PageError → Option Json → Bool → Option Tier3.Result → Page
  with_grant status client problem secret warning grant = detail_page status (record {
    client = client;
    error = problem;
    secret = secret;
    tier3_grant = grant;
    openbao_warning = warning;
  })

  -- `_render_client_detail`
  unfoldable pub render_client_detail :
      ℕ → Option ClientInfo → Option PageError → Option Json → Bool → Action Page
  unfolding grant_of
  render_client_detail status client problem secret warning =
      grant_of client >>= λ grant. pure (with_grant status client problem secret warning grant)

  -- The page of a client that could not be fetched.
  abbrev pub error_page : ℕ → Keycloak.Problem → Action Page
  error_page status e = render_client_detail status none (some (keycloak e)) none false

  abbrev pub client_page : String → String
  client_page uuid = "/keycloak-clients/" +++ uuid

  abbrev pub after_create : String → String → Outcome (ClientInfo × Option Json) → Action Page
  after_create client_id name (found (client, secret)) =
      write_client_secret settings (text_of client.client_id) secret client.uuid >>= λ written.
      pure (
        redirect (
          client_page (text_of client.uuid)
          +++ (if failed_write written then "?openbao_warning=1" else "")))
  after_create client_id name not_found =
      pure (create_page client_id name (keycloak Keycloak.not_refetched))
  after_create client_id name (error e) = pure (create_page client_id name (keycloak e))

  -- `keycloak_client_create`
  unfoldable pub keycloak_client_create : Form → Action Page
  unfolding is_client_id create_client write_client_secret
  keycloak_client_create form =
      let client_id = input form "client_id" in
      let name = input form "name" in
      if not (is_client_id client_id)
      then pure (create_page client_id name bad_client_id)
      else create_client realm audience client_id name >>= after_create client_id name

  abbrev pub show_detail : Bool → Outcome ClientInfo → Action Page
  show_detail warning (found client) = render_client_detail 200 (some client) none none warning
  show_detail warning not_found = pure no_such_client
  show_detail warning (error e) = render_client_detail 502 none (some (keycloak e)) none warning

  -- `keycloak_client_detail`, where `warning` is `openbao_warning == "1"` of the query.
  unfoldable pub keycloak_client_detail : String → Bool → Action Page
  unfolding get_client render_client_detail
  keycloak_client_detail uuid warning = get_client realm audience uuid >>= show_detail warning

  -- The write-through of a secret that was fetched: whether to warn.
  unfoldable pub write_through : String → ClientInfo → Option Json → Action Bool
  unfolding write_client_secret
  write_through uuid client none = pure false
  write_through uuid client (some secret) =
      if truthy secret
      then (write_client_secret settings (text_of client.client_id) (some secret) (Json.str uuid)
          >>= λ written. pure (failed_write written))
      else pure false

  unfoldable pub show_secret : String → ClientInfo → Outcome (Option Json) → Action Page
  unfolding write_through render_client_detail
  show_secret uuid client (found secret) =
      write_through uuid client secret >>= render_client_detail 200 (some client) none secret
  show_secret uuid client not_found = pure no_such_client
  show_secret uuid client (error e) =
      render_client_detail 502 (some client) (some (keycloak e)) none false

  -- What a page does with a client that was found.
  unfoldable pub on_client : (ClientInfo → Action Page) → Outcome ClientInfo → Action Page
  unfolding render_client_detail
  on_client act (found client) = act client
  on_client act not_found = pure no_such_client
  on_client act (error e) = error_page 502 e

  -- `keycloak_client_reveal_secret`
  unfoldable pub keycloak_client_reveal_secret : String → Action Page
  unfolding get_client get_secret on_client show_secret
  keycloak_client_reveal_secret uuid =
      get_client realm audience uuid
      >>= on_client λ client. get_secret realm audience uuid >>= show_secret uuid client

  -- `keycloak_client_regenerate_secret`
  unfoldable pub keycloak_client_regenerate_secret : String → Action Page
  unfolding get_client regenerate_secret on_client show_secret
  keycloak_client_regenerate_secret uuid =
      get_client realm audience uuid
      >>= on_client λ client. regenerate_secret realm audience uuid >>= show_secret uuid client

  abbrev pub after_delete : Outcome Json → Action Page
  after_delete (found client_id) =
      if truthy client_id
      then delete_client_secret settings (text_of client_id)
        >>= (λ deleted. pure (redirect "/keycloak-clients"))
      else pure (redirect "/keycloak-clients")
  after_delete not_found = pure no_such_client
  after_delete (error e) = error_page 502 e

  -- `keycloak_client_delete`
  unfoldable pub keycloak_client_delete : String → Action Page
  unfolding delete_client delete_client_secret render_client_detail
  keycloak_client_delete uuid = delete_client realm audience uuid >>= after_delete

  abbrev pub after_set : String → Outcome Bool → Action Page
  after_set uuid (found enabled) = pure (redirect (client_page uuid))
  after_set uuid not_found = pure no_such_client
  after_set uuid (error e) = error_page 502 e

  -- `_set_enabled`
  unfoldable pub set_enabled : String → Bool → Action Page
  unfolding set_client_enabled render_client_detail
  set_enabled uuid enabled = set_client_enabled realm audience uuid enabled >>= after_set uuid
