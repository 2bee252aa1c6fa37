-- ===== src/Admin/ClientPages/Grants.antt =====
-- admin/main.py: the pages that set and revoke the grant of a partner client.
use agent_embassy.Prelude.{String, Option, none, some, false}
use agent_embassy.Prelude.Int.{ℤ}
use agent_embassy.Python.Json.{Json}
use agent_embassy.Admin.Http.{Action, pure, attempt, ◌>>=◌}
use agent_embassy.Admin.Keycloak.{ClientInfo, Outcome, found, not_found, error, get_client}
use agent_embassy.Admin.OpenBao.{Settings}
use agent_embassy.Admin.Tier3
use agent_embassy.Admin.Tier3.{set_grant, revoke_grant}
use agent_embassy.Admin.Schema.{Form, input}
use agent_embassy.Admin.ClientPages.{
  PageError, gateway, bad_limit, Page, redirect, cents, render_client_detail, client_page,
  on_client, quotable,
}

module _ (realm audience : String) (settings : Settings) (quote : String → String)
    (text_of : Json → String) (int_of : String → Option ℤ) where
  -- `detail.client` of a second `get_client`, in the page of an error.
  abbrev pub client_of : Outcome ClientInfo → Option ClientInfo
  client_of (found client) = some client
  client_of not_found = none
  client_of (error e) = none

  unfoldable pub grant_error_page : String → PageError → Action Page
  unfolding get_client render_client_detail
  grant_error_page uuid problem = get_client realm audience uuid >>= λ detail.
      render_client_detail realm audience settings quote text_of int_of 400 (client_of detail)
        (some problem) none false

  abbrev pub after_grant : String → Tier3.Result → Action Page
  after_grant uuid (Tier3.done grant) =
      pure (redirect (client_page realm audience settings quote text_of int_of uuid))
  after_grant uuid (Tier3.error e) = grant_error_page uuid (gateway e)

  abbrev pub grant_limit : String → ClientInfo → Option ℤ → Action Page
  grant_limit uuid client none = grant_error_page uuid bad_limit
  grant_limit uuid client (some euros) =
      attempt (quotable realm audience settings quote text_of int_of client.client_id)
      >>= λ client_id. set_grant quote client_id (cents euros) >>= after_grant uuid

  -- `keycloak_client_tier3_grant_set`, with `_tier3_client_id`
  unfoldable pub keycloak_client_tier3_grant_set : String → Form → Action Page
  unfolding get_client on_client set_grant grant_error_page
  keycloak_client_tier3_grant_set uuid form =
      get_client realm audience uuid
      >>= on_client realm audience settings quote text_of int_of
          λ client. grant_limit uuid client (int_of (input form "weekly_limit_eur"))

  -- `keycloak_client_tier3_grant_revoke`
  unfoldable pub keycloak_client_tier3_grant_revoke : String → Action Page
  unfolding get_client on_client revoke_grant grant_error_page
  keycloak_client_tier3_grant_revoke uuid =
      get_client realm audience uuid
      >>= on_client realm audience settings quote text_of int_of λ client.
        attempt (quotable realm audience settings quote text_of int_of client.client_id)
        >>= λ client_id. revoke_grant quote client_id >>= after_grant uuid
