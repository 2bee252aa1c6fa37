-- ===== src/Admin/Keycloak/Shape.antt =====
-- What `create_client` makes is a client that this interface manages.
use agent_embassy.Prelude.{String, ◌≡◌, true, false, str_eq, str_eq_refl, any}
use agent_embassy.Python.Json.{Json}
use agent_embassy.Python.Attempt.{value}
use agent_embassy.Admin.Keycloak.{builtin_client_ids, has_audience_mapper, is_partner_client}
use agent_embassy.Admin.Keycloak.Create.{new_client}

-- The representation that is posted for a new client has the mapper of the audience and, if its id
-- is not one of Keycloak's own, is recognised as a partner client.
new_client-recognised :
    (realm audience client_id name : String)
    → any (λ b. str_eq b client_id) builtin_client_ids ≡ false
    → (has_audience_mapper realm audience (new_client realm audience client_id name) ≡ value true)
      × (is_partner_client realm audience (Json.obj (new_client realm audience client_id name))
          ≡ value true)
unfolding new_client has_audience_mapper is_partner_client
new_client-recognised realm audience client_id name own = (rw (str_eq_refl audience), rw own)
