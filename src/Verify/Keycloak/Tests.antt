-- ===== src/Verify/Keycloak/Tests.antt =====
-- A call of Tier 2 with a token that the library decodes.
use agent_embassy.Prelude.{String, refl, none, some, List}
use agent_embassy.Python.Json.{Json, Fields, field, end, get_field}
use agent_embassy.Python.Text.{strip, starts_with, remove_prefix}
use agent_embassy.Python.Attempt.{Attempt, value}
use agent_embassy.Verify.Requests.{Request, bearer_token}
use agent_embassy.Verify.Sessions.{check_tier2, tier2_token, tier2_claims, verified_client}
use agent_embassy.Verify.Tests.{world}
use agent_embassy.Verify.Keycloak.{
  JwksClient, settings_of, validate_access_token, IsValidated, check_tier2-IsValidated,
}

abbrev signing_key : JwksClient → String → Attempt (Unit {0})
signing_key client token = value tt

abbrev decode :
    String → Unit {0} → (algorithms : List String) → (issuer audience : String) → Attempt Fields
decode token key algorithms issuer audience = value (field "azp" (Json.str "shop") end)

abbrev request : Request
request = record {
  forwarded_for = none;
  peer_host = some "10.0.0.1";
  authorization = some "Bearer t0k";
  ssl_client_verify = some "SUCCESS";
}

check_tier2-IsValidated_example :
    IsValidated signing_key decode (settings_of (λ _. none)) none request
unfolding check_tier2 tier2_token tier2_claims validate_access_token verified_client get_field
    bearer_token strip starts_with remove_prefix
check_tier2-IsValidated_example =
    check_tier2-IsValidated signing_key decode (settings_of (λ _. none)) none request world "shop"
      refl
