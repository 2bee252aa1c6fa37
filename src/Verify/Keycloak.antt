-- ===== src/Verify/Keycloak.antt =====
-- verify/keycloak_auth.py: the validation of a Tier 2 token by the keys that Keycloak publishes. The JWT
-- library is a parameter: the key that it finds for a token, and its `decode`.
mod Tests
use agent_embassy.Prelude.{
  ℕ, String, ◌≡◌, refl, ap, arith, Bool, true, Option, none, some, List, [], ◌∷◌, get_or_else, inl,
  inr, Bool-cases, Option-cases,
}
use agent_embassy.Python.Json.{Fields}
use agent_embassy.Python.Attempt.{Attempt, value, exception, ◌>>=◌, bind-value}
use agent_embassy.Verify.Action.{World, ok}
use agent_embassy.Verify.Requests.{Request, bearer_token}
use agent_embassy.Verify.Orders.{is_success}
use agent_embassy.Verify.Sessions.{check_tier2, tier2_token, tier2_claims}

-- `KEYCLOAK_JWKS_URL`, `KEYCLOAK_ISSUER`, `KEYCLOAK_AUDIENCE`
pub record Settings : Type 0 where
  pub jwks_url : String
  pub issuer : String
  pub audience : String

unfoldable pub settings_of : (String → Option String) → Settings
settings_of environ = record {
  jwks_url =
      get_or_else (environ "KEYCLOAK_JWKS_URL")
        "http://keycloak:8080/realms/agent-embassy/protocol/openid-connect/certs";
  issuer = get_or_else (environ "KEYCLOAK_ISSUER") "http://keycloak:8080/realms/agent-embassy";
  audience = get_or_else (environ "TIER2_AUDIENCE") "agent-embassy-tier2";
}

-- What `PyJWKClient` is built with.
pub record JwksClient : Type 0 where
  pub url : String
  pub cache_keys : Bool
  pub lifespan : ℕ

-- `_get_jwks_client`: the client, built at the first call; `none` is the global before it.
unfoldable pub get_jwks_client : Settings → Option JwksClient → JwksClient
get_jwks_client settings none = record {
  url = settings.jwks_url;
  cache_keys = true;
  lifespan = 300;
}
get_jwks_client settings (some client) = client

module _ {Key : Type 0} (signing_key : JwksClient → String → Attempt Key)
    (decode : String
      → Key
      → (algorithms : List String) → (issuer audience : String) → Attempt Fields) where
  -- Every exception is an `InvalidToken`.
  abbrev or_invalid : Attempt Fields → Option Fields
  or_invalid (value claims) = some claims
  or_invalid (exception name) = none

  -- `validate_access_token`, with the global after it.
  unfoldable pub validate_access_token :
      Settings → Option JwksClient → String → Option Fields × JwksClient
  validate_access_token settings global token =
      let client = get_jwks_client settings global in
      (
        or_invalid (
            signing_key client token >>= λ key.
            decode token key ("RS256" ∷ []) settings.issuer settings.audience),
        client,
      )

  or_invalid-some :
      (a : Attempt Fields) (claims : Fields) → or_invalid a ≡ some claims → a ≡ value claims
  or_invalid-some (value c) claims e = ground arith
  or_invalid-some (exception name) claims e = cc

  -- The certificate of the caller was verified, and the library found a key for its bearer token and
  -- decoded the token by it, as an RS256 token of the configured issuer for the configured audience.
  pub record IsValidated (settings : Settings) (global : Option JwksClient) (request : Request)
      : Type 0 where
    pub certified : is_success request.ssl_client_verify ≡ true
    pub token : String
    pub key : Key
    pub claims : Fields
    pub given : bearer_token request.authorization ≡ some token
    pub found : signing_key (get_jwks_client settings global) token ≡ value key
    pub decoded : decode token key ("RS256" ∷ []) settings.issuer settings.audience ≡ value claims

  -- Whoever passes the check of Tier 2 has a verified certificate and a bearer token that the library
  -- decoded with the key that it found for it, as an RS256 token of the configured issuer for the
  -- configured audience.
  pub check_tier2-IsValidated :
      (settings : Settings) (global : Option JwksClient) (request : Request) (w : World)
      (client : String)
      → (check_tier2 (λ t. (validate_access_token settings global t).0) request w).0 ≡ ok client
      → IsValidated settings global request
  unfolding check_tier2 tier2_token tier2_claims validate_access_token
  check_tier2-IsValidated settings global request w client e =
      elim (Bool-cases (is_success request.ssl_client_verify)) [
        | inr unverified ↦ absurd (let wrong = rw unverified at e in cc)
        | inl certified ↦ elim (Option-cases (bearer_token request.authorization)) [
          | inl missing ↦ absurd (let wrong = rw (certified, missing) at e in cc)
          | inr (token, given) ↦
              elim (Option-cases (validate_access_token settings global token).0) [
                | inl invalid ↦ absurd (let wrong = rw (certified, given, invalid) at e in cc)
                | inr (claims, valid) ↦
                    let (key, found, decoded) =
                      bind-value (signing_key (get_jwks_client settings global) token) _ claims
                        (or_invalid-some _ claims valid) in
                    record {
                      certified = certified;
                      token = token;
                      key = key;
                      claims = claims;
                      given = given;
                      found = found;
                      decoded = decoded;
                    }
              ]
        ]
      ]
