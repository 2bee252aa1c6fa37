-- ===== src/Verify/Sessions.antt =====
-- verify/main.py: Tier 1 (`issue_challenge` to `check_session` of the class `Store`, the endpoints
-- /tier1/challenge, /tier1/verify, /tier1/check and /tier1/admin-config) and the check of Tier 2.
pub mod Control
pub mod Verified
use agent_embassy.Prelude.{
  ℕ, ◌+◌, String, Bool, true, false, ◌&&◌, not, Option, none, some, ltb, ◌==◌, if◌then◌else◌,
  str_eq,
}
use agent_embassy.Prelude.Dict.{get, put, remove}
use agent_embassy.Python.Json.{Json, Fields, get_field}
use agent_embassy.Python.Text.{strip}
use agent_embassy.Verify.Store.{Store}
use agent_embassy.Verify.Action.{
  Action, ok, rest, pure, raise, gets, modify, time, random_token, require, ◌>>=◌, ◌>>◌,
}
use agent_embassy.Verify.Requests.{
  Request, client_ip, bearer_token, check_rate_limit, require_internal_admin,
}
use agent_embassy.Verify.Orders.{is_success}
use agent_embassy.Verify.Domain.{
  Validated, valid, refused, invalid_domain, value_error, validate_domain,
}

-- `Store.issue_challenge`
unfoldable pub issue_challenge : String → Action (String × ℕ)
issue_challenge domain = do
  token ← random_token
  now ← time
  ttl ← gets (λ s. s.challenge_ttl_seconds)
  modify (λ s. record s { challenges = put s.challenges domain (token, now + ttl) })
  pure (token, now + ttl)

abbrev pub drop_challenge : String → Store → Store
drop_challenge domain s = record s { challenges = remove s.challenges domain }

abbrev pub drop_session : String → Store → Store
drop_session token s = record s { sessions = remove s.sessions token }

unfoldable pub expire_challenge : String → Action (Option String)
expire_challenge domain = do modify (drop_challenge domain); pure none

unfoldable pub pending_token : String → Option (String × ℕ) → Action (Option String)
unfolding expire_challenge
pending_token domain none = pure none
pending_token domain (some (token, expires_at)) = do
  now ← time
  if ltb expires_at now then expire_challenge domain else pure (some token)

-- `Store.get_pending_challenge`
unfoldable pub get_pending_challenge : String → Action (Option String)
unfolding pending_token
get_pending_challenge domain = do
  entry ← gets (λ s. get s.challenges domain)
  pending_token domain entry

-- `Store.issue_session`
unfoldable pub issue_session : String → Action (String × ℕ)
issue_session domain = do
  token ← random_token
  now ← time
  ttl ← gets (λ s. s.session_ttl_seconds)
  modify (λ s. record s { sessions = put s.sessions token (domain, now + ttl) })
  modify (drop_challenge domain)
  pure (token, now + ttl)

unfoldable pub expire_session : String → Action (Option String)
expire_session token = do modify (drop_session token); pure none

unfoldable pub session_domain : String → Option (String × ℕ) → Action (Option String)
unfolding expire_session
session_domain token none = pure none
session_domain token (some (domain, expires_at)) = do
  now ← time
  if ltb expires_at now then expire_session token else pure (some domain)

-- `Store.check_session`
unfoldable pub check_session : String → Action (Option String)
unfolding session_domain
check_session token = do entry ← gets (λ s. get s.sessions token); session_domain token entry

-- The answers of the two public endpoints.
pub record ChallengeReply : Type 0 where
  pub domain : String
  pub token : String
  pub well_known_path : String
  pub expires_in : ℕ
  pub expires_at : ℕ

pub record SessionReply : Type 0 where
  pub session_token : String
  pub domain : String
  pub expires_in : ℕ
  pub expires_at : ℕ

abbrev pub validated : Validated → Action String
validated (valid domain) = pure domain
validated (refused (invalid_domain text)) = raise 400 text
validated (refused value_error) = raise 500 "ValueError"

-- The file that a challenged host serves: the next fetch of the outside world.
unfoldable pub fetch_challenge_file : String → Action (Option (ℕ × String))
fetch_challenge_file domain w = (
  ok (w.outside.fetches 0 domain),
  record w { outside = record w.outside { fetches = rest w.outside.fetches } },
)

-- The fetched file must be served with a 200 and hold the token of the pending challenge.
unfoldable pub confirm_control : String → Option (ℕ × String) → Action (Unit {0})
confirm_control expected none = raise 502 "could not verify domain control"
confirm_control expected (some (status, body)) =
    require (status == 200 && str_eq (strip body) expected) 403
      "domain control could not be confirmed"

unfoldable pub pending_or_404 : Option String → Action String
pending_or_404 none = raise 404 "no pending challenge for this domain, or it expired"
pending_or_404 (some token) = pure token

-- From a valid domain on: the pending challenge, the fetch and the comparison.
unfoldable pub prove_control : String → Action (Unit {0})
unfolding pending_or_404 confirm_control fetch_challenge_file
prove_control domain = do
  pending ← get_pending_challenge domain
  expected ← pending_or_404 pending
  fetched ← fetch_challenge_file domain
  confirm_control expected fetched

module _ (lower_wide : String → String) (is_ip : String → Bool) where
  -- `create_challenge`
  unfoldable pub create_challenge : String → Request → Action ChallengeReply
  unfolding issue_challenge
  create_challenge claimed request = do
    most ← gets (λ s. s.challenge_rate_limit_max)
    window ← gets (λ s. s.challenge_rate_limit_window)
    allowed ← check_rate_limit "challenge" (client_ip request) most window
    require allowed 429 "too many challenge requests, slow down"
    domain ← validated (validate_domain lower_wide is_ip claimed)
    issued ← issue_challenge domain
    ttl ← gets (λ s. s.challenge_ttl_seconds)
    pure (record {
      domain = domain;
      token = issued.0;
      well_known_path = "/.well-known/agent-embassy-challenge.txt";
      expires_in = ttl;
      expires_at = issued.1;
    })

  -- `verify_challenge`
  unfoldable pub verify_challenge : String → Request → Action SessionReply
  unfolding prove_control issue_session
  verify_challenge claimed request = do
    most ← gets (λ s. s.verify_rate_limit_max)
    window ← gets (λ s. s.verify_rate_limit_window)
    allowed ← check_rate_limit "verify" (client_ip request) most window
    require allowed 429 "too many verify requests, slow down"
    domain ← validated (validate_domain lower_wide is_ip claimed)
    prove_control domain
    issued ← issue_session domain
    ttl ← gets (λ s. s.session_ttl_seconds)
    pure (record {
      session_token = issued.0;
      domain = domain;
      expires_in = ttl;
      expires_at = issued.1;
    })

unfoldable pub session_or_401 : Option String → Action String
session_or_401 none = raise 401 "invalid or expired session token"
session_or_401 (some domain) = pure domain

unfoldable pub token_session : Option String → Action String
unfolding session_or_401 check_session
token_session none = raise 401 "missing bearer session token"
token_session (some token) = do domain ← check_session token; session_or_401 domain

-- The endpoint /tier1/check; the answer is the header X-Verified-Domain.
unfoldable pub check_session_endpoint : Option String → Action String
unfolding token_session
check_session_endpoint authorization = token_session (bearer_token authorization)

-- The header X-Verified-Client: `claims.get("azp", claims.get("sub", ""))`.
abbrev pub text_claim : Option Json → String → String
text_claim (some (Json.str s)) other = s
text_claim _ other = other

unfoldable pub verified_client : Fields → String
unfolding get_field
verified_client fields =
    text_claim (get_field fields "azp") (text_claim (get_field fields "sub") "")

unfoldable pub tier2_claims : Option Fields → Action String
unfolding verified_client
tier2_claims none = raise 401 "invalid or expired access token"
tier2_claims (some fields) = pure (verified_client fields)

unfoldable pub tier2_token : (String → Option Fields) → Option String → Action String
unfolding tier2_claims
tier2_token validate none = raise 401 "missing bearer access token"
tier2_token validate (some token) = tier2_claims (validate token)

-- `check_tier2`; `validate` is `validate_access_token`, where `none` is its `InvalidToken`.
unfoldable pub check_tier2 : (String → Option Fields) → Request → Action String
unfolding tier2_token
check_tier2 validate request = do
  require (is_success request.ssl_client_verify) 401 "client certificate not verified"
  tier2_token validate (bearer_token request.authorization)

-- `Tier1ConfigUpdate`, with the values that its bounds let through, and `_tier1_config_dict`
pub record Tier1Config : Type 0 where
  pub challenge_ttl_seconds : ℕ
  pub session_ttl_seconds : ℕ
  pub challenge_rate_limit_max : ℕ
  pub challenge_rate_limit_window : ℕ
  pub verify_rate_limit_max : ℕ
  pub verify_rate_limit_window : ℕ

unfoldable pub tier1_config_dict : Store → Tier1Config
tier1_config_dict s = record {
  challenge_ttl_seconds = s.challenge_ttl_seconds;
  session_ttl_seconds = s.session_ttl_seconds;
  challenge_rate_limit_max = s.challenge_rate_limit_max;
  challenge_rate_limit_window = s.challenge_rate_limit_window;
  verify_rate_limit_max = s.verify_rate_limit_max;
  verify_rate_limit_window = s.verify_rate_limit_window;
}

unfoldable pub apply_config : Tier1Config → Store → Store
apply_config c s = record s {
  challenge_ttl_seconds = c.challenge_ttl_seconds;
  session_ttl_seconds = c.session_ttl_seconds;
  challenge_rate_limit_max = c.challenge_rate_limit_max;
  challenge_rate_limit_window = c.challenge_rate_limit_window;
  verify_rate_limit_max = c.verify_rate_limit_max;
  verify_rate_limit_window = c.verify_rate_limit_window;
}

-- `get_tier1_admin_config`, `update_tier1_admin_config`
unfoldable pub get_tier1_admin_config : String → Option String → Action Tier1Config
unfolding tier1_config_dict
get_tier1_admin_config admin_token given = do
  require_internal_admin admin_token given
  gets tier1_config_dict

unfoldable pub update_tier1_admin_config : String → Option String → Tier1Config → Action Tier1Config
unfolding tier1_config_dict apply_config
update_tier1_admin_config admin_token given config = do
  require_internal_admin admin_token given
  modify (apply_config config)
  gets tier1_config_dict
