-- ===== src/Verify/Requests.antt =====
-- verify/main.py: what the handlers read from a request (`_client_ip`, the bearer token, the
-- validated bodies), the rate limit and the check of the admin token.
pub mod Bursts
use Prim.Native.String
use agent_embassy.Prelude.{
  ℕ, zero, suc, ◌+◌, String, Bool, true, false, ◌&&◌, not, Option, none, some, List, [], ◌∷◌, ◌++◌,
  ltb, leb, if◌then◌else◌, str_eq, select, length, get_or_else,
}
use agent_embassy.Prelude.Dict.{get, put}
use agent_embassy.Prelude.Int.{ℤ, pos, negsuc}
use agent_embassy.Python.Fields.{positive_up_to, text_up_to}
use agent_embassy.Python.Text.{is_empty, is_ascii, strip, starts_with, remove_prefix, ◌+++◌}
use agent_embassy.Verify.Store.{Store}
use agent_embassy.Verify.Action.{Action, ok, pure, raise, modify, time, ◌>>=◌, ◌>>◌}

-- The headers and the peer of a request. A missing header is `none`, and so is a missing peer.
pub record Request : Type 0 where
  pub forwarded_for : Option String
  pub peer_host : Option String
  pub authorization : Option String
  pub ssl_client_verify : Option String

abbrev or_unknown : Option String → String
or_unknown none = "unknown"
or_unknown (some host) = host

-- `_client_ip`
unfoldable pub client_ip : Request → String
client_ip request = elim request.forwarded_for [
  | none ↦ or_unknown request.peer_host
  | some forwarded ↦ if is_empty forwarded then or_unknown request.peer_host else strip forwarded
]

-- The token of an authorization header that begins with "Bearer ".
unfoldable pub bearer_token : Option String → Option String
bearer_token none = none
bearer_token (some header) =
    if starts_with header "Bearer " then some (strip (remove_prefix header "Bearer ")) else none

-- The list of hits that `check_rate_limit` stores: those in the window, and the one at `now`.
-- `now - t < window` is read over the integers.
abbrev pub recent_hits : ℕ → ℕ → List ℕ → List ℕ
recent_hits now window hits = select (λ t. ltb now (t + window)) hits ++ now ∷ []

abbrev pub old_hits : String → Store → List ℕ
old_hits key s = get_or_else (get s.rate_limit_hits key) []

-- `Store.check_rate_limit` at the clock reading `now`: the new store and the answer.
unfoldable pub hit_at : ℕ → String → ℕ → ℕ → Store → Store × Bool
hit_at now key max_requests window_seconds s =
    let hits = recent_hits now window_seconds (old_hits key s) in
    (record s { rate_limit_hits = put s.rate_limit_hits key hits }, leb (length hits) max_requests)

abbrev pub bucket_key : String → String → String
bucket_key bucket ip = bucket +++ ":" +++ ip

unfoldable pub check_rate_limit : String → String → ℕ → ℕ → Action Bool
unfolding hit_at
check_rate_limit bucket ip max_requests window_seconds = do
  now ← time
  λ w.
      let (s, allowed) = hit_at now (bucket_key bucket ip) max_requests window_seconds w.store in
      (ok allowed, record w { store = s })

-- `require_internal_admin`. The header must be there and equal the configured token;
-- `secrets.compare_digest` fails on texts that are not ASCII.
unfoldable pub require_internal_admin : String → Option String → Action (Unit {0})
require_internal_admin admin_token none = raise 403 "forbidden"
require_internal_admin admin_token (some given) =
    if is_empty given
    then raise 403 "forbidden"
    else if not (is_ascii given && is_ascii admin_token)
    then raise 500 "TypeError"
    else if str_eq given admin_token
    then pure tt
    else raise 403 "forbidden"

-- `Tier3OrderRequest`
pub record Tier3OrderRequest : Type 0 where
  pub item : String
  pub quantity : ℕ
  pub amount_cents : ℕ

-- The validation of an order's body; `none` is the framework's 422.
unfoldable pub order_request : String → ℤ → ℤ → Option Tier3OrderRequest
order_request item quantity amount_cents = elim (text_up_to 200 item) [
  | none ↦ none
  | some i ↦ elim (positive_up_to 10000 quantity) [
    | none ↦ none
    | some q ↦ elim (positive_up_to 1000000 amount_cents) [
      | none ↦ none
      | some a ↦ some (record { item = i; quantity = q; amount_cents = a })
    ]
  ]
]

-- `Tier3GrantUpdate`
unfoldable pub grant_update : ℤ → Option ℕ
grant_update weekly_limit_cents = positive_up_to 10000000 weekly_limit_cents
