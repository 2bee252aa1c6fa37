-- ===== src/Verify/Store.antt =====
-- verify/main.py: the rows of Tier 3 and the class `Store`, whose attributes are the fields here.
-- Times are clock readings in the unit of the configured windows; amounts are cents.
use agent_embassy.Prelude.{ℕ, zero, String, Bool, Option, List, [], get_or_else}
use agent_embassy.Prelude.Dict.{Dict}

-- `Tier3Event.outcome`
pub data Outcome : Type 0 where
  accepted rejected queued expired : Outcome

-- `Tier3Event.reason`, a constructor for each text that the code writes, with what is put into it.
-- `by_human` is the flag that chooses the prefix in `_settle_handoff`.
pub data Reason : Type 0 where
  certificate_not_verified missing_bearer token_rejected no_grant within_mandate queue_full
        pending_expired mandate_revoked revoked_while_pending approved_by_human rejected_by_human :
      Reason
  exceeds_mandate : (remaining limit : ℕ) → Reason
  executed_via : (by_human : Bool) (channel decided_by : Option String) → Reason
  not_executed agent_unavailable incomplete : (by_human : Bool) → Reason

-- `Tier3Resolution.status`
pub data Status : Type 0 where
  queued executed failed rejected expired execution_unknown : Status

-- `Tier3Resolution.detail`
pub data Detail : Type 0 where
  expired_undecided cancelled_by_revocation awaiting_approval revoked_in_queue refused_by_human
        could_not_execute agent_down handoff_incomplete :
      Detail
  done_via : (channel : Option String) → Detail

pub record Tier3Event : Type 0 where
  pub at : ℕ
  pub client_id : String
  pub item : String
  pub amount_cents : ℕ
  pub outcome : Outcome
  pub reason : Reason
  pub order_number : Option String
  pub action_id : Option String

pub record Tier3PendingAction : Type 0 where
  pub action_id : String
  pub client_id : String
  pub item : String
  pub quantity : ℕ
  pub amount_cents : ℕ
  pub queued_at : ℕ
  pub expires_at : ℕ

pub record Tier3Resolution : Type 0 where
  pub action_id : String
  pub client_id : String
  pub status : Status
  pub detail : Detail
  pub created_at : ℕ
  pub updated_at : ℕ
  pub channel : Option String
  pub order_number : Option String

pub record Store : Type 0 where
  pub challenges : Dict (String × ℕ)
  pub sessions : Dict (String × ℕ)
  pub rate_limit_hits : Dict (List ℕ)
  pub challenge_ttl_seconds : ℕ
  pub session_ttl_seconds : ℕ
  pub challenge_rate_limit_max : ℕ
  pub challenge_rate_limit_window : ℕ
  pub verify_rate_limit_max : ℕ
  pub verify_rate_limit_window : ℕ
  pub tier3_grants : Dict ℕ
  pub tier3_events : List Tier3Event
  pub tier3_window_seconds : ℕ
  pub tier3_audit_max : ℕ
  pub tier3_rate_limit_max : ℕ
  pub tier3_rate_limit_window : ℕ
  pub tier3_pending : Dict Tier3PendingAction
  pub tier3_pending_ttl_seconds : ℕ
  pub tier3_pending_max_per_client : ℕ
  pub tier3_resolutions : Dict Tier3Resolution
  pub tier3_resolution_ttl_seconds : ℕ
  pub tier3_resolution_max_per_client : ℕ
  pub tier3_poll_rate_limit_max : ℕ
  pub tier3_poll_rate_limit_window : ℕ

-- `int(os.environ.get(name, default))`, where `environ` reads a variable that is set.
abbrev env_int : (String → Option ℕ) → String → ℕ → ℕ
env_int environ name default = get_or_else (environ name) default

-- `n or default`: zero counts as not given.
abbrev pub or_default : ℕ → ℕ → ℕ
or_default zero default = default
or_default n default = n

-- `Store.__init__`
unfoldable pub new_store : (String → Option ℕ) → Store
new_store environ =
    let window = env_int environ "TIER3_WINDOW_SECONDS" 604800 in
    record {
      challenges = [];
      sessions = [];
      rate_limit_hits = [];
      challenge_ttl_seconds = env_int environ "CHALLENGE_TTL_SECONDS" 300;
      session_ttl_seconds = env_int environ "SESSION_TTL_SECONDS" 3600;
      challenge_rate_limit_max = env_int environ "CHALLENGE_RATE_LIMIT_MAX" 10;
      challenge_rate_limit_window = env_int environ "CHALLENGE_RATE_LIMIT_WINDOW" 60;
      verify_rate_limit_max = env_int environ "VERIFY_RATE_LIMIT_MAX" 10;
      verify_rate_limit_window = env_int environ "VERIFY_RATE_LIMIT_WINDOW" 60;
      tier3_grants = [];
      tier3_events = [];
      tier3_window_seconds = window;
      tier3_audit_max = env_int environ "TIER3_AUDIT_MAX" 500;
      tier3_rate_limit_max = env_int environ "TIER3_RATE_LIMIT_MAX" 10;
      tier3_rate_limit_window = env_int environ "TIER3_RATE_LIMIT_WINDOW" 60;
      tier3_pending = [];
      tier3_pending_ttl_seconds = or_default (env_int environ "TIER3_PENDING_TTL_SECONDS" 0) window;
      tier3_pending_max_per_client = env_int environ "TIER3_PENDING_MAX_PER_CLIENT" 10;
      tier3_resolutions = [];
      tier3_resolution_ttl_seconds =
          or_default (env_int environ "TIER3_RESOLUTION_TTL_SECONDS" 0) window;
      tier3_resolution_max_per_client = env_int environ "TIER3_RESOLUTION_MAX_PER_CLIENT" 500;
      tier3_poll_rate_limit_max = env_int environ "TIER3_POLL_RATE_LIMIT_MAX" 60;
      tier3_poll_rate_limit_window = env_int environ "TIER3_POLL_RATE_LIMIT_WINDOW" 60;
    }
