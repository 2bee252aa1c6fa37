-- ===== src/Admin/Tier1.antt =====
-- admin/tier1_client.py: the Tier 1 configuration of the running gateway.
use agent_embassy.Prelude.{
  ℕ, String, Bool, true, false, none, some, List, [], ◌∷◌, select, ◌==◌, if◌then◌else◌,
}
use agent_embassy.Prelude.Dict.{Dict, get}
use agent_embassy.Prelude.Int.{ℤ}
use agent_embassy.Python.Json.{Json, Fields, end, field}
use agent_embassy.Python.Attempt
use agent_embassy.Python.Attempt.{Attempt, value, loads}
use agent_embassy.Admin.Http.{
  Method, Reply, Action, pure, attempt, request, status_of, body_of, ◌>>=◌,
}

-- `CONFIG_FIELDS`
abbrev pub config_fields : List String
config_fields =
    "challenge_ttl_seconds" ∷ "session_ttl_seconds" ∷ "challenge_rate_limit_max"
    ∷ "challenge_rate_limit_window" ∷ "verify_rate_limit_max" ∷ "verify_rate_limit_window" ∷ []

-- `ConfigResult`; the errors are constructors with what is put into their texts.
pub data Problem : Type 0 where
  http : (status : ℕ) → Problem
  unparseable out_of_range : Problem
  missing : List String → Problem

pub data ConfigResult : Type 0 where
  values : Json → ConfigResult
  error : Problem → ConfigResult

unfoldable pub read_config : Reply → Attempt ConfigResult
read_config reply =
    if status_of reply == 200
    then Attempt.◌>>=◌ (loads (body_of reply))
        (λ found. elim found [ none ↦ value (error unparseable) | some v ↦ value (values v) ])
    else value (error (http (status_of reply)))

abbrev pub config_url : String
config_url = "/tier1/admin-config"

-- `get_config`
unfoldable pub get_config : Action ConfigResult
unfolding read_config
get_config = do reply ← request Method.get config_url none; attempt (read_config reply)

abbrev lacks : Dict ℤ → String → Bool
lacks fields name = elim (get fields name) [ none ↦ true | some _ ↦ false ]

-- `[f for f in CONFIG_FIELDS if f not in fields]`
abbrev pub missing_fields : Dict ℤ → List String
missing_fields fields = select (lacks fields) config_fields

-- `{f: fields[f] for f in CONFIG_FIELDS}`, where none is missing.
unfoldable pub config_body : List String → Dict ℤ → Fields
config_body [] fields = end
config_body (name ∷ names) fields =
    let rest = config_body names fields in
    elim (get fields name) [ none ↦ rest | some n ↦ field name (Json.int n) rest ]

unfoldable pub put_config : Dict ℤ → List String → Action ConfigResult
unfolding config_body read_config
put_config fields [] = do
  reply ← request Method.put config_url (some (Json.obj (config_body config_fields fields)))
  if status_of reply == 422 then pure (error out_of_range) else attempt (read_config reply)
put_config fields (name ∷ names) = pure (error (missing (name ∷ names)))

-- `update_config`
unfoldable pub update_config : Dict ℤ → Action ConfigResult
unfolding put_config
update_config fields = put_config fields (missing_fields fields)
