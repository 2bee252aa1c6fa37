-- ===== src/Admin/Login.antt =====
-- admin/auth.py: the check of the credentials that every page demands.
use agent_embassy.Prelude.{String, Bool, not, ◌&&◌, Option, none, some, str_eq, if◌then◌else◌}
use agent_embassy.Python.Text.{is_empty, is_ascii}
use agent_embassy.Python.Attempt
use agent_embassy.Python.Attempt.{Attempt, value, exception}

-- `ADMIN_UI_USERNAME` and `ADMIN_UI_PASSWORD`, or the credentials of a request.
pub record Credentials : Type 0 where
  pub username : String
  pub password : String

-- The check at import; the service does not start where it fails.
unfoldable pub starts : Credentials → Bool
starts configured = not (is_empty configured.username) && not (is_empty configured.password)

-- `secrets.compare_digest` of two texts
unfoldable pub compare_digest : String → String → Attempt Bool
compare_digest s t = if is_ascii s && is_ascii t then value (str_eq s t) else exception "TypeError"

-- `verify_admin`: the user's name, or none for the 401.
unfoldable pub verify_admin : Credentials → Credentials → Attempt (Option String)
unfolding compare_digest
verify_admin configured given =
    Attempt.◌>>=◌ (compare_digest given.username configured.username) λ username_ok.
      Attempt.◌>>=◌ (compare_digest given.password configured.password)
        λ password_ok. value (if username_ok && password_ok then some given.username else none)
