-- ===== src/Admin/Logs.antt =====
-- admin/log_tail.py and the page of admin/main.py that shows it: the lines of nginx's access log. The regular expression never has a choice: each
-- part ends where its class of characters ends, so it is read from left to right.
pub mod Scanning
pub mod RoundTrip
mod Tests
use Prim.Native.Char.{code}
use Prim.Native.String
use agent_embassy.Prelude.{
  ℕ, zero, suc, ◌+◌, ◌*◌, String, Bool, true, false, ◌&&◌, ◌||◌, not, Option, none, some, List, [],
  ◌∷◌, reverse, newest, take, leb, ltb, ◌==◌, if◌then◌else◌, get_or_else,
}
use agent_embassy.Python.Attempt
use agent_embassy.Python.Attempt.{Attempt, value, exception}
use agent_embassy.Python.Text.{is_space, is_empty, starts_with, drop_text, ◌+++◌}

pub record LogEntry : Type 0 where
  pub ip : String
  pub time : String
  pub method : String
  pub path : String
  pub status : ℕ
  pub user_agent : String
  pub verified_domain : Option String

-- The classes of the expression: `\S`, `[^\]]` and `[^"]`, by the number of a character.
abbrev pub non_space : ℕ → Bool
non_space c = not (is_space c)

abbrev pub not_bracket : ℕ → Bool
not_bracket c = not (c == 93)

abbrev pub not_quote : ℕ → Bool
not_quote c = not (c == 34)

-- What is read of a text, with what is left of it.
abbrev pub Scanner : Type 0 → Type 0
Scanner A = String → Option (A × String)

abbrev pub ended : {A : Type 0} → A → Scanner A
ended a s = some (a, s)

abbrev pub resume : {A B : Type 0} → (A → Scanner B) → Option (A × String) → Option (B × String)
resume k none = none
resume k (some (a, s)) = k a s

infixl 5 ◌>>=◌ ◌>>◌
abbrev pub ◌>>=◌ : {A B : Type 0} → Scanner A → (A → Scanner B) → Scanner B
◌>>=◌ m k s = resume k (m s)

abbrev pub ◌>>◌ : {A B : Type 0} → Scanner A → Scanner B → Scanner B
m >> k = m >>= λ _. k

-- The longest run of a class, and what follows it.
unfoldable pub span : (ℕ → Bool) → String → String × String
span p String.[] = (String.[], String.[])
span p (String.◌∷◌ c s) =
    let (run, rest) = span p s in
    if p (code c) then (String.◌∷◌ c run, rest) else (String.[], String.◌∷◌ c s)

-- `[...]*` and `[...]+`
unfoldable pub any_run : (ℕ → Bool) → Scanner String
any_run p s = some (span p s)

unfoldable pub some_run : (ℕ → Bool) → Scanner String
some_run p s = if is_empty (span p s).0 then none else some (span p s)

-- The characters of a text as they stand.
unfoldable pub literal : String → Scanner (Unit {0})
literal text s = if starts_with s text then some (tt, drop_text s text) else none

-- `\S+"`: a run of two characters at least, the last of which is a quote.
unfoldable pub ends_in_quote : String → Bool
ends_in_quote String.[] = false
ends_in_quote (String.◌∷◌ c s) =
    let rest = ends_in_quote s in if is_empty s then code c == 34 else rest

unfoldable pub quoted_run : Scanner String
quoted_run s =
    let (run, rest) = span non_space s in
    if leb 2 (String.count run) && ends_in_quote run then some (run, rest) else none

-- The optional last group; where it does not match there is no domain.
unfoldable pub named_domain : Scanner String
named_domain = do
  literal " \""
  forwarded_for ← any_run not_quote
  literal "\" verified_domain=\""
  domain ← any_run not_quote
  literal "\""
  ended domain

abbrev pub or_absent : String → Option (String × String) → Option (Option String × String)
or_absent s none = some (none, s)
or_absent s (some (domain, rest)) = some (some domain, rest)

unfoldable pub domain_tail : Scanner (Option String)
domain_tail s = or_absent s (named_domain s)

-- The groups of a match; the status is still a text.
pub record Groups : Type 0 where
  pub ip : String
  pub time : String
  pub method : String
  pub path : String
  pub status : String
  pub user_agent : String
  pub verified_domain : Option String

abbrev pub is_some : Option ℕ → Bool
is_some none = false
is_some (some _) = true

-- `_LOG_RE.match` and `parse_line`; `decimal_value` is the value of a character that `\d` matches.
module _ (decimal_value : ℕ → Option ℕ) where
  abbrev pub is_digit : ℕ → Bool
  is_digit c = is_some (decimal_value c)

  unfoldable pub request_groups : Scanner (String × String)
  request_groups = do
    literal "\""
    method ← some_run non_space
    literal " "
    path ← some_run non_space
    literal " "
    quoted_run
    literal " "
    ended (method, path)

  unfoldable pub answer_groups : Scanner (String × String)
  answer_groups = do
    status ← some_run is_digit
    literal " "
    some_run is_digit
    literal " \""
    any_run not_quote
    literal "\" \""
    user_agent ← any_run not_quote
    literal "\""
    ended (status, user_agent)

  unfoldable pub client_groups : Scanner (String × String)
  client_groups = do
    ip ← some_run non_space
    literal " "
    some_run non_space
    literal " "
    some_run non_space
    literal " ["
    time ← some_run not_bracket
    literal "] "
    ended (ip, time)

  unfoldable pub match_line : Scanner Groups
  match_line = do
    client ← client_groups
    request ← request_groups
    answer ← answer_groups
    domain ← domain_tail
    ended (record {
      ip = client.0;
      time = client.1;
      method = request.0;
      path = request.1;
      status = answer.0;
      user_agent = answer.1;
      verified_domain = domain;
    })

  -- `int(text)` of a text of digits, which raises past 4300 of them.
  value_from : ℕ → String → ℕ
  value_from n String.[] = n
  value_from n (String.◌∷◌ c s) = value_from (10 * n + get_or_else (decimal_value (code c)) 0) s

  unfoldable pub int_of : String → Attempt ℕ
  unfolding value_from
  int_of s = if ltb 4300 (String.count s) then exception "ValueError" else value (value_from 0 s)

  -- `match.group("verified_domain") or None`
  abbrev pub or_none : Option String → Option String
  or_none none = none
  or_none (some s) = if is_empty s then none else some s

  unfoldable pub entry_of : Option (Groups × String) → Attempt (Option LogEntry)
  entry_of none = value none
  entry_of (some (g, rest)) = Attempt.◌>>=◌ (int_of g.status) λ status. value (
      some (record {
        ip = g.ip;
        time = g.time;
        method = g.method;
        path = g.path;
        status = status;
        user_agent = g.user_agent;
        verified_domain = or_none g.verified_domain;
      }))

  unfoldable pub parse_line : String → Attempt (Option LogEntry)
  parse_line line = entry_of (match_line line)

  -- `path.startswith(_TRACKED_PREFIXES)`
  abbrev pub is_tracked : String → Bool
  is_tracked path = starts_with path "/catalog/" || starts_with path "/.well-known/"

  abbrev pub kept : Option LogEntry → List LogEntry → List LogEntry
  kept none rest = rest
  kept (some e) rest = if is_tracked e.path then e ∷ rest else rest

  -- The comprehension over the lines.
  unfoldable pub tracked_entries : List String → Attempt (List LogEntry)
  tracked_entries [] = value []
  tracked_entries (line ∷ lines) =
      Attempt.◌>>=◌ (parse_line line)
        λ e. Attempt.◌>>=◌ (tracked_entries lines) λ rest. value (kept e rest)

  -- `recent_catalog_requests`; `none` is a file that does not exist, `some` the lines of one.
  unfoldable pub recent_catalog_requests : Option (List String) → ℕ → Attempt (List LogEntry)
  recent_catalog_requests none limit = value []
  recent_catalog_requests (some lines) limit =
      Attempt.◌>>=◌ (tracked_entries (newest 2000 lines))
        λ entries. value (take limit (reverse entries))

  -- What `monitoring` in admin/main.py gives to its template.
  unfoldable pub monitoring : Option (List String) → Attempt (List LogEntry)
  unfolding recent_catalog_requests
  monitoring file = recent_catalog_requests file 100
