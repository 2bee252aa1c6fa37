-- ===== src/Admin/Logs/RoundTrip.antt =====
-- A line that nginx writes in the format catalog_activity (nginx/default.conf) is read back.
use Prim.Native.Char.{code}
use Prim.Native.String
use agent_embassy.Prelude.{
  ℕ, ◌+◌, ◌*◌, ◌≤◌, String, ◌≡◌, refl, ap, ◌∙◌, Bool, true, false, Option, none, some, arith, ltb,
  get_or_else,
}
use agent_embassy.Python.Attempt.{value}
use agent_embassy.Python.Text.{is_space, is_empty, ◌+++◌}
use agent_embassy.Admin.Logs.{
  non_space, not_bracket, not_quote, is_digit, named_domain, domain_tail, request_groups,
  answer_groups, client_groups, match_line, value_from, int_of, or_none, entry_of, parse_line,
}
use agent_embassy.Admin.Logs.Scanning.{
  all_of, stops, literal-append, any_run-append, some_run-append, quoted_run-append,
}

-- What nginx writes for a request.
pub record Line : Type 0 where
  pub remote_addr : String
  pub remote_user : String
  pub time_local : String
  pub method : String
  pub path : String
  pub protocol : String
  pub status : String
  pub body_bytes_sent : String
  pub http_referer : String
  pub http_user_agent : String
  pub http_x_forwarded_for : String
  pub verified_domain : String

-- The format catalog_activity; `rest` is what follows the line.
unfoldable pub print_domain : Line → String → String
print_domain l rest =
    " \"" +++ l.http_x_forwarded_for +++ "\" verified_domain=\"" +++ l.verified_domain +++ "\""
    +++ rest

unfoldable pub print_answer : Line → String → String
print_answer l rest =
    l.status +++ " " +++ l.body_bytes_sent +++ " \"" +++ l.http_referer +++ "\" \""
    +++ l.http_user_agent +++ "\"" +++ rest

unfoldable pub print_request : Line → String → String
print_request l rest =
    "\"" +++ l.method +++ " " +++ l.path +++ " " +++ (l.protocol +++ "\"") +++ " " +++ rest

unfoldable pub print_client : Line → String → String
print_client l rest =
    l.remote_addr +++ " " +++ "-" +++ " " +++ l.remote_user +++ " [" +++ l.time_local +++ "] "
    +++ rest

unfoldable pub print_line : Line → String → String
print_line l rest = print_client l (print_request l (print_answer l (print_domain l rest)))

-- A text that is not empty, of a class.
abbrev pub IsRun : (ℕ → Bool) → String → Type 0
IsRun p s = (is_empty s ≡ false) × (all_of p s ≡ true)

module _ (decimal_value : ℕ → Option ℕ) where
  client_groups-read :
      (l : Line) (rest : String)
      → IsRun non_space l.remote_addr
      → IsRun non_space l.remote_user
      → IsRun not_bracket l.time_local
      → client_groups decimal_value (print_client l rest)
        ≡ some ((l.remote_addr, l.time_local), rest)
  unfolding client_groups print_client stops all_of is_space
  client_groups-read l rest addr user time = rw (
    some_run-append non_space l.remote_addr " "
        ("-" +++ " " +++ l.remote_user +++ " [" +++ l.time_local +++ "] " +++ rest) addr.0 addr.1
        refl refl,
    literal-append,
    some_run-append non_space "-" " " (l.remote_user +++ " [" +++ l.time_local +++ "] " +++ rest)
        refl refl refl refl,
    literal-append,
    some_run-append non_space l.remote_user " [" (l.time_local +++ "] " +++ rest) user.0 user.1 refl
        refl,
    literal-append,
    some_run-append not_bracket l.time_local "] " rest time.0 time.1 refl refl,
    literal-append,
  )

  request_groups-read :
      (l : Line) (rest : String)
      → IsRun non_space l.method
      → IsRun non_space l.path
      → IsRun non_space l.protocol
      → request_groups decimal_value (print_request l rest) ≡ some ((l.method, l.path), rest)
  unfolding request_groups print_request stops all_of is_space
  request_groups-read l rest method path protocol = rw (
    literal-append,
    some_run-append non_space l.method " "
        (l.path +++ " " +++ (l.protocol +++ "\"") +++ " " +++ rest) method.0 method.1 refl refl,
    literal-append,
    some_run-append non_space l.path " " ((l.protocol +++ "\"") +++ " " +++ rest) path.0 path.1 refl
        refl,
    literal-append,
    quoted_run-append l.protocol rest protocol.0 protocol.1,
    literal-append,
  )

  answer_groups-read :
      (l : Line) (rest : String)
      → IsRun (is_digit decimal_value) l.status
      → IsRun (is_digit decimal_value) l.body_bytes_sent
      → decimal_value 32 ≡ none
      → all_of not_quote l.http_referer ≡ true
      → all_of not_quote l.http_user_agent ≡ true
      → answer_groups decimal_value (print_answer l rest)
        ≡ some ((l.status, l.http_user_agent), rest)
  unfolding answer_groups print_answer stops all_of
  answer_groups-read l rest status bytes space referer agent =
      let after : stops (is_digit decimal_value) " " ≡ true = rw space in
      let after_quote : stops (is_digit decimal_value) " \"" ≡ true = rw space in
      rw (
        some_run-append (is_digit decimal_value) l.status " "
            (l.body_bytes_sent +++ " \"" +++ l.http_referer +++ "\" \"" +++ l.http_user_agent
              +++ "\"" +++ rest)
            status.0 status.1 refl after,
        literal-append,
        some_run-append (is_digit decimal_value) l.body_bytes_sent " \""
            (l.http_referer +++ "\" \"" +++ l.http_user_agent +++ "\"" +++ rest) bytes.0 bytes.1
            refl after_quote,
        literal-append,
        any_run-append not_quote l.http_referer "\" \"" (l.http_user_agent +++ "\"" +++ rest)
            referer refl refl,
        literal-append,
        any_run-append not_quote l.http_user_agent "\"" rest agent refl refl,
        literal-append,
      )

  domain_tail-read :
      (l : Line) (rest : String)
      → all_of not_quote l.http_x_forwarded_for ≡ true
      → all_of not_quote l.verified_domain ≡ true
      → domain_tail (print_domain l rest) ≡ some (some l.verified_domain, rest)
  unfolding domain_tail named_domain print_domain stops all_of
  domain_tail-read l rest forwarded domain = rw (
    literal-append,
    any_run-append not_quote l.http_x_forwarded_for "\" verified_domain=\""
        (l.verified_domain +++ "\"" +++ rest) forwarded refl refl,
    literal-append,
    any_run-append not_quote l.verified_domain "\"" rest domain refl refl,
    literal-append,
  )

-- The fields of a line as nginx writes them: it escapes a quote, and the first line of a request that it
-- accepts is three words.
pub record IsWritten (decimal_value : ℕ → Option ℕ) (l : Line) : Type 0 where
  pub remote_addr : IsRun non_space l.remote_addr
  pub remote_user : IsRun non_space l.remote_user
  pub time_local : IsRun not_bracket l.time_local
  pub method : IsRun non_space l.method
  pub path : IsRun non_space l.path
  pub protocol : IsRun non_space l.protocol
  pub status : IsRun (is_digit decimal_value) l.status
  pub body_bytes_sent : IsRun (is_digit decimal_value) l.body_bytes_sent
  pub http_referer : all_of not_quote l.http_referer ≡ true
  pub http_user_agent : all_of not_quote l.http_user_agent ≡ true
  pub http_x_forwarded_for : all_of not_quote l.http_x_forwarded_for ≡ true
  pub verified_domain : all_of not_quote l.verified_domain ≡ true

-- The number that a text of digits denotes: each digit counts for ten times the one after it.
abbrev weight : String → ℕ
weight String.[] = 1
weight (String.◌∷◌ c s) = 10 * weight s

abbrev pub decimal_of : (ℕ → Option ℕ) → String → ℕ
decimal_of decimal_value String.[] = 0
decimal_of decimal_value (String.◌∷◌ c s) =
    get_or_else (decimal_value (code c)) 0 * weight s + decimal_of decimal_value s

-- A domain that is written as the empty text is none.
abbrev pub domain_of : String → Option String
domain_of String.[] = none
domain_of (String.◌∷◌ c s) = some (String.◌∷◌ c s)

value_from-decimal_of :
    (decimal_value : ℕ → Option ℕ) (n : ℕ) (s : String)
    → value_from decimal_value n s ≡ n * weight s + decimal_of decimal_value s
unfolding value_from
value_from-decimal_of decimal_value n String.[] = omega arith
value_from-decimal_of decimal_value n (String.◌∷◌ c s) =
    let v = get_or_else (decimal_value (code c)) 0 in
    value_from-decimal_of decimal_value (10 * n + v) s ∙ omega arith

int_of-short :
    (decimal_value : ℕ → Option ℕ) (s : String)
    → String.count s ≤ 4300
    → int_of decimal_value s ≡ value (decimal_of decimal_value s)
unfolding int_of
int_of-short decimal_value s short =
    let fits : ltb 4300 (String.count s) ≡ false = ground arith in
    rw fits (ap value (value_from-decimal_of decimal_value 0 s ∙ omega arith))

or_none-domain_of :
    (decimal_value : ℕ → Option ℕ) (s : String) → or_none decimal_value (some s) ≡ domain_of s
or_none-domain_of decimal_value String.[] = refl
or_none-domain_of decimal_value (String.◌∷◌ c s) = refl

-- A line that nginx writes in its format, for a request line of three words and a user without a
-- space, and whatever follows it, is read back with its address, time, method, path, status as a
-- decimal number, user agent and domain, which is absent where it is empty. The status has 4300 digits
-- at most; a space is no digit.
pub parse_line-print :
    (decimal_value : ℕ → Option ℕ) (l : Line) (rest : String)
    → decimal_value 32 ≡ none
    → IsWritten decimal_value l
    → String.count l.status ≤ 4300
    → parse_line decimal_value (print_line l rest)
      ≡ value (
          some (record {
            ip = l.remote_addr;
            time = l.time_local;
            method = l.method;
            path = l.path;
            status = decimal_of decimal_value l.status;
            user_agent = l.http_user_agent;
            verified_domain = domain_of l.verified_domain;
          }))
unfolding parse_line match_line entry_of print_line
parse_line-print decimal_value l rest space written short = rw (
  client_groups-read decimal_value l (print_request l (print_answer l (print_domain l rest)))
      written.remote_addr written.remote_user written.time_local,
  request_groups-read decimal_value l (print_answer l (print_domain l rest)) written.method
      written.path written.protocol,
  answer_groups-read decimal_value l (print_domain l rest) written.status written.body_bytes_sent
      space written.http_referer written.http_user_agent,
  domain_tail-read decimal_value l rest written.http_x_forwarded_for written.verified_domain,
  int_of-short decimal_value l.status short,
  or_none-domain_of decimal_value l.verified_domain,
)
