-- ===== src/Verify/Fetch.antt =====
-- verify/security.py: the guarded fetch of the challenge file. Bytes are lists of numbers.
pub mod Guarded
mod Tests
use agent_embassy.Prelude.{
  ℕ, zero, suc, ◌/◌, String, Bool, true, false, ◌||◌, ◌&&◌, Option, none, some, List, [], ◌∷◌, ◌++◌,
  length, take, drop, ltb, ◌==◌, if◌then◌else◌,
}
use agent_embassy.Prelude.Int.{ℤ}
use agent_embassy.Python.Text.{is_ascii, ◌+++◌}
use agent_embassy.Python.Attempt
use agent_embassy.Python.Attempt.{Attempt, value, exception}

abbrev pub Bytes : Type 0
Bytes = List ℕ

-- An address of one of the two versions, by its number.
pub data Address : Type 0 where
  ipv4 ipv6 : ℕ → Address

-- What `ipaddress` says of an address.
pub record Traits : Type 0 where
  pub is_private : Bool
  pub is_loopback : Bool
  pub is_link_local : Bool
  pub is_multicast : Bool
  pub is_reserved : Bool
  pub is_unspecified : Bool

-- `any(addr in net for net in _EXTRA_BLOCKED_NETWORKS)`: the first ten of the 32 bits are
-- those of 100.64.0.0;
-- an address of version 6 is in no network of version 4.
abbrev pub is_extra_blocked : Address → Bool
is_extra_blocked (ipv4 n) = n / 4194304 == 401
is_extra_blocked (ipv6 n) = false

abbrev pub has_trait : Traits → Bool
has_trait t =
    t.is_private || t.is_loopback || t.is_link_local || t.is_multicast || t.is_reserved
    || t.is_unspecified

-- A connection: the address and the name that is sent to it.
pub record Connection : Type 0 where
  pub ip : String
  pub hostname : String
  pub request : String

-- How the loop over `recv` ends; it never runs out of fuel.
pub data Received : Type 0 where
  received : Bytes → Received
  failed : String → Received
  out_of_fuel : Received

-- `while len(data) < max_bytes`; the replies of `recv` are read one by one.
unfoldable pub receive : ℕ → ℕ → (ℕ → Attempt Bytes) → Bytes → Received
receive zero max_bytes recv sofar =
    if ltb (length sofar) max_bytes then out_of_fuel else received sofar
receive (suc fuel) max_bytes recv sofar = elim (ltb (length sofar) max_bytes) [
  | false ↦ received sofar
  | true ↦ elim (recv 0) [
    | exception x ↦ failed x
    | value [] ↦ received sofar
    | value (b ∷ chunk) ↦ receive fuel max_bytes (λ n. recv (suc n)) (sofar ++ (b ∷ chunk))
  ]
]

-- `data[:max_bytes]`
abbrev pub cut : ℕ → Received → Attempt Bytes
cut max_bytes (received bytes) = value (take max_bytes bytes)
cut max_bytes (failed x) = exception x
cut max_bytes out_of_fuel = exception "out of fuel"

abbrev pub request_text : String → String → String
request_text hostname path =
    "GET " +++ path +++ " HTTP/1.1\r\nHost: " +++ hostname
    +++ "\r\nUser-Agent: agent-embassy-tier1-verify/1.0\r\nAccept: text/plain\r\nConnection: close\r\n\r\n"

-- `CHALLENGE_PATH`
abbrev pub challenge_path : String
challenge_path = "/.well-known/agent-embassy-challenge.txt"

-- The bytes before the first `\r\n` or `\r\n\r\n` and those after it.
abbrev pub starts_with : Bytes → Bytes → Bool
starts_with bytes [] = true
starts_with [] (p ∷ ps) = false
starts_with (b ∷ bytes) (p ∷ ps) = b == p && starts_with bytes ps

unfoldable pub split_at : Bytes → Bytes → Option (Bytes × Bytes)
split_at mark [] = none
split_at mark (b ∷ bytes) =
    let rest = split_at mark bytes in
    if starts_with (b ∷ bytes) mark
    then some ([], drop (length mark) (b ∷ bytes))
    else elim rest [ none ↦ none | some (before, behind) ↦ some (b ∷ before, behind) ]

abbrev pub line_end : Bytes
line_end = 13 ∷ 10 ∷ []

abbrev pub head_end : Bytes
head_end = 13 ∷ 10 ∷ 13 ∷ 10 ∷ []

abbrev pub space : Bytes
space = b' ' ∷ []

-- `header_bytes.split(b"\r\n", 1)[0]`
abbrev pub first_line : Bytes → Bytes
first_line head = elim (split_at line_end head) [ none ↦ head | some (before, behind) ↦ before ]

-- `parts[1]` of `status_line.split(b" ", 2)`
abbrev pub second_part : Bytes → Option Bytes
second_part line = elim (split_at space line) [
  | none ↦ none
  | some (first, rest) ↦ elim (split_at space rest) [
    | none ↦ some rest
    | some (second, reason) ↦ some second
  ]
]

-- `int_of` is `int` of bytes, with none for a ValueError.
module _ (int_of : Bytes → Option ℤ) where
  abbrev pub status_of : Option Bytes → Attempt ℤ
  status_of none = exception "ValueError"
  status_of (some part) = elim (int_of part) [ none ↦ exception "ValueError" | some n ↦ value n ]

  -- `parse_http_response`
  unfoldable pub parse_http_response : Bytes → Attempt (ℤ × Bytes)
  unfolding split_at
  parse_http_response raw = elim (split_at head_end raw) [
    | none ↦ exception "ValueError"
    | some (head, body) ↦
        Attempt.◌>>=◌ (status_of (second_part (first_line head))) λ status. value (status, body)
  ]

-- `address_of` is `ipaddress.ip_address`, with none for a ValueError, and `traits` what it says of an
-- address; `connect` is a connection with TLS to an address, by the replies of its `recv`.
module _ (address_of : String → Option Address) (traits : Address → Traits)
    (connect : Connection → Attempt (ℕ → Attempt Bytes)) (int_of : Bytes → Option ℤ) where
  -- The address is skipped.
  unfoldable pub is_blocked : Address → Bool
  is_blocked addr = has_trait (traits addr) || is_extra_blocked addr

  -- One round of the loop of `resolve_public_ip`, with what the rest of it gives.
  unfoldable pub tested : Option Address → String → Attempt String → Attempt String
  unfolding is_blocked
  tested none ip rest = exception "ValueError"
  tested (some addr) ip rest = if is_blocked addr then rest else value ip

  -- The loop over the addresses of `getaddrinfo`.
  unfoldable pub first_public : List String → Attempt String
  unfolding tested
  first_public [] = exception "ValueError"
  first_public (ip ∷ ips) = let rest = first_public ips in tested (address_of ip) ip rest

  -- `resolve_public_ip`, where `found` is what `getaddrinfo` gives.
  unfoldable pub resolve_public_ip : Attempt (List String) → Attempt String
  unfolding first_public
  resolve_public_ip found = Attempt.◌>>=◌ found first_public

  -- What was fetched, with the connections that were made.
  abbrev pub Fetch : Type 0 → Type 0
  Fetch A = Attempt A × List Connection

  -- `fetch_raw`: at most one round of the loop for each byte.
  abbrev pub read_all : ℕ → Attempt (ℕ → Attempt Bytes) → Attempt Bytes
  read_all max_bytes (value recv) = cut max_bytes (receive max_bytes max_bytes recv [])
  read_all max_bytes (exception x) = exception x

  unfoldable pub fetch_raw : String → String → String → ℕ → Fetch Bytes
  unfolding receive
  fetch_raw ip hostname path max_bytes =
      let made : Connection = record {
        ip = ip;
        hostname = hostname;
        request = request_text hostname path;
      } in
      if is_ascii (request_text hostname path)
      then (read_all max_bytes (connect made), made ∷ [])
      else (exception "UnicodeEncodeError", [])

  abbrev pub fetch_from : String → ℕ → Attempt String → Fetch (ℤ × Bytes)
  fetch_from domain max_bytes (exception x) = (exception x, [])
  fetch_from domain max_bytes (value ip) =
      let (raw, made) = fetch_raw ip domain challenge_path max_bytes in
      (Attempt.◌>>=◌ raw (parse_http_response int_of), made)

  -- `fetch_challenge_file`
  unfoldable pub fetch_challenge_file : String → ℕ → Attempt (List String) → Fetch (ℤ × Bytes)
  unfolding resolve_public_ip fetch_raw parse_http_response
  fetch_challenge_file domain max_bytes found =
      fetch_from domain max_bytes (resolve_public_ip found)
