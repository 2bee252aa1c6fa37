-- ===== src/Verify/Fetch/Tests.antt =====
-- The fetch of a challenge file at concrete inputs: a name that resolves to a private address and to
-- a public one, whose server sends two chunks.
use agent_embassy.Prelude.{
  ℕ, zero, suc, String, ◌≡◌, ◌≢◌, refl, Bool, false, Option, none, some, List, [], ◌∷◌, str_eq,
  arith, ◌/◌, ◌==◌, if◌then◌else◌,
}
use agent_embassy.Prelude.Int.{ℤ, pos}
use agent_embassy.Python.Text.{is_ascii}
use agent_embassy.Python.Attempt.{Attempt, value}
use agent_embassy.Verify.Fetch.{
  Bytes, Address, ipv4, Traits, Connection, out_of_fuel, receive, fetch_challenge_file,
}
use agent_embassy.Verify.Fetch.Guarded.{Guarded, fetch_challenge_file-Guarded, receive-ends}

-- 10.0.0.1 and 93.184.216.34
abbrev address_of : String → Option Address
address_of s =
    if str_eq s "10.0.0.1"
    then some (ipv4 167772161)
    else if str_eq s "93.184.216.34"
    then some (ipv4 1572395042)
    else none

abbrev in_ten : Address → Bool
in_ten (ipv4 n) = n / 16777216 == 10
in_ten _ = false

abbrev traits : Address → Traits
traits addr = record {
  is_private = in_ten addr;
  is_loopback = false;
  is_link_local = false;
  is_multicast = false;
  is_reserved = false;
  is_unspecified = false;
}

-- `HTTP/1.1 200`, an empty header and the body `ok`.
abbrev chunks : ℕ → Attempt Bytes
chunks zero = value (72 ∷ 84 ∷ 84 ∷ 80 ∷ 32 ∷ 50 ∷ 48 ∷ 48 ∷ 13 ∷ 10 ∷ [])
chunks (suc zero) = value (13 ∷ 10 ∷ 111 ∷ 107 ∷ [])
chunks (suc (suc n)) = value []

abbrev connect : Connection → Attempt (ℕ → Attempt Bytes)
connect c = value chunks

abbrev int_of : Bytes → Option ℤ
int_of _ = some (pos 200)

abbrev ips : List String
ips = "10.0.0.1" ∷ "93.184.216.34" ∷ []

fetched :
    (fetch_challenge_file address_of traits connect int_of "shop.example" 4096 (value ips)).0
    ≡ value (pos 200, 111 ∷ 107 ∷ [])
unfolding fetch_challenge_file is_ascii
fetched = refl

fetch_challenge_file-Guarded_example :
    Guarded address_of traits "shop.example" ips
      (fetch_challenge_file address_of traits connect int_of "shop.example" 4096 (value ips)).1
fetch_challenge_file-Guarded_example =
    fetch_challenge_file-Guarded address_of traits connect int_of "shop.example" 4096 ips

receive-ends_example : receive 16 16 chunks [] ≢ out_of_fuel
receive-ends_example = receive-ends 16 16 chunks [] (omega arith)
