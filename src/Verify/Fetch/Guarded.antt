-- ===== src/Verify/Fetch/Guarded.antt =====
-- Where the fetch of the challenge file connects to, and that it ends.
use agent_embassy.Prelude.{
  ℕ, zero, suc, ◌+◌, ◌≤◌, String, ◌≡◌, ◌≢◌, refl, Bool, true, false, Option, some, List, [], ◌∷◌,
  ◌++◌, subst, ◌||◌, arith, length, length-append, ltb, ltb→lt, inl, inr, Bool-cases, Option-cases,
}
use agent_embassy.Prelude.Int.{ℤ}
use agent_embassy.Python.Text.{is_ascii}
use agent_embassy.Python.Attempt.{Attempt, value, exception}
use agent_embassy.Verify.Fetch.{
  Bytes, Address, Traits, Connection, Received, received, failed, out_of_fuel, receive, is_blocked,
  has_trait, is_extra_blocked, request_text, challenge_path, tested, first_public,
  resolve_public_ip, fetch_challenge_file, fetch_raw, fetch_from,
}

-- An address that is publicly routable: none of its traits says otherwise, and it is not in the
-- network 100.64.0.0/10.
pub record IsPublic (traits : Address → Traits) (addr : Address) : Type 0 where
  pub not_private : (traits addr).is_private ≡ false
  pub not_loopback : (traits addr).is_loopback ≡ false
  pub not_link_local : (traits addr).is_link_local ≡ false
  pub not_multicast : (traits addr).is_multicast ≡ false
  pub not_reserved : (traits addr).is_reserved ≡ false
  pub not_unspecified : (traits addr).is_unspecified ≡ false
  pub not_extra : is_extra_blocked addr ≡ false

-- A text is among others.
pub data Among (s : String) : List String → Type 0 where
  here : {rest : List String} → Among s (s ∷ rest)
  there : {other : String} {rest : List String} → Among s rest → Among s (other ∷ rest)

-- One of the addresses that were found, and publicly routable.
pub record Reachable (address_of : String → Option Address) (traits : Address → Traits)
    (ips : List String) (ip : String) : Type 0 where
  pub among : Among ip ips
  pub addr : Address
  pub reads : address_of ip ≡ some addr
  pub public : IsPublic traits addr

-- No connection, or one to such an address, with the domain as its name.
pub data Guarded (address_of : String → Option Address) (traits : Address → Traits)
    (domain : String) (ips : List String) : List Connection → Type 0 where
  not_made : Guarded address_of traits domain ips []
  made :
      (c : Connection)
      → c.hostname ≡ domain
      → Reachable address_of traits ips c.ip
      → Guarded address_of traits domain ips (c ∷ [])

allowed-IsPublic :
    (traits : Address → Traits) (addr : Address)
    → (has_trait (traits addr) || is_extra_blocked addr) ≡ false
    → IsPublic traits addr
allowed-IsPublic traits addr h = record {
  not_private = ground (arith, h);
  not_loopback = ground (arith, h);
  not_link_local = ground (arith, h);
  not_multicast = ground (arith, h);
  not_reserved = ground (arith, h);
  not_unspecified = ground (arith, h);
  not_extra = ground (arith, h);
}

module _ (address_of : String → Option Address) (traits : Address → Traits)
    (connect : Connection → Attempt (ℕ → Attempt Bytes)) (int_of : Bytes → Option ℤ) where
  choose : List String → Attempt String
  unfolding first_public
  choose = first_public address_of traits connect int_of

  first_public-Reachable :
      (ips : List String) (ip : String) → choose ips ≡ value ip → Reachable address_of traits ips ip
  unfolding choose first_public tested is_blocked
  first_public-Reachable [] ip h = absurd (cc h)
  first_public-Reachable (i ∷ ips) ip h = elim (Option-cases (address_of i)) [
    | inl bad ↦ absurd (cc (rw bad at h))
    | inr (addr, reads) ↦ elim (Bool-cases (has_trait (traits addr) || is_extra_blocked addr)) [
      | inl no_go ↦
          let p = first_public-Reachable ips ip (rw (reads, no_go) at h) in
          record { among = there p.among; addr = p.addr; reads = p.reads; public = p.public }
      | inr fine ↦
          let same : i ≡ ip = cc (rw (reads, fine) at h) in
          subst (λ (s : String). Reachable address_of traits (i ∷ ips) s) same
            (record {
              among = here;
              addr = addr;
              reads = reads;
              public = allowed-IsPublic traits addr fine;
            })
    ]
  ]

  fetch_from-Guarded :
      (domain : String) (max_bytes : ℕ) (ips : List String) (chosen : Attempt String)
      → choose ips ≡ chosen
      → Guarded address_of traits domain ips
          (fetch_from address_of traits connect int_of domain max_bytes chosen).1
  unfolding fetch_raw
  fetch_from-Guarded domain max_bytes ips (exception x) h = not_made
  fetch_from-Guarded domain max_bytes ips (value ip) h =
      elim (Bool-cases (is_ascii (request_text domain challenge_path))) [
        | inl sent ↦ rw sent (made _ refl (first_public-Reachable ips ip h))
        | inr unsent ↦ rw unsent not_made
      ]

-- However the names resolve and whatever the servers answer, the fetch of a challenge file makes no
-- connection, or a single one: under the name of the domain, to one of the addresses that were found
-- for it, which is neither private, loopback, link-local, multicast, reserved nor unspecified, nor in
-- 100.64.0.0/10.
pub fetch_challenge_file-Guarded :
    (address_of : String → Option Address) (traits : Address → Traits)
    (connect : Connection → Attempt (ℕ → Attempt Bytes)) (int_of : Bytes → Option ℤ)
    (domain : String) (max_bytes : ℕ) (ips : List String)
    → Guarded address_of traits domain ips
        (fetch_challenge_file address_of traits connect int_of domain max_bytes (value ips)).1
unfolding fetch_challenge_file resolve_public_ip choose
fetch_challenge_file-Guarded address_of traits connect int_of domain max_bytes ips =
    fetch_from-Guarded address_of traits connect int_of domain max_bytes ips _ refl

-- Whatever the server sends, the loop that reads its answer ends within as many rounds as there are
-- bytes missing: with fuel for them it does not run out.
pub receive-ends :
    (fuel max_bytes : ℕ) (recv : ℕ → Attempt Bytes) (sofar : Bytes)
    → max_bytes ≤ length sofar + fuel
    → receive fuel max_bytes recv sofar ≢ out_of_fuel
unfolding receive
receive-ends zero max_bytes recv sofar room = λ h.
    elim (Bool-cases (ltb (length sofar) max_bytes)) [
      | inl more ↦ absurd (omega (arith, ltb→lt (length sofar) max_bytes more))
      | inr full ↦ absurd (cc (rw full at h))
    ]
receive-ends (suc fuel) max_bytes recv sofar room =
    step (ltb (length sofar) max_bytes) (recv 0) λ b chunk.
      receive-ends fuel max_bytes (λ n. recv (suc n)) (sofar ++ (b ∷ chunk))
        (omega (arith, length-append sofar (b ∷ chunk)))
  where
    step :
        (more : Bool) (r : Attempt Bytes)
        → ((b : ℕ) (chunk : Bytes)
            → receive fuel max_bytes (λ n. recv (suc n)) (sofar ++ (b ∷ chunk)) ≢ out_of_fuel)
        → ◌≢◌ {A = Received}
            (elim more as (λ _. Received) [
              | false ↦ received sofar
              | true ↦ elim r as (λ _. Received) [
                | exception x ↦ failed x
                | value [] ↦ received sofar
                | value (b ∷ chunk) ↦
                    receive fuel max_bytes (λ n. recv (suc n)) (sofar ++ (b ∷ chunk))
              ]
            ])
            out_of_fuel
    step false r ih h = absurd (cc h)
    step true (exception x) ih h = absurd (cc h)
    step true (value []) ih h = absurd (cc h)
    step true (value (b ∷ chunk)) ih h = ih b chunk h
