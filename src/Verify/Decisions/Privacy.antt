-- ===== src/Verify/Decisions/Privacy.antt =====
-- What a status poll tells a client about the actions of others.
use agent_embassy.Prelude.{
  ℕ, String, ◌≡◌, ◌≢◌, refl, sym, ap, ◌∙◌, true, false, Option, none, some, arith, ◌==◌,
  if◌then◌else◌, str_eq, str_eq_iff, str_eq_ne, inl, inr, Bool-cases,
}
use agent_embassy.Python.Json.{Json, Fields, Body, get_field, is_true}
use agent_embassy.Verify.Store.{Tier3Resolution}
use agent_embassy.Verify.Action.{World, HttpError, Action, Result, ok, err, require, ◌>>=◌}
use agent_embassy.Verify.Action.Rules.{Returns, Returns-pure, returns_rules}
use agent_embassy.Verify.Requests.{Request, bearer_token}
use agent_embassy.Verify.Network.{Introspected, claims, invalid_token, uncaught, read_introspection}
use agent_embassy.Verify.Orders.{claimed_client, is_success}
use agent_embassy.Verify.Decisions.{show_own, poll_as, poll_claims, poll_token}

abbrev BelongsTo : String → Tier3Resolution → Type 0
BelongsTo c r = r.client_id ≡ c

show_own-Returns :
    (c : String) (found : Option Tier3Resolution) → Returns (BelongsTo c) (show_own c found)
unfolding show_own
show_own-Returns c none = search returns_rules
show_own-Returns c (some r) = elim (Bool-cases (str_eq r.client_id c)) [
  | inl own ↦ rw own (Returns-pure r ((str_eq_iff r.client_id c).0 own))
  | inr other ↦ rw other (search returns_rules)
]

-- A resolution of another client is answered exactly like one that does not exist.
show_own-foreign :
    (c : String) (r : Tier3Resolution) → r.client_id ≢ c → show_own c (some r) ≡ show_own c none
unfolding show_own
show_own-foreign c r other = rw (str_eq_ne r.client_id c other)

polled : (id c : String) → Returns (BelongsTo c) (poll_as id c)
unfolding poll_as
polled id c = search (returns_rules, show_own-Returns)

abbrev fields_in : Introspected → Fields
fields_in (claims fields) = fields
fields_in invalid_token = Fields.end
fields_in (uncaught e) = Fields.end

never : {fields : Fields} → invalid_token ≡ claims fields → ⊥
never h = cc

failed : {fields : Fields} {e : String} → uncaught e ≡ claims fields → ⊥
failed h = cc

no_object :
    (status : ℕ) (fields : Fields)
    → (if status == 200 then uncaught "AttributeError" else invalid_token) ≡ claims fields
    → ⊥
no_object status fields h = elim (Bool-cases (status == 200)) [
  | inl good ↦ failed (rw good at h)
  | inr bad ↦ never (rw bad at h)
]

is_true-active : (o : Option Json) → is_true o ≡ true → o ≡ some (Json.bool true)
is_true-active none h = cc
is_true-active (some (Json.bool true)) h = refl
is_true-active (some (Json.bool false)) h = cc
is_true-active (some Json.null) h = cc
is_true-active (some (Json.int n)) h = cc
is_true-active (some (Json.float s)) h = cc
is_true-active (some (Json.str s)) h = cc
is_true-active (some (Json.arr l)) h = cc
is_true-active (some (Json.obj l)) h = cc

-- A read of the introspection endpoint's answer that yields claims.
read-claims :
    (status : ℕ) (body : Body) (fields : Fields)
    → read_introspection status body ≡ claims fields
    → (status ≡ 200)
      × (body ≡ Body.json (Json.obj fields))
      × (is_true (get_field fields "active") ≡ true)
unfolding read_introspection
read-claims status Body.undecodable fields h = elim (Bool-cases (status == 200)) [
  | inl good ↦ absurd (failed (rw good at h))
  | inr bad ↦ absurd (never (rw bad at h))
]
read-claims status Body.malformed fields h = cc
read-claims status (Body.json (Json.obj f)) fields h = elim (Bool-cases (status == 200)) [
  | inr bad ↦ absurd (never (rw bad at h))
  | inl good ↦ elim (Bool-cases (is_true (get_field f "active"))) [
    | inr idle ↦ absurd (never (rw (good, idle) at h))
    | inl active ↦
        let same : f ≡ fields = ap fields_in (rw (good, active) at h) in
        (
          ground arith,
          ap (λ g. Body.json (Json.obj g)) same,
          ap (λ g. is_true (get_field g "active")) (sym same) ∙ active,
        )
  ]
]
read-claims status (Body.json Json.null) fields h = absurd (no_object status fields h)
read-claims status (Body.json (Json.bool b)) fields h = absurd (no_object status fields h)
read-claims status (Body.json (Json.int n)) fields h = absurd (no_object status fields h)
read-claims status (Body.json (Json.float s)) fields h = absurd (no_object status fields h)
read-claims status (Body.json (Json.str s)) fields h = absurd (no_object status fields h)
read-claims status (Body.json (Json.arr l)) fields h = absurd (no_object status fields h)

-- What a request takes to be shown the resolution `r`: its certificate was verified, and Keycloak,
-- asked for its bearer token, says that the token is active and issued to the client of `r`.
pub record IsOwn (request : Request) (w : World) (r : Tier3Resolution) : Type 0 where
  pub token : String
  pub fields : Fields
  pub certificate : request.ssl_client_verify ≡ some "SUCCESS"
  pub bearer : bearer_token request.authorization ≡ some token
  pub introspected : w.outside.introspections 0 ≡ (200, Body.json (Json.obj fields))
  pub active : get_field fields "active" ≡ some (Json.bool true)
  pub own : r.client_id ≡ claimed_client fields

refused : {A : Type 0} {e : HttpError} {a : A} → ◌≡◌ {A = Result A} (err e) (ok a) → ⊥
refused h = cc

introspected :
    (id : String) (w : World) (r : Tier3Resolution) (status : ℕ) (body : Body)
    (found : Introspected)
    → read_introspection status body ≡ found
    → ((poll_claims found >>= poll_as id) w).0 ≡ ok r
    → (fields : Fields) × (status ≡ 200)
      × (body ≡ Body.json (Json.obj fields))
      × (get_field fields "active" ≡ some (Json.bool true))
      × (r.client_id ≡ claimed_client fields)
unfolding poll_claims poll_as
introspected id w r status body invalid_token e h = absurd (refused h)
introspected id w r status body (uncaught x) e h = absurd (refused h)
introspected id w r status body (claims fields) e h =
    let (good, read, active) = read-claims status body fields e in
    (fields, good, read, is_true-active _ active, (polled id (claimed_client fields)).at w r h)

-- `get_tier3_order_status` from the bearer token on, and from the certificate on.
abbrev from_token : String → Request → Action Tier3Resolution
from_token id request = poll_token (bearer_token request.authorization) >>= poll_as id

abbrev from_certificate : String → Request → Action Tier3Resolution
from_certificate id request =
    require (is_success request.ssl_client_verify) 401 "client certificate not verified" >>= λ _.
    from_token id request
