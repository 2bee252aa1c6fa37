-- ===== src/Verify/Action.antt =====
-- A request handler of verify/: it reads and writes the store, reads the clock, draws random
-- tokens, calls Keycloak, the challenged host and the internal agent, and returns or raises an
-- `HTTPException`. What was written before a raise stays written.
pub mod Rules
use agent_embassy.Prelude.{ℕ, suc, String, Option, Bool, List, if◌then◌else◌}
use agent_embassy.Python.Json.{Body}
use agent_embassy.Verify.Store.{Store}

-- An `HTTPException`; an exception that no handler catches is a 500 of the framework.
pub record HttpError : Type 0 where
  pub status : ℕ
  pub detail : String

pub data Result {ℓ} (A : Type ℓ) : Type ℓ where
  ok : A → Result A
  err : HttpError → Result A

-- What is sent to the internal agent: `_handoff_envelope`.
pub data Mode : Type 0 where
  within_mandate approved_by_human : Mode

pub record Envelope : Type 0 where
  pub action_id : String
  pub action_type : String
  pub client_id : String
  pub requested_at : ℕ
  pub item : String
  pub quantity : ℕ
  pub amount_cents : ℕ
  pub mode : Mode
  pub weekly_limit_cents : ℕ
  pub used_cents : ℕ
  pub remaining_cents : ℕ
  pub window_seconds : ℕ
  pub approved_by : Option String

-- The result of one `_post_action`: an HTTP response with its status and body, a timeout, or a
-- connection that failed.
pub data Transport : Type 0 where
  response : (status : ℕ) → Body → Transport
  timeout down : Transport

-- What the outside world has in store, call by call: clock readings, random tokens, the replies of
-- Keycloak's introspection endpoint and of the agent, and the outcomes of challenge fetches, where
-- `none` is a fetch that raised.
pub record Outside : Type 0 where
  pub clock : ℕ → ℕ
  pub tokens : ℕ → String
  pub introspections : ℕ → ℕ × Body
  pub agent : ℕ → Transport
  pub fetches : ℕ → String → Option (ℕ × String)

-- `sent` lists the envelopes that were posted to the agent, the last first.
pub record World : Type 0 where
  pub store : Store
  pub outside : Outside
  pub sent : List Envelope

abbrev pub Action : Type 0 → Type 0
Action A = World → Result A × World

abbrev pub rest {ℓ} : {A : Type ℓ} → (ℕ → A) → ℕ → A
rest f n = f (suc n)

module _ {A : Type 0} where
  abbrev pub pure : A → Action A
  pure a w = (ok a, w)

  abbrev pub raise : ℕ → String → Action A
  raise status detail w = (err (record { status = status; detail = detail }), w)

  abbrev pub gets : (Store → A) → Action A
  gets f w = (ok (f w.store), w)

abbrev pub modify : (Store → Store) → Action (Unit {0})
modify f w = (ok tt, record w { store = f w.store })

infixl 5 ◌>>=◌ ◌>>◌
abbrev pub ◌>>=◌ : {A B : Type 0} → Action A → (A → Action B) → Action B
◌>>=◌ m f w = let (r, w') = m w in elim r [ ok a ↦ f a w' | err e ↦ (err e, w') ]

abbrev pub ◌>>◌ : {A B : Type 0} → Action A → Action B → Action B
m >> k = m >>= λ _. k

-- `time.time()`
abbrev pub time : Action ℕ
time w = (
  ok (w.outside.clock 0),
  record w { outside = record w.outside { clock = rest w.outside.clock } },
)

-- `secrets.token_urlsafe(32)`, `secrets.token_hex(4)`
abbrev pub random_token : Action String
random_token w = (
  ok (w.outside.tokens 0),
  record w { outside = record w.outside { tokens = rest w.outside.tokens } },
)

-- `if not test: raise`
abbrev pub require : Bool → ℕ → String → Action (Unit {0})
require test status detail = if test then pure tt else raise status detail
