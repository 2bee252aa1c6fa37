-- ===== src/Admin/Http.antt =====
-- The requests that admin/ makes to the other services, and what it is answered: the common part of
-- `_admin_request`, `_bao_request`, `_verify_request`, `_tier3_request` and `get_status`.
pub mod Binds
use agent_embassy.Prelude.{ℕ, suc, String, Option, List, ◌∷◌}
use agent_embassy.Python.Json.{Json, Body}
use agent_embassy.Python.Attempt.{Attempt, value, exception}

pub data Method : Type 0 where
  get post put delete : Method

-- A request: the URL without the base of the service, and its JSON body. The headers are left out.
pub record Call : Type 0 where
  pub method : Method
  pub url : String
  pub body : Option Json

-- An HTTP response of any status, with its header Location; or a request that got none, because the
-- service could not be reached or for another reason.
pub data Reply : Type 0 where
  response : (status : ℕ) (location : Option String) → Body → Reply
  unreachable failed : Reply

-- `replies` is what the services have in store, request by request; `sent` lists the requests made,
-- the last first.
pub record World : Type 0 where
  pub replies : ℕ → Reply
  pub sent : List Call

abbrev pub Action : Type 0 → Type 0
Action A = World → Attempt A × World

abbrev pub pure : {A : Type 0} → A → Action A
pure a w = (value a, w)

-- A computation that touches nothing.
abbrev pub attempt : {A : Type 0} → Attempt A → Action A
attempt a w = (a, w)

infixl 5 ◌>>=◌ ◌>>◌
abbrev pub ◌>>=◌ : {A B : Type 0} → Action A → (A → Action B) → Action B
◌>>=◌ m f w = let (r, w') = m w in elim r [ value a ↦ f a w' | exception x ↦ (exception x, w') ]

abbrev pub ◌>>◌ : {A B : Type 0} → Action A → Action B → Action B
m >> k = m >>= λ _. k

-- One request.
unfoldable pub request : Method → String → Option Json → Action Reply
request method url body w = (
  value (w.replies 0),
  record {
    replies = λ n. w.replies (suc n);
    sent = record { method = method; url = url; body = body } ∷ w.sent;
  },
)

-- The status of a reply; 0 where there is none.
abbrev pub status_of : Reply → ℕ
status_of (response status location body) = status
status_of unreachable = 0
status_of failed = 0

-- The body of a reply, which is only read at a status that is not 0.
abbrev pub body_of : Reply → Body
body_of (response status location body) = body
body_of unreachable = Body.malformed
body_of failed = Body.malformed
