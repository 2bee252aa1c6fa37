-- ===== src/Python/Attempt.antt =====
-- A computation that returns a value or raises an exception, given by its name.
use agent_embassy.Prelude.{String, ◌≡◌, refl, Option, none, some, if◌then◌else◌}
use agent_embassy.Python.Text.{is_empty}
use agent_embassy.Python.Json.{Json, Items, Fields, Body, nil, end, truthy}

pub data Attempt {ℓ} (A : Type ℓ) : Type ℓ where
  value : A → Attempt A
  exception : String → Attempt A

infixl 5 ◌>>=◌
abbrev pub ◌>>=◌ : {A B : Type 0} → Attempt A → (A → Attempt B) → Attempt B
◌>>=◌ m f = elim m [ value a ↦ f a | exception x ↦ exception x ]

-- The fields of a value that `.get` is called on.
abbrev pub fields_of : Json → Attempt Fields
fields_of (Json.obj fields) = value fields
fields_of _ = exception "AttributeError"

-- `data.get(key) or {}`, on which `.get` is called next.
abbrev pub fields_or_empty : Option Json → Attempt Fields
fields_or_empty none = value end
fields_or_empty (some v) = if truthy v then fields_of v else value end

-- What a `for` loop runs through. Iterating over anything but a list gives texts, which have no
-- `.get`, or fails itself.
abbrev pub items_of : Json → Attempt Items
items_of (Json.arr items) = value items
items_of (Json.obj end) = value nil
items_of (Json.obj _) = exception "AttributeError"
items_of (Json.str s) = if is_empty s then value nil else exception "AttributeError"
items_of _ = exception "TypeError"

-- `data.get(key) or []` in the head of a `for` loop.
abbrev pub items_or_empty : Option Json → Attempt Items
items_or_empty none = value nil
items_or_empty (some v) = if truthy v then items_of v else value nil

-- `json.loads(body)` under `except json.JSONDecodeError`: `none` is that exception; bytes that are
-- no text raise another one.
abbrev pub loads : Body → Attempt (Option Json)
loads (Body.json v) = value (some v)
loads Body.malformed = value none
loads Body.undecodable = exception "UnicodeDecodeError"

-- A chain that returns has a first step that returned.
pub bind-value :
    {A B : Type 0} (m : Attempt A) (f : A → Attempt B) (b : B)
    → m >>= f ≡ value b
    → (a : A) × (m ≡ value a) × (f a ≡ value b)
bind-value (value a) f b h = (a, refl, h)
bind-value (exception x) f b h = absurd (cc h)
