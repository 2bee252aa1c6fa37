-- ===== src/Python/Json.antt =====
-- The values of `json.loads`, and what it makes of the body of a reply.
use agent_embassy.Prelude.{
  zero, String, ◌≡◌, refl, Bool, true, false, not, ◌||◌, Option, none, some, str_eq, str_eq_iff,
  arith, if◌then◌else◌,
}
use agent_embassy.Prelude.Int.{ℤ, pos}
use agent_embassy.Python.Text.{is_empty}

mutual
  pub data Json : Type 0 where
    null : Json
    bool : Bool → Json
    int : ℤ → Json
    -- a number that is no int, by the text that Python prints for it
    float : String → Json
    str : String → Json
    arr : Items → Json
    obj : Fields → Json

  pub data Items : Type 0 where
    nil : Items
    cons : Json → Items → Items

  -- A dict: no key is there twice.
  pub data Fields : Type 0 where
    end : Fields
    field : String → Json → Fields → Fields

-- A body, by what `json.loads` does with its bytes: a value, a `JSONDecodeError`, or a
-- `UnicodeDecodeError` of bytes that are no text.
pub data Body : Type 0 where
  json : Json → Body
  malformed undecodable : Body

-- `data.get(key)` of a dict; `none` is a missing key.
unfoldable pub get_field : Fields → String → Option Json
get_field end k = none
get_field (field j v rest) k = if str_eq j k then some v else get_field rest k

-- The text of a value that `isinstance(value, str)` accepts.
abbrev pub as_str : Option Json → Option String
as_str (some (str s)) = some s
as_str _ = none

-- `bool(value)`; a zero float is printed as one of two texts.
abbrev pub truthy : Json → Bool
truthy null = false
truthy (bool b) = b
truthy (int (pos zero)) = false
truthy (int _) = true
truthy (float s) = not (str_eq s "0.0" || str_eq s "-0.0")
truthy (str s) = not (is_empty s)
truthy (arr nil) = false
truthy (arr (cons _ _)) = true
truthy (obj end) = false
truthy (obj (field _ _ _)) = true

-- `data.get(key) is False`, `data.get(key) is True`
abbrev pub is_false : Option Json → Bool
is_false (some (bool false)) = true
is_false _ = false

abbrev pub is_true : Option Json → Bool
is_true (some (bool true)) = true
is_true _ = false

-- `data.get(key) == "text"`
abbrev pub equals_text : Option Json → String → Bool
equals_text (some (str s)) t = str_eq s t
equals_text _ t = false

-- `d[key] = value`: a key that is there keeps its place.
unfoldable pub put_field : Fields → String → Json → Fields
put_field end k v = field k v end
put_field (field j w rest) k v =
    if str_eq j k then field j v rest else field j w (put_field rest k v)

-- `d.pop(key, None)`
unfoldable pub drop_field : Fields → String → Fields
drop_field end k = end
drop_field (field j w rest) k =
    if str_eq j k then drop_field rest k else field j w (drop_field rest k)

pub get_field-put_field :
    (d : Fields) (k j : String) (v : Json)
    → get_field (put_field d k v) j ≡ (if str_eq k j then some v else get_field d j)
unfolding get_field put_field
get_field-put_field end k j v = refl
get_field-put_field (field i w d) k j v =
    ground (arith, str_eq_iff k j, str_eq_iff i k, str_eq_iff i j, get_field-put_field d k j v)

pub get_field-drop_field :
    (d : Fields) (k j : String)
    → get_field (drop_field d k) j ≡ (if str_eq k j then none else get_field d j)
unfolding get_field drop_field
get_field-drop_field end k j = ground arith
get_field-drop_field (field i w d) k j =
    ground (arith, str_eq_iff k j, str_eq_iff i k, str_eq_iff i j, get_field-drop_field d k j)
