-- ===== src/Python/Fields.antt =====
-- The bounds of pydantic's `Field`, and the fields of a body by what `json.loads` has made of it.
pub mod Read
use Prim.Native.String
use agent_embassy.Prelude.{ℕ, zero, suc, String, ◌&&◌, not, Option, none, some, leb, if◌then◌else◌}
use agent_embassy.Prelude.Int.{ℤ, pos, negsuc}
use agent_embassy.Python.Text.{is_empty}
use agent_embassy.Python.Json.{Json, Fields, get_field, as_str}

-- `Field(gt=0, le=bound)`
abbrev pub positive_up_to : ℕ → ℤ → Option ℕ
positive_up_to bound (negsuc n) = none
positive_up_to bound (pos zero) = none
positive_up_to bound (pos (suc n)) = if leb (suc n) bound then some (suc n) else none

-- `Field(min_length=1, max_length=bound)`
abbrev pub text_up_to : ℕ → String → Option String
text_up_to bound s = if not (is_empty s) && leb (String.count s) bound then some s else none

abbrev pub bind : {A B : Type 0} → Option A → (A → Option B) → Option B
bind none k = none
bind (some a) k = k a

-- A field of type `str`; a missing one and a value of another type are refused.
unfoldable pub text_field : Fields → String → ℕ → Option String
text_field fields key bound = bind (as_str (get_field fields key)) (text_up_to bound)

-- A field of type `int`; `coerce` is what pydantic makes of a value for such a field.
unfoldable pub number_field : (Json → Option ℤ) → Fields → String → ℕ → Option ℕ
number_field coerce fields key bound =
    bind (get_field fields key) λ v. bind (coerce v) (positive_up_to bound)
