-- ===== src/Admin/Schema.antt =====
-- admin/schema_types.py: the fixed fields of the catalog's items, their validation, and the item that
-- a submitted form makes.
pub mod Forms
pub mod Validity
use agent_embassy.Prelude.{
  ℕ, String, Bool, true, false, not, ◌&&◌, ◌||◌, Option, none, some, List, [], ◌∷◌, str_eq,
  if◌then◌else◌,
}
use agent_embassy.Prelude.Dict.{Dict, get}
use agent_embassy.Python.Text.{is_empty, strip, ◌+++◌}
use agent_embassy.Python.Json.{
  Json, Items, Fields, nil, cons, end, field, get_field, put_field, drop_field, equals_text,
}
use agent_embassy.Python.Attempt
use agent_embassy.Python.Attempt.{Attempt, value, exception, fields_of, items_of}

-- `Field`; how its input is shown is left out.
pub record Field : Type 0 where
  pub name : String
  pub label : String
  pub required : Bool

abbrev pub required_field : String → String → Field
required_field name label = record { name = name; label = label; required = true }

abbrev pub optional_field : String → String → Field
optional_field name label = record { name = name; label = label; required = false }

-- `KINDS`
abbrev pub kinds : Dict String
kinds =
    ("products", "Product")
    ∷ ("services", "Service")
    ∷ ("jobs", "JobPosting")
    ∷ ("demand", "Demand")
    ∷ []

-- `CORE_FIELDS`
abbrev pub core_fields : Dict (List Field)
core_fields =
    (
      "Product",
      required_field "name" "Name"
          ∷ optional_field "description" "Description"
          ∷ optional_field "sku" "SKU"
          ∷ optional_field "url" "URL"
          ∷ [],
    )
    ∷ (
      "Service",
      required_field "name" "Name"
          ∷ optional_field "description" "Description"
          ∷ optional_field "url" "URL"
          ∷ [],
    )
    ∷ (
      "JobPosting",
      required_field "title" "Title"
          ∷ optional_field "description" "Description"
          ∷ optional_field "employmentType" "Employment type"
          ∷ optional_field "url" "URL"
          ∷ [],
    )
    ∷ (
      "Demand",
      required_field "name" "Name"
          ∷ optional_field "description" "Description"
          ∷ optional_field "url" "URL"
          ∷ [],
    )
    ∷ []

-- `InvalidItem`, by its texts.
pub data InvalidItem : Type 0 where
  unrecognized_type unnamed_property : InvalidItem
  is_required : (label : String) → InvalidItem

-- `not str(item.get(name, "")).strip()`: only a text can be blank.
abbrev pub is_blank : Option Json → Bool
is_blank none = true
is_blank (some (Json.str s)) = is_empty (strip s)
is_blank (some _) = false

-- The loop over the fields; `none` is no complaint.
unfoldable pub missing_field : List Field → Fields → Option InvalidItem
unfolding get_field
missing_field [] item = none
missing_field (f ∷ fs) item =
    let rest = missing_field fs item in
    if f.required && is_blank (get_field item f.name) then some (is_required f.label) else rest

-- The loop over the additional properties.
unfoldable pub check_properties : Items → Attempt (Option InvalidItem)
unfolding get_field
check_properties nil = value none
check_properties (cons prop props) =
    let rest = check_properties props in
    Attempt.◌>>=◌ (fields_of prop) λ fields.
      if not (equals_text (get_field fields "@type") "PropertyValue")
        || is_blank (get_field fields "name")
      then value (some unnamed_property)
      else rest

-- `item.get("@type") not in CORE_FIELDS`: a list and a dict cannot be looked up.
abbrev pub fields_of_type : Option Json → Attempt (Option (List Field))
fields_of_type (some (Json.str t)) = value (get core_fields t)
fields_of_type (some (Json.arr _)) = exception "TypeError"
fields_of_type (some (Json.obj _)) = exception "TypeError"
fields_of_type _ = value none

abbrev pub properties_of : Option Json → Attempt Items
properties_of none = value nil
properties_of (some v) = items_of v

-- The checks once the type is known.
abbrev pub check_item : Option (List Field) → Fields → Attempt (Option InvalidItem)
check_item none item = value (some unrecognized_type)
check_item (some fields) item = elim (missing_field fields item) [
  | some complaint ↦ value (some complaint)
  | none ↦ Attempt.◌>>=◌ (properties_of (get_field item "additionalProperty")) check_properties
]

-- `validate_item`
unfoldable pub validate_item : Fields → Attempt (Option InvalidItem)
unfolding get_field missing_field check_properties
validate_item item =
    Attempt.◌>>=◌ (fields_of_type (get_field item "@type")) λ fields. check_item fields item

-- A submitted form: `form.get(name)`, and the two lists of the additional properties.
pub record Form : Type 0 where
  pub inputs : Dict String
  pub extra_name : List String
  pub extra_value : List String

-- `form.get(name, "").strip()`
abbrev pub input : Form → String → String
input form name = elim (get form.inputs name) [ none ↦ "" | some s ↦ strip s ]

-- One round of the loop over the fields.
abbrev pub set_field : Form → String → Fields → Fields
set_field form name item =
    if is_empty (input form ("field__" +++ name))
    then drop_field item name
    else put_field item name (Json.str (input form ("field__" +++ name)))

unfoldable pub set_fields : Form → List Field → Fields → Fields
unfolding put_field drop_field
set_fields form [] item = item
set_fields form (f ∷ fs) item = set_fields form fs (set_field form f.name item)

abbrev pub property_value : String → String → Json
property_value name text = Json.obj (
    field "@type" (Json.str "PropertyValue")
      (field "name" (Json.str (strip name)) (field "value" (Json.str (strip text)) end)))

-- The list comprehension over `zip(names, values)`.
unfoldable pub additional : List String → List String → Items
additional [] texts = nil
additional (name ∷ names) [] = nil
additional (name ∷ names) (text ∷ texts) =
    let rest = additional names texts in
    if is_empty (strip name) then rest else cons (property_value name text) rest

abbrev pub set_additional : Items → Fields → Fields
set_additional nil item = drop_field item "additionalProperty"
set_additional (cons prop props) item =
    put_field item "additionalProperty" (Json.arr (cons prop props))

-- `CORE_FIELDS[item_type]`
abbrev pub fields_or_nil : String → List Field
fields_or_nil item_type = elim (get core_fields item_type) [ none ↦ [] | some fields ↦ fields ]

-- `item_from_form`, for an item type of `CORE_FIELDS`; a new item starts from no fields.
unfoldable pub item_from_form : String → Form → Fields → Fields
unfolding set_fields additional put_field drop_field
item_from_form item_type form existing =
    set_additional (additional form.extra_name form.extra_value)
      (set_fields form (fields_or_nil item_type) (put_field existing "@type" (Json.str item_type)))
