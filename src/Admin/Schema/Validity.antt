-- ===== src/Admin/Schema/Validity.antt =====
-- When the item that a form makes is valid.
use agent_embassy.Prelude.{
  String, ◌≡◌, refl, ap, ◌∙◌, Bool, true, not, ◌&&◌, Option, none, some, List, [], ◌∷◌, arith,
  str_eq, str_eq_refl, all, inl, inr, Bool-cases, Option-cases, if◌then◌else◌,
}
use agent_embassy.Prelude.Dict.{Dict, get}
use agent_embassy.Python.Text.{is_empty, strip, ◌+++◌}
use agent_embassy.Python.Text.Strip.{strip-strip}
use agent_embassy.Python.Json.{
  Json, Items, Fields, nil, cons, get_field, put_field, get_field-put_field, get_field-drop_field,
}
use agent_embassy.Python.Attempt
use agent_embassy.Python.Attempt.{Attempt, value}
use agent_embassy.Admin.Schema.{
  Field, InvalidItem, is_required, Form, input, set_field, set_fields, additional, set_additional,
  fields_or_nil, core_fields, item_from_form, validate_item, missing_field, check_properties,
  is_blank, properties_of, check_item,
}
use agent_embassy.Admin.Schema.Forms.{names, get-set_fields, get-set_additional}

-- The first required field, in the order of the type, that the form leaves blank.
abbrev pub first_blank : Form → List Field → Option InvalidItem
first_blank form [] = none
first_blank form (f ∷ fs) =
    if f.required && is_empty (input form ("field__" +++ f.name))
    then some (is_required f.label)
    else first_blank form fs

-- No name is there twice, and none is that of the additional properties.
abbrev well_named : List Field → Bool
well_named [] = true
well_named (f ∷ fs) =
    not (names fs f.name) && (not (str_eq "additionalProperty" f.name) && well_named fs)

-- What the form stores under the name of a field.
abbrev stored : Form → String → Option Json
stored form name =
    if is_empty (input form ("field__" +++ name))
    then none
    else some (Json.str (input form ("field__" +++ name)))

get-set_field_self :
    (form : Form) (name : String) (item : Fields)
    → get_field (set_field form name item) name ≡ stored form name
get-set_field_self form name item = elim (Bool-cases (is_empty (input form ("field__" +++ name)))) [
  | inl blank ↦ rw blank (get_field-drop_field item name name ∙ rw (str_eq_refl name))
  | inr filled ↦ rw filled (get_field-put_field item name name _ ∙ rw (str_eq_refl name))
]

abbrev Stores : Form → List Field → Fields → Type 0
Stores form [] item = Unit
Stores form (f ∷ fs) item = (get_field item f.name ≡ stored form f.name) × Stores form fs item

set_fields-Stores :
    (form : Form) (fields : List Field) (props : Items) (item : Fields)
    → well_named fields ≡ true
    → Stores form fields (set_additional props (set_fields form fields item))
unfolding set_fields
set_fields-Stores form [] props item h = tt
set_fields-Stores form (f ∷ fs) props item h = (
  get-set_additional props f.name _ (ground arith)
      ∙ get-set_fields form fs f.name (set_field form f.name item) (ground arith)
      ∙ get-set_field_self form f.name item,
  set_fields-Stores form fs props (set_field form f.name item) (ground arith),
)

strip-input : (form : Form) (name : String) → strip (input form name) ≡ input form name
unfolding strip
strip-input form name = elim (Option-cases (get form.inputs name)) [
  | inl missing ↦ rw (missing, input) refl
  | inr (s, found) ↦ rw (found, input) (strip-strip s)
]

is_blank-stored :
    (form : Form) (name : String)
    → is_blank (stored form name) ≡ is_empty (input form ("field__" +++ name))
is_blank-stored form name = elim (Bool-cases (is_empty (input form ("field__" +++ name)))) [
  | inl blank ↦ rw blank
  | inr filled ↦ rw filled (ap is_empty (strip-input form ("field__" +++ name)) ∙ filled)
]

missing_field-Stores :
    (form : Form) (fields : List Field) (item : Fields)
    → Stores form fields item
    → missing_field fields item ≡ first_blank form fields
unfolding missing_field
missing_field-Stores form [] item h = refl
missing_field-Stores form (f ∷ fs) item (here, more) =
    rw (here, is_blank-stored form f.name, missing_field-Stores form fs item more)

check_properties-additional :
    (ns ts : List String) → check_properties (additional ns ts) ≡ value none
unfolding check_properties additional get_field
check_properties-additional [] ts = refl
check_properties-additional (n ∷ ns) [] = refl
check_properties-additional (n ∷ ns) (t ∷ ts) = elim (Bool-cases (is_empty (strip n))) [
  | inl blank ↦ rw blank (check_properties-additional ns ts)
  | inr named ↦ rw (named, strip-strip n, check_properties-additional ns ts) (rw named)
]

core_fields-well_named :
    (table : Dict (List Field)) (t : String) (fields : List Field)
    → all (λ e. not (names e.1 "@type") && well_named e.1) table ≡ true
    → get table t ≡ some fields
    → (not (names fields "@type") && well_named fields) ≡ true
core_fields-well_named [] t fields h e = absurd (cc e)
core_fields-well_named ((k, fs) ∷ table) t fields h e = elim (Bool-cases (str_eq k t)) [
  | inl here ↦ let same : some fs ≡ some fields = rw here at e in ground arith
  | inr later ↦ core_fields-well_named table t fields (ground arith) (rw later at e)
]

abbrev listed_properties : Items → Option Json
listed_properties nil = none
listed_properties (cons p ps) = some (Json.arr (cons p ps))

get-additional :
    (props : Items) (item : Fields)
    → get_field (set_additional props item) "additionalProperty" ≡ listed_properties props
get-additional nil item = get_field-drop_field item "additionalProperty" "additionalProperty"
get-additional (cons p ps) item =
    get_field-put_field item "additionalProperty" "additionalProperty" _

checked_properties :
    (props : Items)
    → check_properties props ≡ value none
    → Attempt.◌>>=◌ (properties_of (listed_properties props)) check_properties ≡ value none
unfolding check_properties
checked_properties nil h = refl
checked_properties (cons p ps) h = h

check_item-fields :
    (form : Form) (fields : List Field) (item : Fields)
    → missing_field fields item ≡ first_blank form fields
    → Attempt.◌>>=◌ (properties_of (get_field item "additionalProperty")) check_properties
      ≡ value none
    → check_item (some fields) item ≡ value (first_blank form fields)
check_item-fields form fields item missing props = elim (Option-cases (first_blank form fields)) [
  | inl complete ↦
      let none' : missing_field fields item ≡ none = missing ∙ complete in
      rw (none', complete, check_item) props
  | inr (c, blank) ↦
      let some' : missing_field fields item ≡ some c = missing ∙ blank in
      rw (some', blank, check_item)
]

-- The item that a form makes, whatever it was before, fails the validation exactly with the
-- complaint about the first required field of its type that the form leaves blank; it is valid if
-- the form leaves none of them blank.
pub validate_item-form :
    (item_type : String) (form : Form) (existing : Fields) (fields : List Field)
    → get core_fields item_type ≡ some fields
    → validate_item (item_from_form item_type form existing) ≡ value (first_blank form fields)
unfolding validate_item item_from_form
validate_item-form item_type form existing fields known =
    let props = additional form.extra_name form.extra_value in
    let typed = put_field existing "@type" (Json.str item_type) in
    let item = set_additional props (set_fields form fields typed) in
    let fine = core_fields-well_named core_fields item_type fields refl known in
    let type : get_field item "@type" ≡ some (Json.str item_type) =
      get-set_additional props "@type" (set_fields form fields typed) refl
      ∙ get-set_fields form fields "@type" typed (ground arith)
      ∙ get_field-put_field existing "@type" "@type" (Json.str item_type) in
    let made : item_from_form item_type form existing ≡ item = rw (known, fields_or_nil) in
    let checked =
      check_item-fields form fields item
        (missing_field-Stores form fields item
          (set_fields-Stores form fields props typed (ground arith)))
        (ap (λ o. Attempt.◌>>=◌ (properties_of o) check_properties)
            (get-additional props (set_fields form fields typed))
          ∙ checked_properties props
              (check_properties-additional form.extra_name form.extra_value)) in
    ap validate_item made ∙ rw (type, known) checked
