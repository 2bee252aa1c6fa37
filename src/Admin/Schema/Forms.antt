-- ===== src/Admin/Schema/Forms.antt =====
-- The item that a form makes: what it keeps, and when it is valid.
use agent_embassy.Prelude.{
  String, ◌≡◌, refl, ◌∙◌, Bool, false, List, [], ◌∷◌, arith, str_eq, any, inl, inr, Bool-cases,
}
use agent_embassy.Python.Text.{is_empty, ◌+++◌}
use agent_embassy.Python.Json.{
  Items, Fields, nil, cons, get_field, get_field-put_field, get_field-drop_field,
}
use agent_embassy.Admin.Schema.{
  Field, Form, input, set_field, set_fields, additional, set_additional, fields_or_nil,
  item_from_form,
}

get-set_field :
    (form : Form) (name k : String) (item : Fields)
    → str_eq name k ≡ false
    → get_field (set_field form name item) k ≡ get_field item k
get-set_field form name k item other =
    elim (Bool-cases (is_empty (input form ("field__" +++ name)))) [
      | inl blank ↦ rw blank (get_field-drop_field item name k ∙ rw other)
      | inr filled ↦ rw filled (get_field-put_field item name k _ ∙ rw other)
    ]

-- One of the fields has the name.
abbrev pub names : List Field → String → Bool
names fields k = any (λ f. str_eq f.name k) fields

pub get-set_fields :
    (form : Form) (fields : List Field) (k : String) (item : Fields)
    → names fields k ≡ false
    → get_field (set_fields form fields item) k ≡ get_field item k
unfolding set_fields
get-set_fields form [] k item h = refl
get-set_fields form (f ∷ fs) k item h = elim (Bool-cases (str_eq f.name k)) [
  | inl hit ↦ absurd (ground arith)
  | inr other ↦
      get-set_fields form fs k (set_field form f.name item) (rw other at h)
      ∙ get-set_field form f.name k item other
]

pub get-set_additional :
    (props : Items) (k : String) (item : Fields)
    → str_eq "additionalProperty" k ≡ false
    → get_field (set_additional props item) k ≡ get_field item k
get-set_additional nil k item other = get_field-drop_field item "additionalProperty" k ∙ rw other
get-set_additional (cons p ps) k item other =
    get_field-put_field item "additionalProperty" k _ ∙ rw other

-- Editing an item with the form leaves every field as it was that is neither its type, nor one of
-- the fixed fields of its type, nor the list of the additional properties.
pub item_from_form-unknown :
    (item_type : String) (form : Form) (existing : Fields) (k : String)
    → names (fields_or_nil item_type) k ≡ false
    → str_eq "@type" k ≡ false
    → str_eq "additionalProperty" k ≡ false
    → get_field (item_from_form item_type form existing) k ≡ get_field existing k
unfolding item_from_form
item_from_form-unknown item_type form existing k core type extra =
    get-set_additional (additional form.extra_name form.extra_value) k _ extra
    ∙ get-set_fields form (fields_or_nil item_type) k _ core
    ∙ get_field-put_field existing "@type" k _
    ∙ rw type
