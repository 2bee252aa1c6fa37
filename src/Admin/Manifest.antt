-- ===== src/Admin/Manifest.antt =====
-- admin/main.py: the editor of the manifest, which changes the entity, the entry of tier 0, the
-- security flags and the date of the document.
pub mod Kept
use agent_embassy.Prelude.{
  zero, String, Bool, true, false, ◌||◌, Option, none, some, List, [], ◌∷◌, str_eq, if◌then◌else◌,
}
use agent_embassy.Prelude.Int.{ℤ, pos}
use agent_embassy.Prelude.Dict.{get}
use agent_embassy.Python.Text.{is_empty, strip, ◌+++◌}
use agent_embassy.Python.Json.{
  Json, Items, Fields, nil, cons, end, field, get_field, put_field, drop_field,
}
use agent_embassy.Python.Attempt
use agent_embassy.Python.Attempt.{Attempt, value, exception, fields_of, items_of}
use agent_embassy.Admin.Schema.{Form, input}
use agent_embassy.Admin.Disk.{Disk, Fault, Ending, finished, raised, stopped}
use agent_embassy.Admin.Catalog.{update_manifest, load_manifest}
use agent_embassy.Admin.CatalogPages.{Answer, redirect, http_error, server_error, gone}

-- `value == 0` of a value of a dict
abbrev pub is_zero : Option Json → Bool
is_zero (some (Json.int (pos zero))) = true
is_zero (some (Json.bool false)) = true
is_zero (some (Json.float s)) = str_eq s "0.0" || str_eq s "-0.0"
is_zero _ = false

abbrev pub is_tier0 : Fields → Bool
is_tier0 tier = is_zero (get_field tier "tier")

-- The loop of `_tier0_entry`, with a change to the entry that it finds; none is found where the
-- `HTTPException` is raised.
unfoldable pub edit_tier0 : (Fields → Fields) → Items → Attempt Items
unfolding get_field
edit_tier0 edit nil = exception "HTTPException"
edit_tier0 edit (cons tier tiers) =
    let rest = edit_tier0 edit tiers in
    Attempt.◌>>=◌ (fields_of tier) λ fields.
      if is_tier0 fields
      then value (cons (Json.obj (edit fields)) tiers)
      else Attempt.◌>>=◌ rest (λ changed. value (cons tier changed))

-- `doc.get("access_tiers", [])`
abbrev pub tiers_of : Fields → Attempt Items
tiers_of doc = elim (get_field doc "access_tiers") [ none ↦ value nil | some v ↦ items_of v ]

-- `extra`: a name that is there twice has its last value.
unfoldable pub extra_of : List String → List String → Fields → Fields
unfolding put_field
extra_of [] texts extra = extra
extra_of (name ∷ names) [] extra = extra
extra_of (name ∷ names) (text ∷ texts) extra =
    extra_of names texts (
      if is_empty (strip name) then extra else put_field extra (strip name) (Json.str (strip text)))

abbrev pub set_extra : Fields → Fields → Fields
set_extra end tier = drop_field tier "extra"
set_extra (field k v rest) tier = put_field tier "extra" (Json.obj (field k v rest))

-- What is changed in the entry of tier 0.
unfoldable pub change_tier0 : Form → Fields → Fields
unfolding extra_of put_field drop_field
change_tier0 form tier =
    set_extra (extra_of form.extra_name form.extra_value end)
      (put_field tier "rate_limit" (Json.str (input form "rate_limit")))

-- `doc.setdefault(key, {})`, into which the keys are written: only a dict takes them.
abbrev pub fields_at : Fields → String → Attempt Fields
fields_at doc key = elim (get_field doc key) [
  | none ↦ value end
  | some (Json.obj fields) ↦ value fields
  | some _ ↦ exception "TypeError"
]

unfoldable pub set_texts : Form → List String → Fields → Fields
unfolding put_field
set_texts form [] entity = entity
set_texts form (key ∷ keys) entity =
    set_texts form keys (put_field entity key (Json.str (input form ("entity__" +++ key))))

-- `form.get(name) == "on"`
abbrev pub is_on : Form → String → Bool
is_on form name = elim (get form.inputs name) [ none ↦ false | some s ↦ str_eq s "on" ]

unfoldable pub set_flags : Form → List String → Fields → Fields
unfolding put_field
set_flags form [] security = security
set_flags form (key ∷ keys) security =
    set_flags form keys (put_field security key (Json.bool (is_on form ("security__" +++ key))))

abbrev pub entity_keys : List String
entity_keys = "name" ∷ "tax_id" ∷ "website" ∷ "country" ∷ []

abbrev pub security_keys : List String
security_keys = "gateway_required" ∷ "direct_llm_exposure" ∷ "audit_logging" ∷ []

-- The three dicts of the document that `mutate` writes to.
abbrev pub change_entity : Form → Fields → Attempt Fields
change_entity form doc =
    Attempt.◌>>=◌ (fields_at doc "entity")
      λ entity. value (put_field doc "entity" (Json.obj (set_texts form entity_keys entity)))

abbrev pub change_tiers : Form → Fields → Attempt Fields
change_tiers form doc = Attempt.◌>>=◌ (tiers_of doc) λ tiers.
    Attempt.◌>>=◌ (edit_tier0 (change_tier0 form) tiers)
      λ changed. value (put_field doc "access_tiers" (Json.arr changed))

abbrev pub change_security : Form → Fields → Attempt Fields
change_security form doc =
    Attempt.◌>>=◌ (fields_at doc "security") λ security.
      value (put_field doc "security" (Json.obj (set_flags form security_keys security)))

-- `mutate`, where `today` is the date.
unfoldable pub mutate : Form → String → Json → Attempt Json
unfolding get_field put_field edit_tier0 change_tier0 set_texts set_flags
mutate form today doc = Attempt.◌>>=◌ (fields_of doc) λ loaded.
    Attempt.◌>>=◌ (change_entity form loaded) λ named.
      Attempt.◌>>=◌ (change_tiers form named) λ tiered.
        Attempt.◌>>=◌ (change_security form tiered)
          λ secured. value (Json.obj (put_field secured "last_updated" (Json.str today)))

abbrev pub manifest_answer : Ending → Answer
manifest_answer finished = redirect "/manifest"
manifest_answer (raised x) = if str_eq x "HTTPException" then http_error 500 else server_error x
manifest_answer stopped = gone

-- `manifest_update`
unfoldable pub manifest_update : Fault → String → Form → String → Disk → Answer × Disk
unfolding update_manifest mutate
manifest_update fault tmp form today d =
    let (ending, d') = update_manifest fault tmp (mutate form today) d in
    (manifest_answer ending, d')
