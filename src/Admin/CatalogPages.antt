-- ===== src/Admin/CatalogPages.antt =====
-- admin/main.py: the pages of the catalog. What a template shows is represented by what it is given.
pub mod Editing
use agent_embassy.Prelude.{
  ℕ, String, Bool, true, false, Option, none, some, List, [], ◌∷◌, str_eq, if◌then◌else◌,
}
use agent_embassy.Prelude.Dict.{get}
use agent_embassy.Python.Text.{is_empty, ◌+++◌}
use agent_embassy.Python.Json.{Json, Items, Fields, nil, cons, end, field, get_field, truthy}
use agent_embassy.Python.Attempt
use agent_embassy.Python.Attempt.{Attempt, value, exception, fields_of}
use agent_embassy.Admin.Schema.{kinds, InvalidItem, Form, validate_item, item_from_form}
use agent_embassy.Admin.Disk.{Disk, Fault, Ending, finished, raised, stopped}
use agent_embassy.Admin.Catalog.{list_items, get_item, add_item, update_item, delete_item}

-- An answer of the service: a page with the items of a kind, a form with an item and an error, a
-- redirect, an `HTTPException`, the 500 of an exception that nothing handles, or none.
pub data Answer : Type 0 where
  list_page : Json → Answer
  form_page : (status : ℕ) → (item : Json) → (error : Option InvalidItem) → Answer
  redirect : (location : String) → Answer
  http_error : (status : ℕ) → Answer
  server_error : (exception_name : String) → Answer
  gone : Answer

-- `except IndexError: raise HTTPException(status_code=404)`
abbrev pub missing_or : String → Answer
missing_or x = if str_eq x "IndexError" then http_error 404 else server_error x

-- `list(enumerate(items))`
abbrev pub enumerated : Json → Answer
enumerated (Json.arr items) = list_page (Json.arr items)
enumerated (Json.obj fields) = list_page (Json.obj fields)
enumerated (Json.str s) = list_page (Json.str s)
enumerated _ = server_error "TypeError"

-- `catalog_list`; a kind that `_require_kind` does not know is a 404 here and below.
unfoldable pub catalog_list : String → Disk → Answer
unfolding list_items
catalog_list kind d = elim (get kinds kind) [
  | none ↦ http_error 404
  | some item_type ↦ elim (list_items kind d) [
    | value items ↦ enumerated items
    | exception x ↦ server_error x
  ]
]

-- What a finished, a failed and a killed operation is answered.
abbrev pub after : String → (String → Answer) → Ending × Disk → Answer × Disk
after kind failed (finished, d) = (redirect ("/catalog/" +++ kind), d)
after kind failed (raised x, d) = (failed x, d)
after kind failed (stopped, d) = (gone, d)

-- `validate_item` under its `except` clause: the form again, an error, or the operation.
unfoldable pub checked :
    Fields → Disk → Answer × Disk → Attempt (Option InvalidItem) → Answer × Disk
checked item d saved (exception x) = (server_error x, d)
checked item d saved (value (some complaint)) = (form_page 400 (Json.obj item) (some complaint), d)
checked item d saved (value none) = saved

abbrev create_typed : Fault → String → String → Form → Disk → Option String → Answer × Disk
create_typed fault tmp kind form d none = (http_error 404, d)
create_typed fault tmp kind form d (some item_type) =
    let item = item_from_form item_type form end in
    checked item d (after kind server_error (add_item fault tmp kind (Json.obj item) d))
      (validate_item item)

-- `catalog_create`
unfoldable pub catalog_create : Fault → String → String → Form → Disk → Answer × Disk
unfolding item_from_form validate_item add_item checked
catalog_create fault tmp kind form d = create_typed fault tmp kind form d (get kinds kind)

-- `catalog_edit_form`
unfoldable pub catalog_edit_form : String → ℕ → Disk → Answer
unfolding get_item
catalog_edit_form kind n d = elim (get kinds kind) [
  | none ↦ http_error 404
  | some item_type ↦ elim (get_item kind n d) [
    | exception x ↦ missing_or x
    | value item ↦ elim (fields_of item) [
      | exception x ↦ server_error x
      | value fields ↦ form_page 200 item none
    ]
  ]
]

-- `catalog_delete`
unfoldable pub catalog_delete : Fault → String → String → ℕ → Disk → Answer × Disk
unfolding delete_item
catalog_delete fault tmp kind n d = elim (get kinds kind) [
  | none ↦ (http_error 404, d)
  | some item_type ↦ after kind missing_or (delete_item fault tmp kind n d)
]

-- `dict_of_list` is what `dict` makes of a list; the items of a catalog are dicts.
module _ (dict_of_list : Items → Attempt Fields) where
  -- `dict(existing) if existing else {}`
  abbrev pub copied : Json → Attempt Fields
  copied (Json.obj fields) = value fields
  copied (Json.arr nil) = value end
  copied (Json.arr (cons v items)) = dict_of_list (cons v items)
  copied (Json.str s) = if is_empty s then value end else exception "ValueError"
  copied v = if truthy v then exception "TypeError" else value end

  abbrev pub edit_copied :
      Fault → String → String → ℕ → Form → Disk → String → Attempt Fields → Answer × Disk
  edit_copied fault tmp kind n form d item_type (exception x) = (server_error x, d)
  edit_copied fault tmp kind n form d item_type (value existing) =
      let item = item_from_form item_type form existing in
      checked item d (after kind missing_or (update_item fault tmp kind n (Json.obj item) d))
        (validate_item item)

  abbrev pub edit_found :
      Fault → String → String → ℕ → Form → Disk → String → Attempt Json → Answer × Disk
  edit_found fault tmp kind n form d item_type (exception x) = (missing_or x, d)
  edit_found fault tmp kind n form d item_type (value existing) =
      edit_copied fault tmp kind n form d item_type (copied existing)

  abbrev pub edit_typed :
      Fault → String → String → ℕ → Form → Disk → Disk → Option String → Answer × Disk
  edit_typed fault tmp kind n form seen d none = (http_error 404, d)
  edit_typed fault tmp kind n form seen d (some item_type) =
      edit_found fault tmp kind n form d item_type (get_item kind n seen)

  -- `catalog_update`. The disk is `seen` when the item is read and `d` when it is written: other
  -- requests are served while the handler waits for the form.
  unfoldable pub catalog_update : Fault → String → String → ℕ → Form → Disk → Disk → Answer × Disk
  unfolding get_item item_from_form validate_item update_item checked
  catalog_update fault tmp kind n form seen d =
      edit_typed fault tmp kind n form seen d (get kinds kind)
