-- ===== src/Admin/Catalog.antt =====
-- admin/catalog_store.py: the operations on the catalog files and on the manifest. The lock of a file
-- lets one operation run at a time, so an operation is one function of the disk.
pub mod Lists
use Prim.Native.String
use agent_embassy.Prelude.{
  ℕ, zero, suc, String, Bool, true, false, Option, none, some, List, [], ◌∷◌, str_eq, if◌then◌else◌,
}
use agent_embassy.Prelude.Dict.{Dict, get}
use agent_embassy.Python.Text.{◌+++◌, decimal}
use agent_embassy.Python.Json.{Json, Items, Fields, nil, cons, end, field, get_field, put_field}
use agent_embassy.Python.Attempt
use agent_embassy.Python.Attempt.{Attempt, value, exception, fields_of}
use agent_embassy.Admin.Schema.{kinds}
use agent_embassy.Admin.Disk.{File, Disk, Fault, Ending, raised, atomic_write, read_json}

-- `FILES[kind]`
abbrev pub file_of : String → String
file_of kind = "catalog/" +++ kind +++ ".json"

-- `_catalog_path`
unfoldable pub path_of : String → Option String → Attempt String
path_of kind none = exception "UnknownKind"
path_of kind (some item_type) = value (file_of kind)

abbrev pub catalog_path : String → Attempt String
catalog_path kind = path_of kind (get kinds kind)

-- `MANIFEST_PATH`
abbrev pub manifest_path : String
manifest_path = ".well-known/agent-embassy.json"

-- `doc.get("itemListElement", [])`
abbrev pub element_list : Fields → Json
element_list doc = elim (get_field doc "itemListElement") [ none ↦ Json.arr nil | some v ↦ v ]

-- `list_items`
unfoldable pub list_items : String → Disk → Attempt Json
unfolding get_field read_json path_of
list_items kind d = Attempt.◌>>=◌ (catalog_path kind) λ path.
    Attempt.◌>>=◌ (read_json path d)
      λ doc. Attempt.◌>>=◌ (fields_of doc) λ fields. value (element_list fields)

-- `items[index]`, for an index that is not negative.
unfoldable pub item_at : Items → ℕ → Attempt Json
item_at nil n = exception "IndexError"
item_at (cons v items) zero = value v
item_at (cons v items) (suc n) = item_at items n

-- The same of a text, where it gives the text of one character.
unfoldable pub char_at : String → ℕ → Attempt Json
char_at String.[] n = exception "IndexError"
char_at (String.◌∷◌ c s) zero = value (Json.str (String.◌∷◌ c String.[]))
char_at (String.◌∷◌ c s) (suc n) = char_at s n

-- The same of any value; no key of a dict is a number.
abbrev pub index_into : ℕ → Json → Attempt Json
index_into n (Json.arr items) = item_at items n
index_into n (Json.str s) = char_at s n
index_into n (Json.obj _) = exception "KeyError"
index_into n _ = exception "TypeError"

-- `get_item`
unfoldable pub get_item : String → ℕ → Disk → Attempt Json
unfolding list_items item_at char_at
get_item kind n d = Attempt.◌>>=◌ (list_items kind d) λ items. index_into n items

unfoldable pub append_item : Items → Json → Items
append_item nil item = cons item nil
append_item (cons v items) item = cons v (append_item items item)

-- `items[index] = item`
unfoldable pub set_at : ℕ → Json → Items → Attempt Items
set_at n item nil = exception "IndexError"
set_at zero item (cons v items) = value (cons item items)
set_at (suc n) item (cons v items) = Attempt.◌>>=◌ (set_at n item items) λ rest. value (cons v rest)

-- `items.pop(index)`
unfoldable pub pop_at : ℕ → Items → Attempt Items
pop_at n nil = exception "IndexError"
pop_at zero (cons v items) = value items
pop_at (suc n) (cons v items) = Attempt.◌>>=◌ (pop_at n items) λ rest. value (cons v rest)

-- The three operations on any value that stands in the place of the list.
abbrev pub appended : Json → Json → Attempt Json
appended item (Json.arr items) = value (Json.arr (append_item items item))
appended item _ = exception "AttributeError"

-- The number that a dict gets for a key is written to the file as a text.
abbrev pub assigned : ℕ → Json → Json → Attempt Json
assigned n item (Json.arr items) =
    Attempt.◌>>=◌ (set_at n item items) λ changed. value (Json.arr changed)
assigned n item (Json.obj fields) = value (Json.obj (put_field fields (decimal n) item))
assigned n item _ = exception "TypeError"

abbrev pub popped : ℕ → Json → Attempt Json
popped n (Json.arr items) = Attempt.◌>>=◌ (pop_at n items) λ changed. value (Json.arr changed)
popped n (Json.obj _) = exception "KeyError"
popped n _ = exception "AttributeError"

-- `doc.setdefault("itemListElement", [])`, changed in its place.
unfoldable pub with_elements : (Json → Attempt Json) → Json → Attempt Json
unfolding get_field put_field
with_elements edit doc = Attempt.◌>>=◌ (fields_of doc) λ fields.
    Attempt.◌>>=◌ (edit (element_list fields))
      λ changed. value (Json.obj (put_field fields "itemListElement" changed))

-- A file is read, changed and written again.
abbrev pub write_edited : Fault → String → String → Disk → Attempt Json → Ending × Disk
write_edited fault tmp path d (value doc) = atomic_write fault tmp path doc d
write_edited fault tmp path d (exception x) = (raised x, d)

unfoldable pub modify_file : Fault → String → String → (Json → Attempt Json) → Disk → Ending × Disk
unfolding atomic_write read_json
modify_file fault tmp path edit d =
    write_edited fault tmp path d (Attempt.◌>>=◌ (read_json path d) edit)

unfoldable pub modify_at :
    Fault → String → (Json → Attempt Json) → Disk → Attempt String → Ending × Disk
unfolding modify_file with_elements
modify_at fault tmp edit d (value path) = modify_file fault tmp path (with_elements edit) d
modify_at fault tmp edit d (exception x) = (raised x, d)

unfoldable pub modify_items : Fault → String → String → (Json → Attempt Json) → Disk → Ending × Disk
unfolding modify_at path_of
modify_items fault tmp kind edit d = modify_at fault tmp edit d (catalog_path kind)

-- `add_item`, `update_item`, `delete_item`
unfoldable pub add_item : Fault → String → String → Json → Disk → Ending × Disk
unfolding modify_items append_item
add_item fault tmp kind item d = modify_items fault tmp kind (appended item) d

unfoldable pub update_item : Fault → String → String → ℕ → Json → Disk → Ending × Disk
unfolding modify_items set_at put_field
update_item fault tmp kind n item d = modify_items fault tmp kind (assigned n item) d

unfoldable pub delete_item : Fault → String → String → ℕ → Disk → Ending × Disk
unfolding modify_items pop_at
delete_item fault tmp kind n d = modify_items fault tmp kind (popped n) d

-- `load_manifest`, `update_manifest`
abbrev pub load_manifest : Disk → Attempt Json
load_manifest d = read_json manifest_path d

unfoldable pub update_manifest : Fault → String → (Json → Attempt Json) → Disk → Ending × Disk
unfolding modify_file
update_manifest fault tmp mutate d = modify_file fault tmp manifest_path mutate d
