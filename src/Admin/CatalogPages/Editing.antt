-- ===== src/Admin/CatalogPages/Editing.antt =====
-- What saving the form of an item does to the catalog.
use agent_embassy.Prelude.{
  ℕ, suc, ◌<◌, String, ◌≡◌, refl, sym, ap, ◌∙◌, subst, false, none, some, List, ◌∷◌, ◌++◌, str_eq,
  length, take, drop, lt→ltb,
}
use agent_embassy.Prelude.Dict.{get}
use agent_embassy.Python.Json.{Json, Items, Fields, get_field}
use agent_embassy.Python.Text.{◌+++◌}
use agent_embassy.Python.Attempt.{Attempt, value}
use agent_embassy.Admin.Schema.{
  kinds, core_fields, Field, Form, validate_item, item_from_form, fields_or_nil,
}
use agent_embassy.Admin.Schema.Forms.{names, item_from_form-unknown}
use agent_embassy.Admin.Schema.Validity.{first_blank, validate_item-form}
use agent_embassy.Admin.Disk.{Disk, no_fault, Ending, finished}
use agent_embassy.Admin.Catalog.{get_item, update_item}
use agent_embassy.Admin.Catalog.Lists.{Holds, catalog-Refines}
use agent_embassy.Admin.CatalogPages.{
  Answer, redirect, after, checked, catalog_update, missing_or, edit_typed, edit_found,
}

-- The answer and the disk after saving an item in the place of another one: a redirect, the list with
-- the item at the index, and the fields that the form does not know as they were in `existing`.
pub record Saved (kind item_type : String) (n : ℕ) (existing : Fields) (l : List Json)
    (r : Answer × Disk) : Type 0 where
  pub item : Fields
  pub answered : r.0 ≡ redirect ("/catalog/" +++ kind)
  pub stored : Holds kind r.1 (take n l ++ (Json.obj item ∷ drop (suc n) l))
  pub kept :
      (k : String)
      → names (fields_or_nil item_type) k ≡ false
      → str_eq "@type" k ≡ false
      → str_eq "additionalProperty" k ≡ false
      → get_field item k ≡ get_field existing k

after-finished :
    (kind : String) (failed : String → Answer) (r : Ending × Disk)
    → r.0 ≡ finished
    → after kind failed r ≡ (redirect ("/catalog/" +++ kind), r.1)
after-finished kind failed (e, d) done = rw done refl

-- The answer once the item is made and found valid.
answered :
    (kind : String) (item : Fields) (d : Disk) (r : Ending × Disk)
    → validate_item item ≡ value none
    → r.0 ≡ finished
    → checked item d (after kind missing_or r) (validate_item item)
      ≡ (redirect ("/catalog/" +++ kind), r.1)
unfolding checked
answered kind item d r valid done = rw valid (after-finished kind missing_or r done)

-- Saving the form for the item at an index that is in the list, with no required field left blank and
-- no fault of the write, is answered with a redirect; the list then has the new item at the index
-- and is otherwise as it was; and the fields that the form does not know are those of the item that
-- was read. The list is the one at the time of the write: `seen`, the disk at the time of the
-- reading, may be another one.
pub catalog_update-Saved :
    (dict_of_list : Items → Attempt Fields) (tmp kind item_type : String) (n : ℕ) (form : Form)
    (existing : Fields) (fields : List Field) (l : List Json) (seen d : Disk)
    → get kinds kind ≡ some item_type
    → get core_fields item_type ≡ some fields
    → get_item kind n seen ≡ value (Json.obj existing)
    → first_blank form fields ≡ none
    → get d.temps tmp ≡ none
    → Holds kind d l
    → n < length l
    → Saved kind item_type n existing l
        (catalog_update dict_of_list no_fault tmp kind n form seen d)
unfolding catalog_update
catalog_update-Saved dict_of_list tmp kind item_type n form existing fields l seen d known core
      found filled fresh holds here =
    let item = item_from_form item_type form existing in
    let valid = validate_item-form item_type form existing fields core ∙ ap (λ c. value c) filled in
    let refined =
      (catalog-Refines no_fault tmp kind item_type n (Json.obj item) l d known fresh holds).1 in
    let in_range = lt→ltb n (length l) here in
    let (done, stored, others) = (rw in_range at refined) in
    let made : catalog_update dict_of_list no_fault tmp kind n form seen d
        ≡ (redirect ("/catalog/" +++ kind), (update_item no_fault tmp kind n (Json.obj item) d).1) =
      ap (edit_typed dict_of_list no_fault tmp kind n form seen d) known
      ∙ ap (edit_found dict_of_list no_fault tmp kind n form d item_type) found
      ∙ answered kind item d (update_item no_fault tmp kind n (Json.obj item) d) valid done in
    record {
      item = item;
      answered = ap (λ r. r.0) made;
      stored =
          subst (λ r. Holds kind r.1 (take n l ++ (Json.obj item ∷ drop (suc n) l))) (sym made)
            stored;
      kept = item_from_form-unknown item_type form existing;
    }
