-- ===== src/Admin/Catalog/Lists.antt =====
-- The catalog files as lists of items.
use agent_embassy.Prelude.{
  ℕ, zero, suc, String, ◌≡◌, refl, sym, ap, ◌∙◌, false, Option, none, some, List, [], ◌∷◌, ◌++◌,
  arith, str_eq, str_eq_refl, length, take, drop, ltb, if◌then◌else◌,
}
use agent_embassy.Prelude.Dict.{get}
use agent_embassy.Python.Json.{Json, Items, Fields, nil, cons, put_field, get_field-put_field}
use agent_embassy.Python.Attempt
use agent_embassy.Python.Attempt.{Attempt, value, exception, fields_of}
use agent_embassy.Admin.Schema.{kinds}
use agent_embassy.Admin.Disk.{
  Disk, Fault, no_fault, raises_at, stops_at, make_temp, fill, publish, swap, stopped, Ending,
  finished, raised, atomic_write, read_json, disk_at,
}
use agent_embassy.Admin.Disk.Writes.{IsAtomic, atomic_write-IsAtomic}
use agent_embassy.Admin.Catalog.{
  path_of, file_of, element_list, list_items, append_item, set_at, pop_at, appended, assigned,
  popped, with_elements, write_edited, modify_file, modify_at, modify_items, add_item, update_item,
  delete_item,
}

abbrev pub of_list : List Json → Items
of_list [] = nil
of_list (v ∷ l) = cons v (of_list l)

-- The file of the kind holds this list.
abbrev pub Holds : String → Disk → List Json → Type 0
Holds kind d l = list_items kind d ≡ value (Json.arr (of_list l))

-- What an operation has to make of the list; none is an index that is out of range.
abbrev pub replaced : ℕ → Json → List Json → Option (List Json)
replaced n item l = if ltb n (length l) then some (take n l ++ (item ∷ drop (suc n) l)) else none

abbrev pub without : ℕ → List Json → Option (List Json)
without n l = if ltb n (length l) then some (take n l ++ drop (suc n) l) else none

abbrev or_index_error : Option (List Json) → Attempt Items
or_index_error none = exception "IndexError"
or_index_error (some l) = value (of_list l)

abbrev or_list_error : Option (List Json) → Attempt Json
or_list_error o = Attempt.◌>>=◌ (or_index_error o) λ items. value (Json.arr items)

append_item-of_list :
    (l : List Json) (item : Json) → append_item (of_list l) item ≡ of_list (l ++ (item ∷ []))
unfolding append_item
append_item-of_list [] item = refl
append_item-of_list (v ∷ l) item = ap (λ r. cons v r) (append_item-of_list l item)

set_at-of_list :
    (n : ℕ) (item : Json) (l : List Json)
    → set_at n item (of_list l) ≡ or_index_error (replaced n item l)
unfolding set_at
set_at-of_list n item [] = ground arith
set_at-of_list zero item (v ∷ l) = ground arith
set_at-of_list (suc n) item (v ∷ l) = ground (arith, set_at-of_list n item l)

pop_at-of_list : (n : ℕ) (l : List Json) → pop_at n (of_list l) ≡ or_index_error (without n l)
unfolding pop_at
pop_at-of_list n [] = ground arith
pop_at-of_list zero (v ∷ l) = ground arith
pop_at-of_list (suc n) (v ∷ l) = ground (arith, pop_at-of_list n l)

-- What an operation on the list of a kind has to do, where `o` is the new list or none: with none,
-- it raises an IndexError and touches nothing; else it finishes with the new list in the file and
-- every other file as it was; and if the write goes wrong, all files are as they were.
abbrev pub Refines : Fault → String → Disk → Option (List Json) → Ending × Disk → Type 0
Refines fault kind d none r = r ≡ (raised "IndexError", d)
Refines no_fault kind d (some l) r =
    (r.0 ≡ finished)
    × Holds kind r.1 l
    × ((k : String) → str_eq (file_of kind) k ≡ false → get r.1.files k ≡ get d.files k)
Refines (raises_at s) kind d (some l) r = (r.0 ≡ raised "OSError") × (r.1.files ≡ d.files)
Refines (stops_at s) kind d (some l) r = (r.0 ≡ stopped) × (r.1.files ≡ d.files)

-- What `list_items` makes of what it reads.
abbrev elements_of : Attempt Json → Attempt Json
elements_of r =
    Attempt.◌>>=◌ r λ doc. Attempt.◌>>=◌ (fields_of doc) λ fields. value (element_list fields)

loaded :
    (r : Attempt Json) (v : Json)
    → elements_of r ≡ value v
    → (fields : Fields) × (r ≡ value (Json.obj fields)) × (element_list fields ≡ v)
loaded (value (Json.obj fields)) v e = (fields, refl, cc e)
loaded (value Json.null) v e = absurd (cc e)
loaded (value (Json.bool b)) v e = absurd (cc e)
loaded (value (Json.int n)) v e = absurd (cc e)
loaded (value (Json.float s)) v e = absurd (cc e)
loaded (value (Json.str s)) v e = absurd (cc e)
loaded (value (Json.arr items)) v e = absurd (cc e)
loaded (exception x) v e = absurd (cc e)

module _ (kind item_type : String) (known : get kinds kind ≡ some item_type) where
  list_items-known : (d : Disk) → list_items kind d ≡ elements_of (read_json (file_of kind) d)
  unfolding list_items path_of
  list_items-known d = rw known refl

  element_list-put_field :
      (fields : Fields) (v : Json) → element_list (put_field fields "itemListElement" v) ≡ v
  element_list-put_field fields v =
      rw (get_field-put_field fields "itemListElement" "itemListElement" v, element_list) refl

  -- The new document is in the file, and the others are as they were.
  stored :
      (fields : Fields) (l : List Json) (d d' : Disk)
      → IsAtomic
          (file_of kind)
          (Json.obj (put_field fields "itemListElement" (Json.arr (of_list l))))
          d
          (finished, d')
      → Refines no_fault kind d (some l) (finished, d')
  unfolding read_json
  stored fields l d d' written = (
    refl,
    list_items-known d'
        ∙ rw (written (file_of kind), str_eq_refl (file_of kind))
            (ap (λ v. value v) (element_list-put_field fields _)),
    λ k other. written k ∙ rw other refl,
  )

  write_edited-Refines :
      (fault : Fault) (tmp : String) (fields : Fields) (o : Option (List Json)) (d : Disk)
      → get d.temps tmp ≡ none
      → Refines fault kind d o (
          write_edited fault tmp (file_of kind) d (
            Attempt.◌>>=◌
              (or_list_error o)
              λ changed. value (Json.obj (put_field fields "itemListElement" changed))))
  unfolding atomic_write disk_at
  write_edited-Refines fault tmp fields none d fresh = refl
  write_edited-Refines no_fault tmp fields (some l) d fresh =
      stored fields l d _ (atomic_write-IsAtomic no_fault tmp (file_of kind) _ d fresh)
  write_edited-Refines (raises_at make_temp) tmp fields (some l) d fresh = (refl, refl)
  write_edited-Refines (raises_at fill) tmp fields (some l) d fresh = (refl, refl)
  write_edited-Refines (raises_at publish) tmp fields (some l) d fresh = (refl, refl)
  write_edited-Refines (raises_at swap) tmp fields (some l) d fresh = (refl, refl)
  write_edited-Refines (stops_at make_temp) tmp fields (some l) d fresh = (refl, refl)
  write_edited-Refines (stops_at fill) tmp fields (some l) d fresh = (refl, refl)
  write_edited-Refines (stops_at publish) tmp fields (some l) d fresh = (refl, refl)
  write_edited-Refines (stops_at swap) tmp fields (some l) d fresh = (refl, refl)

  modify_items-Refines :
      (fault : Fault) (tmp : String) (edit : Json → Attempt Json) (l : List Json)
      (o : Option (List Json)) (d : Disk)
      → get d.temps tmp ≡ none
      → Holds kind d l
      → edit (Json.arr (of_list l)) ≡ or_list_error o
      → Refines fault kind d o (modify_items fault tmp kind edit d)
  unfolding modify_items modify_file modify_at path_of with_elements
  modify_items-Refines fault tmp edit l o d fresh holds edited =
      let (fields, read, elements) =
        loaded (read_json (file_of kind) d) _ (sym (list_items-known d) ∙ holds) in
      rw (known, read, elements, edited) (write_edited-Refines fault tmp fields o d fresh)

-- For a kind of the catalog whose file holds a list, under a name that is free for the temporary
-- file, and for every fault of the write: adding an item appends it to the list; updating and deleting
-- replace and take out the item at the index, or raise an IndexError and touch nothing if the index is
-- out of range. Where the write goes wrong, all files are as they were; otherwise all other files are.
pub catalog-Refines :
    (fault : Fault) (tmp kind item_type : String) (n : ℕ) (item : Json) (l : List Json) (d : Disk)
    → get kinds kind ≡ some item_type
    → get d.temps tmp ≡ none
    → Holds kind d l
    → Refines fault kind d (some (l ++ (item ∷ []))) (add_item fault tmp kind item d)
      × Refines fault kind d (replaced n item l) (update_item fault tmp kind n item d)
      × Refines fault kind d (without n l) (delete_item fault tmp kind n d)
unfolding add_item update_item delete_item
catalog-Refines fault tmp kind item_type n item l d known fresh holds = (
  modify_items-Refines kind item_type known fault tmp (appended item) l (some (l ++ (item ∷ []))) d
      fresh holds (ap (λ r. value (Json.arr r)) (append_item-of_list l item)),
  modify_items-Refines kind item_type known fault tmp (assigned n item) l (replaced n item l) d
      fresh holds (rw (set_at-of_list n item l) refl),
  modify_items-Refines kind item_type known fault tmp (popped n) l (without n l) d fresh holds
      (rw (pop_at-of_list n l) refl),
)
