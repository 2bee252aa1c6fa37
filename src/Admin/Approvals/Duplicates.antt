-- ===== src/Admin/Approvals/Duplicates.antt =====
-- The marks of the approvals page: an action is marked exactly if another one looks the same.
use agent_embassy.Prelude.{
  ℕ, suc, ◌+◌, String, ◌≡◌, refl, sym, ap, subst, ◌∙◌, Bool, true, false, ◌&&◌, Option, List, [],
  ◌∷◌, map, ltb, if◌then◌else◌, str_eq_iff, str_eq_refl, select, length, arith, inl, inr,
  Bool-cases,
}
use agent_embassy.Prelude.Int.{ℤ, pos, negsuc}
use agent_embassy.Python.Json.{Json, Items, Fields, nil, cons, get_field, put_field}
use agent_embassy.Python.Attempt.{Attempt, value, exception, bind-value}
use agent_embassy.Admin.Approvals.{
  Part, nothing, whole, fraction, text, Key, same_int, same_part, same_key, Counts, count_of,
  counted, count_all, mark_each, mark, part_of, key_of, keyed, marked,
}

same_int_sound : (m n : ℤ) → same_int m n ≡ true → m ≡ n
same_int_sound (pos m) (pos n) h = let e : m ≡ n = ground arith in ap pos e
same_int_sound (negsuc m) (negsuc n) h = let e : m ≡ n = ground arith in ap negsuc e
same_int_sound (pos m) (negsuc n) h = cc
same_int_sound (negsuc m) (pos n) h = cc

same_int_refl : (n : ℤ) → same_int n n ≡ true
same_int_refl (pos n) = ground arith
same_int_refl (negsuc n) = ground arith

same_part_sound : (a b : Part) → same_part a b ≡ true → a ≡ b
same_part_sound nothing nothing h = refl
same_part_sound (whole m) (whole n) h = ap whole (same_int_sound m n h)
same_part_sound (fraction s) (fraction t) h = ap fraction ((str_eq_iff s t).0 h)
same_part_sound (text s) (text t) h = ap text ((str_eq_iff s t).0 h)
same_part_sound nothing (whole n) h = cc
same_part_sound nothing (fraction t) h = cc
same_part_sound nothing (text t) h = cc
same_part_sound (whole m) nothing h = cc
same_part_sound (whole m) (fraction t) h = cc
same_part_sound (whole m) (text t) h = cc
same_part_sound (fraction s) nothing h = cc
same_part_sound (fraction s) (whole n) h = cc
same_part_sound (fraction s) (text t) h = cc
same_part_sound (text s) nothing h = cc
same_part_sound (text s) (whole n) h = cc
same_part_sound (text s) (fraction t) h = cc

same_part_refl : (a : Part) → same_part a a ≡ true
same_part_refl nothing = refl
same_part_refl (whole n) = same_int_refl n
same_part_refl (fraction s) = str_eq_refl s
same_part_refl (text s) = str_eq_refl s

same_key_sound : (a b : Key) → same_key a b ≡ true → a ≡ b
same_key_sound a b h =
    let client : a.client_id ≡ b.client_id =
      same_part_sound a.client_id b.client_id (ground arith) in
    let item : a.item ≡ b.item = same_part_sound a.item b.item (ground arith) in
    let amount : a.amount_cents ≡ b.amount_cents =
      same_part_sound a.amount_cents b.amount_cents (ground arith) in
    cc

same_key_refl : (k : Key) → same_key k k ≡ true
same_key_refl k =
    rw (same_part_refl k.client_id, same_part_refl k.item, same_part_refl k.amount_cents)

apart_keys : (i j k : Key) → same_key i j ≡ false → same_key i k ≡ true → same_key j k ≡ false
apart_keys i j k apart same = elim (Bool-cases (same_key j k)) [
  | inr other ↦ other
  | inl also ↦
      let one : i ≡ j = same_key_sound i k same ∙ sym (same_key_sound j k also) in
      let wrong : true ≡ false = sym (same_key_refl j) ∙ ap (λ x. same_key x j) (sym one) ∙ apart in
      cc
]

count_of-counted :
    (counts : Counts) (j k : Key)
    → count_of (counted counts j) k ≡ count_of counts k + (if same_key j k then 1 else 0)
unfolding count_of counted
count_of-counted [] j k = ground arith
count_of-counted ((i, n) ∷ counts) j k = elim (Bool-cases (same_key i j)) [
  | inl same ↦ rw (same, same_key_sound i j same) (ground arith)
  | inr other ↦ rw other (elim (Bool-cases (same_key i k)) [
    | inl found ↦ rw (found, apart_keys i j k other found) (omega arith)
    | inr further ↦ rw further (count_of-counted counts j k)
  ])
]

-- How many of the actions have the key.
abbrev pub occurrences : Key → List (Fields × Key) → ℕ
occurrences k found = length (select (λ x. same_key x.1 k) found)

count_of-count_all :
    (counts : Counts) (found : List (Fields × Key)) (k : Key)
    → count_of (count_all counts found) k ≡ count_of counts k + occurrences k found
unfolding count_all
count_of-count_all counts [] k = omega arith
count_of-count_all counts ((e, j) ∷ found) k =
    let rest = count_of-count_all (counted counts j) found k in
    ground (arith, rest, count_of-counted counts j k)

counted_all :
    (found : List (Fields × Key)) (k : Key) → count_of (count_all [] found) k ≡ occurrences k found
unfolding count_of
counted_all found k = omega (arith, count_of-count_all [] found k)

mark-occurrences :
    (found : List (Fields × Key))
    → mark found
      ≡ map (λ x. put_field x.0 "duplicate" (Json.bool (ltb 1 (occurrences x.1 found)))) found
unfolding mark mark_each
mark-occurrences found = each found
  where
    each :
        (rows : List (Fields × Key))
        → mark_each (count_all [] found) rows
          ≡ map (λ x. put_field x.0 "duplicate" (Json.bool (ltb 1 (occurrences x.1 found)))) rows
    each [] = refl
    each ((e, k) ∷ rows) = rw (counted_all found k) (
        ap (λ more. put_field e "duplicate" (Json.bool (ltb 1 (occurrences k found))) ∷ more)
          (each rows))

-- The objects of a list.
abbrev pub objects : Items → List Fields
objects nil = []
objects (cons (Json.obj fields) rest) = fields ∷ objects rest
objects (cons _ rest) = objects rest

-- Two values that can be parts of a key and are the same part.
abbrev same_value : Attempt Part → Attempt Part → Bool
same_value (value a) (value b) = same_part a b
same_value _ _ = false

abbrev found_in : {A : Type 0} → A → Attempt A → A
found_in a (value b) = b
found_in a (exception x) = a

module _ (integral : String → Option ℤ) where
  -- Two actions look the same if their clients, items and amounts are equal values.
  abbrev pub alike : Fields → Fields → Bool
  alike e f =
      let same = λ (name : String).
        same_value (part_of integral (get_field e name)) (part_of integral (get_field f name)) in
      same "client_id" && (same "item" && same "amount_cents")

  abbrev pub look_alikes : Fields → List Fields → ℕ
  look_alikes e all = length (select (λ f. alike f e) all)

  -- The parts of the key of an entry are its three values.
  record HasKey (e : Fields) (k : Key) : Type 0 where
    pub client_id : part_of integral (get_field e "client_id") ≡ value k.client_id
    pub item : part_of integral (get_field e "item") ≡ value k.item
    pub amount_cents : part_of integral (get_field e "amount_cents") ≡ value k.amount_cents

  key_of-HasKey : (e : Fields) (k : Key) → key_of integral e ≡ value k → HasKey e k
  unfolding key_of
  key_of-HasKey e k h =
      let (client, known, h1) = bind-value (part_of integral (get_field e "client_id")) _ k h in
      let (item, named, h2) = bind-value (part_of integral (get_field e "item")) _ k h1 in
      let (amount, priced, h3) =
        bind-value (part_of integral (get_field e "amount_cents")) _ k h2 in
      let same = ap (found_in k) h3 in
      record {
        client_id = known ∙ ap (λ j. value j.client_id) same;
        item = named ∙ ap (λ j. value j.item) same;
        amount_cents = priced ∙ ap (λ j. value j.amount_cents) same;
      }

  alike-same : (e f : Fields) (j k : Key) → HasKey e j → HasKey f k → alike e f ≡ same_key j k
  alike-same e f j k a b =
      rw (a.client_id, b.client_id, a.item, b.item, a.amount_cents, b.amount_cents)

  abbrev Keyed : List (Fields × Key) → Type 0
  Keyed [] = Unit
  Keyed ((e, k) ∷ found) = HasKey e k × Keyed found

  keyed-Keyed :
      (items : Items) (found : List (Fields × Key))
      → keyed integral items ≡ value found
      → Keyed found × (map (λ x. x.0) found ≡ objects items)
  unfolding keyed
  keyed-Keyed nil found h =
      let none_found = ap (found_in []) h in
      subst (λ l. Keyed l × (map (λ x. x.0) l ≡ [])) none_found (tt, refl)
  keyed-Keyed (cons (Json.obj e) rest) found h =
      let (k, made, h1) = bind-value (key_of integral e) _ found h in
      let (others, more, h2) = bind-value (keyed integral rest) _ found h1 in
      let (all, same) = keyed-Keyed rest others more in
      subst (λ l. Keyed l × (map (λ x. x.0) l ≡ e ∷ objects rest)) (ap (found_in []) h2)
        ((key_of-HasKey e k made, all), ap (λ l. e ∷ l) same)
  keyed-Keyed (cons Json.null rest) found h = absurd (cc h)
  keyed-Keyed (cons (Json.bool b) rest) found h = absurd (cc h)
  keyed-Keyed (cons (Json.int n) rest) found h = absurd (cc h)
  keyed-Keyed (cons (Json.float s) rest) found h = absurd (cc h)
  keyed-Keyed (cons (Json.str s) rest) found h = absurd (cc h)
  keyed-Keyed (cons (Json.arr l) rest) found h = absurd (cc h)

  occurrences-look_alikes :
      (e : Fields) (k : Key) (found : List (Fields × Key))
      → HasKey e k
      → Keyed found
      → occurrences k found ≡ look_alikes e (map (λ x. x.0) found)
  occurrences-look_alikes e k [] a all = refl
  occurrences-look_alikes e k ((f, j) ∷ found) a (b, all) =
      let rest = occurrences-look_alikes e k found a all in
      rw (alike-same f e j k b a) (elim (Bool-cases (same_key j k)) [
        | inl same ↦ rw same (ap suc rest)
        | inr other ↦ rw other rest
      ])

  abbrev flagged : List Fields → List Fields → List Fields
  flagged all rows = map (λ e. put_field e "duplicate" (Json.bool (ltb 1 (look_alikes e all)))) rows

  each_flagged :
      (found rows : List (Fields × Key))
      → Keyed found
      → Keyed rows
      → map (λ x. put_field x.0 "duplicate" (Json.bool (ltb 1 (occurrences x.1 found)))) rows
        ≡ flagged (map (λ x. x.0) found) (map (λ x. x.0) rows)
  each_flagged found [] all k = refl
  each_flagged found ((e, k) ∷ rows) all (a, more) = rw (occurrences-look_alikes e k found a all) (
      ap
        (λ l.
          put_field e "duplicate" (Json.bool (ltb 1 (look_alikes e (map (λ x. x.0) found)))) ∷ l)
        (each_flagged found rows all more))

  flagged-keyed :
      (items : Items) (found : List (Fields × Key))
      → keyed integral items ≡ value found
      → mark found ≡ flagged (objects items) (objects items)
  flagged-keyed items found h =
      let (all, same) = keyed-Keyed items found h in
      mark-occurrences found ∙ (each_flagged found found all all ∙ ap (λ l. flagged l l) same)

  -- Every action that is listed is kept in its place and marked as a duplicate exactly if at least
  -- two of the list have equal clients, items and amounts, where the page can be shown: each entry is
  -- an object, and none of these three is a list or an object. `True` and `1.0` equal 1.
  pub marked-look_alikes :
      (items : Items) (rows : List Fields)
      → marked integral (Json.arr items) ≡ value rows
      → rows
        ≡ map
            (λ e. put_field e "duplicate" (Json.bool (ltb 1 (look_alikes e (objects items)))))
            (objects items)
  unfolding marked keyed mark mark_each
  marked-look_alikes nil rows h = sym (ap (found_in []) h)
  marked-look_alikes (cons e rest) rows h =
      let (found, made, h1) = bind-value (keyed integral (cons e rest)) _ rows h in
      sym (ap (found_in []) h1) ∙ flagged-keyed (cons e rest) found made
