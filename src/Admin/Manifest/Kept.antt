-- ===== src/Admin/Manifest/Kept.antt =====
-- What the editor of the manifest leaves as it is.
use agent_embassy.Prelude.{
  String, ◌≡◌, refl, sym, ap, ◌∙◌, false, [], ◌∷◌, arith, str_eq, any, if◌then◌else◌, Bool-cases,
  inl, inr,
}
use agent_embassy.Python.Json.{
  Json, Items, Fields, nil, cons, end, field, get_field, put_field, get_field-put_field,
  get_field-drop_field,
}
use agent_embassy.Python.Attempt.{value, fields_of, bind-value}
use agent_embassy.Admin.Schema.{Form}
use agent_embassy.Admin.Manifest.{
  is_tier0, edit_tier0, tiers_of, set_extra, extra_of, change_tier0, fields_at, set_texts,
  set_flags, entity_keys, security_keys, change_entity, change_tiers, change_security, mutate,
}

-- The values that are no entry of tier 0.
unfoldable pub other_tiers : Items → Items
unfolding get_field
other_tiers nil = nil
other_tiers (cons (Json.obj fields) tiers) =
    if is_tier0 fields then other_tiers tiers else cons (Json.obj fields) (other_tiers tiers)
other_tiers (cons v tiers) = cons v (other_tiers tiers)

set_extra-tier :
    (extra tier : Fields) → get_field (set_extra extra tier) "tier" ≡ get_field tier "tier"
set_extra-tier end tier = get_field-drop_field tier "extra" "tier"
set_extra-tier (field k v rest) tier = get_field-put_field tier "extra" "tier" _

change_tier0-tier :
    (form : Form) (tier : Fields) → is_tier0 (change_tier0 form tier) ≡ is_tier0 tier
unfolding change_tier0
change_tier0-tier form tier =
    rw
      (
        set_extra-tier (extra_of form.extra_name form.extra_value end) _,
        get_field-put_field tier "rate_limit" "tier" _,
      )
      refl

edit_tier0-others :
    (form : Form) (tiers changed : Items)
    → edit_tier0 (change_tier0 form) tiers ≡ value changed
    → other_tiers changed ≡ other_tiers tiers
unfolding edit_tier0 other_tiers
edit_tier0-others form nil changed h = absurd (cc h)
edit_tier0-others form (cons (Json.obj fields) tiers) changed h =
    elim (Bool-cases (is_tier0 fields)) [
      | inl hit ↦
          let e : cons (Json.obj (change_tier0 form fields)) tiers ≡ changed = cc (rw hit at h) in
          rw (← e, hit, change_tier0-tier form fields, hit) refl
      | inr miss ↦
          let (rest, r, q) =
            bind-value (edit_tier0 (change_tier0 form) tiers) _ changed (rw miss at h) in
          let e : cons (Json.obj fields) rest ≡ changed = cc q in
          rw (← e, miss) (ap (λ o. cons (Json.obj fields) o) (edit_tier0-others form tiers rest r))
    ]
edit_tier0-others form (cons _ tiers) changed h = absurd (cc h)

fields_of-obj : (v : Json) (fields : Fields) → fields_of v ≡ value fields → v ≡ Json.obj fields
fields_of-obj (Json.obj f) fields h = cc h
fields_of-obj _ fields h = absurd (cc h)

change_entity_lem :
    (form : Form) (doc doc' : Fields)
    → change_entity form doc ≡ value doc'
    → (v : Json) × (doc' ≡ put_field doc "entity" v)
change_entity_lem form doc doc' h =
    let (entity, e, q) = bind-value (fields_at doc "entity") _ doc' h in
    (Json.obj (set_texts form entity_keys entity), cc q)

change_security_lem :
    (form : Form) (doc doc' : Fields)
    → change_security form doc ≡ value doc'
    → (v : Json) × (doc' ≡ put_field doc "security" v)
change_security_lem form doc doc' h =
    let (security, e, q) = bind-value (fields_at doc "security") _ doc' h in
    (Json.obj (set_flags form security_keys security), cc q)

-- The tiers of a document before and after the change.
record Tiers (doc doc' : Fields) : Type 0 where
  tiers : Items
  changed : Items
  had : tiers_of doc ≡ value tiers
  put : doc' ≡ put_field doc "access_tiers" (Json.arr changed)
  same : other_tiers changed ≡ other_tiers tiers

change_tiers_lem :
    (form : Form) (doc doc' : Fields) → change_tiers form doc ≡ value doc' → Tiers doc doc'
change_tiers_lem form doc doc' h =
    let (tiers, e, q) = bind-value (tiers_of doc) _ doc' h in
    let (changed, e', q') = bind-value (edit_tier0 (change_tier0 form) tiers) _ doc' q in
    record {
      tiers = tiers;
      changed = changed;
      had = e;
      put = cc q';
      same = edit_tier0-others form tiers changed e';
    }

-- The document after the four writes.
abbrev rewritten : Fields → Json → Items → Json → Json → Fields
rewritten doc entity tiers security date =
    put_field
      (put_field (put_field (put_field doc "entity" entity) "access_tiers" (Json.arr tiers))
        "security" security)
      "last_updated" date

get-rewritten :
    (doc : Fields) (entity : Json) (tiers : Items) (security date : Json) (k : String)
    → any (λ j. str_eq j k) ("entity" ∷ "access_tiers" ∷ "security" ∷ "last_updated" ∷ []) ≡ false
    → get_field (rewritten doc entity tiers security date) k ≡ get_field doc k
get-rewritten doc entity tiers security date k h =
    let d1 = put_field doc "entity" entity in
    let d2 = put_field d1 "access_tiers" (Json.arr tiers) in
    let d3 = put_field d2 "security" security in
    ground (
      arith,
      get_field-put_field d3 "last_updated" k date,
      get_field-put_field d2 "security" k security,
      get_field-put_field d1 "access_tiers" k (Json.arr tiers),
      get_field-put_field doc "entity" k entity,
    )

tiers_of-rewritten :
    (doc : Fields) (entity : Json) (tiers : Items) (security date : Json)
    → tiers_of (rewritten doc entity tiers security date) ≡ value tiers
tiers_of-rewritten doc entity tiers security date =
    let d1 = put_field doc "entity" entity in
    let d2 = put_field d1 "access_tiers" (Json.arr tiers) in
    rw
      (
        get_field-put_field (put_field d2 "security" security) "last_updated" "access_tiers" date,
        get_field-put_field d2 "security" "access_tiers" security,
        get_field-put_field d1 "access_tiers" "access_tiers" (Json.arr tiers),
        tiers_of,
      )
      refl

tiers_of-entity : (doc : Fields) (v : Json) → tiers_of (put_field doc "entity" v) ≡ tiers_of doc
tiers_of-entity doc v = rw (get_field-put_field doc "entity" "access_tiers" v, tiers_of) refl

-- What saving the manifest keeps, from the document `doc` to `doc'`.
pub record Kept (doc doc' : Json) : Type 0 where
  pub before : Fields
  pub after : Fields
  pub was : doc ≡ Json.obj before
  pub is : doc' ≡ Json.obj after
  pub others :
      (k : String)
      → any (λ j. str_eq j k) ("entity" ∷ "access_tiers" ∷ "security" ∷ "last_updated" ∷ []) ≡ false
      → get_field after k ≡ get_field before k
  pub tiers : Items
  pub changed : Items
  pub had : tiers_of before ≡ value tiers
  pub has : tiers_of after ≡ value changed
  pub same : other_tiers changed ≡ other_tiers tiers

-- Where the editor changes the manifest at all, the keys of the document other than the entity, the
-- tiers, the security flags and the date are as they were, and so are the entries of the other tiers,
-- in their order.
pub mutate-Kept :
    (form : Form) (today : String) (doc doc' : Json)
    → mutate form today doc ≡ value doc'
    → Kept doc doc'
unfolding mutate
mutate-Kept form today doc doc' h =
    let (loaded, e1, h1) = bind-value (fields_of doc) _ doc' h in
    let (named, e2, h2) = bind-value (change_entity form loaded) _ doc' h1 in
    let (tiered, e3, h3) = bind-value (change_tiers form named) _ doc' h2 in
    let (secured, e4, h4) = bind-value (change_security form tiered) _ doc' h3 in
    let (entity, p) = change_entity_lem form loaded named e2 in
    let t = change_tiers_lem form named tiered e3 in
    let (security, q) = change_security_lem form tiered secured e4 in
    record {
      before = loaded;
      after = rewritten loaded entity t.changed security (Json.str today);
      was = fields_of-obj doc loaded e1;
      is = cc (h4, p, t.put, q);
      others = get-rewritten loaded entity t.changed security (Json.str today);
      tiers = t.tiers;
      changed = t.changed;
      had = sym (tiers_of-entity loaded entity) ∙ ap tiers_of (sym p) ∙ t.had;
      has = tiers_of-rewritten loaded entity t.changed security (Json.str today);
      same = t.same;
    }
