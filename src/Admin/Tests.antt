-- ===== src/Admin/Tests.antt =====
-- The theorems about admin/ at concrete inputs.
use agent_embassy.Prelude.{
  ℕ, zero, suc, String, ◌≡◌, refl, true, false, Option, none, some, List, [], ◌∷◌, ◌++◌, arith,
}
use agent_embassy.Prelude.Int.{ℤ, pos}
use agent_embassy.Python.Text.{strip}
use agent_embassy.Python.Json.{Json, Fields, Body, nil, cons, field, end}
use agent_embassy.Python.Attempt.{value, exception}
use agent_embassy.Admin.Http.{Method, Reply, World, response, request}
use agent_embassy.Admin.Keycloak.{client_url, secret_url, ClientInfo, admin_token}
use agent_embassy.Admin.Keycloak.Manage.{delete_client, regenerate_secret, set_client_enabled}
use agent_embassy.Admin.Keycloak.Guard.{Guarded, changes-Guarded}
use agent_embassy.Admin.OpenBao
use agent_embassy.Admin.OpenBao.{Settings, write_client_secret, read_client_secret}
use agent_embassy.Admin.OpenBao.Mirror.{kv_reply, read_client_secret-write}
use agent_embassy.Admin.Schema.{
  Form, Field, required_field, optional_field, item_from_form, validate_item,
}
use agent_embassy.Admin.Schema.Validity.{first_blank, validate_item-form}
use agent_embassy.Admin.Disk.{Disk, no_fault, raises_at, swap, atomic_write}
use agent_embassy.Admin.Disk.Writes.{IsAtomic, atomic_write-IsAtomic}
use agent_embassy.Admin.Catalog.{list_items, get_item, add_item, update_item, delete_item}
use agent_embassy.Admin.Catalog.Lists.{Holds, Refines, replaced, without, catalog-Refines}
use agent_embassy.Admin.CatalogPages.{catalog_update}
use agent_embassy.Admin.CatalogPages.Editing.{Saved, catalog_update-Saved}
use agent_embassy.Admin.Tier3
use agent_embassy.Admin.Manifest.{mutate}
use agent_embassy.Admin.Manifest.Kept.{Kept, mutate-Kept}
use agent_embassy.Admin.ClientPages.{Detail, detail_page, keycloak_client_reveal_secret}
use agent_embassy.Admin.ClientPages.Mirrored.{Sent, mirror, keycloak_client_reveal_secret-Sent}

-- The replies to a sequence of requests; after the last one no service can be reached.
abbrev replies_of : List Reply → ℕ → Reply
replies_of [] n = Reply.unreachable
replies_of (r ∷ rs) zero = r
replies_of (r ∷ rs) (suc n) = replies_of rs n

abbrev answered : Json → Reply
answered v = response 200 none (Body.json v)

abbrev acme : Fields
acme = field "id" (Json.str "7") (
    field "clientId" (Json.str "acme") (
      field "publicClient" (Json.bool false) (
        field "serviceAccountsEnabled" (Json.bool true) (
          field "standardFlowEnabled" (Json.bool false) (
            field "implicitFlowEnabled" (Json.bool false)
              (field "directAccessGrantsEnabled" (Json.bool false) end))))))

abbrev granted : Reply
granted = answered (Json.obj (field "access_token" (Json.str "t") end))

abbrev world : World
world = record {
  replies = replies_of (
      granted
      ∷ answered (Json.obj acme)
      ∷ granted
      ∷ answered (Json.obj acme)
      ∷ granted
      ∷ answered (Json.obj (field "value" (Json.str "s3cret") end))
      ∷ answered (Json.obj end)
      ∷ answered (Json.obj (field "enabled" (Json.bool true) end))
      ∷ []);
  sent = [];
}

changes-Guarded_example :
    Guarded "tier2" "agents" "7"
      (record { method = Method.delete; url = client_url "tier2" "agents" "7"; body = none })
      world
      (delete_client "tier2" "agents" "7" world)
    × Guarded "tier2" "agents" "7"
        (record { method = Method.post; url = secret_url "tier2" "agents" "7"; body = none })
        world
        (regenerate_secret "tier2" "agents" "7" world)
    × Guarded "tier2" "agents" "7"
        (record {
          method = Method.put;
          url = client_url "tier2" "agents" "7";
          body = some (Json.obj (field "enabled" (Json.bool false) end));
        })
        world
        (set_client_enabled "tier2" "agents" "7" false world)
changes-Guarded_example = changes-Guarded "tier2" "agents" "7" false world

abbrev settings : Settings
settings = record { address = "http://openbao:8200"; token = "root" }

abbrev after_write : World
after_write = record {
  replies = λ n.
      kv_reply Reply.failed
        (write_client_secret settings "acme" (some (Json.str "s3cret")) (Json.str "7") world).1.sent
        (read_client_secret settings "acme" world).1.sent;
  sent = [];
}

read_client_secret-write_example :
    (read_client_secret settings "acme" after_write).0 ≡ value (OpenBao.done (Json.str "s3cret"))
unfolding write_client_secret request read_client_secret
read_client_secret-write_example =
    read_client_secret-write settings "acme" (Json.str "s3cret") (Json.str "7") Reply.failed world
      after_write refl refl refl

abbrev form : Form
form = record {
  inputs = ("field__name", " Bolt M8 ") ∷ ("field__sku", "B8") ∷ [];
  extra_name = "colour" ∷ " " ∷ [];
  extra_value = "zinc" ∷ "x" ∷ [];
}

-- An item with a field that the form does not know.
abbrev bolt : Fields
bolt = field "@type" (Json.str "Product") (
    field "name" (Json.str "Bolt")
      (field "brand" (Json.str "Acme") (field "sku" (Json.str "A1") end)))

abbrev product_fields : List Field
product_fields =
    required_field "name" "Name"
    ∷ optional_field "description" "Description"
    ∷ optional_field "sku" "SKU"
    ∷ optional_field "url" "URL"
    ∷ []

validate_item-form_example :
    validate_item (item_from_form "Product" form bolt) ≡ value (first_blank form product_fields)
validate_item-form_example = validate_item-form "Product" form bolt product_fields refl

-- A catalog of two products, and the temporary file of a write that was killed.
abbrev catalog_doc : Json
catalog_doc = Json.obj (
    field "@context" (Json.str "https://schema.org")
      (field "itemListElement" (Json.arr (cons (Json.obj bolt) (cons (Json.obj end) nil))) end))

abbrev disk : Disk
disk = record {
  files = ("catalog/products.json", record { content = some catalog_doc; public = true }) ∷ [];
  temps = (".products.json.a.tmp", record { content = none; public = false }) ∷ [];
}

atomic_write-IsAtomic_example : IsAtomic "catalog/products.json" (Json.obj end) disk (
    atomic_write
      (raises_at swap)
      ".products.json.b.tmp"
      "catalog/products.json"
      (Json.obj end)
      disk)
atomic_write-IsAtomic_example =
    atomic_write-IsAtomic (raises_at swap) ".products.json.b.tmp" "catalog/products.json"
      (Json.obj end) disk refl

abbrev products : List Json
products = Json.obj bolt ∷ Json.obj end ∷ []

disk-Holds : Holds "products" disk products
unfolding list_items
disk-Holds = refl

catalog-Refines_example :
    Refines no_fault "products" disk
      (some (products ++ (Json.null ∷ [])))
      (add_item no_fault "t" "products" Json.null disk)
    × Refines no_fault "products" disk
        (replaced 1 Json.null products)
        (update_item no_fault "t" "products" 1 Json.null disk)
    × Refines no_fault "products" disk
        (without 1 products)
        (delete_item no_fault "t" "products" 1 disk)
catalog-Refines_example =
    catalog-Refines no_fault "t" "products" "Product" 1 Json.null products disk refl refl disk-Holds

read_bolt : get_item "products" 0 disk ≡ value (Json.obj bolt)
unfolding get_item
read_bolt = refl

complete : first_blank form product_fields ≡ none
unfolding strip
complete = refl

catalog_update-Saved_example :
    Saved "products" "Product" 0 bolt products
      (catalog_update (λ _. exception "TypeError") no_fault "t" "products" 0 form disk disk)
catalog_update-Saved_example =
    catalog_update-Saved (λ _. exception "TypeError") "t" "products" "Product" 0 form bolt
      product_fields products disk disk refl refl read_bolt complete refl disk-Holds (omega arith)

abbrev manifest : Json
manifest = Json.obj (
    field "version" (Json.str "1") (
      field "access_tiers"
        (Json.arr (
          cons (Json.obj (field "tier" (Json.int (pos 0)) end))
            (cons (Json.obj (field "tier" (Json.int (pos 1)) end)) nil)))
        end))

-- The document after the form was saved.
abbrev saved_manifest : Json
saved_manifest = elim (mutate form "2026-08-11" manifest) [
  | value doc ↦ doc
  | exception x ↦ Json.null
]

manifest_saves : mutate form "2026-08-11" manifest ≡ value saved_manifest
unfolding mutate strip
manifest_saves = refl

mutate-Kept_example : Kept manifest saved_manifest
mutate-Kept_example = mutate-Kept form "2026-08-11" manifest saved_manifest manifest_saves

abbrev quote_same : String → String
quote_same s = s

abbrev text_or_empty : Json → String
text_or_empty (Json.str s) = s
text_or_empty _ = ""

abbrev no_int : String → Option ℤ
no_int s = none

abbrev acme_client : ClientInfo
acme_client = record {
  uuid = Json.str "7";
  client_id = Json.str "acme";
  name = Json.str "acme";
  enabled = false;
  has_audience_mapper = false;
}

abbrev shown : Detail
shown = record {
  client = some acme_client;
  error = none;
  secret = some (Json.str "s3cret");
  tier3_grant = some (Tier3.done (Json.obj (field "enabled" (Json.bool true) end)));
  openbao_warning = false;
}

abbrev after_reveal : World
after_reveal =
    (keycloak_client_reveal_secret "tier2" "agents" settings quote_same text_or_empty no_int "7"
      world).1

reveals :
    keycloak_client_reveal_secret "tier2" "agents" settings quote_same text_or_empty no_int "7"
      world
    ≡ (value (detail_page 200 shown), after_reveal)
unfolding keycloak_client_reveal_secret admin_token request
reveals = refl

keycloak_client_reveal_secret-Sent_example :
    Sent (mirror "acme" (Json.str "s3cret") (Json.str "7")) after_reveal.sent
keycloak_client_reveal_secret-Sent_example =
    keycloak_client_reveal_secret-Sent "tier2" "agents" settings quote_same text_or_empty no_int
      false "7" world after_reveal 200 shown acme_client (Json.str "s3cret") refl reveals refl refl
      refl
