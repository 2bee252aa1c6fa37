-- ===== src/Admin/OpenBao/Mirror.antt =====
-- What is written to OpenBao is read back.
use agent_embassy.Prelude.{
  String, ◌≡◌, refl, Bool, true, false, ◌&&◌, Option, none, some, List, ◌∷◌, if◌then◌else◌, str_eq,
  str_eq_refl,
}
use agent_embassy.Python.Json.{Json, Body, end, field, get_field, truthy}
use agent_embassy.Python.Attempt.{value}
use agent_embassy.Admin.Http.{Method, Call, Reply, World, response, request}
use agent_embassy.Admin.OpenBao.{
  Settings, done, configured, write_client_secret, read_client_secret, read_reply, read_entry,
  data_url,
}

-- The body of a request that writes to the key-value store.
abbrev stored : Json → Json → Json
stored secret uuid = Json.obj (
    field "data"
      (Json.obj (
        field "data" (Json.obj (field "client_secret" secret (field "keycloak_uuid" uuid end)))
          end))
      end)

-- The data that it writes: the field `data` of its body.
abbrev written_data : Option Json → Option Json
written_data (some (Json.obj fields)) = get_field fields "data"
written_data _ = none

-- Version 2 of the store's interface returns the data as they were written, under the field `data`
-- of the field `data`.
abbrev read_back : Option Json → Reply → Reply
read_back none otherwise = otherwise
read_back (some data') otherwise =
    response 200 none (Body.json (Json.obj (field "data" (Json.obj (field "data" data' end)) end)))

abbrev is_post : Method → Bool
is_post Method.post = true
is_post _ = false

abbrev is_get : Method → Bool
is_get Method.get = true
is_get _ = false

-- The reply of the key-value store to the newest request of `reading`, when the newest request of
-- `writing` is the last one before it that the store has handled: a GET of the URL that was posted to
-- returns what was posted; any other request is answered as it would be `otherwise`.
abbrev pub kv_reply : Reply → List Call → List Call → Reply
kv_reply otherwise (write ∷ _) (read ∷ _) =
    if is_post write.method && is_get read.method && str_eq write.url read.url
    then read_back (written_data write.body) otherwise
    else otherwise
kv_reply otherwise _ _ = otherwise

truthy_secret :
    (secret uuid : Json)
    → truthy secret ≡ true
    → read_entry (stored secret uuid) ≡ value (done secret)
unfolding read_entry
truthy_secret Json.null uuid h = absurd (cc h)
truthy_secret (Json.bool b) uuid h = refl
truthy_secret (Json.int n) uuid h = refl
truthy_secret (Json.float s) uuid h = refl
truthy_secret (Json.str s) uuid h = refl
truthy_secret (Json.arr l) uuid h = refl
truthy_secret (Json.obj l) uuid h = refl

-- A secret that was written, and is not an empty value, is read back by the next read under the
-- same client id, where OpenBao is configured and answers a GET of the URL that was just posted to
-- with the data that were posted; whatever it answers to any other request.
pub read_client_secret-write :
    (settings : Settings) (id : String) (secret uuid : Json) (otherwise : Reply) (w after : World)
    → configured settings ≡ true
    → truthy secret ≡ true
    → after.replies 0
      ≡ kv_reply otherwise
          (write_client_secret settings id (some secret) uuid w).1.sent
          (read_client_secret settings id after).1.sent
    → (read_client_secret settings id after).0 ≡ value (done secret)
unfolding read_client_secret write_client_secret request read_reply get_field
read_client_secret-write settings id secret uuid otherwise w after on given same =
    let reply : after.replies 0 ≡ response 200 none (Body.json (stored secret uuid)) =
      rw (on, given, str_eq_refl (data_url id)) at same in
    rw (on, reply) (truthy_secret secret uuid given)
