-- ===== src/Admin/ClientPages/Mirrored.antt =====
-- The secrets that a page shows, and their copies in OpenBao.
use agent_embassy.Prelude.{
  ℕ, String, ◌≡◌, refl, sym, ap, ◌∙◌, subst, Bool, true, false, Option, none, some, List, ◌∷◌,
  if◌then◌else◌,
}
use agent_embassy.Prelude.Int.{ℤ}
use agent_embassy.Python.Json.{Json, end, field, truthy}
use agent_embassy.Python.Attempt.{Attempt, value, exception}
use agent_embassy.Admin.Http.{Method, Call, World, Action, pure, attempt, request, ◌>>=◌}
use agent_embassy.Admin.Http.Binds.{bind_pure-world, bind_pure-value}
use agent_embassy.Admin.Keycloak.{ClientInfo, Outcome, found, not_found, error, get_client}
use agent_embassy.Admin.Keycloak.Manage.{get_secret, regenerate_secret}
use agent_embassy.Admin.OpenBao.{Settings, configured, write_client_secret, data_url, entry}
use agent_embassy.Admin.Tier3
use agent_embassy.Admin.Tier3.{get_grant}
use agent_embassy.Admin.ClientPages.{
  Page, PageError, detail_page, Detail, with_grant, quotable, grant_of, render_client_detail,
  write_through, show_secret, on_client, keycloak_client_reveal_secret,
  keycloak_client_regenerate_secret,
}

-- The request that writes a secret to OpenBao.
abbrev pub mirror : String → Json → Json → Call
mirror client_id secret uuid = record {
  method = Method.post;
  url = data_url client_id;
  body = some (Json.obj (field "data" (entry secret uuid) end));
}

-- A request is among those that were made.
pub data Sent (call : Call) : List Call → Type 0 where
  last : {calls : List Call} → Sent call (call ∷ calls)
  earlier : {other : Call} {calls : List Call} → Sent call calls → Sent call (other ∷ calls)

-- A secret that is some text, or another value that is not empty.
abbrev pub is_shown : Option Json → Json → Bool
is_shown none s = false
is_shown (some v) s = truthy v

get_grant-Sent :
    (quote : String → String) (call : Call) (id : Attempt String) (w : World)
    → Sent call w.sent
    → Sent call
        ((attempt id >>= λ client_id. get_grant quote client_id >>= λ grant. pure (some grant))
          w).1.sent
unfolding get_grant request
get_grant-Sent quote call (value id) w h =
    subst (λ (w' : World). Sent call w'.sent)
      (sym (bind_pure-world (get_grant quote id) (λ grant. some grant) w)) (earlier h)
get_grant-Sent quote call (exception x) w h = h

abbrev client_shown : Page → Option ClientInfo
client_shown (detail_page status detail) = detail.client
client_shown _ = none

abbrev secret_shown : Page → Option Json
secret_shown (detail_page status detail) = detail.secret
secret_shown _ = none

abbrev secret_of : Attempt Page → Option Json
secret_of (value (detail_page status detail)) = detail.secret
secret_of _ = none

module _ (realm audience : String) (settings : Settings) (quote : String → String)
    (text_of : Json → String) (int_of : String → Option ℤ)
    (set_up : configured settings ≡ true) where
  -- If a page comes out that shows a client and a secret, the secret was sent to OpenBao.
  abbrev Mirrored : String → Attempt Page × World → Type 0
  Mirrored uuid r =
      (status : ℕ) (detail : Detail) (client : ClientInfo) (s : Json)
      → r.0 ≡ value (detail_page status detail)
      → detail.client ≡ some client
      → detail.secret ≡ some s
      → truthy s ≡ true
      → Sent (mirror (text_of client.client_id) s (Json.str uuid)) r.1.sent

  bind-Mirrored :
      {A : Type 0} (uuid : String) (m : Action A) (k : A → Action Page) (w : World)
      → ((a : A) (w' : World) → Mirrored uuid (k a w'))
      → Mirrored uuid ((m >>= k) w)
  bind-Mirrored {A = A} uuid m k w next = go (m w).0 (m w).1
    where
      go :
          (r : Attempt A) (w' : World)
          → Mirrored uuid (elim r [ value a ↦ k a w' | exception x ↦ (exception x, w') ])
      go (value a) w' = next a w'
      go (exception x) w' = λ status detail client s e shows holds shown. absurd (cc e)

  page_with :
      ℕ → Option ClientInfo → Option PageError → Option Json → Bool → Option Tier3.Result → Page
  page_with = with_grant realm audience settings quote text_of int_of

  render : ℕ → Option ClientInfo → Option PageError → Option Json → Bool → Action Page
  unfolding render_client_detail
  render = render_client_detail realm audience settings quote text_of int_of

  -- A page with no secret.
  hidden :
      (uuid : String) (status : ℕ) (c : Option ClientInfo) (e : Option PageError) (warning : Bool)
      (w : World)
      → Mirrored uuid (render status c e none warning w)
  unfolding render render_client_detail page_with
  hidden uuid status c e warning w =
      bind-Mirrored uuid (grant_of realm audience settings quote text_of int_of c)
        (λ grant. pure (page_with status c e none warning grant)) w
        λ grant w' status' detail client s page shows holds shown.
          let none' : detail.secret ≡ none = ap secret_of (sym page) in absurd (cc (none', holds))

  grant_of-Sent :
      (call : Call) (c : Option ClientInfo) (w : World)
      → Sent call w.sent
      → Sent call (grant_of realm audience settings quote text_of int_of c w).1.sent
  unfolding grant_of
  grant_of-Sent call none w h = h
  grant_of-Sent call (some client) w h =
      get_grant-Sent quote call
        (quotable realm audience settings quote text_of int_of client.client_id) w h

  write : String → ClientInfo → Option Json → Action Bool
  unfolding write_through
  write = write_through realm audience settings quote text_of int_of

  written :
      (uuid : String) (client : ClientInfo) (s : Json) (w : World)
      → truthy s ≡ true
      → (write uuid client (some s) w).1.sent
        ≡ mirror (text_of client.client_id) s (Json.str uuid) ∷ w.sent
  unfolding write write_through write_client_secret request
  written uuid client s w shown = rw (shown, set_up) refl

  was_written :
      (uuid : String) (client : ClientInfo) (secret : Option Json) (w w' : World)
      → (write uuid client secret w).1 ≡ w'
      → (s : Json) → secret ≡ some s
      → truthy s ≡ true
      → Sent (mirror (text_of client.client_id) s (Json.str uuid)) w'.sent
  was_written uuid client none w w' done s shared shown = absurd (cc shared)
  was_written uuid client (some s') w w' done s shared shown =
      let same : s' ≡ s = cc shared in
      subst (λ (w'' : World). Sent (mirror (text_of client.client_id) s (Json.str uuid)) w''.sent)
        done
        (subst
          (λ s''.
            Sent (mirror (text_of client.client_id) s (Json.str uuid))
              (write uuid client (some s'') w).1.sent)
          (sym same)
          (subst (λ calls. Sent (mirror (text_of client.client_id) s (Json.str uuid)) calls)
            (sym (written uuid client s w shown)) last))

  -- After the secret was written, the page that shows it.
  shown_page :
      (uuid : String) (client : ClientInfo) (secret : Option Json) (w : World)
      → ((s : Json)
          → secret ≡ some s
          → truthy s ≡ true
          → Sent (mirror (text_of client.client_id) s (Json.str uuid)) w.sent)
      → (warning : Bool) → Mirrored uuid (render 200 (some client) none secret warning w)
  unfolding render render_client_detail page_with
  shown_page uuid client secret w was warning status detail client' s page shows holds shown =
      let read = grant_of realm audience settings quote text_of int_of (some client) in
      let (grant, made) =
        bind_pure-value read (page_with 200 (some client) none secret warning) w
          (detail_page status detail) page in
      let same : some client ≡ some client' = ap client_shown made ∙ shows in
      let shared : secret ≡ some s = ap secret_shown made ∙ holds in
      let one : client ≡ client' = cc same in
      subst (λ (w' : World). Sent (mirror (text_of client'.client_id) s (Json.str uuid)) w'.sent)
        (sym (bind_pure-world read (page_with 200 (some client) none secret warning) w))
        (subst
          (λ (c : ClientInfo).
            Sent (mirror (text_of c.client_id) s (Json.str uuid)) (read w).1.sent)
          one
          (grant_of-Sent (mirror (text_of client.client_id) s (Json.str uuid)) (some client) w
            (was s shared shown)))

  bind_step :
      (uuid : String) (client : ClientInfo) (secret : Option Json) (w : World)
      (r : Attempt Bool × World)
      → write uuid client secret w ≡ r
      → Mirrored uuid (elim r.0 as (λ _. Attempt Page × World) [
        | value warning ↦ render 200 (some client) none secret warning r.1
        | exception x ↦ (exception x, r.1)
      ])
  bind_step uuid client secret w (value warning, w') done =
      shown_page uuid client secret w' (was_written uuid client secret w w' (ap (λ r. r.1) done))
        warning
  bind_step uuid client secret w (exception x, w') done =
      λ status detail client' s page shows holds shown. absurd (cc page)

  show_secret-Mirrored :
      (uuid : String) (client : ClientInfo) (o : Outcome (Option Json)) (w : World)
      → Mirrored uuid (show_secret realm audience settings quote text_of int_of uuid client o w)
  unfolding show_secret render write
  show_secret-Mirrored uuid client (found secret) w =
      bind_step uuid client secret w (write uuid client secret w) refl
  show_secret-Mirrored uuid client not_found w =
      λ status detail client' s page shows holds shown. absurd (cc page)
  show_secret-Mirrored uuid client (error e) w = hidden uuid 502 (some client) _ false w

  on_client-Mirrored :
      (uuid : String) (act : ClientInfo → Action Page) (o : Outcome ClientInfo) (w : World)
      → ((client : ClientInfo) (w' : World) → Mirrored uuid (act client w'))
      → Mirrored uuid (on_client realm audience settings quote text_of int_of act o w)
  unfolding on_client render
  on_client-Mirrored uuid act (found client) w h = h client w
  on_client-Mirrored uuid act not_found w h =
      λ status detail client' s page shows holds shown. absurd (cc page)
  on_client-Mirrored uuid act (error e) w h = hidden uuid 502 none _ false w

  -- A page that fetches the client, then its secret, and shows both.
  fetched-Mirrored :
      (uuid : String) (secret : Action (Outcome (Option Json))) (w : World)
      → Mirrored uuid (
          (get_client realm audience uuid
              >>= on_client realm audience settings quote text_of int_of (λ client.
                secret >>= show_secret realm audience settings quote text_of int_of uuid client))
            w)
  fetched-Mirrored uuid secret w =
      let show = show_secret realm audience settings quote text_of int_of uuid in
      let act = λ (client : ClientInfo). secret >>= show client in
      bind-Mirrored uuid (get_client realm audience uuid)
        (on_client realm audience settings quote text_of int_of act) w
        λ o w1. on_client-Mirrored uuid act o w1 λ client w2.
          bind-Mirrored uuid secret (show client) w2 λ o' w3. show_secret-Mirrored uuid client o' w3

-- If revealing or regenerating the secret of a client comes to a page that shows the client and a
-- secret that is not empty, and OpenBao is configured, then one of the requests that were made
-- writes exactly this secret under the client's id to OpenBao.
pub keycloak_client_reveal_secret-Sent :
    (realm audience : String) (settings : Settings) (quote : String → String)
    (text_of : Json → String) (int_of : String → Option ℤ) (regenerate : Bool) (uuid : String)
    (w w' : World) (status : ℕ) (detail : Detail) (client : ClientInfo) (s : Json)
    → configured settings ≡ true
    → (if regenerate
          then keycloak_client_regenerate_secret realm audience settings quote text_of int_of uuid
          else keycloak_client_reveal_secret realm audience settings quote text_of int_of uuid)
        w
      ≡ (value (detail_page status detail), w')
    → detail.client ≡ some client
    → detail.secret ≡ some s
    → truthy s ≡ true
    → Sent (mirror (text_of client.client_id) s (Json.str uuid)) w'.sent
unfolding keycloak_client_regenerate_secret keycloak_client_reveal_secret
keycloak_client_reveal_secret-Sent realm audience settings quote text_of int_of true uuid w w'
      status detail client s set_up run shows holds shown =
    subst (λ (v : World). Sent (mirror (text_of client.client_id) s (Json.str uuid)) v.sent)
      (ap (λ r. r.1) run)
      (fetched-Mirrored realm audience settings quote text_of int_of set_up uuid
        (regenerate_secret realm audience uuid) w status detail client s (ap (λ r. r.0) run) shows
        holds shown)
keycloak_client_reveal_secret-Sent realm audience settings quote text_of int_of false uuid w w'
      status detail client s set_up run shows holds shown =
    subst (λ (v : World). Sent (mirror (text_of client.client_id) s (Json.str uuid)) v.sent)
      (ap (λ r. r.1) run)
      (fetched-Mirrored realm audience settings quote text_of int_of set_up uuid
        (get_secret realm audience uuid) w status detail client s (ap (λ r. r.0) run) shows holds
        shown)
