-- ===== src/Verify/Approvals/Resolutions.antt =====
-- What a new resolution leaves of the resolutions of the clients.
use agent_embassy.Prelude.{
  ℕ, ◌≤◌, String, ◌≡◌, ◌≢◌, refl, ap, ◌∙◌, Option, none, [], ◌∷◌, ◌++◌, arith, str_eq_ne, select,
  select-append, select_comm, length, newest, newest-all, length-select, append-nil,
}
use agent_embassy.Prelude.Dict.{Dict, get, put}
use agent_embassy.Verify.Store.{Store, Tier3Resolution, Status, Detail}
use agent_embassy.Verify.Capped.{of_client, of_client-cap_per_client}
use agent_embassy.Verify.Approvals.{entry_client, is_fresh, add_resolution, resolve}

-- The resolutions of a client, with their ids.
abbrev pub resolutions_of : String → Store → Dict Tier3Resolution
resolutions_of c s = of_client entry_client c s.tier3_resolutions

put-append :
    (d : Dict Tier3Resolution) (k : String) (r : Tier3Resolution)
    → get d k ≡ none
    → put d k r ≡ d ++ (k, r) ∷ []
put-append [] k r h = refl
put-append ((j, q) ∷ d) k r h = ground (arith, put-append d k r)

of_client-put :
    (d : Dict Tier3Resolution) (r : Tier3Resolution) (c : String)
    → get d r.action_id ≡ none
    → r.client_id ≢ c
    → of_client entry_client c (put d r.action_id r) ≡ of_client entry_client c d
of_client-put d r c new other =
    ap (of_client entry_client c) (put-append d r.action_id r new)
    ∙ rw (select-append, str_eq_ne r.client_id c other) (append-nil (of_client entry_client c d))

-- Adding a resolution leaves another client exactly its resolutions that are not stale.
added :
    (r : Tier3Resolution) (s : Store) (c : String)
    → get s.tier3_resolutions r.action_id ≡ none
    → r.client_id ≢ c
    → length (resolutions_of c s) ≤ s.tier3_resolution_max_per_client
    → resolutions_of c (add_resolution r s)
      ≡ select (is_fresh r.updated_at s.tier3_resolution_ttl_seconds) (resolutions_of c s)
unfolding add_resolution
added r s c new other few =
    let fresh = is_fresh r.updated_at s.tier3_resolution_ttl_seconds in
    of_client-cap_per_client entry_client s.tier3_resolution_max_per_client c _
    ∙ ap (newest s.tier3_resolution_max_per_client) (
        select_comm _ _ (put s.tier3_resolutions r.action_id r)
        ∙ ap (select fresh) (of_client-put s.tier3_resolutions r c new other))
    ∙ newest-all s.tier3_resolution_max_per_client (select fresh (resolutions_of c s))
        (omega (arith, length-select fresh (resolutions_of c s), few))

-- A resolution under a new id leaves another client, whose resolutions are within the cap, exactly
-- its resolutions that are not stale.
pub resolutions_of-resolve :
    (now : ℕ) (id client c : String) (st : Status) (d : Detail) (ch n : Option String) (s : Store)
    → get s.tier3_resolutions id ≡ none
    → client ≢ c
    → length (resolutions_of c s) ≤ s.tier3_resolution_max_per_client
    → resolutions_of c (resolve now id client st d ch n s)
      ≡ select (is_fresh now s.tier3_resolution_ttl_seconds) (resolutions_of c s)
unfolding resolve
resolutions_of-resolve now id client c st d ch n s new other few =
    rw (new, resolve)
      (added
        (record {
          action_id = id;
          client_id = client;
          status = st;
          detail = d;
          created_at = now;
          updated_at = now;
          channel = ch;
          order_number = n;
        })
        s c new other few)
