-- ===== src/Verify/Capped.antt =====
-- The loop by which verify/main.py bounds a list per client: it walks the list from its newest end,
-- counts the entries of each client in a dict, keeps those up to the limit and turns the result
-- round. `Store.record_tier3_event` runs it on the audit trail, `Store.set_tier3_resolution` on
-- the items of the resolution map.
pub mod Parts
use mathlib.Core.List.{reverse-append, reverse-cons}
use agent_embassy.Prelude.{
  ◌<◌, ◌++◌, le→leb, ℕ, ◌+◌, ◌-◌, String, ◌≡◌, ap, ap₂, ◌∙◌, List, [], ◌∷◌, reverse, arith, leb,
  if◌then◌else◌, str_eq, str_eq_iff, get_or_else, select, select-reverse, take, newest, take-nil,
  take_room, take_full,
}
use agent_embassy.Prelude.Dict.{Dict, get, put, get-put}

sub-zero : (n : ℕ) → n - 0 ≡ n
sub-zero n = omega arith

-- The entries of one client.
abbrev pub of_client : {A : Type 0} → (A → String) → String → List A → List A
of_client client c xs = select (λ x. str_eq (client x) c) xs

module _ {A : Type 0} (client : A → String) (limit : ℕ) where
  -- One walk over the reversed list; `counts` is `per_client_count`.
  unfoldable pub cap_loop : Dict ℕ → List A → List A
  cap_loop counts [] = []
  cap_loop counts (x ∷ xs) =
      let seen = get_or_else (get counts (client x)) 0 + 1 in
      let rest = cap_loop (put counts (client x) seen) xs in
      if leb seen limit then x ∷ rest else rest

  unfoldable pub cap_per_client : List A → List A
  unfolding cap_loop
  cap_per_client xs = reverse (cap_loop [] (reverse xs))

  of_client-cap_loop :
      (c : String) (counts : Dict ℕ) (xs : List A)
      → of_client client c (cap_loop counts xs)
        ≡ take (limit - get_or_else (get counts c) 0) (of_client client c xs)
  unfolding cap_loop
  of_client-cap_loop c counts [] = rw take-nil
  of_client-cap_loop c counts (x ∷ xs) =
      let seen = get_or_else (get counts (client x)) 0 + 1 in
      let n = get_or_else (get counts c) 0 in
      ground (
        arith,
        str_eq_iff (client x) c,
        of_client-cap_loop c (put counts (client x) seen) xs,
        get-put counts (client x) c seen,
        take_room limit n x (of_client client c xs),
        take_full limit n (x ∷ of_client client c xs),
        take_full limit (n + 1) (of_client client c xs),
      )

  -- What the loop keeps of one client's entries, with no count at its start, depends on that
  -- client's entries alone: they are the newest ones, up to the limit.
  pub of_client-cap_per_client :
      (c : String) (xs : List A)
      → of_client client c (cap_per_client xs) ≡ newest limit (of_client client c xs)
  unfolding cap_per_client
  of_client-cap_per_client c xs =
      select-reverse _ (cap_loop [] (reverse xs))
      ∙ ap reverse
          (of_client-cap_loop c [] (reverse xs) ∙ ap₂ take (sub-zero limit) (select-reverse _ xs))

  -- With a limit that is not zero the loop keeps the newest entry at its place.
  pub cap_per_client-newest :
      (xs : List A) (x : A)
      → 0 < limit
      → (before : List A) × (cap_per_client (xs ++ x ∷ []) ≡ before ++ x ∷ [])
  unfolding cap_per_client cap_loop
  cap_per_client-newest xs x room =
      let rest = cap_loop (put [] (client x) 1) (reverse xs) in
      (
        reverse rest,
        ap (λ l. reverse (cap_loop [] l)) (reverse-append xs (x ∷ []))
            ∙ rw (le→leb 1 limit (omega arith)) (reverse-cons x rest),
      )
