-- ===== src/Verify/Capped/Parts.antt =====
-- What the loop that bounds a list per client leaves of a sum and of a property of all entries.
use agent_embassy.Prelude.{
  ℕ, ◌+◌, get_or_else, ◌≤◌, String, ◌≡◌, refl, Bool, true, List, [], ◌∷◌, reverse, arith, select,
  sum_of, all, all-reverse, sum_of-select-reverse,
}
use agent_embassy.Prelude.Dict.{Dict, get, put}
use agent_embassy.Verify.Capped.{cap_loop, cap_per_client}

module _ {A : Type 0} (client : A → String) (limit : ℕ) where
  sum-cap_loop :
      (f : A → ℕ) (p : A → Bool) (d : Dict ℕ) (xs : List A)
      → sum_of f (select p (cap_loop client limit d xs)) ≤ sum_of f (select p xs)
  unfolding cap_loop
  sum-cap_loop f p d [] = omega arith
  sum-cap_loop f p d (x ∷ xs) =
      let seen = get_or_else (get d (client x)) 0 + 1 in
      ground (arith, sum-cap_loop f p (put d (client x) seen) xs)

  pub sum-cap_per_client :
      (f : A → ℕ) (p : A → Bool) (xs : List A)
      → sum_of f (select p (cap_per_client client limit xs)) ≤ sum_of f (select p xs)
  unfolding cap_per_client
  sum-cap_per_client f p xs = omega (
    arith,
    sum_of-select-reverse f p (cap_loop client limit [] (reverse xs)),
    sum-cap_loop f p [] (reverse xs),
    sum_of-select-reverse f p xs,
  )

  all-cap_loop :
      (p : A → Bool) (d : Dict ℕ) (xs : List A)
      → all p xs ≡ true
      → all p (cap_loop client limit d xs) ≡ true
  unfolding cap_loop
  all-cap_loop p d [] h = refl
  all-cap_loop p d (x ∷ xs) h =
      let seen = get_or_else (get d (client x)) 0 + 1 in
      ground (arith, all-cap_loop p (put d (client x) seen) xs)

  pub all-cap_per_client :
      (p : A → Bool) (xs : List A) → all p xs ≡ true → all p (cap_per_client client limit xs) ≡ true
  unfolding cap_per_client
  all-cap_per_client p xs h =
      all-reverse p (cap_loop client limit [] (reverse xs))
        (all-cap_loop p [] (reverse xs) (all-reverse p xs h))
