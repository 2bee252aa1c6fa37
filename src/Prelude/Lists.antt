-- ===== src/Prelude/Lists.antt =====
-- Lists measured by native numbers, and selection by a Boolean test.
use Prim.Native.Nat.{ℕ, zero, suc, ◌+◌, ◌-◌, ◌≤◌, ◌<◌, min}
use mathlib.Core.Path.{◌≡◌, refl, ap, ◌∙◌}
use mathlib.Core.Bool.{Bool, true, false, ◌&&◌}
use mathlib.Core.Logic.{inl, inr}
use mathlib.Core.List.{List, [], ◌∷◌, ◌++◌, append-nil, reverse, reverse-cons, reverse-reverse}
use native.Mathlib.Omega.{arith}
use agent_embassy.Prelude.Tests.{if◌then◌else◌, Bool-cases}

module _ {ℓ} {A : Type ℓ} where
  abbrev pub length : List A → ℕ
  length [] = 0
  length (x ∷ xs) = suc (length xs)

  abbrev pub take : ℕ → List A → List A
  take zero xs = []
  take (suc n) [] = []
  take (suc n) (x ∷ xs) = x ∷ take n xs

  abbrev pub drop : ℕ → List A → List A
  drop zero xs = xs
  drop (suc n) [] = []
  drop (suc n) (x ∷ xs) = drop n xs

  -- `[x for x in xs if p(x)]`
  abbrev pub select : (A → Bool) → List A → List A
  select p [] = []
  select p (x ∷ xs) = if p x then x ∷ select p xs else select p xs

  -- `sum(f(x) for x in xs)`
  abbrev pub sum_of : (A → ℕ) → List A → ℕ
  sum_of f [] = 0
  sum_of f (x ∷ xs) = f x + sum_of f xs

  abbrev pub all : (A → Bool) → List A → Bool
  all p [] = true
  all p (x ∷ xs) = p x && all p xs

  abbrev pub any : (A → Bool) → List A → Bool
  any p [] = false
  any p (x ∷ xs) = if p x then true else any p xs

  -- The last `n` entries of a list, in their order.
  abbrev pub newest : ℕ → List A → List A
  newest n xs = reverse (take n (reverse xs))

  pub length-append : (xs ys : List A) → length (xs ++ ys) ≡ length xs + length ys
  length-append [] ys = omega arith
  length-append (x ∷ xs) ys = omega (arith, length-append xs ys)

  pub select-append :
      (p : A → Bool) (xs ys : List A) → select p (xs ++ ys) ≡ select p xs ++ select p ys
  select-append p [] ys = refl
  select-append p (x ∷ xs) ys = ground (arith, select-append p xs ys)

  pub select-reverse : (p : A → Bool) (xs : List A) → select p (reverse xs) ≡ reverse (select p xs)
  select-reverse p [] = refl
  select-reverse p (x ∷ xs) =
      rw (reverse-cons, select-append p (reverse xs) (x ∷ []), select-reverse p xs)
        (elim (Bool-cases (p x)) [ inl h ↦ rw (h, reverse-cons) | inr h ↦ rw (h, append-nil) ])

  pub select_comm : (p q : A → Bool) (xs : List A) → select p (select q xs) ≡ select q (select p xs)
  select_comm p q [] = refl
  select_comm p q (x ∷ xs) = ground (arith, select_comm p q xs)

  pub sum_of-append : (f : A → ℕ) (xs ys : List A) → sum_of f (xs ++ ys) ≡ sum_of f xs + sum_of f ys
  sum_of-append f [] ys = omega arith
  sum_of-append f (x ∷ xs) ys = omega (arith, sum_of-append f xs ys)

  pub length-take : (n : ℕ) (xs : List A) → length (take n xs) ≡ min n (length xs)
  length-take zero xs = omega arith
  length-take (suc n) [] = omega arith
  length-take (suc n) (x ∷ xs) = omega (arith, length-take n xs)

  pub take-all : (n : ℕ) (xs : List A) → length xs ≤ n → take n xs ≡ xs
  take-all zero [] h = refl
  take-all zero (x ∷ xs) h = absurd (omega arith)
  take-all (suc n) [] h = refl
  take-all (suc n) (x ∷ xs) h = ap (λ ys. x ∷ ys) (take-all n xs (omega arith))

  pub length-reverse : (xs : List A) → length (reverse xs) ≡ length xs
  length-reverse [] = refl
  length-reverse (x ∷ xs) =
      rw reverse-cons (omega (arith, length-append (reverse xs) (x ∷ []), length-reverse xs))

  pub length-newest : (n : ℕ) (xs : List A) → length (newest n xs) ≡ min n (length xs)
  length-newest n xs =
      omega
        (arith, length-reverse (take n (reverse xs)), length-take n (reverse xs), length-reverse xs)

  pub newest-all : (n : ℕ) (xs : List A) → length xs ≤ n → newest n xs ≡ xs
  newest-all n xs h =
      rw (take-all n (reverse xs) (omega (arith, length-reverse xs)), reverse-reverse)

  pub take-nil : (n : ℕ) → take n [] ≡ []
  take-nil zero = refl
  take-nil (suc n) = refl

  -- A window of `m - n` entries that has room takes one more.
  pub take_room :
      (m n : ℕ) (x : A) (xs : List A) → n < m → take (m - n) (x ∷ xs) ≡ x ∷ take (m - (n + 1)) xs
  take_room m n x xs h = let e : m - n ≡ suc (m - (n + 1)) = omega arith in rw e

  pub take_full : (m n : ℕ) (xs : List A) → m ≤ n → take (m - n) xs ≡ []
  take_full m n xs h = let e : m - n ≡ 0 = omega arith in rw e

  pub length-select : (p : A → Bool) (xs : List A) → length (select p xs) ≤ length xs
  length-select p [] = omega arith
  length-select p (x ∷ xs) = ground (arith, length-select p xs)

  -- A selection that a later, narrower one follows makes no difference.
  pub select_absorb :
      (p q : A → Bool)
      → ((x : A) → p x ≡ true → q x ≡ true)
      → (xs : List A) → select p (select q xs) ≡ select p xs
  select_absorb p q h [] = refl
  select_absorb p q h (x ∷ xs) = ground (arith, h x, select_absorb p q h xs)

  pub select-&& :
      (p q : A → Bool) (xs : List A) → select (λ x. p x && q x) xs ≡ select q (select p xs)
  select-&& p q [] = refl
  select-&& p q (x ∷ xs) = ground (arith, select-&& p q xs)

  pub sum_of-reverse : (f : A → ℕ) (xs : List A) → sum_of f (reverse xs) ≡ sum_of f xs
  sum_of-reverse f [] = refl
  sum_of-reverse f (x ∷ xs) =
      rw reverse-cons (omega (arith, sum_of-append f (reverse xs) (x ∷ []), sum_of-reverse f xs))

  pub sum_of-select-take :
      (f : A → ℕ) (p : A → Bool) (n : ℕ) (xs : List A)
      → sum_of f (select p (take n xs)) ≤ sum_of f (select p xs)
  sum_of-select-take f p zero xs = omega arith
  sum_of-select-take f p (suc n) [] = omega arith
  sum_of-select-take f p (suc n) (x ∷ xs) = ground (arith, sum_of-select-take f p n xs)

  pub any-append :
      (p : A → Bool) (xs ys : List A) → any p (xs ++ ys) ≡ (if any p xs then true else any p ys)
  any-append p [] ys = refl
  any-append p (x ∷ xs) ys = ground (arith, any-append p xs ys)

  pub any-reverse : (p : A → Bool) (xs : List A) → any p (reverse xs) ≡ any p xs
  any-reverse p [] = refl
  any-reverse p (x ∷ xs) = rw (reverse-cons, any-append) (ground (arith, any-reverse p xs))

  pub all-append :
      (p : A → Bool) (xs ys : List A) → all p xs ≡ true → all p ys ≡ true → all p (xs ++ ys) ≡ true
  all-append p [] ys h k = k
  all-append p (x ∷ xs) ys h k = ground (arith, all-append p xs ys)

  pub all-reverse : (p : A → Bool) (xs : List A) → all p xs ≡ true → all p (reverse xs) ≡ true
  all-reverse p [] h = refl
  all-reverse p (x ∷ xs) h =
      rw reverse-cons
        (all-append p (reverse xs) (x ∷ []) (all-reverse p xs (ground arith)) (ground arith))

  pub all-select : (p q : A → Bool) (xs : List A) → all p xs ≡ true → all p (select q xs) ≡ true
  all-select p q [] h = refl
  all-select p q (x ∷ xs) h = ground (arith, all-select p q xs)

  pub sum_of-select-select :
      (f : A → ℕ) (p q : A → Bool) (xs : List A)
      → sum_of f (select p (select q xs)) ≤ sum_of f (select p xs)
  sum_of-select-select f p q [] = omega arith
  sum_of-select-select f p q (x ∷ xs) = ground (arith, sum_of-select-select f p q xs)

  pub sum_of-select-reverse :
      (f : A → ℕ) (p : A → Bool) (xs : List A)
      → sum_of f (select p (reverse xs)) ≡ sum_of f (select p xs)
  sum_of-select-reverse f p xs =
      ap (sum_of f) (select-reverse p xs) ∙ sum_of-reverse f (select p xs)
