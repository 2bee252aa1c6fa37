-- ===== src/Verify/Action/Rules.antt =====
-- Rules for handlers, one for each way to build one: what they leave alone, and what holds of the
-- values that they return.
use agent_embassy.Prelude.{ℕ, String, ◌≡◌, refl, ap, subst, ◌∙◌, Bool, true, false, if◌then◌else◌}
use agent_embassy.Verify.Store.{Store}
use agent_embassy.Verify.Action.{
  World, HttpError, Action, Result, ok, err, pure, raise, gets, require, ◌>>=◌,
}

-- `m` leaves the part `f` of the world as it is, whether it returns or raises.
pub record Preserves {B : Type 0} (f : World → B) {A : Type 0} (m : Action A) : Type 0 where
  pub at : (w : World) → f (m w).1 ≡ f w

-- Whatever `m` returns has the property `P`.
pub record Returns {A : Type 0} (P : A → Type 0) (m : Action A) : Type 0 where
  pub at : (w : World) (a : A) → (m w).0 ≡ ok a → P a

module _ {B : Type 0} {f : World → B} {A : Type 0} where
  pub Preserves-pure : (a : A) → Preserves f (pure a)
  Preserves-pure a = record { at = λ w. refl }

  pub Preserves-raise : (n : ℕ) (d : String) → Preserves f (raise {A = A} n d)
  Preserves-raise n d = record { at = λ w. refl }

  pub Preserves-gets : (g : Store → A) → Preserves f (gets g)
  Preserves-gets g = record { at = λ w. refl }

  pub Preserves-if :
      (b : Bool) {m n : Action A} → Preserves f m → Preserves f n → Preserves f (if b then m else n)
  Preserves-if true km kn = km
  Preserves-if false km kn = kn

pub Preserves-require :
    {B : Type 0} {f : World → B} (b : Bool) (n : ℕ) (d : String) → Preserves f (require b n d)
Preserves-require true n d = record { at = λ w. refl }
Preserves-require false n d = record { at = λ w. refl }

module _ {B : Type 0} {f : World → B} {A C : Type 0} where
  after :
      (k : A → Action C)
      → ((a : A) → Preserves f (k a))
      → (r : Result A) (w : World)
      → f (let s : Result C × World = elim r [ ok a ↦ k a w | err e ↦ (err e, w) ] in s.1) ≡ f w
  after k kept (ok a) w = (kept a).at w
  after k kept (err e) w = refl

  pub Preserves-bind :
      (m : Action A) (k : A → Action C)
      → Preserves f m
      → ((a : A) → Preserves f (k a))
      → Preserves f (m >>= k)
  Preserves-bind m k first kept = record { at = λ w. after k kept (m w).0 (m w).1 ∙ first.at w }

pub ruleset preserves_rules = (
  Preserves-pure, Preserves-raise, Preserves-gets, Preserves-if, Preserves-require, Preserves-bind,
)

abbrev value_or : {A : Type 0} → A → Result A → A
value_or a (ok b) = b
value_or a (err e) = a

module _ {A : Type 0} {P : A → Type 0} where
  pub Returns-pure : (a : A) → P a → Returns P (pure a)
  Returns-pure a p = record { at = λ w b e. subst P (ap (value_or a) e) p }

  pub Returns-raise : (n : ℕ) (d : String) → Returns P (raise n d)
  Returns-raise n d = record { at = λ w b e. cc }

  pub Returns-if :
      (b : Bool) {m n : Action A} → Returns P m → Returns P n → Returns P (if b then m else n)
  Returns-if true rm rn = rm
  Returns-if false rm rn = rn

module _ {A C : Type 0} {P : C → Type 0} where
  returned :
      (k : A → Action C)
      → ((a : A) → Returns P (k a))
      → (r : Result A) (w : World) (c : C)
      → (let s : Result C × World = elim r [ ok a ↦ k a w | err e ↦ (err e, w) ] in s.0) ≡ ok c
      → P c
  returned k rk (ok a) w c e = (rk a).at w c e
  returned k rk (err x) w c e = cc

  pub Returns-bind :
      (m : Action A) (k : A → Action C) → ((a : A) → Returns P (k a)) → Returns P (m >>= k)
  Returns-bind m k rk = record { at = λ w. returned k rk (m w).0 (m w).1 }

pub ruleset returns_rules = (Returns-pure, Returns-raise, Returns-if, Returns-bind)

-- If what `m` does is `P`, it has left the part `f` of the world alone.
pub record Quiet {B : Type 0} (f : World → B) {A : Type 0} (P : Result A → Type 0) (m : Action A)
    : Type 0 where
  pub at : (w : World) → P (m w).0 → f (m w).1 ≡ f w

-- Nothing that `m` does is `P`.
pub record Avoids {A : Type 0} (P : Result A → Type 0) (m : Action A) : Type 0 where
  pub at : (w : World) → P (m w).0 → ⊥

module _ {B : Type 0} {f : World → B} {A : Type 0} {P : Result A → Type 0} where
  pub Quiet-Preserves : (m : Action A) → Preserves f m → Quiet f P m
  Quiet-Preserves m kept = record { at = λ w _. kept.at w }

  pub Quiet-Avoids : (m : Action A) → Avoids P m → Quiet f P m
  Quiet-Avoids m never = record { at = λ w p. absurd (never.at w p) }

module _ {B : Type 0} {f : World → B} {A C : Type 0} {P : Result C → Type 0} where
  Quiet-after :
      (k : A → Action C)
      → ((a : A) → Quiet f P (k a))
      → (r : Result A) (w : World)
      → (let s : Result C × World = elim r [ ok a ↦ k a w | err e ↦ (err e, w) ] in
          P s.0 → f s.1 ≡ f w)
  Quiet-after k q (ok a) w p = (q a).at w p
  Quiet-after k q (err e) w p = refl

  pub Quiet-bind :
      (m : Action A) (k : A → Action C)
      → Preserves f m
      → ((a : A) → Quiet f P (k a))
      → Quiet f P (m >>= k)
  Quiet-bind m k first q = record { at = λ w p. Quiet-after k q (m w).0 (m w).1 p ∙ first.at w }

module _ {A C : Type 0} {P : Result C → Type 0} where
  Avoids-after :
      (k : A → Action C)
      → ((a : A) → Avoids P (k a))
      → (r : Result A) (w : World) → ((e : HttpError) → r ≡ err e → ¬ (P (err e)))
      → (let s : Result C × World = elim r [ ok a ↦ k a w | err e ↦ (err e, w) ] in P s.0 → ⊥)
  Avoids-after k q (ok a) w h p = (q a).at w p
  Avoids-after k q (err e) w h p = h e refl p

  -- The errors of the first part count too.
  pub Avoids-bind :
      (m : Action A) (k : A → Action C)
      → ((w : World) (e : HttpError) → (m w).0 ≡ err e → ¬ (P (err e)))
      → ((a : A) → Avoids P (k a))
      → Avoids P (m >>= k)
  Avoids-bind m k errors q = record { at = λ w p. Avoids-after k q (m w).0 (m w).1 (errors w) p }

-- What follows `m` leaves `f` as `m` left it.
pub bind-after :
    {B : Type 0} {f : World → B} {A C : Type 0} (m : Action A) (k : A → Action C)
    → ((a : A) → Preserves f (k a))
    → (w : World) → f ((m >>= k) w).1 ≡ f (m w).1
bind-after m k kept w = after k kept (m w).0 (m w).1

-- A check that passes is no more than what follows it.
pub bind-pass :
    {C : Type 0} (m : Action (Unit {0})) (k : Unit {0} → Action C) (w : World)
    → m w ≡ (ok tt, w)
    → (m >>= k) w ≡ k tt w
bind-pass {C} m k w e =
    ap
      (λ (s : Result (Unit {0}) × World).
        let t : Result C × World = elim s.0 [ ok a ↦ k a s.1 | err x ↦ (err x, s.1) ] in t)
      e

-- An error is passed on.
pub bind-fail :
    {A C : Type 0} (m : Action A) (k : A → Action C) (w : World) (x : HttpError)
    → (m w).0 ≡ err x
    → ((m >>= k) w).0 ≡ err x
bind-fail {A} {C} m k w x e =
    ap
      (λ (r : Result A).
        let t : Result C × World = elim r [ ok a ↦ k a (m w).1 | err y ↦ (err y, (m w).1) ] in t.0)
      e

never_ok : {A : Type 0} {e : HttpError} {a : A} → ◌≡◌ {A = Result A} (err e) (ok a) → ⊥
never_ok h = cc

-- What a check that was passed has tested.
pub require-ok :
    {A : Type 0} (b : Bool) (n : ℕ) (d : String) (k : Unit {0} → Action A) (w : World) (a : A)
    → ((require b n d >>= k) w).0 ≡ ok a
    → (b ≡ true) × ((k tt w).0 ≡ ok a)
require-ok true n d k w a h = (refl, h)
require-ok false n d k w a h = absurd (never_ok h)

pub require-pass :
    {A : Type 0} (b : Bool) (n : ℕ) (d : String) (k : Unit {0} → Action A) (w : World)
    → b ≡ true
    → (require b n d >>= k) w ≡ k tt w
require-pass true n d k w passed = refl
require-pass false n d k w passed = absurd (cc passed)

module _ {A C : Type 0} (k : A → Action C) where
  -- What follows a result, or the error.
  abbrev go_on : Result A → World → Result C × World
  go_on r w = elim r [ ok a ↦ k a w | err e ↦ (err e, w) ]

  went_on :
      (r : Result A) (w : World) (c : C)
      → (go_on r w).0 ≡ ok c
      → (a : A) × (r ≡ ok a) × ((k a w).0 ≡ ok c) × (go_on r w ≡ k a w)
  went_on (ok a) w c h = (a, refl, h, refl)
  went_on (err e) w c h = absurd (never_ok h)

  -- A chain that returns has a first step that returned, and goes on from there.
  pub bind-ok :
      (m : Action A) (w : World) (c : C)
      → ((m >>= k) w).0 ≡ ok c
      → (a : A) × ((m w).0 ≡ ok a) × ((k a (m w).1).0 ≡ ok c) × ((m >>= k) w ≡ k a (m w).1)
  bind-ok m w c h = went_on (m w).0 (m w).1 c h
