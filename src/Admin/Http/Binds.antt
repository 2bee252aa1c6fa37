-- ===== src/Admin/Http/Binds.antt =====
-- What a request followed by a computation without requests does.
use agent_embassy.Prelude.{◌≡◌, refl}
use agent_embassy.Python.Attempt.{Attempt, value, exception}
use agent_embassy.Admin.Http.{World, Action, pure, ◌>>=◌}

pub bind_pure-world :
    {A B : Type 0} (m : Action A) (f : A → B) (w : World) → ((m >>= λ a. pure (f a)) w).1 ≡ (m w).1
bind_pure-world {A} {B} m f w = go (m w).0 (m w).1
  where
    go :
        (r : Attempt A) (w' : World)
        → ◌≡◌ {A = World}
            (elim r as (λ _. Attempt B × World) [
              | value a ↦ (value (f a), w')
              | exception x ↦ (exception x, w')
            ]).1
            w'
    go (value a) w' = refl
    go (exception x) w' = refl

pub bind_pure-value :
    {A B : Type 0} (m : Action A) (f : A → B) (w : World) (b : B)
    → ((m >>= λ a. pure (f a)) w).0 ≡ value b
    → (a : A) × (f a ≡ b)
bind_pure-value {A} {B} m f w b h = go (m w).0 (m w).1 h
  where
    go :
        (r : Attempt A) (w' : World)
        → (elim r as (λ _. Attempt B × World) [
          | value a ↦ (value (f a), w')
          | exception x ↦ (exception x, w')
        ]).0
          ≡ value b
        → (a : A) × (f a ≡ b)
    go (value a) w' e = (a, cc e)
    go (exception x) w' e = absurd (cc e)
