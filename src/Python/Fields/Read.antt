-- ===== src/Python/Fields/Read.antt =====
-- The fields that are read: what is known of their values, and which values are read.
use Prim.Native.String
use agent_embassy.Prelude.{
  ℕ, zero, suc, ◌<◌, ◌≤◌, String, ◌≡◌, subst, false, ◌&&◌, not, Option, none, some, leb, leb→le,
  inl, inr, Bool-cases, arith,
}
use agent_embassy.Prelude.Int.{ℤ, pos, negsuc}
use agent_embassy.Python.Text.{is_empty}
use agent_embassy.Python.Text.Count.{is_empty-count}
use agent_embassy.Python.Json.{Json, Fields, get_field, as_str}
use agent_embassy.Python.Fields.{positive_up_to, text_up_to, bind, text_field, number_field}

-- The texts and the numbers that the bounds of a field let through.
abbrev pub Within : ℕ → String → Type 0
Within bound s = (0 < String.count s) × (String.count s ≤ bound)

abbrev pub InRange : ℕ → ℕ → Type 0
InRange bound n = (0 < n) × (n ≤ bound)

-- Whatever `o` holds has the property `P`.
abbrev pub Each : {A : Type 0} → (A → Type 0) → Option A → Type 0
Each P none = Unit
Each P (some a) = P a

pub Each-bind :
    {A B : Type 0} (P : A → Type 0) (Q : B → Type 0) (o : Option A) (k : A → Option B)
    → Each P o
    → ((a : A) → P a → Each Q (k a))
    → Each Q (bind o k)
Each-bind P Q none k known kept = tt
Each-bind P Q (some a) k known kept = kept a known

pub Each-some : {A : Type 0} (P : A → Type 0) (o : Option A) (a : A) → Each P o → o ≡ some a → P a
Each-some P o a known e = subst (Each P) e known

count-positive : (s : String) → is_empty s ≡ false → 0 < String.count s
count-positive String.[] h = cc
count-positive (String.◌∷◌ c s) h = rw String.count.cons (omega arith)

pub text_up_to-Within : (bound : ℕ) (s : String) → Each (Within bound) (text_up_to bound s)
text_up_to-Within bound s = elim (Bool-cases (not (is_empty s) && leb (String.count s) bound)) [
  | inl fine ↦ rw fine (count-positive s (ground arith), leb→le _ _ (ground arith))
  | inr bad ↦ rw bad tt
]

pub text_field-Within :
    (f : Fields) (key : String) (bound : ℕ) → Each (Within bound) (text_field f key bound)
unfolding text_field
text_field-Within f key bound = of_text (as_str (get_field f key))
  where
    of_text : (o : Option String) → Each (Within bound) (bind o (text_up_to bound))
    of_text none = tt
    of_text (some s) = text_up_to-Within bound s

pub positive_up_to-InRange : (bound : ℕ) (n : ℤ) → Each (InRange bound) (positive_up_to bound n)
positive_up_to-InRange bound (negsuc n) = tt
positive_up_to-InRange bound (pos zero) = tt
positive_up_to-InRange bound (pos (suc n)) = elim (Bool-cases (leb (suc n) bound)) [
  | inl fine ↦ rw fine (omega arith, leb→le _ _ fine)
  | inr bad ↦ rw bad tt
]

pub number_field-InRange :
    (coerce : Json → Option ℤ) (f : Fields) (key : String) (bound : ℕ)
    → Each (InRange bound) (number_field coerce f key bound)
unfolding number_field
number_field-InRange coerce f key bound =
    Each-bind (λ _. Unit) (InRange bound) (get_field f key) _ (all_Unit (get_field f key))
      λ v _.
        Each-bind (λ _. Unit) (InRange bound) (coerce v) _ (all_Unit (coerce v))
          λ n _. positive_up_to-InRange bound n
  where
    all_Unit : {A : Type 0} (o : Option A) → Each (λ _. Unit) o
    all_Unit none = tt
    all_Unit (some a) = tt

pub text_field-read :
    (f : Fields) (key : String) (bound : ℕ) (s : String)
    → get_field f key ≡ some (Json.str s)
    → Within bound s
    → text_field f key bound ≡ some s
unfolding text_field
text_field-read f key bound s found (some_text, short) =
    let full : is_empty s ≡ false = is_empty-count s some_text in rw (found, full) (ground arith)

pub number_field-read :
    (coerce : Json → Option ℤ) (f : Fields) (key : String) (bound n : ℕ)
    → coerce (Json.int (pos n)) ≡ some (pos n)
    → get_field f key ≡ some (Json.int (pos n))
    → InRange bound n
    → number_field coerce f key bound ≡ some n
unfolding number_field
number_field-read coerce f key bound zero taken found (positive, small) = absurd (omega arith)
number_field-read coerce f key bound (suc n) taken found (positive, small) =
    rw (found, taken) (ground arith)
