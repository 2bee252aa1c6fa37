-- ===== src/Python/Text/Count.antt =====
-- How many characters the texts have that messages are made of.
use Prim.Native.String
use Prim.Native.String.{String}
use agent_embassy.Prelude.{
  ℕ, zero, suc, ◌+◌, ◌*◌, ◌/◌, ◌%◌, ◌≤◌, ◌<◌, ◌≡◌, refl, true, false, arith, ◌==◌, inl, inr,
  Bool-cases,
}
use agent_embassy.Python.Text.{is_empty, digit, decimal_from, decimal, euros, last, ◌+++◌}

pub count-append : (s t : String) → String.count (s +++ t) ≡ String.count s + String.count t
count-append String.[] t = rw (String.append.nil, String.count.nil) (omega arith)
count-append (String.◌∷◌ c s) t =
    rw (String.append.cons c s t, String.count.cons c (s +++ t), String.count.cons c s)
      (omega (arith, count-append s t))

count-digit : (d : ℕ) → d < 10 → String.count (digit d) ≡ 1
unfolding digit
count-digit zero h = refl
count-digit (suc zero) h = refl
count-digit (suc (suc zero)) h = refl
count-digit (suc (suc (suc zero))) h = refl
count-digit (suc (suc (suc (suc zero)))) h = refl
count-digit (suc (suc (suc (suc (suc zero))))) h = refl
count-digit (suc (suc (suc (suc (suc (suc zero)))))) h = refl
count-digit (suc (suc (suc (suc (suc (suc (suc zero))))))) h = refl
count-digit (suc (suc (suc (suc (suc (suc (suc (suc zero)))))))) h = refl
count-digit (suc (suc (suc (suc (suc (suc (suc (suc (suc zero))))))))) h = refl
count-digit (suc (suc (suc (suc (suc (suc (suc (suc (suc (suc n)))))))))) h = absurd (omega arith)

-- `10 ** k`
power : ℕ → ℕ
power zero = 1
power (suc k) = 10 * power k

count-shown :
    (n : ℕ) (acc : String) → String.count (String.◌++◌ (digit (n % 10)) acc) ≡ 1 + String.count acc
count-shown n acc = rw (count-append (digit (n % 10)) acc, count-digit (n % 10) (omega arith))

count-decimal_from :
    (fuel k n : ℕ) (acc : String)
    → n < power (suc k)
    → String.count (decimal_from fuel n acc) ≤ suc k + String.count acc
unfolding decimal_from power
count-decimal_from zero k n acc h = omega arith
count-decimal_from (suc fuel) zero n acc h =
    let one : (n / 10 == 0) ≡ true = ground arith in rw one (omega (arith, count-shown n acc))
count-decimal_from (suc fuel) (suc k) n acc h =
    let shown = String.◌++◌ (digit (n % 10)) acc in
    let further = count-decimal_from fuel k (n / 10) shown (omega arith) in
    elim (Bool-cases (n / 10 == 0)) [
      | inl last_one ↦ rw last_one (omega (arith, count-shown n acc))
      | inr more ↦ rw more (omega (arith, further, count-shown n acc))
    ]

-- A number below `10 ** (k + 1)` has `k + 1` digits at most.
count-decimal : (k n : ℕ) → n < power (suc k) → String.count (decimal n) ≤ suc k
unfolding decimal
count-decimal k n h = omega (arith, count-decimal_from (n + 1) k n "" h)

pub count-decimal_quantity : (n : ℕ) → n ≤ 10000 → String.count (decimal n) ≤ 5
unfolding power
count-decimal_quantity n h = count-decimal 4 n (omega arith)

pub count-euros : (n : ℕ) → n ≤ 1000000 → String.count (euros n) ≤ 8
unfolding euros
count-euros n h =
    let whole = decimal (n / 100) in
    let tenths = digit (n / 10 % 10) in
    omega (
      arith,
      count-append whole ("." +++ tenths +++ digit (n % 10)),
      count-append "." (tenths +++ digit (n % 10)),
      count-append tenths (digit (n % 10)),
      count-decimal_quantity (n / 100) (omega arith),
      count-digit (n / 10 % 10) (omega arith),
      count-digit (n % 10) (omega arith),
    )

pub count-last : (n : ℕ) (s : String) → String.count (last n s) ≤ n
unfolding last
count-last n String.[] = omega arith
count-last n (String.◌∷◌ c s) = ground (arith, count-last n s)

-- A text that has a character is not empty.
pub is_empty-count : (s : String) → 0 < String.count s → is_empty s ≡ false
is_empty-count String.[] h = absurd (omega arith)
is_empty-count (String.◌∷◌ c s) h = refl
