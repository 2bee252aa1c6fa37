-- ===== src/Python/Text.antt =====
-- `str` methods of Python on native texts.
pub mod Strip
pub mod Count
use Prim.Native.Char.{code}
use Prim.Native.String
use Prim.Native.String.{String}
use agent_embassy.Prelude.{
  ℕ, zero, suc, ◌+◌, ◌/◌, ◌%◌, ◌≡◌, refl, Bool, true, false, ◌&&◌, ◌||◌, leb, ◌==◌, if◌then◌else◌,
}

-- `str.isspace` of one code point: the whitespace that `str.strip` removes.
unfoldable pub is_space : ℕ → Bool
is_space c =
    (leb 9 c && leb c 13)
    || (leb 28 c && leb c 32)
    || c == 133
    || c == 160
    || c == 5760
    || (leb 8192 c && leb c 8202)
    || c == 8232
    || c == 8233
    || c == 8239
    || c == 8287
    || c == 12288

abbrev pub is_empty : String → Bool
is_empty String.[] = true
is_empty (String.◌∷◌ _ _) = false

-- `s.lstrip()`
unfoldable pub lstrip : String → String
unfolding is_space
lstrip String.[] = String.[]
lstrip (String.◌∷◌ c s) = if is_space (code c) then lstrip s else String.◌∷◌ c s

-- `s.rstrip()`
unfoldable pub rstrip : String → String
unfolding is_space
rstrip String.[] = String.[]
rstrip (String.◌∷◌ c s) =
    let rest = rstrip s in
    if is_empty rest && is_space (code c) then String.[] else String.◌∷◌ c rest

-- `s.strip()`
unfoldable pub strip : String → String
unfolding lstrip rstrip
strip s = rstrip (lstrip s)

-- `s.isascii()`
unfoldable pub is_ascii : String → Bool
is_ascii String.[] = true
is_ascii (String.◌∷◌ c s) = leb (code c) 127 && is_ascii s

-- `s.startswith(p)`
unfoldable pub starts_with : String → String → Bool
starts_with s String.[] = true
starts_with String.[] (String.◌∷◌ _ _) = false
starts_with (String.◌∷◌ c s) (String.◌∷◌ d p) = code c == code d && starts_with s p

unfoldable pub drop_text : String → String → String
drop_text s String.[] = s
drop_text String.[] (String.◌∷◌ _ _) = String.[]
drop_text (String.◌∷◌ _ s) (String.◌∷◌ _ p) = drop_text s p

-- `s.removeprefix(p)`
unfoldable pub remove_prefix : String → String → String
unfolding starts_with drop_text
remove_prefix s p = if starts_with s p then drop_text s p else s

-- The decimal digit of a number below ten.
digit : ℕ → String
digit d = String.slice "0123456789" d (d + 1)

-- The digits of `n` before `acc`; a number has no more decimal digits than its value plus one.
decimal_from : ℕ → ℕ → String → String
unfolding digit
decimal_from zero n acc = acc
decimal_from (suc fuel) n acc =
    let shown = String.◌++◌ (digit (n % 10)) acc in
    let rest = decimal_from fuel (n / 10) shown in if n / 10 == 0 then shown else rest

-- `str(n)`
unfoldable pub decimal : ℕ → String
unfolding decimal_from
decimal n = decimal_from (n + 1) n ""

infixr 65 ◌+++◌
abbrev pub ◌+++◌ : String → String → String
s +++ t = String.◌++◌ s t

-- `f"{cents / 100:.2f}"`, exact for the amounts of an order, which a double holds.
unfoldable pub euros : ℕ → String
unfolding decimal digit
euros cents = decimal (cents / 100) +++ "." +++ digit (cents / 10 % 10) +++ digit (cents % 10)

-- `s[-n:]` where `n` is positive
unfoldable pub last : ℕ → String → String
last n String.[] = String.[]
last n (String.◌∷◌ c s) =
    let rest = last n s in if leb (String.count (String.◌∷◌ c s)) n then String.◌∷◌ c s else rest

euros-120305 : euros 120305 ≡ "1203.05"
unfolding euros
euros-120305 = refl

last-8 : last 8 "act-1700-beefbeef" ≡ "beefbeef"
unfolding last
last-8 = refl

decimal-2048 : decimal 2048 ≡ "2048"
unfolding decimal
decimal-2048 = refl

strip_token : strip (remove_prefix "Bearer  abc " "Bearer ") ≡ "abc"
unfolding strip remove_prefix
strip_token = refl
