-- ===== src/Admin/Logs/Scanning.antt =====
-- What the scanner reads of a text that begins with what it looks for.
use Prim.Native.Char.{code}
use Prim.Native.String
use agent_embassy.Prelude.{
  ℕ, ◌<◌, String, ◌≡◌, refl, ap, Bool, true, false, ◌&&◌, not, some, leb, le→leb, arith,
}
use agent_embassy.Python.Text.{is_space, is_empty, starts_with, drop_text, ◌+++◌}
use agent_embassy.Python.Text.Count.{count-append, is_empty-count}
use agent_embassy.Admin.Logs.{
  non_space, span, any_run, some_run, literal, ends_in_quote, quoted_run,
}

-- Every character of a text is in the class.
unfoldable pub all_of : (ℕ → Bool) → String → Bool
all_of p String.[] = true
all_of p (String.◌∷◌ c s) = p (code c) && all_of p s

-- A run of the class ends in front of the text.
unfoldable pub stops : (ℕ → Bool) → String → Bool
stops p String.[] = true
stops p (String.◌∷◌ c s) = not (p (code c))

stops-append :
    (p : ℕ → Bool) (d x : String) → is_empty d ≡ false → stops p d ≡ true → stops p (d +++ x) ≡ true
unfolding stops
stops-append p String.[] x full h = cc
stops-append p (String.◌∷◌ c d) x full h = rw String.append.cons h

pub all_of-append :
    (p : ℕ → Bool) (s t : String)
    → all_of p s ≡ true
    → all_of p t ≡ true
    → all_of p (s +++ t) ≡ true
unfolding all_of
all_of-append p String.[] t h k = rw String.append.nil k
all_of-append p (String.◌∷◌ c s) t h k =
    rw (String.append.cons c s t) (ground (arith, all_of-append p s t))

span-append :
    (p : ℕ → Bool) (s t : String) → all_of p s ≡ true → stops p t ≡ true → span p (s +++ t) ≡ (s, t)
unfolding span all_of stops
span-append p String.[] String.[] h k = refl
span-append p String.[] (String.◌∷◌ c t) h k =
    let fails : p (code c) ≡ false = ground arith in rw (String.append.nil, fails)
span-append p (String.◌∷◌ c s) t h k =
    let holds : p (code c) ≡ true = ground arith in
    let others : all_of p s ≡ true = ground arith in
    rw (String.append.cons c s t, span-append p s t others k, holds)

starts_with-append : (s t : String) → starts_with (s +++ t) s ≡ true
unfolding starts_with
starts_with-append String.[] t = refl
starts_with-append (String.◌∷◌ c s) t =
    rw (String.append.cons c s t) (ground (arith, starts_with-append s t))

drop_text-append : (s t : String) → drop_text (s +++ t) s ≡ t
unfolding drop_text
drop_text-append String.[] t = rw String.append.nil refl
drop_text-append (String.◌∷◌ c s) t = rw (String.append.cons c s t) (drop_text-append s t)

pub literal-append : (s t : String) → literal s (s +++ t) ≡ some (tt, t)
unfolding literal
literal-append s t = rw (starts_with-append s t, drop_text-append s t)

pub any_run-append :
    (p : ℕ → Bool) (s d t : String)
    → all_of p s ≡ true
    → is_empty d ≡ false
    → stops p d ≡ true
    → any_run p (s +++ d +++ t) ≡ some (s, d +++ t)
unfolding any_run
any_run-append p s d t h full k = ap some (span-append p s (d +++ t) h (stops-append p d t full k))

pub some_run-append :
    (p : ℕ → Bool) (s d t : String)
    → is_empty s ≡ false
    → all_of p s ≡ true
    → is_empty d ≡ false
    → stops p d ≡ true
    → some_run p (s +++ d +++ t) ≡ some (s, d +++ t)
unfolding some_run
some_run-append p s d t shown h full k =
    rw (span-append p s (d +++ t) h (stops-append p d t full k), shown)

ends_in_quote-append : (s : String) → ends_in_quote (s +++ "\"") ≡ true
unfolding ends_in_quote
ends_in_quote-append String.[] = refl
ends_in_quote-append (String.◌∷◌ c s) =
    let more : is_empty (s +++ "\"") ≡ false =
      is_empty-count (s +++ "\"") (omega (arith, count-append s "\"")) in
    rw (String.append.cons c s "\"", more) (ends_in_quote-append s)

count-full : (s : String) → is_empty s ≡ false → 0 < String.count s
count-full String.[] h = cc
count-full (String.◌∷◌ c s) h = rw String.count.cons (omega arith)

pub quoted_run-append :
    (s t : String)
    → is_empty s ≡ false
    → all_of non_space s ≡ true
    → quoted_run ((s +++ "\"") +++ " " +++ t) ≡ some (s +++ "\"", " " +++ t)
unfolding quoted_run stops all_of is_space
quoted_run-append s t shown h =
    let run = s +++ "\"" in
    let whole : span non_space (run +++ " " +++ t) ≡ (run, " " +++ t) =
      span-append non_space run (" " +++ t) (all_of-append non_space s "\"" h refl)
        (stops-append non_space " " t refl refl) in
    let long : leb 2 (String.count run) ≡ true =
      le→leb 2 (String.count run) (omega (arith, count-append s "\"", count-full s shown)) in
    rw (whole, long, ends_in_quote-append s)
