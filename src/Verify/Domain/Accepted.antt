-- ===== src/Verify/Domain/Accepted.antt =====
-- What a domain satisfies that `validate_domain` returns, and what becomes of its IP check.
use Prim.Native.String
use mathlib.Core.List.{reverse-append}
use agent_embassy.Prelude.{
  ℕ, ◌<◌, String, ◌≡◌, ◌≢◌, refl, sym, ap, subst, ◌∙◌, Bool, true, false, ◌||◌, List, [], ◌∷◌, ◌++◌,
  reverse, map, any, arith, leb, if◌then◌else◌, inl, inr, Bool-cases,
}
use agent_embassy.Python.Text.{is_empty, strip}
use agent_embassy.Verify.Domain.{
  codes, begins, ends_with, same, lstrip_dots, reserved_suffixes, shared_hosting_suffixes, lower,
  strip_dots, is_hostname, is_reserved, is_shared_hosting, Refusal, valid, refused, is_value_error,
  ip_attempt, check_hostname, check_normalised, validate_domain,
}

swallowed : (r : Refusal) → is_value_error r ≡ true
swallowed (Refusal.invalid_domain text) = refl
swallowed Refusal.value_error = refl

checked :
    (is_ip : String → Bool) (domain : String)
    → check_normalised is_ip domain ≡ (
        if leb 254 (String.count domain) || is_empty domain
        then refused (Refusal.invalid_domain "domain too long or empty")
        else check_hostname domain)
unfolding check_normalised
checked is_ip domain = rw (swallowed (ip_attempt is_ip domain))

-- Whether a text is an IP literal makes no difference to `validate_domain`, since its own refusal of
-- one is among the exceptions that it catches.
pub validate_domain-ip :
    (lower_wide : String → String) (is_ip other : String → Bool) (domain : String)
    → validate_domain lower_wide is_ip domain ≡ validate_domain lower_wide other domain
unfolding validate_domain
validate_domain-ip lower_wide is_ip other domain = rw (checked is_ip, checked other)

-- A text without any of `suffixes` at its end.
abbrev EndsInNone : List (List ℕ) → List ℕ → Type 0
EndsInNone [] domain = Unit
EndsInNone (s ∷ suffixes) domain =
    ((before : List ℕ) → domain ≢ before ++ s) × EndsInNone suffixes domain

-- A text that is none of `names`.
abbrev IsNone : List (List ℕ) → List ℕ → Type 0
IsNone [] domain = Unit
IsNone (s ∷ names) domain = (domain ≢ s) × IsNone names domain

abbrev pub bare_names : List (List ℕ)
bare_names =
    codes "localhost"
    ∷ codes "local"
    ∷ codes "test"
    ∷ codes "example"
    ∷ codes "invalid"
    ∷ codes "internal"
    ∷ []

-- The demands on a domain that may be challenged.
pub record IsAcceptable (domain : String) : Type 0 where
  pub short : String.count domain < 254
  pub named : is_empty domain ≡ false
  pub hostname : is_hostname (codes domain) ≡ true
  pub public : EndsInNone reserved_suffixes (codes domain)
  pub not_bare : IsNone bare_names (codes domain)
  pub owned : EndsInNone (map (λ s. b'.' ∷ s) shared_hosting_suffixes) (codes domain)
  pub not_shared : IsNone shared_hosting_suffixes (codes domain)

begins-append : (s l : List ℕ) → begins (s ++ l) s ≡ true
unfolding begins
begins-append [] [] = refl
begins-append [] (c ∷ l) = refl
begins-append (c ∷ s) l = ground (arith, begins-append s l)

ends_with-append : (before s : List ℕ) → ends_with (before ++ s) s ≡ true
unfolding ends_with
ends_with-append before s = rw reverse-append (begins-append (reverse s) (reverse before))

same_refl : (l : List ℕ) → same l l ≡ true
unfolding same
same_refl [] = refl
same_refl (c ∷ l) = ground (arith, same_refl l)

ends_in_no :
    (domain s : List ℕ) → ends_with domain s ≡ false → (before : List ℕ) → domain ≢ before ++ s
ends_in_no domain s h before e =
    let always : ends_with domain s ≡ true =
      ap (λ l. ends_with l s) e ∙ ends_with-append before s in
    cc

differs : (domain s : List ℕ) → same domain s ≡ false → domain ≢ s
differs domain s h e = let always : same domain s ≡ true = ap (λ l. same l s) e ∙ same_refl s in cc

apart_from :
    (names suffixes : List ℕ → List ℕ) (domain : List ℕ) (l : List (List ℕ))
    → any (λ s. same domain (names s) || ends_with domain (suffixes s)) l ≡ false
    → EndsInNone (map suffixes l) domain × IsNone (map names l) domain
apart_from names suffixes domain [] h = (tt, tt)
apart_from names suffixes domain (s ∷ l) h =
    let (apart, open_end, rest) : (same domain (names s) ≡ false)
        × (ends_with domain (suffixes s) ≡ false)
        × (any (λ s. same domain (names s) || ends_with domain (suffixes s)) l ≡ false) =
      ground arith in
    let (ends, others) = apart_from names suffixes domain l rest in
    ((ends_in_no domain (suffixes s) open_end, ends), (differs domain (names s) apart, others))

reserved-free :
    (domain : List ℕ)
    → is_reserved domain ≡ false
    → EndsInNone reserved_suffixes domain × IsNone bare_names domain
unfolding is_reserved
reserved-free domain h = apart_from lstrip_dots (λ s. s) domain reserved_suffixes (ground arith)

shared-free :
    (domain : List ℕ)
    → is_shared_hosting domain ≡ false
    → EndsInNone (map (λ s. b'.' ∷ s) shared_hosting_suffixes) domain
      × IsNone shared_hosting_suffixes domain
unfolding is_shared_hosting
shared-free domain h = apart_from (λ s. s) (λ s. b'.' ∷ s) domain shared_hosting_suffixes h

never : {x : Refusal} {d : String} → refused x ≡ valid d → ⊥
never h = cc

same_domain : {d e : String} → valid d ≡ valid e → d ≡ e
same_domain h = cc

accepted :
    (d result : String)
    → (String.count d < 254)
    → is_empty d ≡ false
    → check_hostname d ≡ valid result
    → (result ≡ d) × IsAcceptable result
unfolding check_hostname
accepted d result s n h = elim (Bool-cases (is_hostname (codes d))) [
  | inr bad ↦ absurd (never (rw bad at h))
  | inl good ↦ elim (Bool-cases (is_reserved (codes d))) [
    | inl bad ↦ absurd (never (rw (good, bad) at h))
    | inr free ↦ elim (Bool-cases (is_shared_hosting (codes d))) [
      | inl bad ↦ absurd (never (rw (good, free, bad) at h))
      | inr own ↦
          let unchanged : d ≡ result = same_domain (rw (good, free, own) at h) in
          let (public, not_bare) = reserved-free (codes d) free in
          let (owned, not_shared) = shared-free (codes d) own in
          (
            sym unchanged,
            subst IsAcceptable unchanged (record {
              short = s;
              named = n;
              hostname = good;
              public = public;
              not_bare = not_bare;
              owned = owned;
              not_shared = not_shared;
            }),
          )
    ]
  ]
]

-- A text that `validate_domain` returns is the claim without white space around it, in lower case and
-- without dots at its end; it has 253 characters at most and matches the pattern of hostnames; it ends
-- in none of "localhost", ".local", ".test", ".example", ".invalid" and ".internal" and is none of
-- them without the dot; and it is none of the fourteen names of shared hosting and ends in none of
-- them with a dot before it. All of this is about the text as it stands: the pattern lets a line break
-- stand at its end, and a reserved name before that line break is no end of the text.
pub validate_domain-IsAcceptable :
    (lower_wide : String → String) (is_ip : String → Bool) (claimed domain : String)
    → validate_domain lower_wide is_ip claimed ≡ valid domain
    → (domain ≡ strip_dots (lower lower_wide (strip claimed))) × IsAcceptable domain
unfolding validate_domain
validate_domain-IsAcceptable lower_wide is_ip claimed domain h =
    let d = strip_dots (lower lower_wide (strip claimed)) in
    elim (Bool-cases (leb 254 (String.count d))) [
      | inl long ↦ absurd (never (rw long at (sym (checked is_ip d) ∙ h)))
      | inr short ↦ elim (Bool-cases (is_empty d)) [
        | inl empty ↦ absurd (never (rw (short, empty) at (sym (checked is_ip d) ∙ h)))
        | inr named ↦
            accepted d domain (ground arith) named
              (rw (short, named) at (sym (checked is_ip d) ∙ h))
      ]
    ]
