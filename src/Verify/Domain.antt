-- ===== src/Verify/Domain.antt =====
-- verify/security.py: `validate_domain`, which normalises a claimed domain and refuses what must not
-- be challenged.
pub mod Accepted
mod Tests
use Prim.Native.Char.{Char, code}
use Prim.Native.String
use agent_embassy.Prelude.{
  ℕ, zero, suc, ◌+◌, ◌-◌, String, Bool, true, false, ◌&&◌, ◌||◌, not, List, [], ◌∷◌, reverse, leb,
  ltb, ◌==◌, if◌then◌else◌, length, all, any,
}
use agent_embassy.Python.Text.{is_empty, is_ascii, strip}

-- The code points of a text.
abbrev pub codes : String → List ℕ
codes String.[] = []
codes (String.◌∷◌ c s) = code c ∷ codes s

lower_char : Char → Char
lower_char c =
    if leb b'A' (code c) && leb (code c) b'Z'
    then String.char_at "abcdefghijklmnopqrstuvwxyz" (code c - b'A')
    else c

lower_ascii : String → String
unfolding lower_char
lower_ascii String.[] = String.[]
lower_ascii (String.◌∷◌ c s) = String.◌∷◌ (lower_char c) (lower_ascii s)

-- `s.lower()`; `lower_wide` is its value on texts that are not ASCII.
unfoldable pub lower : (String → String) → String → String
unfolding lower_ascii
lower lower_wide s = if is_ascii s then lower_ascii s else lower_wide s

-- `s.rstrip(".")`
unfoldable pub strip_dots : String → String
strip_dots String.[] = String.[]
strip_dots (String.◌∷◌ c s) =
    let rest = strip_dots s in
    if is_empty rest && code c == b'.' then String.[] else String.◌∷◌ c rest

abbrev pub is_letter : ℕ → Bool
is_letter c = (leb b'A' c && leb c b'Z') || (leb b'a' c && leb c b'z')

abbrev pub is_label_char : ℕ → Bool
is_label_char c = is_letter c || ((leb b'0' c && leb c b'9') || c == b'-')

abbrev first_is_dash : List ℕ → Bool
first_is_dash [] = false
first_is_dash (c ∷ _) = c == b'-'

-- `_LABEL`
unfoldable pub is_label : List ℕ → Bool
is_label l =
    leb 1 (length l)
    && (leb (length l) 63
        && (all is_label_char l && (not (first_is_dash l) && not (first_is_dash (reverse l)))))

-- The end of the pattern, `[A-Za-z]{2,63}$`: `$` also matches before a newline that ends the text.
abbrev drop_newline : List ℕ → List ℕ
drop_newline [] = []
drop_newline (c ∷ l) = if c == 10 then l else c ∷ l

unfoldable pub is_top_level : List ℕ → Bool
is_top_level l =
    let name = reverse (drop_newline (reverse l)) in
    leb 2 (length name) && (leb (length name) 63 && all is_letter name)

-- The match of `_HOSTNAME_RE` against labels that are parted by dots: `label` is the current one,
-- reversed, and `some_label` says that one has ended before it.
unfoldable pub matches_from : Bool → List ℕ → List ℕ → Bool
unfolding is_label is_top_level
matches_from some_label label [] = some_label && is_top_level (reverse label)
matches_from some_label label (c ∷ l) =
    let longer = matches_from some_label (c ∷ label) l in
    let ended = is_label (reverse label) && matches_from true [] l in
    if c == b'.' then ended else longer

-- `_HOSTNAME_RE.match(domain)`
unfoldable pub is_hostname : List ℕ → Bool
unfolding matches_from
is_hostname l = matches_from false [] l

pub begins : List ℕ → List ℕ → Bool
begins l [] = true
begins [] (_ ∷ _) = false
begins (c ∷ l) (d ∷ p) = c == d && begins l p

-- `domain.endswith(s)`
unfoldable pub ends_with : List ℕ → List ℕ → Bool
unfolding begins
ends_with l s = begins (reverse l) (reverse s)

unfoldable pub same : List ℕ → List ℕ → Bool
same [] [] = true
same [] (_ ∷ _) = false
same (_ ∷ _) [] = false
same (c ∷ l) (d ∷ m) = c == d && same l m

-- `s.lstrip(".")`
abbrev pub lstrip_dots : List ℕ → List ℕ
lstrip_dots [] = []
lstrip_dots (c ∷ l) = if c == b'.' then lstrip_dots l else c ∷ l

-- `_RESERVED_SUFFIXES`
abbrev pub reserved_suffixes : List (List ℕ)
reserved_suffixes =
    codes "localhost"
    ∷ codes ".local"
    ∷ codes ".test"
    ∷ codes ".example"
    ∷ codes ".invalid"
    ∷ codes ".internal"
    ∷ []

-- `_SHARED_HOSTING_SUFFIXES`
abbrev pub shared_hosting_suffixes : List (List ℕ)
shared_hosting_suffixes =
    codes "github.io"
    ∷ codes "gitlab.io"
    ∷ codes "netlify.app"
    ∷ codes "vercel.app"
    ∷ codes "pages.dev"
    ∷ codes "herokuapp.com"
    ∷ codes "s3.amazonaws.com"
    ∷ codes "web.app"
    ∷ codes "firebaseapp.com"
    ∷ codes "azurewebsites.net"
    ∷ codes "azureedge.net"
    ∷ codes "cloudfront.net"
    ∷ codes "blogspot.com"
    ∷ codes "wordpress.com"
    ∷ []

unfoldable pub is_reserved : List ℕ → Bool
unfolding same ends_with
is_reserved domain =
    same domain (codes "localhost")
    || any (λ s. same domain (lstrip_dots s) || ends_with domain s) reserved_suffixes

unfoldable pub is_shared_hosting : List ℕ → Bool
unfolding same ends_with
is_shared_hosting domain =
    any (λ s. same domain s || ends_with domain (b'.' ∷ s)) shared_hosting_suffixes

-- The exceptions of `validate_domain`: `InvalidDomain`, a subclass of `ValueError`, with its text,
-- and the `ValueError` of `ipaddress.ip_address`.
pub data Refusal : Type 0 where
  invalid_domain : String → Refusal
  value_error : Refusal

pub data Validated : Type 0 where
  valid : String → Validated
  refused : Refusal → Validated

-- `except ValueError` catches both.
abbrev pub is_value_error : Refusal → Bool
is_value_error (invalid_domain _) = true
is_value_error value_error = true

-- What the body of the `try` raises: it always raises something.
abbrev pub ip_attempt : (String → Bool) → String → Refusal
ip_attempt is_ip domain =
    if is_ip domain then invalid_domain "IP literals are not accepted as a domain" else value_error

-- The checks after the `try`.
unfoldable pub check_hostname : String → Validated
unfolding is_hostname is_reserved is_shared_hosting
check_hostname domain =
    if not (is_hostname (codes domain))
    then refused (invalid_domain "not a well-formed hostname")
    else if is_reserved (codes domain)
    then refused (invalid_domain "reserved/special-use domain")
    else if is_shared_hosting (codes domain)
    then refused (
        invalid_domain
          "bare subdomains of shared-hosting platforms are not accepted (subdomain-takeover risk)")
    else valid domain

unfoldable pub check_normalised : (String → Bool) → String → Validated
unfolding check_hostname
check_normalised is_ip domain =
    if leb 254 (String.count domain) || is_empty domain
    then refused (invalid_domain "domain too long or empty")
    else if is_value_error (ip_attempt is_ip domain)
    then check_hostname domain
    else refused (ip_attempt is_ip domain)

-- `validate_domain`; `is_ip` says which texts `ipaddress.ip_address` accepts.
unfoldable pub validate_domain : (String → String) → (String → Bool) → String → Validated
unfolding check_normalised strip_dots lower
validate_domain lower_wide is_ip domain =
    check_normalised is_ip (strip_dots (lower lower_wide (strip domain)))
