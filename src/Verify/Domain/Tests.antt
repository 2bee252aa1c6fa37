-- ===== src/Verify/Domain/Tests.antt =====
-- `validate_domain` on concrete claims.
use agent_embassy.Prelude.{◌≡◌, refl, true, false}
use agent_embassy.Python.Text.{strip, is_ascii}
use agent_embassy.Verify.Domain.{
  lower, strip_dots, validate_domain, valid, refused, Refusal, check_normalised,
}
use agent_embassy.Verify.Domain.Accepted.{
  IsAcceptable, validate_domain-IsAcceptable, validate_domain-ip,
}

validate_domain-ip_example :
    validate_domain (λ s. s) (λ _. true) "192.0.2.7"
    ≡ validate_domain (λ s. s) (λ _. false) "192.0.2.7"
validate_domain-ip_example = validate_domain-ip (λ s. s) (λ _. true) (λ _. false) "192.0.2.7"

validate_domain-IsAcceptable_example :
    ("example.org" ≡ strip_dots (lower (λ s. s) (strip " Example.ORG.")))
    × IsAcceptable "example.org"
unfolding validate_domain check_normalised is_ascii strip
validate_domain-IsAcceptable_example =
    validate_domain-IsAcceptable (λ s. s) (λ _. false) " Example.ORG." "example.org" refl

-- An IP literal is refused by the pattern of hostnames, not as an IP literal.
refuses_ip :
    validate_domain (λ s. s) (λ _. true) "192.0.2.7"
    ≡ refused (Refusal.invalid_domain "not a well-formed hostname")
unfolding validate_domain check_normalised is_ascii strip
refuses_ip = refl

-- A reserved name is returned when a line break stands before a last dot.
accepts_line_break :
    validate_domain (λ s. s) (λ _. false) "printer.local\n." ≡ valid "printer.local\n"
unfolding validate_domain check_normalised is_ascii strip
accepts_line_break = refl
