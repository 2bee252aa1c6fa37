-- ===== src/Python/Text/Strip.antt =====
-- `strip` is idempotent.
use Prim.Native.Char.{code}
use agent_embassy.Prelude.{
  String, ◌≡◌, refl, ap, ◌∙◌, Bool, true, false, inl, inr, ◌&&◌, Bool-cases, if◌then◌else◌,
}
use agent_embassy.Python.Text.{is_space, is_empty, lstrip, rstrip, strip}

rstrip-rstrip : (s : String) → rstrip (rstrip s) ≡ rstrip s
unfolding rstrip
rstrip-rstrip String.[] = refl
rstrip-rstrip (String.◌∷◌ c s) = elim (Bool-cases (is_empty (rstrip s) && is_space (code c))) [
  | inl gone ↦ rw gone
  | inr kept ↦ rw (kept, rstrip) (rw (rstrip-rstrip s, kept))
]

solid_front :
    (b space : Bool) (s : String) → space ≡ false → (if b && space then String.[] else s) ≡ s
solid_front true space s h = rw h
solid_front false space s h = refl

lstrip-strip : (s : String) → lstrip (rstrip (lstrip s)) ≡ rstrip (lstrip s)
unfolding lstrip rstrip
lstrip-strip String.[] = refl
lstrip-strip (String.◌∷◌ c s) = elim (Bool-cases (is_space (code c))) [
  | inl space ↦ rw space (lstrip-strip s)
  | inr solid ↦
      let kept : rstrip (String.◌∷◌ c s) ≡ String.◌∷◌ c (rstrip s) =
        solid_front (is_empty (rstrip s)) (is_space (code c)) (String.◌∷◌ c (rstrip s)) solid in
      rw (solid, kept) (rw solid)
]

-- White space that was stripped once is not there to be stripped again.
pub strip-strip : (s : String) → strip (strip s) ≡ strip s
unfolding strip
strip-strip s = ap rstrip (lstrip-strip s) ∙ rstrip-rstrip (lstrip s)
