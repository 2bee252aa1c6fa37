-- ===== src/Verify/Requests/Bursts.antt =====
-- What the rate limit bounds: the requests of a burst, which lie within one window.
use agent_embassy.Prelude.{
  ℕ, ◌+◌, ◌-◌, ◌≤◌, ◌<◌, String, ◌≡◌, refl, ap, ◌∙◌, List, [], ◌∷◌, arith, ltb, leb, le→leb,
  if◌then◌else◌, str_eq_refl, select, select-append, select_absorb, length, length-append,
  length-select,
}
use agent_embassy.Prelude.Dict.{get-put}
use agent_embassy.Verify.Store.{Store}
use agent_embassy.Verify.Requests.{recent_hits, old_hits, hit_at}

-- The answers to requests at the given clock readings, under one key.
pub allowed_count : String → ℕ → ℕ → List ℕ → Store → ℕ
allowed_count key most window [] s = 0
allowed_count key most window (now ∷ times) s =
    let (s', allowed) = hit_at now key most window s in
    (if allowed then 1 else 0) + allowed_count key most window times s'

-- Clock readings in one window that begins at `base`.
abbrev pub InBurst : ℕ → ℕ → List ℕ → Type 0
InBurst base window [] = Unit
InBurst base window (t ∷ times) = (base ≤ t) × (t < base + window) × InBurst base window times

-- The hits of the burst that are stored already.
abbrev burst : ℕ → String → Store → List ℕ
burst base key s = select (λ t. leb base t) (old_hits key s)

burst-recent :
    (base now window : ℕ) (hits : List ℕ)
    → base ≤ now
    → now < base + window
    → length (select (λ t. leb base t) (recent_hits now window hits))
      ≡ length (select (λ t. leb base t) hits) + 1
burst-recent base now window hits lo hi =
    ap length (select-append (λ t. leb base t) (select (λ t. ltb now (t + window)) hits) (now ∷ []))
    ∙ rw (
      le→leb base now lo,
      select_absorb (λ t. leb base t) (λ t. ltb now (t + window)) (λ t k. ground arith),
      length-append,
    )

old_hits-hit_at :
    (now : ℕ) (key : String) (most window : ℕ) (s : Store)
    → old_hits key (hit_at now key most window s).0 ≡ recent_hits now window (old_hits key s)
unfolding hit_at
old_hits-hit_at now key most window s = rw (get-put s.rate_limit_hits key key, str_eq_refl key)

burst-hit_at :
    (base now : ℕ) (key : String) (most window : ℕ) (s : Store)
    → base ≤ now
    → now < base + window
    → length (burst base key (hit_at now key most window s).0) ≡ length (burst base key s) + 1
burst-hit_at base now key most window s lo hi =
    ap (λ l. length (select (λ t. leb base t) l)) (old_hits-hit_at now key most window s)
    ∙ burst-recent base now window (old_hits key s) lo hi

burst-le :
    (base now : ℕ) (key : String) (most window : ℕ) (s : Store)
    → length (burst base key (hit_at now key most window s).0)
      ≤ length (recent_hits now window (old_hits key s))
burst-le base now key most window s =
    rw (old_hits-hit_at now key most window s) (length-select (λ t. leb base t) _)

hit_at-answer :
    (now : ℕ) (key : String) (most window : ℕ) (s : Store)
    → (hit_at now key most window s).1 ≡ leb (length (recent_hits now window (old_hits key s))) most
unfolding hit_at
hit_at-answer now key most window s = refl

-- Of requests under one key, whose readings lie within one window, at most `most` are allowed,
-- whatever was stored before, so many fewer as hits of the burst are there already.
pub allowed_count-le :
    (base : ℕ) (key : String) (most window : ℕ) (times : List ℕ) (s : Store)
    → InBurst base window times
    → allowed_count key most window times s ≤ most - length (burst base key s)
unfolding allowed_count
allowed_count-le base key most window [] s h = omega arith
allowed_count-le base key most window (now ∷ times) s (lo, hi, more) =
    let s' = (hit_at now key most window s).0 in
    let hits = recent_hits now window (old_hits key s) in
    ground (
      arith,
      hit_at-answer now key most window s,
      allowed_count-le base key most window times s' more,
      burst-hit_at base now key most window s lo hi,
      burst-le base now key most window s,
    )
