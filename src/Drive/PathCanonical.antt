-- ===== src/Drive/PathCanonical.antt =====
-- The one form of an accepted Drive path.
use croton_mcp.Base.{
  ℕ, true, false, List, [], ◌∷◌, ◌≡◌, refl, arith, ◌==◌, ◌⊎◌, inl, inr, ◌≤◌, of_branches, Bytes,
  codes, length,
}
use croton_mcp.Text.{contains, split, valid_utf8}
use croton_mcp.Drive.Path.{
  valid_drive_path, has_control, any_bad, segments_valid, absolute, AreNames,
}

abbrev AreApart : List Bytes → Type 0
AreApart [] = Unit
AreApart (s ∷ ss) = (contains b'/' s ≡ false) × AreApart ss

-- A character before the first segment.
abbrev onto : ℕ → List Bytes → List Bytes
onto c [] = (c ∷ []) ∷ []
onto c (w ∷ ws) = (c ∷ w) ∷ ws

is_eq : (c d : ℕ) → c == d ≡ true → c ≡ d
is_eq c d e = ground (arith, e)

absolute-onto :
    (c : ℕ) (ws : List Bytes) (s : Bytes)
    → absolute ws ≡ b'/' ∷ s
    → absolute (onto c ws) ≡ b'/' ∷ c ∷ s
unfolding absolute
absolute-onto c [] s e = cc e
absolute-onto c (w ∷ ws) s e = cc e

absolute-split : (s : Bytes) → absolute (split b'/' s) ≡ b'/' ∷ s
unfolding absolute split
absolute-split [] = refl
absolute-split (c ∷ s) =
    of_branches (λ (ws : List Bytes). absolute ws ≡ b'/' ∷ c ∷ s) (c == b'/') ([] ∷ split b'/' s)
      (onto c (split b'/' s)) (λ e. rw (absolute-split s, is_eq c b'/' e))
      (λ e. absolute-onto c (split b'/' s) s (absolute-split s))

AreApart-onto : (c : ℕ) (ws : List Bytes) → c == b'/' ≡ false → AreApart ws → AreApart (onto c ws)
unfolding contains
AreApart-onto c [] e h = (ground (arith, e), tt)
AreApart-onto c (w ∷ ws) e h = (ground (arith, e, h.0), h.1)

AreApart-split : (s : Bytes) → AreApart (split b'/' s)
unfolding split contains
AreApart-split [] = (refl, tt)
AreApart-split (c ∷ s) =
    of_branches (λ (ws : List Bytes). AreApart ws) (c == b'/') ([] ∷ split b'/' s)
      (onto c (split b'/' s)) (λ e. (refl, AreApart-split s))
      (λ e. AreApart-onto c (split b'/' s) e (AreApart-split s))

AreNames-any_bad : (ss : List Bytes) → any_bad ss ≡ false → AreApart ss → AreNames ss
unfolding any_bad
AreNames-any_bad [] e h = tt
AreNames-any_bad (s ∷ ss) e h =
    (ground (arith, e), h.0, AreNames-any_bad ss (ground (arith, e)) h.1)

-- What an accepted path is under the checks of its length and characters.
abbrev pub IsCanonical : Bytes → Type 0
IsCanonical path = (path ≡ codes "/") ⊎ ((ss : List Bytes) × (path ≡ absolute ss) × AreNames ss)

segments_valid-IsCanonical : (path : Bytes) → segments_valid path ≡ true → IsCanonical path
unfolding segments_valid
segments_valid-IsCanonical [] e = absurd (ground (arith, e))
segments_valid-IsCanonical (c ∷ []) e = inl (rw (is_eq c b'/' (ground (arith, e))))
segments_valid-IsCanonical (c ∷ d ∷ s) e =
    let slash = is_eq c b'/' (ground (arith, e)) in
    let names =
      AreNames-any_bad (split b'/' (d ∷ s)) (ground (arith, e)) (AreApart-split (d ∷ s)) in
    inr (split b'/' (d ∷ s), rw (slash, absolute-split (d ∷ s)), names)

-- An accepted path is the root, or a slash before each of its segments and nothing else, where no
-- segment is empty, "." or "..", or has a slash in it; it is valid UTF-8 of at most 1024 bytes
-- without control characters.
pub valid_drive_path-IsCanonical :
    (path : Bytes)
    → valid_drive_path path ≡ true
    → IsCanonical path
      × (length path ≤ 1024)
      × (valid_utf8 path ≡ true)
      × (has_control path ≡ false)
unfolding valid_drive_path
valid_drive_path-IsCanonical path e = (
  segments_valid-IsCanonical path (ground (arith, e)),
  ground (arith, e),
  ground (arith, e),
  ground (arith, e),
)
