-- ===== src/Drive/Path.antt =====
-- internal/drivemcp/path.go: the canonical remote paths.
use croton_mcp.Base.{
  ℕ, Bool, true, false, not, ◌||◌, List, [], ◌∷◌, ◌++◌, ◌≡◌, ltb, ◌==◌, if◌then◌else◌, Bytes, codes,
  length,
}
use croton_mcp.Text.{equal, is_empty, contains, split, valid_utf8}

abbrev pub max_drive_path_bytes : ℕ
max_drive_path_bytes = 1024

-- Whether a character is refused: in valid UTF-8 these are bytes of their own.
unfoldable pub has_control : Bytes → Bool
has_control [] = false
has_control (c ∷ s) = ltb c 0x20 || c == 0x7f || has_control s

unfoldable pub ends_with : ℕ → Bytes → Bool
ends_with c [] = false
ends_with c (x ∷ []) = x == c
ends_with c (x ∷ y ∷ s) = ends_with c (y ∷ s)

abbrev pub bad_segment : Bytes → Bool
bad_segment s = is_empty s || equal s (codes ".") || equal s (codes "..")

unfoldable pub any_bad : List Bytes → Bool
any_bad [] = false
any_bad (s ∷ ss) = bad_segment s || any_bad ss

unfoldable pub segments_valid : Bytes → Bool
segments_valid [] = false
segments_valid (c ∷ rest) =
    if not (c == b'/')
    then false
    else if is_empty rest
    then true
    else if ends_with b'/' (c ∷ rest)
    then false
    else not (any_bad (split b'/' rest))

-- `validDrivePath`.
unfoldable pub valid_drive_path : Bytes → Bool
valid_drive_path path =
    if is_empty path || ltb max_drive_path_bytes (length path) || not (valid_utf8 path)
    then false
    else if has_control path
    then false
    else segments_valid path

-- The path of the segments under the root.
unfoldable pub absolute : List Bytes → Bytes
absolute [] = []
absolute (s ∷ ss) = b'/' ∷ s ++ absolute ss

-- Segments that are each a name: not empty, without a separator, and neither "." nor "..".
abbrev pub AreNames : List Bytes → Type 0
AreNames [] = Unit
AreNames (s ∷ ss) = (bad_segment s ≡ false) × (contains b'/' s ≡ false) × AreNames ss
