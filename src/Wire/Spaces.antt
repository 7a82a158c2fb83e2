-- ===== src/Wire/Spaces.antt =====
-- `strings.Fields` and `strings.TrimSpace`, on the white space of Unicode in UTF-8. Its sequences begin
-- with bytes that stand inside no other character, so they are found byte by byte.
use croton_mcp.Base.{
  ℕ, zero, suc, ◌-◌, Bool, true, not, ◌&&◌, ◌||◌, List, [], ◌∷◌, ◌++◌, leb, ◌==◌, if◌then◌else◌,
  Bytes,
}
use croton_mcp.Text.{is_empty}

abbrev is_space_pair : ℕ → ℕ → Bool
is_space_pair c d = c == 0xc2 && (d == 0x85 || d == 0xa0)

abbrev is_space_triple : ℕ → ℕ → ℕ → Bool
is_space_triple c d e =
    (c == 0xe1 && d == 0x9a && e == 0x80)
    || (c == 0xe2
        && d == 0x80
        && ((leb 0x80 e && leb e 0x8a) || e == 0xa8 || e == 0xa9 || e == 0xaf))
    || (c == 0xe2 && d == 0x81 && e == 0x9f)
    || (c == 0xe3 && d == 0x80 && e == 0x80)

abbrev is_ascii_space : ℕ → Bool
is_ascii_space c = (leb 9 c && leb c 13) || c == b' '

-- How many bytes the space at the front has; 0 for none.
unfoldable pub space_bytes : Bytes → ℕ
space_bytes [] = 0
space_bytes (c ∷ []) = if is_ascii_space c then 1 else 0
space_bytes (c ∷ d ∷ []) = if is_ascii_space c then 1 else if is_space_pair c d then 2 else 0
space_bytes (c ∷ d ∷ e ∷ s) =
    if is_ascii_space c
    then 1
    else if is_space_pair c d
    then 2
    else if is_space_triple c d e
    then 3
    else 0

-- The bytes of the space at the front that are still to be passed over.
abbrev to_skip : ℕ → Bytes → ℕ
to_skip zero s = space_bytes s
to_skip (suc n) s = suc n

unfoldable pub trim_left_from : ℕ → Bytes → Bytes
unfolding space_bytes
trim_left_from skip [] = []
trim_left_from skip (c ∷ s) =
    let n = to_skip skip (c ∷ s) in
    let rest = trim_left_from (n - 1) s in if n == 0 then c ∷ s else rest

unfoldable pub all_space_from : ℕ → Bytes → Bool
unfolding space_bytes
all_space_from skip [] = true
all_space_from skip (c ∷ s) =
    let n = to_skip skip (c ∷ s) in not (n == 0) && all_space_from (n - 1) s

unfoldable pub trim_right : Bytes → Bytes
unfolding all_space_from
trim_right [] = []
trim_right (c ∷ s) = let rest = trim_right s in if all_space_from 0 (c ∷ s) then [] else c ∷ rest

-- `strings.TrimSpace`.
unfoldable pub trim_space : Bytes → Bytes
unfolding trim_left_from trim_right
trim_space s = trim_right (trim_left_from 0 s)

abbrev flush : Bytes → List Bytes → List Bytes
flush word words = if is_empty word then words else word ∷ words

unfoldable pub fields_from : ℕ → Bytes → Bytes → List Bytes
unfolding space_bytes
fields_from skip word [] = flush word []
fields_from skip word (c ∷ s) =
    let n = to_skip skip (c ∷ s) in
    let rest = fields_from (n - 1) (if n == 0 then word ++ c ∷ [] else []) s in
    if n == 0 then rest else flush word rest

-- `strings.Fields`.
unfoldable pub fields : Bytes → List Bytes
unfolding fields_from
fields s = fields_from 0 [] s
