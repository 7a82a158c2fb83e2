-- ===== src/Quarantine/Lexical.antt =====
-- bridge/structure_quarantine.go: the lexical rules, and the flat control responses.
use croton_mcp.Base.{
  ℕ, ◌+◌, ◌-◌, ◌*◌, Bool, true, false, not, ◌&&◌, ◌||◌, Option, none, some, List, [], ◌∷◌, ltb, leb,
  ◌==◌, if◌then◌else◌, Bytes, codes,
}
use croton_mcp.Text.{is_empty, contains}

-- An IMAP ATOM-CHAR.
unfoldable pub atom_char : ℕ → Bool
unfolding contains
atom_char value =
    if leb value b' ' || leb 0x7f value then false else not (contains value (codes "(){\"%*\\]"))

unfoldable pub all_bytes : (ℕ → Bool) → Bytes → Bool
all_bytes p [] = true
all_bytes p (c ∷ s) = p c && all_bytes p s

unfoldable pub all_parts : (Bytes → Bool) → List Bytes → Bool
all_parts p [] = true
all_parts p (w ∷ ws) = p w && all_parts p ws

unfoldable pub is_atom : Bytes → Bool
unfolding all_bytes atom_char
is_atom [] = false
is_atom (c ∷ s) = all_bytes atom_char (c ∷ s)

-- `strings.TrimPrefix(value, "\\")`.
abbrev trim_backslash : Bytes → Bytes
trim_backslash [] = []
trim_backslash (c ∷ s) = if c == b'\\' then s else c ∷ s

-- A keyword or a system flag of a FETCH or FLAGS list.
unfoldable pub is_flag : Bytes → Bool
unfolding is_atom
is_flag value = is_atom (trim_backslash value)

abbrev pub is_digit : ℕ → Bool
is_digit c = leb b'0' c && leb c b'9'

-- The digits of `strconv.ParseUint(value, 10, 32)`, before its range check.
unfoldable pub decimal : ℕ → Bytes → Option ℕ
decimal n [] = some n
decimal n (c ∷ s) = let rest = decimal (n * 10 + (c - b'0')) s in if is_digit c then rest else none

abbrev pub max_uint32 : ℕ
max_uint32 = 4294967295

abbrev in_uint32 : Option ℕ → Option ℕ
in_uint32 none = none
in_uint32 (some n) = if leb n max_uint32 then some n else none

-- A canonical uint32; zero only when zero is allowed.
unfoldable pub number : Bytes → Bool → Option ℕ
unfolding decimal
number [] zero_allowed = none
number (c ∷ s) zero_allowed =
    if c == b'0' && (not (is_empty s) || not zero_allowed)
    then none
    else in_uint32 (decimal 0 (c ∷ s))

-- Opaque text; a leading response code must close on the same line.
unfoldable pub is_text : Bytes → Bool
unfolding contains
is_text [] = true
is_text (c ∷ s) = if c == b'[' then contains b']' (c ∷ s) else true

-- Printable ASCII with complete quoted strings and no brace; the flags are `quoted`, `escaped`.
unfoldable pub flat_from : Bool → Bool → Bytes → Bool
flat_from quoted escaped [] = not quoted && not escaped
flat_from quoted escaped (c ∷ s) =
    let unescaped = flat_from quoted false s in
    let opened = flat_from quoted true s in
    let toggled = flat_from (not quoted) escaped s in
    let plain = flat_from quoted escaped s in
    if ltb c b' ' || leb 0x7f c
    then false
    else if escaped
    then (if not (c == b'"') && not (c == b'\\') then false else unescaped)
    else if quoted && c == b'\\'
    then opened
    else if c == b'"'
    then toggled
    else if c == b'{' || c == b'}'
    then false
    else plain

unfoldable pub is_flat : Bytes → Bool
unfolding flat_from
is_flat = flat_from false false
