-- ===== src/Quarantine/Control.antt =====
-- bridge/structure_quarantine.go: the flat control responses, and the prefix of a FETCH.
use croton_mcp.Base.{
  ℕ, ◌-◌, Bool, true, false, not, ◌&&◌, ◌||◌, Option, none, some, List, [], ◌∷◌, ltb, if◌then◌else◌,
  Bytes, codes, length, take, drop,
}
use croton_mcp.Quarantine.Lexical.{all_parts, is_atom, is_flag, is_digit, number, is_text, is_flat}
use croton_mcp.Text.{equal, contains, cut, split, cut_prefix, cut_last, to_upper, equal_fold}

-- `case` of several keywords in `switch strings.ToUpper(name)`.
unfoldable pub names : Bytes → List Bytes → Bool
unfolding equal to_upper
names name [] = false
names name (k ∷ ks) = equal (to_upper name) k || names name ks

starts_with_digit : Bytes → Bool
starts_with_digit [] = false
starts_with_digit (c ∷ s) = is_digit c

-- A continuation request, behind its "+".
continuation : Bytes → Bool
unfolding is_text
continuation [] = true
continuation (c ∷ s) = elim (cut_prefix (codes " ") (c ∷ s)) [
  | none ↦ false
  | some text ↦ is_text text
]

-- `!hasText || quarantineText(text)`, of a result of `strings.Cut`.
abbrev optional_text : Bytes × Bytes × Bool → Bool
optional_text words = not words.2 || is_text words.1

tagged : Bytes → Bool
unfolding is_atom is_text contains cut names
tagged line =
    let words = cut b' ' line in
    let status = cut b' ' words.1 in
    if not (is_atom words.0) || contains b'+' words.0
    then false
    else if names status.0 (codes "OK" ∷ codes "NO" ∷ codes "BAD" ∷ [])
    then optional_text status
    else false

-- "* n EXISTS", RECENT or EXPUNGE, of the number and the words behind it.
numbered : Option ℕ → Bool → Bytes → Bool
unfolding cut names
numbered none has_arguments arguments = false
numbered (some n) has_arguments arguments =
    let kind = cut b' ' arguments in
    if not has_arguments || kind.2
    then false
    else if names kind.0 (codes "EXISTS" ∷ codes "RECENT" ∷ [])
    then true
    else if names kind.0 (codes "EXPUNGE" ∷ [])
    then ltb 0 n
    else false

has_brace : Bytes → Bool
unfolding contains
has_brace s = contains b'{' s || contains b'}' s

flag_words : Option Bytes → Bool
unfolding has_brace all_parts is_flag split
flag_words none = false
flag_words (some []) = true
flag_words (some (c ∷ s)) =
    if has_brace (c ∷ s) then false else all_parts is_flag (split b' ' (c ∷ s))

-- "(" flags ")".
flag_list : Bytes → Bool
unfolding flag_words cut_prefix cut_last
flag_list arguments = elim (cut_last b')' arguments) [
  | none ↦ false
  | some list ↦ flag_words (cut_prefix (codes "(") list)
]

named : Bytes × Bytes × Bool → Bool
unfolding has_brace flag_list all_parts is_atom is_flat is_text split names
named words =
    if names words.0 (codes "OK" ∷ codes "NO" ∷ codes "BAD" ∷ codes "BYE" ∷ codes "PREAUTH" ∷ [])
    then optional_text words
    else if names words.0 (codes "CAPABILITY" ∷ [])
    then words.2 && not (has_brace words.1) && all_parts is_atom (split b' ' words.1)
    else if names words.0 (codes "FLAGS" ∷ [])
    then words.2 && flag_list words.1
    else if names words.0 (codes "SEARCH" ∷ codes "ESEARCH" ∷ [])
    then not words.2 || is_flat words.1
    else false

untagged : Bytes → Bool
unfolding cut numbered named number starts_with_digit
untagged rest =
    let words = cut b' ' rest in
    if starts_with_digit words.0
    then numbered (number words.0 true) words.2 words.1
    else named words

unprefixed : Bytes → Bool
unfolding tagged untagged cut_prefix
unprefixed line = elim (cut_prefix (codes "* ") line) [
  | none ↦ tagged line
  | some rest ↦ untagged rest
]

-- Whether a line, without CRLF, is one admitted flat control response.
unfoldable pub is_control : Bytes → Bool
unfolding continuation unprefixed cut_prefix
is_control line = elim (cut_prefix (codes "+") line) [
  | none ↦ unprefixed line
  | some rest ↦ continuation rest
]

-- What the prefix of an untagged line, up to its third space, starts.
pub data Prefix : Type 0 where
  flat fetch malformed : Prefix

fetch_words : Bytes × Bytes × Bool → Prefix
unfolding equal_fold number starts_with_digit
fetch_words words =
    if not (starts_with_digit words.0) || not (equal_fold words.1 (codes "FETCH"))
    then flat
    else (elim (number words.0 false) [ none ↦ malformed | some n ↦ fetch ])

-- `fetchPrefix`; `malformed` is its protocol error.
unfoldable pub fetch_prefix : Bytes → Prefix
unfolding fetch_words cut
fetch_prefix prefix = fetch_words (cut b' ' (take (length prefix - 1 - 2) (drop 2 prefix)))
