-- ===== src/Wire/Grammar.antt =====
-- bridge/imapclient.go: the atoms, numbers, values and literals of one response line, read as the client
-- library reads them.
use croton_mcp.Base.{
  ℕ, suc, ◌+◌, ◌-◌, ◌^◌, Bool, true, false, not, ◌&&◌, ◌||◌, Option, none, some, [], ◌∷◌, ltb, leb,
  ◌==◌, if◌then◌else◌, Bytes, drop,
}
use croton_mcp.Quarantine.Lexical.{decimal, is_digit}
use croton_mcp.Text.{is_empty, cut_last}

-- `strings.TrimSuffix` at a suffix of one byte.
unfoldable pub trim_last : ℕ → Bytes → Bytes
unfolding cut_last
trim_last c s = elim (cut_last c s) [ none ↦ s | some t ↦ t ]

-- `strconv.ParseUint(value, 10, bits)`; `none` is an error.
unfoldable pub parse_uint : ℕ → Bytes → Option ℕ
unfolding decimal
parse_uint bits [] = none
parse_uint bits (c ∷ s) = elim (decimal 0 (c ∷ s)) [
  | none ↦ none
  | some n ↦ if ltb n (2 ^ bits) then some n else none
]

abbrev is_special : ℕ → Bool
is_special c =
    c == b'('
    || c == b')'
    || c == b'{'
    || c == b' '
    || c == b'%'
    || c == b'*'
    || c == b'"'
    || c == b'\\'
    || c == b']'

-- `isIMAPAtomChar`; the byte as a rune is a control below 0x20 and from 0x7f to 0x9f.
unfoldable pub is_imap_atom_char : ℕ → Bool
is_imap_atom_char c = not (is_special c) && not (ltb c 0x20 || (leb 0x7f c && leb c 0x9f))

-- `eSearchAtom`.
unfoldable pub esearch_atom : Bytes → Bytes × Bytes
esearch_atom [] = ([], [])
esearch_atom (c ∷ s) =
    let rest = esearch_atom s in if is_imap_atom_char c then (c ∷ rest.0, rest.1) else ([], c ∷ s)

-- The flags of a scan through quoted strings: whether it is inside one, and behind a backslash.
pub record Quoting : Type 0 where
  pub is_quoted : Bool
  pub is_escaped : Bool

abbrev pub plain : Quoting
plain = record { is_quoted = false; is_escaped = false }

-- The flags behind a byte: `quoted && character == '\\'` skips the next one.
unfoldable pub quote_byte : ℕ → Quoting → Quoting
quote_byte c q =
    if q.is_escaped
    then record q { is_escaped = false }
    else if q.is_quoted && c == b'\\'
    then record q { is_escaped = true }
    else if c == b'"'
    then record q { is_quoted = not q.is_quoted }
    else q

abbrev pub is_text_at : ℕ → ℕ → Quoting → Bool
is_text_at wanted c q = not q.is_quoted && not q.is_escaped && c == wanted

abbrev pub value_depth : ℕ → Quoting → ℕ → ℕ
value_depth c q depth =
    if is_text_at b'(' c q then depth + 1 else if is_text_at b')' c q then depth - 1 else depth

-- Whether a byte ends the value: the quote that closes it, or its last closing parenthesis.
abbrev pub value_ends : ℕ → Quoting → ℕ → Bool
value_ends c q depth =
    (q.is_quoted && not q.is_escaped && c == b'"' && depth == 0)
    || (is_text_at b')' c q && depth == 1)

-- The loop of `eSearchValue`, as the value and what stands behind it.
unfoldable pub value_from : Quoting → ℕ → Bytes → Option (Bytes × Bytes)
unfolding quote_byte
value_from q depth [] = none
value_from q depth (c ∷ s) =
    let rest = value_from (quote_byte c q) (value_depth c q depth) s in
    if value_ends c q depth
    then some (c ∷ [], s)
    else elim rest [ none ↦ none | some (v, after) ↦ some (c ∷ v, after) ]

-- `eSearchValue`.
unfoldable pub esearch_value : Bytes → Bytes × Bytes
unfolding value_from esearch_atom
esearch_value [] = ([], [])
esearch_value (c ∷ s) =
    if not (c == b'"') && not (c == b'(')
    then esearch_atom (c ∷ s)
    else elim (value_from plain 0 (c ∷ s)) [ none ↦ ([], c ∷ s) | some r ↦ r ]

-- `correlatorEnd`, from behind the opening parenthesis: what stands behind the closing one.
unfoldable pub behind_correlator : Quoting → Bytes → Option Bytes
unfolding quote_byte
behind_correlator q [] = none
behind_correlator q (c ∷ s) =
    let rest = behind_correlator (quote_byte c q) s in if is_text_at b')' c q then some s else rest

-- The loop of `trailingIMAPLiteral`: the last opening brace outside quotes, and the flags at the end.
unfoldable pub brace_from : ℕ → Option ℕ → Quoting → Bytes → Option ℕ × Quoting
unfolding quote_byte
brace_from index opening q [] = (opening, q)
brace_from index opening q (c ∷ s) =
    brace_from (suc index) (if is_text_at b'{' c q then some index else opening) (quote_byte c q) s

-- The result of `trailingIMAPLiteral`.
pub data Literal : Type 0 where
  no_literal unterminated : Literal
  literal_of : ℕ → ℕ → Literal

abbrev all_digits : Bytes → Bool
all_digits [] = true
all_digits (c ∷ s) = is_digit c && all_digits s

abbrev pub max_uint64 : ℕ
max_uint64 = 2 ^ 64 - 1

abbrev sized : ℕ → Bytes → Literal
sized opening digits =
    if is_empty digits || not (all_digits digits) then no_literal else elim (parse_uint 64 digits) [
      | none ↦ literal_of max_uint64 opening
      | some size ↦ literal_of size opening
    ]

abbrev literal_at : Option ℕ → Option Bytes → Literal
literal_at (some opening) (some line) = sized opening (trim_last b'+' (drop (suc opening) line))
literal_at _ _ = no_literal

-- `trailingIMAPLiteral`: the size and the index of the opening brace.
unfoldable pub trailing_literal : Bytes → Literal
unfolding brace_from trim_last parse_uint cut_last
trailing_literal line =
    let (opening, q) = brace_from 0 none plain line in
    if q.is_quoted then unterminated else literal_at opening (cut_last b'}' (trim_last b' ' line))
