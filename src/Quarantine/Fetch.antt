-- ===== src/Quarantine/Fetch.antt =====
-- bridge/structure_quarantine.go: the scanner of a FETCH response, one byte at a time.
use croton_mcp.Base.{
  ℕ, ◌+◌, ◌-◌, Bool, true, false, not, ◌&&◌, ◌||◌, Option, none, some, ltb, leb, ◌==◌,
  if◌then◌else◌, Bytes, codes, length, take, drop,
}
use croton_mcp.Text.{equal, to_upper}
use croton_mcp.Quarantine.Lexical.{atom_char, is_flag, number}
use croton_mcp.Quarantine.State.{
  max_depth, fetch_tokens, work_units, fetch, open_list, atom, quoted, literal_size, end_cr,
  Previous, opened, spaced, token, closed, ItemPhase, item_name, item_named, item_value, item_done,
  Item, uid_item, flags_item, structure_item, Quarantine, Outcome, done, protocol, exceeded, ◌>>=◌,
}

unfoldable pub start_fetch : Quarantine → Quarantine
start_fetch q = record q {
  mode = fetch;
  state = open_list;
  depth = 0;
  tokens = 0;
  phase = item_name;
  flags_list = false;
  uid_count = 0;
  uid = 0;
  flags = 0;
  structure = 0;
}

-- One lexical token against the FETCH and session work budgets.
unfoldable pub count_token : Quarantine → Outcome
count_token q =
    if q.tokens == fetch_tokens || q.work == work_units
    then exceeded q
    else done (record q { tokens = q.tokens + 1; work = q.work + 1 })

unfoldable pub open_paren : Quarantine → Outcome
open_paren q =
    if q.depth == max_depth
    then exceeded q
    else do q' ← count_token q; done (record q' { depth = q'.depth + 1; previous = opened })

-- `switch quarantine.depth` at the end of `closeLocked`.
abbrev after_close : ℕ → Quarantine → Quarantine
after_close depth q =
    if depth == 1
    then record q { phase = item_done; flags_list = false }
    else if depth == 0
    then record q { state = end_cr }
    else q

-- A list is open wherever this is called, so the truncated `-` is exact.
unfoldable pub close_paren : Quarantine → Outcome
close_paren q = do
  q' ← count_token q
  done (after_close (q'.depth - 1) (record q' { depth = q'.depth - 1; previous = closed }))

abbrev item_of : Bytes → Option Item
item_of name =
    let upper_name = to_upper name in
    if equal upper_name (codes "UID")
    then some uid_item
    else if equal upper_name (codes "FLAGS")
    then some flags_item
    else if equal upper_name (codes "BODYSTRUCTURE")
    then some structure_item
    else none

-- The count that `nameLocked` has a pointer to, after the item was recorded.
name_item : Option Item → Quarantine → Outcome
name_item none q = protocol q
name_item (some uid_item) q =
    let q' = record q { item = uid_item } in
    if ltb 0 q.uid_count
    then protocol q'
    else done (record q' { uid_count = 1; phase = item_named })
name_item (some flags_item) q =
    let q' = record q { item = flags_item } in
    if ltb 0 q.flags then protocol q' else done (record q' { flags = 1; phase = item_named })
name_item (some structure_item) q =
    let q' = record q { item = structure_item } in
    if ltb 0 q.structure
    then protocol q'
    else done (record q' { structure = 1; phase = item_named })

uid_value : Option ℕ → Quarantine → Outcome
uid_value none q = protocol q
uid_value (some uid) q = done (record q { uid = uid; phase = item_done })

-- The switch of `endAtomLocked`, on the atom.
unfoldable pub judge_atom : Bytes → Quarantine → Outcome
unfolding name_item uid_value
judge_atom word q =
    if q.depth == 1
    then (elim q.phase [
      | item_name ↦ name_item (item_of word) q
      | _ ↦ uid_value (number word false) q
    ])
    else if q.flags_list && not (is_flag word)
    then protocol q
    else done q

abbrev pub slice : ℕ → ℕ → Bytes → Bytes
slice from to s = take (to - from) (drop from s)

unfoldable pub end_atom : ℕ → Quarantine → Outcome
end_atom end q = judge_atom (slice q.atom_start end q.frame) (record q { previous = token })

abbrev item_space : Quarantine → Outcome
item_space q =
    if q.depth == 1
    then (elim q.phase [
      | item_named ↦ done (record q { phase = item_value; previous = spaced })
      | item_done ↦ done (record q { phase = item_name; previous = spaced })
      | _ ↦ protocol q
    ])
    else done (record q { previous = spaced })

-- `case value == ' '`.
unfoldable pub items_space : Quarantine → Outcome
items_space q = elim q.previous [ token ↦ item_space q | closed ↦ item_space q | _ ↦ protocol q ]

abbrev is_item_value : ItemPhase → Bool
is_item_value item_value = true
is_item_value _ = false

abbrev is_uid_item : Item → Bool
is_uid_item uid_item = true
is_uid_item _ = false

abbrev pub is_flags_item : Item → Bool
is_flags_item flags_item = true
is_flags_item _ = false

-- The last lexical element admits a new element: `previousOpen` or `previousSpace`.
abbrev admits : Previous → Bool
admits opened = true
admits spaced = true
admits _ = false

abbrev is_closed : Previous → Bool
is_closed closed = true
is_closed _ = false

-- `case value == '('`.
unfoldable pub items_open : Quarantine → Outcome
items_open q =
    let nested = is_closed q.previous && leb 2 q.depth && not q.flags_list in
    if not (admits q.previous) && not nested
    then protocol q
    else if q.depth == 1
    then (if not (is_item_value q.phase) || is_uid_item q.item
        then protocol q
        else open_paren (record q { flags_list = is_flags_item q.item }))
    else if q.flags_list
    then protocol q
    else open_paren q

abbrev is_item_done : ItemPhase → Bool
is_item_done item_done = true
is_item_done _ = false

abbrev is_spaced : Previous → Bool
is_spaced spaced = true
is_spaced _ = false

-- `case value == ')'`.
unfoldable pub items_close : Quarantine → Outcome
items_close q =
    if is_spaced q.previous || (q.depth == 1 && not (is_item_done q.phase))
    then protocol q
    else close_paren q

-- The last switch of `itemsByteLocked`, on the first byte of a token.
unfoldable pub begin_token : ℕ → Bool → Quarantine → Outcome
begin_token value is_word q =
    if value == b'"'
    then count_token (record q { state = quoted })
    else if value == b'{'
    then count_token (record q { state = literal_size; declared = 0; digits = 0 })
    else if is_word
    then count_token (record q { state = atom; atom_start = length q.frame - 1 })
    else protocol q

-- The start of a token, behind the switch on spaces and brackets.
unfoldable pub items_token : ℕ → Quarantine → Outcome
items_token value q =
    let is_word = atom_char value || value == b'\\' in
    if not (admits q.previous)
    then protocol q
    else if q.depth == 1 && (not is_word || (is_item_value q.phase && not (is_uid_item q.item)))
    then protocol q
    else if q.flags_list && not is_word
    then protocol q
    else begin_token value is_word q

unfoldable pub items_byte : ℕ → Quarantine → Outcome
items_byte value q =
    if value == b' '
    then items_space q
    else if value == b'('
    then items_open q
    else if value == b')'
    then items_close q
    else items_token value q
