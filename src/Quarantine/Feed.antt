-- ===== src/Quarantine/Feed.antt =====
-- bridge/structure_quarantine.go: framing of one byte, of a flat line or of a FETCH, its budgets and
-- its verdict.
use croton_mcp.Base.{
  ℕ, ◌+◌, ◌-◌, ◌*◌, ◌^◌, ◌%◌, Bool, true, false, not, ◌&&◌, ◌||◌, [], ◌∷◌, ◌++◌, ltb, ◌==◌,
  if◌then◌else◌, Bytes, length, take, min, max,
}
use croton_mcp.Quarantine.Control.{Prefix, flat, malformed, is_control, fetch_prefix}
use croton_mcp.Quarantine.Fetch.{start_fetch, open_paren, end_atom, items_byte}
use croton_mcp.Quarantine.Lexical.{atom_char, is_digit, max_uint32}
use croton_mcp.Quarantine.State.{
  frame_bytes, fetch_tokens, atom_bytes, control_bytes, max_session_bytes, max_responses,
  work_units, Dispatch, active, delivered, Mode, between, line, fetch, FetchState, open_list, items,
  atom, quoted, escape, literal_size, literal_cr, literal_lf, literal, end_cr, end_lf, token,
  Quarantine, Outcome, done, protocol, exceeded, ◌>>=◌,
}

-- The uint64 arithmetic of a literal's size.
abbrev pub u64 : ℕ → ℕ
u64 n = n % 2 ^ 64

unfoldable pub literal_size_byte : ℕ → Quarantine → Outcome
literal_size_byte value q =
    if value == b'}' && ltb 0 q.digits
    then done (record q { state = literal_cr })
    else if not (is_digit value) || q.digits == 10
    then protocol q
    else let size = u64 (q.declared * 10 + (value - b'0')) in
      let q' = record q { digits = q.digits + 1; declared = size } in
      if ltb max_uint32 size then protocol q' else done q'

abbrev release : Quarantine → Quarantine
release q = record q { pending = q.pending ++ q.frame; mode = between }

abbrev is_active : Dispatch → Bool
is_active active = true
is_active _ = false

-- One completely framed FETCH.
unfoldable pub complete_fetch : Quarantine → Outcome
complete_fetch q =
    if q.structure == 1
    then (if q.uid_count == 0 || not (q.uid == q.selected_uid) || not (is_active q.dispatch)
        then protocol q
        else done (release (record q { dispatch = delivered })))
    else if q.flags == 1
    then done (record q { mode = between })
    else protocol q

abbrev expect : ℕ → ℕ → (Quarantine → Outcome) → Quarantine → Outcome
expect wanted value f q = if value == wanted then f q else protocol q

-- The literal's bytes are over: a token stands behind.
abbrev end_literal : Quarantine → Quarantine
end_literal q = record q { state = items; previous = token }

unfoldable pub atom_byte : ℕ → Quarantine → Outcome
atom_byte value q =
    if atom_char value
    then (if ltb atom_bytes (length q.frame - q.atom_start) then exceeded q else done q)
    else do q' ← end_atom (length q.frame - 1) q; items_byte value (record q' { state = items })

abbrev quoted_byte : ℕ → Quarantine → Outcome
quoted_byte value q =
    if value == b'"'
    then done (end_literal q)
    else if value == b'\\'
    then done (record q { state = escape })
    else if value == b'\r' || value == b'\n' || value == 0
    then protocol q
    else done q

-- `switch quarantine.state`.
unfoldable pub fetch_byte_in : FetchState → ℕ → Quarantine → Outcome
fetch_byte_in open_list value q = expect b'(' value (λ r. open_paren (record r { state = items })) q
fetch_byte_in items value q = items_byte value q
fetch_byte_in atom value q = atom_byte value q
fetch_byte_in quoted value q = quoted_byte value q
fetch_byte_in escape value q =
    if value == b'"' || value == b'\\' then done (record q { state = quoted }) else protocol q
fetch_byte_in literal_size value q = literal_size_byte value q
fetch_byte_in literal_cr value q =
    expect b'\r' value (λ r. done (record r { state = literal_lf })) q
fetch_byte_in literal_lf value q =
    expect b'\n' value
      (λ r. done (if r.declared == 0 then end_literal r else record r { state = literal })) q
fetch_byte_in literal value q =
    let left = u64 (q.declared + 2 ^ 64 - 1) in
    let q' = record q { declared = left } in done (if left == 0 then end_literal q' else q')
fetch_byte_in end_cr value q = expect b'\r' value (λ r. done (record r { state = end_lf })) q
fetch_byte_in end_lf value q = expect b'\n' value complete_fetch q

abbrev fetch_byte : ℕ → Quarantine → Outcome
fetch_byte value q = fetch_byte_in q.state value q

-- The brackets that the least completion of a FETCH still needs.
abbrev pub closing_needed : FetchState → ℕ → ℕ
closing_needed open_list depth = 2
closing_needed _ depth = depth

-- The bytes that it still needs, of the depth, the literal's size and its digits.
abbrev pub bytes_needed : FetchState → ℕ → ℕ → ℕ → ℕ
bytes_needed open_list depth size digits = 4
bytes_needed quoted depth size digits = depth + 2 + 1
bytes_needed escape depth size digits = depth + 2 + 2
bytes_needed literal_size depth size digits =
    depth + 2 + (3 + size) + (if digits == 0 then 1 else 0)
bytes_needed literal_cr depth size digits = depth + 2 + (2 + size)
bytes_needed literal_lf depth size digits = depth + 2 + (1 + size)
bytes_needed literal depth size digits = depth + 2 + size
bytes_needed end_lf depth size digits = 1
bytes_needed _ depth size digits = depth + 2

-- `fetchFeasibleLocked`.
unfoldable pub feasible : Quarantine → Outcome
feasible q =
    let bytes = bytes_needed q.state q.depth q.declared q.digits in
    let closing = closing_needed q.state q.depth in
    if ltb frame_bytes (length q.frame + bytes)
      || ltb max_session_bytes (q.session_bytes + bytes)
      || ltb fetch_tokens (q.tokens + closing)
      || ltb work_units (q.work + closing)
    then exceeded q
    else done q

unfoldable pub complete_line : Quarantine → Outcome
complete_line q =
    if is_control (take (length q.frame - 2) q.frame)
    then done (release (record q { work = q.work + 1 }))
    else protocol q

-- The check at the end of `lineByteLocked`.
abbrev pub line_fits : Quarantine → Outcome
line_fits q =
    let need = if q.line_cr then 1 else 2 in
    if ltb control_bytes (length q.frame + need) || ltb max_session_bytes (q.session_bytes + need)
    then exceeded q
    else done q

abbrev starts_with_star : Bytes → Bool
starts_with_star [] = false
starts_with_star (c ∷ s) = c == b'*'

unfoldable pub third_space : Prefix → Quarantine → Outcome
third_space flat q = line_fits q
third_space malformed q = protocol q
third_space Prefix.fetch q = feasible (start_fetch q)

-- `case value == ' ' && quarantine.frame[0] == '*'`.
unfoldable pub line_space : Quarantine → Outcome
line_space q =
    let q' = record q { line_spaces = q.line_spaces + 1 } in
    if q'.line_spaces == 3 then third_space (fetch_prefix q.frame) q' else line_fits q'

unfoldable pub line_byte : ℕ → Quarantine → Outcome
line_byte value q =
    if q.line_cr
    then (if value == b'\n' then complete_line q else protocol q)
    else if value == b'\r'
    then line_fits (record q { line_cr = true })
    else if value == b'\n'
    then protocol q
    else if value == b' ' && starts_with_star q.frame
    then line_space q
    else line_fits q

-- `growFrameLocked`, on the capacity alone: the copy keeps the bytes.
abbrev pub grown : ℕ → ℕ → ℕ
grown frame_length capacity =
    if ltb frame_length capacity then capacity else min (max (2 * capacity) 256) frame_bytes

-- What `startResponseLocked` sets; the storage of the frame is kept.
abbrev pub start_line : Quarantine → Quarantine
start_line q = record q {
  responses = q.responses + 1;
  mode = line;
  frame = [];
  line_spaces = 0;
  line_cr = false;
}

unfoldable pub start_response : Quarantine → Outcome
start_response q =
    if q.responses == max_responses || q.work == work_units then exceeded q else done (start_line q)

abbrev pub begin_in : Mode → Quarantine → Outcome
begin_in between q = start_response q
begin_in _ q = done q

abbrev pub append_byte : ℕ → Quarantine → Quarantine
append_byte value q = record q {
  session_bytes = q.session_bytes + 1;
  capacity = grown (length q.frame) q.capacity;
  frame = q.frame ++ value ∷ [];
}

-- `if quarantine.mode == quarantineFetch { return fetchFeasibleLocked() }`.
unfoldable pub feasible_in : Mode → Quarantine → Outcome
feasible_in fetch q = feasible q
feasible_in _ q = done q

unfoldable pub frame_byte : Mode → ℕ → Quarantine → Outcome
frame_byte line value q = line_byte value q
frame_byte _ value q = do q' ← fetch_byte value q; feasible_in q'.mode q'

-- `feedLocked`.
unfoldable pub feed : ℕ → Quarantine → Outcome
feed value q =
    if q.session_bytes == max_session_bytes
    then exceeded q
    else do q' ← begin_in q.mode q; frame_byte q'.mode value (append_byte value q')
