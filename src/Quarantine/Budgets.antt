-- ===== src/Quarantine/Budgets.antt =====
-- The budgets of the reader, through every byte that it is fed.
use croton_mcp.Base.{
  ℕ, ◌+◌, ◌≤◌, ◌<◌, Bool, true, none, [], ◌∷◌, ◌≡◌, refl, ◌≢◌, arith, length, length-append,
  if◌then◌else◌,
}
use croton_mcp.Quarantine.Control.{Prefix, fetch_prefix}
use croton_mcp.Quarantine.Feed.{
  line_fits, third_space, line_space, line_byte, complete_line, complete_fetch, feasible,
  feasible_in, frame_byte, fetch_byte_in, start_line, begin_in, start_response, append_byte, feed,
  closing_needed, bytes_needed,
}
use croton_mcp.Quarantine.Fetch.{start_fetch}
use croton_mcp.Quarantine.FetchBytes.{
  fetch_byte_in-Scans, fetch_byte_in-IsShaped, fetch_byte_in-IsFit,
}
use croton_mcp.Quarantine.Scanner.{IsScanner, Scans, Shape, IsShaped, IsFit}
use croton_mcp.Quarantine.State.{
  frame_bytes, fetch_tokens, control_bytes, max_session_bytes, max_responses, work_units, Mode,
  between, line, fetch, FetchState, end_lf, Quarantine, Outcome, ◌>>=◌, open_list,
}

-- Every budget of the reader, and the storage of its frame.
pub record Budgets (q : Quarantine) : Type 0 where
  pub session_le : q.session_bytes ≤ max_session_bytes
  pub responses_le : q.responses ≤ max_responses
  pub frame_le : length q.frame ≤ q.capacity
  pub capacity_le : q.capacity ≤ frame_bytes
  pub scanner : IsScanner q

abbrev pub line_need : Bool → ℕ
line_need line_cr = if line_cr then 1 else 2

-- The room that a response in progress still has, between two bytes.
abbrev pub Room : Mode → Quarantine → Type 0
Room between q = Unit
Room line q =
    (length q.frame + line_need q.line_cr ≤ control_bytes)
    × (q.session_bytes + line_need q.line_cr ≤ max_session_bytes)
    × (q.work < work_units)
Room fetch q =
    IsShaped q
    × IsFit q
    × (length q.frame + bytes_needed q.state q.depth q.declared q.digits ≤ frame_bytes)
    × (q.session_bytes + bytes_needed q.state q.depth q.declared q.digits ≤ max_session_bytes)
    × (q.tokens + closing_needed q.state q.depth ≤ fetch_tokens)
    × (q.work + closing_needed q.state q.depth ≤ work_units)

-- What holds of an outcome: the budgets always, and the room where there is no error.
pub record Within (m : Outcome) : Type 0 where
  pub budgets : Budgets m.0
  pub room : m.1 ≡ none → Room m.0.mode m.0

bytes_needed_pos : (s : FetchState) (depth size digits : ℕ) → 1 ≤ bytes_needed s depth size digits
bytes_needed_pos _ depth size digits = ground arith

feasible-Within :
    (q : Quarantine) → q.mode ≡ fetch → IsShaped q → IsFit q → Budgets q → Within (feasible q)
unfolding feasible
feasible-Within q m s f b = ground arith

line_fits-Within :
    (q : Quarantine) → q.mode ≡ line → q.work < work_units → Budgets q → Within (line_fits q)
line_fits-Within q m w b = ground arith

third_space-Within :
    (p : Prefix) (q : Quarantine)
    → q.mode ≡ line
    → q.work < work_units
    → Budgets q
    → Within (third_space p q)
unfolding third_space start_fetch
third_space-Within Prefix.flat q m w b = line_fits-Within q m w b
third_space-Within Prefix.malformed q m w b = ground arith
third_space-Within Prefix.fetch q m w b =
    feasible-Within (start_fetch q) refl refl tt (ground arith)

line_byte-Within :
    (v : ℕ) (q : Quarantine)
    → q.mode ≡ line
    → q.work < work_units
    → Budgets q
    → Within (line_byte v q)
unfolding line_byte line_space complete_line
line_byte-Within v q m w b = ground (
  arith,
  line_fits-Within q m w b,
  line_fits-Within (record q { line_cr = true }),
  line_fits-Within (record q { line_spaces = q.line_spaces + 1 }),
  third_space-Within (fetch_prefix q.frame) (record q { line_spaces = q.line_spaces + 1 }),
)

complete_fetch-Within :
    (q : Quarantine)
    → q.mode ≡ fetch
    → Budgets q
    → Within (complete_fetch q >>= λ r. feasible_in r.mode r)
unfolding complete_fetch feasible_in
complete_fetch-Within q m b = ground arith

-- The budgets follow a scan of the same frame.
Scans-Budgets : {q r : Quarantine} → Budgets q → Scans q r → Budgets r
Scans-Budgets b s = ground arith

scan-Within :
    (s : FetchState) (v : ℕ) (q : Quarantine)
    → s ≢ end_lf
    → q.mode ≡ fetch
    → q.state ≡ s
    → Shape s q.depth q.declared
    → Budgets q
    → Within (fetch_byte_in s v q >>= λ r. feasible_in r.mode r)
unfolding feasible_in
scan-Within s v q ne m at h b =
    let m' = fetch_byte_in s v q in
    let scans = fetch_byte_in-Scans s v q ne b.scanner in
    ground (
      arith,
      scans,
      Scans-Budgets b scans,
      fetch_byte_in-IsShaped s v q at ne h,
      fetch_byte_in-IsFit s v q at ne h,
      feasible-Within m'.0,
    )

fetch-Within :
    (s : FetchState) (v : ℕ) (q : Quarantine)
    → q.mode ≡ fetch
    → q.state ≡ s
    → Shape s q.depth q.declared
    → Budgets q
    → Within (fetch_byte_in s v q >>= λ r. feasible_in r.mode r)
fetch-Within end_lf v q m at h b = unfold fetch_byte_in in ground (arith, complete_fetch-Within q)
fetch-Within open_list v q m at h b = scan-Within open_list v q (λ e. cc) m at h b
fetch-Within s v q m at h b = scan-Within s v q (λ e. cc) m at h b

frame_byte-Within :
    (mode : Mode) (v : ℕ) (q : Quarantine)
    → q.mode ≡ mode
    → mode ≢ between
    → (mode ≡ line → q.work < work_units)
    → (mode ≡ fetch → IsShaped q)
    → Budgets q
    → Within (frame_byte mode v q)
unfolding frame_byte
frame_byte-Within line v q m ne w h b = line_byte-Within v q m (w refl) b
frame_byte-Within fetch v q m ne w h b = fetch-Within q.state v q m refl (h refl) b
frame_byte-Within between v q m ne w h b = absurd (ne refl)

-- The frame has the capacity for one more byte.
append_byte-Budgets :
    (v : ℕ) (q : Quarantine)
    → q.session_bytes < max_session_bytes
    → length q.frame < frame_bytes
    → Budgets q
    → Budgets (append_byte v q)
append_byte-Budgets v q s f b = ground (arith, length-append q.frame (v ∷ []))

started :
    (v : ℕ) (q : Quarantine)
    → q.session_bytes < max_session_bytes
    → q.work < work_units
    → q.responses < max_responses
    → Budgets q
    → Within (frame_byte line v (append_byte v (start_line q)))
started v q s w r b =
    frame_byte-Within line v (append_byte v (start_line q)) refl (λ e. cc) (λ _. w) (λ e. cc)
      (append_byte-Budgets v (start_line q) s (omega arith) (ground arith))

feed_in :
    (mode : Mode) (v : ℕ) (q : Quarantine)
    → q.mode ≡ mode
    → q.session_bytes < max_session_bytes
    → Budgets q
    → Room mode q
    → Within (begin_in mode q >>= λ r. frame_byte r.mode v (append_byte v r))
feed_in between v q m s b r = unfold start_response in ground (arith, started v q s)
feed_in line v q m s b r =
    ground (arith, append_byte-Budgets v q, frame_byte-Within line v (append_byte v q) m)
feed_in fetch v q m s b r = ground (
  arith,
  append_byte-Budgets v q,
  bytes_needed_pos q.state q.depth q.declared q.digits,
  frame_byte-Within fetch v (append_byte v q) m,
)

-- One byte, accepted or not, keeps the budgets of the session, the frame, the tokens and the depth; an
-- accepted one leaves room for the response in progress to be completed within them, a control line
-- within its own limit, and an atom in progress within the limit of an atom.
pub feed-Within : (v : ℕ) (q : Quarantine) → Budgets q → Room q.mode q → Within (feed v q)
unfolding feed
feed-Within v q b r = ground (arith, feed_in q.mode v q refl)
