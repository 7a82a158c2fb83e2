-- ===== src/Quarantine/Effects.antt =====
-- What one byte may do to the released bytes, the dispatch and the frame.
use croton_mcp.Base.{
  ℕ, ◌-◌, true, none, some, ◌++◌, ◌+◌, ◌==◌, ◌||◌, ◌⊎◌, inl, inr, Bool-cases, if◌then◌else◌, ◌≡◌,
  refl, ◌≢◌, arith, length, take,
}
use croton_mcp.Codes.{Code, bounds_exceeded}
use croton_mcp.Quarantine.Control.{Prefix, is_control, fetch_prefix}
use croton_mcp.Quarantine.Feed.{
  line_fits, third_space, line_space, line_byte, complete_line, complete_fetch, feasible,
  feasible_in, frame_byte, fetch_byte_in, start_line, begin_in, start_response, append_byte, feed,
}
use croton_mcp.Quarantine.Fetch.{start_fetch}
use croton_mcp.Quarantine.FetchBytes.{fetch_byte_in-Scans}
use croton_mcp.Quarantine.Scanner.{IsScanner}
use croton_mcp.Quarantine.State.{
  active, delivered, max_session_bytes, max_responses, work_units, Mode, between, line, fetch,
  FetchState, open_list, end_lf, Quarantine, Outcome, ◌>>=◌,
}

-- The reader's view of a state: what it released, and what decides whether it will release more.
pub record Same (q r : Quarantine) : Type 0 where
  pub pending : r.pending ≡ q.pending
  pub dispatch : r.dispatch ≡ q.dispatch
  pub selected_uid : r.selected_uid ≡ q.selected_uid
  pub terminal : r.terminal ≡ q.terminal
  pub frame : r.frame ≡ q.frame

-- A completed frame was released as a control, released as the structure, or consumed.
pub data Verdict : Type 0 where
  control structure consumed : Verdict

-- What a verdict does to the state, from `q`, whose frame is complete, to `r`.
abbrev pub Judged : Verdict → Quarantine → Quarantine → Type 0
Judged control q r =
    (r.pending ≡ q.pending ++ q.frame)
    × (r.dispatch ≡ q.dispatch)
    × (q.mode ≡ line)
    × (q.line_cr ≡ true)
    × (is_control (take (length q.frame - 2) q.frame) ≡ true)
Judged structure q r =
    (r.pending ≡ q.pending ++ q.frame)
    × (q.dispatch ≡ active)
    × (r.dispatch ≡ delivered)
    × (q.mode ≡ fetch)
    × (r.uid ≡ r.selected_uid)
Judged consumed q r = (r.pending ≡ q.pending) × (r.dispatch ≡ q.dispatch) × (q.mode ≡ fetch)

pub record Completes (v : Verdict) (q r : Quarantine) : Type 0 where
  pub judged : Judged v q r
  pub at_boundary : r.mode ≡ between
  pub selected_uid : r.selected_uid ≡ q.selected_uid
  pub terminal : r.terminal ≡ q.terminal
  pub frame : r.frame ≡ q.frame

-- The verdict on the frame that a state completes.
abbrev pub verdict : Quarantine → Verdict
verdict q = elim q.mode [ line ↦ control | _ ↦ if q.structure == 1 then structure else consumed ]

-- The outcome of one byte on the state `q` that holds it.
pub record Effect (q : Quarantine) (m : Outcome) : Type 0 where
  pub refused : (code : Code) → m.1 ≡ some code → Same q m.0
  pub goes_on : m.1 ≡ none → m.0.mode ≢ between → Same q m.0
  pub completes : m.1 ≡ none → m.0.mode ≡ between → Completes (verdict q) q m.0
  pub from_line : m.0.mode ≡ line → q.mode ≡ line

feasible-Effect : (q r : Quarantine) → r.mode ≡ fetch → Same q r → Effect q (feasible r)
unfolding feasible
feasible-Effect q r m s = ground arith

line_fits-Effect :
    (q r : Quarantine) → q.mode ≡ line → r.mode ≡ line → Same q r → Effect q (line_fits r)
line_fits-Effect q r m' m s = ground arith

third_space-Effect :
    (p : Prefix) (q r : Quarantine)
    → q.mode ≡ line
    → r.mode ≡ line
    → Same q r
    → Effect q (third_space p r)
unfolding third_space start_fetch
third_space-Effect Prefix.flat q r m' m s = line_fits-Effect q r m' m s
third_space-Effect Prefix.malformed q r m' m s = ground arith
third_space-Effect Prefix.fetch q r m' m s = feasible-Effect q (start_fetch r) refl (ground arith)

line_byte-Effect : (v : ℕ) (q : Quarantine) → q.mode ≡ line → Effect q (line_byte v q)
unfolding line_byte line_space complete_line
line_byte-Effect v q m = ground (
  arith,
  line_fits-Effect q q m m,
  line_fits-Effect q (record q { line_cr = true }),
  line_fits-Effect q (record q { line_spaces = q.line_spaces + 1 }),
  third_space-Effect (fetch_prefix q.frame) q (record q { line_spaces = q.line_spaces + 1 }),
)

complete_fetch-Effect :
    (q : Quarantine) → q.mode ≡ fetch → Effect q (complete_fetch q >>= λ r. feasible_in r.mode r)
unfolding complete_fetch feasible_in
complete_fetch-Effect q m = ground arith

scan-Effect :
    (s : FetchState) (v : ℕ) (q : Quarantine)
    → s ≢ end_lf
    → q.mode ≡ fetch
    → IsScanner q
    → Effect q (fetch_byte_in s v q >>= λ r. feasible_in r.mode r)
unfolding feasible_in
scan-Effect s v q ne m h =
    ground (arith, fetch_byte_in-Scans s v q ne h, feasible-Effect q (fetch_byte_in s v q).0)

fetch-Effect :
    (s : FetchState) (v : ℕ) (q : Quarantine)
    → q.mode ≡ fetch
    → IsScanner q
    → Effect q (fetch_byte_in s v q >>= λ r. feasible_in r.mode r)
fetch-Effect end_lf v q m h = unfold fetch_byte_in in ground (arith, complete_fetch-Effect q)
fetch-Effect open_list v q m h = scan-Effect open_list v q (λ e. cc) m h
fetch-Effect s v q m h = scan-Effect s v q (λ e. cc) m h

frame_byte-Effect :
    (mode : Mode) (v : ℕ) (q : Quarantine)
    → mode ≢ between
    → q.mode ≡ mode
    → IsScanner q
    → Effect q (frame_byte mode v q)
unfolding frame_byte
frame_byte-Effect line v q ne m h = line_byte-Effect v q m
frame_byte-Effect fetch v q ne m h = fetch-Effect q.state v q m h
frame_byte-Effect between v q ne m h = absurd (ne refl)

-- The state in which a byte is framed: a response is begun, and the byte appended.
abbrev pub entered_in : Mode → ℕ → Quarantine → Quarantine
entered_in between v q = append_byte v (start_line q)
entered_in _ v q = append_byte v q

abbrev pub entered : ℕ → Quarantine → Quarantine
entered v q = entered_in q.mode v q

-- One byte on `q`: it is refused unread, or framed in the state that holds it.
abbrev pub Enters : ℕ → Quarantine → Mode → Outcome → Type 0
Enters v q mode m =
    ((code : Code) × (m ≡ (q, some code)))
    ⊎ ((entered_in mode v q).mode ≢ between)
      × (m ≡ frame_byte (entered_in mode v q).mode v (entered_in mode v q))

begun :
    (mode : Mode) (v : ℕ) (q : Quarantine)
    → q.mode ≡ mode
    → Enters v q mode (begin_in mode q >>= λ r. frame_byte r.mode v (append_byte v r))
unfolding start_response
begun line v q m = inr ((λ e. cc), refl)
begun fetch v q m = inr ((λ e. cc), refl)
begun between v q m = elim (Bool-cases (q.responses == max_responses || q.work == work_units)) [
  | inl full ↦ rw full (inl (bounds_exceeded, refl))
  | inr room ↦ rw room (inr ((λ e. cc), refl))
]

pub feed-Enters : (v : ℕ) (q : Quarantine) → Enters v q q.mode (feed v q)
unfolding feed
feed-Enters v q = elim (Bool-cases (q.session_bytes == max_session_bytes)) [
  | inl full ↦ rw full (inl (bounds_exceeded, refl))
  | inr room ↦ rw room (begun q.mode v q refl)
]

entered-IsScanner :
    (mode : Mode) (v : ℕ) (q : Quarantine) → IsScanner q → IsScanner (entered_in mode v q)
entered-IsScanner between v q h = omega arith
entered-IsScanner line v q h = omega arith
entered-IsScanner fetch v q h = omega arith

-- What framing does to the state that holds the byte.
pub entered-Effect :
    (v : ℕ) (q : Quarantine)
    → IsScanner q
    → (entered v q).mode ≢ between
    → Effect (entered v q) (frame_byte (entered v q).mode v (entered v q))
entered-Effect v q h ne =
    frame_byte-Effect (entered v q).mode v (entered v q) ne refl (entered-IsScanner q.mode v q h)
