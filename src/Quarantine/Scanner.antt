-- ===== src/Quarantine/Scanner.antt =====
-- What the scanner of a FETCH keeps: the rest of the reader's state, its own budgets, and the shape
-- that each of its states gives to the depth and the literal.
use croton_mcp.Base.{Bool, ◌||◌, ◌==◌, ℕ, ◌-◌, ◌≤◌, none, ◌≡◌, arith, length, Bytes}
use croton_mcp.Quarantine.Fetch.{
  is_flags_item, count_token, open_paren, close_paren, judge_atom, items_byte, items_space,
  items_open, items_close, items_token, begin_token,
}
use croton_mcp.Quarantine.Lexical.{atom_char, max_uint32}
use croton_mcp.Quarantine.State.{
  max_depth, atom_bytes, fetch_tokens, work_units, FetchState, open_list, items, atom, quoted,
  literal_size, literal_cr, literal_lf, literal, end_cr, end_lf, Quarantine,
}

-- The budgets that the scanner counts against.
pub record IsScanner (q : Quarantine) : Type 0 where
  pub tokens_le : q.tokens ≤ fetch_tokens
  pub work_le : q.work ≤ work_units
  pub depth_le : q.depth ≤ max_depth

-- `r` comes from `q` by the scanner alone.
pub record Scans (q r : Quarantine) : Type 0 where
  pub same_uid : r.selected_uid ≡ q.selected_uid
  pub same_dispatch : r.dispatch ≡ q.dispatch
  pub same_pending : r.pending ≡ q.pending
  pub same_terminal : r.terminal ≡ q.terminal
  pub same_session : r.session_bytes ≡ q.session_bytes
  pub same_responses : r.responses ≡ q.responses
  pub same_mode : r.mode ≡ q.mode
  pub same_frame : r.frame ≡ q.frame
  pub same_capacity : r.capacity ≡ q.capacity
  pub scanner : IsScanner r

pub count_token-Scans : (q : Quarantine) → IsScanner q → Scans q (count_token q).0
unfolding count_token
count_token-Scans q h = ground arith

pub open_paren-Scans : (q : Quarantine) → IsScanner q → Scans q (open_paren q).0
unfolding open_paren count_token
open_paren-Scans q h = ground arith

pub close_paren-Scans : (q : Quarantine) → IsScanner q → Scans q (close_paren q).0
unfolding close_paren count_token
close_paren-Scans q h = ground arith

pub judge_atom-Scans : (word : Bytes) (q : Quarantine) → IsScanner q → Scans q (judge_atom word q).0
unfolding judge_atom
judge_atom-Scans word q h = ground arith

items_space-Scans : (q : Quarantine) → IsScanner q → Scans q (items_space q).0
unfolding items_space
items_space-Scans q h = ground arith

items_open-Scans : (q : Quarantine) → IsScanner q → Scans q (items_open q).0
unfolding items_open
items_open-Scans q h =
    ground
      (arith, open_paren-Scans q, open_paren-Scans (record q { flags_list = is_flags_item q.item }))

items_close-Scans : (q : Quarantine) → IsScanner q → Scans q (items_close q).0
unfolding items_close
items_close-Scans q h = ground (arith, close_paren-Scans q h)

-- A record that differs from `q` in its scanner alone, read one token on.
counted-Scans : (q r : Quarantine) → Scans q r → Scans q (count_token r).0
counted-Scans q r s = let t = count_token-Scans r s.scanner in ground (arith, s, t)

begin_token-Scans :
    (v : ℕ) (b : Bool) (q : Quarantine) → IsScanner q → Scans q (begin_token v b q).0
unfolding begin_token
begin_token-Scans v b q h = ground (
  arith,
  h,
  counted-Scans q (record q { state = atom; atom_start = length q.frame - 1 }),
  counted-Scans q (record q { state = literal_size; declared = 0; digits = 0 }),
  counted-Scans q (record q { state = quoted }),
)

items_token-Scans : (v : ℕ) (q : Quarantine) → IsScanner q → Scans q (items_token v q).0
unfolding items_token
items_token-Scans v q h =
    let begun = begin_token-Scans v (atom_char v || v == b'\\') q h in ground (arith, h, begun)

pub items_byte-Scans : (v : ℕ) (q : Quarantine) → IsScanner q → Scans q (items_byte v q).0
unfolding items_byte
items_byte-Scans v q h = ground (
  arith,
  items_space-Scans q h,
  items_open-Scans q h,
  items_close-Scans q h,
  items_token-Scans v q h,
)

-- The depth and the size of the literal, as each state has them.
abbrev pub Shape : FetchState → ℕ → ℕ → Type 0
Shape open_list depth size = depth ≡ 0
Shape end_cr depth size = depth ≡ 0
Shape end_lf depth size = depth ≡ 0
Shape literal_size depth size = (1 ≤ depth) × (size ≤ max_uint32)
Shape literal_cr depth size = (1 ≤ depth) × (size ≤ max_uint32)
Shape literal_lf depth size = (1 ≤ depth) × (size ≤ max_uint32)
Shape literal depth size = (1 ≤ depth) × (1 ≤ size) × (size ≤ max_uint32)
Shape _ depth size = 1 ≤ depth

-- The bytes of an atom in progress, from where it starts to the end of the frame.
abbrev pub Fit : FetchState → ℕ → ℕ → Type 0
Fit atom size start = size - start ≤ atom_bytes
Fit _ size start = Unit

abbrev pub IsFit : Quarantine → Type 0
IsFit q = Fit q.state (length q.frame) q.atom_start

abbrev pub IsShaped : Quarantine → Type 0
IsShaped q = Shape q.state q.depth q.declared

pub count_token-IsShaped :
    (q : Quarantine) → IsShaped q → (count_token q).1 ≡ none → IsShaped (count_token q).0
unfolding count_token
count_token-IsShaped q h e = ground arith

pub judge_atom-depth : (word : Bytes) (q : Quarantine) → ((judge_atom word q).0.depth ≡ q.depth)
unfolding judge_atom
judge_atom-depth word q = ground arith

module _ (q : Quarantine) (in_items : q.state ≡ items) (h : IsShaped q) where
  items_space-IsFit : IsFit (items_space q).0
  unfolding items_space
  items_space-IsFit = ground arith

  items_open-IsFit : IsFit (items_open q).0
  unfolding items_open open_paren count_token
  items_open-IsFit = ground arith

  items_close-IsFit : IsFit (items_close q).0
  unfolding items_close close_paren count_token
  items_close-IsFit = ground arith

  items_token-IsFit : (v : ℕ) → IsFit (items_token v q).0
  unfolding items_token begin_token count_token
  items_token-IsFit v = ground arith

  pub items_byte-IsFit : (v : ℕ) → IsFit (items_byte v q).0
  unfolding items_byte
  items_byte-IsFit v =
      ground (arith, items_space-IsFit, items_open-IsFit, items_close-IsFit, items_token-IsFit v)

  items_space-IsShaped : (items_space q).1 ≡ none → IsShaped (items_space q).0
  unfolding items_space
  items_space-IsShaped e = ground arith

  items_open-IsShaped : (items_open q).1 ≡ none → IsShaped (items_open q).0
  unfolding items_open open_paren count_token
  items_open-IsShaped e = ground arith

  items_close-IsShaped : (items_close q).1 ≡ none → IsShaped (items_close q).0
  unfolding items_close close_paren count_token
  items_close-IsShaped e = ground arith

  items_token-IsShaped : (v : ℕ) → (items_token v q).1 ≡ none → IsShaped (items_token v q).0
  unfolding items_token begin_token count_token
  items_token-IsShaped v e = ground arith

  pub items_byte-IsShaped : (v : ℕ) → (items_byte v q).1 ≡ none → IsShaped (items_byte v q).0
  unfolding items_byte
  items_byte-IsShaped v e = ground (
    arith,
    items_space-IsShaped,
    items_open-IsShaped,
    items_close-IsShaped,
    items_token-IsShaped v,
  )
