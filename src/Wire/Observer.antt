-- ===== src/Wire/Observer.antt =====
-- bridge/imapclient.go: the observer of a SEARCH response, `observeSearchResponseLocked`.
use croton_mcp.Base.{
  ℕ, zero, suc, ◌+◌, ◌-◌, Bool, true, false, not, ◌&&◌, ◌||◌, none, some, List, [], ◌∷◌, ◌++◌, ltb,
  leb, ◌==◌, if◌then◌else◌, Bytes, codes, length, take, drop,
}
use croton_mcp.Text.{equal_fold, is_empty, contains, cut, cut_last}
use croton_mcp.Wire.ESearch.{Walk, walked, untold, esearch_all}
use croton_mcp.Wire.Grammar.{
  Literal, no_literal, unterminated, literal_of, parse_uint, trailing_literal, trim_last,
}
use croton_mcp.Wire.Lines.{
  LineKind, unclassified, text_line, data_line, search_line, esearch_line, classify_response,
}
use croton_mcp.Wire.Sets.{Interval}
use croton_mcp.Wire.Spaces.{fields}

-- `uidWindow`.
pub record Window : Type 0 where
  pub first : ℕ
  pub last : ℕ

abbrev pub no_window : Window
no_window = record { first = 0; last = 0 }

-- `width`.
abbrev pub width : Window → ℕ
width w = if w.first == 0 || ltb w.last w.first then 0 else w.last - w.first + 1

-- The search fields of `readBudgetConn` but for the buffer of a partial line.
pub record Observed : Type 0 where
  pub search_seen : Bool
  pub esearch_seen : Bool
  pub literal_bytes : ℕ
  pub continues : Bool
  pub pending : Bytes
  pub uids : List ℕ
  pub is_duplicate : Bool
  pub is_incomplete : Bool
  pub window : Window
  pub is_out_of_window : Bool

abbrev pub unobserved : Observed
unobserved = record {
  search_seen = false;
  esearch_seen = false;
  literal_bytes = 0;
  continues = false;
  pending = [];
  uids = [];
  is_duplicate = false;
  is_incomplete = false;
  window = no_window;
  is_out_of_window = false;
}

abbrev pub fail_closed : Observed → Observed
fail_closed o = record o { is_incomplete = true }

-- `searchRangeLocked`.
unfoldable pub search_range : ℕ → ℕ → Observed → Observed
search_range start stop o =
    if start == 0 || stop == 0
    then fail_closed o
    else if width o.window == 0
    then o
    else if ltb start o.window.first || ltb o.window.last stop
    then record o { is_out_of_window = true }
    else o

unfoldable pub search_ranges : List Interval → Observed → Observed
search_ranges [] o = o
search_ranges (i ∷ is) o = search_ranges is (search_range i.start i.stop o)

unfoldable pub mem : ℕ → List ℕ → Bool
mem uid [] = false
mem uid (u ∷ us) = u == uid || mem uid us

abbrev modseq_value : Bytes × Bytes × Bool → Bool
modseq_value (name, value, found) =
    if found && equal_fold name (codes "MODSEQ")
    then (elim (parse_uint 64 value) [ none ↦ false | some n ↦ true ])
    else false

-- `searchModSeqGroup`, of the group behind its opening parenthesis.
unfoldable pub is_modseq_group : Bytes → Bool
unfolding cut_last trim_last parse_uint
is_modseq_group group = elim (cut_last b')' (trim_last b' ' group)) [
  | none ↦ false
  | some inside ↦ modseq_value (cut b' ' inside)
]

abbrev observe_uid : ℕ → Observed → Observed
observe_uid uid o =
    let r = search_range uid uid o in
    record r { is_duplicate = r.is_duplicate || mem uid r.uids; uids = uid ∷ r.uids }

-- The loop over the fields of a SEARCH line; it stops at one that is no number.
unfoldable pub observe_fields : List Bytes → Observed → Observed
unfolding search_range mem parse_uint
observe_fields [] o = o
observe_fields (f ∷ fs) o = elim (parse_uint 32 f) [
  | none ↦ fail_closed o
  | some uid ↦ observe_fields fs (observe_uid uid o)
]

-- The group behind the numbers, if there is one, is a MODSEQ group or marks the line.
abbrev numbers_of : Bytes × Bytes × Bool → Observed → Observed
numbers_of (numbers, group, grouped) o =
    observe_fields (fields numbers)
      (if grouped && not (is_modseq_group group) then fail_closed o else o)

-- `observeSearchUIDsLocked`.
unfoldable pub observe_uids : Bytes → Observed → Observed
unfolding observe_fields is_modseq_group
observe_uids numbers o = numbers_of (cut b'(' numbers) o

-- The end of an ESEARCH line that no literal continues.
abbrev judge_walk : Walk → Observed → Observed
judge_walk untold o = fail_closed o
judge_walk (walked is overlaps complete) o =
    let r = search_ranges is o in
    record r {
      is_duplicate = r.is_duplicate || overlaps;
      is_incomplete = r.is_incomplete || not complete;
    }

abbrev esearch_line_end : Literal → Bytes → Bytes → Observed → Observed
esearch_line_end (literal_of size opening) line rest o = record o {
  esearch_seen = true;
  pending = take opening line ++ codes "\"\"";
}
esearch_line_end _ line rest o = judge_walk (esearch_all rest) (record o { esearch_seen = true })

-- `switch kind`.
unfoldable pub switch_kind : LineKind → Bytes → Literal → Bytes → Observed → Observed
unfolding observe_uids search_ranges esearch_all
switch_kind unclassified rest end line o = fail_closed o
switch_kind search_line rest end line o = observe_uids rest (record o { search_seen = true })
switch_kind esearch_line rest end line o = esearch_line_end end line rest o
switch_kind _ rest end line o = o

-- The literal that ends a line of this kind.
abbrev literal_in : LineKind → Bytes → Literal
literal_in text_line line = no_literal
literal_in _ line = trailing_literal line

abbrev is_unterminated : Literal → Bool
is_unterminated unterminated = true
is_unterminated _ = false

abbrev continuing : Literal → Observed → Observed
continuing (literal_of size opening) o = record o { continues = true; literal_bytes = size }
continuing _ o = record o { continues = false }

abbrev judge_line : LineKind × Bytes → Bytes → Observed → Observed
judge_line (kind, rest) line o =
    let literal = literal_in kind line in
    switch_kind kind rest literal line (
      continuing literal (record o {
        pending = [];
        is_incomplete = o.is_incomplete || contains b'\r' line || is_unterminated literal;
      }))

-- One complete line, without its line feed.
unfoldable pub handle_line : Bytes → Observed → Observed
unfolding switch_kind classify_response trailing_literal
handle_line segment o =
    let line = o.pending ++ trim_last b'\r' segment in
    judge_line
      (if o.continues && is_empty o.pending then (data_line, []) else classify_response line) line o

-- The state of the observer: `searchBuffer`, and the rest.
abbrev pub Watch : Type 0
Watch = Bytes × Observed

abbrev pub at_line : (Bytes → Observed → Watch) → Bytes × Bytes × Bool → Bytes → Observed → Watch
at_line next (line, after, false) buffer o = (buffer, o)
at_line next (line, after, true) buffer o = next after (handle_line line o)

-- One turn of the loop behind the literal.
abbrev pub next_line : (Bytes → Observed → Watch) → Bytes → Observed → Watch
next_line next buffer o = at_line next (cut b'\n' buffer) buffer o

abbrev pub skip_literal : (Bytes → Observed → Watch) → Bytes → Observed → Watch
skip_literal next buffer o =
    if leb (length buffer) o.literal_bytes
    then ([], record o { literal_bytes = o.literal_bytes - length buffer })
    else next_line next (drop o.literal_bytes buffer) (record o { literal_bytes = 0 })

-- The loop. Each turn takes a line from the buffer, so its length and one turn more are enough.
unfoldable pub observe_from : ℕ → Bytes → Observed → Watch
observe_from zero buffer o = (buffer, o)
observe_from (suc fuel) buffer o =
    if ltb 0 o.literal_bytes
    then skip_literal (observe_from fuel) buffer o
    else next_line (observe_from fuel) buffer o

-- `observeSearchResponseLocked`.
unfoldable pub observe : Bytes → Watch → Watch
unfolding observe_from
observe input (buffer, o) = observe_from (suc (length (buffer ++ input))) (buffer ++ input) o
