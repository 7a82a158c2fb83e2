-- ===== src/Wire/Budget.antt =====
-- bridge/imapclient.go: `readBudgetConn`, the budget of input bytes of one command. `Read` locks twice,
-- before and behind the read of the connection, so it is two operations.
use croton_mcp.Base.{
  ℕ, Bool, true, false, not, ◌&&◌, [], ltb, ◌==◌, ◌*◌, ◌+◌, if◌then◌else◌, Bytes, length, ℤ, pos,
  negsuc, minus,
}
use croton_mcp.Text.{is_empty}
use croton_mcp.Wire.Observer.{Window, unobserved, Watch, observe}

-- The fields of `readBudgetConn`; `watch` holds those of the search.
pub record Budget : Type 0 where
  pub is_active : Bool
  pub idle_limit : ℕ
  pub remaining : ℤ
  pub is_exceeded : Bool
  pub is_searching : Bool
  pub watch : Watch

abbrev pub unwatched : Watch
unwatched = ([], unobserved)

-- `newReadBudgetConn`.
abbrev pub new_budget : ℕ → Budget
new_budget idle_limit = record {
  is_active = true;
  idle_limit = idle_limit;
  remaining = pos idle_limit;
  is_exceeded = false;
  is_searching = false;
  watch = unwatched;
}

-- `begin`.
abbrev pub begin : ℕ → Budget → Budget
begin limit b = record b { is_active = true; remaining = pos limit; is_exceeded = false }

-- `beginSearch`, which locks twice: `begin`, and this.
abbrev pub start_search : Budget → Budget
start_search b = record b { is_searching = true; watch = unwatched }

abbrev pub begin_search : ℕ → Budget → Budget
begin_search limit b = start_search (begin limit b)

-- `checkSearchWindow`.
abbrev pub check_search_window : Window → Budget → Budget
check_search_window w b = record b { watch = (b.watch.0, record (b.watch.1) { window = w }) }

-- `searchObservation`.
pub record Observation : Type 0 where
  pub is_exceeded : Bool
  pub search_seen : Bool
  pub esearch_seen : Bool
  pub is_duplicate : Bool
  pub is_incomplete : Bool
  pub is_out_of_window : Bool

-- `end`.
abbrev pub end_budget : Budget → Budget × Bool
end_budget b = (
  record b { is_active = true; remaining = pos b.idle_limit; is_exceeded = false },
  b.is_exceeded,
)

abbrev pub observation_of : Budget → Observation
observation_of b =
    let o = b.watch.1 in
    record {
      is_exceeded = b.is_exceeded;
      search_seen = o.search_seen;
      esearch_seen = o.esearch_seen;
      is_duplicate = o.is_duplicate;
      is_incomplete = o.is_incomplete;
      is_out_of_window = o.is_out_of_window;
    }

-- `endSearch`.
abbrev pub end_search : Budget → Budget × Observation
end_search b =
    (record ((end_budget b).0) { is_searching = false; watch = unwatched }, observation_of b)

-- What the first half of `Read` comes to: a read of some size, the error of the budget, or the panic
-- of a slice with a negative bound.
pub data Request : Type 0 where
  asks : ℕ → Request
  refuses : Budget → Request
  panics : Request

unfoldable pub request_within : ℤ → ℕ → Budget → Request
request_within (negsuc n) size b = panics
request_within (pos n) size b =
    if n == 0
    then refuses (record b { is_exceeded = true })
    else if ltb n size
    then asks n
    else asks size

-- The first half of `Read`, with a buffer of some size.
unfoldable pub request : ℕ → Budget → Request
unfolding request_within
request size b = if not b.is_active then asks size else request_within b.remaining size b

-- The second half of `Read`, behind a read of the connection that returned these bytes.
unfoldable pub receive : Bytes → Budget → Budget
receive s b =
    let b' = if b.is_active then record b { remaining = minus b.remaining (length s) } else b in
    if b.is_searching && not (is_empty s) then record b' { watch = observe s b'.watch } else b'

abbrev pub max_search_response_bytes : ℕ
max_search_response_bytes = 4096

abbrev pub max_control_response_bytes : ℕ
max_control_response_bytes = 65536

abbrev pub fetch_response_overhead_bytes : ℕ
fetch_response_overhead_bytes = 4096

-- `fetchInputBudget`.
abbrev pub fetch_input_budget : ℕ → ℕ → ℕ
fetch_input_budget literal_limit message_count =
    message_count * (literal_limit + fetch_response_overhead_bytes)
