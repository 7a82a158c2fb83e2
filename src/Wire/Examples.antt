-- ===== src/Wire/Examples.antt =====
-- Runs of the observer, the budget and the guard of the connection.
use croton_mcp.Base.{
  ℕ, ◌≤◌, true, false, ◌⊎◌, ◌≡◌, ◌≢◌, refl, none, some, List, [], ◌∷◌, ◌++◌, Bytes, codes, pos,
}
use croton_mcp.Quarantine.Lexical.{decimal}
use croton_mcp.Text.{format_uint, format_from, contains, cut, split, cut_last, cut_prefix}
use croton_mcp.Wire.Budget.{
  new_budget, begin, begin_search, asks, panics, request, request_within, max_search_response_bytes,
  max_control_response_bytes, unwatched,
}
use croton_mcp.Wire.BudgetSteps.{
  State, searches, watches, Reached, start, then_step, Reached-request,
}
use croton_mcp.Wire.Chunks.{observe_bytes, IsPartial, observe-append}
use croton_mcp.Wire.ESearch.{untold, esearch_all}
use croton_mcp.Wire.ESearchEnds.{esearch_all-told}
use croton_mcp.Wire.Grammar.{parse_uint}
use croton_mcp.Wire.Guard.{Guard, arm, write, native_move_line}
use croton_mcp.Wire.GuardSafe.{IsOneMove, write_all, arm-IsOneMove}
use croton_mcp.Wire.Observer.{observe}
use croton_mcp.Wire.Sets.{
  Interval, parse_items, parse_set, intervals_overlap, insert_interval, sort_intervals,
  neighbours_overlap,
}
use croton_mcp.Wire.SetsOverlap.{times_named, parse_set-times_named}

abbrev two_intervals : List Interval
two_intervals = record { start = 1; stop = 3 } ∷ record { start = 3; stop = 5 } ∷ []

parses_two : parse_set (codes "3:1,3:5") ≡ some two_intervals
unfolding parse_set parse_items split cut parse_uint decimal
parses_two = refl

parse_set-times_named_example :
    ((intervals_overlap two_intervals ≡ true) × ((n : ℕ) × (2 ≤ times_named n two_intervals)))
    ⊎ ((intervals_overlap two_intervals ≡ false) × ((n : ℕ) → times_named n two_intervals ≤ 1))
parse_set-times_named_example = parse_set-times_named (codes "3:1,3:5") two_intervals parses_two

overlaps : intervals_overlap two_intervals ≡ true
unfolding intervals_overlap sort_intervals insert_interval neighbours_overlap
overlaps = refl

esearch_all-told_example : esearch_all (codes "(TAG \"A1\") UID ALL 3:5,4") ≢ untold
esearch_all-told_example = esearch_all-told (codes "(TAG \"A1\") UID ALL 3:5,4")

unwatched-IsPartial : IsPartial unwatched
unfolding contains
unwatched-IsPartial = (refl, λ _. refl)

abbrev front : Bytes
front = codes "* SEARCH 3 4"

abbrev back : Bytes
back = codes " 5\r\n"

observe-append_example :
    (observe (front ++ back) unwatched ≡ observe back (observe front unwatched))
    × (observe (front ++ back) unwatched ≡ observe_bytes (front ++ back) unwatched)
    × IsPartial (observe front unwatched)
observe-append_example = observe-append front back unwatched unwatched-IsPartial

abbrev searching : State
searching = (begin_search max_search_response_bytes (new_budget max_control_response_bytes), none)

searching-Reached : Reached searching
searching-Reached =
    let idle = new_budget max_control_response_bytes in
    let begun = begin max_search_response_bytes idle in
    then_step (begun, none) searching
      (then_step (idle, none) (begun, none) start (searches idle none tt)) (watches begun none)

asks_a_buffer : request 4096 searching.0 ≡ asks 4096
unfolding request request_within
asks_a_buffer = refl

Reached-request_example :
    (request 4096 searching.0 ≢ panics)
    × ((n : ℕ)
        → request 4096 searching.0 ≡ asks n
        → (left : ℕ) × (searching.0.remaining ≡ pos left) × (n ≤ left))
Reached-request_example = Reached-request searching 4096 searching-Reached

abbrev idle : Guard
idle = record { is_armed = false; is_used = false; is_tripped = false; prefix = [] }

abbrev two_lines : List Bytes
two_lines = codes "A1 UID MOVE 7 Archive\r\n" ∷ codes "A2 NOOP\r\n" ∷ []

forwards_one : (write_all two_lines (arm 7 idle)).1 ≡ codes "A1 UID MOVE 7 Archive\r\n" ∷ []
unfolding write_all arm format_uint format_from write native_move_line contains cut cut_last
    cut_prefix
forwards_one = refl

arm-IsOneMove_example :
    IsOneMove (codes "UID MOVE " ++ format_uint 7 ++ codes " ") (write_all two_lines (arm 7 idle)).1
arm-IsOneMove_example = arm-IsOneMove 7 idle two_lines
