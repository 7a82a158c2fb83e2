-- ===== src/Search/Ranges.antt =====
-- bridge/imapclient.go: `boundedSearchUIDs`, the UIDs of a decoded SEARCH answer.
use croton_mcp.Base.{
  ℕ, zero, suc, ◌+◌, ◌-◌, ◌%◌, ◌^◌, ◌||◌, Option, none, some, List, [], ◌∷◌, ◌++◌, ltb, ◌==◌,
  if◌then◌else◌, length,
}
use croton_mcp.Codes.{bounds_exceeded, imap_protocol}
use croton_mcp.Triage.Result.{Result, done, failed}
use croton_mcp.Triage.Source.{mem_uid}
use croton_mcp.Wire.Observer.{Window}

-- An item of a UID set; both ends are 32 bits wide.
pub record Range : Type 0 where
  pub start : ℕ
  pub stop : ℕ

-- `uint64(item.Stop) - uint64(item.Start) + 1`.
abbrev pub count_of : Range → ℕ
count_of item = (item.stop + (2 ^ 64 - item.start) + 1) % 2 ^ 64

-- The inner loop, from a UID on, with the number of UIDs still behind it; UIDs wrap around. Every UID
-- seen is a result.
unfoldable pub add_uids : ℕ → ℕ → List ℕ → Result (List ℕ)
add_uids zero uid results =
    if mem_uid uid results then failed imap_protocol else done (results ++ uid ∷ [])
add_uids (suc n) uid results =
    let rest = add_uids n ((uid + 1) % 2 ^ 32) (results ++ uid ∷ []) in
    if mem_uid uid results then failed imap_protocol else rest

-- One turn of the outer loop.
unfoldable pub add_range : Window → ℕ → List ℕ → Range → Result (List ℕ)
add_range w limit results item =
    if item.start == 0 || item.stop == 0
    then failed imap_protocol
    else if ltb item.start w.first || ltb w.last item.stop
    then failed bounds_exceeded
    else if ltb (limit - length results) (count_of item)
    then failed bounds_exceeded
    else add_uids ((item.stop + (2 ^ 32 - item.start)) % 2 ^ 32) item.start results

unfoldable pub add_ranges : Window → ℕ → List Range → Result (List ℕ) → Result (List ℕ)
add_ranges w limit items (failed code) = failed code
add_ranges w limit [] (done results) = done results
add_ranges w limit (item ∷ items) (done results) =
    add_ranges w limit items (add_range w limit results item)

-- `boundedSearchUIDs`; `none` is a number set that is no UID set.
unfoldable pub bounded_search_uids : Option (List Range) → Window → ℕ → Result (List ℕ)
bounded_search_uids none w limit = failed imap_protocol
bounded_search_uids (some items) w limit = add_ranges w limit items (done [])
