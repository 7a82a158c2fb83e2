-- ===== src/Search/Select.antt =====
-- bridge/search.go: `selectHighestUIDs`.
use croton_mcp.Base.{
  ℕ, Bool, false, ◌||◌, Option, none, some, List, [], ◌∷◌, ltb, leb, ◌==◌, if◌then◌else◌, length,
  take,
}
use croton_mcp.Codes.{Code, imap_protocol, bounds_exceeded}
use croton_mcp.Triage.Result.{Result, done, failed}
use croton_mcp.Wire.Observer.{Window, width}

-- `sort.Slice`, the greatest first.
unfoldable pub insert_uid : ℕ → List ℕ → List ℕ
insert_uid u [] = u ∷ []
insert_uid u (v ∷ vs) = let rest = insert_uid u vs in if leb v u then u ∷ v ∷ vs else v ∷ rest

unfoldable pub sort_uids : List ℕ → List ℕ
sort_uids [] = []
sort_uids (u ∷ us) = insert_uid u (sort_uids us)

abbrev pub is_previous : Option ℕ → ℕ → Bool
is_previous none uid = false
is_previous (some v) uid = v == uid

-- The loop over the sorted UIDs, with the one in front: the code that refuses the window, if any.
unfoldable pub judge_uids : Window → Option ℕ → List ℕ → Option Code
judge_uids w previous [] = none
judge_uids w previous (uid ∷ uids) =
    let rest = judge_uids w (some uid) uids in
    if uid == 0
    then some imap_protocol
    else if ltb uid w.first || ltb w.last uid
    then some bounds_exceeded
    else if is_previous previous uid
    then some imap_protocol
    else rest

abbrev pub within_budget : Option Code → ℕ → List ℕ → Result (List ℕ)
within_budget (some code) budget sorted = failed code
within_budget none budget sorted =
    done (if ltb budget (length sorted) then take budget sorted else sorted)

-- `selectHighestUIDs`; the budget is not negative where it is called.
unfoldable pub select_highest_uids : List ℕ → Window → ℕ → Result (List ℕ)
unfolding sort_uids judge_uids
select_highest_uids uids w budget =
    if ltb (width w) (length uids)
    then failed bounds_exceeded
    else within_budget (judge_uids w none (sort_uids uids)) budget (sort_uids uids)
