-- ===== src/Gate/Examples.antt =====
-- Three requests at the gate: the first handshake fails, the second succeeds, the third finds it so.
use croton_mcp.Base.{ℕ, ◌≤◌, true, false, List, [], ◌∷◌, ◌++◌, ◌≡◌, refl, some}
use croton_mcp.Gate.Asked.{times_asked, run-IsSingleFlight}
use croton_mcp.Gate.Ensure.{
  Choice, proceed, succeed, fail, asked, answered, ran, advance, take_turn, run,
}
use croton_mcp.Gate.Phases.{Phase, judge}
use croton_mcp.Gate.Progress.{final_of, run-CanEnd}

-- The last turn in front.
abbrev three_requests : List (ℕ × Choice)
three_requests =
    (2, proceed)
    ∷ (2, proceed)
    ∷ (1, proceed)
    ∷ (1, proceed)
    ∷ (1, proceed)
    ∷ (1, succeed)
    ∷ (1, proceed)
    ∷ (1, proceed)
    ∷ (0, proceed)
    ∷ (0, fail)
    ∷ (1, proceed)
    ∷ (0, proceed)
    ∷ (1, proceed)
    ∷ (0, proceed)
    ∷ (0, proceed)
    ∷ []

sees_one_success :
    (run three_requests).log
    ≡ ran 2 ∷ ran 1 ∷ answered 1 true ∷ asked 1 ∷ answered 0 false ∷ asked 0 ∷ []
unfolding run take_turn advance
sees_one_success = refl

run-IsSingleFlight_example :
    ((p : Phase) × (judge (run three_requests).log ≡ some p))
    × ((j : ℕ) → times_asked j (run three_requests).log ≤ 1)
run-IsSingleFlight_example = run-IsSingleFlight three_requests

run-CanEnd_example :
    (more : List (ℕ × Choice)) × ((run (more ++ three_requests)).at 5
      ≡ final_of ((run three_requests).at 5))
run-CanEnd_example = run-CanEnd 5 three_requests
