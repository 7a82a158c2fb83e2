-- ===== src/Gate/Asked.antt =====
-- Each request starts at most one handshake, and all of them are in order.
use croton_mcp.Base.{
  ℕ, suc, ◌+◌, ◌≤◌, Bool, true, false, some, List, [], ◌∷◌, ◌++◌, ◌==◌, if◌then◌else◌, ◌≡◌, refl,
  ap, arith, of_branches,
}
use croton_mcp.Gate.Ensure.{
  Gate, Place, entering, waiting, holding, negotiating, storing, leaving, admitted, commanded,
  refused, Choice, proceed, expire, succeed, fail, Event, asked, answered, ran, Turn, stay, behind,
  load_again, advance, System, update, take_turn, run,
}
use croton_mcp.Gate.Order.{run_all-IsOrderly}
use croton_mcp.Gate.Phases.{Phase, judge, same_self, update_all}

-- How often a request has started a handshake.
unfoldable pub times_asked : ℕ → List Event → ℕ
times_asked j [] = 0
times_asked j (asked i ∷ log) = let rest = times_asked j log in if i == j then suc rest else rest
times_asked j (answered i ok ∷ log) = times_asked j log
times_asked j (ran i ∷ log) = times_asked j log

-- Whether it may still do so.
abbrev asks_left : Place → ℕ
asks_left entering = 1
asks_left waiting = 1
asks_left holding = 1
asks_left _ = 0

-- A turn costs a request what it may still ask, and the others nothing.
put_turn-asked :
    (s : System) (i : ℕ) (t : Turn)
    → times_asked i (t.events ++ s.log) + asks_left t.place
      ≤ times_asked i s.log + asks_left (s.at i)
    → ((j : ℕ) → (i == j) ≡ false → times_asked j (t.events ++ s.log) ≡ times_asked j s.log)
    → ((j : ℕ) → times_asked j s.log + asks_left (s.at j) ≤ 1)
    → (j : ℕ) → times_asked j (t.events ++ s.log) + asks_left (update s.at i t.place j) ≤ 1
put_turn-asked s i t here others h =
    update_all (λ j p. times_asked j (t.events ++ s.log) + asks_left p ≤ 1) s.at i t.place
      (omega (arith, here, h i)) (λ j n. omega (arith, others j n, h j))

abbrev IsCounted : System → ℕ → Turn → Type 0
IsCounted s i t =
    (times_asked i (t.events ++ s.log) + asks_left t.place
      ≤ times_asked i s.log + asks_left (s.at i))
    × ((j : ℕ) → (i == j) ≡ false → times_asked j (t.events ++ s.log) ≡ times_asked j s.log)

quiet-IsCounted :
    (s : System) (i : ℕ) (g : Gate) {p : Place} (q : Place)
    → s.at i ≡ p
    → asks_left q ≤ asks_left p
    → IsCounted s i (stay g q)
quiet-IsCounted s i g q e l = (omega (arith, l, ap asks_left e), λ j n. refl)

load_again-IsCounted : (s : System) (i : ℕ) → s.at i ≡ holding → IsCounted s i (load_again i s.gate)
unfolding times_asked
load_again-IsCounted s i e =
    of_branches (IsCounted s i) s.gate.is_verified (stay s.gate (leaving true))
      (record { gate = s.gate; place = negotiating; events = asked i ∷ [] })
      (λ v. quiet-IsCounted s i s.gate (leaving true) e (omega arith))
      (λ n. (ground (arith, same_self i, ap asks_left e), λ j m. (rw m refl)))

behind-IsCounted :
    (s : System) (i : ℕ) (g : Gate) (ok : Bool)
    → s.at i ≡ leaving ok
    → IsCounted s i (stay g (behind ok))
behind-IsCounted s i g true e = quiet-IsCounted s i g admitted e (omega arith)
behind-IsCounted s i g false e = quiet-IsCounted s i g refused e (omega arith)

advance-IsCounted :
    (s : System) (i : ℕ) (c : Choice) (p : Place)
    → s.at i ≡ p
    → IsCounted s i (advance c i s.gate p)
unfolding advance times_asked
advance-IsCounted s i c entering e =
    of_branches (λ q. IsCounted s i (stay s.gate q)) s.gate.is_verified admitted waiting
      (λ v. quiet-IsCounted s i s.gate admitted e (omega arith))
      (λ n. quiet-IsCounted s i s.gate waiting e (omega arith))
advance-IsCounted s i proceed waiting e =
    of_branches (IsCounted s i) s.gate.is_taken (stay s.gate waiting)
      (stay (record (s.gate) { is_taken = true }) holding)
      (λ v. quiet-IsCounted s i s.gate waiting e (omega arith))
      (λ n. quiet-IsCounted s i (record (s.gate) { is_taken = true }) holding e (omega arith))
advance-IsCounted s i expire waiting e = quiet-IsCounted s i s.gate refused e (omega arith)
advance-IsCounted s i succeed waiting e = quiet-IsCounted s i s.gate waiting e (omega arith)
advance-IsCounted s i fail waiting e = quiet-IsCounted s i s.gate waiting e (omega arith)
advance-IsCounted s i c holding e = load_again-IsCounted s i e
advance-IsCounted s i proceed negotiating e = quiet-IsCounted s i s.gate negotiating e (omega arith)
advance-IsCounted s i expire negotiating e = quiet-IsCounted s i s.gate negotiating e (omega arith)
advance-IsCounted s i succeed negotiating e = (omega arith, λ j n. refl)
advance-IsCounted s i fail negotiating e = (omega arith, λ j n. refl)
advance-IsCounted s i c storing e =
    quiet-IsCounted s i (record (s.gate) { is_verified = true }) (leaving true) e (omega arith)
advance-IsCounted s i c (leaving ok) e =
    behind-IsCounted s i (record (s.gate) { is_taken = false }) ok e
advance-IsCounted s i c admitted e = (omega arith, λ j n. refl)
advance-IsCounted s i c commanded e = quiet-IsCounted s i s.gate commanded e (omega arith)
advance-IsCounted s i c refused e = quiet-IsCounted s i s.gate refused e (omega arith)

run-asked :
    (turns : List (ℕ × Choice)) (j : ℕ)
    → times_asked j (run turns).log + asks_left ((run turns).at j) ≤ 1
unfolding run take_turn times_asked
run-asked [] j = omega arith
run-asked ((i, c) ∷ earlier) j =
    let before = run earlier in
    let counted = advance-IsCounted before i c (before.at i) refl in
    put_turn-asked before i (advance c i before.gate (before.at i)) counted.0 counted.1
      (run-asked earlier) j

-- In whatever order any number of requests take their turns, and whatever the handshakes and contexts do:
-- at most one handshake is in flight at a time, none starts after one that succeeded, no data command is
-- run before that, and no request starts more than one.
pub run-IsSingleFlight :
    (turns : List (ℕ × Choice))
    → ((p : Phase) × (judge (run turns).log ≡ some p))
      × ((j : ℕ) → times_asked j (run turns).log ≤ 1)
run-IsSingleFlight turns =
    ((_, (run_all-IsOrderly turns).judged), λ j. omega (arith, run-asked turns j))
