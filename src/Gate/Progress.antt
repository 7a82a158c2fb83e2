-- ===== src/Gate/Progress.antt =====
-- Whatever has happened, a request can still run its command, unless it has failed: nothing that the
-- others have done blocks it for good.
use croton_mcp.Base.{
  ℕ, Bool, true, false, some, List, [], ◌∷◌, ◌++◌, ◌≡◌, refl, sym, ap, ◌∙◌, of_branches, subst,
  arith, ◌==◌, Bool-cases, Option-cases, append_assoc, inl, inr,
}
use croton_mcp.Gate.Ensure.{
  Gate, Place, entering, waiting, holding, negotiating, storing, leaving, admitted, commanded,
  refused, Choice, proceed, succeed, Turn, stay, advance, System, take_turn, run,
}
use croton_mcp.Gate.Order.{run_all-IsOrderly}
use croton_mcp.Gate.Phases.{
  is_inside, owns, is_owned, is_owned-none, same_self, update-same, update-other,
}

-- Where a request ends that is not cancelled and whose handshake, if it runs one, succeeds: with its
-- command run, unless it has been refused or its handshake has failed already.
abbrev pub final_of : Place → Place
final_of refused = refused
final_of (leaving false) = refused
final_of _ = commanded

-- The turns of one request alone, the first in front.
unfoldable advance_all : ℕ → List Choice → Gate → Place → Gate × Place
advance_all i [] g p = (g, p)
advance_all i (c ∷ cs) g p = advance_all i cs (advance c i g p).gate (advance c i g p).place

-- A request alone comes to its end, and leaves the slot free; its context does not expire.
abbrev Ends : ℕ → Gate → Place → Place → Type 0
Ends i g p final =
    (cs : List Choice) × ((advance_all i cs g p).1 ≡ final)
    × ((advance_all i cs g p).0.is_taken ≡ false)

after_turn :
    (i : ℕ) (c : Choice) (g : Gate) (p : Place) {final : Place}
    → Ends i (advance c i g p).gate (advance c i g p).place final
    → Ends i g p final
unfolding advance_all
after_turn i c g p (cs, e, t) = (c ∷ cs, e, t)

commanded-Ends : (i : ℕ) (g : Gate) → g.is_taken ≡ false → Ends i g commanded commanded
unfolding advance_all
commanded-Ends i g t = ([], refl, t)

refused-Ends : (i : ℕ) (g : Gate) → g.is_taken ≡ false → Ends i g refused refused
unfolding advance_all
refused-Ends i g t = ([], refl, t)

admitted-Ends : (i : ℕ) (g : Gate) → g.is_taken ≡ false → Ends i g admitted commanded
unfolding advance
admitted-Ends i g t = after_turn i proceed g admitted (commanded-Ends i g t)

leaving-Ends : (i : ℕ) (g : Gate) (ok : Bool) → Ends i g (leaving ok) (final_of (leaving ok))
unfolding advance
leaving-Ends i g true =
    after_turn i proceed g (leaving true) (admitted-Ends i (record g { is_taken = false }) refl)
leaving-Ends i g false =
    after_turn i proceed g (leaving false) (refused-Ends i (record g { is_taken = false }) refl)

storing-Ends : (i : ℕ) (g : Gate) → Ends i g storing commanded
unfolding advance
storing-Ends i g =
    after_turn i proceed g storing (leaving-Ends i (record g { is_verified = true }) true)

negotiating-Ends : (i : ℕ) (g : Gate) → Ends i g negotiating commanded
unfolding advance
negotiating-Ends i g = after_turn i succeed g negotiating (storing-Ends i g)

-- The turn's gate and place.
abbrev EndsAfter : ℕ → Turn → Type 0
EndsAfter i t = Ends i t.gate t.place commanded

holding-Ends : (i : ℕ) (g : Gate) → Ends i g holding commanded
unfolding advance
holding-Ends i g = after_turn i proceed g holding (
    of_branches (EndsAfter i) g.is_verified (stay g (leaving true)) _ (λ v. leaving-Ends i g true)
      (λ n. negotiating-Ends i g))

waiting-Ends : (i : ℕ) (g : Gate) → g.is_taken ≡ false → Ends i g waiting commanded
unfolding advance
waiting-Ends i g t = after_turn i proceed g waiting (
    of_branches (EndsAfter i) g.is_taken (stay g waiting)
      (stay (record g { is_taken = true }) holding) (λ h. absurd (cc (h, t)))
      (λ n. holding-Ends i (record g { is_taken = true })))

entering-Ends : (i : ℕ) (g : Gate) → g.is_taken ≡ false → Ends i g entering commanded
unfolding advance
entering-Ends i g t = after_turn i proceed g entering (
    of_branches (λ p. Ends i g p commanded) g.is_verified admitted waiting
      (λ v. admitted-Ends i g t) (λ n. waiting-Ends i g t))

-- Where the slot is free, or the request is inside.
free-Ends : (i : ℕ) (g : Gate) (p : Place) → g.is_taken ≡ is_inside p → Ends i g p (final_of p)
free-Ends i g entering t = entering-Ends i g t
free-Ends i g waiting t = waiting-Ends i g t
free-Ends i g holding t = holding-Ends i g
free-Ends i g negotiating t = negotiating-Ends i g
free-Ends i g storing t = storing-Ends i g
free-Ends i g (leaving ok) t = leaving-Ends i g ok
free-Ends i g admitted t = admitted-Ends i g t
free-Ends i g commanded t = commanded-Ends i g t
free-Ends i g refused t = refused-Ends i g t

-- More turns, the last in front.
unfoldable more_turns : List (ℕ × Choice) → System → System
more_turns [] s = s
more_turns (turn ∷ earlier) s = take_turn (more_turns earlier s) turn

run-append : (more turns : List (ℕ × Choice)) → run (more ++ turns) ≡ more_turns more (run turns)
unfolding run more_turns
run-append [] turns = refl
run-append (turn ∷ more) turns = ap (λ s. take_turn s turn) (run-append more turns)

more_turns-append :
    (more turns : List (ℕ × Choice)) (s : System)
    → more_turns (more ++ turns) s ≡ more_turns more (more_turns turns s)
unfolding more_turns
more_turns-append [] turns s = refl
more_turns-append (turn ∷ more) turns s =
    ap (λ x. take_turn x turn) (more_turns-append more turns s)

-- The turns of one request alone, among all.
abbrev Alone : ℕ → List Choice → System → Type 0
Alone i cs s =
    (more : List (ℕ × Choice)) × ((more_turns more s).gate ≡ (advance_all i cs s.gate (s.at i)).0)
    × ((more_turns more s).at i ≡ (advance_all i cs s.gate (s.at i)).1)
    × ((j : ℕ) → (i == j) ≡ false → (more_turns more s).at j ≡ s.at j)

advance_all-Alone : (i : ℕ) (cs : List Choice) (s : System) → Alone i cs s
unfolding advance_all more_turns take_turn
advance_all-Alone i [] s = ([], refl, refl, λ j n. refl)
advance_all-Alone i (c ∷ cs) s =
    let next = take_turn s (i, c) in
    let rest = advance_all-Alone i cs next in
    let turned = more_turns-append rest.0 ((i, c) ∷ []) s in
    let place = update-same s.at i (advance c i s.gate (s.at i)).place in
    (
      rest.0 ++ (i, c) ∷ [],
      ap (λ x. x.gate) turned ∙ rest.1 ∙ ap (λ p. (advance_all i cs next.gate p).0) place,
      ap (λ x. x.at i) turned ∙ rest.2 ∙ ap (λ p. (advance_all i cs next.gate p).1) place,
      λ j n.
          ap (λ x. x.at j) turned
          ∙ rest.3 j n
          ∙ update-other s.at i (advance c i s.gate (s.at i)).place j n,
    )

-- A request that can go on alone, among all.
ends_alone :
    (i : ℕ) (s : System)
    → s.gate.is_taken ≡ is_inside (s.at i)
    → (more : List (ℕ × Choice)) × ((more_turns more s).at i ≡ final_of (s.at i))
      × ((more_turns more s).gate.is_taken ≡ false)
      × ((j : ℕ) → (i == j) ≡ false → (more_turns more s).at j ≡ s.at j)
ends_alone i s t =
    let ends = free-Ends i s.gate (s.at i) t in
    let alone = advance_all-Alone i ends.0 s in
    (alone.0, alone.2 ∙ ends.1, ap (λ g. g.is_taken) alone.1 ∙ ends.2, alone.3)

abbrev CanEnd : ℕ → List (ℕ × Choice) → Type 0
CanEnd i turns =
    (more : List (ℕ × Choice)) × ((run (more ++ turns)).at i ≡ final_of ((run turns).at i))

-- With the slot free.
ends_free : (i : ℕ) (turns : List (ℕ × Choice)) → (run turns).gate.is_taken ≡ false → CanEnd i turns
ends_free i turns free =
    let o = run_all-IsOrderly turns in
    let none_owns = is_owned-none o.owner (sym o.taken ∙ free) in
    let ends = ends_alone i (run turns) (free ∙ sym (o.inside i ∙ ap (λ x. owns x i) none_owns)) in
    (ends.0, ap (λ s. s.at i) (run-append ends.0 turns) ∙ ends.1)

-- Behind the request that has it.
ends_behind :
    (i h : ℕ) (turns : List (ℕ × Choice))
    → (run_all-IsOrderly turns).owner ≡ some h
    → CanEnd i turns
ends_behind i h turns e =
    let o = run_all-IsOrderly turns in
    let ends =
      ends_alone h (run turns)
        (o.taken ∙ ap is_owned e ∙ sym (o.inside h ∙ ap (λ x. owns x h) e ∙ same_self h)) in
    let later = run-append ends.0 turns in
    let rest = ends_free i (ends.0 ++ turns) (ap (λ s. s.gate.is_taken) later ∙ ends.2) in
    elim (Bool-cases (h == i)) [
      | inl same ↦
          (let k : h ≡ i = ground (arith, same) in
            subst (λ j. CanEnd j turns) k (ends.0, ap (λ s. s.at h) later ∙ ends.1))
      | inr other ↦ (
        rest.0 ++ ends.0,
        ap (λ l. (run l).at i) (append_assoc rest.0 ends.0 turns)
            ∙ rest.1
            ∙ ap (λ s. final_of (s.at i)) later
            ∙ ap final_of (ends.3 i other),
      )
    ]

-- Whatever turns any number of requests have taken, there are more turns by which a given request has run
-- its command, if it is neither refused nor leaves with a failed handshake; if it is or does, it ends
-- refused.
pub run-CanEnd :
    (i : ℕ) (turns : List (ℕ × Choice))
    → (more : List (ℕ × Choice)) × ((run (more ++ turns)).at i ≡ final_of ((run turns).at i))
run-CanEnd i turns =
    let o = run_all-IsOrderly turns in
    elim (Option-cases o.owner) [
      | inl e ↦ ends_free i turns (o.taken ∙ ap is_owned e)
      | inr (h, e) ↦ ends_behind i h turns e
    ]
