-- ===== src/Search/Highest.antt =====
-- The UIDs that a page takes of a window are its highest, in descending order.
use croton_mcp.Base.{
  ℕ, suc, ◌+◌, ◌≤◌, ◌<◌, min, false, Option, none, some, List, [], ◌∷◌, ◌++◌, ltb, leb, ◌==◌,
  if◌then◌else◌, length, length-take, take, drop, take-append-drop, append-nil, Bool-cases, inl,
  inr, ◌≡◌, refl, sym, ap, subst, ◌∙◌, arith, of_both, of_branches,
}
use croton_mcp.Codes.{Code, bounds_exceeded}
use croton_mcp.Search.Select.{
  insert_uid, sort_uids, is_previous, judge_uids, within_budget, select_highest_uids,
}
use croton_mcp.Triage.Result.{done, failed, done-injective}
use croton_mcp.Wire.Observer.{Window, width}

-- How often a UID stands in a list.
unfoldable pub times : ℕ → List ℕ → ℕ
times u [] = 0
times u (v ∷ vs) = (if v == u then 1 else 0) + times u vs

-- Falling strictly, below a bound, and within a window.
abbrev pub AreFalling : ℕ → List ℕ → Type 0
AreFalling bound [] = Unit
AreFalling bound (u ∷ us) = (u < bound) × AreFalling u us

abbrev pub AreIn : Window → List ℕ → Type 0
AreIn w [] = Unit
AreIn w (u ∷ us) = (1 ≤ u) × (w.first ≤ u) × (u ≤ w.last) × AreIn w us

-- Falling, but perhaps not strictly.
abbrev pub AreSorted : List ℕ → Type 0
AreSorted [] = Unit
AreSorted (u ∷ []) = Unit
AreSorted (u ∷ v ∷ vs) = (v ≤ u) × AreSorted (v ∷ vs)

times-insert_uid : (u v : ℕ) (vs : List ℕ) → times u (insert_uid v vs) ≡ times u (v ∷ vs)
unfolding times insert_uid
times-insert_uid u v [] = refl
times-insert_uid u v (w ∷ ws) =
    of_branches (λ (l : List ℕ). times u l ≡ times u (v ∷ w ∷ ws)) (leb w v) (v ∷ w ∷ ws)
      (w ∷ insert_uid v ws) (λ e. refl) (λ e. omega (arith, times-insert_uid u v ws))

pub times-sort_uids : (u : ℕ) (us : List ℕ) → times u (sort_uids us) ≡ times u us
unfolding times sort_uids
times-sort_uids u [] = refl
times-sort_uids u (v ∷ vs) =
    times-insert_uid u v (sort_uids vs)
    ∙ ap (λ k. (if v == u then 1 else 0) + k) (times-sort_uids u vs)

AreSorted-insert_behind :
    (u v : ℕ) (vs : List ℕ)
    → u ≤ v
    → AreSorted (v ∷ vs)
    → AreSorted (insert_uid u vs)
    → AreSorted (v ∷ insert_uid u vs)
unfolding insert_uid
AreSorted-insert_behind u v [] h s r = (h, tt)
AreSorted-insert_behind u v (w ∷ ws) h s r =
    of_both (λ (l : List ℕ). AreSorted l → AreSorted (v ∷ l)) (leb w u) (u ∷ w ∷ ws)
      (w ∷ insert_uid u ws) (λ r. (h, r)) (λ r. (s.0, r)) r

pub AreSorted-tail : (v : ℕ) (vs : List ℕ) → AreSorted (v ∷ vs) → AreSorted vs
AreSorted-tail v [] s = tt
AreSorted-tail v (w ∷ ws) s = s.1

AreSorted-insert_uid : (u : ℕ) (vs : List ℕ) → AreSorted vs → AreSorted (insert_uid u vs)
unfolding insert_uid
AreSorted-insert_uid u [] s = tt
AreSorted-insert_uid u (v ∷ vs) s =
    of_branches AreSorted (leb v u) (u ∷ v ∷ vs) (v ∷ insert_uid u vs) (λ e. (ground (arith, e), s))
      (λ e.
        AreSorted-insert_behind u v vs (ground (arith, e)) s
          (AreSorted-insert_uid u vs (AreSorted-tail v vs s)))

pub AreSorted-sort_uids : (us : List ℕ) → AreSorted (sort_uids us)
unfolding sort_uids
AreSorted-sort_uids [] = tt
AreSorted-sort_uids (u ∷ us) = AreSorted-insert_uid u (sort_uids us) (AreSorted-sort_uids us)

length-insert_uid : (u : ℕ) (vs : List ℕ) → length (insert_uid u vs) ≡ suc (length vs)
unfolding insert_uid
length-insert_uid u [] = refl
length-insert_uid u (v ∷ vs) =
    of_both (λ (l : List ℕ). length l ≡ suc (suc (length vs))) (leb v u) (u ∷ v ∷ vs)
      (v ∷ insert_uid u vs) refl (ap suc (length-insert_uid u vs))

pub length-sort_uids : (us : List ℕ) → length (sort_uids us) ≡ length us
unfolding sort_uids
length-sort_uids [] = refl
length-sort_uids (u ∷ us) = length-insert_uid u (sort_uids us) ∙ ap suc (length-sort_uids us)

-- One step of the loop: nothing is refused of the first, nor of the others.
judge_uids-step :
    (w : Window) (previous : Option ℕ) (u : ℕ) (us : List ℕ)
    → judge_uids w previous (u ∷ us) ≡ none
    → (1 ≤ u)
      × (w.first ≤ u)
      × (u ≤ w.last)
      × (is_previous previous u ≡ false)
      × (judge_uids w (some u) us ≡ none)
unfolding judge_uids
judge_uids-step w previous u us h = ground (arith, h)

judge_uids-Falling :
    (w : Window) (v : ℕ) (us : List ℕ)
    → AreSorted (v ∷ us)
    → judge_uids w (some v) us ≡ none
    → AreFalling v us × AreIn w us
judge_uids-Falling w v [] s h = (tt, tt)
judge_uids-Falling w v (u ∷ us) s h =
    let step = judge_uids-step w (some v) u us h in
    let rest = judge_uids-Falling w u us s.1 step.4 in
    ((ground (arith, s.0, step.3), rest.0), (step.0, step.1, step.2, rest.1))

judge_uids-Falling_all :
    (w : Window) (us : List ℕ)
    → AreSorted us
    → judge_uids w none us ≡ none
    → AreFalling (suc w.last) us × AreIn w us
judge_uids-Falling_all w [] s h = (tt, tt)
judge_uids-Falling_all w (u ∷ us) s h =
    let step = judge_uids-step w none u us h in
    let rest = judge_uids-Falling w u us s step.4 in
    ((ground (arith, step.2), rest.0), (step.0, step.1, step.2, rest.1))

length-cut :
    (budget : ℕ) (us : List ℕ)
    → length (if ltb budget (length us) then take budget us else us) ≡ min budget (length us)
length-cut budget us =
    of_branches (λ (l : List ℕ). length l ≡ min budget (length us)) (ltb budget (length us))
      (take budget us) us (λ e. length-take budget us ∙ omega (arith)) (λ e. ground (arith, e))

-- What a cut list leaves behind.
abbrev pub left_behind : ℕ → List ℕ → List ℕ
left_behind budget us = if ltb budget (length us) then drop budget us else []

cut-left_behind :
    (budget : ℕ) (us : List ℕ)
    → (if ltb budget (length us) then take budget us else us) ++ left_behind budget us ≡ us
cut-left_behind budget us = elim (Bool-cases (ltb budget (length us))) [
  | inl e ↦ rw e (take-append-drop budget us)
  | inr e ↦ rw e (append-nil us)
]

-- The UIDs kept of a window, and those left out, are the window's matches in an order that falls.
abbrev pub IsHighest : List ℕ → Window → ℕ → List ℕ → Type 0
IsHighest uids w budget out =
    (rest : List ℕ) × ((u : ℕ) → times u uids ≡ times u (out ++ rest))
    × AreFalling (suc w.last) (out ++ rest)
    × AreIn w (out ++ rest)
    × (length out ≡ min budget (length uids))

IsHighest-cut :
    (uids : List ℕ) (w : Window) (budget : ℕ)
    → judge_uids w none (sort_uids uids) ≡ none
    → IsHighest uids w budget (
        if ltb budget (length (sort_uids uids))
        then take budget (sort_uids uids)
        else sort_uids uids)
IsHighest-cut uids w budget h =
    let us = sort_uids uids in
    let whole = cut-left_behind budget us in
    let falls = judge_uids-Falling_all w us (AreSorted-sort_uids uids) h in
    (
      left_behind budget us,
      (λ u. sym (times-sort_uids u uids) ∙ ap (times u) (sym whole)),
      subst (AreFalling (suc w.last)) (sym whole) falls.0,
      subst (AreIn w) (sym whole) falls.1,
      length-cut budget us ∙ ap (min budget) (length-sort_uids uids),
    )

within_budget-IsHighest :
    (uids : List ℕ) (w : Window) (budget : ℕ) (out : List ℕ) (code : Option Code)
    → judge_uids w none (sort_uids uids) ≡ code
    → within_budget code budget (sort_uids uids) ≡ done out
    → IsHighest uids w budget out
within_budget-IsHighest uids w budget out (some code) j h = absurd (cc h)
within_budget-IsHighest uids w budget out none j h =
    subst (IsHighest uids w budget) (done-injective h) (IsHighest-cut uids w budget j)

-- If the UIDs of a window are accepted, then those taken, followed by some others, are the same UIDs
-- equally often, in strictly descending order and all within the window, and as many are taken as
-- the budget and the number of UIDs allow.
pub select_highest_uids-IsHighest :
    (uids : List ℕ) (w : Window) (budget : ℕ) (out : List ℕ)
    → select_highest_uids uids w budget ≡ done out
    → IsHighest uids w budget out
unfolding select_highest_uids
select_highest_uids-IsHighest uids w budget out h =
    of_branches (λ r. r ≡ done out → IsHighest uids w budget out) (ltb (width w) (length uids))
      (failed bounds_exceeded)
      (within_budget (judge_uids w none (sort_uids uids)) budget (sort_uids uids))
      (λ e d. absurd (cc d)) (λ e d. within_budget-IsHighest uids w budget out _ refl d) h
