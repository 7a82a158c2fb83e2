-- ===== src/Search/Accepted.antt =====
-- A page takes its UIDs of every answer that the decoding of SEARCH data accepts.
use croton_mcp.Base.{
  ℕ, ◌≤◌, false, Option, none, some, List, [], ◌∷◌, ltb, leb, ◌==◌, if◌then◌else◌, length, take,
  ◌≡◌, refl, sym, subst, arith, of_both,
}
use croton_mcp.Search.Highest.{
  times, AreIn, times-sort_uids, IsHighest, select_highest_uids-IsHighest,
}
use croton_mcp.Search.Ranges.{Range, bounded_search_uids}
use croton_mcp.Search.RangesSafe.{AreDistinctIn, AreWords, bounded_search_uids-Fits}
use croton_mcp.Search.Select.{insert_uid, sort_uids, is_previous, judge_uids, select_highest_uids}
use croton_mcp.Triage.Result.{done}
use croton_mcp.Wire.Observer.{Window, width}

AreIn-insert_uid : (w : Window) (u : ℕ) (us : List ℕ) → AreIn w (u ∷ us) → AreIn w (insert_uid u us)
unfolding insert_uid
AreIn-insert_uid w u [] a = a
AreIn-insert_uid w u (v ∷ vs) a =
    of_both (AreIn w) (leb v u) (u ∷ v ∷ vs) (v ∷ insert_uid u vs) a
      (a.3.0, a.3.1, a.3.2, AreIn-insert_uid w u vs (a.0, a.1, a.2, a.3.3))

AreIn-sort_uids : (w : Window) (us : List ℕ) → AreIn w us → AreIn w (sort_uids us)
unfolding sort_uids
AreIn-sort_uids w [] a = tt
AreIn-sort_uids w (u ∷ us) a =
    AreIn-insert_uid w u (sort_uids us) (a.0, a.1, a.2, AreIn-sort_uids w us a.3)

times-twice : (u v : ℕ) (us : List ℕ) → times v (v ∷ u ∷ us) ≤ 1 → (u == v) ≡ false
unfolding times
times-twice u v us l = ground (arith, l)

times-behind : (u v : ℕ) (us : List ℕ) → times u (v ∷ us) ≤ 1 → times u us ≤ 1
unfolding times
times-behind u v us l = omega (arith, l)

judge_uids-next :
    (w : Window) (previous : Option ℕ) (u : ℕ) (us : List ℕ)
    → 1 ≤ u
    → w.first ≤ u
    → u ≤ w.last
    → is_previous previous u ≡ false
    → judge_uids w (some u) us ≡ none
    → judge_uids w previous (u ∷ us) ≡ none
unfolding judge_uids
judge_uids-next w previous u us a b c e r = ground (arith, a, b, c, e, r)

judge_uids-none :
    (w : Window) (v : ℕ) (us : List ℕ)
    → ((u : ℕ) → times u (v ∷ us) ≤ 1)
    → AreIn w us
    → judge_uids w (some v) us ≡ none
unfolding judge_uids
judge_uids-none w v [] d a = refl
judge_uids-none w v (u ∷ us) d a =
    let others = judge_uids-none w u us (λ x. times-behind x v (u ∷ us) (d x)) a.3 in
    judge_uids-next w (some v) u us a.0 a.1 a.2 (ground (arith, times-twice u v us (d v))) others

judge_uids-accepts :
    (w : Window) (us : List ℕ)
    → ((u : ℕ) → times u us ≤ 1)
    → AreIn w us
    → judge_uids w none us ≡ none
unfolding judge_uids
judge_uids-accepts w [] d a = refl
judge_uids-accepts w (u ∷ us) d a =
    judge_uids-next w none u us a.0 a.1 a.2 refl (judge_uids-none w u us d a.3)

select_highest_uids-accepts :
    (uids : List ℕ) (w : Window) (budget : ℕ)
    → AreDistinctIn w uids
    → length uids ≤ width w
    → (out : List ℕ) × (select_highest_uids uids w budget ≡ done out)
unfolding select_highest_uids
select_highest_uids-accepts uids w budget d l =
    let few : ltb (width w) (length uids) ≡ false = ground (arith, l) in
    let judged =
      judge_uids-accepts w (sort_uids uids)
        (λ u. subst (λ n. n ≤ 1) (sym (times-sort_uids u uids)) (d.0 u))
        (AreIn-sort_uids w uids d.1) in
    (
      if ltb budget (length (sort_uids uids)) then take budget (sort_uids uids) else sort_uids uids,
      rw few (rw judged refl),
    )

-- If decoded SEARCH data is accepted with the width of its window as the limit, its items being 32 bits
-- wide and in order, then the page accepts it too, under any budget: it takes the highest UIDs of the
-- answer, as many as the budget and the answer allow, in strictly descending order.
pub select_highest_uids-bounded_search_uids :
    (items : Option (List Range)) (w : Window) (budget : ℕ) (uids : List ℕ)
    → ((l : List Range) → items ≡ some l → AreWords l)
    → bounded_search_uids items w (width w) ≡ done uids
    → (out : List ℕ) × (select_highest_uids uids w budget ≡ done out) × IsHighest uids w budget out
select_highest_uids-bounded_search_uids items w budget uids a h =
    let fits = bounded_search_uids-Fits items w (width w) uids a h in
    let taken = select_highest_uids-accepts uids w budget fits.0 fits.1 in
    (taken.0, taken.1, select_highest_uids-IsHighest uids w budget taken.0 taken.1)
