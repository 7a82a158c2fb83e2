-- ===== src/Threads/Depths.antt =====
-- The depths of a thread are those of its forest, within the limit.
use croton_mcp.Base.{
  ℕ, zero, suc, ◌+◌, ◌≤◌, ◌<◌, true, Bool-cases, inl, inr, Option, none, some, List, ltb, ◌==◌,
  if◌then◌else◌, length, ◌≡◌, refl, sym, ap, subst, ◌∙◌, arith, of_branches,
}
use croton_mcp.Threads.Forest.{AreParentsBelow-put, link_thread-IsForest}
use croton_mcp.Threads.Links.{
  ThreadMessage, Parents, put, one_deeper, depth_above, resolve_depth, Measured, measure_at,
  measure_from, unmeasured, link_thread, measure_thread,
}
use croton_mcp.Threads.Reach.{AreParentsBelow, Rooted-bound}
use croton_mcp.Threads.Rooted.{
  Rooted, Rooted-unique, Rooted-put, put-same, put-other, AllRooted-put,
}

-- A depth that is set is the distance to the root.
abbrev AreTrue : Parents → (ℕ → ℕ) → Type 0
AreTrue parents depths = (i : ℕ) → 1 ≤ depths i → Rooted parents (depths i) i

resolve_depth-top :
    (fuel i : ℕ) (parents : Parents) (depths : ℕ → ℕ)
    → parents i ≡ none
    → resolve_depth (suc fuel) i parents depths ≡ some 0
unfolding resolve_depth
resolve_depth-top fuel i parents depths e =
    ap (depth_above (λ p. resolve_depth fuel p parents depths) depths) e

resolve_depth-on :
    (fuel i p : ℕ) (parents : Parents) (depths : ℕ → ℕ)
    → parents i ≡ some p
    → resolve_depth (suc fuel) i parents depths ≡ (
        if ltb 0 (depths p)
        then some (depths p + 1)
        else one_deeper (resolve_depth fuel p parents depths))
unfolding resolve_depth
resolve_depth-on fuel i p parents depths e =
    ap (depth_above (λ p. resolve_depth fuel p parents depths) depths) e

resolve_depth-Rooted :
    (fuel d i : ℕ) (parents : Parents) (depths : ℕ → ℕ)
    → AreTrue parents depths
    → d < fuel
    → Rooted parents d i
    → resolve_depth fuel i parents depths ≡ some d
resolve_depth-Rooted zero d i parents depths t l r = absurd (omega (arith, l))
resolve_depth-Rooted (suc fuel) zero i parents depths t l r =
    resolve_depth-top fuel i parents depths r
resolve_depth-Rooted (suc fuel) (suc d) i parents depths t l r =
    let p = r.0 in
    resolve_depth-on fuel i p parents depths r.1
    ∙ of_branches (λ (o : Option ℕ). o ≡ some (suc d)) (ltb 0 (depths p)) (some (depths p + 1))
        (one_deeper (resolve_depth fuel p parents depths))
        (λ e.
          let same = Rooted-unique parents (depths p) d p (t p (ground (arith, e))) r.2 in
          ap some (omega (arith, same)))
        (λ e.
          ap one_deeper (resolve_depth-Rooted fuel d p parents depths t (omega (arith, l)) r.2)
          ∙ ap some (omega arith))

-- The loop over the depths, before an index.
record IsMeasured (n max_depth index : ℕ) (s : Measured) : Type 0 where
  below : AreParentsBelow n s.parents
  rooted : (i : ℕ) → (d : ℕ) × Rooted s.parents d i
  exact : (i : ℕ) → i < index → Rooted s.parents (s.depths i) i × (s.depths i ≤ max_depth)
  later : (i : ℕ) → index ≤ i → s.depths i ≡ 0
  told : s.is_told ≡ true

IsMeasured-true :
    (n max_depth index : ℕ) (s : Measured)
    → IsMeasured n max_depth index s
    → AreTrue s.parents s.depths
IsMeasured-true n max_depth index s k i l = elim (Bool-cases (ltb i index)) [
  | inl e ↦ (k.exact i (ground (arith, e))).0
  | inr e ↦ (let none_yet = k.later i (ground (arith, e)) in absurd (omega (arith, l, none_yet)))
]

-- A message too deep becomes a root: messages measured before it are not below it.
cut-IsMeasured :
    (n max_depth index d : ℕ) (s : Measured)
    → IsMeasured n max_depth index s
    → Rooted s.parents d index
    → max_depth < d
    → IsMeasured n max_depth (suc index) (record s {
      parents = put index none s.parents;
      depths = put index 0 s.depths;
      is_cut = true;
    })
cut-IsMeasured n max_depth index d s k r l = record {
  below = AreParentsBelow-put n index none s.parents tt k.below;
  rooted = λ i.
      let old = k.rooted i in
      AllRooted-put s.parents index none (0, put-same index none s.parents) old.0 i old.1;
  exact = λ i b.
      of_branches (λ m. Rooted (put index none s.parents) m i × (m ≤ max_depth)) (i == index) 0
        (s.depths i) (λ e. (rw e refl, omega arith))
        (λ e.
          let old = k.exact i (ground (arith, b, e)) in
          (
            Rooted-put s.parents index d none (s.depths i) i r (omega (arith, l, old.1)) old.0,
            old.1,
          ));
  later = λ i b. put-other index i 0 s.depths (ground (arith, b)) ∙ k.later i (omega (arith, b));
  told = k.told;
}

kept-IsMeasured :
    (n max_depth index d : ℕ) (s : Measured)
    → IsMeasured n max_depth index s
    → Rooted s.parents d index
    → d ≤ max_depth
    → IsMeasured n max_depth (suc index) (record s { depths = put index d s.depths })
kept-IsMeasured n max_depth index d s k r l = record {
  below = k.below;
  rooted = k.rooted;
  exact = λ i b.
      of_branches (λ m. Rooted s.parents m i × (m ≤ max_depth)) (i == index) d (s.depths i)
        (λ e.
          let same : i ≡ index = ground (arith, e) in (subst (Rooted s.parents d) (sym same) r, l))
        (λ e. k.exact i (ground (arith, b, e)));
  later = λ i b. put-other index i d s.depths (ground (arith, b)) ∙ k.later i (omega (arith, b));
  told = k.told;
}

measure_at-IsMeasured :
    (n max_depth index fuel : ℕ) (s : Measured)
    → n ≤ fuel
    → index < n
    → IsMeasured n max_depth index s
    → IsMeasured n max_depth
        (suc index)
        (measure_at max_depth index (resolve_depth fuel index s.parents s.depths) s)
measure_at-IsMeasured n max_depth index fuel s f b k =
    let r = k.rooted index in
    let few = Rooted-bound n s.parents r.0 index k.below b r.1 in
    let found =
      resolve_depth-Rooted fuel r.0 index s.parents s.depths (IsMeasured-true n max_depth index s k)
        (omega (arith, few, f)) r.1 in
    subst (λ o. IsMeasured n max_depth (suc index) (measure_at max_depth index o s)) (sym found)
      (of_branches (IsMeasured n max_depth (suc index)) (ltb max_depth r.0)
        (record s {
          parents = put index none s.parents;
          depths = put index 0 s.depths;
          is_cut = true;
        })
        (record s { depths = put index r.0 s.depths })
        (λ e. cut-IsMeasured n max_depth index r.0 s k r.1 (ground (arith, e)))
        (λ e. kept-IsMeasured n max_depth index r.0 s k r.1 (ground (arith, e))))

measure_from-IsMeasured :
    (n max_depth fuel m index : ℕ) (s : Measured)
    → n ≤ fuel
    → index + m ≡ n
    → IsMeasured n max_depth index s
    → IsMeasured n max_depth n (measure_from fuel max_depth m index s)
unfolding measure_from
measure_from-IsMeasured n max_depth fuel zero index s f e k =
    subst (λ j. IsMeasured n max_depth j s) (omega (arith, e)) k
measure_from-IsMeasured n max_depth fuel (suc m) index s f e k =
    measure_from-IsMeasured n max_depth fuel m (suc index) _ f (omega (arith, e))
      (measure_at-IsMeasured n max_depth index fuel s f (omega (arith, e)) k)

-- The parents and depths of a thread.
abbrev pub AreExact : ℕ → ℕ → Measured → Type 0
AreExact n max_depth s =
    (s.is_told ≡ true)
    × AreParentsBelow n s.parents
    × ((i : ℕ) → i < n → Rooted s.parents (s.depths i) i × (s.depths i ≤ max_depth))

-- However the messages refer to each other, the loops of the thread end within their fuel, every parent
-- is one of the messages, and the depth of each message is the number of its ancestors, which is no more
-- than the limit.
pub measure_thread-AreExact :
    (references max_depth : ℕ) (ordered : List ThreadMessage)
    → AreExact (length ordered) max_depth (measure_thread references max_depth ordered)
unfolding measure_thread
measure_thread-AreExact references max_depth ordered =
    let n = length ordered in
    let linked = link_thread references ordered in
    let forest = link_thread-IsForest references ordered in
    let start : IsMeasured n max_depth 0 (unmeasured linked) = record {
      below = forest.0.below;
      rooted = forest.0.rooted;
      exact = λ i l. absurd (omega (arith, l));
      later = λ i l. refl;
      told = forest.1;
    } in
    let all =
      measure_from-IsMeasured n max_depth (suc n) n 0 (unmeasured linked) (omega arith)
        (omega arith) start in
    (all.told, all.below, all.exact)
