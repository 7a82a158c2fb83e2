-- ===== src/Wire/SetsOverlap.antt =====
-- A sequence set is refused exactly when some number of it stands in two of its intervals.
use croton_mcp.Base.{
  Bytes, ℕ, ◌+◌, ◌≤◌, true, false, ◌&&◌, Option, none, some, List, [], ◌∷◌, leb, ltb, if◌then◌else◌,
  ◌≡◌, refl, ap, subst, ◌∙◌, arith, ◌⊎◌, inl, inr, of_branches, Bool-cases,
}
use croton_mcp.Text.{cut, split}
use croton_mcp.Wire.Grammar.{parse_uint}
use croton_mcp.Wire.Sets.{
  item_interval, put_interval, bounds_of, parse_items, parse_set, Interval, insert_interval,
  sort_intervals, neighbours_overlap, intervals_overlap,
}

abbrev pub holds : ℕ → Interval → ℕ
holds n i = if leb i.start n && leb n i.stop then 1 else 0

-- How many intervals hold a number.
unfoldable pub times_named : ℕ → List Interval → ℕ
times_named n [] = 0
times_named n (i ∷ is) = holds n i + times_named n is

abbrev pub AreOrdered : List Interval → Type 0
AreOrdered [] = Unit
AreOrdered (i ∷ is) = (i.start ≤ i.stop) × AreOrdered is

-- The starts do not fall.
abbrev AreSorted : List Interval → Type 0
AreSorted [] = Unit
AreSorted (i ∷ []) = Unit
AreSorted (i ∷ j ∷ js) = (i.start ≤ j.start) × AreSorted (j ∷ js)

times_named-insert_interval :
    (n : ℕ) (i : Interval) (is : List Interval)
    → times_named n (insert_interval i is) ≡ holds n i + times_named n is
unfolding times_named insert_interval
times_named-insert_interval n i [] = refl
times_named-insert_interval n i (j ∷ js) =
    of_branches
      (λ (l : List Interval). times_named n l ≡ holds n i + (holds n j + times_named n js))
      (leb i.start j.start) _ _ (λ e. refl) (λ e. omega (arith, times_named-insert_interval n i js))

times_named-sort_intervals :
    (n : ℕ) (is : List Interval) → times_named n (sort_intervals is) ≡ times_named n is
unfolding times_named sort_intervals
times_named-sort_intervals n [] = refl
times_named-sort_intervals n (i ∷ is) =
    times_named-insert_interval n i (sort_intervals is)
    ∙ ap (λ k. holds n i + k) (times_named-sort_intervals n is)

AreOrdered-insert_interval :
    (i : Interval) (is : List Interval)
    → i.start ≤ i.stop
    → AreOrdered is
    → AreOrdered (insert_interval i is)
unfolding insert_interval
AreOrdered-insert_interval i [] h k = (h, tt)
AreOrdered-insert_interval i (j ∷ js) h k =
    of_branches (λ (l : List Interval). AreOrdered l) (leb i.start j.start) _ _ (λ e. (h, k))
      (λ e. (k.0, AreOrdered-insert_interval i js h k.1))

AreOrdered-sort_intervals : (is : List Interval) → AreOrdered is → AreOrdered (sort_intervals is)
unfolding sort_intervals
AreOrdered-sort_intervals [] h = tt
AreOrdered-sort_intervals (i ∷ is) h =
    AreOrdered-insert_interval i (sort_intervals is) h.0 (AreOrdered-sort_intervals is h.1)

AreSorted-insert_behind :
    (i j : Interval) (js : List Interval)
    → j.start ≤ i.start
    → AreSorted (j ∷ js)
    → AreSorted (insert_interval i js)
    → AreSorted (j ∷ insert_interval i js)
unfolding insert_interval
AreSorted-insert_behind i j [] h s r = (h, tt)
AreSorted-insert_behind i j (k ∷ ks) h s r =
    elim (leb i.start k.start)
        as (λ b.
          AreSorted (if b then i ∷ k ∷ ks else k ∷ insert_interval i ks)
          → AreSorted (j ∷ (if b then i ∷ k ∷ ks else k ∷ insert_interval i ks))) [
            | true ↦ (λ r. (h, r))
            | false ↦ (λ r. (s.0, r))
          ]
      r

AreSorted-insert_interval :
    (i : Interval) (is : List Interval) → AreSorted is → AreSorted (insert_interval i is)
unfolding insert_interval
AreSorted-insert_interval i [] s = tt
AreSorted-insert_interval i (j ∷ []) s =
    of_branches (λ (l : List Interval). AreSorted l) (leb i.start j.start) _ _
      (λ e. (ground (arith, e), tt)) (λ e. (ground (arith, e), tt))
AreSorted-insert_interval i (j ∷ k ∷ ks) s =
    of_branches (λ (l : List Interval). AreSorted l) (leb i.start j.start) (i ∷ j ∷ k ∷ ks)
      (j ∷ insert_interval i (k ∷ ks)) (λ e. (ground (arith, e), s))
      (λ e.
        AreSorted-insert_behind i j (k ∷ ks) (ground (arith, e)) s
          (AreSorted-insert_interval i (k ∷ ks) s.1))

AreSorted-sort_intervals : (is : List Interval) → AreSorted (sort_intervals is)
unfolding sort_intervals
AreSorted-sort_intervals [] = tt
AreSorted-sort_intervals (i ∷ is) =
    AreSorted-insert_interval i (sort_intervals is) (AreSorted-sort_intervals is)

-- In front of apart neighbours, a number up to the end of the first is held by none behind.
unnamed_behind :
    (n : ℕ) (i : Interval) (is : List Interval)
    → neighbours_overlap (i ∷ is) ≡ false
    → AreOrdered (i ∷ is)
    → n ≤ i.stop
    → times_named n is ≡ 0
unfolding neighbours_overlap times_named
unnamed_behind n i [] e h l = refl
unnamed_behind n i (j ∷ js) e h l =
    let later = unnamed_behind n j js (ground (arith, e)) h.1 (ground (arith, e, h.1.0, l)) in
    ground (arith, e, l, later)

apart-times_named :
    (n : ℕ) (is : List Interval)
    → neighbours_overlap is ≡ false
    → AreOrdered is
    → times_named n is ≤ 1
unfolding neighbours_overlap times_named
apart-times_named n [] e h = omega arith
apart-times_named n (i ∷ []) e h = ground arith
apart-times_named n (i ∷ j ∷ js) e h =
    let later = apart-times_named n (j ∷ js) (ground (arith, e)) h.1 in
    let behind = unnamed_behind n i (j ∷ js) e h in ground (arith, later, behind)

overlap-times_named :
    (is : List Interval)
    → neighbours_overlap is ≡ true
    → AreSorted is
    → AreOrdered is
    → (n : ℕ) × (2 ≤ times_named n is)
unfolding neighbours_overlap times_named
overlap-times_named [] e s h = absurd (ground (arith, e))
overlap-times_named (i ∷ []) e s h = absurd (ground (arith, e))
overlap-times_named (i ∷ j ∷ js) e s h = elim (Bool-cases (leb j.start i.stop)) [
  | inl b ↦ (j.start, ground (arith, b, s.0, h.1.0))
  | inr b ↦
      (let (n, l) = overlap-times_named (j ∷ js) (ground (arith, e, b)) s.1 h.1 in
        (n, omega (arith, l)))
]

intervals_overlap-cases :
    (is : List Interval)
    → AreOrdered is
    → ((intervals_overlap is ≡ true) × ((n : ℕ) × (2 ≤ times_named n is)))
      ⊎ ((intervals_overlap is ≡ false) × ((n : ℕ) → times_named n is ≤ 1))
unfolding intervals_overlap
intervals_overlap-cases is h = elim (Bool-cases (neighbours_overlap (sort_intervals is))) [
  | inl e ↦
      (let (n, l) =
          overlap-times_named (sort_intervals is) e (AreSorted-sort_intervals is)
            (AreOrdered-sort_intervals is h) in
        inl (e, (n, subst (λ k. 2 ≤ k) (times_named-sort_intervals n is) l)))
  | inr e ↦ inr (
    e,
    λ n.
        subst (λ k. k ≤ 1) (times_named-sort_intervals n is)
          (apart-times_named n (sort_intervals is) e (AreOrdered-sort_intervals is h)),
  )
]

abbrev IsOrderedIn : Option Interval → Type 0
IsOrderedIn none = Unit
IsOrderedIn (some i) = i.start ≤ i.stop

abbrev AreOrderedIn : Option (List Interval) → Type 0
AreOrderedIn none = Unit
AreOrderedIn (some is) = AreOrdered is

bounds_of-IsOrderedIn : (a b : Option ℕ) → IsOrderedIn (bounds_of a b)
bounds_of-IsOrderedIn (some a) (some b) =
    of_branches (λ (i : Interval). i.start ≤ i.stop) (ltb b a) _ _ (λ e. ground (arith, e))
      (λ e. ground (arith, e))
bounds_of-IsOrderedIn (some a) none = tt
bounds_of-IsOrderedIn none (some b) = tt
bounds_of-IsOrderedIn none none = tt

put_interval-AreOrderedIn :
    (i : Option Interval) (is : Option (List Interval))
    → IsOrderedIn i
    → AreOrderedIn is
    → AreOrderedIn (put_interval i is)
put_interval-AreOrderedIn (some i) (some is) h k = (h, k)
put_interval-AreOrderedIn (some i) none h k = tt
put_interval-AreOrderedIn none (some is) h k = tt
put_interval-AreOrderedIn none none h k = tt

parse_items-AreOrderedIn : (items : List Bytes) → AreOrderedIn (parse_items items)
unfolding parse_items
parse_items-AreOrderedIn [] = tt
parse_items-AreOrderedIn (item ∷ items) =
    let (low, high, is_range) = cut b':' item in
    put_interval-AreOrderedIn (item_interval (cut b':' item)) (parse_items items)
      (bounds_of-IsOrderedIn (parse_uint 32 low)
        (if is_range then parse_uint 32 high else parse_uint 32 low))
      (parse_items-AreOrderedIn items)

-- What a sequence set that parses comes to: it is refused exactly where two of its intervals hold some
-- number, and otherwise no number is held by more than one.
pub parse_set-times_named :
    (set : Bytes) (is : List Interval)
    → parse_set set ≡ some is
    → ((intervals_overlap is ≡ true) × ((n : ℕ) × (2 ≤ times_named n is)))
      ⊎ ((intervals_overlap is ≡ false) × ((n : ℕ) → times_named n is ≤ 1))
unfolding parse_set
parse_set-times_named set is e =
    intervals_overlap-cases is (subst AreOrderedIn e (parse_items-AreOrderedIn (split b',' set)))
