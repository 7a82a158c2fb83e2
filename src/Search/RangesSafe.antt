-- ===== src/Search/RangesSafe.antt =====
-- The UIDs of a decoded SEARCH answer are few, distinct and inside the window, so its page takes them.
use croton_mcp.Base.{
  Bool-cases, inl, inr, ℕ, zero, suc, ◌+◌, ◌-◌, ◌%◌, ◌^◌, ◌≤◌, ◌<◌, Bool, false, Option, none, some,
  List, [], ◌∷◌, ◌++◌, ◌==◌, if◌then◌else◌, length, length-append, ◌≡◌, refl, ap, subst, ◌∙◌, arith,
  of_branches,
}
use croton_mcp.Codes.{Code, imap_protocol}
use croton_mcp.Search.Highest.{times, AreIn}
use croton_mcp.Search.Ranges.{Range, count_of, add_uids, add_range, add_ranges, bounded_search_uids}
use croton_mcp.Triage.Result.{Result, done, failed, done-injective}
use croton_mcp.Triage.Source.{mem_uid}
use croton_mcp.Wire.Observer.{Window}

-- Each UID stands at most once, and all are inside the window.
abbrev pub AreDistinctIn : Window → List ℕ → Type 0
AreDistinctIn w us = ((u : ℕ) → times u us ≤ 1) × AreIn w us

times-append : (u : ℕ) (us vs : List ℕ) → times u (us ++ vs) ≡ times u us + times u vs
unfolding times
times-append u [] vs = omega arith
times-append u (v ∷ us) vs = omega (arith, times-append u us vs)

times-mem_uid : (u : ℕ) (us : List ℕ) → mem_uid u us ≡ false → times u us ≡ 0
unfolding times mem_uid
times-mem_uid u [] h = refl
times-mem_uid u (v ∷ vs) h =
    let rest = times-mem_uid u vs (ground (arith, h)) in ground (arith, h, rest)

times-one : (u v : ℕ) → times u (v ∷ []) ≡ (if v == u then 1 else 0)
unfolding times
times-one u v = omega arith

AreIn-append : (w : Window) (us vs : List ℕ) → AreIn w us → AreIn w vs → AreIn w (us ++ vs)
AreIn-append w [] vs a b = b
AreIn-append w (u ∷ us) vs (p, q, r, a) b = (p, q, r, AreIn-append w us vs a b)

abbrev weigh : Bool → ℕ
weigh t = if t then 1 else 0

times-add :
    (u uid : ℕ) (us : List ℕ)
    → times u us ≤ 1
    → mem_uid uid us ≡ false
    → times u (us ++ uid ∷ []) ≤ 1
times-add u uid us l h = elim (Bool-cases (uid == u)) [
  | inl e ↦
      (let same : uid ≡ u = ground (arith, e) in
        let new : times u us ≡ 0 = subst (λ v. times v us ≡ 0) same (times-mem_uid uid us h) in
        omega (arith, new, times-append u us (uid ∷ []), times-one u uid, ap weigh e))
  | inr e ↦ omega (arith, l, times-append u us (uid ∷ []), times-one u uid, ap weigh e)
]

-- One UID more, if it is new and inside.
AreDistinctIn-add :
    (w : Window) (us : List ℕ) (uid : ℕ)
    → AreDistinctIn w us
    → mem_uid uid us ≡ false
    → 1 ≤ uid
    → w.first ≤ uid
    → uid ≤ w.last
    → AreDistinctIn w (us ++ uid ∷ [])
AreDistinctIn-add w us uid d h a b c =
    ((λ u. times-add u uid us (d.0 u) h), AreIn-append w us (uid ∷ []) d.1 (a, b, c, tt))

-- The inner loop over UIDs inside the window.
abbrev Grown : Window → ℕ → List ℕ → Type 0
Grown w n out = AreDistinctIn w out × (length out ≡ n)

length-add : (us : List ℕ) (u : ℕ) → length (us ++ u ∷ []) ≡ length us + 1
length-add us u = length-append us (u ∷ []) ∙ refl

add_uids-Grown :
    (w : Window) (n uid : ℕ) (results out : List ℕ)
    → AreDistinctIn w results
    → 1 ≤ uid
    → w.first ≤ uid
    → uid + n ≤ w.last
    → uid + n < 2 ^ 32
    → add_uids n uid results ≡ done out
    → Grown w (length results + n + 1) out
unfolding add_uids
add_uids-Grown w zero uid results out d a b c k h =
    of_branches (λ r. r ≡ done out → Grown w (length results + 0 + 1) out) (mem_uid uid results)
      (failed imap_protocol) (done (results ++ uid ∷ [])) (λ e i. absurd (cc i))
      (λ e i. subst (Grown w (length results + 0 + 1)) (done-injective i) (
        AreDistinctIn-add w results uid d e a b (omega (arith, c)),
        omega (arith, length-add results uid),
      ))
      h
add_uids-Grown w (suc n) uid results out d a b c k h =
    of_branches (λ r. r ≡ done out → Grown w (length results + suc n + 1) out) (mem_uid uid results)
      (failed imap_protocol) (add_uids n ((uid + 1) % 2 ^ 32) (results ++ uid ∷ []))
      (λ e i. absurd (cc i))
      (λ e i.
        let rest =
          add_uids-Grown w n (uid + 1) (results ++ uid ∷ []) out
            (AreDistinctIn-add w results uid d e a b (omega (arith, c))) (omega (arith, a))
            (omega (arith, b)) (omega (arith, c)) (omega (arith, k))
            (subst (λ v. add_uids n v (results ++ uid ∷ []) ≡ done out) (omega (arith, k)) i) in
        (rest.0, omega (arith, rest.1, length-add results uid)))
      h

abbrev Fits : Window → ℕ → List ℕ → Type 0
Fits w limit us = AreDistinctIn w us × (length us ≤ limit)

-- The items are 32 bits wide, and in order.
abbrev pub AreWords : List Range → Type 0
AreWords [] = Unit
AreWords (item ∷ items) = (item.start ≤ item.stop) × (item.stop < 2 ^ 32) × AreWords items

-- What the guards leave: a range in order, inside the window, with room for it.
abbrev Admitted : Window → ℕ → List ℕ → Range → List ℕ → Type 0
Admitted w limit results item out =
    (1 ≤ item.start)
    × (w.first ≤ item.start)
    × (item.stop ≤ w.last)
    × (count_of item ≤ limit - length results)
    × (add_uids ((item.stop + (2 ^ 32 - item.start)) % 2 ^ 32) item.start results ≡ done out)

add_range-Admitted :
    (w : Window) (limit : ℕ) (results : List ℕ) (item : Range) (out : List ℕ)
    → add_range w limit results item ≡ done out
    → Admitted w limit results item out
unfolding add_range
add_range-Admitted w limit results item out h = ground (arith, h)

add_range-Fits :
    (w : Window) (limit : ℕ) (results : List ℕ) (item : Range) (out : List ℕ)
    → item.start ≤ item.stop
    → item.stop < 2 ^ 32
    → Fits w limit results
    → add_range w limit results item ≡ done out
    → Fits w limit out
add_range-Fits w limit results item out a b f h =
    let t = add_range-Admitted w limit results item out h in
    let behind : (item.stop + (2 ^ 32 - item.start)) % 2 ^ 32 ≡ item.stop - item.start =
      omega (arith, a, b) in
    let count : count_of item ≡ item.stop - item.start + 1 = omega (arith, a, b) in
    let g =
      add_uids-Grown w _ item.start results out f.0 t.0 t.1 (omega (arith, t.2, a, behind))
        (omega (arith, a, b, behind)) t.4 in
    (g.0, omega (arith, g.1, count, behind, t.3, f.1))

failed_stays :
    (w : Window) (limit : ℕ) (items : List Range) (code : Code)
    → add_ranges w limit items (failed code) ≡ failed code
unfolding add_ranges
failed_stays w limit items code = refl

add_ranges-next :
    (w : Window) (limit : ℕ) (items : List Range) (out : List ℕ) (r : Result (List ℕ))
    → ((us : List ℕ)
        → Fits w limit us
        → add_ranges w limit items (done us) ≡ done out
        → Fits w limit out)
    → ((us : List ℕ) → r ≡ done us → Fits w limit us)
    → add_ranges w limit items r ≡ done out
    → Fits w limit out
add_ranges-next w limit items out (failed code) rest f h =
    absurd (cc (failed_stays w limit items code, h))
add_ranges-next w limit items out (done us) rest f h = rest us (f us refl) h

add_ranges-Fits :
    (w : Window) (limit : ℕ) (items : List Range) (results out : List ℕ)
    → AreWords items
    → Fits w limit results
    → add_ranges w limit items (done results) ≡ done out
    → Fits w limit out
unfolding add_ranges
add_ranges-Fits w limit [] results out a f h = subst (Fits w limit) (done-injective h) f
add_ranges-Fits w limit (item ∷ items) results out a f h =
    add_ranges-next w limit items out (add_range w limit results item)
      (λ us g e. add_ranges-Fits w limit items us out a.2 g e)
      (λ us e. add_range-Fits w limit results item us a.0 a.1 f e) h

-- If the UIDs of a decoded SEARCH answer are accepted, its items being 32 bits wide and in order, then no UID stands twice, all are inside the window and not zero, and they are no
-- more than the limit.
pub bounded_search_uids-Fits :
    (items : Option (List Range)) (w : Window) (limit : ℕ) (out : List ℕ)
    → ((l : List Range) → items ≡ some l → AreWords l)
    → bounded_search_uids items w limit ≡ done out
    → AreDistinctIn w out × (length out ≤ limit)
unfolding bounded_search_uids times
bounded_search_uids-Fits none w limit out a h = absurd (cc h)
bounded_search_uids-Fits (some items) w limit out a h =
    add_ranges-Fits w limit items [] out (a items refl) (((λ u. omega arith), tt), omega arith) h
