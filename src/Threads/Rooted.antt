-- ===== src/Threads/Rooted.antt =====
-- Chains of parents that end, and how long they can be.
use croton_mcp.Base.{
  ℕ, zero, suc, ◌<◌, true, false, Bool-cases, inl, inr, Option, none, some, ◌==◌, ◌≡◌, refl, sym,
  ap, subst, ◌∙◌, arith,
}
use croton_mcp.Threads.Links.{Parents, put}

-- The chain of parents from a message ends after so many steps.
abbrev pub Rooted : Parents → ℕ → ℕ → Type 0
Rooted parents zero i = parents i ≡ none
Rooted parents (suc d) i = (p : ℕ) × (parents i ≡ some p) × Rooted parents d p

some-injective : {x y : ℕ} → some x ≡ some y → x ≡ y
some-injective e = cc e

pub Rooted-unique :
    (parents : Parents) (d e i : ℕ) → Rooted parents d i → Rooted parents e i → d ≡ e
Rooted-unique parents zero zero i r s = refl
Rooted-unique parents zero (suc e) i r (q, f, s) = absurd (cc (r, f))
Rooted-unique parents (suc d) zero i (p, e, r) s = absurd (cc (e, s))
Rooted-unique parents (suc d) (suc e) i (p, f, r) (q, g, s) =
    let same : p ≡ q = some-injective (sym f ∙ g) in
    ap suc (Rooted-unique parents d e p r (subst (Rooted parents e) (sym same) s))

pub put-same : {A : Type 0} (index : ℕ) (v : A) (slice : ℕ → A) → put index v slice index ≡ v
put-same index v slice = let same : (index == index) ≡ true = ground arith in rw same refl

pub put-other :
    {A : Type 0} (index i : ℕ) (v : A) (slice : ℕ → A)
    → (i == index) ≡ false
    → put index v slice i ≡ slice i
put-other index i v slice e = rw e refl

-- Two messages at different distances are not the same.
pub apart :
    (parents : Parents) (k e d i : ℕ)
    → Rooted parents e k
    → d < e
    → Rooted parents d i
    → (i == k) ≡ false
apart parents k e d i at l r = elim (Bool-cases (i == k)) [
  | inl f ↦
      (let same : i ≡ k = ground (arith, f) in
        let equal : d ≡ e = Rooted-unique parents d e k (subst (Rooted parents d) same r) at in
        absurd (omega (arith, l, equal)))
  | inr f ↦ f
]

AllRooted-here :
    (parents : Parents) (k : ℕ) (v : Option ℕ)
    → ((d : ℕ) × Rooted (put k v parents) d k)
    → (i : ℕ) → (i == k) ≡ true
    → (e : ℕ) × Rooted (put k v parents) e i
AllRooted-here parents k v at i e =
    let same : i ≡ k = ground (arith, e) in
    (at.0, subst (Rooted (put k v parents) at.0) (sym same) at.1)

-- An assignment to a message with another distance leaves a shorter chain as it is.
pub Rooted-put :
    (parents : Parents) (k e : ℕ) (v : Option ℕ) (d i : ℕ)
    → Rooted parents e k
    → d < e
    → Rooted parents d i
    → Rooted (put k v parents) d i
Rooted-put parents k e v zero i at l r =
    put-other k i v parents (apart parents k e zero i at l r) ∙ r
Rooted-put parents k e v (suc d) i at l r = (
  r.0,
  put-other k i v parents (apart parents k e (suc d) i at l r) ∙ r.1,
  Rooted-put parents k e v d r.0 at (omega (arith, l)) r.2,
)

-- If every chain ended before, and that from the assigned message ends now, then every chain ends.
pub AllRooted-put :
    (parents : Parents) (k : ℕ) (v : Option ℕ)
    → ((d : ℕ) × Rooted (put k v parents) d k)
    → (d i : ℕ) → Rooted parents d i
    → (e : ℕ) × Rooted (put k v parents) e i
AllRooted-put parents k v at zero i r = elim (Bool-cases (i == k)) [
  | inl e ↦ AllRooted-here parents k v at i e
  | inr e ↦ (0, put-other k i v parents e ∙ r)
]
AllRooted-put parents k v at (suc d) i r = elim (Bool-cases (i == k)) [
  | inl e ↦ AllRooted-here parents k v at i e
  | inr e ↦
      (let up = AllRooted-put parents k v at d r.0 r.2 in
        (suc up.0, (r.0, put-other k i v parents e ∙ r.1, up.1)))
]
