-- ===== src/Threads/Reach.antt =====
-- A chain of parents among so many messages has fewer links than there are messages.
use croton_mcp.Base.{
  ℕ, zero, suc, ◌≤◌, ◌<◌, false, some, List, [], ◌∷◌, ◌==◌, if◌then◌else◌, length, ◌≡◌, refl, ap,
  subst, arith, of_both, of_branches,
}
use croton_mcp.Threads.Links.{Parents}
use croton_mcp.Threads.Rooted.{Rooted, apart}

abbrev Avoids : ℕ → List ℕ → Type 0
Avoids u [] = Unit
Avoids u (v ∷ vs) = (v == u ≡ false) × Avoids u vs

abbrev AreDistinct : List ℕ → Type 0
AreDistinct [] = Unit
AreDistinct (u ∷ us) = Avoids u us × AreDistinct us

abbrev AreBelow : ℕ → List ℕ → Type 0
AreBelow n [] = Unit
AreBelow n (u ∷ us) = (u < n) × AreBelow n us

unfoldable without : ℕ → List ℕ → List ℕ
without n [] = []
without n (u ∷ us) = let rest = without n us in if u == n then us else u ∷ rest

length-without : (n : ℕ) (us : List ℕ) → length us ≤ suc (length (without n us))
unfolding without
length-without n [] = omega arith
length-without n (u ∷ us) =
    of_both (λ (l : List ℕ). suc (length us) ≤ suc (length l)) (u == n) us (u ∷ without n us)
      (omega arith) (omega (arith, length-without n us))

Avoids-without : (n v : ℕ) (us : List ℕ) → Avoids v us → Avoids v (without n us)
unfolding without
Avoids-without n v [] a = tt
Avoids-without n v (u ∷ us) a =
    of_both (Avoids v) (u == n) us (u ∷ without n us) a.1 (a.0, Avoids-without n v us a.1)

AreDistinct-without : (n : ℕ) (us : List ℕ) → AreDistinct us → AreDistinct (without n us)
unfolding without
AreDistinct-without n [] a = tt
AreDistinct-without n (u ∷ us) a =
    of_both AreDistinct (u == n) us (u ∷ without n us) a.1
      (Avoids-without n u us a.0, AreDistinct-without n us a.1)

AreBelow-avoid : (n : ℕ) (us : List ℕ) → Avoids n us → AreBelow (suc n) us → AreBelow n us
AreBelow-avoid n [] a b = tt
AreBelow-avoid n (u ∷ us) a b = (ground (arith, a.0, b.0), AreBelow-avoid n us a.1 b.1)

AreBelow-without :
    (n : ℕ) (us : List ℕ) → AreDistinct us → AreBelow (suc n) us → AreBelow n (without n us)
unfolding without
AreBelow-without n [] d b = tt
AreBelow-without n (u ∷ us) d b =
    of_branches (AreBelow n) (u == n) us (u ∷ without n us)
      (λ e.
        let same : u ≡ n = ground (arith, e) in
        AreBelow-avoid n us (subst (λ v. Avoids v us) same d.0) b.1)
      (λ e. (ground (arith, e, b.0), AreBelow-without n us d.1 b.1))

-- Distinct numbers below a bound are no more than the bound.
length-distinct : (n : ℕ) (us : List ℕ) → AreDistinct us → AreBelow n us → length us ≤ n
length-distinct zero [] d b = omega arith
length-distinct zero (u ∷ us) d b = absurd (omega (arith, b.0))
length-distinct (suc n) us d b =
    let rest =
      length-distinct n (without n us) (AreDistinct-without n us d) (AreBelow-without n us d b) in
    omega (arith, rest, length-without n us)

-- The messages of a chain.
abbrev chain : (parents : Parents) (d i : ℕ) → Rooted parents d i → List ℕ
chain parents zero i r = i ∷ []
chain parents (suc d) i r = i ∷ chain parents d r.0 r.2

chain-Avoids :
    (parents : Parents) (e k d i : ℕ) (r : Rooted parents d i)
    → Rooted parents e k
    → d < e
    → Avoids k (chain parents d i r)
chain-Avoids parents e k zero i r at l = (apart parents k e zero i at l r, tt)
chain-Avoids parents e k (suc d) i r at l =
    (apart parents k e (suc d) i at l r, chain-Avoids parents e k d r.0 r.2 at (omega (arith, l)))

chain-AreDistinct :
    (parents : Parents) (d i : ℕ) (r : Rooted parents d i) → AreDistinct (chain parents d i r)
chain-AreDistinct parents zero i r = (tt, tt)
chain-AreDistinct parents (suc d) i r =
    (chain-Avoids parents (suc d) i d r.0 r.2 r (omega arith), chain-AreDistinct parents d r.0 r.2)

-- Parents are among the messages.
abbrev pub AreParentsBelow : ℕ → Parents → Type 0
AreParentsBelow n parents = (i p : ℕ) → parents i ≡ some p → p < n

chain-AreBelow :
    (n : ℕ) (parents : Parents) (d i : ℕ) (r : Rooted parents d i)
    → AreParentsBelow n parents
    → i < n
    → AreBelow n (chain parents d i r)
chain-AreBelow n parents zero i r a l = (l, tt)
chain-AreBelow n parents (suc d) i r a l = (l, chain-AreBelow n parents d r.0 r.2 a (a i r.0 r.1))

length-chain :
    (parents : Parents) (d i : ℕ) (r : Rooted parents d i) → length (chain parents d i r) ≡ suc d
length-chain parents zero i r = refl
length-chain parents (suc d) i r = ap suc (length-chain parents d r.0 r.2)

pub Rooted-bound :
    (n : ℕ) (parents : Parents) (d i : ℕ)
    → AreParentsBelow n parents
    → i < n
    → Rooted parents d i
    → d < n
Rooted-bound n parents d i a l r =
    let most =
      length-distinct n (chain parents d i r) (chain-AreDistinct parents d i r)
        (chain-AreBelow n parents d i r a l) in
    omega (arith, most, length-chain parents d i r)
