-- ===== src/Threads/Cycles.antt =====
-- The test for a cycle, along a chain that ended before the link.
use croton_mcp.Base.{
  ℕ, zero, suc, ◌+◌, ◌≤◌, true, false, Bool-cases, ◌⊎◌, inl, inr, Option, none, some, ◌==◌, ◌≡◌,
  refl, ap, ◌∙◌, arith,
}
use croton_mcp.Threads.Links.{Parents, put, cycles, ends, would_cycle}
use croton_mcp.Threads.Rooted.{Rooted, put-other}

-- Either the chain comes to the child, or it ends without it.
abbrev pub Judged : ℕ → ℕ → Option ℕ → Parents → ℕ → ℕ → Type 0
Judged fuel child v parents d p =
    (would_cycle fuel child (some p) (put child v parents) ≡ cycles)
    ⊎ ((would_cycle fuel child (some p) (put child v parents) ≡ ends)
        × Rooted (put child v parents) d p)

would_cycle-here :
    (fuel child p : ℕ) (parents : Parents)
    → (p == child) ≡ true
    → would_cycle (suc fuel) child (some p) parents ≡ cycles
unfolding would_cycle
would_cycle-here fuel child p parents e = rw e refl

would_cycle-on :
    (fuel child p : ℕ) (parents : Parents)
    → (p == child) ≡ false
    → would_cycle (suc fuel) child (some p) parents ≡ would_cycle fuel child (parents p) parents
unfolding would_cycle
would_cycle-on fuel child p parents e = rw e refl

pub would_cycle-top :
    (fuel child : ℕ) (parents : Parents) → would_cycle (suc fuel) child none parents ≡ ends
unfolding would_cycle
would_cycle-top fuel child parents = refl

pub would_cycle-Judged :
    (fuel child : ℕ) (v : Option ℕ) (parents : Parents) (d p : ℕ)
    → d + 2 ≤ fuel
    → Rooted parents d p
    → Judged fuel child v parents d p
would_cycle-Judged zero child v parents d p l r = absurd (omega (arith, l))
would_cycle-Judged (suc zero) child v parents d p l r = absurd (omega (arith, l))
would_cycle-Judged (suc (suc fuel)) child v parents zero p l r = elim (Bool-cases (p == child)) [
  | inl e ↦ inl (would_cycle-here (suc fuel) child p (put child v parents) e)
  | inr e ↦
      (let top = put-other child p v parents e ∙ r in
        inr (
          would_cycle-on (suc fuel) child p (put child v parents) e
              ∙ ap (λ o. would_cycle (suc fuel) child o (put child v parents)) top
              ∙ would_cycle-top fuel child (put child v parents),
          top,
        ))
]
would_cycle-Judged (suc (suc fuel)) child v parents (suc d) p l r = elim (Bool-cases (p == child)) [
  | inl e ↦ inl (would_cycle-here (suc fuel) child p (put child v parents) e)
  | inr e ↦
      (let up = put-other child p v parents e ∙ r.1 in
        let next =
          would_cycle-on (suc fuel) child p (put child v parents) e
          ∙ ap (λ o. would_cycle (suc fuel) child o (put child v parents)) up in
        elim (would_cycle-Judged (suc fuel) child v parents d r.0 (omega (arith, l)) r.2) [
          | inl c ↦ inl (next ∙ c)
          | inr k ↦ inr (next ∙ k.0, (r.0, up, k.1))
        ])
]
