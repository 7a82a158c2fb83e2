-- ===== src/Threads/Forest.antt =====
-- The links of a thread form a forest: every chain of parents ends.
use croton_mcp.Base.{
  ℕ, zero, suc, ◌+◌, ◌≤◌, ◌<◌, true, inl, inr, Option, none, some, List, [], ◌∷◌, ◌==◌, length, ◌≡◌,
  refl, sym, subst, ◌∙◌, arith, of_both,
}
use croton_mcp.Threads.Candidates.{
  IsBelow, AreIndices, parent_for-IsBelow, identifiers_from-AreIndices,
}
use croton_mcp.Threads.Cycles.{would_cycle-Judged, would_cycle-top}
use croton_mcp.Threads.Links.{
  ThreadMessage, Identifiers, identifiers_from, parent_for, Parents, put, would_cycle, Linked,
  unlinked, link_parent, link_message, link_messages, link_thread,
}
use croton_mcp.Threads.Reach.{AreParentsBelow, Rooted-bound}
use croton_mcp.Threads.Rooted.{Rooted, put-same, put-other, AllRooted-put}

-- Every parent is one of the messages, every chain of parents ends, and no message from an index on
-- has a parent yet.
pub record IsForest (n index : ℕ) (parents : Parents) : Type 0 where
  pub below : AreParentsBelow n parents
  pub rooted : (i : ℕ) → (d : ℕ) × Rooted parents d i
  pub fresh : (i : ℕ) → index ≤ i → parents i ≡ none

IsBelow-some : (n p : ℕ) (o : Option ℕ) → IsBelow n o → o ≡ some p → p < n
IsBelow-some n p none b e = absurd (cc e)
IsBelow-some n p (some q) b e = let same : q ≡ p = cc e in subst (λ r. r < n) same b

pub AreParentsBelow-put :
    (n k : ℕ) (v : Option ℕ) (parents : Parents)
    → IsBelow n v
    → AreParentsBelow n parents
    → AreParentsBelow n (put k v parents)
AreParentsBelow-put n k v parents b a = λ i p.
    of_both (λ (o : Option ℕ). o ≡ some p → p < n) (i == k) v (parents i) (IsBelow-some n p v b)
      (a i p)

-- An assignment after which the message's own chain ends.
pub IsForest-put :
    (n index : ℕ) (v : Option ℕ) (parents : Parents)
    → IsForest n index parents
    → IsBelow n v
    → ((d : ℕ) × Rooted (put index v parents) d index)
    → IsForest n (suc index) (put index v parents)
IsForest-put n index v parents f b r = record {
  below = AreParentsBelow-put n index v parents b f.below;
  rooted = λ i. let old = f.rooted i in AllRooted-put parents index v r old.0 i old.1;
  fresh = λ i l. put-other index i v parents (ground (arith, l)) ∙ f.fresh i (omega (arith, l));
}

IsForest-root :
    (n index : ℕ) (parents : Parents)
    → IsForest n index parents
    → IsForest n (suc index) (put index none parents)
IsForest-root n index parents f =
    IsForest-put n index none parents f tt (0, put-same index none parents)

abbrev Kept : ℕ → ℕ → Linked → Type 0
Kept n index l = IsForest n index l.parents × (l.is_told ≡ true)

link_parent-Kept :
    (n index fuel p : ℕ) (l : Linked)
    → n + 2 ≤ fuel
    → Kept n index l
    → p < n
    → Kept n (suc index) (
        link_parent index
          (some p)
          (would_cycle fuel index (some p) (put index (some p) l.parents))
          l)
link_parent-Kept n index fuel p l e k b =
    let f = k.0 in
    let r = f.rooted p in
    let few = Rooted-bound n l.parents r.0 p f.below b r.1 in
    elim (would_cycle-Judged fuel index (some p) l.parents r.0 p (omega (arith, few, e)) r.1) [
      | inl c ↦
          subst (λ v. Kept n (suc index) (link_parent index (some p) v l)) (sym c)
            (IsForest-root n index l.parents f, k.1)
      | inr j ↦
          subst (λ v. Kept n (suc index) (link_parent index (some p) v l)) (sym j.0)
            (
              IsForest-put n index (some p) l.parents f b
                  (suc r.0, (p, put-same index (some p) l.parents, j.1)),
              k.1,
            )
    ]

link_none-Kept :
    (n index fuel : ℕ) (l : Linked)
    → 1 ≤ fuel
    → Kept n index l
    → Kept n
        (suc index)
        (link_parent index none (would_cycle fuel index none (put index none l.parents)) l)
link_none-Kept n index zero l e k = absurd (omega (arith, e))
link_none-Kept n index (suc fuel) l e k =
    subst (λ v. Kept n (suc index) (link_parent index none v l))
      (sym (would_cycle-top fuel index (put index none l.parents)))
      (IsForest-root n index l.parents k.0, k.1)

link_any-Kept :
    (n index fuel : ℕ) (o : Option ℕ) (l : Linked)
    → n + 2 ≤ fuel
    → Kept n index l
    → IsBelow n o
    → Kept n (suc index) (link_parent index o (would_cycle fuel index o (put index o l.parents)) l)
link_any-Kept n index fuel none l e k b = link_none-Kept n index fuel l (omega (arith, e)) k
link_any-Kept n index fuel (some p) l e k b = link_parent-Kept n index fuel p l e k b

link_message-Kept :
    (n index fuel references : ℕ) (m : ThreadMessage) (ids : Identifiers) (l : Linked)
    → n + 2 ≤ fuel
    → AreIndices n ids
    → Kept n index l
    → Kept n (suc index) (link_message fuel references index m ids l)
unfolding link_message
link_message-Kept n index fuel references m ids l e a k =
    let f = parent_for m ids references l.is_cut in
    link_any-Kept n index fuel f.parent
      (record l { missing = put index f.missing l.missing; is_cut = f.is_truncated }) e k
      (parent_for-IsBelow n m ids references l.is_cut a)

link_messages-Kept :
    (n index fuel references : ℕ) (ms : List ThreadMessage) (ids : Identifiers) (l : Linked)
    → n + 2 ≤ fuel
    → AreIndices n ids
    → Kept n index l
    → Kept n (index + length ms) (link_messages fuel references index ms ids l)
unfolding link_messages
link_messages-Kept n index fuel references [] ids l e a k = subst (λ j. Kept n j l) (omega arith) k
link_messages-Kept n index fuel references (m ∷ ms) ids l e a k =
    subst
      (λ j. Kept n j (
        link_messages fuel references (suc index) ms ids
          (link_message fuel references index m ids l)))
      (omega arith)
      (link_messages-Kept n (suc index) fuel references ms ids
        (link_message fuel references index m ids l) e a
        (link_message-Kept n index fuel references m ids l e a k))

unlinked-Kept : (n : ℕ) → Kept n 0 unlinked
unlinked-Kept n =
    (record { below = λ i p e. absurd (cc e); rooted = λ i. (0, refl); fresh = λ i l. refl }, refl)

-- However the messages refer to each other, the loop that links them ends within its fuel, every
-- parent is one of the messages, and every chain of parents ends.
pub link_thread-IsForest :
    (references : ℕ) (ordered : List ThreadMessage)
    → IsForest (length ordered) (length ordered) (link_thread references ordered).parents
      × ((link_thread references ordered).is_told ≡ true)
unfolding link_thread
link_thread-IsForest references ordered =
    let n = length ordered in
    let kept =
      link_messages-Kept n 0 (suc (suc n)) references ordered (identifiers_from 0 ordered [])
        unlinked (omega arith) (identifiers_from-AreIndices n 0 ordered [] (omega arith) tt)
        (unlinked-Kept n) in
    (
      subst
          (λ j.
            IsForest n j
              (link_messages (suc (suc n)) references 0 ordered (identifiers_from 0 ordered [])
                unlinked).parents)
          (omega arith) kept.0,
      kept.1,
    )
