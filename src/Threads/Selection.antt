-- ===== src/Threads/Selection.antt =====
-- What the heap keeps: the earliest of the messages it has been given, and what was put aside.
use croton_mcp.Base.{
  ℕ, suc, ◌+◌, ◌≤◌, ◌<◌, Bool, true, false, inl, inr, List, [], ◌∷◌, ◌++◌, append-nil, append_assoc,
  ltb, length, length-append, ◌≡◌, refl, sym, ap, subst, ◌∙◌, arith, of_branches,
}
use mathlib.Core.Bool.{Bool-set}
use mathlib.Core.Logic.{∥∥₁_elim}
use mathlib.Core.Logic.Or
use mathlib.Core.List.{
  Perm, Permᴰ, Mem, perm_middle, not-mem-nil, eq-or-mem_of_mem-cons, mem-cons_of_mem, mem-cons_self,
}
use mathlib.Core.List.Perm
use native.Mathlib.Nat.{ℕ_set}
use croton_mcp.Threads.Ascending.{IsWeakOrder, true-false}
use croton_mcp.Threads.Select.{
  IndexedMessage, thread_message_before, latest_first, Heap, push_value, replace_first, select_step,
  select_all,
}

-- What `container/heap` promises under an order: its functions lose no element and add none, keep the order of
-- the heap, and no element is less than the first.
pub record IsHeap (heap : Heap) (before : IndexedMessage → IndexedMessage → Bool) : Type 1 where
  pub IsOrdered : List IndexedMessage → Type 0
  pub empty : IsOrdered []
  pub first :
      (x : IndexedMessage) (xs : List IndexedMessage)
      → IsOrdered (x ∷ xs)
      → (y : IndexedMessage) → Mem y xs
      → before y x ≡ false
  pub up-IsOrdered :
      (xs : List IndexedMessage) (c : IndexedMessage)
      → IsOrdered xs
      → IsOrdered (heap.up before (xs ++ c ∷ []))
  pub up-Perm : (xs : List IndexedMessage) → Perm (heap.up before xs) xs
  pub fix_first-IsOrdered :
      (x c : IndexedMessage) (xs : List IndexedMessage)
      → IsOrdered (x ∷ xs)
      → IsOrdered (heap.fix_first before (c ∷ xs))
  pub fix_first-Perm : (xs : List IndexedMessage) → Perm (heap.fix_first before xs) xs

module _ {A : Type 0} where
  Permᴰ-length : {xs ys : List A} → Permᴰ xs ys → length xs ≡ length ys
  Permᴰ-length Permᴰ.nil = refl
  Permᴰ-length (Permᴰ.cons e p) = ap suc (Permᴰ-length p)
  Permᴰ-length (Permᴰ.swap e f) = refl
  Permᴰ-length (Permᴰ.trans p q) = Permᴰ-length p ∙ Permᴰ-length q

  pub Perm-length : {xs ys : List A} → Perm xs ys → length xs ≡ length ys
  Perm-length p = ∥∥₁_elim p (ℕ_set _ _) Permᴰ-length

  -- What fails of an element and of all others fails of all.
  pub fails_cons :
      (test : A → Bool) (x : A) (xs : List A)
      → test x ≡ false
      → ((y : A) → Mem y xs → test y ≡ false)
      → (y : A) → Mem y (x ∷ xs)
      → test y ≡ false
  fails_cons test x xs here there y m =
      Or.elim (Bool-set _ _) (eq-or-mem_of_mem-cons m) (λ e. ap test e ∙ here) (λ n. there y n)

-- No message of the first list is before one of the second.
abbrev pub NoneEarlier : List IndexedMessage → List IndexedMessage → Type 0
NoneEarlier rejected selected =
    (r : IndexedMessage)
    → Mem r rejected
    → (s : IndexedMessage) → Mem s selected
    → thread_message_before r s ≡ false

module _ (heap : Heap) (law : IsHeap heap latest_first) (order : IsWeakOrder thread_message_before)
    (limit : ℕ) where
  -- The selected messages, as a heap, with the rejected ones are all that were seen.
  pub record IsSelection (seen selected : List IndexedMessage) : Type 0 where
    pub rejected : List IndexedMessage
    pub ordered : law.IsOrdered selected
    pub whole : Perm (selected ++ rejected) seen
    pub earlier : NoneEarlier rejected selected
    pub few : length selected ≤ suc limit
    pub full : length selected ≤ limit → rejected ≡ []

  NoneEarlier-nil :
      (rejected selected : List IndexedMessage) → rejected ≡ [] → NoneEarlier rejected selected
  NoneEarlier-nil rejected selected e r m s n = absurd (not-mem-nil (subst (λ l. Mem r l) e m))

  later-false :
      (a b : IndexedMessage) → thread_message_before a b ≡ true → thread_message_before b a ≡ false
  later-false a b h =
      true-false (thread_message_before b a)
        (λ f. sym (order.irreflexive a) ∙ order.transitive a b a h f)

  -- Between two that it is not before, and that are not before another.
  neither-false :
      (a b c : IndexedMessage)
      → thread_message_before a b ≡ false
      → thread_message_before b c ≡ false
      → thread_message_before a c ≡ false
  neither-false a b c p q =
      true-false (thread_message_before a c)
        (λ f. elim (order.splits a b c f) [ inl g ↦ sym p ∙ g | inr g ↦ sym q ∙ g ])

  push-IsSelection :
      (seen selected : List IndexedMessage) (c : IndexedMessage)
      → length selected ≤ limit
      → IsSelection seen selected
      → IsSelection (c ∷ seen) (heap.up latest_first (push_value selected c))
  push-IsSelection seen selected c l k =
      let size : length (heap.up latest_first (selected ++ c ∷ [])) ≡ length selected + 1 =
        Perm-length (law.up-Perm (selected ++ c ∷ [])) ∙ length-append selected (c ∷ []) in
      record {
        rejected = k.rejected;
        ordered = law.up-IsOrdered selected c k.ordered;
        whole = Perm.trans (Perm.append (law.up-Perm (selected ++ c ∷ [])) (Perm.refl k.rejected)) (
            subst (λ x. Perm x (c ∷ seen)) (sym (append_assoc selected (c ∷ []) k.rejected))
              (Perm.trans (perm_middle selected k.rejected) (Perm.cons c k.whole)));
        earlier = NoneEarlier-nil k.rejected _ (k.full l);
        few = omega (arith, size, l);
        full = λ m. k.full l;
      }

  -- A candidate that is before the first takes its place.
  replaced-IsSelection :
      (seen xs : List IndexedMessage) (x c : IndexedMessage)
      → limit < length (x ∷ xs)
      → thread_message_before c x ≡ true
      → IsSelection seen (x ∷ xs)
      → IsSelection (c ∷ seen) (heap.fix_first latest_first (c ∷ xs))
  replaced-IsSelection seen xs x c l h k =
      let fixed = law.fix_first-Perm (c ∷ xs) in
      let same = Perm-length fixed in
      record {
        rejected = x ∷ k.rejected;
        ordered = law.fix_first-IsOrdered x c xs k.ordered;
        whole = Perm.trans (Perm.append fixed (Perm.refl (x ∷ k.rejected))) (
            Perm.trans (perm_middle (c ∷ xs) k.rejected)
              (Perm.trans (Perm.swap c x (xs ++ k.rejected)) (Perm.cons c k.whole)));
        earlier = λ r m s n.
            let inside : Mem s (c ∷ xs) = Perm.subset fixed s n in
            fails_cons (λ a. thread_message_before a s) x k.rejected
              (fails_cons (λ b. thread_message_before x b) c xs (later-false c x h)
                (law.first x xs k.ordered) s inside)
              (λ a p.
                fails_cons (λ b. thread_message_before a b) c xs
                  (neither-false a x c (k.earlier a p x mem-cons_self) (later-false c x h))
                  (λ b q. k.earlier a p b (mem-cons_of_mem x q)) s inside)
              r m;
        few = omega (arith, same, k.few);
        full = λ m. absurd (omega (arith, same, l, m));
      }

  -- Another is rejected.
  kept-IsSelection :
      (seen xs : List IndexedMessage) (x c : IndexedMessage)
      → limit < length (x ∷ xs)
      → thread_message_before c x ≡ false
      → IsSelection seen (x ∷ xs)
      → IsSelection (c ∷ seen) (x ∷ xs)
  kept-IsSelection seen xs x c l h k = record {
    rejected = c ∷ k.rejected;
    ordered = k.ordered;
    whole = Perm.trans (perm_middle (x ∷ xs) k.rejected) (Perm.cons c k.whole);
    earlier = λ r m s n.
        fails_cons (λ a. thread_message_before a s) c k.rejected
          (fails_cons (λ b. thread_message_before c b) x xs h
            (λ b q. neither-false c x b h (law.first x xs k.ordered b q)) s n)
          (λ a p. k.earlier a p s n) r m;
    few = k.few;
    full = λ m. absurd (omega (arith, l, m));
  }

  replace_first-IsSelection :
      (seen selected : List IndexedMessage) (c : IndexedMessage)
      → limit < length selected
      → IsSelection seen selected
      → IsSelection (c ∷ seen) (replace_first heap c selected)
  unfolding replace_first
  replace_first-IsSelection seen [] c l k = absurd (omega (arith, l))
  replace_first-IsSelection seen (x ∷ xs) c l k =
      of_branches (IsSelection (c ∷ seen)) (thread_message_before c x)
        (heap.fix_first latest_first (c ∷ xs)) (x ∷ xs)
        (λ h. replaced-IsSelection seen xs x c l h k) (λ h. kept-IsSelection seen xs x c l h k)

  select_step-IsSelection :
      (seen selected : List IndexedMessage) (c : IndexedMessage)
      → IsSelection seen selected
      → IsSelection (c ∷ seen) (select_step heap (suc limit) selected c)
  unfolding select_step
  select_step-IsSelection seen selected c k =
      of_branches (IsSelection (c ∷ seen)) (ltb (length selected) (suc limit))
        (heap.up latest_first (push_value selected c)) (replace_first heap c selected)
        (λ h. push-IsSelection seen selected c (ground (arith, h)) k)
        (λ h. replace_first-IsSelection seen selected c (ground (arith, h)) k)

  select_all-IsSelection :
      (seen selected cs : List IndexedMessage)
      → IsSelection seen selected
      → IsSelection (seen ++ cs) (select_all heap (suc limit) selected cs)
  unfolding select_all
  select_all-IsSelection seen selected [] k =
      subst (λ l. IsSelection l selected) (sym (append-nil seen)) k
  select_all-IsSelection seen selected (c ∷ cs) k =
      let rest =
        select_all-IsSelection (c ∷ seen) (select_step heap (suc limit) selected c) cs
          (select_step-IsSelection seen selected c k) in
      record {
        rejected = rest.rejected;
        ordered = rest.ordered;
        whole = Perm.trans rest.whole (Perm.symm (perm_middle seen cs));
        earlier = rest.earlier;
        few = rest.few;
        full = rest.full;
      }

  pub selected-IsSelection :
      (cs : List IndexedMessage) → IsSelection cs (select_all heap (suc limit) [] cs)
  selected-IsSelection cs = select_all-IsSelection [] [] cs (record {
    rejected = [];
    ordered = law.empty;
    whole = Perm.refl [];
    earlier = NoneEarlier-nil [] [] refl;
    few = omega arith;
    full = λ m. refl;
  })
