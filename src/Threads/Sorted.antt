-- ===== src/Threads/Sorted.antt =====
-- The sort of all messages loses none and adds none.
use croton_mcp.Base.{Bool, List, [], ◌∷◌, ◌++◌, append-nil, sym, subst, of_both}
use mathlib.Core.List.{Perm, perm_middle}
use mathlib.Core.List.Perm
use croton_mcp.Threads.Select.{insert_by, sort_all}

module _ {A : Type 0} (before : A → A → Bool) where
  insert_by-Perm : (c : A) (l : List A) → Perm (insert_by before c l) (c ∷ l)
  unfolding insert_by
  insert_by-Perm c [] = Perm.refl (c ∷ [])
  insert_by-Perm c (x ∷ xs) =
      of_both (λ l. Perm l (c ∷ x ∷ xs)) (before c x) (c ∷ x ∷ xs) (x ∷ insert_by before c xs)
        (Perm.refl (c ∷ x ∷ xs)) (Perm.trans (Perm.cons x (insert_by-Perm c xs)) (Perm.swap c x xs))

  pub sort_all-Perm : (sorted l : List A) → Perm (sort_all before sorted l) (sorted ++ l)
  unfolding sort_all
  sort_all-Perm sorted [] = subst (Perm sorted) (sym (append-nil sorted)) (Perm.refl sorted)
  sort_all-Perm sorted (c ∷ cs) = Perm.trans (sort_all-Perm (insert_by before c sorted) cs) (
      Perm.trans (Perm.append (insert_by-Perm c sorted) (Perm.refl cs))
        (Perm.symm (perm_middle sorted cs)))
