-- ===== src/Threads/Ascending.antt =====
-- The sort of a list ascends.
use croton_mcp.Base.{
  Bool, true, false, ◌⊎◌, List, [], ◌∷◌, ◌≡◌, refl, sym, ◌∙◌, of_both, of_branches,
}
use croton_mcp.Threads.Select.{insert_by, sort_all}

-- A strict order, in which what is between two has to be on one side of any third.
pub record IsWeakOrder {A : Type 0} (before : A → A → Bool) : Type 0 where
  pub irreflexive : (a : A) → before a a ≡ false
  pub transitive : (a b c : A) → before a b ≡ true → before b c ≡ true → before a c ≡ true
  pub splits : (a b c : A) → before a c ≡ true → (before a b ≡ true) ⊎ (before b c ≡ true)

pub true-false : (b : Bool) → (b ≡ true → false ≡ true) → b ≡ false
true-false true h = absurd (cc (h refl))
true-false false h = refl

module _ {A : Type 0} (before : A → A → Bool) where
  -- None of a list is before an element.
  abbrev pub NoneBefore : A → List A → Type 0
  NoneBefore x [] = Unit
  NoneBefore x (y ∷ ys) = (before y x ≡ false) × NoneBefore x ys

  abbrev pub IsAscending : List A → Type 0
  IsAscending [] = Unit
  IsAscending (x ∷ xs) = NoneBefore x xs × IsAscending xs

  NoneBefore-insert_by :
      (x c : A) (xs : List A)
      → before c x ≡ false
      → NoneBefore x xs
      → NoneBefore x (insert_by before c xs)
  unfolding insert_by
  NoneBefore-insert_by x c [] h n = (h, tt)
  NoneBefore-insert_by x c (y ∷ ys) h n =
      of_both (NoneBefore x) (before c y) (c ∷ y ∷ ys) (y ∷ insert_by before c ys) (h, n)
        (n.0, NoneBefore-insert_by x c ys h n.1)

  module _ (order : IsWeakOrder before) where
    NoneBefore-later :
        (c x : A) (xs : List A) → before c x ≡ true → NoneBefore x xs → NoneBefore c xs
    NoneBefore-later c x [] h n = tt
    NoneBefore-later c x (y ∷ ys) h n = (
      true-false (before y c) (λ e. sym n.0 ∙ order.transitive y c x e h),
      NoneBefore-later c x ys h n.1,
    )

    IsAscending-insert_by :
        (c : A) (xs : List A) → IsAscending xs → IsAscending (insert_by before c xs)
    unfolding insert_by
    IsAscending-insert_by c [] h = (tt, tt)
    IsAscending-insert_by c (x ∷ xs) h =
        of_branches IsAscending (before c x) (c ∷ x ∷ xs) (x ∷ insert_by before c xs)
          (λ e. (
            (
              true-false (before x c) (λ f. sym (order.irreflexive x) ∙ order.transitive x c x f e),
              NoneBefore-later c x xs e h.0,
            ),
            h,
          ))
          (λ e. (NoneBefore-insert_by x c xs e h.0, IsAscending-insert_by c xs h.1))

    pub sort_all-IsAscending :
        (xs cs : List A) → IsAscending xs → IsAscending (sort_all before xs cs)
    unfolding sort_all
    sort_all-IsAscending xs [] h = h
    sort_all-IsAscending xs (c ∷ cs) h =
        sort_all-IsAscending (insert_by before c xs) cs (IsAscending-insert_by c xs h)
