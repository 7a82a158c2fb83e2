-- ===== src/Wire/ESearchEnds.antt =====
-- The walk over an ESEARCH line ends on its fuel.
use croton_mcp.Base.{
  ℕ, zero, suc, ◌≤◌, ◌<◌, Bool, true, false, Option, none, some, List, [], ◌∷◌, Bytes, codes,
  length, ◌==◌, ◌≡◌, ◌≢◌, refl, arith, of_both,
}
use croton_mcp.Text.{equal_fold, is_empty, cut_prefix}
use croton_mcp.Wire.ESearch.{
  Walk, walked, untold, observing, next_name, behind_value, judge_all, spaced_value, walk_from,
  walk_names, walk_behind, esearch_all,
}
use croton_mcp.Wire.Grammar.{
  is_imap_atom_char, quote_byte, value_depth, value_ends, plain, Quoting, esearch_atom,
  esearch_value, value_from, behind_correlator,
}
use croton_mcp.Wire.Sets.{Interval, parse_set, intervals_overlap}
use croton_mcp.Wire.Spaces.{trim_space}

abbrev is_told : Walk → Bool
is_told untold = false
is_told _ = true

abbrev IsShorter : ℕ → Option Bytes → Type 0
IsShorter n none = Unit
IsShorter n (some s) = length s < n

IsShorter-le : {m n : ℕ} → m ≤ n → (o : Option Bytes) → IsShorter m o → IsShorter n o
IsShorter-le k none h = tt
IsShorter-le k (some s) h = omega (arith, k, h)

cut_prefix-IsShorter : (s : Bytes) → IsShorter (length s) (cut_prefix (codes " ") s)
unfolding cut_prefix
cut_prefix-IsShorter [] = tt
cut_prefix-IsShorter (c ∷ s) =
    of_both (λ (o : Option Bytes). IsShorter (suc (length s)) o) (c == b' ') _ _ (omega arith) tt

length-esearch_atom : (s : Bytes) → length (esearch_atom s).1 ≤ length s
unfolding esearch_atom
length-esearch_atom [] = omega arith
length-esearch_atom (c ∷ s) =
    let later : length (esearch_atom s).1 ≤ suc (length s) = omega (arith, length-esearch_atom s) in
    let here : length (c ∷ s) ≤ suc (length s) = omega arith in
    of_both (λ (r : Bytes × Bytes). length r.1 ≤ suc (length s)) (is_imap_atom_char c)
      (c ∷ (esearch_atom s).0, (esearch_atom s).1) ([], c ∷ s) later here

abbrev IsWithin : ℕ → Option (Bytes × Bytes) → Type 0
IsWithin n none = Unit
IsWithin n (some r) = length r.1 ≤ n

put-IsWithin :
    (c n : ℕ) (o : Option (Bytes × Bytes))
    → IsWithin n o
    → IsWithin (suc n) (elim o [ none ↦ none | some (v, after) ↦ some (c ∷ v, after) ])
put-IsWithin c n none h = tt
put-IsWithin c n (some r) h = omega (arith, h)

value_from-IsWithin :
    (q : Quoting) (depth : ℕ) (s : Bytes) → IsWithin (length s) (value_from q depth s)
unfolding value_from
value_from-IsWithin q depth [] = tt
value_from-IsWithin q depth (c ∷ s) =
    let here : length s ≤ suc (length s) = omega arith in
    let rest = value_from (quote_byte c q) (value_depth c q depth) s in
    let put = elim rest as (λ _. Option (Bytes × Bytes)) [
      | none ↦ none
      | some (v, after) ↦ some (c ∷ v, after)
    ] in
    of_both (λ (o : Option (Bytes × Bytes)). IsWithin (suc (length s)) o) (value_ends c q depth)
      (some (c ∷ [], s)) put here
      (put-IsWithin c (length s) rest
        (value_from-IsWithin (quote_byte c q) (value_depth c q depth) s))

or_empty-IsWithin :
    (s : Bytes) (o : Option (Bytes × Bytes))
    → IsWithin (length s) o
    → length (elim o as (λ _. Bytes × Bytes) [ none ↦ ([], s) | some r ↦ r ]).1 ≤ length s
or_empty-IsWithin s none h = omega arith
or_empty-IsWithin s (some r) h = h

length-esearch_value : (s : Bytes) → length (esearch_value s).1 ≤ length s
unfolding esearch_value
length-esearch_value [] = omega arith
length-esearch_value (c ∷ s) =
    of_both (λ (r : Bytes × Bytes). length r.1 ≤ suc (length s)) _ _ _ (length-esearch_atom (c ∷ s))
      (or_empty-IsWithin (c ∷ s) (value_from plain 0 (c ∷ s)) (value_from-IsWithin plain 0 (c ∷ s)))

module _ (n : ℕ) (next : Bytes → Bytes → Walk)
    (h : (name rest : Bytes) → length rest < n → is_told (next name rest) ≡ true) where
  next_name-is_told : (o : Option Bytes) → IsShorter n o → is_told (next_name next o) ≡ true
  next_name-is_told none k = refl
  next_name-is_told (some rest) k = h _ _ (omega (arith, k, length-esearch_atom rest))

  behind_value-is_told :
      (after : Bytes) → length after ≤ n → is_told (behind_value next after) ≡ true
  behind_value-is_told [] k = refl
  behind_value-is_told (c ∷ s) k =
      next_name-is_told _
        (IsShorter-le k (cut_prefix (codes " ") (c ∷ s)) (cut_prefix-IsShorter (c ∷ s)))

  observing-is_told :
      (is : List Interval) (w : Walk) → is_told w ≡ true → is_told (observing is w) ≡ true
  observing-is_told is (walked js overlaps complete) e = refl
  observing-is_told is untold e = e

  judge_all-is_told :
      (o : Option (List Interval)) (after : Bytes)
      → length after ≤ n
      → is_told (judge_all next o after) ≡ true
  judge_all-is_told none after k = refl
  judge_all-is_told (some is) after k = observing-is_told is _ (
      of_both (λ (w : Walk). is_told w ≡ true) (intervals_overlap is) _ _ refl
        (behind_value-is_told after k))

  spaced_value-is_told :
      (name : Bytes) (o : Option Bytes)
      → IsShorter (suc n) o
      → is_told (spaced_value next name o) ≡ true
  spaced_value-is_told name none k = refl
  spaced_value-is_told name (some rest) k =
      let after : length (esearch_value rest).1 ≤ n = omega (arith, k, length-esearch_value rest) in
      of_both (λ (w : Walk). is_told w ≡ true) (is_empty (esearch_value rest).0) _ _ refl
        (of_both (λ (w : Walk). is_told w ≡ true) (equal_fold name (codes "ALL")) _ _
          (judge_all-is_told (parse_set (esearch_value rest).0) (esearch_value rest).1 after)
          (behind_value-is_told (esearch_value rest).1 after))

walk_from-is_told :
    (fuel : ℕ) (name rest : Bytes) → length rest < fuel → is_told (walk_from fuel name rest) ≡ true
unfolding walk_from
walk_from-is_told fuel [] rest k = refl
walk_from-is_told zero (c ∷ name) rest k = absurd (ground (arith, k))
walk_from-is_told (suc fuel) (c ∷ name) rest k =
    spaced_value-is_told fuel (walk_from fuel) (walk_from-is_told fuel) (c ∷ name) _
      (IsShorter-le (omega (arith, k)) (cut_prefix (codes " ") rest) (cut_prefix-IsShorter rest))

walk_behind-is_told : (o : Option Bytes) → is_told (walk_behind o) ≡ true
walk_behind-is_told none = refl
walk_behind-is_told (some rest) = walk_from-is_told _ _ _ (omega arith)

started-is_told :
    (trimmed : Bytes) (o : Option Bytes)
    → is_told (elim o as (λ _. Walk) [
      | some inside ↦ walk_behind (behind_correlator plain inside)
      | none ↦ walk_names trimmed
    ])
      ≡ true
started-is_told trimmed none = walk_from-is_told _ _ _ (omega arith)
started-is_told trimmed (some inside) = walk_behind-is_told (behind_correlator plain inside)

told_apart : (w : Walk) → is_told w ≡ true → w ≢ untold
told_apart (walked is overlaps complete) e f = cc f
told_apart untold e f = absurd (ground (arith, e))

-- Whatever the line, the walk over it comes to a verdict within its fuel.
pub esearch_all-told : (rest : Bytes) → esearch_all rest ≢ untold
unfolding esearch_all
esearch_all-told rest =
    told_apart _ (started-is_told (trim_space rest) (cut_prefix (codes "(") (trim_space rest)))
