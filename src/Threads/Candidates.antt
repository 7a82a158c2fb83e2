-- ===== src/Threads/Candidates.antt =====
-- The parent that is found for a message is one of the messages.
use croton_mcp.Base.{
  ℕ, suc, ◌+◌, ◌-◌, ◌≤◌, ◌<◌, Bool, true, ◌||◌, Option, none, some, List, [], ◌∷◌, ◌++◌, ltb, Bytes,
  length, drop, arith, of_both,
}
use croton_mcp.Text.{equal, is_empty}
use croton_mcp.Threads.Links.{
  ThreadMessage, Identifiers, find_identifier, is_known, identifiers_from, ParentFor, last_known,
  last_reference, found_or, parent_behind, parent_of_references, parent_for,
}

abbrev pub IsBelow : ℕ → Option ℕ → Type 0
IsBelow n none = Unit
IsBelow n (some p) = p < n

abbrev pub AreIndices : ℕ → Identifiers → Type 0
AreIndices n [] = Unit
AreIndices n ((id, index) ∷ ids) = (index < n) × AreIndices n ids

find_identifier-IsBelow :
    (n : ℕ) (id : Bytes) (ids : Identifiers) → AreIndices n ids → IsBelow n (find_identifier id ids)
unfolding find_identifier
find_identifier-IsBelow n id [] a = tt
find_identifier-IsBelow n id ((other, index) ∷ ids) a =
    of_both (IsBelow n) (equal other id) (some index) (find_identifier id ids) a.0
      (find_identifier-IsBelow n id ids a.1)

last_known-next :
    (n : ℕ) (r : Bytes) (ids : Identifiers) (o : Option ℕ)
    → AreIndices n ids
    → IsBelow n o
    → IsBelow n
        (elim o as (λ _. Option ℕ) [ some index ↦ some index | none ↦ find_identifier r ids ])
last_known-next n r ids none a b = find_identifier-IsBelow n r ids a
last_known-next n r ids (some index) a b = b

last_known-IsBelow :
    (n : ℕ) (rs : List Bytes) (ids : Identifiers) → AreIndices n ids → IsBelow n (last_known rs ids)
unfolding last_known
last_known-IsBelow n [] ids a = tt
last_known-IsBelow n (r ∷ rs) ids a =
    last_known-next n r ids (last_known rs ids) a (last_known-IsBelow n rs ids a)

found_or-IsBelow :
    (n : ℕ) (o : Option ℕ) (id : Bytes) (t : Bool)
    → IsBelow n o
    → IsBelow n (found_or o id t).parent
found_or-IsBelow n none id t b = tt
found_or-IsBelow n (some p) id t b = b

parent_behind-IsBelow :
    (n : ℕ) (m : ThreadMessage) (ids : Identifiers) (o : Option Bytes) (t : Bool)
    → AreIndices n ids
    → IsBelow n (parent_behind m ids o t).parent
parent_behind-IsBelow n m ids (some r) t a = tt
parent_behind-IsBelow n m ids none t a =
    of_both (λ (f : ParentFor). IsBelow n f.parent) (is_empty m.in_reply_to) (found_or none [] t)
      (found_or (find_identifier m.in_reply_to ids) m.in_reply_to t) tt
      (found_or-IsBelow n (find_identifier m.in_reply_to ids) m.in_reply_to t
        (find_identifier-IsBelow n m.in_reply_to ids a))

parent_of_references-next :
    (n : ℕ) (m : ThreadMessage) (ids : Identifiers) (rs : List Bytes) (t : Bool) (o : Option ℕ)
    → AreIndices n ids
    → IsBelow n o
    → IsBelow n
        (elim o as (λ _. ParentFor) [
          | some index ↦ found_or (some index) [] t
          | none ↦ parent_behind m ids (last_reference rs) t
        ]).parent
parent_of_references-next n m ids rs t none a b =
    parent_behind-IsBelow n m ids (last_reference rs) t a
parent_of_references-next n m ids rs t (some p) a b = b

pub parent_for-IsBelow :
    (n : ℕ) (m : ThreadMessage) (ids : Identifiers) (k : ℕ) (t : Bool)
    → AreIndices n ids
    → IsBelow n (parent_for m ids k t).parent
unfolding parent_for
parent_for-IsBelow n m ids k t a =
    let kept = drop (length m.references - k) m.references in
    of_both (λ (f : ParentFor). IsBelow n f.parent) (ltb k (length m.references))
      (parent_of_references m ids kept true) (parent_of_references m ids m.references t)
      (parent_of_references-next n m ids kept true (last_known kept ids) a
        (last_known-IsBelow n kept ids a))
      (parent_of_references-next n m ids m.references t (last_known m.references ids) a
        (last_known-IsBelow n m.references ids a))

AreIndices-append :
    (n : ℕ) (ids others : Identifiers)
    → AreIndices n ids
    → AreIndices n others
    → AreIndices n (ids ++ others)
AreIndices-append n [] others a b = b
AreIndices-append n ((id, index) ∷ ids) others a b = (a.0, AreIndices-append n ids others a.1 b)

pub identifiers_from-AreIndices :
    (n index : ℕ) (ms : List ThreadMessage) (ids : Identifiers)
    → index + length ms ≤ n
    → AreIndices n ids
    → AreIndices n (identifiers_from index ms ids)
unfolding identifiers_from
identifiers_from-AreIndices n index [] ids l a = a
identifiers_from-AreIndices n index (m ∷ ms) ids l a =
    identifiers_from-AreIndices n (suc index) ms _ (omega (arith, l)) (
      of_both (AreIndices n) (is_empty m.message_id || is_known (find_identifier m.message_id ids))
        ids (ids ++ (m.message_id, index) ∷ []) a
        (AreIndices-append n ids ((m.message_id, index) ∷ []) a (omega (arith, l), tt)))
