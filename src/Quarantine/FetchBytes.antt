-- ===== src/Quarantine/FetchBytes.antt =====
-- One byte of a FETCH: what it keeps, on every state of the scanner.
use croton_mcp.Base.{ℕ, ◌-◌, ◌≤◌, none, ◌≡◌, refl, ◌≢◌, arith, length, Bool-cases, sym, inl, inr}
use mathlib.Core.Path.{subst}
use croton_mcp.Quarantine.Feed.{atom_byte, literal_size_byte, fetch_byte_in}
use croton_mcp.Quarantine.Fetch.{open_paren, count_token, judge_atom, end_atom, items_byte, slice}
use croton_mcp.Quarantine.Lexical.{atom_char}
use croton_mcp.Quarantine.Scanner.{
  IsScanner, Scans, Shape, IsShaped, open_paren-Scans, judge_atom-Scans, judge_atom-depth,
  items_byte-Scans, items_byte-IsShaped, items_byte-IsFit, IsFit,
}
use croton_mcp.Quarantine.State.{
  FetchState, open_list, items, atom, literal_size, end_lf, token, Quarantine, Outcome, >>=-eq-none,
}

literal_size_byte-Scans : (v : ℕ) (q : Quarantine) → IsScanner q → Scans q (literal_size_byte v q).0
unfolding literal_size_byte
literal_size_byte-Scans v q h = ground arith

-- The atom that ends, and the state in which the byte behind it is read.
abbrev judged : Quarantine → Quarantine
judged q =
    (judge_atom (slice q.atom_start (length q.frame - 1) q.frame) (record q { previous = token })).0

abbrev behind_atom : Quarantine → Quarantine
behind_atom q = record (judged q) { state = items }

judged-Scans : (q : Quarantine) → IsScanner q → Scans q (judged q)
judged-Scans q h = ground (
  arith,
  judge_atom-Scans (slice q.atom_start (length q.frame - 1) q.frame)
      (record q { previous = token }),
)

atom_byte-Scans : (v : ℕ) (q : Quarantine) → IsScanner q → Scans q (atom_byte v q).0
unfolding atom_byte end_atom
atom_byte-Scans v q h = ground (arith, judged-Scans q, items_byte-Scans v (behind_atom q))

atom_byte-IsShaped :
    (v : ℕ) (q : Quarantine)
    → q.state ≡ atom
    → 1 ≤ q.depth
    → (atom_byte v q).1 ≡ none
    → IsShaped (atom_byte v q).0
unfolding atom_byte end_atom
atom_byte-IsShaped v q at h e = elim (Bool-cases (atom_char v)) [
  | inl word ↦ ground arith
  | inr over ↦ rw over (
      let word = slice q.atom_start (length q.frame - 1) q.frame in
      let (one, two, same) =
        >>=-eq-none (judge_atom word (record q { previous = token }))
          (λ r. items_byte v (record r { state = items })) (rw over at e) in
      subst (λ (m : Outcome). IsShaped m.0) (sym same)
        (items_byte-IsShaped (behind_atom q) refl
          (rw (judge_atom-depth word (record q { previous = token })) h) v two))
]

pub fetch_byte_in-Scans :
    (s : FetchState) (v : ℕ) (q : Quarantine)
    → s ≢ end_lf
    → IsScanner q
    → Scans q (fetch_byte_in s v q).0
unfolding fetch_byte_in
fetch_byte_in-Scans end_lf v q ne h = absurd (ne refl)
fetch_byte_in-Scans open_list v q ne h =
    ground (arith, open_paren-Scans (record q { state = items }))
fetch_byte_in-Scans items v q ne h = items_byte-Scans v q h
fetch_byte_in-Scans atom v q ne h = atom_byte-Scans v q h
fetch_byte_in-Scans literal_size v q ne h = literal_size_byte-Scans v q h
fetch_byte_in-Scans _ v q ne h = ground arith

pub fetch_byte_in-IsShaped :
    (s : FetchState) (v : ℕ) (q : Quarantine)
    → q.state ≡ s
    → s ≢ end_lf
    → Shape s q.depth q.declared
    → (fetch_byte_in s v q).1 ≡ none
    → IsShaped (fetch_byte_in s v q).0
unfolding fetch_byte_in literal_size_byte
fetch_byte_in-IsShaped end_lf v q at ne h e = absurd (ne refl)
fetch_byte_in-IsShaped open_list v q at ne h e = unfold open_paren count_token in ground arith
fetch_byte_in-IsShaped items v q at ne h e = items_byte-IsShaped q at (ground arith) v e
fetch_byte_in-IsShaped atom v q at ne h e = atom_byte-IsShaped v q at h e
fetch_byte_in-IsShaped _ v q at ne h e = ground arith

atom_byte-IsFit :
    (v : ℕ) (q : Quarantine)
    → q.state ≡ atom
    → 1 ≤ q.depth
    → (atom_byte v q).1 ≡ none
    → IsFit (atom_byte v q).0
unfolding atom_byte end_atom
atom_byte-IsFit v q at h e = elim (Bool-cases (atom_char v)) [
  | inl word ↦ ground arith
  | inr over ↦ rw over (
      let word = slice q.atom_start (length q.frame - 1) q.frame in
      let (one, two, same) =
        >>=-eq-none (judge_atom word (record q { previous = token }))
          (λ r. items_byte v (record r { state = items })) (rw over at e) in
      subst (λ (m : Outcome). IsFit m.0) (sym same)
        (items_byte-IsFit (behind_atom q) refl
          (rw (judge_atom-depth word (record q { previous = token })) h) v))
]

-- An accepted byte leaves no atom that is too long.
pub fetch_byte_in-IsFit :
    (s : FetchState) (v : ℕ) (q : Quarantine)
    → q.state ≡ s
    → s ≢ end_lf
    → Shape s q.depth q.declared
    → (fetch_byte_in s v q).1 ≡ none
    → IsFit (fetch_byte_in s v q).0
unfolding fetch_byte_in literal_size_byte
fetch_byte_in-IsFit end_lf v q at ne h e = absurd (ne refl)
fetch_byte_in-IsFit open_list v q at ne h e = unfold open_paren count_token in ground arith
fetch_byte_in-IsFit items v q at ne h e = items_byte-IsFit q at (ground arith) v
fetch_byte_in-IsFit atom v q at ne h e = atom_byte-IsFit v q at h e
fetch_byte_in-IsFit _ v q at ne h e = ground arith
