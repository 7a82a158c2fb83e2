-- ===== src/Wire/Chunks.antt =====
-- The observer is the same whatever chunks the response arrives in: it is a machine on single bytes.
use croton_mcp.Base.{
  ℕ, zero, suc, ◌-◌, ◌≤◌, ◌<◌, true, false, [], ◌∷◌, ◌++◌, ltb, leb, ◌==◌, if◌then◌else◌, Bytes,
  length, drop, length-append, ◌≡◌, refl, sym, ap, subst, ◌∙◌, arith, append_assoc, append-nil,
  of_branches, Bool-cases, inl, inr,
}
use croton_mcp.Text.{cut, contains, contains-append}
use croton_mcp.Wire.Observer.{Observed, Watch, next_line, handle_line, observe_from, observe}

-- What one byte does: it is passed over in a literal, ends a line, or adds to a partial line.
unfoldable pub observe_byte : ℕ → Watch → Watch
observe_byte c (buffer, o) =
    if ltb 0 o.literal_bytes
    then ([], record o { literal_bytes = o.literal_bytes - 1 })
    else if c == b'\n'
    then ([], handle_line buffer o)
    else (buffer ++ c ∷ [], o)

unfoldable pub observe_bytes : Bytes → Watch → Watch
observe_bytes [] w = w
observe_bytes (c ∷ s) w = observe_bytes s (observe_byte c w)

-- The buffer holds no complete line, and nothing within a literal.
abbrev pub IsPartial : Watch → Type 0
IsPartial (buffer, o) =
    (contains b'\n' buffer ≡ false) × (ltb 0 o.literal_bytes ≡ true → buffer ≡ [])

partial_line :
    (c : ℕ) (buffer : Bytes)
    → contains b'\n' buffer ≡ false
    → c == b'\n' ≡ false
    → contains b'\n' (buffer ++ c ∷ []) ≡ false
unfolding contains
partial_line c buffer h f = rw (contains-append b'\n' buffer (c ∷ []), h) (ground (arith, f))

IsPartial-observe_byte : (c : ℕ) (w : Watch) → IsPartial w → IsPartial (observe_byte c w)
unfolding observe_byte contains
IsPartial-observe_byte c (buffer, o) h =
    of_branches IsPartial (ltb 0 o.literal_bytes) _ _ (λ e. (refl, λ _. refl))
      λ e.
        of_branches IsPartial (c == b'\n') _ _ (λ f. (refl, λ _. refl))
          λ f. (partial_line c buffer h.0 f, λ g. absurd (ground (arith, e, g)))

observe_bytes-append :
    (s t : Bytes) (w : Watch) → observe_bytes (s ++ t) w ≡ observe_bytes t (observe_bytes s w)
unfolding observe_bytes
observe_bytes-append [] t w = refl
observe_bytes-append (c ∷ s) t w = observe_bytes-append s t (observe_byte c w)

no_line : contains b'\n' [] ≡ false
unfolding contains
no_line = refl

-- A literal passed over byte by byte.
passed_over :
    (s : Bytes) (o : Observed)
    → length s ≤ o.literal_bytes
    → observe_bytes s ([], o) ≡ ([], record o { literal_bytes = o.literal_bytes - length s })
unfolding observe_bytes observe_byte
passed_over [] o h = ap (λ n. ([], record o { literal_bytes = n })) (omega arith)
passed_over (c ∷ s) o h =
    let end : Watch = ([], record o { literal_bytes = o.literal_bytes - suc (length s) }) in
    of_branches (λ (w : Watch). observe_bytes s w ≡ end) (ltb 0 o.literal_bytes) _ _
      (λ e.
        passed_over s (record o { literal_bytes = o.literal_bytes - 1 }) (omega arith)
        ∙ ap (λ n. ([], record o { literal_bytes = n })) (omega arith))
      (λ e. absurd (ground (arith, e, h)))

cut-absent : (c : ℕ) (s : Bytes) → contains c s ≡ false → cut c s ≡ (s, [], false)
unfolding cut contains
cut-absent c [] h = refl
cut-absent c (x ∷ s) h = let later = cut-absent c s (ground (arith, h)) in ground (arith, h, later)

cut-found : (c : ℕ) (s t : Bytes) → contains c s ≡ false → cut c (s ++ c ∷ t) ≡ (s, t, true)
unfolding cut contains
cut-found c [] t h = ground arith
cut-found c (x ∷ s) t h =
    let later = cut-found c s t (ground (arith, h)) in ground (arith, h, later)

module _ (fuel : ℕ)
    (ih : (s : Bytes) (o : Observed)
      → length s < fuel
      → observe_from fuel s o ≡ observe_bytes s ([], o)) where
  next_line-bytes :
      (input buffer : Bytes) (o : Observed)
      → contains b'\n' buffer ≡ false
      → ltb 0 o.literal_bytes ≡ false
      → length input ≤ fuel
      → next_line (observe_from fuel) (buffer ++ input) o ≡ observe_bytes input (buffer, o)
  unfolding observe_bytes observe_byte
  next_line-bytes [] buffer o h z k = rw (append-nil, cut-absent b'\n' buffer h)
  next_line-bytes (c ∷ s) buffer o h z k = rw z (
      of_branches
        (λ (w : Watch). next_line (observe_from fuel) (buffer ++ c ∷ s) o ≡ observe_bytes s w)
        (c == b'\n') _ _
        (λ f.
          let e : c ≡ b'\n' = ground (arith, f) in
          rw (e, cut-found b'\n' buffer s h) (ih s (handle_line buffer o) (omega (arith, k))))
        (λ f.
          ap (λ b. next_line (observe_from fuel) b o) (sym (append_assoc buffer (c ∷ []) s))
          ∙ next_line-bytes s (buffer ++ c ∷ []) o (partial_line c buffer h f) z
              (omega (arith, k))))

behind_literal :
    (n : ℕ) (s : Bytes) (o : Observed)
    → o.literal_bytes ≡ n
    → n ≤ length s
    → observe_bytes s ([], o) ≡ observe_bytes (drop n s) ([], record o { literal_bytes = 0 })
unfolding observe_bytes observe_byte
behind_literal zero s o e k = ap (λ n. observe_bytes s ([], record o { literal_bytes = n })) e
behind_literal (suc n) [] o e k = absurd (ground (arith, k))
behind_literal (suc n) (c ∷ s) o e k =
    of_branches
      (λ (w : Watch).
        observe_bytes s w ≡ observe_bytes (drop n s) ([], record o { literal_bytes = 0 }))
      (ltb 0 o.literal_bytes) _ _
      (λ f.
        behind_literal n s (record o { literal_bytes = o.literal_bytes - 1 }) (omega (arith, e))
          (omega (arith, k)))
      (λ f. absurd (ground (arith, e, f)))

length-drop_le : (n : ℕ) (s : Bytes) → length (drop n s) ≤ length s
length-drop_le zero s = omega arith
length-drop_le (suc n) [] = omega arith
length-drop_le (suc n) (c ∷ s) = omega (arith, length-drop_le n s)

observe_from-bytes :
    (fuel : ℕ) (s : Bytes) (o : Observed)
    → length s < fuel
    → observe_from fuel s o ≡ observe_bytes s ([], o)
unfolding observe_from
observe_from-bytes zero s o k = absurd (ground (arith, k))
observe_from-bytes (suc fuel) s o k =
    of_branches (λ (w : Watch). w ≡ observe_bytes s ([], o)) (ltb 0 o.literal_bytes) _ _
      (λ e.
        of_branches (λ (w : Watch). w ≡ observe_bytes s ([], o)) (leb (length s) o.literal_bytes) _
          _ (λ f. sym (passed_over s o (ground (arith, f))))
          (λ f.
            next_line-bytes fuel (observe_from-bytes fuel) (drop o.literal_bytes s) []
              (record o { literal_bytes = 0 }) no_line refl
              (omega (arith, k, length-drop_le o.literal_bytes s))
            ∙ sym (behind_literal o.literal_bytes s o refl (ground (arith, f)))))
      (λ e. next_line-bytes fuel (observe_from-bytes fuel) s [] o no_line e (omega (arith, k)))

observe-bytes : (input : Bytes) (w : Watch) → IsPartial w → observe input w ≡ observe_bytes input w
unfolding observe observe_from
observe-bytes input (buffer, o) h = elim (Bool-cases (ltb 0 o.literal_bytes)) [
  | inl e ↦
      subst (λ b. observe input (b, o) ≡ observe_bytes input (b, o)) (sym (h.1 e))
        (observe_from-bytes (suc (length input)) input o (omega arith))
  | inr e ↦ rw e (
      next_line-bytes (length (buffer ++ input)) (observe_from-bytes (length (buffer ++ input)))
        input buffer o h.0 e (omega (arith, length-append buffer input)))
]

IsPartial-observe_bytes : (s : Bytes) (w : Watch) → IsPartial w → IsPartial (observe_bytes s w)
unfolding observe_bytes
IsPartial-observe_bytes [] w h = h
IsPartial-observe_bytes (c ∷ s) w h =
    IsPartial-observe_bytes s (observe_byte c w) (IsPartial-observe_byte c w h)

-- What is observed does not depend on how the response was cut into reads: from a state between two
-- reads, a response in two pieces comes to what it comes to in one, and that is what a machine on
-- single bytes comes to. The state behind it is again one between two reads.
pub observe-append :
    (s t : Bytes) (w : Watch)
    → IsPartial w
    → (observe (s ++ t) w ≡ observe t (observe s w))
      × (observe (s ++ t) w ≡ observe_bytes (s ++ t) w)
      × IsPartial (observe s w)
observe-append s t w h =
    let kept = subst IsPartial (sym (observe-bytes s w h)) (IsPartial-observe_bytes s w h) in
    (
      observe-bytes (s ++ t) w h
          ∙ observe_bytes-append s t w
          ∙ ap (observe_bytes t) (sym (observe-bytes s w h))
          ∙ sym (observe-bytes t (observe s w) kept),
      observe-bytes (s ++ t) w h,
      kept,
    )
