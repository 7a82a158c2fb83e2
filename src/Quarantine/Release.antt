-- ===== src/Quarantine/Release.antt =====
-- The released bytes are whole frames of the input, byte for byte, and the budgets hold throughout.
use croton_mcp.Base.{ℕ, none, some, [], ◌∷◌, ◌≡◌, refl, inl, inr, Bytes, ◌∙◌, Option-cases}
use croton_mcp.Codes.{Code}
use croton_mcp.Quarantine.Budgets.{feed-Within}
use croton_mcp.Quarantine.Effects.{entered-Effect, feed-Enters}
use croton_mcp.Quarantine.Feed.{feed}
use croton_mcp.Quarantine.Framing.{e, out, Steady-accepted, Framed-accepted, terminal-accepted}
use croton_mcp.Quarantine.Reader.{refuse, feed_all}
use croton_mcp.Quarantine.Segments.{Steady, Framed, Framed-nil, Framed-refuse, entered-Entry}
use croton_mcp.Quarantine.State.{Quarantine}

pub feed_all_refused :
    (v : ℕ) (fed : Bytes) (q : Quarantine) (code : Code)
    → (feed v q).1 ≡ some code
    → feed_all (v ∷ fed) q ≡ refuse code (feed v q).0
unfolding feed_all
feed_all_refused v fed q code e = rw (e, feed_all)

pub feed_all_accepted :
    (v : ℕ) (fed : Bytes) (q : Quarantine)
    → (feed v q).1 ≡ none
    → feed_all (v ∷ fed) q ≡ feed_all fed (feed v q).0
unfolding feed_all
feed_all_accepted v fed q e = rw (e, feed_all)

module _ (v : ℕ) (q : Quarantine) (st : Steady q) where
  pub Steady-fed : (feed v q).1 ≡ none → Steady (feed v q).0
  Steady-fed x = elim (feed-Enters v q) [
    | inl (code, y) ↦ absurd (cc (y, x))
    | inr (ne, y) ↦
        let x' : (out v q st).1 ≡ none = rw y at x in
        rw y (
          Steady-accepted v q st ne x' (rw y at (feed-Within v q st.budgets st.room))
            (terminal-accepted v q st ne x'))
  ]

  Framed-fed :
      (fed : Bytes) (r : Quarantine)
      → (feed v q).1 ≡ none
      → Framed fed (feed v q).0 r
      → Framed (v ∷ fed) q r
  Framed-fed fed r x later = elim (feed-Enters v q) [
    | inl (code, y) ↦ absurd (cc (y, x))
    | inr (ne, y) ↦ Framed-accepted v q st ne (rw y at x) fed r (rw y at later)
  ]

  Framed-refused :
      (fed : Bytes) (code : Code)
      → (feed v q).1 ≡ some code
      → Framed (v ∷ fed) q (refuse code (feed v q).0)
  Framed-refused fed code x = elim (feed-Enters v q) [
    | inl (code', y) ↦ rw y (Framed-refuse (v ∷ fed) q q code refl refl)
    | inr (ne, y) ↦
        let same = (entered-Effect v q st.budgets.scanner ne).refused code (rw y at x) in
        let entry = entered-Entry q.mode v q in
        rw y (
          Framed-refuse (v ∷ fed) q (out v q st).0 code (same.pending ∙ entry.pending)
            (same.dispatch ∙ entry.dispatch))
  ]

-- All that is fed to a steady reader splits into frames with their verdicts and a rest: the pending
-- bytes grow by exactly the released frames, released control frames are lines that `is_control`
-- admits, a structure FETCH is released only after a dispatch and at most once for it, and unless the
-- reader ended the rest is the response in progress.
pub feed_all-Framed : (fed : Bytes) (q : Quarantine) → Steady q → Framed fed q (feed_all fed q)
feed_all-Framed [] q st = unfold feed_all in Framed-nil q
feed_all-Framed (v ∷ fed) q st = elim (Option-cases (feed v q).1) [
  | inl x ↦
      rw (feed_all_accepted v fed q x)
        (Framed-fed v q st fed _ x (feed_all-Framed fed (feed v q).0 (Steady-fed v q st x)))
  | inr (code, x) ↦ rw (feed_all_refused v fed q code x) (Framed-refused v q st fed code x)
]
