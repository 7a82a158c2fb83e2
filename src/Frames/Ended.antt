-- ===== src/Frames/Ended.antt =====
-- An error of the reader of frames is its last word.
use croton_mcp.Base.{
  ℕ, not, ◌||◌, Option, none, some, List, [], ◌∷◌, ◌++◌, ltb, ◌==◌, Bytes, length, ◌≡◌, refl, sym,
  ap, ◌∙◌, of_both, of_branches,
}
use croton_mcp.Frames.Reader.{
  FrameError, too_large, invalid, source_failed, SliceError, Source, Reader, is_full, is_other,
  end_of, Got, stopped, copied, take_frame, refill, read,
}
use croton_mcp.Frames.Whole.{read_all}
use croton_mcp.Text.{is_empty, is_empty-eq}

module _ {W : Type 0} (source : Source W) (e : FrameError) where
  abbrev pub HasEnded : Reader W → Type 0
  HasEnded r = (r.pending ≡ []) × (r.terminal ≡ some e)

  abbrev Ends : Got W → Type 0
  Ends got = got.2 ≡ some e → HasEnded got.0

  stopped-Ends : (r : Reader W) (o : Option FrameError) → r.pending ≡ [] → Ends (stopped r o)
  stopped-Ends r o k h = (k, h)

  copied-Ends : (n : ℕ) (r : Reader W) → Ends (copied n r)
  copied-Ends n r h = absurd (cc h)

  take_frame-Ends :
      (n : ℕ) (frame : Bytes) (s : Option SliceError) (r : Reader W)
      → r.pending ≡ []
      → Ends (take_frame source n frame s r)
  unfolding take_frame
  take_frame-Ends n frame s r k =
      of_both Ends (is_full s || ltb r.maximum (length frame)) _ _
        (stopped-Ends r (some too_large) k)
        (of_both Ends (is_other s) _ _ (stopped-Ends r (some source_failed) k) (
          of_both Ends (is_empty frame) _ _ (stopped-Ends r (end_of s) k) (
            of_both Ends
              (not (source.validate_object frame) || not (source.valid_protocol_aliases frame)) _ _
              (stopped-Ends r (some invalid) k)
              (copied-Ends n (record r { pending = frame; terminal = end_of s })))))

  refill-Ends :
      (n : ℕ) (t : Option FrameError) (r : Reader W)
      → r.pending ≡ []
      → r.terminal ≡ t
      → Ends (refill source n t r)
  refill-Ends n (some f) r k q = λ h. (k, q ∙ h)
  refill-Ends n none r k q =
      let s = source.read_slice r.world in take_frame-Ends n s.1 s.2 (record r { world = s.0 }) k

  read-Ends : (n : ℕ) (r : Reader W) → Ends (read source n r)
  unfolding read
  read-Ends n r =
      of_both Ends (n == 0) _ _ (λ h. absurd (cc h))
        (of_branches Ends (is_empty r.pending) _ _
          (λ c. refill-Ends n r.terminal r (is_empty-eq r.pending c) refl) (λ c. copied-Ends n r))

  abbrev Rests : Reader W → Got W → Type 0
  Rests r got = (got.0 ≡ r) × (got.1 ≡ [])

  refill-Rests :
      (n : ℕ) (t : Option FrameError) (r : Reader W) → t ≡ some e → Rests r (refill source n t r)
  refill-Rests n (some f) r q = (refl, refl)
  refill-Rests n none r q = absurd (cc q)

  read-Rests : (n : ℕ) (r : Reader W) → HasEnded r → Rests r (read source n r)
  unfolding read
  read-Rests n r h =
      of_both (Rests r) (n == 0) _ _ (refl, refl)
        (of_branches (Rests r) (is_empty r.pending) _ _ (λ c. refill-Rests n r.terminal r h.1)
          (λ c. absurd (cc (sym (ap is_empty h.0) ∙ c))))

  read_all-Rests : (ns : List ℕ) (r : Reader W) → HasEnded r → read_all source ns r ≡ (r, [])
  unfolding read_all
  read_all-Rests [] r h = refl
  read_all-Rests (n ∷ ns) r h =
      let step = read-Rests n r h in
      let rest = ap (read_all source ns) step.0 ∙ read_all-Rests ns r h in
      ap (λ q. (q.0, (read source n r).1 ++ q.1)) rest ∙ ap (λ b. (r, b ++ [])) step.1

  -- Once a read returns an error, no bytes are left, and whatever is read after it changes nothing and
  -- brings no bytes; the error stays the one that is reported.
  pub read_all-read :
      (n : ℕ) (ns : List ℕ) (r : Reader W)
      → (read source n r).2 ≡ some e
      → HasEnded (read source n r).0
        × (read_all source ns (read source n r).0 ≡ ((read source n r).0, []))
  read_all-read n ns r h =
      let ended = read-Ends n r h in (ended, read_all-Rests ns (read source n r).0 ended)
