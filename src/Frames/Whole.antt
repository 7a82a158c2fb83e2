-- ===== src/Frames/Whole.antt =====
-- What a client reads of standard input: whole frames, each of them checked.
use croton_mcp.Base.{
  ℕ, ◌≤◌, true, not, ◌||◌, Option, none, some, List, [], ◌∷◌, ◌++◌, ltb, ◌==◌, Bytes, length,
  take-append-drop, append-nil, append_assoc, ◌≡◌, refl, sym, ap, subst, ◌∙◌, arith, of_both,
  of_branches,
}
use croton_mcp.Frames.Reader.{
  FrameError, too_large, invalid, source_failed, SliceError, Source, Reader, new_reader, is_full,
  is_other, end_of, Got, stopped, copied, take_frame, refill, read,
}
use croton_mcp.Text.{is_empty, is_empty-eq}

abbrev pub joined : List Bytes → Bytes
joined [] = []
joined (f ∷ fs) = f ++ joined fs

module _ {W : Type 0} (source : Source W) where
  -- Reads in a row, with all of their bytes.
  unfoldable pub read_all : List ℕ → Reader W → Reader W × Bytes
  read_all [] r = (r, [])
  read_all (n ∷ ns) r =
      let step = read source n r in let rest = read_all ns step.0 in (rest.0, step.1 ++ rest.1)

  -- Frames that pass all checks.
  abbrev pub AreChecked : ℕ → List Bytes → Type 0
  AreChecked maximum [] = Unit
  AreChecked maximum (f ∷ fs) =
      (length f ≤ maximum)
      × (source.validate_object f ≡ true)
      × (source.valid_protocol_aliases f ≡ true)
      × AreChecked maximum fs

  AreChecked-append :
      (m : ℕ) (fs gs : List Bytes) → AreChecked m fs → AreChecked m gs → AreChecked m (fs ++ gs)
  AreChecked-append m [] gs a b = b
  AreChecked-append m (f ∷ fs) gs a b = (a.0, a.1, a.2, AreChecked-append m fs gs a.3 b)

  joined-append : (fs gs : List Bytes) → joined (fs ++ gs) ≡ joined fs ++ joined gs
  joined-append [] gs = refl
  joined-append (f ∷ fs) gs =
      ap (λ r. f ++ r) (joined-append fs gs) ∙ sym (append_assoc f (joined fs) (joined gs))

  -- The bytes that are handed out and those that are kept come of what was kept before and of frames.
  abbrev pub IsFramed : ℕ → Bytes → Reader W → Bytes → Type 0
  IsFramed maximum before r out =
      (frames : List Bytes) × (out ++ r.pending ≡ before ++ joined frames)
      × AreChecked maximum frames
      × (r.maximum ≡ maximum)

  abbrev FramedGot : Reader W → Got W → Type 0
  FramedGot r got = IsFramed r.maximum r.pending got.0 got.1

  stopped-FramedGot :
      (r : Reader W) (w : W) (e : Option FrameError)
      → FramedGot r (stopped (record r { world = w }) e)
  stopped-FramedGot r w e = ([], sym (append-nil r.pending), tt, refl)

  copied-FramedGot : (n : ℕ) (r : Reader W) → FramedGot r (copied n r)
  copied-FramedGot n r = ([], take-append-drop n r.pending ∙ sym (append-nil r.pending), tt, refl)

  take_frame-FramedGot :
      (n : ℕ) (frame : Bytes) (e : Option SliceError) (r : Reader W) (w : W)
      → r.pending ≡ []
      → FramedGot r (take_frame source n frame e (record r { world = w }))
  unfolding take_frame
  take_frame-FramedGot n frame e r w k =
      let at = record r { world = w } in
      of_branches (FramedGot r) (is_full e || ltb r.maximum (length frame)) _ _
        (λ c. stopped-FramedGot r w (some too_large))
        λ size.
          of_branches (FramedGot r) (is_other e) _ _
            (λ c. stopped-FramedGot r w (some source_failed))
            λ c.
              of_branches (FramedGot r) (is_empty frame) _ _ (λ c. stopped-FramedGot r w (end_of e))
                λ c.
                  of_branches (FramedGot r)
                    (not (source.validate_object frame)
                      || not (source.valid_protocol_aliases frame))
                    _ _ (λ c. stopped-FramedGot r w (some invalid))
                    (λ c. (
                      frame ∷ [],
                      take-append-drop n frame
                          ∙ sym (ap (λ b. b ++ (frame ++ [])) k ∙ append-nil frame),
                      (ground (arith, size), ground (arith, c), ground (arith, c), tt),
                      refl,
                    ))

  refill-FramedGot :
      (n : ℕ) (t : Option FrameError) (r : Reader W)
      → r.pending ≡ []
      → FramedGot r (refill source n t r)
  refill-FramedGot n (some e) r k = ([], sym (append-nil r.pending), tt, refl)
  refill-FramedGot n none r k =
      let s = source.read_slice r.world in take_frame-FramedGot n s.1 s.2 r s.0 k

  read-FramedGot : (n : ℕ) (r : Reader W) → FramedGot r (read source n r)
  unfolding read
  read-FramedGot n r =
      of_both (FramedGot r) (n == 0) _ _ ([], sym (append-nil r.pending), tt, refl)
        (of_branches (FramedGot r) (is_empty r.pending) _ _
          (λ e. refill-FramedGot n r.terminal r (is_empty-eq r.pending e))
          (λ e. copied-FramedGot n r))

  read_all-IsFramed :
      (ns : List ℕ) (r : Reader W)
      → IsFramed r.maximum r.pending (read_all ns r).0 (read_all ns r).1
  unfolding read_all
  read_all-IsFramed [] r = ([], sym (append-nil r.pending), tt, refl)
  read_all-IsFramed (n ∷ ns) r =
      let step = read source n r in
      let one = read-FramedGot n r in
      let all = read_all-IsFramed ns step.0 in
      (
        one.0 ++ all.0,
        append_assoc step.1 (read_all ns step.0).1 (read_all ns step.0).0.pending
            ∙ ap (λ b. step.1 ++ b) all.1
            ∙ sym (append_assoc step.1 step.0.pending (joined all.0))
            ∙ ap (λ b. b ++ joined all.0) one.1
            ∙ append_assoc r.pending (joined one.0) (joined all.0)
            ∙ ap (λ b. r.pending ++ b) (sym (joined-append one.0 all.0)),
        AreChecked-append r.maximum one.0 all.0 one.2 (subst (λ m. AreChecked m all.0) one.3 all.2),
        all.3 ∙ one.3,
      )

  -- Whatever the source gives and however it is read, the bytes handed out by a new reader and those it
  -- still holds are whole frames one behind the other, each within the maximum and admitted by both
  -- checks.
  pub read_all-new_reader :
      (w : W) (maximum : ℕ) (ns : List ℕ)
      → IsFramed maximum []
          (read_all ns (new_reader w (some maximum))).0
          (read_all ns (new_reader w (some maximum))).1
  read_all-new_reader w maximum ns = read_all-IsFramed ns (new_reader w (some maximum))
