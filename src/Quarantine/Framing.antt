-- ===== src/Quarantine/Framing.antt =====
-- An accepted byte, in terms of the frames of the input.
use croton_mcp.Base.{
  ℕ, ◌+◌, none, [], ◌∷◌, ◌++◌, ◌≡◌, refl, ◌≢◌, arith, Bytes, append-nil, ◌∙◌, ap, sym,
}
use mathlib.Core.Path.{subst, ap₂}
use croton_mcp.Quarantine.Budgets.{Within}
use croton_mcp.Quarantine.Effects.{
  Verdict, control, structure, consumed, Judged, verdict, Effect, entered, entered_in,
  entered-Effect,
}
use croton_mcp.Quarantine.Feed.{frame_byte}
use croton_mcp.Quarantine.Lines.{
  IsLine, LineStep, line_byte-LineStep, IsLine-step, IsLine-IsControlFrame,
}
use croton_mcp.Text.{contains}
use croton_mcp.Quarantine.Segments.{
  Steady, Framed, current, current_in, remaining, is_structure, released_in, IsFrame, Entry,
  entered-Entry, frame-entered, Framed-go, Framed-complete,
}
use croton_mcp.Quarantine.State.{
  idle, Mode, Mode-discrete, between, line, fetch, Quarantine, Outcome,
}

current-between : (mode : Mode) (q : Quarantine) → mode ≡ between → current_in mode q ≡ []
current-between between q e = refl
current-between line q e = cc
current-between fetch q e = cc

current-frame : (mode : Mode) (q : Quarantine) → mode ≢ between → current_in mode q ≡ q.frame
current-frame between q ne = absurd (ne refl)
current-frame line q ne = refl
current-frame fetch q ne = refl

pending-Judged :
    (x : Verdict) (e r : Quarantine) → Judged x e r → r.pending ≡ e.pending ++ released_in x e.frame
pending-Judged control e r j = j.0
pending-Judged structure e r j = j.0
pending-Judged consumed e r j = j.0 ∙ sym (append-nil e.pending)

dispatch-Judged :
    (x : Verdict) (e r : Quarantine)
    → Judged x e r
    → is_structure x + remaining r.dispatch ≡ remaining e.dispatch
dispatch-Judged control e r j = omega (arith, ap remaining j.1)
dispatch-Judged structure e r j = omega (arith, ap remaining j.1, ap remaining j.2)
dispatch-Judged consumed e r j = omega (arith, ap remaining j.1)

undispatched-Judged :
    (x : Verdict) (e r : Quarantine)
    → Judged x e r
    → e.dispatch ≡ idle
    → (r.dispatch ≡ idle) × (is_structure x ≡ 0)
undispatched-Judged control e r j i = (j.1 ∙ i, refl)
undispatched-Judged structure e r j i = absurd (cc (j.1, i))
undispatched-Judged consumed e r j i = (j.1 ∙ i, refl)

entered-IsLine :
    (mode : Mode) (v : ℕ) (q : Quarantine)
    → q.mode ≡ mode
    → (q.mode ≡ line → IsLine q.line_cr q.frame)
    → (entered_in mode v q).mode ≡ line
    → IsLine (entered_in mode v q).line_cr (current_in mode q)
unfolding contains
entered-IsLine between v q m h e = ([], (refl, refl), refl)
entered-IsLine line v q m h e = h m
entered-IsLine fetch v q m h e = cc

frame_byte-LineStep :
    (mode : Mode) (v : ℕ) (e : Quarantine)
    → e.mode ≡ mode
    → mode ≡ line
    → (frame_byte mode v e).1 ≡ none
    → LineStep v e.line_cr (frame_byte mode v e).0.mode (frame_byte mode v e).0.line_cr
unfolding frame_byte
frame_byte-LineStep line v e m l x = line_byte-LineStep v e m x
frame_byte-LineStep between v e m l x = cc
frame_byte-LineStep fetch v e m l x = cc

module _ (v : ℕ) (q : Quarantine) (st : Steady q) where
  abbrev pub e : Quarantine
  e = entered v q

  abbrev pub out : Outcome
  out = frame_byte e.mode v e

  module _ (ne : e.mode ≢ between) (x : out.1 ≡ none) where
    effect : Effect e out
    effect = entered-Effect v q st.budgets.scanner ne

    LineStep-at :
        (after : Mode)
        → out.0.mode ≡ after
        → e.mode ≡ line
        → LineStep v e.line_cr after out.0.line_cr
    LineStep-at after b l =
        subst (λ (m : Mode). LineStep v e.line_cr m out.0.line_cr) b
          (frame_byte-LineStep e.mode v e refl l x)

    IsFrame-Judged :
        (y : Verdict) → out.0.mode ≡ between → Judged y e out.0 → IsFrame y (current q ++ v ∷ [])
    IsFrame-Judged control b j =
        IsLine-IsControlFrame v e.line_cr out.0.line_cr (current q)
          (entered-IsLine q.mode v q refl st.lines j.2) (LineStep-at between b j.2)
          (rw (frame-entered q.mode v q) at j.4)
    IsFrame-Judged structure b j = tt
    IsFrame-Judged consumed b j = tt

    IsLine-accepted : out.0.mode ≡ line → IsLine out.0.line_cr out.0.frame
    IsLine-accepted b =
        let l = effect.from_line b in
        rw (effect.goes_on x (λ n. cc)).frame (
          rw (frame-entered q.mode v q) (
            IsLine-step v e.line_cr out.0.line_cr (current q)
              (entered-IsLine q.mode v q refl st.lines l) (LineStep-at line b l)))

    pub Steady-accepted : Within out → out.0.terminal ≡ none → Steady out.0
    Steady-accepted w t = record {
      budgets = w.budgets;
      room = w.room x;
      lines = IsLine-accepted;
      running = t;
    }

    entry : Entry q e
    entry = entered-Entry q.mode v q

    pub terminal-accepted : out.0.terminal ≡ none
    terminal-accepted = elim (Mode-discrete out.0.mode between) [
      | yes b ↦ (effect.completes x b).terminal ∙ entry.terminal ∙ st.running
      | no n ↦ (effect.goes_on x n).terminal ∙ entry.terminal ∙ st.running
    ]

    -- The accepted byte, before what is fed after it.
    pub Framed-accepted : (fed : Bytes) (r : Quarantine) → Framed fed out.0 r → Framed (v ∷ fed) q r
    Framed-accepted fed r later = elim (Mode-discrete out.0.mode between) [
      | yes b ↦
          let c = effect.completes x b in
          let whole = frame-entered q.mode v q in
          Framed-complete v fed q out.0 r later (verdict e) (current-between out.0.mode out.0 b)
            (pending-Judged (verdict e) e out.0 c.judged
              ∙ ap₂ (λ y z. y ++ released_in (verdict e) z) entry.pending whole)
            (dispatch-Judged (verdict e) e out.0 c.judged ∙ ap remaining entry.dispatch)
            (λ i. undispatched-Judged (verdict e) e out.0 c.judged (entry.dispatch ∙ i))
            (IsFrame-Judged (verdict e) b c.judged)
      | no n ↦
          let same = effect.goes_on x n in
          Framed-go v fed q out.0 r later
            (current-frame out.0.mode out.0 n ∙ same.frame ∙ frame-entered q.mode v q)
            (same.pending ∙ entry.pending) (same.dispatch ∙ entry.dispatch)
    ]
