-- ===== src/Quarantine/Segments.antt =====
-- The input of the reader as a sequence of complete frames with their verdicts, and a rest.
use croton_mcp.Base.{
  ℕ, ◌+◌, none, List, [], ◌∷◌, ◌++◌, ◌≡◌, refl, arith, Bytes, append_assoc, append-nil, ◌∙◌, ap,
  sym,
}
use croton_mcp.Codes.{Code}
use croton_mcp.Quarantine.Budgets.{Budgets, Room}
use croton_mcp.Quarantine.Effects.{Verdict, control, structure, consumed, verdict, entered_in}
use croton_mcp.Quarantine.Lines.{IsLine, IsControlFrame}
use croton_mcp.Quarantine.Reader.{refuse}
use croton_mcp.Quarantine.State.{Dispatch, idle, delivered, Mode, between, line, fetch, Quarantine}

-- The bytes of the response in progress.
abbrev pub current_in : Mode → Quarantine → Bytes
current_in between q = []
current_in _ q = q.frame

abbrev pub current : Quarantine → Bytes
current q = current_in q.mode q

-- A state between two bytes of a reader that has refused nothing.
pub record Steady (q : Quarantine) : Type 0 where
  pub budgets : Budgets q
  pub room : Room q.mode q
  pub lines : q.mode ≡ line → IsLine q.line_cr q.frame
  pub running : q.terminal ≡ none

pub record Segment : Type 0 where
  pub verdict : Verdict
  pub frame : Bytes

abbrev pub bytes_of : List Segment → Bytes
bytes_of [] = []
bytes_of (s ∷ ss) = s.frame ++ bytes_of ss

abbrev pub released_in : Verdict → Bytes → Bytes
released_in consumed frame = []
released_in _ frame = frame

abbrev pub released_of : List Segment → Bytes
released_of [] = []
released_of (s ∷ ss) = released_in s.verdict s.frame ++ released_of ss

abbrev pub is_structure : Verdict → ℕ
is_structure structure = 1
is_structure _ = 0

abbrev pub structures : List Segment → ℕ
structures [] = 0
structures (s ∷ ss) = is_structure s.verdict + structures ss

-- The structure FETCHes that may still be released.
abbrev pub remaining : Dispatch → ℕ
remaining delivered = 0
remaining _ = 1

abbrev pub IsFrame : Verdict → Bytes → Type 0
IsFrame control frame = IsControlFrame frame
IsFrame _ frame = Unit

abbrev pub AreFrames : List Segment → Type 0
AreFrames [] = Unit
AreFrames (s ∷ ss) = IsFrame s.verdict s.frame × AreFrames ss

-- How the bytes fed to `q`, which end in `r`, split into complete frames and a rest that is not
-- released: the response in progress, or the refused one and what stands behind it.
pub record Framed (fed : Bytes) (q r : Quarantine) : Type 0 where
  pub segments : List Segment
  pub rest : Bytes
  pub splits : current q ++ fed ≡ bytes_of segments ++ rest
  pub released : r.pending ≡ q.pending ++ released_of segments
  pub frames : AreFrames segments
  pub dispatched : structures segments + remaining r.dispatch ≡ remaining q.dispatch
  pub undispatched : q.dispatch ≡ idle → (r.dispatch ≡ idle) × (structures segments ≡ 0)
  pub unfinished : r.terminal ≡ none → rest ≡ current r

pub frame-entered :
    (mode : Mode) (v : ℕ) (q : Quarantine)
    → (entered_in mode v q).frame ≡ current_in mode q ++ v ∷ []
frame-entered between v q = refl
frame-entered line v q = refl
frame-entered fetch v q = refl

-- Nothing but the frame and the counters changes on entry.
pub record Entry (q r : Quarantine) : Type 0 where
  pub pending : r.pending ≡ q.pending
  pub dispatch : r.dispatch ≡ q.dispatch
  pub terminal : r.terminal ≡ q.terminal

pub entered-Entry : (mode : Mode) (v : ℕ) (q : Quarantine) → Entry q (entered_in mode v q)
entered-Entry between v q = ground arith
entered-Entry line v q = ground arith
entered-Entry fetch v q = ground arith

pub Framed-nil : (q : Quarantine) → Framed [] q q
Framed-nil q = record {
  segments = [];
  rest = current q;
  splits = append-nil (current q);
  released = sym (append-nil q.pending);
  frames = tt;
  dispatched = omega arith;
  undispatched = λ i. (i, refl);
  unfinished = λ _. refl;
}

pub Framed-refuse :
    (fed : Bytes) (q r : Quarantine) (code : Code)
    → r.pending ≡ q.pending
    → r.dispatch ≡ q.dispatch
    → Framed fed q (refuse code r)
unfolding refuse
Framed-refuse fed q r code p d = record {
  segments = [];
  rest = current q ++ fed;
  splits = refl;
  released = p ∙ sym (append-nil q.pending);
  frames = tt;
  dispatched = omega (arith, ap remaining d);
  undispatched = λ i. (d ∙ i, refl);
  unfinished = λ e. cc;
}

module _ (v : ℕ) (fed : Bytes) (q r s : Quarantine) (f : Framed fed r s) where
  open f use {segments, rest, splits, released, frames, dispatched, undispatched, unfinished}

  pub Framed-go :
      current r ≡ current q ++ v ∷ []
      → r.pending ≡ q.pending
      → r.dispatch ≡ q.dispatch
      → Framed (v ∷ fed) q s
  Framed-go c p d = record {
    segments = segments;
    rest = rest;
    splits = sym (append_assoc (current q) (v ∷ []) fed) ∙ ap (λ x. x ++ fed) (sym c) ∙ splits;
    released = released ∙ ap (λ x. x ++ released_of segments) p;
    frames = frames;
    dispatched = dispatched ∙ ap remaining d;
    undispatched = λ i. undispatched (d ∙ i);
    unfinished = unfinished;
  }

  pub Framed-complete :
      (verdict : Verdict)
      → current r ≡ []
      → r.pending ≡ q.pending ++ released_in verdict (current q ++ v ∷ [])
      → is_structure verdict + remaining r.dispatch ≡ remaining q.dispatch
      → (q.dispatch ≡ idle → (r.dispatch ≡ idle) × (is_structure verdict ≡ 0))
      → IsFrame verdict (current q ++ v ∷ [])
      → Framed (v ∷ fed) q s
  Framed-complete verdict c p d before whole = record {
    segments = (record { verdict = verdict; frame = current q ++ v ∷ [] }) ∷ segments;
    rest = rest;
    splits =
        sym (append_assoc (current q) (v ∷ []) fed)
        ∙ ap (λ x. (current q ++ v ∷ []) ++ x) (ap (λ x. x ++ fed) (sym c) ∙ splits)
        ∙ sym (append_assoc (current q ++ v ∷ []) (bytes_of segments) rest);
    released =
        released
        ∙ ap (λ x. x ++ released_of segments) p
        ∙ append_assoc q.pending (released_in verdict (current q ++ v ∷ [])) (released_of segments);
    frames = (whole, frames);
    dispatched = omega (arith, dispatched, d);
    undispatched = λ i.
        let (same, no_structure) = before i in
        let (after, none_later) = undispatched same in
        (after, omega (arith, no_structure, none_later));
    unfinished = unfinished;
  }
