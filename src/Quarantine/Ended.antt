-- ===== src/Quarantine/Ended.antt =====
-- A reader that has ended: its error stands, and it releases nothing more.
use croton_mcp.Base.{
  ℕ, zero, suc, Bytes, Option, none, some, List, [], ◌∷◌, ◌++◌, ◌≡◌, refl, ap, ◌∙◌, append_assoc,
  take, drop, take-append-drop,
}
use croton_mcp.Codes.{Code}
use croton_mcp.Quarantine.Reader.{
  Call, dispatching, aborting, call, calls, begin_dispatch, begin_dispatch_in, abort, abort_in,
  SourceRead, read_limit, deliver, deliver_in, source_turn, at_once, at_once_in,
}
use croton_mcp.Quarantine.Session.{
  Event, calling, reading, taking, Session, take_returned, happen, live,
}
use croton_mcp.Quarantine.State.{Quarantine}

module _ (q : Quarantine) (code : Code) (e : q.terminal ≡ some code) where
  call-ended : (c : Call) → call c q ≡ q
  unfolding call begin_dispatch abort
  call-ended dispatching = ap (λ t. (begin_dispatch_in t q.dispatch q).0) e
  call-ended (aborting cause) = ap (λ t. (abort_in t cause q).0) e

  calls-ended : (cs : List Call) → calls cs q ≡ q
  unfolding calls
  calls-ended [] = refl
  calls-ended (c ∷ cs) = ap (calls cs) (call-ended c) ∙ calls-ended cs

  source_turn-ended : (s : SourceRead) → source_turn s q ≡ q
  unfolding source_turn deliver
  source_turn-ended s =
      let answer = s.answer (read_limit q) in
      ap (λ r. deliver_in r.terminal answer.0 answer.1 r) (calls-ended s.meanwhile)
      ∙ ap (λ t. deliver_in t answer.0 answer.1 q) e

-- What a session has released, and the error that its reader ended with.
abbrev Stands : Code → Bytes → Session → Type 0
Stands code out s = (s.reader.terminal ≡ some code) × (s.returned ++ s.reader.pending ≡ out)

taking-ended :
    (code : Code) (size : ℕ) (s : Session) (pending : Bytes) (t : Option Code)
    → s.reader.pending ≡ pending
    → s.reader.terminal ≡ some code
    → Stands code
        (s.returned ++ s.reader.pending)
        (take_returned (at_once_in pending t size s.reader) s)
taking-ended code size s (b ∷ bs) t p e = (
  e,
  append_assoc s.returned (take size s.reader.pending) (drop size s.reader.pending)
      ∙ ap (λ x. s.returned ++ x) (take-append-drop size s.reader.pending),
)
taking-ended code size s [] (some c) p e = (e, refl)
taking-ended code zero s [] none p e = (e, append_assoc s.returned [] s.reader.pending)
taking-ended code (suc n) s [] none p e = (e, refl)

happen-ended :
    (code : Code) (v : Event) (s : Session)
    → s.reader.terminal ≡ some code
    → Stands code (s.returned ++ s.reader.pending) (happen v s)
unfolding happen at_once
happen-ended code (calling c) s e = rw (call-ended s.reader code e c) (e, refl)
happen-ended code (reading r) s e = rw (source_turn-ended s.reader code e r) (e, refl)
happen-ended code (taking size) s e =
    taking-ended code size s s.reader.pending s.reader.terminal refl e

-- Once the reader has ended, nothing that is called, read or taken changes the error it ended with,
-- and what has been returned, with what is pending, stays as it was.
pub live-ended :
    (code : Code) (es : List Event) (s : Session)
    → s.reader.terminal ≡ some code
    → let t = live es s in
      (t.reader.terminal ≡ some code)
      × (t.returned ++ t.reader.pending ≡ s.returned ++ s.reader.pending)
unfolding live
live-ended code [] s e = (e, refl)
live-ended code (v ∷ es) s e =
    let now = happen-ended code v s e in
    let later = live-ended code es (happen v s) now.0 in (later.0, later.1 ∙ now.1)
