-- ===== src/Quarantine/Accounts.antt =====
-- Over the whole life of a reader: its budgets, and what it has released of what it received.
use mathlib.Core.Path.{ap₂}
use croton_mcp.Base.{
  ℕ, zero, suc, ◌+◌, ◌≤◌, Option, none, some, List, [], ◌∷◌, ◌++◌, ◌≡◌, refl, arith, Bytes,
  append_assoc, append-nil, ◌∙◌, ap, sym, take, drop, take-append-drop,
}
use croton_mcp.Codes.{Code, GoError, imap_protocol}
use croton_mcp.Quarantine.Reader.{
  refuse, abort_with, abort_in, abort, begin_dispatch_in, begin_dispatch, source_failed, feed_all,
  fail_in, deliver_in, deliver, Call, dispatching, aborting, call, calls, at_once_in, at_once,
  source_turn,
}
use croton_mcp.Quarantine.Release.{feed_all-Framed}
use croton_mcp.Quarantine.Segments.{
  Segment, Framed, bytes_of, released_of, structures, AreFrames, current, current_in, remaining,
}
use croton_mcp.Quarantine.Sound.{
  IsSound, fresh-IsSound, call-IsSound, calls-IsSound, pending-IsSound, source_turn-IsSound,
}
use croton_mcp.Quarantine.State.{Mode, between, line, fetch, Dispatch, idle, active, Quarantine}
use croton_mcp.Quarantine.Budgets.{Budgets, Room}
use croton_mcp.Quarantine.Session.{
  Event, calling, reading, taking, Session, begin, fed_in, take_returned, happen, live, Accounts,
}

bytes_of-append : (xs ys : List Segment) → bytes_of (xs ++ ys) ≡ bytes_of xs ++ bytes_of ys
bytes_of-append [] ys = refl
bytes_of-append (x ∷ xs) ys = simp (bytes_of-append xs ys, append_assoc)

released_of-append :
    (xs ys : List Segment) → released_of (xs ++ ys) ≡ released_of xs ++ released_of ys
released_of-append [] ys = refl
released_of-append (x ∷ xs) ys = simp (released_of-append xs ys, append_assoc)

structures-append : (xs ys : List Segment) → structures (xs ++ ys) ≡ structures xs + structures ys
structures-append [] ys = omega arith
structures-append (x ∷ xs) ys = omega (arith, structures-append xs ys)

AreFrames-append : (xs ys : List Segment) → AreFrames xs → AreFrames ys → AreFrames (xs ++ ys)
AreFrames-append [] ys f g = g
AreFrames-append (x ∷ xs) ys f g = (f.0, AreFrames-append xs ys f.1 g)

initial-Accounts : (uid : ℕ) → Accounts (begin uid)
initial-Accounts uid = record {
  segments = [];
  rest = [];
  splits = refl;
  released = refl;
  frames = tt;
  at_most_one = omega arith;
  unfinished = λ _. refl;
}

-- A step that releases and receives nothing, and ends the reader or leaves its response as it was.
record Quiet (q r : Quarantine) : Type 0 where
  pending : r.pending ≡ q.pending
  remaining_le : remaining r.dispatch ≤ remaining q.dispatch
  running : r.terminal ≡ none → (q.terminal ≡ none) × (current q ≡ current r)

Quiet-refl : (q : Quarantine) → Quiet q q
Quiet-refl q = record { pending = refl; remaining_le = omega arith; running = λ e. (e, refl) }

Quiet-trans : {q r s : Quarantine} → Quiet q r → Quiet r s → Quiet q s
Quiet-trans a b = record {
  pending = b.pending ∙ a.pending;
  remaining_le = omega arith;
  running = λ e. let (e', c) = b.running e in let (e'', d) = a.running e' in (e'', d ∙ c);
}

Quiet-refuse : (code : Code) (q : Quarantine) → Quiet q (refuse code q)
unfolding refuse
Quiet-refuse code q = record {
  pending = refl;
  remaining_le = omega arith;
  running = λ e. absurd (cc e);
}

current_in-dispatch :
    (mode : Mode) (q : Quarantine)
    → current_in mode q ≡ current_in mode (record q { dispatch = active })
current_in-dispatch between q = refl
current_in-dispatch line q = refl
current_in-dispatch fetch q = refl

Quiet-begin_dispatch :
    (t : Option Code) (d : Dispatch) (q : Quarantine)
    → q.dispatch ≡ d
    → Quiet q (begin_dispatch_in t d q).0
Quiet-begin_dispatch (some code) d q e = Quiet-refl q
Quiet-begin_dispatch none idle q e = record {
  pending = refl;
  remaining_le = omega (arith, ap remaining e);
  running = λ x. (x, current_in-dispatch q.mode q);
}
Quiet-begin_dispatch none _ q e = Quiet-refuse imap_protocol q

Quiet-abort : (t : Option Code) (cause : GoError) (q : Quarantine) → Quiet q (abort_in t cause q).0
unfolding abort_with
Quiet-abort (some code) cause q = Quiet-refl q
Quiet-abort none cause q = Quiet-refuse _ q

Quiet-call : (c : Call) (q : Quarantine) → Quiet q (call c q)
unfolding call begin_dispatch abort
Quiet-call dispatching q = Quiet-begin_dispatch q.terminal q.dispatch q refl
Quiet-call (aborting cause) q = Quiet-abort q.terminal cause q

Quiet-calls : (cs : List Call) (q : Quarantine) → Quiet q (calls cs q)
unfolding calls
Quiet-calls [] q = Quiet-refl q
Quiet-calls (c ∷ cs) q = Quiet-trans (Quiet-call c q) (Quiet-calls cs (call c q))

Quiet-fail_in :
    (t : Option Code) (err : Option GoError) (q : Quarantine) → Quiet q (fail_in t err q)
unfolding source_failed
Quiet-fail_in none (some err) q = Quiet-refuse _ q
Quiet-fail_in none none q = Quiet-refl q
Quiet-fail_in (some code) err q = Quiet-refl q

module _ (s t : Session) (a : Accounts s) where
  Accounts-Quiet :
      t.received ≡ s.received → t.returned ≡ s.returned → Quiet s.reader t.reader → Accounts t
  Accounts-Quiet r p q = record {
    segments = a.segments;
    rest = a.rest;
    splits = r ∙ a.splits;
    released = ap₂ (λ x y. x ++ y) p q.pending ∙ a.released;
    frames = a.frames;
    at_most_one = omega (arith, a.at_most_one, q.remaining_le);
    unfinished = λ e. let (e', c) = q.running e in a.unfinished e' ∙ c;
  }

  Accounts-fed :
      (fed : Bytes)
      → s.reader.terminal ≡ none
      → t.received ≡ s.received ++ fed
      → t.returned ≡ s.returned
      → Framed fed s.reader t.reader
      → Accounts t
  Accounts-fed fed e r p f = record {
    segments = a.segments ++ f.segments;
    rest = f.rest;
    splits =
        r
        ∙ ap (λ x. x ++ fed) a.splits
        ∙ append_assoc (bytes_of a.segments) a.rest fed
        ∙ ap (λ x. bytes_of a.segments ++ (x ++ fed)) (a.unfinished e)
        ∙ ap (λ x. bytes_of a.segments ++ x) f.splits
        ∙ sym (append_assoc (bytes_of a.segments) (bytes_of f.segments) f.rest)
        ∙ ap (λ x. x ++ f.rest) (sym (bytes_of-append a.segments f.segments));
    released =
        ap₂ (λ x y. x ++ y) p f.released
        ∙ sym (append_assoc s.returned s.reader.pending (released_of f.segments))
        ∙ ap (λ x. x ++ released_of f.segments) a.released
        ∙ sym (released_of-append a.segments f.segments);
    frames = AreFrames-append a.segments f.segments a.frames f.frames;
    at_most_one =
        omega (arith, a.at_most_one, f.dispatched, structures-append a.segments f.segments);
    unfinished = f.unfinished;
  }

-- A source read: the calls made meanwhile, the bytes fed, and the source's error.
deliver-Accounts :
    (t : Option Code) (fed : Bytes) (err : Option GoError) (s : Session)
    → s.reader.terminal ≡ t
    → IsSound s.reader
    → Accounts s
    → Accounts
        (record s { reader = deliver_in t fed err s.reader; received = s.received ++ fed_in t fed })
deliver-Accounts (some code) fed err s e h a =
    Accounts-Quiet s _ a (append-nil s.received) refl (Quiet-refl s.reader)
deliver-Accounts none fed err s e h a =
    let q = feed_all fed s.reader in
    let s' : Session = record s { reader = q; received = s.received ++ fed } in
    Accounts-Quiet s' _
      (Accounts-fed s s' a fed e refl refl (feed_all-Framed fed s.reader (h.steady e))) refl refl
      (Quiet-fail_in q.terminal err q)

current_in-pending :
    (mode : Mode) (q : Quarantine) (b : Bytes)
    → current_in mode q ≡ current_in mode (record q { pending = b })
current_in-pending between q b = refl
current_in-pending line q b = refl
current_in-pending fetch q b = refl

Accounts-taking :
    (pending : Bytes) (t : Option Code) (size : ℕ) (s : Session)
    → s.reader.pending ≡ pending
    → Accounts s
    → Accounts (take_returned (at_once_in pending t size s.reader) s)
Accounts-taking (b ∷ bs) t size s e a = record {
  segments = a.segments;
  rest = a.rest;
  splits = a.splits;
  released =
      append_assoc s.returned (take size s.reader.pending) (drop size s.reader.pending)
      ∙ ap (λ x. s.returned ++ x) (take-append-drop size s.reader.pending)
      ∙ a.released;
  frames = a.frames;
  at_most_one = a.at_most_one;
  unfinished =
      λ x. a.unfinished x ∙ current_in-pending s.reader.mode s.reader (drop size s.reader.pending);
}
Accounts-taking [] (some code) size s e a = a
Accounts-taking [] none zero s e a =
    Accounts-Quiet s _ a refl (append-nil s.returned) (Quiet-refl s.reader)
Accounts-taking [] none (suc n) s e a = a

happen-Accounts : (e : Event) (s : Session) → IsSound s.reader → Accounts s → Accounts (happen e s)
unfolding happen source_turn deliver at_once
happen-Accounts (calling c) s h a = Accounts-Quiet s _ a refl refl (Quiet-call c s.reader)
happen-Accounts (reading r) s h a =
    let q = calls r.meanwhile s.reader in
    let s' : Session = record s { reader = q } in
    deliver-Accounts q.terminal _ _ s' refl (calls-IsSound r.meanwhile s.reader h)
      (Accounts-Quiet s s' a refl refl (Quiet-calls r.meanwhile s.reader))
happen-Accounts (taking size) s h a =
    Accounts-taking s.reader.pending s.reader.terminal size s refl a

taking-IsSound :
    (pending : Bytes) (t : Option Code) (size : ℕ) (s : Session)
    → IsSound s.reader
    → IsSound (take_returned (at_once_in pending t size s.reader) s).reader
taking-IsSound (b ∷ bs) t size s h = pending-IsSound s.reader (drop size s.reader.pending) h
taking-IsSound [] (some code) size s h = h
taking-IsSound [] none zero s h = h
taking-IsSound [] none (suc n) s h = h

happen-IsSound : (e : Event) (s : Session) → IsSound s.reader → IsSound (happen e s).reader
unfolding happen at_once
happen-IsSound (calling c) s h = call-IsSound c s.reader h
happen-IsSound (reading r) s h = source_turn-IsSound r s.reader h
happen-IsSound (taking size) s h = taking-IsSound s.reader.pending s.reader.terminal size s h

live-IsSound : (es : List Event) (s : Session) → IsSound s.reader → IsSound (live es s).reader
unfolding live
live-IsSound [] s h = h
live-IsSound (e ∷ es) s h = live-IsSound es (happen e s) (happen-IsSound e s h)

live-Accounts :
    (es : List Event) (s : Session) → IsSound s.reader → Accounts s → Accounts (live es s)
unfolding live
live-Accounts [] s h a = a
live-Accounts (e ∷ es) s h a =
    live-Accounts es (happen e s) (happen-IsSound e s h) (happen-Accounts e s h a)

-- Whatever calls, source reads and reads happen, in whatever order, the session bytes, the responses, the
-- frame and its storage, and the depth, tokens and work of a FETCH are within their limits; and until
-- the reader ends, the response in progress has the room to be completed, a control line is
-- within its limit, and so is an atom in progress.
pub begin-Budgets :
    (uid : ℕ) (es : List Event)
    → let q = (live es (begin uid)).reader in Budgets q × (q.terminal ≡ none → Room q.mode q)
begin-Budgets uid es =
    let s = live-IsSound es (begin uid) (fresh-IsSound uid) in (s.budgets, λ e. (s.steady e).room)

-- Whatever calls, source reads and reads happen, in whatever order, the bytes fed since the start
-- split into frames and a rest, what `Read` returned and has yet to return is exactly the frames
-- released, in order; a released control frame is one line that `is_control` admits, at most one
-- structure FETCH is released, and until the reader ends the rest is the response in progress.
pub begin-Accounts : (uid : ℕ) (es : List Event) → Accounts (live es (begin uid))
begin-Accounts uid es = live-Accounts es (begin uid) (fresh-IsSound uid) (initial-Accounts uid)
