-- ===== src/Quarantine/Sound.antt =====
-- What holds of a reader at any time, through every operation.
use croton_mcp.Base.{
  ℕ, Option, none, some, List, [], ◌∷◌, ◌≡◌, refl, inl, inr, arith, Bytes, Option-cases,
}
use croton_mcp.Codes.{Code, GoError, imap_protocol}
use croton_mcp.Quarantine.Budgets.{Budgets, Room}
use croton_mcp.Quarantine.Feed.{feed}
use croton_mcp.Quarantine.Reader.{
  refuse, abort_with, abort_in, abort, begin_dispatch_in, begin_dispatch, source_failed, feed_all,
  fail_in, deliver_in, deliver, Call, dispatching, aborting, call, calls, SourceRead, source_turn,
}
use croton_mcp.Quarantine.Release.{feed_all_accepted, feed_all_refused, Steady-fed}
use croton_mcp.Quarantine.Budgets.{feed-Within}
use croton_mcp.Quarantine.Segments.{Steady}
use croton_mcp.Quarantine.State.{
  Mode, between, line, fetch, Dispatch, idle, active, Quarantine, fresh,
}

-- The budgets hold, and a reader that has refused nothing is steady.
pub record IsSound (q : Quarantine) : Type 0 where
  pub budgets : Budgets q
  pub steady : q.terminal ≡ none → Steady q

pub fresh-IsSound : (uid : ℕ) → IsSound (fresh uid)
fresh-IsSound uid = record {
  budgets = omega arith;
  steady = λ e. record { budgets = omega arith; room = tt; lines = λ m. cc; running = refl };
}

pub refuse-IsSound : (code : Code) (q : Quarantine) → Budgets q → IsSound (refuse code q)
unfolding refuse
refuse-IsSound code q b = record { budgets = ground arith; steady = λ e. cc }

abort_with-IsSound : (cause : GoError) (q : Quarantine) → Budgets q → IsSound (abort_with cause q)
unfolding abort_with
abort_with-IsSound cause q b = refuse-IsSound _ q b

source_failed-IsSound : (err : GoError) (q : Quarantine) → Budgets q → IsSound (source_failed err q)
unfolding source_failed
source_failed-IsSound err q b = refuse-IsSound _ q b

Steady-IsSound : {q : Quarantine} → Steady q → IsSound q
Steady-IsSound s = record { budgets = s.budgets; steady = λ e. s }

pub feed_all-IsSound : (fed : Bytes) (q : Quarantine) → Steady q → IsSound (feed_all fed q)
feed_all-IsSound [] q st = unfold feed_all in Steady-IsSound st
feed_all-IsSound (v ∷ fed) q st = elim (Option-cases (feed v q).1) [
  | inl x ↦
      rw (feed_all_accepted v fed q x) (feed_all-IsSound fed (feed v q).0 (Steady-fed v q st x))
  | inr (code, x) ↦
      rw (feed_all_refused v fed q code x)
        (refuse-IsSound code (feed v q).0 (feed-Within v q st.budgets st.room).budgets)
]

abort_in-IsSound :
    (t : Option Code) (cause : GoError) (q : Quarantine)
    → IsSound q
    → IsSound (abort_in t cause q).0
abort_in-IsSound (some code) cause q s = s
abort_in-IsSound none cause q s = abort_with-IsSound cause q s.budgets

-- The dispatch and the pending bytes count against no budget.
module _ (q : Quarantine) (d : Dispatch) (b : Bytes) where
  Room-outer : (mode : Mode) → Room mode q → Room mode (record q { dispatch = d; pending = b })
  Room-outer between r = tt
  Room-outer line r = r
  Room-outer fetch r = r

  Steady-outer : Steady q → Steady (record q { dispatch = d; pending = b })
  Steady-outer s = record {
    budgets = ground (arith, s.budgets);
    room = Room-outer q.mode s.room;
    lines = s.lines;
    running = s.running;
  }

  outer-IsSound : IsSound q → IsSound (record q { dispatch = d; pending = b })
  outer-IsSound s = record {
    budgets = ground (arith, s.budgets);
    steady = λ e. Steady-outer (s.steady e);
  }

pub pending-IsSound : (q : Quarantine) (b : Bytes) → IsSound q → IsSound (record q { pending = b })
pending-IsSound q b s = outer-IsSound q q.dispatch b s

begin_dispatch_in-IsSound :
    (t : Option Code) (d : Dispatch) (q : Quarantine)
    → IsSound q
    → IsSound (begin_dispatch_in t d q).0
begin_dispatch_in-IsSound (some code) d q s = s
begin_dispatch_in-IsSound none idle q s = outer-IsSound q active q.pending s
begin_dispatch_in-IsSound none _ q s = refuse-IsSound imap_protocol q s.budgets

pub call-IsSound : (c : Call) (q : Quarantine) → IsSound q → IsSound (call c q)
unfolding call begin_dispatch abort
call-IsSound dispatching q s = begin_dispatch_in-IsSound q.terminal q.dispatch q s
call-IsSound (aborting cause) q s = abort_in-IsSound q.terminal cause q s

pub calls-IsSound : (cs : List Call) (q : Quarantine) → IsSound q → IsSound (calls cs q)
unfolding calls
calls-IsSound [] q s = s
calls-IsSound (c ∷ cs) q s = calls-IsSound cs (call c q) (call-IsSound c q s)

fail_in-IsSound :
    (t : Option Code) (err : Option GoError) (q : Quarantine)
    → IsSound q
    → IsSound (fail_in t err q)
fail_in-IsSound none (some err) q s = source_failed-IsSound err q s.budgets
fail_in-IsSound none none q s = s
fail_in-IsSound (some code) err q s = s

pub deliver-IsSound :
    (t : Option Code) (fed : Bytes) (err : Option GoError) (q : Quarantine)
    → q.terminal ≡ t
    → IsSound q
    → IsSound (deliver_in t fed err q)
deliver-IsSound (some code) fed err q e s = s
deliver-IsSound none fed err q e s =
    fail_in-IsSound (feed_all fed q).terminal err (feed_all fed q)
      (feed_all-IsSound fed q (s.steady e))

pub source_turn-IsSound : (s : SourceRead) (q : Quarantine) → IsSound q → IsSound (source_turn s q)
unfolding source_turn deliver
source_turn-IsSound s q h =
    deliver-IsSound (calls s.meanwhile q).terminal _ _ (calls s.meanwhile q) refl
      (calls-IsSound s.meanwhile q h)
