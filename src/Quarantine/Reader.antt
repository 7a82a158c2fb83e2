-- ===== src/Quarantine/Reader.antt =====
-- bridge/structure_quarantine.go: the operations of the reader, and `Read` over a source.
use croton_mcp.Base.{
  ℕ, zero, suc, ◌+◌, ◌-◌, Bool, true, false, not, ◌||◌, Option, none, some, List, [], ◌∷◌, ◌==◌,
  if◌then◌else◌, Bytes, take, drop, min,
}
use croton_mcp.Codes.{
  Code, GoError, is_operation_canceled, operation_canceled, command_timed_out, imap_protocol,
  bridge_unreachable,
}
use croton_mcp.Quarantine.Feed.{feed}
use croton_mcp.Quarantine.State.{
  max_session_bytes, read_bytes, Dispatch, idle, active, Mode, between, Quarantine, fresh,
}

-- `newStructureQuarantine`; the flag is `source == nil`, and `none` its error `invalid_request`.
unfoldable pub new : Bool → ℕ → Option Quarantine
new no_source selected_uid =
    if no_source || selected_uid == 0 then none else some (fresh selected_uid)

-- `refuseLocked`: the error is sticky, and the raw frame is dropped with its storage.
unfoldable pub refuse : Code → Quarantine → Quarantine
refuse code q = record q { terminal = some code; frame = []; capacity = 0 }

abort_code : GoError → Code
abort_code cause =
    if cause.is_canceled || is_operation_canceled cause.code_of
    then operation_canceled
    else command_timed_out

-- `abortLocked`.
unfoldable pub abort_with : GoError → Quarantine → Quarantine
unfolding abort_code
abort_with cause q = refuse (abort_code cause) q

-- `abort` and the error that it returns; the first argument is the terminal error.
abbrev pub abort_in : Option Code → GoError → Quarantine → Quarantine × Option Code
abort_in (some code) cause q = (q, some code)
abort_in none cause q = let q' = abort_with cause q in (q', q'.terminal)

unfoldable pub abort : GoError → Quarantine → Quarantine × Option Code
abort cause q = abort_in q.terminal cause q

-- `beginDispatch` and the error that it returns, of the terminal error and the dispatch.
abbrev pub begin_dispatch_in : Option Code → Dispatch → Quarantine → Quarantine × Option Code
begin_dispatch_in (some code) dispatch q = (q, some code)
begin_dispatch_in none idle q = (record q { dispatch = active }, none)
begin_dispatch_in none _ q = (refuse imap_protocol q, some imap_protocol)

unfoldable pub begin_dispatch : Quarantine → Quarantine × Option Code
begin_dispatch q = begin_dispatch_in q.terminal q.dispatch q

abbrev is_between : Mode → Bool
is_between between = true
is_between _ = false

-- The code of `sourceFailedLocked`: a context error is an abort, a partial response is truncated.
failure_code : GoError → Mode → Code
unfolding abort_code
failure_code err mode =
    if err.is_canceled || err.is_deadline_exceeded
    then abort_code err
    else if not (is_between mode)
    then imap_protocol
    else bridge_unreachable

-- `sourceFailedLocked`.
unfoldable pub source_failed : GoError → Quarantine → Quarantine
unfolding failure_code
source_failed err q = refuse (failure_code err q.mode) q

-- The loop over the bytes of one source read; it stops at the first refusal.
unfoldable pub feed_all : Bytes → Quarantine → Quarantine
feed_all [] q = q
feed_all (value ∷ rest) q =
    let fed = feed value q in
    elim fed.1 [ none ↦ feed_all rest fed.0 | some code ↦ refuse code fed.0 ]

-- The source's error, unless the reader ended before; the first argument is the terminal error.
abbrev pub fail_in : Option Code → Option GoError → Quarantine → Quarantine
fail_in none (some err) q = source_failed err q
fail_in none none q = q
fail_in (some code) err q = q

-- What the loop does with one result of the source, unless a terminal error was set meanwhile.
abbrev pub deliver_in : Option Code → Bytes → Option GoError → Quarantine → Quarantine
deliver_in (some code) bytes err q = q
deliver_in none bytes err q = let q' = feed_all bytes q in fail_in q'.terminal err q'

unfoldable pub deliver : Bytes → Option GoError → Quarantine → Quarantine
deliver bytes err q = deliver_in q.terminal bytes err q

-- The size of the next source read: at most one byte past the session budget.
unfoldable pub read_limit : Quarantine → ℕ
read_limit q = min read_bytes (max_session_bytes - q.session_bytes + 1)

-- What other goroutines call while `Read` waits for the source without the lock.
pub data Call : Type 0 where
  dispatching : Call
  aborting : GoError → Call

unfoldable pub call : Call → Quarantine → Quarantine
call dispatching q = (begin_dispatch q).0
call (aborting cause) q = (abort cause q).0

unfoldable pub calls : List Call → Quarantine → Quarantine
calls [] q = q
calls (c ∷ cs) q = calls cs (call c q)

-- One answer of the source to a read of the given size, and the calls made while it is waited for.
pub record SourceRead : Type 0 where
  pub answer : ℕ → Bytes × Option GoError
  pub meanwhile : List Call

-- What `Read` returns: bytes, an error, or nothing yet, while it waits for the source.
pub data Returned : Type 0 where
  bytes : Bytes → Returned
  error : Code → Returned
  waiting : Returned

-- The turns of the loop that need no source, of the pending bytes and the terminal error: `none`
-- where the source is read next.
abbrev pub at_once_in : Bytes → Option Code → ℕ → Quarantine → Option (Returned × Quarantine)
at_once_in (b ∷ bs) terminal size q =
    some (bytes (take size q.pending), record q { pending = drop size q.pending })
at_once_in [] (some code) size q = some (error code, q)
at_once_in [] none zero q = some (bytes [], q)
at_once_in [] none (suc n) q = none

unfoldable pub at_once : ℕ → Quarantine → Option (Returned × Quarantine)
at_once size q = at_once_in q.pending q.terminal size q

-- One turn of the loop at the source.
unfoldable pub source_turn : SourceRead → Quarantine → Quarantine
source_turn s q =
    let answer = s.answer (read_limit q) in deliver answer.0 answer.1 (calls s.meanwhile q)

-- `Read` into a buffer of `size` bytes; the source answers by the listed reads.
unfoldable pub read : ℕ → List SourceRead → Quarantine → Returned × List SourceRead × Quarantine
read size [] q = elim (at_once size q) [ some (r, q') ↦ (r, [], q') | none ↦ (waiting, [], q) ]
read size (s ∷ ss) q = elim (at_once size q) [
  | some (r, q') ↦ (r, s ∷ ss, q')
  | none ↦ read size ss (source_turn s q)
]
