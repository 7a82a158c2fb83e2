-- ===== src/Quarantine/Session.antt =====
-- The whole life of a reader: calls, source reads and reads of its client, in any order.
use croton_mcp.Base.{ℕ, ◌+◌, ◌≤◌, Option, none, some, List, [], ◌∷◌, ◌++◌, ◌≡◌, Bytes}
use croton_mcp.Codes.{Code}
use croton_mcp.Quarantine.Reader.{
  Call, call, calls, SourceRead, read_limit, at_once, source_turn, Returned, bytes, error, waiting,
}
use croton_mcp.Quarantine.Segments.{
  Segment, bytes_of, released_of, structures, AreFrames, current, remaining,
}
use croton_mcp.Quarantine.State.{Quarantine, fresh}

-- One event of the life: a call, one source read of `Read`, or a turn of `Read` that needs none.
pub data Event : Type 0 where
  calling : Call → Event
  reading : SourceRead → Event
  taking : ℕ → Event

-- A reader with all the bytes that its source has answered and it has fed, and all that `Read` has
-- returned.
pub record Session : Type 0 where
  pub reader : Quarantine
  pub received : Bytes
  pub returned : Bytes

abbrev pub begin : ℕ → Session
begin uid = record { reader = fresh uid; received = []; returned = [] }

-- The bytes that `deliver` feeds: none once the reader has ended.
abbrev pub fed_in : Option Code → Bytes → Bytes
fed_in none fed = fed
fed_in (some code) fed = []

abbrev pub take_returned : Option (Returned × Quarantine) → Session → Session
take_returned (some (bytes b, q)) s = record s { reader = q; returned = s.returned ++ b }
take_returned (some (error code, q)) s = record s { reader = q }
take_returned (some (waiting, q)) s = record s { reader = q }
take_returned none s = s

unfoldable pub happen : Event → Session → Session
happen (calling c) s = record s { reader = call c s.reader }
happen (reading r) s =
    let q = calls r.meanwhile s.reader in
    record s {
      reader = source_turn r s.reader;
      received = s.received ++ fed_in q.terminal (r.answer (read_limit s.reader)).0;
    }
happen (taking size) s = take_returned (at_once size s.reader) s

unfoldable pub live : List Event → Session → Session
live [] s = s
live (e ∷ es) s = live es (happen e s)

-- How all that a session received accounts for all that it has released.
pub record Accounts (s : Session) : Type 0 where
  pub segments : List Segment
  pub rest : Bytes
  pub splits : s.received ≡ bytes_of segments ++ rest
  pub released : s.returned ++ s.reader.pending ≡ released_of segments
  pub frames : AreFrames segments
  pub at_most_one : structures segments + remaining s.reader.dispatch ≤ 1
  pub unfinished : s.reader.terminal ≡ none → rest ≡ current s.reader
