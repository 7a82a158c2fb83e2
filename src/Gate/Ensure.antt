-- ===== src/Gate/Ensure.antt =====
-- internal/drivemcp/gate.go: `handshakeGate`; internal/drivemcp/tools.go: the requests that pass it. Any
-- number of requests run at once; each access to the gate is a turn of one of them.
use croton_mcp.Base.{ℕ, Bool, true, false, List, [], ◌∷◌, ◌++◌, ◌==◌, if◌then◌else◌}

-- The slot holds at most one token: whether it is there.
pub record Gate : Type 0 where
  pub is_taken : Bool
  pub is_verified : Bool

abbrev pub new_handshake_gate : Gate
new_handshake_gate = record { is_taken = false; is_verified = false }

-- Where a request stands: before the first load, at the `select`, behind it, in the handshake, before the
-- store, before the deferred release of the slot with the result of `ensure`, before its command, and
-- at the end, with or without a command.
pub data Place : Type 0 where
  entering waiting holding negotiating storing : Place
  leaving : Bool → Place
  admitted commanded refused : Place

-- What the world does at a turn: nothing, or the context is done, or the handshake returns.
pub data Choice : Type 0 where
  proceed expire succeed fail : Choice

-- What is seen of a request outside: a handshake starts, ends with or without success, or a data command
-- is run.
pub data Event : Type 0 where
  asked : ℕ → Event
  answered : ℕ → Bool → Event
  ran : ℕ → Event

pub record Turn : Type 0 where
  pub gate : Gate
  pub place : Place
  pub events : List Event

abbrev pub stay : Gate → Place → Turn
stay g p = record { gate = g; place = p; events = [] }

abbrev pub load_first : Gate → Turn
load_first g = stay g (if g.is_verified then admitted else waiting)

-- The `select`; it waits while the slot is taken.
abbrev pub select_slot : Choice → Gate → Turn
select_slot expire g = stay g refused
select_slot proceed g =
    if g.is_taken then stay g waiting else stay (record g { is_taken = true }) holding
select_slot succeed g = stay g waiting
select_slot fail g = stay g waiting

abbrev pub load_again : ℕ → Gate → Turn
load_again i g =
    if g.is_verified
    then stay g (leaving true)
    else record { gate = g; place = negotiating; events = asked i ∷ [] }

abbrev pub end_handshake : Choice → ℕ → Gate → Turn
end_handshake proceed i g = stay g negotiating
end_handshake expire i g = stay g negotiating
end_handshake succeed i g = record { gate = g; place = storing; events = answered i true ∷ [] }
end_handshake fail i g = record { gate = g; place = leaving false; events = answered i false ∷ [] }

abbrev pub behind : Bool → Place
behind true = admitted
behind false = refused

-- One turn of `ensure`, and of the request behind it.
unfoldable pub advance : Choice → ℕ → Gate → Place → Turn
advance c i g entering = load_first g
advance c i g waiting = select_slot c g
advance c i g holding = load_again i g
advance c i g negotiating = end_handshake c i g
advance c i g storing = stay (record g { is_verified = true }) (leaving true)
advance c i g (leaving ok) = stay (record g { is_taken = false }) (behind ok)
advance c i g admitted = record { gate = g; place = commanded; events = ran i ∷ [] }
advance c i g commanded = stay g commanded
advance c i g refused = stay g refused

-- All requests, by number, and what was seen of them, the newest first.
pub record System : Type 0 where
  pub gate : Gate
  pub at : ℕ → Place
  pub log : List Event

abbrev pub update : (ℕ → Place) → ℕ → Place → ℕ → Place
update at i p j = if i == j then p else at j

abbrev pub put_turn : System → ℕ → Turn → System
put_turn s i t = record { gate = t.gate; at = update s.at i t.place; log = t.events ++ s.log }

unfoldable pub take_turn : System → ℕ × Choice → System
unfolding advance
take_turn s (i, c) = put_turn s i (advance c i s.gate (s.at i))

abbrev pub start : System
start = record { gate = new_handshake_gate; at = λ i. entering; log = [] }

-- A schedule, whose last turn is in front.
unfoldable pub run : List (ℕ × Choice) → System
run [] = start
run (turn ∷ earlier) = take_turn (run earlier) turn
