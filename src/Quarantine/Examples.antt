-- ===== src/Quarantine/Examples.antt =====
-- Runs of the reader on concrete input, and the theorems at concrete inputs.
use croton_mcp.Base.{List, take, true, not, [], ◌∷◌, ◌++◌, ◌≡◌, refl, none, some, Bytes, codes}
use croton_mcp.Codes.{imap_protocol}
use croton_mcp.Quarantine.Control.{is_control, fetch_prefix, fetch, flat, malformed}
use croton_mcp.Quarantine.Feed.{
  start_response, frame_byte, feasible_in, literal_size_byte, complete_fetch, line_byte, line_space,
  complete_line, third_space, feasible, fetch_byte_in, atom_byte, feed,
}
use croton_mcp.Quarantine.Fetch.{
  start_fetch, open_paren, count_token, items_byte, end_atom, items_space, items_open, items_close,
  items_token, begin_token, close_paren, judge_atom,
}
use croton_mcp.Quarantine.Lexical.{atom_char, all_parts}
use croton_mcp.Quarantine.Reader.{feed_all, call, dispatching, refuse, begin_dispatch}
use croton_mcp.Quarantine.Accounts.{begin-Accounts, begin-Budgets}
use croton_mcp.Quarantine.Budgets.{Budgets, Room, Within, feed-Within}
use croton_mcp.Quarantine.Ended.{live-ended}
use croton_mcp.Quarantine.Release.{feed_all-Framed}
use croton_mcp.Quarantine.Segments.{Framed}
use croton_mcp.Quarantine.Session.{Session, Event, calling, reading, taking, begin, live, Accounts}
use croton_mcp.Quarantine.Sound.{fresh-IsSound}
use croton_mcp.Quarantine.State.{Quarantine, fresh}
use croton_mcp.Text.{to_upper}

admitted_controls :
    all_parts is_control (
      codes "+"
      ∷ codes "+ idling"
      ∷ codes "* OK [UIDVALIDITY 3] ok"
      ∷ codes "A1 no"
      ∷ codes "* 12 EXISTS"
      ∷ codes "* 3 expunge"
      ∷ codes "* FLAGS (\\Seen $Junk)"
      ∷ codes "* FLAGS ()"
      ∷ codes "* CAPABILITY IMAP4rev1 UIDPLUS"
      ∷ codes "* SEARCH 4 5"
      ∷ codes "* search"
      ∷ [])
    ≡ true
unfolding is_control all_parts
admitted_controls = refl

refused_controls :
    all_parts
      (λ s. not (is_control s))
      (codes "+x"
        ∷ codes "* OK [x"
        ∷ codes "A+ OK"
        ∷ codes "* 012 EXISTS"
        ∷ codes "* 0 EXPUNGE"
        ∷ codes "* 4294967296 EXISTS"
        ∷ codes "* 1 EXISTS x"
        ∷ codes "* FLAGS (a b"
        ∷ codes "* FLAGS (a  b)"
        ∷ codes "* SEARCH {3}"
        ∷ codes "* LIST () x"
        ∷ codes "* CAPABILITY"
        ∷ codes ""
        ∷ [])
    ≡ true
unfolding is_control all_parts
refused_controls = refl

fetch_prefixes :
    (fetch_prefix (codes "* 12 fetch ") ≡ fetch)
    × (fetch_prefix (codes "* 0 FETCH ") ≡ malformed)
    × (fetch_prefix (codes "* OK FETCH ") ≡ flat)
unfolding fetch_prefix
fetch_prefixes = (refl, refl, refl)

abbrev greeting : Bytes
greeting = codes "* OK ready\r\n"

abbrev structure_fetch : Bytes
structure_fetch =
    codes "* 1 FETCH (UID 7 BODYSTRUCTURE ((\"TEXT\" \"a\\\"b\" {3}\r\n(x))(NIL) \"MIXED\"))\r\n"

abbrev flags_fetch : Bytes
flags_fetch = codes "* 2 fetch (FLAGS (\\Seen $Junk) UID 9)\r\n"

-- `feed_all`, with all that it calls open, so that it runs.
fed : Bytes → Quarantine → Quarantine
unfolding feed_all feed start_response frame_byte is_control fetch_prefix open_paren count_token
    feasible_in items_byte items_space items_open items_close items_token begin_token close_paren
    judge_atom atom_char end_atom to_upper literal_size_byte complete_fetch line_byte line_space
    complete_line third_space feasible start_fetch fetch_byte_in atom_byte refuse begin_dispatch
    call
fed = feed_all

abbrev session : Quarantine
session = feed_all (flags_fetch ++ structure_fetch) (call dispatching (feed_all greeting (fresh 7)))

session_released :
    (session.pending ≡ greeting ++ structure_fetch)
    × (session.terminal ≡ none)
    × (session.work ≡ 26)
unfolding fed
session_released = (refl, refl, refl)

-- A structure FETCH before the dispatch is refused, and none of its bytes are released.
undispatched_refused :
    let q = feed_all structure_fetch (fresh 7) in
    (q.terminal ≡ some imap_protocol) × (q.pending ≡ [])
unfolding fed
undispatched_refused = (refl, refl)

-- The greeting is read and taken, the command dispatched, the structure read, and the structure taken.
abbrev lifetime : List Event
lifetime =
    reading (record { answer = λ n. (take n greeting, none); meanwhile = [] })
    ∷ taking 64
    ∷ calling dispatching
    ∷ reading (record { answer = λ n. (take n structure_fetch, none); meanwhile = [] })
    ∷ taking 100
    ∷ []

begin-Accounts_example : Accounts (live lifetime (begin 7))
begin-Accounts_example = begin-Accounts 7 lifetime

begin-Budgets_example :
    let q = (live lifetime (begin 7)).reader in Budgets q × (q.terminal ≡ none → Room q.mode q)
begin-Budgets_example = begin-Budgets 7 lifetime

feed_all-Framed_example :
    Framed (greeting ++ flags_fetch) (fresh 7) (feed_all (greeting ++ flags_fetch) (fresh 7))
feed_all-Framed_example =
    feed_all-Framed (greeting ++ flags_fetch) (fresh 7) ((fresh-IsSound 7).steady refl)

feed-Within_example : Within (feed b'*' (fresh 7))
feed-Within_example = feed-Within b'*' (fresh 7) (fresh-IsSound 7).budgets tt

-- A reader that has refused its input, with the greeting still pending.
abbrev ended : Session
ended = record (begin 7) { reader = refuse imap_protocol (record (fresh 7) { pending = greeting }) }

ended_terminal : ended.reader.terminal ≡ some imap_protocol
unfolding refuse
ended_terminal = refl

live-ended_example :
    let t = live lifetime ended in
    (t.reader.terminal ≡ some imap_protocol)
    × (t.returned ++ t.reader.pending ≡ ended.returned ++ ended.reader.pending)
live-ended_example = live-ended imap_protocol lifetime ended ended_terminal
