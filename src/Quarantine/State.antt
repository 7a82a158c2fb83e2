-- ===== src/Quarantine/State.antt =====
-- bridge/structure_quarantine.go: the limits, the state of the reader, and its error results.
-- `frame` holds the bytes of the response in progress; `capacity` is the capacity of its slice.
-- The counters are Go `int`s: the budgets keep them far below 2^63, so ℕ is exact.
use croton_mcp.Base.{ℕ, ◌≡◌, refl, Bool, false, Option, none, some, [], Bytes}
use croton_mcp.Codes.{Code, imap_protocol, bounds_exceeded}

abbrev pub frame_bytes : ℕ
frame_bytes = 65536

abbrev pub max_depth : ℕ
max_depth = 64

abbrev pub fetch_tokens : ℕ
fetch_tokens = 4096

abbrev pub atom_bytes : ℕ
atom_bytes = 4096

abbrev pub control_bytes : ℕ
control_bytes = 4096

abbrev pub max_session_bytes : ℕ
max_session_bytes = 131072

abbrev pub max_responses : ℕ
max_responses = 64

abbrev pub work_units : ℕ
work_units = 8192

abbrev pub read_bytes : ℕ
read_bytes = 4096

pub data Dispatch : Type 0 where
  idle active delivered : Dispatch

-- The boundary between two responses, a flat line, or a FETCH.
pub data Mode : Type 0 where
  between line fetch : Mode

pub Mode-discrete : Discrete Mode
Mode-discrete = hlevel

pub data FetchState : Type 0 where
  open_list items atom quoted escape literal_size literal_cr literal_lf literal end_cr : FetchState
  end_lf : FetchState

-- The last lexical element of a FETCH list.
pub data Previous : Type 0 where
  opened spaced token closed : Previous

-- The position within the attribute list of a FETCH.
pub data ItemPhase : Type 0 where
  item_name item_named item_value item_done : ItemPhase

pub data Item : Type 0 where
  uid_item flags_item structure_item : Item

pub record Quarantine : Type 0 where
  pub selected_uid : ℕ
  pub dispatch : Dispatch
  pub pending : Bytes
  pub terminal : Option Code
  pub session_bytes : ℕ
  pub responses : ℕ
  pub work : ℕ
  pub mode : Mode
  pub frame : Bytes
  pub capacity : ℕ
  pub line_spaces : ℕ
  pub line_cr : Bool
  pub state : FetchState
  pub depth : ℕ
  pub tokens : ℕ
  pub previous : Previous
  pub phase : ItemPhase
  pub item : Item
  pub flags_list : Bool
  pub atom_start : ℕ
  pub declared : ℕ
  pub digits : ℕ
  pub uid_count : ℕ
  pub uid : ℕ
  pub flags : ℕ
  pub structure : ℕ

-- The zero value of the struct, with the selected UID.
abbrev pub fresh : ℕ → Quarantine
fresh selected_uid = record {
  selected_uid = selected_uid;
  dispatch = idle;
  pending = [];
  terminal = none;
  session_bytes = 0;
  responses = 0;
  work = 0;
  mode = between;
  frame = [];
  capacity = 0;
  line_spaces = 0;
  line_cr = false;
  state = open_list;
  depth = 0;
  tokens = 0;
  previous = opened;
  phase = item_name;
  item = uid_item;
  flags_list = false;
  atom_start = 0;
  declared = 0;
  digits = 0;
  uid_count = 0;
  uid = 0;
  flags = 0;
  structure = 0;
}

-- A method that returns an error keeps what it wrote before: the state comes back beside it.
abbrev pub Outcome : Type 0
Outcome = Quarantine × Option Code

abbrev pub done : Quarantine → Outcome
done q = (q, none)

abbrev pub fail : Code → Quarantine → Outcome
fail code q = (q, some code)

abbrev pub protocol : Quarantine → Outcome
protocol = fail imap_protocol

abbrev pub exceeded : Quarantine → Outcome
exceeded = fail bounds_exceeded

-- `if err := m(); err != nil { return err }`, and then the rest.
infixl 5 ◌>>=◌
abbrev pub ◌>>=◌ : Outcome → (Quarantine → Outcome) → Outcome
◌>>=◌ m f = elim m.1 [ none ↦ f m.0 | some code ↦ (m.0, some code) ]

-- A sequence that returns no error went through both of its parts.
pub >>=-eq-none :
    (m : Outcome) (f : Quarantine → Outcome)
    → (m >>= f).1 ≡ none
    → (m.1 ≡ none) × ((f m.0).1 ≡ none) × ((m >>= f) ≡ f m.0)
>>=-eq-none (q, none) f e = (refl, e, refl)
>>=-eq-none (q, some code) f e = cc
