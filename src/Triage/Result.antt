-- ===== src/Triage/Result.antt =====
-- bridge/seen.go, bridge/imapclient.go: the results of a triage request, and the mapping of errors.
use croton_mcp.Base.{ℕ, Bool, true, false, Option, none, some, List, [], ◌∷◌, if◌then◌else◌, ◌≡◌}
use croton_mcp.Codes.{
  Code, operation_canceled, command_timed_out, authentication, bridge_unreachable, imap_command,
  imap_protocol,
}

-- `Outcome`; `blank` is its zero value, the empty string.
pub data Attempt : Type 0 where
  applied refused not_attempted unknown blank : Attempt

-- The outcome for one requested UID; `none` is the empty code.
pub record TriageResult : Type 0 where
  pub uid : ℕ
  pub outcome : Attempt
  pub code : Option Code

abbrev pub pending_result : ℕ → TriageResult
pending_result uid = record { uid = uid; outcome = not_attempted; code = none }

-- The zero value of `TriageResult`.
abbrev pub zero_result : TriageResult
zero_result = record { uid = 0; outcome = blank; code = none }

unfoldable pub pending_results : List ℕ → List TriageResult
pending_results [] = []
pending_results (uid ∷ uids) = pending_result uid ∷ pending_results uids

-- What the code sees of a context when an operation on it has ended: `ctx.Err()`, as whether it is a
-- cancellation, and whether its deadline is past.
pub record Context : Type 0 where
  pub canceled : Option Bool
  pub past_deadline : Bool

-- What `errors.As` and `errors.Is` show of an error: the first bridge error of its chain, an
-- authentication failure, a lost connection (`io.EOF` and its kin, `net.OpError`), an IMAP response.
pub record ImapError : Type 0 where
  pub code_of : Option Code
  pub is_authentication : Bool
  pub is_unreachable : Bool
  pub is_imap : Bool

-- `errorCode(code)`.
abbrev pub coded : Code → ImapError
coded code = record {
  code_of = some code;
  is_authentication = false;
  is_unreachable = false;
  is_imap = false;
}

abbrev uncoded : ImapError → Code
uncoded err =
    if err.is_authentication
    then authentication
    else if err.is_unreachable
    then bridge_unreachable
    else if err.is_imap
    then imap_command
    else imap_protocol

abbrev in_time : Bool → Option Code → ImapError → Code
in_time true code err = command_timed_out
in_time false (some code) err = code
in_time false none err = uncoded err

-- `mapIMAPError` on an error, by its code.
unfoldable pub map_error : Context → ImapError → Code
map_error ctx err = elim ctx.canceled [
  | some canceled ↦ if canceled then operation_canceled else command_timed_out
  | none ↦ in_time ctx.past_deadline err.code_of err
]

pub data Reply {ℓ} (A : Type ℓ) : Type ℓ where
  ok : A → Reply A
  err : ImapError → Reply A

-- The answer of a session to one operation, with the context as it then stands.
pub record Answer (A : Type 0) : Type 0 where
  pub context : Context
  pub reply : Reply A

-- What a request returns: its value, or the code of its error.
pub data Result {ℓ} (A : Type ℓ) : Type ℓ where
  done : A → Result A
  failed : Code → Result A

pub done-injective {ℓ} : {A : Type ℓ} {x y : A} → done x ≡ done y → x ≡ y
done-injective e = cc e
