-- ===== src/Threads/Links.antt =====
-- bridge/threads.go: `BuildThread` from the ordered messages on, whose keys are set. The slices of
-- parents and depths are functions of the index, and -1 is `none`.
use croton_mcp.Base.{
  ℕ, zero, suc, ◌+◌, ◌-◌, Bool, true, false, ◌||◌, Option, none, some, List, [], ◌∷◌, ◌++◌, ltb,
  ◌==◌, if◌then◌else◌, Bytes, length, drop,
}
use croton_mcp.Text.{equal, is_empty}

-- `ThreadMessage`, with the headers that link it.
pub record ThreadMessage : Type 0 where
  pub key : Bytes
  pub message_id : Bytes
  pub in_reply_to : Bytes
  pub references : List Bytes
  pub received_at : ℕ

-- `ThreadNode`.
pub record ThreadNode : Type 0 where
  pub key : Bytes
  pub message_id : Bytes
  pub parent_key : Bytes
  pub missing_parent_id : Bytes
  pub depth : ℕ
  pub message : ThreadMessage

abbrev pub Identifiers : Type 0
Identifiers = List (Bytes × ℕ)

unfoldable pub find_identifier : Bytes → Identifiers → Option ℕ
find_identifier id [] = none
find_identifier id ((other, index) ∷ ids) =
    let rest = find_identifier id ids in if equal other id then some index else rest

abbrev pub is_known : Option ℕ → Bool
is_known none = false
is_known (some index) = true

-- The map of the identifiers, from an index on; the first message of an identifier is kept.
unfoldable pub identifiers_from : ℕ → List ThreadMessage → Identifiers → Identifiers
identifiers_from index [] ids = ids
identifiers_from index (m ∷ ms) ids = identifiers_from (suc index) ms (
    if is_empty m.message_id || is_known (find_identifier m.message_id ids)
    then ids
    else ids ++ (m.message_id, index) ∷ [])

-- What `parentFor` returns.
pub record ParentFor : Type 0 where
  pub parent : Option ℕ
  pub missing : Bytes
  pub is_truncated : Bool

-- The last known one of the references, and the last of all.
unfoldable pub last_known : List Bytes → Identifiers → Option ℕ
last_known [] ids = none
last_known (r ∷ rs) ids = elim (last_known rs ids) [
  | some index ↦ some index
  | none ↦ find_identifier r ids
]

abbrev pub last_reference : List Bytes → Option Bytes
last_reference [] = none
last_reference (r ∷ []) = some r
last_reference (r ∷ s ∷ rs) = last_reference (s ∷ rs)

abbrev pub found_or : Option ℕ → Bytes → Bool → ParentFor
found_or (some index) id truncated = record {
  parent = some index;
  missing = [];
  is_truncated = truncated;
}
found_or none id truncated = record { parent = none; missing = id; is_truncated = truncated }

-- Behind the references, none of which is known.
abbrev pub parent_behind : ThreadMessage → Identifiers → Option Bytes → Bool → ParentFor
parent_behind m ids (some r) truncated = found_or none r truncated
parent_behind m ids none truncated =
    if is_empty m.in_reply_to
    then found_or none [] truncated
    else found_or (find_identifier m.in_reply_to ids) m.in_reply_to truncated

abbrev pub parent_of_references : ThreadMessage → Identifiers → List Bytes → Bool → ParentFor
parent_of_references m ids references truncated = elim (last_known references ids) [
  | some index ↦ found_or (some index) [] truncated
  | none ↦ parent_behind m ids (last_reference references) truncated
]

-- `parentFor`.
unfoldable pub parent_for : ThreadMessage → Identifiers → ℕ → Bool → ParentFor
parent_for m ids max_references truncated =
    if ltb max_references (length m.references)
    then parent_of_references m ids (drop (length m.references - max_references) m.references) true
    else parent_of_references m ids m.references truncated

abbrev pub Parents : Type 0
Parents = ℕ → Option ℕ

-- An assignment to one element of a slice.
abbrev pub put {ℓ} : {A : Type ℓ} → ℕ → A → (ℕ → A) → ℕ → A
put index v slice = λ i. if i == index then v else slice i

pub data Verdict : Type 0 where
  cycles ends untold : Verdict

-- `wouldCycle`, on fuel.
unfoldable pub would_cycle : ℕ → ℕ → Option ℕ → Parents → Verdict
would_cycle zero child parent parents = untold
would_cycle (suc fuel) child none parents = ends
would_cycle (suc fuel) child (some p) parents =
    let rest = would_cycle fuel child (parents p) parents in if p == child then cycles else rest

-- The variables of the loop that links the messages; `is_told` says that no fuel ran out.
pub record Linked : Type 0 where
  pub parents : Parents
  pub missing : ℕ → Bytes
  pub is_cut : Bool
  pub has_cycle : Bool
  pub is_told : Bool

abbrev pub unlinked : Linked
unlinked = record {
  parents = λ i. none;
  missing = λ i. [];
  is_cut = false;
  has_cycle = false;
  is_told = true;
}

abbrev pub link_parent : ℕ → Option ℕ → Verdict → Linked → Linked
link_parent index parent cycles l = record l {
  parents = put index none l.parents;
  has_cycle = true;
}
link_parent index parent ends l = record l { parents = put index parent l.parents }
link_parent index parent untold l = record l { is_told = false }

-- One turn: the parent is set, and taken back if it closes a cycle.
unfoldable pub link_message : ℕ → ℕ → ℕ → ThreadMessage → Identifiers → Linked → Linked
link_message fuel max_references index m ids l =
    let f = parent_for m ids max_references l.is_cut in
    let linked = record l { missing = put index f.missing l.missing; is_cut = f.is_truncated } in
    link_parent index f.parent (would_cycle fuel index f.parent (put index f.parent l.parents))
      linked

unfoldable pub link_messages : ℕ → ℕ → ℕ → List ThreadMessage → Identifiers → Linked → Linked
link_messages fuel max_references index [] ids l = l
link_messages fuel max_references index (m ∷ ms) ids l =
    link_messages fuel max_references (suc index) ms ids
      (link_message fuel max_references index m ids l)

abbrev pub one_deeper : Option ℕ → Option ℕ
one_deeper none = none
one_deeper (some d) = some (d + 1)

-- The depth below a parent, if any; a depth of the parent that is set already is taken.
abbrev pub depth_above : (ℕ → Option ℕ) → (ℕ → ℕ) → Option ℕ → Option ℕ
depth_above resolve depths none = some 0
depth_above resolve depths (some p) =
    if ltb 0 (depths p) then some (depths p + 1) else one_deeper (resolve p)

-- `resolveThreadDepth`, on fuel.
unfoldable pub resolve_depth : ℕ → ℕ → Parents → (ℕ → ℕ) → Option ℕ
resolve_depth zero index parents depths = none
resolve_depth (suc fuel) index parents depths =
    depth_above (λ p. resolve_depth fuel p parents depths) depths (parents index)

-- The variables of the loop over the depths.
pub record Measured : Type 0 where
  pub parents : Parents
  pub depths : ℕ → ℕ
  pub is_cut : Bool
  pub is_told : Bool

abbrev pub measure_at : ℕ → ℕ → Option ℕ → Measured → Measured
measure_at max_depth index none s = record s { is_told = false }
measure_at max_depth index (some d) s =
    if ltb max_depth d
    then record s {
      parents = put index none s.parents;
      depths = put index 0 s.depths;
      is_cut = true;
    }
    else record s { depths = put index d s.depths }

-- The loop over as many indices, from one on.
unfoldable pub measure_from : ℕ → ℕ → ℕ → ℕ → Measured → Measured
measure_from fuel max_depth zero index s = s
measure_from fuel max_depth (suc n) index s =
    measure_from fuel max_depth n (suc index)
      (measure_at max_depth index (resolve_depth fuel index s.parents s.depths) s)

abbrev pub unmeasured : Linked → Measured
unmeasured l = record { parents = l.parents; depths = λ i. 0; is_cut = false; is_told = l.is_told }

-- The two loops over the messages.
unfoldable pub link_thread : ℕ → List ThreadMessage → Linked
link_thread max_references ordered =
    link_messages (suc (suc (length ordered))) max_references 0 ordered
      (identifiers_from 0 ordered []) unlinked

unfoldable pub measure_thread : ℕ → ℕ → List ThreadMessage → Measured
measure_thread max_references max_depth ordered =
    measure_from (suc (length ordered)) max_depth (length ordered) 0
      (unmeasured (link_thread max_references ordered))

abbrev pub key_at : List ThreadMessage → ℕ → Bytes
key_at [] i = []
key_at (m ∷ ms) zero = m.key
key_at (m ∷ ms) (suc i) = key_at ms i

abbrev pub key_of_parent : List ThreadMessage → Option ℕ → Bytes
key_of_parent ordered none = []
key_of_parent ordered (some p) = key_at ordered p

-- The loop over the nodes, from an index on.
unfoldable pub nodes_from :
    List ThreadMessage → (ℕ → Bytes) → Measured → ℕ → List ThreadMessage → List ThreadNode
nodes_from ordered missing s index [] = []
nodes_from ordered missing s index (m ∷ ms) =
    record {
      key = m.key;
      message_id = m.message_id;
      parent_key = key_of_parent ordered (s.parents index);
      missing_parent_id = missing index;
      depth = s.depths index;
      message = m;
    }
    ∷ nodes_from ordered missing s (suc index) ms

-- The nodes of a thread, with whether references were cut, a cycle broken, and a depth cut.
unfoldable pub thread_nodes : ℕ → ℕ → List ThreadMessage → List ThreadNode × Bool × Bool × Bool
thread_nodes max_references max_depth ordered =
    let l = link_thread max_references ordered in
    let s = measure_thread max_references max_depth ordered in
    (nodes_from ordered l.missing s 0 ordered, l.is_cut, l.has_cycle, s.is_cut)
