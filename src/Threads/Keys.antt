-- ===== src/Threads/Keys.antt =====
-- bridge/threads.go: the stable keys of the messages, and `BuildThread` as a whole.
use croton_mcp.Base.{
  ℕ, zero, suc, Bool, true, false, Option, none, some, List, [], ◌∷◌, ◌++◌, ltb, if◌then◌else◌,
  Bytes, codes, length, abs,
}
use croton_mcp.Bounds.Normalize.{NormalizeLimits, normalized_limits}
use croton_mcp.Text.{equal, is_empty, format_uint}
use croton_mcp.Threads.Links.{ThreadMessage, ThreadNode, measure_thread, thread_nodes}
use croton_mcp.Threads.Select.{Heap, earliest_messages}

unfoldable pub has_key : Bytes → List Bytes → Bool
has_key key [] = false
has_key key (k ∷ ks) = let rest = has_key key ks in if equal k key then true else rest

abbrev pub candidate : Bytes → ℕ → Bytes
candidate base suffix = base ++ b'#' ∷ format_uint suffix

-- The loop of `stableThreadKey`, on fuel; the keys of the map are a list, in the order of the indices.
unfoldable pub key_from : ℕ → ℕ → Bytes → Bytes → List Bytes → Option Bytes
unfolding has_key format_uint
key_from zero suffix base key keys = none
key_from (suc fuel) suffix base key keys =
    let rest = key_from fuel (suc suffix) base (candidate base suffix) keys in
    if has_key key keys then rest else some key

abbrev pub base_key : ThreadMessage → Bytes
base_key m =
    if is_empty m.key
    then if is_empty m.message_id then codes "message" else m.message_id
    else m.key

-- `stableThreadKey`.
unfoldable pub stable_thread_key : ThreadMessage → List Bytes → Option Bytes
unfolding key_from
stable_thread_key m keys = key_from (suc (length keys)) 2 (base_key m) (base_key m) keys

abbrev pub with_front : ThreadMessage → Option (List ThreadMessage) → Option (List ThreadMessage)
with_front m none = none
with_front m (some ms) = some (m ∷ ms)

abbrev pub keyed_with :
    ThreadMessage
    → Option Bytes
    → (Bytes → Option (List ThreadMessage))
    → Option (List ThreadMessage)
keyed_with m none rest = none
keyed_with m (some key) rest = with_front (record m { key = key }) (rest key)

-- The loop over the messages that sets their keys, behind others.
unfoldable pub set_keys : List Bytes → List ThreadMessage → Option (List ThreadMessage)
set_keys keys [] = some []
set_keys keys (m ∷ ms) =
    keyed_with m (stable_thread_key m keys) (λ key. set_keys (keys ++ key ∷ []) ms)

-- `Thread`, with the flags of its truncation that are ever set.
pub record Thread : Type 0 where
  pub nodes : List ThreadNode
  pub references_cut : Bool
  pub has_cycle : Bool
  pub depth_cut : Bool
  pub messages_cut : Bool

-- Whether the loops over the links and depths ended within their fuel.
abbrev pub told_thread : Bool → Thread → Option Thread
told_thread true t = some t
told_thread false t = none

abbrev pub thread_of : ℕ → ℕ → Bool → Option (List ThreadMessage) → Option Thread
thread_of max_references max_depth cut none = none
thread_of max_references max_depth cut (some ordered) =
    let t = thread_nodes max_references max_depth ordered in
    told_thread (measure_thread max_references max_depth ordered).is_told (record {
      nodes = t.0;
      references_cut = t.1;
      has_cycle = t.2;
      depth_cut = t.3;
      messages_cut = cut;
    })

-- `BuildThread`; `none` is an end of the fuel of any of its loops.
unfoldable pub build_thread : Heap → List ThreadMessage → NormalizeLimits → Option Thread
unfolding set_keys thread_nodes earliest_messages normalized_limits
build_thread heap messages options =
    let limits = normalized_limits options in
    thread_of (abs limits.limit_reference_count) (abs limits.limit_thread_depth)
      (ltb (abs limits.limit_thread_messages) (length messages))
      (set_keys [] (earliest_messages heap (abs limits.limit_thread_messages) messages))
