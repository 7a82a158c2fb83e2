-- ===== src/Threads/Select.antt =====
-- bridge/threads.go: `earliestThreadMessages`, its order and its heap.
use croton_mcp.Base.{◌++◌, ℕ, suc, Bool, List, [], ◌∷◌, ltb, ◌==◌, if◌then◌else◌, length}
use croton_mcp.Text.{equal, less}
use croton_mcp.Threads.Links.{ThreadMessage}

-- `indexedThreadMessage`.
pub record IndexedMessage : Type 0 where
  pub message : ThreadMessage
  pub input_index : ℕ

-- `threadMessageBefore`, criterion by criterion.
abbrev pub index_before : IndexedMessage → IndexedMessage → Bool
index_before a b = ltb a.input_index b.input_index

abbrev pub id_before : IndexedMessage → IndexedMessage → Bool
id_before a b =
    if equal a.message.message_id b.message.message_id
    then index_before a b
    else less a.message.message_id b.message.message_id

abbrev pub key_before : IndexedMessage → IndexedMessage → Bool
key_before a b =
    if equal a.message.key b.message.key then id_before a b else less a.message.key b.message.key

unfoldable pub thread_message_before : IndexedMessage → IndexedMessage → Bool
thread_message_before a b =
    if a.message.received_at == b.message.received_at
    then key_before a b
    else ltb a.message.received_at b.message.received_at

-- `Less` of the heap: the latest message comes first.
abbrev pub latest_first : IndexedMessage → IndexedMessage → Bool
latest_first a b = thread_message_before b a

-- What is used of `container/heap`, on a slice under a `Less`: what `Push` does behind the `Push` of the
-- slice, and `Fix` at the index 0.
pub record Heap : Type 0 where
  pub up : (IndexedMessage → IndexedMessage → Bool) → List IndexedMessage → List IndexedMessage
  pub fix_first :
      (IndexedMessage → IndexedMessage → Bool) → List IndexedMessage → List IndexedMessage

-- `Push` of the slice.
abbrev pub push_value : List IndexedMessage → IndexedMessage → List IndexedMessage
push_value selected c = selected ++ c ∷ []

module _ (heap : Heap) where
  -- In place of the first, if the candidate is before it; with a limit of zero, which no limits have, the
  -- code would panic.
  unfoldable pub replace_first : IndexedMessage → List IndexedMessage → List IndexedMessage
  replace_first c [] = []
  replace_first c (x ∷ xs) =
      if thread_message_before c x then heap.fix_first latest_first (c ∷ xs) else x ∷ xs

  -- One turn of the loop.
  unfoldable pub select_step : ℕ → List IndexedMessage → IndexedMessage → List IndexedMessage
  unfolding replace_first
  select_step limit selected c =
      if ltb (length selected) limit
      then heap.up latest_first (push_value selected c)
      else replace_first c selected

  unfoldable pub select_all : ℕ → List IndexedMessage → List IndexedMessage → List IndexedMessage
  select_all limit selected [] = selected
  select_all limit selected (c ∷ cs) = select_all limit (select_step limit selected c) cs

module _ {A : Type 0} (before : A → A → Bool) where
  unfoldable pub insert_by : A → List A → List A
  insert_by c [] = c ∷ []
  insert_by c (x ∷ xs) = let rest = insert_by c xs in if before c x then c ∷ x ∷ xs else x ∷ rest

  -- The sort at the end, by insertion.
  unfoldable pub sort_all : List A → List A → List A
  unfolding insert_by
  sort_all sorted [] = sorted
  sort_all sorted (c ∷ cs) = sort_all (insert_by c sorted) cs

unfoldable pub index_from : ℕ → List ThreadMessage → List IndexedMessage
index_from index [] = []
index_from index (m ∷ ms) = record { message = m; input_index = index } ∷ index_from (suc index) ms

abbrev pub messages_of : List IndexedMessage → List ThreadMessage
messages_of [] = []
messages_of (m ∷ ms) = m.message ∷ messages_of ms

-- `earliestThreadMessages`.
unfoldable pub earliest_messages : Heap → ℕ → List ThreadMessage → List ThreadMessage
unfolding select_all sort_all index_from
earliest_messages heap limit ms =
    messages_of (sort_all thread_message_before [] (select_all heap limit [] (index_from 0 ms)))
