-- ===== src/Threads/Examples.antt =====
-- Threads: one whose messages refer to each other in a circle, and one with a key twice.
use croton_mcp.Base.{
  ℕ, suc, Bool, true, false, ◌≡◌, refl, Option, none, some, List, [], ◌∷◌, ◌++◌, Bytes, codes,
  length, pos, abs,
}
use mathlib.Core.List.{Mem, not-mem-nil}
use croton_mcp.Bounds.Normalize.{NormalizeLimits, normalized_limits}
use croton_mcp.Text.{equal, format_uint, format_from}
use croton_mcp.Threads.Depths.{AreExact, measure_thread-AreExact}
use croton_mcp.Threads.Links.{
  ThreadMessage, ThreadNode, find_identifier, identifiers_from, last_known, parent_for, would_cycle,
  link_message, link_messages, link_thread, resolve_depth, measure_from, measure_thread, nodes_from,
  thread_nodes,
}
use croton_mcp.Threads.Keys.{has_key, key_from, stable_thread_key, set_keys, build_thread}
use croton_mcp.Threads.Ascending.{IsAscending, NoneBefore, sort_all-IsAscending}
use croton_mcp.Threads.Order.{AreEarliest, latest_first-IsWeakOrder, earliest_messages-AreEarliest}
use croton_mcp.Threads.Select.{
  IndexedMessage, Heap, insert_by, replace_first, select_step, select_all, sort_all, index_from,
  thread_message_before, latest_first, earliest_messages,
}
use croton_mcp.Threads.Selection.{IsHeap, fails_cons}
use croton_mcp.Threads.Sorted.{sort_all-Perm}
use croton_mcp.Threads.Whole.{IsThread, build_thread-IsThread}

abbrev message : Bytes → List Bytes → ThreadMessage
message id references = record {
  key = id;
  message_id = id;
  in_reply_to = [];
  references = references;
  received_at = 0;
}

-- Each refers to the next, and the last to the first.
abbrev circle : List ThreadMessage
circle =
    message (codes "a") (codes "b" ∷ [])
    ∷ message (codes "b") (codes "c" ∷ [])
    ∷ message (codes "c") (codes "a" ∷ [])
    ∷ []

abbrev depths_of : List ThreadNode → List ℕ
depths_of [] = []
depths_of (n ∷ ns) = n.depth ∷ depths_of ns

unfoldable run : ℕ → List ℕ × Bool × Bool × Bool
unfolding thread_nodes nodes_from measure_thread measure_from resolve_depth link_thread
    link_messages link_message would_cycle parent_for last_known identifiers_from find_identifier
    equal
run max_depth = let t = thread_nodes 5 max_depth circle in (depths_of t.0, t.1, t.2, t.3)

breaks_the_circle : run 5 ≡ (2 ∷ 1 ∷ 0 ∷ [], false, true, false)
unfolding run
breaks_the_circle = refl

cuts_the_deepest : run 1 ≡ (0 ∷ 1 ∷ 0 ∷ [], false, true, true)
unfolding run
cuts_the_deepest = refl

measure_thread-AreExact_example : AreExact (length circle) 1 (measure_thread 5 1 circle)
measure_thread-AreExact_example = measure_thread-AreExact 5 1 circle

abbrev at_time : ℕ → Bytes → ThreadMessage
at_time t id = record (message id []) { received_at = t }

abbrev late_first : List ThreadMessage
late_first =
    at_time 5 (codes "c")
    ∷ at_time 1 (codes "b")
    ∷ at_time 3 (codes "a")
    ∷ at_time 1 (codes "b")
    ∷ []

abbrev ids_of : List ThreadMessage → List Bytes
ids_of [] = []
ids_of (m ∷ ms) = m.message_id ∷ ids_of ms

abbrev keys_of : Option (List ThreadMessage) → List Bytes
keys_of none = []
keys_of (some []) = []
keys_of (some (m ∷ ms)) = m.key ∷ keys_of (some ms)

-- A heap that keeps its elements sorted.
abbrev sorting : Heap
sorting = record {
  up = λ before xs. sort_all before [] xs;
  fix_first = λ before xs. sort_all before [] xs;
}

first-NoneBefore :
    (x : IndexedMessage) (xs : List IndexedMessage)
    → NoneBefore latest_first x xs
    → (y : IndexedMessage) → Mem y xs
    → latest_first y x ≡ false
first-NoneBefore x [] h y m = absurd (not-mem-nil m)
first-NoneBefore x (z ∷ zs) h y m =
    fails_cons (λ a. latest_first a x) z zs h.0 (first-NoneBefore x zs h.1) y m

sorting-IsHeap : IsHeap sorting latest_first
sorting-IsHeap = record {
  IsOrdered = IsAscending latest_first;
  empty = tt;
  first = λ x xs h. first-NoneBefore x xs h.0;
  up-IsOrdered =
      λ xs c h. sort_all-IsAscending latest_first latest_first-IsWeakOrder [] (xs ++ c ∷ []) tt;
  up-Perm = λ xs. sort_all-Perm latest_first [] xs;
  fix_first-IsOrdered =
      λ x c xs h. sort_all-IsAscending latest_first latest_first-IsWeakOrder [] (c ∷ xs) tt;
  fix_first-Perm = λ xs. sort_all-Perm latest_first [] xs;
}

takes_the_earliest :
    ids_of (earliest_messages sorting 3 late_first) ≡ codes "b" ∷ codes "b" ∷ codes "a" ∷ []
unfolding earliest_messages select_all select_step insert_by replace_first index_from
    thread_message_before equal
takes_the_earliest = refl

tells_keys_apart :
    keys_of (set_keys [] late_first) ≡ codes "c" ∷ codes "b" ∷ codes "a" ∷ codes "b#2" ∷ []
unfolding set_keys stable_thread_key key_from has_key format_uint format_from equal
tells_keys_apart = refl

earliest_messages-AreEarliest_example :
    AreEarliest (suc 2) late_first (earliest_messages sorting (suc 2) late_first)
earliest_messages-AreEarliest_example =
    earliest_messages-AreEarliest sorting sorting-IsHeap 2 late_first

abbrev no_limits : NormalizeLimits
no_limits = record {
  limit_raw_bytes = pos 0;
  limit_header_bytes = pos 0;
  limit_header_count = pos 0;
  limit_mime_parts = pos 0;
  limit_mime_depth = pos 0;
  limit_decoded_text_bytes = pos 0;
  limit_attachment_count = pos 0;
  limit_filename_bytes = pos 0;
  limit_content_type_bytes = pos 0;
  limit_disposition_bytes = pos 0;
  limit_reference_count = pos 0;
  limit_thread_depth = pos 3;
  limit_thread_messages = pos 3;
}

build_thread-IsThread_example :
    IsThread
      (abs (normalized_limits no_limits).limit_thread_depth)
      (build_thread sorting circle no_limits)
build_thread-IsThread_example = build_thread-IsThread sorting circle no_limits
