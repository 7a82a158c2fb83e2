-- ===== src/Threads/Whole.antt =====
-- What a caller of `BuildThread` can rely on.
use croton_mcp.Base.{
  ℕ, zero, suc, ◌+◌, ◌≤◌, ◌<◌, Bool, ◌⊎◌, inl, inr, Option, none, some, List, [], ◌∷◌, ltb, Bytes,
  length, abs, ◌≡◌, refl, sym, ap, subst, ◌∙◌, arith,
}
use croton_mcp.Bounds.Normalize.{NormalizeLimits, normalized_limits}
use croton_mcp.Threads.Depths.{AreExact, measure_thread-AreExact}
use croton_mcp.Threads.Distinct.{AreDistinct, keys_of, WithKeys, set_keys-WithKeys}
use croton_mcp.Threads.Keys.{set_keys, Thread, told_thread, thread_of, build_thread}
use croton_mcp.Threads.Links.{
  ThreadMessage, ThreadNode, Parents, Measured, link_thread, measure_thread, key_at, key_of_parent,
  nodes_from, thread_nodes,
}
use croton_mcp.Threads.Rooted.{Rooted, Rooted-unique}
use croton_mcp.Threads.Select.{Heap, earliest_messages}

abbrev pub Member : ThreadNode → List ThreadNode → Type 0
Member n [] = ⊥
Member n (m ∷ ms) = (n ≡ m) ⊎ Member n ms

-- A node is a root, or its parent is a node with one less of depth.
abbrev pub IsLinked : ℕ → List ThreadNode → ThreadNode → Type 0
IsLinked max_depth all n =
    (n.depth ≤ max_depth)
    × (((n.depth ≡ 0) × (n.parent_key ≡ []))
        ⊎ ((m : ThreadNode) × Member m all × (n.parent_key ≡ m.key) × (n.depth ≡ suc m.depth)))

abbrev pub AreLinked : ℕ → List ThreadNode → List ThreadNode → Type 0
AreLinked max_depth all [] = Unit
AreLinked max_depth all (n ∷ ns) = IsLinked max_depth all n × AreLinked max_depth all ns

abbrev pub node_keys : List ThreadNode → List Bytes
node_keys [] = []
node_keys (n ∷ ns) = n.key ∷ node_keys ns

Rooted-cases :
    (parents : Parents) (d i : ℕ)
    → Rooted parents d i
    → ((d ≡ 0) × (parents i ≡ none))
      ⊎ ((p : ℕ) × (e : ℕ) × (parents i ≡ some p) × (d ≡ suc e) × Rooted parents e p)
Rooted-cases parents zero i r = inl (refl, r)
Rooted-cases parents (suc d) i r = inr (r.0, d, r.1, refl, r.2)

module _ (ordered : List ThreadMessage) (missing : ℕ → Bytes) (s : Measured) where
  node_keys-nodes_from :
      (index : ℕ) (ms : List ThreadMessage)
      → node_keys (nodes_from ordered missing s index ms) ≡ keys_of ms
  unfolding nodes_from
  node_keys-nodes_from index [] = refl
  node_keys-nodes_from index (m ∷ ms) = ap (λ l. m.key ∷ l) (node_keys-nodes_from (suc index) ms)

  nodes_from-Member :
      (index p : ℕ) (ms : List ThreadMessage)
      → p < length ms
      → (n : ThreadNode) × Member n (nodes_from ordered missing s index ms)
        × (n.key ≡ key_at ms p)
        × (n.depth ≡ s.depths (index + p))
  unfolding nodes_from
  nodes_from-Member index p [] l = absurd (omega (arith, l))
  nodes_from-Member index zero (m ∷ ms) l = (_, inl refl, refl, ap s.depths (omega arith))
  nodes_from-Member index (suc p) (m ∷ ms) l =
      let rest = nodes_from-Member (suc index) p ms (omega (arith, l)) in
      (rest.0, inr rest.1, rest.2, rest.3 ∙ ap s.depths (omega arith))

  module _ (max_depth : ℕ) (exact : AreExact (length ordered) max_depth s) where
    abbrev all_nodes : List ThreadNode
    all_nodes = nodes_from ordered missing s 0 ordered

    linked_at :
        (i : ℕ)
        → i < length ordered
        → (s.depths i ≤ max_depth)
          × (((s.depths i ≡ 0) × (key_of_parent ordered (s.parents i) ≡ []))
              ⊎ ((m : ThreadNode) × Member m all_nodes
                  × (key_of_parent ordered (s.parents i) ≡ m.key)
                  × (s.depths i ≡ suc m.depth)))
    linked_at i l =
        let at = exact.2 i l in
        (
          at.1,
          elim (Rooted-cases s.parents (s.depths i) i at.0) [
            | inl r ↦ inl (r.0, ap (key_of_parent ordered) r.1)
            | inr (p, e, up, d, r) ↦
                (let below = exact.1 i p up in
                  let same = Rooted-unique s.parents e (s.depths p) p r (exact.2 p below).0 in
                  let m = nodes_from-Member 0 p ordered below in
                  let deep : m.0.depth ≡ s.depths p = m.3 ∙ ap s.depths (omega arith) in
                  inr (
                    m.0,
                    m.1,
                    ap (key_of_parent ordered) up ∙ sym m.2,
                    omega (arith, d, same, deep),
                  ))
          ],
        )

    nodes_from-AreLinked :
        (index : ℕ) (ms : List ThreadMessage)
        → index + length ms ≤ length ordered
        → AreLinked max_depth all_nodes (nodes_from ordered missing s index ms)
    unfolding nodes_from
    nodes_from-AreLinked index [] l = tt
    nodes_from-AreLinked index (m ∷ ms) l =
        (linked_at index (omega (arith, l)), nodes_from-AreLinked (suc index) ms (omega (arith, l)))

-- A thread with a key for each node, and the links and depths of a forest.
abbrev pub IsThread : ℕ → Option Thread → Type 0
IsThread max_depth o =
    (t : Thread) × (o ≡ some t)
    × AreDistinct (node_keys t.nodes)
    × AreLinked max_depth t.nodes t.nodes

thread_of-IsThread :
    (references max_depth n : ℕ) (cut : Bool) (o : Option (List ThreadMessage))
    → WithKeys [] n o
    → IsThread max_depth (thread_of references max_depth cut o)
unfolding thread_nodes
thread_of-IsThread references max_depth n cut o (ordered, e, a, d, l) =
    let linked = link_thread references ordered in
    let s = measure_thread references max_depth ordered in
    let exact = measure_thread-AreExact references max_depth ordered in
    let t : Thread = record {
      nodes = nodes_from ordered linked.missing s 0 ordered;
      references_cut = linked.is_cut;
      has_cycle = linked.has_cycle;
      depth_cut = s.is_cut;
      messages_cut = cut;
    } in
    (
      t,
      ap (thread_of references max_depth cut) e ∙ ap (λ b. told_thread b t) exact.0,
      subst AreDistinct (sym (node_keys-nodes_from ordered linked.missing s 0 ordered)) d,
      nodes_from-AreLinked ordered linked.missing s max_depth exact 0 ordered (omega arith),
    )

-- Whatever the messages are and however they refer to each other, a thread is built: its loops end
-- within their fuel, no two nodes have the same key, no depth is above the limit, and each node is a
-- root of depth 0 without a parent key, or names by its parent key a node whose depth is one less.
pub build_thread-IsThread :
    (heap : Heap) (messages : List ThreadMessage) (options : NormalizeLimits)
    → IsThread
        (abs (normalized_limits options).limit_thread_depth)
        (build_thread heap messages options)
unfolding build_thread
build_thread-IsThread heap messages options =
    let limits = normalized_limits options in
    let ordered = earliest_messages heap (abs limits.limit_thread_messages) messages in
    thread_of-IsThread (abs limits.limit_reference_count) (abs limits.limit_thread_depth)
      (length ordered) (ltb (abs limits.limit_thread_messages) (length messages))
      (set_keys [] ordered) (set_keys-WithKeys [] ordered)
