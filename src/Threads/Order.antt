-- ===== src/Threads/Order.antt =====
-- The order of the messages of a thread is strict, and no two messages are alike in it.
use croton_mcp.Base.{
  ℕ, suc, ◌+◌, ◌++◌, ◌≤◌, min, leb, length, length-append, ◌<◌, Bool, true, false, Bool-cases, ◌⊎◌,
  inl, inr, List, [], ◌∷◌, ltb, ◌==◌, if◌then◌else◌, Bytes, ◌≡◌, refl, sym, ap, subst, ◌∙◌, arith,
  of_branches,
}
use croton_mcp.Text.{equal, less, equal-eq, equal_self}
use croton_mcp.Threads.Ascending.{IsWeakOrder, IsAscending, sort_all-IsAscending}
use croton_mcp.Threads.Links.{ThreadMessage}
use croton_mcp.Threads.Sorted.{sort_all-Perm}
use mathlib.Core.List.{Perm}
use mathlib.Core.List.Perm
use croton_mcp.Threads.Selection.{IsHeap, NoneEarlier, Perm-length, selected-IsSelection}
use croton_mcp.Threads.Select.{
  IndexedMessage, Heap, latest_first, select_all, index_before, id_before, key_before,
  thread_message_before, sort_all, index_from, messages_of, earliest_messages,
}

-- A strict order of keys, with the test of their equality.
record IsKeyOrder {X : Type 0} (same before : X → X → Bool) : Type 0 where
  equals : (x y : X) → same x y ≡ true → x ≡ y
  self : (x : X) → same x x ≡ true
  irreflexive : (x : X) → before x x ≡ false
  transitive : (x y z : X) → before x y ≡ true → before y z ≡ true → before x z ≡ true
  total : (x y : X) → same x y ≡ false → (before x y ≡ true) ⊎ (before y x ≡ true)

less-irreflexive : (s : Bytes) → less s s ≡ false
unfolding less
less-irreflexive [] = refl
less-irreflexive (c ∷ s) =
    of_branches (λ b. b ≡ false) (c == c) (less s s) (ltb c c) (λ e. less-irreflexive s)
      (λ e. ground (arith, e))

less-cons :
    (c d : ℕ) (s t : Bytes) → less (c ∷ s) (d ∷ t) ≡ true → ((c ≡ d) × (less s t ≡ true)) ⊎ (c < d)
unfolding less
less-cons c d s t h =
    of_branches (λ b. b ≡ true → ((c ≡ d) × (less s t ≡ true)) ⊎ (c < d)) (c == d) (less s t)
      (ltb c d) (λ e h. inl (ground (arith, e), h)) (λ e h. inr (ground (arith, h))) h

less-equal : (c d : ℕ) (s t : Bytes) → c ≡ d → less s t ≡ true → less (c ∷ s) (d ∷ t) ≡ true
unfolding less
less-equal c d s t e h = let same : (c == d) ≡ true = ground (arith, e) in rw same h

less-first : (c d : ℕ) (s t : Bytes) → c < d → less (c ∷ s) (d ∷ t) ≡ true
unfolding less
less-first c d s t l =
    let same : (c == d) ≡ false = ground (arith, l) in rw same (ground (arith, l))

less-transitive : (s t u : Bytes) → less s t ≡ true → less t u ≡ true → less s u ≡ true
unfolding less
less-transitive s [] u h k = absurd (cc h)
less-transitive s (d ∷ t) [] h k = absurd (cc k)
less-transitive [] (d ∷ t) (e ∷ u) h k = refl
less-transitive (c ∷ s) (d ∷ t) (e ∷ u) h k = elim (less-cons c d s t h) [
  | inl p ↦ elim (less-cons d e t u k) [
    | inl q ↦ less-equal c e s u (p.0 ∙ q.0) (less-transitive s t u p.1 q.1)
    | inr l ↦ less-first c e s u (omega (arith, p.0, l))
  ]
  | inr l ↦ elim (less-cons d e t u k) [
    | inl q ↦ less-first c e s u (omega (arith, l, q.0))
    | inr m ↦ less-first c e s u (omega (arith, l, m))
  ]
]

less-total : (s t : Bytes) → equal s t ≡ false → (less s t ≡ true) ⊎ (less t s ≡ true)
unfolding equal less
less-total [] [] h = absurd (cc h)
less-total [] (d ∷ t) h = inl refl
less-total (c ∷ s) [] h = inr refl
less-total (c ∷ s) (d ∷ t) h = elim (Bool-cases (c == d)) [
  | inl e ↦
      (let same : c ≡ d = ground (arith, e) in
        elim (less-total s t (ground (arith, e, h))) [
          | inl l ↦ inl (less-equal c d s t same l)
          | inr l ↦ inr (less-equal d c t s (sym same) l)
        ])
  | inr e ↦ elim (Bool-cases (ltb c d)) [
    | inl l ↦ inl (less-first c d s t (ground (arith, l)))
    | inr l ↦ inr (less-first d c t s (ground (arith, e, l)))
  ]
]

bytes-IsKeyOrder : IsKeyOrder equal less
bytes-IsKeyOrder = record {
  equals = equal-eq;
  self = equal_self;
  irreflexive = less-irreflexive;
  transitive = less-transitive;
  total = less-total;
}

ltb-total : (x y : ℕ) → (x == y) ≡ false → (ltb x y ≡ true) ⊎ (ltb y x ≡ true)
ltb-total x y h = elim (Bool-cases (ltb x y)) [ inl l ↦ inl l | inr l ↦ inr (ground (arith, h, l)) ]

abbrev same_number : ℕ → ℕ → Bool
same_number x y = x == y

numbers-IsKeyOrder : IsKeyOrder same_number ltb
numbers-IsKeyOrder = record {
  equals = λ x y e. ground (arith, e);
  self = λ x. ground arith;
  irreflexive = λ x. ground arith;
  transitive = λ x y z h k. ground (arith, h, k);
  total = ltb-total;
}

-- One criterion in front of others.
module _ {A X : Type 0} (key : A → X) (same before : X → X → Bool) (rest : A → A → Bool) where
  abbrev in_front : A → A → Bool
  in_front a b = if same (key a) (key b) then rest a b else before (key a) (key b)

  module _ (keys : IsKeyOrder same before) (others : IsWeakOrder rest) where
    in_front-cases :
        (a b : A)
        → in_front a b ≡ true
        → ((key a ≡ key b) × (rest a b ≡ true)) ⊎ (before (key a) (key b) ≡ true)
    in_front-cases a b h =
        of_branches
          (λ c. c ≡ true → ((key a ≡ key b) × (rest a b ≡ true)) ⊎ (before (key a) (key b) ≡ true))
          (same (key a) (key b)) (rest a b) (before (key a) (key b))
          (λ e h. inl (keys.equals (key a) (key b) e, h)) (λ e h. inr h) h

    in_front-equal : (a b : A) → key a ≡ key b → rest a b ≡ true → in_front a b ≡ true
    in_front-equal a b e h =
        let f : same (key a) (key b) ≡ true =
          subst (λ x. same (key a) x ≡ true) e (keys.self (key a)) in
        rw f h

    in_front-first : (a b : A) → before (key a) (key b) ≡ true → in_front a b ≡ true
    in_front-first a b h = elim (Bool-cases (same (key a) (key b))) [
      | inl e ↦ absurd (
          cc (
            sym (keys.irreflexive (key a))
            ∙ subst (λ x. before (key a) x ≡ true) (sym (keys.equals (key a) (key b) e)) h))
      | inr e ↦ rw e h
    ]

    in_front-irreflexive : (a : A) → in_front a a ≡ false
    in_front-irreflexive a = rw (keys.self (key a)) (others.irreflexive a)

    in_front-transitive :
        (a b c : A) → in_front a b ≡ true → in_front b c ≡ true → in_front a c ≡ true
    in_front-transitive a b c h k = elim (in_front-cases a b h) [
      | inl p ↦ elim (in_front-cases b c k) [
        | inl q ↦ in_front-equal a c (p.0 ∙ q.0) (others.transitive a b c p.1 q.1)
        | inr l ↦ in_front-first a c (subst (λ x. before x (key c) ≡ true) (sym p.0) l)
      ]
      | inr l ↦ elim (in_front-cases b c k) [
        | inl q ↦ in_front-first a c (subst (λ x. before (key a) x ≡ true) q.0 l)
        | inr m ↦ in_front-first a c (keys.transitive (key a) (key b) (key c) l m)
      ]
    ]

    in_front-splits :
        (a b c : A) → in_front a c ≡ true → (in_front a b ≡ true) ⊎ (in_front b c ≡ true)
    in_front-splits a b c h = elim (Bool-cases (same (key a) (key b))) [
      | inl e ↦
          (let ab = keys.equals (key a) (key b) e in
            elim (in_front-cases a c h) [
              | inl p ↦ elim (others.splits a b c p.1) [
                | inl l ↦ inl (in_front-equal a b ab l)
                | inr l ↦ inr (in_front-equal b c (sym ab ∙ p.0) l)
              ]
              | inr l ↦ inr (in_front-first b c (subst (λ x. before x (key c) ≡ true) ab l))
            ])
      | inr e ↦ elim (keys.total (key a) (key b) e) [
        | inl l ↦ inl (in_front-first a b l)
        | inr l ↦ elim (in_front-cases a c h) [
          | inl p ↦ inr (in_front-first b c (subst (λ x. before (key b) x ≡ true) p.0 l))
          | inr m ↦ inr (in_front-first b c (keys.transitive (key b) (key a) (key c) l m))
        ]
      ]
    ]

    in_front-IsWeakOrder : IsWeakOrder in_front
    in_front-IsWeakOrder = record {
      irreflexive = in_front-irreflexive;
      transitive = in_front-transitive;
      splits = in_front-splits;
    }

index_before-IsWeakOrder : IsWeakOrder index_before
index_before-IsWeakOrder = record {
  irreflexive = λ a. ground arith;
  transitive = λ a b c h k. ground (arith, h, k);
  splits = λ a b c h. elim (Bool-cases (ltb a.input_index b.input_index)) [
    | inl l ↦ inl l
    | inr l ↦ inr (ground (arith, h, l))
  ];
}

thread_message_before-IsWeakOrder : IsWeakOrder thread_message_before
unfolding thread_message_before
thread_message_before-IsWeakOrder =
    in_front-IsWeakOrder (λ a. a.message.received_at) same_number ltb key_before numbers-IsKeyOrder
      (in_front-IsWeakOrder (λ a. a.message.key) equal less id_before bytes-IsKeyOrder
        (in_front-IsWeakOrder (λ a. a.message.message_id) equal less index_before bytes-IsKeyOrder
          index_before-IsWeakOrder))

-- The messages of some list that ascends, which holds all or as many as the limit allows, and none of the
-- rest is before any of it.
abbrev pub AreEarliest : ℕ → List ThreadMessage → List ThreadMessage → Type 0
AreEarliest limit ms chosen =
    (sorted : List IndexedMessage) × (rejected : List IndexedMessage) × (chosen
      ≡ messages_of sorted)
    × IsAscending thread_message_before sorted
    × Perm (sorted ++ rejected) (index_from 0 ms)
    × NoneEarlier rejected sorted
    × (length sorted ≡ min limit (length ms))

length-index_from : (index : ℕ) (ms : List ThreadMessage) → length (index_from index ms) ≡ length ms
unfolding index_from
length-index_from index [] = refl
length-index_from index (m ∷ ms) = ap suc (length-index_from (suc index) ms)

-- A selection that is not full has rejected nothing.
size-min :
    (limit n : ℕ) (selected rejected all : List IndexedMessage)
    → Perm (selected ++ rejected) all
    → length all ≡ n
    → length selected ≤ suc limit
    → (length selected ≤ limit → rejected ≡ [])
    → length selected ≡ min (suc limit) n
size-min limit n selected rejected all p e few full =
    let whole : length selected + length rejected ≡ n =
      sym (length-append selected rejected) ∙ Perm-length p ∙ e in
    elim (Bool-cases (leb (length selected) limit)) [
      | inl l ↦
          (let none : length rejected ≡ 0 = ap length (full (ground (arith, l))) in
            ground (arith, l, none, whole))
      | inr l ↦ ground (arith, l, few, whole)
    ]

-- If the heap keeps its promises and the limit is not zero, then the messages that are taken are those of an
-- ascending list, by date, key, identifier and position in the input; it and a rest are all of the input, no
-- message of the rest is before one of the list, and there are as many as the limit allows.
pub earliest_messages-AreEarliest :
    (heap : Heap) (law : IsHeap heap latest_first) (limit : ℕ) (ms : List ThreadMessage)
    → AreEarliest (suc limit) ms (earliest_messages heap (suc limit) ms)
unfolding earliest_messages
earliest_messages-AreEarliest heap law limit ms =
    let input = index_from 0 ms in
    let chosen = select_all heap (suc limit) [] input in
    let k = selected-IsSelection heap law thread_message_before-IsWeakOrder limit input in
    let sorted = sort_all-Perm thread_message_before [] chosen in
    let whole = Perm.trans (Perm.append sorted (Perm.refl k.rejected)) k.whole in
    (
      sort_all thread_message_before [] chosen,
      k.rejected,
      refl,
      sort_all-IsAscending thread_message_before thread_message_before-IsWeakOrder [] chosen tt,
      whole,
      λ r m s n. k.earlier r m s (Perm.subset sorted s n),
      Perm-length sorted
          ∙ size-min limit (length ms) chosen k.rejected input k.whole (length-index_from 0 ms)
              k.few k.full,
    )

-- The opposite order.
pub latest_first-IsWeakOrder : IsWeakOrder latest_first
latest_first-IsWeakOrder =
    let order = thread_message_before-IsWeakOrder in
    record {
      irreflexive = order.irreflexive;
      transitive = λ a b c h k. order.transitive c b a k h;
      splits = λ a b c h. elim (order.splits c b a h) [ inl l ↦ inr l | inr l ↦ inl l ];
    }
