-- ===== src/Output/Faithful.antt =====
-- What a tool returns is within the budget, and is the result itself or a marked part of it.
use croton_mcp.Base.{
  ℕ, zero, suc, ◌≤◌, ◌<◌, Bool, true, false, Option, none, some, leb, Bytes, length, ◌⊎◌, inl, inr,
  ◌≡◌, refl, sym, ap, ◌∙◌, arith, of_branches,
}
use croton_mcp.Output.Encode.{
  max_tool_result_bytes, Shape, IsShrinking, Encoded, encoded, marshal_failed,
  unretainable_identity, untold, static_result, last_resort, encode_fallback, fall_back,
  after_shrink, after_marshal, encode_from, encode_bounded,
}

module _ {A I : Type 0} (shape : Shape A I) where
  abbrev IsTooLarge : A → Type 0
  IsTooLarge a = (b : Bytes) × (shape.marshal a ≡ some b) × (max_tool_result_bytes < length b)

  -- The bytes are those of some value, which is the result itself where nothing was cut, and else is
  -- marked as cut and only stands in for a result that is too large; if the result can be selected, the value has its identity.
  abbrev pub IsPartOf : A → Bytes → Bool → Type 0
  IsPartOf a b truncated =
      (x : A) × (shape.marshal x ≡ some b)
      × (truncated ≡ false → x ≡ a)
      × (truncated ≡ true → (shape.is_truncated x ≡ true) × IsTooLarge a)
      × (shape.is_selectable ≡ true → shape.identity x ≡ shape.identity a)

  abbrev IsStatic : A → Bytes → Bool → Type 0
  IsStatic a b truncated =
      (shape.is_selectable ≡ false) × (b ≡ static_result) × (truncated ≡ true) × IsTooLarge a

  -- What may come of a result: its own bytes or those of a part within the budget, the static answer
  -- where it has no identity to keep, a refusal where it has one, or an error of the marshalling.
  abbrev pub IsFaithful : A → Encoded → Type 0
  IsFaithful a (encoded b truncated) =
      (length b ≤ max_tool_result_bytes) × (IsPartOf a b truncated ⊎ IsStatic a b truncated)
  IsFaithful a marshal_failed = (x : A) × (shape.marshal x ≡ none)
  IsFaithful a unretainable_identity = (shape.is_selectable ≡ true) × IsTooLarge a
  IsFaithful a untold = ⊥

  static-length : length static_result ≤ max_tool_result_bytes
  static-length = omega arith

  last_resort-IsFaithful : (a : A) → IsTooLarge a → IsFaithful a (last_resort shape)
  last_resort-IsFaithful a large =
      of_branches (IsFaithful a) shape.is_selectable unretainable_identity
        (encoded static_result true) (λ e. (e, large))
        (λ e. (static-length, inr (e, refl, refl, large)))

  module _ (law : IsShrinking shape) where
    -- A value the loop may stand at: the result itself, or a part of it.
    abbrev Reached : A → Bool → A → Type 0
    Reached a truncated x =
        (truncated ≡ false → x ≡ a)
        × (truncated ≡ true → (shape.is_truncated x ≡ true) × IsTooLarge a)
        × (shape.identity x ≡ shape.identity a)

    encode_fallback-IsFaithful :
        (a f : A) (o : Option Bytes)
        → IsTooLarge a
        → shape.marshal f ≡ o
        → shape.is_truncated f ≡ true
        → (shape.is_selectable ≡ true → shape.identity f ≡ shape.identity a)
        → IsFaithful a (encode_fallback shape o)
    encode_fallback-IsFaithful a f none large e t k = (f, e)
    encode_fallback-IsFaithful a f (some b) large e t k =
        of_branches (IsFaithful a) (leb (length b) max_tool_result_bytes) (encoded b true)
          (last_resort shape)
          (λ l. (ground (arith, l), inl (f, e, (λ c. absurd (cc c)), (λ c. (t, large)), k)))
          (λ l. last_resort-IsFaithful a large)

    fall_back-IsFaithful :
        (a x : A) (o : Option A)
        → IsTooLarge a
        → shape.identity x ≡ shape.identity a
        → shape.fallback x ≡ o
        → IsFaithful a (fall_back shape o)
    fall_back-IsFaithful a x none large k e = last_resort-IsFaithful a large
    fall_back-IsFaithful a x (some f) large k e =
        encode_fallback-IsFaithful a f (shape.marshal f) large refl (law.fallback_marks x f e)
          (λ s. law.fallback_keeps x f s e ∙ k)

    after_shrink-IsFaithful :
        (a x : A) (again : A → Encoded) (o : Option A)
        → ((y : A) → law.size y < law.size x → Reached a true y → IsFaithful a (again y))
        → IsTooLarge a
        → shape.identity x ≡ shape.identity a
        → shape.shrink x ≡ o
        → IsFaithful a (after_shrink shape again x o)
    after_shrink-IsFaithful a x again none h large k e =
        fall_back-IsFaithful a x (shape.fallback x) large k refl
    after_shrink-IsFaithful a x again (some y) h large k e =
        h y (law.smaller x y e)
          ((λ c. absurd (cc c)), (λ c. (law.shrink_marks x y e, large)), law.shrink_keeps x y e ∙ k)

    too_large :
        (a x : A) (truncated : Bool) (b : Bytes)
        → Reached a truncated x
        → shape.marshal x ≡ some b
        → max_tool_result_bytes < length b
        → IsTooLarge a
    too_large a x false b r e l = (b, sym (ap shape.marshal (r.0 refl)) ∙ e, l)
    too_large a x true b r e l = (r.1 refl).1

    after_marshal-IsFaithful :
        (a x : A) (truncated : Bool) (again : A → Encoded) (o : Option Bytes)
        → ((y : A) → law.size y < law.size x → Reached a true y → IsFaithful a (again y))
        → Reached a truncated x
        → shape.marshal x ≡ o
        → IsFaithful a (after_marshal shape again truncated x o)
    after_marshal-IsFaithful a x truncated again none h r e = (x, e)
    after_marshal-IsFaithful a x truncated again (some b) h r e =
        of_branches (IsFaithful a) (leb (length b) max_tool_result_bytes) (encoded b truncated)
          (after_shrink shape again x (shape.shrink x))
          (λ l. (ground (arith, l), inl (x, e, r.0, r.1, (λ s. r.2))))
          (λ l.
            after_shrink-IsFaithful a x again (shape.shrink x) h
              (too_large a x truncated b r e (ground (arith, l))) r.2 refl)

    encode_from-IsFaithful :
        (a : A) (fuel : ℕ) (truncated : Bool) (x : A)
        → law.size x < fuel
        → Reached a truncated x
        → IsFaithful a (encode_from shape fuel truncated x)
    unfolding encode_from
    encode_from-IsFaithful a zero truncated x l r = absurd (omega (arith, l))
    encode_from-IsFaithful a (suc fuel) truncated x l r =
        after_marshal-IsFaithful a x truncated (encode_from shape fuel true) (shape.marshal x)
          (λ y s q. encode_from-IsFaithful a fuel true y (omega (arith, s, l)) q) r refl

    -- Where shrinking makes results smaller, marks them and keeps their identity, and so do fallbacks of
    -- selectable results: the encoding ends within its fuel. It returns bytes of at most the budget that
    -- are those of the result itself, or, only if that is too large, those of a value that is marked as
    -- truncated and, for a selectable result, has the same identity, or the static answer, if it is not
    -- selectable. It refuses only a selectable result that is too large, and a marshalling error is that
    -- of some value.
    pub encode_bounded-IsFaithful : (a : A) → IsFaithful a (encode_bounded shape law.size a)
    unfolding encode_bounded
    encode_bounded-IsFaithful a =
        encode_from-IsFaithful a (suc (law.size a)) false a (omega arith)
          ((λ c. refl), (λ c. absurd (cc c)), refl)
