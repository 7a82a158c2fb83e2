-- ===== src/Strict/Whole.antt =====
-- A whole document: the fuel is enough, and one object without ambiguity is what is accepted.
use croton_mcp.Base.{
  ℕ, ◌+◌, ◌*◌, ◌≤◌, Bool, true, false, ◌&&◌, List, [], ◌∷◌, Bytes, length, ◌≡◌, refl, ap, ◌∙◌,
  arith,
}
use croton_mcp.Strict.Accepts.{verdict, fields-consumed, items-consumed}
use croton_mcp.Strict.Clean.{
  Json, nothing, number, string, array, object, Items, no_item, item, Fields, no_field, field,
  tokens_of, tokens_of_items, tokens_of_fields, is_clean, are_clean, are_fields_clean, cost,
  cost_items, cost_fields,
}
use croton_mcp.Strict.Decode.{
  Token, close_object, close_array, Rules, is_finished, enough, is_bounded, whole_object,
  whole_array, validate_object, validate_array, array_rules,
}

mutual
  unfolding cost tokens_of

  cost-tokens_of :
      (x : Json) (rest : List Token) → cost x + 2 * length rest ≤ 2 * length (tokens_of x rest)
  cost-tokens_of nothing rest = omega arith
  cost-tokens_of number rest = omega arith
  cost-tokens_of (string s) rest = omega arith
  cost-tokens_of (array xs) rest = omega (arith, cost_items-tokens xs (close_array ∷ rest))
  cost-tokens_of (object fs) rest = omega (arith, cost_fields-tokens fs (close_object ∷ rest))

  cost_items-tokens :
      (xs : Items) (rest : List Token)
      → cost_items xs + 2 * length rest ≤ 2 * length (tokens_of_items xs rest) + 1
  cost_items-tokens no_item rest = omega arith
  cost_items-tokens (item x xs) rest =
      omega (arith, cost-tokens_of x (tokens_of_items xs rest), cost_items-tokens xs rest)

  cost_fields-tokens :
      (fs : Fields) (rest : List Token)
      → cost_fields fs + 2 * length rest ≤ 2 * length (tokens_of_fields fs rest) + 1
  cost_fields-tokens no_field rest = omega arith
  cost_fields-tokens (field k x fs) rest =
      omega (arith, cost-tokens_of x (tokens_of_fields fs rest), cost_fields-tokens fs rest)

is_finished-verdict : (b : Bool) → is_finished (verdict b []) ≡ b
is_finished-verdict true = refl
is_finished-verdict false = refl

abbrev pub is_object : Json → Bool
is_object (object fs) = true
is_object _ = false

abbrev pub is_array : Json → Bool
is_array (array xs) = true
is_array _ = false

whole_object-tokens_of :
    (rules : Rules) (j : Json)
    → whole_object rules (tokens_of j []) ≡ (is_object j && is_clean rules 0 j)
unfolding tokens_of is_clean
whole_object-tokens_of rules nothing = refl
whole_object-tokens_of rules number = refl
whole_object-tokens_of rules (string s) = refl
whole_object-tokens_of rules (array xs) = refl
whole_object-tokens_of rules (object fs) =
    let rest = tokens_of_fields fs (close_object ∷ []) in
    ap is_finished (
      fields-consumed rules fs [] 1 (enough rest) []
        (omega (arith, cost_fields-tokens fs (close_object ∷ []))))
    ∙ is_finished-verdict (are_fields_clean rules [] 1 fs)

whole_array-tokens_of :
    (rules : Rules) (j : Json)
    → whole_array rules (tokens_of j []) ≡ (is_array j && is_clean rules 0 j)
unfolding tokens_of is_clean
whole_array-tokens_of rules nothing = refl
whole_array-tokens_of rules number = refl
whole_array-tokens_of rules (string s) = refl
whole_array-tokens_of rules (object fs) = refl
whole_array-tokens_of rules (array xs) =
    let rest = tokens_of_items xs (close_array ∷ []) in
    ap is_finished (
      items-consumed rules xs 1 (enough rest) []
        (omega (arith, cost_items-tokens xs (close_array ∷ []))))
    ∙ is_finished-verdict (are_clean rules 1 xs)

-- If the decoder reads a text as the tokens of one JSON value, then the text is accepted as an object
-- exactly if it is not empty and within a bound that is not zero, the value is an object, its nesting is
-- within the limit, no object in it takes a key twice, in the folded sense where aliases are refused, and
-- it has no null where nulls are refused.
pub validate_object-is_clean :
    (decode : Bytes → List Token) (rules : Rules) (maximum : ℕ) (s : Bytes) (j : Json)
    → decode s ≡ tokens_of j []
    → validate_object decode rules maximum s
      ≡ (is_bounded maximum s && (is_object j && is_clean rules 0 j))
unfolding validate_object
validate_object-is_clean decode rules maximum s j e =
    ap (λ b. is_bounded maximum s && b) (ap (whole_object rules) e ∙ whole_object-tokens_of rules j)

-- If the decoder reads a text as the tokens of one JSON value, then the text is accepted as an array
-- exactly if it is not empty and within a bound that is not zero, the value is an array, its nesting is
-- within the limit, and no object in it takes a key twice in the folded sense.
pub validate_array-is_clean :
    (decode : Bytes → List Token) (fold : Bytes → Bytes → Bool) (maximum : ℕ) (s : Bytes) (j : Json)
    → decode s ≡ tokens_of j []
    → validate_array decode fold maximum s
      ≡ (is_bounded maximum s && (is_array j && is_clean (array_rules fold) 0 j))
unfolding validate_array
validate_array-is_clean decode fold maximum s j e =
    ap (λ b. is_bounded maximum s && b)
      (ap (whole_array (array_rules fold)) e ∙ whole_array-tokens_of (array_rules fold) j)
