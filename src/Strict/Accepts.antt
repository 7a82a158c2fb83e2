-- ===== src/Strict/Accepts.antt =====
-- The validation accepts a value exactly if the tree of the value keeps the rules.
use croton_mcp.Base.{
  ℕ, zero, suc, ◌+◌, ◌≤◌, Bool, true, false, not, ◌&&◌, Option, none, some, List, [], ◌∷◌, ◌++◌,
  ltb, if◌then◌else◌, Bytes, ◌≡◌, refl, ap, ◌∙◌, arith,
}
use croton_mcp.Strict.Clean.{
  Json, nothing, number, string, array, object, Items, no_item, item, Fields, no_field, field,
  tokens_of, tokens_of_items, tokens_of_fields, is_clean, are_clean, are_fields_clean, cost,
  cost_items, cost_fields, cost-pos, cost_items-pos, cost_fields-pos,
}
use croton_mcp.Strict.Decode.{
  max_nesting_depth, Token, close_object, close_array, at_value, in_array, in_object, Rules,
  Consume, is_taken, and_then, consume_array, consume_from,
}

abbrev pub verdict : Bool → List Token → Option (List Token)
verdict b rest = if b then some rest else none

verdict-refused :
    (b : Bool) (rest : List Token) → (if b then none else some rest) ≡ verdict (not b) rest
verdict-refused true rest = refl
verdict-refused false rest = refl

verdict-guarded :
    (b c : Bool) (o : Option (List Token)) (rest : List Token)
    → o ≡ verdict c rest
    → (if b then none else o) ≡ verdict (not b && c) rest
verdict-guarded true c o rest e = refl
verdict-guarded false c o rest e = e

verdict-then :
    (b c : Bool) (o : Option (List Token)) (next : List Token → Option (List Token))
    (after rest : List Token)
    → o ≡ verdict b after
    → next after ≡ verdict c rest
    → and_then o next ≡ verdict (b && c) rest
verdict-then true c o next after rest e f = ap (λ p. and_then p next) e ∙ f
verdict-then false c o next after rest e f = ap (λ p. and_then p next) e

-- A value does not begin with a closing delimiter.
consume_array-tokens_of :
    (consume : Consume) (depth : ℕ) (x : Json) (rest : List Token)
    → consume_array consume depth (tokens_of x rest)
      ≡ and_then (consume at_value depth (tokens_of x rest)) (λ after. consume in_array depth after)
unfolding tokens_of
consume_array-tokens_of consume depth nothing rest = refl
consume_array-tokens_of consume depth number rest = refl
consume_array-tokens_of consume depth (string s) rest = refl
consume_array-tokens_of consume depth (array xs) rest = refl
consume_array-tokens_of consume depth (object fs) rest = refl

module _ (rules : Rules) where
  mutual
    unfolding consume_from tokens_of is_clean cost

    value-consumed :
        (x : Json) (depth fuel : ℕ) (rest : List Token)
        → cost x ≤ fuel
        → consume_from rules fuel at_value depth (tokens_of x rest)
          ≡ verdict (is_clean rules depth x) rest
    value-consumed x depth zero rest l = absurd (omega (arith, l, cost-pos x))
    value-consumed nothing depth (suc fuel) rest l = verdict-refused rules.reject_null rest
    value-consumed number depth (suc fuel) rest l = refl
    value-consumed (string s) depth (suc fuel) rest l = refl
    value-consumed (array xs) depth (suc fuel) rest l =
        verdict-guarded (ltb max_nesting_depth (depth + 1)) (are_clean rules (depth + 1) xs) _ rest
          (items-consumed xs (depth + 1) fuel rest (omega (arith, l)))
    value-consumed (object fs) depth (suc fuel) rest l =
        verdict-guarded (ltb max_nesting_depth (depth + 1))
          (are_fields_clean rules [] (depth + 1) fs) _ rest
          (fields-consumed fs [] (depth + 1) fuel rest (omega (arith, l)))

    pub items-consumed :
        (xs : Items) (depth fuel : ℕ) (rest : List Token)
        → cost_items xs ≤ fuel
        → consume_from rules fuel in_array depth (tokens_of_items xs (close_array ∷ rest))
          ≡ verdict (are_clean rules depth xs) rest
    items-consumed xs depth zero rest l = absurd (omega (arith, l, cost_items-pos xs))
    items-consumed no_item depth (suc fuel) rest l = refl
    items-consumed (item x xs) depth (suc fuel) rest l =
        let after = tokens_of_items xs (close_array ∷ rest) in
        consume_array-tokens_of (consume_from rules fuel) depth x after
        ∙ verdict-then (is_clean rules depth x) (are_clean rules depth xs) _
            (λ a. consume_from rules fuel in_array depth a) after rest
            (value-consumed x depth fuel after (omega (arith, l, cost_items-pos xs)))
            (items-consumed xs depth fuel rest (omega (arith, l, cost-pos x)))

    pub fields-consumed :
        (fs : Fields) (keys : List Bytes) (depth fuel : ℕ) (rest : List Token)
        → cost_fields fs ≤ fuel
        → consume_from rules fuel (in_object keys) depth (tokens_of_fields fs (close_object ∷ rest))
          ≡ verdict (are_fields_clean rules keys depth fs) rest
    fields-consumed fs keys depth zero rest l = absurd (omega (arith, l, cost_fields-pos fs))
    fields-consumed no_field keys depth (suc fuel) rest l = refl
    fields-consumed (field k x fs) keys depth (suc fuel) rest l =
        let after = tokens_of_fields fs (close_object ∷ rest) in
        verdict-guarded (is_taken rules k keys)
          (is_clean rules depth x && are_fields_clean rules (keys ++ k ∷ []) depth fs) _ rest
          (verdict-then (is_clean rules depth x) (are_fields_clean rules (keys ++ k ∷ []) depth fs)
            _ (λ a. consume_from rules fuel (in_object (keys ++ k ∷ [])) depth a) after rest
            (value-consumed x depth fuel after (omega (arith, l, cost_fields-pos fs)))
            (fields-consumed fs (keys ++ k ∷ []) depth fuel rest (omega (arith, l, cost-pos x))))
