-- ===== src/Strict/Clean.antt =====
-- The JSON values that the validation accepts, by the tree of the value.
use croton_mcp.Base.{
  ℕ, suc, ◌+◌, ◌≤◌, Bool, true, not, ◌&&◌, List, [], ◌∷◌, ◌++◌, ltb, Bytes, arith,
}
use croton_mcp.Strict.Decode.{
  max_nesting_depth, Token, open_object, close_object, open_array, close_array, text, null, scalar,
  Rules, is_taken,
}

mutual
  pub data Json : Type 0 where
    nothing number : Json
    string : Bytes → Json
    array : Items → Json
    object : Fields → Json

  pub data Items : Type 0 where
    no_item : Items
    item : Json → Items → Items

  pub data Fields : Type 0 where
    no_field : Fields
    field : Bytes → Json → Fields → Fields

-- The tokens of a value, in front of others.
unfoldable mutual
  pub tokens_of : Json → List Token → List Token
  tokens_of nothing rest = null ∷ rest
  tokens_of number rest = scalar ∷ rest
  tokens_of (string s) rest = text s ∷ rest
  tokens_of (array xs) rest = open_array ∷ tokens_of_items xs (close_array ∷ rest)
  tokens_of (object fs) rest = open_object ∷ tokens_of_fields fs (close_object ∷ rest)

  pub tokens_of_items : Items → List Token → List Token
  tokens_of_items no_item rest = rest
  tokens_of_items (item x xs) rest = tokens_of x (tokens_of_items xs rest)

  pub tokens_of_fields : Fields → List Token → List Token
  tokens_of_fields no_field rest = rest
  tokens_of_fields (field k x fs) rest = text k ∷ tokens_of x (tokens_of_fields fs rest)

-- Whether a value keeps the rules at a depth: nesting within the limit, no null where none may be, and
-- no key of an object taken by one before it.
module _ (rules : Rules) where
  unfoldable mutual
    pub is_clean : ℕ → Json → Bool
    is_clean depth nothing = not rules.reject_null
    is_clean depth number = true
    is_clean depth (string s) = true
    is_clean depth (array xs) = not (ltb max_nesting_depth (depth + 1)) && are_clean (depth + 1) xs
    is_clean depth (object fs) =
        not (ltb max_nesting_depth (depth + 1)) && are_fields_clean [] (depth + 1) fs

    pub are_clean : ℕ → Items → Bool
    are_clean depth no_item = true
    are_clean depth (item x xs) = is_clean depth x && are_clean depth xs

    pub are_fields_clean : List Bytes → ℕ → Fields → Bool
    are_fields_clean keys depth no_field = true
    are_fields_clean keys depth (field k x fs) =
        not (is_taken rules k keys)
        && (is_clean depth x && are_fields_clean (keys ++ k ∷ []) depth fs)

-- The turns that a value takes.
unfoldable mutual
  pub cost : Json → ℕ
  cost nothing = 1
  cost number = 1
  cost (string s) = 1
  cost (array xs) = suc (cost_items xs)
  cost (object fs) = suc (cost_fields fs)

  pub cost_items : Items → ℕ
  cost_items no_item = 1
  cost_items (item x xs) = cost x + cost_items xs

  pub cost_fields : Fields → ℕ
  cost_fields no_field = 1
  cost_fields (field k x fs) = cost x + cost_fields fs

pub cost-pos : (x : Json) → 1 ≤ cost x
unfolding cost
cost-pos nothing = omega arith
cost-pos number = omega arith
cost-pos (string s) = omega arith
cost-pos (array xs) = omega arith
cost-pos (object fs) = omega arith

pub cost_items-pos : (xs : Items) → 1 ≤ cost_items xs
unfolding cost_items
cost_items-pos no_item = omega arith
cost_items-pos (item x xs) = omega (arith, cost-pos x)

pub cost_fields-pos : (fs : Fields) → 1 ≤ cost_fields fs
unfolding cost_fields
cost_fields-pos no_field = omega arith
cost_fields-pos (field k x fs) = omega (arith, cost-pos x)
