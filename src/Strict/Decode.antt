-- ===== src/Strict/Decode.antt =====
-- internal/strictjson/object.go: `validateObject` and `validateArray`, over the tokens of the decoder.
use croton_mcp.Base.{
  ℕ, zero, suc, ◌+◌, ◌*◌, Bool, true, false, ◌&&◌, ◌||◌, Option, none, some, List, [], ◌∷◌, ◌++◌,
  ltb, ◌==◌, if◌then◌else◌, Bytes, length,
}
use croton_mcp.Text.{equal}

abbrev pub max_nesting_depth : ℕ
max_nesting_depth = 32

-- What `Token` of the decoder gives: delimiters, a string, null, another scalar, or an error.
pub data Token : Type 0 where
  open_object close_object open_array close_array : Token
  text : Bytes → Token
  null scalar broken : Token

-- Where the validation stands: at a value, in an array, or in an object behind some keys.
pub data Part : Type 0 where
  at_value in_array : Part
  in_object : List Bytes → Part

-- The two flags of a validation, and `strings.EqualFold`.
pub record Rules : Type 0 where
  pub reject_null : Bool
  pub fold_aliases : Bool
  pub equal_fold : Bytes → Bytes → Bool

unfoldable pub is_taken : Rules → Bytes → List Bytes → Bool
is_taken rules key [] = false
is_taken rules key (other ∷ keys) =
    equal other key || (rules.fold_aliases && rules.equal_fold other key) || is_taken rules key keys

-- The rest of the tokens where a part is consumed; `none` is a refusal.
abbrev pub Consume : Type 0
Consume = Part → ℕ → List Token → Option (List Token)

abbrev pub and_then : Option (List Token) → (List Token → Option (List Token)) → Option (List Token)
and_then none next = none
and_then (some rest) next = next rest

abbrev pub enter : Consume → Part → ℕ → List Token → Option (List Token)
enter consume part depth rest =
    if ltb max_nesting_depth depth then none else consume part depth rest

-- `consumeValue`.
abbrev pub consume_value : Rules → Consume → ℕ → List Token → Option (List Token)
consume_value rules consume depth [] = none
consume_value rules consume depth (open_object ∷ rest) =
    enter consume (in_object []) (depth + 1) rest
consume_value rules consume depth (open_array ∷ rest) = enter consume in_array (depth + 1) rest
consume_value rules consume depth (text s ∷ rest) = some rest
consume_value rules consume depth (scalar ∷ rest) = some rest
consume_value rules consume depth (null ∷ rest) = if rules.reject_null then none else some rest
consume_value rules consume depth (_ ∷ rest) = none

-- The loop of `consumeArray`, from a turn on.
abbrev pub consume_array : Consume → ℕ → List Token → Option (List Token)
consume_array consume depth [] = none
consume_array consume depth (close_array ∷ rest) = some rest
consume_array consume depth (close_object ∷ rest) = none
consume_array consume depth (token ∷ rest) =
    and_then (consume at_value depth (token ∷ rest)) (λ after. consume in_array depth after)

-- The loop of `consumeObject`, from a turn on.
abbrev pub consume_object : Rules → Consume → List Bytes → ℕ → List Token → Option (List Token)
consume_object rules consume keys depth (close_object ∷ rest) = some rest
consume_object rules consume keys depth (text key ∷ rest) =
    if is_taken rules key keys
    then none
    else and_then (consume at_value depth rest)
        (λ after. consume (in_object (keys ++ key ∷ [])) depth after)
consume_object rules consume keys depth _ = none

-- The three functions, on fuel.
unfoldable pub consume_from : Rules → ℕ → Consume
consume_from rules zero part depth tokens = none
consume_from rules (suc fuel) at_value depth tokens =
    consume_value rules (consume_from rules fuel) depth tokens
consume_from rules (suc fuel) in_array depth tokens =
    consume_array (consume_from rules fuel) depth tokens
consume_from rules (suc fuel) (in_object keys) depth tokens =
    consume_object rules (consume_from rules fuel) keys depth tokens

-- Nothing but the end may follow.
abbrev pub is_finished : Option (List Token) → Bool
is_finished (some []) = true
is_finished _ = false

abbrev pub enough : List Token → ℕ
enough tokens = 2 * length tokens + 2

abbrev pub whole_object : Rules → List Token → Bool
whole_object rules (open_object ∷ rest) =
    is_finished (enter (consume_from rules (enough rest)) (in_object []) 1 rest)
whole_object rules _ = false

abbrev pub whole_array : Rules → List Token → Bool
whole_array rules (open_array ∷ rest) =
    is_finished (enter (consume_from rules (enough rest)) in_array 1 rest)
whole_array rules _ = false

abbrev pub is_bounded : ℕ → Bytes → Bool
is_bounded maximum s =
    if length s == 0 || maximum == 0 || ltb maximum (length s) then false else true

-- `validateObject`, for a decoder that reads the bytes into tokens.
unfoldable pub validate_object : (Bytes → List Token) → Rules → ℕ → Bytes → Bool
validate_object tokens rules maximum s = is_bounded maximum s && whole_object rules (tokens s)

-- The rules of an array, by `strings.EqualFold`.
abbrev pub array_rules : (Bytes → Bytes → Bool) → Rules
array_rules fold = record { reject_null = false; fold_aliases = true; equal_fold = fold }

-- `validateArray`.
unfoldable pub validate_array : (Bytes → List Token) → (Bytes → Bytes → Bool) → ℕ → Bytes → Bool
validate_array tokens fold maximum s =
    is_bounded maximum s && whole_array (array_rules fold) (tokens s)
