-- ===== src/Output/Encode.antt =====
-- internal/mcpserver/output.go: `encodeBounded`. The Drive server's has no fallback and no selectable
-- results.
use croton_mcp.Base.{
  ℕ, zero, suc, ◌<◌, Bool, true, false, Option, none, some, leb, if◌then◌else◌, Bytes, codes,
  length, ◌≡◌,
}

abbrev pub max_tool_result_bytes : ℕ
max_tool_result_bytes = 100000

-- What `encodeBounded` uses of a result: `json.Marshal`, `shrinkForOutput`, which leaves the result
-- smaller or answers no, `fallbackForOutput`, and whether the result is a `selectableResult`. The last
-- two fields are not of the code: the identity of a result, and its truncation flag.
pub record Shape (A I : Type 0) : Type 0 where
  pub marshal : A → Option Bytes
  pub shrink : A → Option A
  pub fallback : A → Option A
  pub is_selectable : Bool
  pub identity : A → I
  pub is_truncated : A → Bool

-- What every shape keeps: shrinking ends, marks the result, and keeps its identity, and so does the
-- fallback of a selectable result.
pub record IsShrinking {A I : Type 0} (shape : Shape A I) : Type 0 where
  pub size : A → ℕ
  pub smaller : (a b : A) → shape.shrink a ≡ some b → size b < size a
  pub shrink_marks : (a b : A) → shape.shrink a ≡ some b → shape.is_truncated b ≡ true
  pub shrink_keeps : (a b : A) → shape.shrink a ≡ some b → shape.identity b ≡ shape.identity a
  pub fallback_marks : (a b : A) → shape.fallback a ≡ some b → shape.is_truncated b ≡ true
  pub fallback_keeps :
      (a b : A)
      → shape.is_selectable ≡ true
      → shape.fallback a ≡ some b
      → shape.identity b ≡ shape.identity a

-- What `encodeBounded` returns; `untold` is an end of the fuel.
pub data Encoded : Type 0 where
  encoded : Bytes → Bool → Encoded
  marshal_failed unretainable_identity untold : Encoded

abbrev pub static_result : Bytes
static_result = codes "{\"truncated\":true}"

module _ {A I : Type 0} (shape : Shape A I) where
  abbrev pub last_resort : Encoded
  last_resort = if shape.is_selectable then unretainable_identity else encoded static_result true

  abbrev pub encode_fallback : Option Bytes → Encoded
  encode_fallback none = marshal_failed
  encode_fallback (some b) =
      if leb (length b) max_tool_result_bytes then encoded b true else last_resort

  abbrev pub fall_back : Option A → Encoded
  fall_back none = last_resort
  fall_back (some f) = encode_fallback (shape.marshal f)

  abbrev pub after_shrink : (A → Encoded) → A → Option A → Encoded
  after_shrink again a none = fall_back (shape.fallback a)
  after_shrink again a (some b) = again b

  abbrev pub after_marshal : (A → Encoded) → Bool → A → Option Bytes → Encoded
  after_marshal again truncated a none = marshal_failed
  after_marshal again truncated a (some b) =
      if leb (length b) max_tool_result_bytes
      then encoded b truncated
      else after_shrink again a (shape.shrink a)

  -- The loop, on fuel.
  unfoldable pub encode_from : ℕ → Bool → A → Encoded
  encode_from zero truncated a = untold
  encode_from (suc fuel) truncated a =
      after_marshal (encode_from fuel true) truncated a (shape.marshal a)

  -- `encodeBounded`, where shrinking makes this measure smaller.
  unfoldable pub encode_bounded : (A → ℕ) → A → Encoded
  encode_bounded size a = encode_from (suc (size a)) false a
