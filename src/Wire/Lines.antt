-- ===== src/Wire/Lines.antt =====
-- bridge/imapclient.go: `classifyIMAPResponse`.
use croton_mcp.Base.{
  ℕ, Bool, true, false, not, ◌&&◌, ◌||◌, Option, none, some, List, [], ◌∷◌, if◌then◌else◌, Bytes,
  codes,
}
use croton_mcp.Quarantine.Lexical.{is_digit}
use croton_mcp.Text.{equal, is_empty, contains, cut_prefix, has_prefix, to_upper}
use croton_mcp.Wire.Grammar.{esearch_atom, parse_uint}

-- `imapLineKind`.
pub data LineKind : Type 0 where
  unclassified text_line data_line search_line esearch_line : LineKind

unfoldable pub one_of : Bytes → List Bytes → Bool
one_of s [] = false
one_of s (w ∷ ws) = equal s w || one_of s ws

-- `imapStatusText`.
unfoldable pub status_text : Bytes → LineKind
status_text rest =
    if has_prefix (codes " [") rest && not (contains b']' rest) then unclassified else text_line

abbrev pub status_names : List Bytes
status_names = codes "OK" ∷ codes "PREAUTH" ∷ codes "NO" ∷ codes "BAD" ∷ codes "BYE" ∷ []

abbrev pub data_names : List Bytes
data_names =
    codes "ID"
    ∷ codes "CAPABILITY"
    ∷ codes "ENABLED"
    ∷ codes "NAMESPACE"
    ∷ codes "FLAGS"
    ∷ codes "EXISTS"
    ∷ codes "RECENT"
    ∷ codes "LIST"
    ∷ codes "STATUS"
    ∷ codes "FETCH"
    ∷ codes "EXPUNGE"
    ∷ codes "SORT"
    ∷ codes "THREAD"
    ∷ codes "METADATA"
    ∷ codes "QUOTA"
    ∷ codes "QUOTAROOT"
    ∷ codes "MYRIGHTS"
    ∷ codes "ACL"
    ∷ []

abbrev refused_line : LineKind × Bytes
refused_line = (unclassified, [])

-- The switches on the name, and what stands behind it.
unfoldable pub named_line : Bool → Bytes × Bytes → LineKind × Bytes
unfolding one_of status_text
named_line untagged (name, rest) =
    let upper_name = to_upper name in
    if is_empty name
    then refused_line
    else if not untagged || one_of upper_name status_names
    then (status_text rest, [])
    else if equal upper_name (codes "SEARCH")
    then (search_line, rest)
    else if equal upper_name (codes "ESEARCH")
    then (esearch_line, rest)
    else if one_of upper_name data_names
    then (data_line, [])
    else refused_line

abbrev starts_with_digit : Bytes → Bool
starts_with_digit [] = false
starts_with_digit (c ∷ s) = is_digit c

-- Behind a message number of untagged data.
abbrev numbered_line : Option ℕ → Option Bytes → LineKind × Bytes
numbered_line (some n) (some rest) = named_line true (esearch_atom rest)
numbered_line _ _ = refused_line

abbrev first_atom : Bool → Bytes × Bytes → LineKind × Bytes
first_atom untagged (name, rest) =
    if untagged && starts_with_digit name
    then numbered_line (parse_uint 32 name) (cut_prefix (codes " ") rest)
    else named_line untagged (name, rest)

abbrev spaced_line : Bool → Option Bytes → LineKind × Bytes
spaced_line untagged none = refused_line
spaced_line untagged (some rest) = first_atom untagged (esearch_atom rest)

abbrev tagged_line : Bytes × Bytes → LineKind × Bytes
tagged_line (tag, rest) =
    if is_empty tag then refused_line else spaced_line false (cut_prefix (codes " ") rest)

-- `classifyIMAPResponse`.
unfoldable pub classify_response : Bytes → LineKind × Bytes
unfolding named_line esearch_atom
classify_response line =
    if has_prefix (codes "+") line then (text_line, []) else elim (cut_prefix (codes "*") line) [
      | some rest ↦ spaced_line true (cut_prefix (codes " ") rest)
      | none ↦ tagged_line (esearch_atom line)
    ]
