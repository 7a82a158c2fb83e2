-- ===== src/Triage/Destination.antt =====
-- bridge/move.go: which mailbox of a fresh listing a move may go to.
use croton_mcp.Base.{
  Bool, false, not, ◌&&◌, ◌||◌, Option, none, some, List, [], ◌∷◌, ltb, leb, ◌==◌, if◌then◌else◌,
  Bytes, codes, length,
}
use croton_mcp.Codes.{Code, invalid_request, bounds_exceeded}
use croton_mcp.Text.{equal, equal_fold, contains, has_prefix, valid_utf8, is_empty}
use croton_mcp.Triage.Server.{ListedMailbox}
use croton_mcp.Triage.Source.{max_mailbox_name_bytes}

abbrev pub inbox : Bytes
inbox = codes "INBOX"

-- `mailboxIdentityMatches`.
unfoldable pub identity_matches : Bytes → Bytes → Bool
identity_matches requested actual =
    if equal_fold requested inbox then equal_fold actual inbox else equal requested actual

-- `unicode.IsControl` or a wildcard, byte by byte: the upper controls are the byte 0xc2 before 0x80 to 0x9f.
unfoldable pub has_control_or_wildcard : Bytes → Bool
has_control_or_wildcard [] = false
has_control_or_wildcard (c ∷ []) = ltb c 0x20 || c == 0x7f || c == b'*' || c == b'%'
has_control_or_wildcard (c ∷ d ∷ s) =
    ltb c 0x20
    || c == 0x7f
    || c == b'*'
    || c == b'%'
    || (c == 0xc2 && leb d 0x9f)
    || has_control_or_wildcard (d ∷ s)

-- `validateMoveDestination`.
unfoldable pub validate_move_destination : Bytes → Option Code
validate_move_destination destination =
    if is_empty destination || not (valid_utf8 destination)
    then some invalid_request
    else if ltb max_mailbox_name_bytes (length destination)
    then some bounds_exceeded
    else if has_control_or_wildcard destination
    then some invalid_request
    else none

abbrev pub root_system_attributes : List Bytes
root_system_attributes =
    codes "\\Sent" ∷ codes "\\Drafts" ∷ codes "\\Junk" ∷ codes "\\Archive" ∷ codes "\\Trash" ∷ []

abbrev pub refused_destination_attributes : List Bytes
refused_destination_attributes =
    codes "\\Noselect" ∷ codes "\\NonExistent" ∷ codes "\\All" ∷ codes "\\Flagged" ∷ []

unfoldable pub any_fold : Bytes → List Bytes → Bool
any_fold attribute [] = false
any_fold attribute (w ∷ wanted) = equal_fold attribute w || any_fold attribute wanted

-- `hasAttribute`; the wanted attributes are ASCII.
unfoldable pub has_attribute : List Bytes → List Bytes → Bool
unfolding any_fold
has_attribute [] wanted = false
has_attribute (a ∷ attributes) wanted = any_fold a wanted || has_attribute attributes wanted

-- `isHierarchyRoot`; the delimiter of a listing is one ASCII character, or 0.
unfoldable pub is_hierarchy_root : ListedMailbox → Bool
is_hierarchy_root m =
    not (contains b'/' m.name) && (m.delimiter == 0 || not (contains m.delimiter m.name))

abbrev pub folders_prefix : Bytes
folders_prefix = codes "Folders/"

-- The loop of `resolveMoveDestination` and of `resolveAttributeDestination`: the only entry that
-- satisfies a test, or `many`, or `missing`.
pub data Match : Type 0 where
  missing many : Match
  only : ListedMailbox → Match

abbrev pub add_match : ListedMailbox → Match → Match
add_match m missing = only m
add_match m (only n) = many
add_match m many = many

unfoldable pub sole_match : (ListedMailbox → Bool) → List ListedMailbox → Match
sole_match test [] = missing
sole_match test (m ∷ ms) =
    let rest = sole_match test ms in if test m then add_match m rest else rest

-- The switch of `resolveMoveDestination`, on the match.
unfoldable pub destination_of : ListedMailbox → Option Bytes
destination_of m =
    if has_attribute m.attributes refused_destination_attributes
    then none
    else if equal_fold m.name inbox
    then some inbox
    else if m.delimiter == b'/'
        && has_prefix folders_prefix m.name
        && ltb (length folders_prefix) (length m.name)
    then some m.name
    else if is_hierarchy_root m && has_attribute m.attributes root_system_attributes
    then some m.name
    else none

abbrev pub destination_of_match : Match → Option Bytes
destination_of_match (only m) = destination_of m
destination_of_match _ = none

-- `resolveMoveDestination`; `none` is its false result.
unfoldable pub resolve_move_destination : List ListedMailbox → Bytes → Option Bytes
resolve_move_destination listing destination =
    destination_of_match (sole_match (λ m. identity_matches destination m.name) listing)

-- `isAggregateView`.
unfoldable pub is_aggregate_view : Bytes → Bool
is_aggregate_view name = any_fold name (codes "All Mail" ∷ codes "Starred" ∷ [])

abbrev holder_destination : List ListedMailbox → Match → Option Bytes
holder_destination listing (only m) =
    if is_aggregate_view m.name then none else resolve_move_destination listing m.name
holder_destination listing _ = none

-- `resolveAttributeDestination`.
unfoldable pub resolve_attribute_destination : List ListedMailbox → Bytes → Option Bytes
resolve_attribute_destination listing attribute =
    holder_destination listing
      (sole_match (λ m. has_attribute m.attributes (attribute ∷ [])) listing)
