-- ===== src/Search/Fetched.antt =====
-- bridge/search.go: the metadata of a message; bridge/imapclient.go: `validateFetchedMetadataUIDs`.
use croton_mcp.Base.{
  ℕ, Bool, not, Option, none, some, List, [], ◌∷◌, ◌==◌, if◌then◌else◌, Bytes, length,
}
use croton_mcp.Codes.{Code, imap_protocol}
use croton_mcp.Triage.Source.{mem_uid}

-- `DateSource`.
pub data DateSource : Type 0 where
  date_unknown date_header : DateSource

-- `ReadState`.
pub data ReadState : Type 0 where
  read_unknown is_unread is_read : ReadState

-- `MessageMetadata`; `own_uid` is its private field.
pub record Metadata : Type 0 where
  pub id : Bytes
  pub mailbox : Bytes
  pub uid_validity : ℕ
  pub uid : ℕ
  pub subject : Bytes
  pub size : ℕ
  pub sender : Bytes
  pub date : Bytes
  pub date_source : DateSource
  pub read_state : ReadState
  pub is_truncated : Bool
  pub own_uid : ℕ

abbrev pub uids_of : List Metadata → List ℕ
uids_of [] = []
uids_of (m ∷ ms) = m.own_uid ∷ uids_of ms

-- `delete` on a map, by the list of its keys, each of which stands once.
unfoldable pub remove_uid : ℕ → List ℕ → List ℕ
remove_uid u [] = []
remove_uid u (v ∷ vs) = let rest = remove_uid u vs in if v == u then vs else v ∷ rest

-- The first loop, over the requested UIDs: the map it fills.
unfoldable pub gather : List ℕ → List ℕ → Option (List ℕ)
gather remaining [] = some remaining
gather remaining (uid ∷ uids) =
    let rest = gather (uid ∷ remaining) uids in
    if uid == 0 then none else if mem_uid uid remaining then none else rest

-- The second loop, over the results: what it leaves of the map.
unfoldable pub strike : List ℕ → List Metadata → Option (List ℕ)
strike remaining [] = some remaining
strike remaining (m ∷ ms) =
    let rest = strike (remove_uid m.own_uid remaining) ms in
    if mem_uid m.own_uid remaining then rest else none

abbrev pub all_struck : Option (List ℕ) → Option Code
all_struck none = some imap_protocol
all_struck (some []) = none
all_struck (some (u ∷ us)) = some imap_protocol

abbrev pub struck : Option (List ℕ) → List Metadata → Option Code
struck none results = some imap_protocol
struck (some remaining) results = all_struck (strike remaining results)

-- `validateFetchedMetadataUIDs`.
unfoldable pub validate_fetched : List ℕ → List Metadata → Option Code
validate_fetched requested results =
    if not (length results == length requested)
    then some imap_protocol
    else struck (gather [] requested) results
