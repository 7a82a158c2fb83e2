-- ===== src/Search/Page.antt =====
-- bridge/search.go: one attempt of `SearchMailPage`, window by window.
use croton_mcp.Base.{
  ℕ, zero, suc, ◌+◌, ◌-◌, Bool, false, ◌&&◌, ◌||◌, Option, none, some, List, [], ◌∷◌, ◌++◌, ltb,
  leb, if◌then◌else◌, Bytes, length,
}
use croton_mcp.Codes.{Code, bounds_exceeded, imap_protocol, mailbox_not_found}
use croton_mcp.Search.Fetched.{Metadata, validate_fetched}
use croton_mcp.Search.Identifier.{Payload}
use croton_mcp.Search.Select.{select_highest_uids}
use croton_mcp.Triage.Result.{Context, coded, ok, err, Answer, Result, done, failed}
use croton_mcp.Text.{is_empty}
use croton_mcp.Triage.Source.{max_mailbox_name_bytes}
use croton_mcp.Wire.Observer.{Window, width}

abbrev pub max_search_windows : ℕ
max_search_windows = 8

abbrev pub search_window_width : ℕ
search_window_width = 100

abbrev pub max_search_term_bytes : ℕ
max_search_term_bytes = 1024

-- The guards of `SearchMailPage` on its query, by the sender and the subject.
unfoldable pub refuse_query : Bytes → Bytes → Bytes → ℕ → Option Code
refuse_query mailbox sender subject max_output_bytes =
    if is_empty mailbox
    then some mailbox_not_found
    else if ltb max_mailbox_name_bytes (length mailbox)
        || ltb max_search_term_bytes (length sender)
        || ltb max_search_term_bytes (length subject)
        || ltb max_output_bytes 2
    then some bounds_exceeded
    else none

-- The snapshot of an examined mailbox.
pub record Snapshot : Type 0 where
  pub uid_validity : ℕ
  pub uid_next : ℕ

-- The session as a search of one mailbox with one query uses it, with `encodeMessageID` and the
-- `json.Marshal` of a message, and the three bounds of the configuration that count.
pub record Finder (W : Type 0) : Type 0 where
  pub now : W → Context
  pub examine : W → W × Answer Snapshot
  pub search_window : Window → ℕ → W → W × Answer (List ℕ)
  pub fetch_metadata : List ℕ → ℕ → W → W × Answer (List Metadata)
  pub identify : Payload → Result Bytes
  pub marshal : Metadata → Option Bytes
  pub mailbox : Bytes
  pub max_search_results : ℕ
  pub max_output_bytes : ℕ
  pub max_header_bytes : ℕ

-- The variables of the loop.
pub record Found : Type 0 where
  pub messages : List Metadata
  pub output_bytes : ℕ
  pub omitted : Bool
  pub remaining : ℕ

-- `SearchPage`.
pub record Page : Type 0 where
  pub messages : List Metadata
  pub truncated : Bool

abbrev pub nothing_found : Snapshot → Found
nothing_found s = record {
  messages = [];
  output_bytes = 2;
  omitted = false;
  remaining = s.uid_next;
}

-- `sort.Slice` of the metadata, the greatest UID first.
unfoldable pub insert_metadata : Metadata → List Metadata → List Metadata
insert_metadata m [] = m ∷ []
insert_metadata m (n ∷ ns) =
    let rest = insert_metadata m ns in if leb n.own_uid m.own_uid then m ∷ n ∷ ns else n ∷ rest

unfoldable pub sort_metadata : List Metadata → List Metadata
sort_metadata [] = []
sort_metadata (m ∷ ms) = insert_metadata m (sort_metadata ms)

abbrev pub window_of : ℕ → Window
window_of remaining = record {
  first = if ltb search_window_width remaining then remaining - search_window_width else 1;
  last = remaining - 1;
}

abbrev pub separator_bytes : List Metadata → ℕ
separator_bytes [] = 0
separator_bytes (m ∷ ms) = 1

module _ {W : Type 0} (finder : Finder W) where
  abbrev pub identified : ℕ → Metadata → Bytes → Metadata
  identified validity m id = record m {
    id = id;
    mailbox = finder.mailbox;
    uid_validity = validity;
    uid = m.own_uid;
  }

  -- A message whose JSON is known, in front of the output bound.
  abbrev pub add_encoded : Found → Metadata → Option Bytes → Result Found
  add_encoded f m none = failed imap_protocol
  add_encoded f m (some encoded) =
      let bytes = length encoded + separator_bytes f.messages in
      if ltb finder.max_output_bytes f.output_bytes
        || ltb (finder.max_output_bytes - f.output_bytes) bytes
      then failed bounds_exceeded
      else done
          (record f { messages = f.messages ++ m ∷ []; output_bytes = f.output_bytes + bytes })

  abbrev pub add_identified : ℕ → Found → Metadata → Result Bytes → Result Found
  add_identified validity f m (failed code) = failed code
  add_identified validity f m (done id) =
      add_encoded f (identified validity m id) (finder.marshal (identified validity m id))

  unfoldable pub add_message : ℕ → Found → Metadata → Result Found
  add_message validity f m = add_identified validity f m (
      finder.identify
        (record { mailbox = finder.mailbox; uid_validity = validity; uid = m.own_uid }))

  unfoldable pub add_messages : ℕ → List Metadata → Result Found → Result Found
  add_messages validity ms (failed code) = failed code
  add_messages validity [] (done f) = done f
  add_messages validity (m ∷ ms) (done f) = add_messages validity ms (add_message validity f m)

  -- The rest of a window's turn, behind its FETCH.
  unfoldable pub add_window : ℕ → Window → List ℕ → List Metadata → Found → Result Found
  add_window validity w selected metadata f = elim (validate_fetched selected metadata) [
    | some code ↦ failed code
    | none ↦
        add_messages validity (sort_metadata metadata) (done (record f { remaining = w.first }))
  ]

  abbrev pub answer_of : W → Result Found → W × Answer Found
  answer_of w (done f) = (w, record { context = finder.now w; reply = ok f })
  answer_of w (failed code) = (w, record { context = finder.now w; reply = err (coded code) })

  abbrev pub after_fetch :
      ℕ → Window → List ℕ → Found → W × Answer (List Metadata) → W × Answer Found
  after_fetch validity w selected f (world, answer) = elim answer.reply [
    | err e ↦ (world, record { context = answer.context; reply = err e })
    | ok metadata ↦ answer_of world (add_window validity w selected metadata f)
  ]

  abbrev pub after_select : ℕ → Window → List ℕ → Found → W → Result (List ℕ) → W × Answer Found
  after_select validity w uids f world (failed code) = answer_of world (failed code)
  after_select validity w uids f world (done selected) =
      after_fetch validity w selected
        (record f { omitted = f.omitted || ltb (length selected) (length uids) })
        (finder.fetch_metadata selected finder.max_header_bytes world)

  abbrev pub after_search : ℕ → Window → Found → W × Answer (List ℕ) → W × Answer Found
  after_search validity w f (world, answer) = elim answer.reply [
    | err e ↦ (world, record { context = answer.context; reply = err e })
    | ok uids ↦
        after_select validity w uids f world
          (select_highest_uids uids w (finder.max_search_results - length f.messages))
  ]

  -- One turn of the loop.
  unfoldable pub search_turn : ℕ → Found → W → W × Answer Found
  search_turn validity f world =
      let w = window_of f.remaining in
      after_search validity w f (finder.search_window w (width w) world)

  abbrev pub go_on : (Found → W → W × Answer Found) → W × Answer Found → W × Answer Found
  go_on next (world, answer) = elim answer.reply [ err e ↦ (world, answer) | ok f ↦ next f world ]

  -- The loop, with the number of turns that are left of the maximum.
  unfoldable pub search_windows : ℕ → ℕ → Found → W → W × Answer Found
  search_windows zero validity f world = answer_of world (done f)
  search_windows (suc n) validity f world =
      if ltb 1 f.remaining && ltb (length f.messages) finder.max_search_results
      then go_on (search_windows n validity) (search_turn validity f world)
      else answer_of world (done f)

  abbrev pub page_of : Found → Page
  page_of f = record { messages = f.messages; truncated = f.omitted || ltb 1 f.remaining }

  abbrev pub paged : W × Answer Found → W × Answer Page
  paged (world, answer) = elim answer.reply [
    | err e ↦ (world, record { context = answer.context; reply = err e })
    | ok f ↦ (world, record { context = answer.context; reply = ok (page_of f) })
  ]

  abbrev pub after_examine : W × Answer Snapshot → W × Answer Page
  after_examine (world, answer) = elim answer.reply [
    | err e ↦ (world, record { context = answer.context; reply = err e })
    | ok s ↦ paged (search_windows max_search_windows s.uid_validity (nothing_found s) world)
  ]

  -- The operation that `SearchMailPage` executes.
  unfoldable pub search_mail_page : W → W × Answer Page
  search_mail_page world = after_examine (finder.examine world)
