-- ===== src/Output/Mail.antt =====
-- internal/mcpserver/output.go, internal/mcpserver/handlers.go: the results of the mail tools, and how
-- they shrink. What is only carried along is a parameter of their types.
use croton_mcp.Base.{
  ℕ, zero, suc, ◌+◌, ◌/◌, Bool, true, false, ◌||◌, Option, none, some, List, [], ◌∷◌, ltb, leb,
  if◌then◌else◌, Bytes, length, take,
}
use croton_mcp.Text.{is_empty}

pub record ListFoldersResult (F : Type 0) : Type 0 where
  pub folders : List F
  pub truncated : Bool

pub record SearchMailResult (M : Type 0) : Type 0 where
  pub results : List M
  pub truncated : Bool

-- `messageTruncation`.
pub record MessageTruncation : Type 0 where
  pub headers : Bool
  pub header_count : Bool
  pub text : Bool
  pub mime_parts : Bool
  pub mime_depth : Bool
  pub attachments : Bool
  pub references : Bool
  pub output : Bool

pub record GetMessageResult (H A : Type 0) : Type 0 where
  pub id : Bytes
  pub mailbox : Bytes
  pub uid_validity : ℕ
  pub uid : ℕ
  pub size : ℕ
  pub headers : H
  pub text : Bytes
  pub text_source : Bytes
  pub attachments : List A
  pub truncation : MessageTruncation
  pub truncated : Bool

-- `attachmentListTruncation`.
pub record AttachmentListTruncation : Type 0 where
  pub mime_parts : Bool
  pub mime_depth : Bool
  pub attachments : Bool
  pub output : Bool

pub record ListAttachmentsResult (A : Type 0) : Type 0 where
  pub id : Bytes
  pub mailbox : Bytes
  pub uid_validity : ℕ
  pub uid : ℕ
  pub attachments : List A
  pub truncation : AttachmentListTruncation
  pub truncated : Bool

pub record GetThreadResult (N U : Type 0) : Type 0 where
  pub id : Bytes
  pub mailbox : Bytes
  pub nodes : List N
  pub truncated : Bool
  pub unavailable_members : List U

pub record SelectDigestResult (M : Type 0) : Type 0 where
  pub mailbox : Bytes
  pub candidates : List M
  pub total_messages : ℕ
  pub unseen_count : ℕ
  pub truncated : Bool

abbrev pub first_half {ℓ} : {A : Type ℓ} → List A → List A
first_half xs = take (length xs / 2) xs

abbrev pub is_nil {ℓ} : {A : Type ℓ} → List A → Bool
is_nil [] = true
is_nil (x ∷ xs) = false

-- The byte at an index, or 0 out of range.
abbrev pub byte_at : ℕ → Bytes → ℕ
byte_at i [] = 0
byte_at zero (c ∷ s) = c
byte_at (suc i) (c ∷ s) = byte_at i s

-- `utf8.RuneStart`.
abbrev pub is_rune_start : ℕ → Bool
is_rune_start c = ltb c 0x80 || leb 0xc0 c

-- The loop back to the start of a rune.
unfoldable pub rune_boundary : ℕ → Bytes → ℕ
rune_boundary zero value = 0
rune_boundary (suc half) value =
    let rest = rune_boundary half value in
    if is_rune_start (byte_at (suc half) value) then suc half else rest

-- `halveRunes`.
unfoldable pub halve_runes : Bytes → Bytes
unfolding rune_boundary
halve_runes value =
    if is_empty value then [] else take (rune_boundary (length value / 2) value) value

-- `fallbackString`.
unfoldable pub fallback_string : Bytes → Bytes
unfolding rune_boundary
fallback_string value =
    if leb (length value) 1024 then value else take (rune_boundary 1024 value) value

-- `shrinkForOutput` of each result; `none` is no.
abbrev pub shrink_folders : {F : Type 0} → ListFoldersResult F → Option (ListFoldersResult F)
shrink_folders r =
    if is_nil r.folders
    then none
    else some (record { folders = first_half r.folders; truncated = true })

abbrev pub shrink_search : {M : Type 0} → SearchMailResult M → Option (SearchMailResult M)
shrink_search r =
    if is_nil r.results
    then none
    else some (record { results = first_half r.results; truncated = true })

abbrev pub cut_output : MessageTruncation → MessageTruncation
cut_output t = record t { output = true }

abbrev pub shrink_message : {H A : Type 0} → GetMessageResult H A → Option (GetMessageResult H A)
shrink_message r =
    if is_empty r.text
    then if is_nil r.attachments
      then none
      else some (record r {
        attachments = first_half r.attachments;
        truncation = cut_output r.truncation;
        truncated = true;
      })
    else some (record r {
      text = halve_runes r.text;
      truncation = cut_output r.truncation;
      truncated = true;
    })

abbrev pub shrink_thread : {N U : Type 0} → GetThreadResult N U → Option (GetThreadResult N U)
shrink_thread r =
    if is_nil r.unavailable_members
    then if ltb 1 (length r.nodes)
      then some (record r { nodes = take ((length r.nodes + 1) / 2) r.nodes; truncated = true })
      else none
    else some
        (record r { unavailable_members = first_half r.unavailable_members; truncated = true })

abbrev pub shrink_attachments :
    {A : Type 0} → ListAttachmentsResult A → Option (ListAttachmentsResult A)
shrink_attachments r =
    if is_nil r.attachments
    then none
    else some (record r {
      attachments = first_half r.attachments;
      truncation = record (r.truncation) { output = true };
      truncated = true;
    })

abbrev pub shrink_digest : {M : Type 0} → SelectDigestResult M → Option (SelectDigestResult M)
shrink_digest r =
    if is_nil r.candidates
    then none
    else some (record r { candidates = first_half r.candidates; truncated = true })

-- `fallbackForOutput` of each result.
abbrev pub fallback_folders : {F : Type 0} → ListFoldersResult F → ListFoldersResult F
fallback_folders r = record { folders = []; truncated = true }

abbrev pub fallback_search : {M : Type 0} → SearchMailResult M → SearchMailResult M
fallback_search r = record { results = []; truncated = true }

-- With the zero value of the headers.
abbrev pub fallback_message : {H A : Type 0} → H → GetMessageResult H A → GetMessageResult H A
fallback_message blank r = record {
  id = r.id;
  mailbox = r.mailbox;
  uid_validity = r.uid_validity;
  uid = r.uid;
  size = 0;
  headers = blank;
  text = [];
  text_source = fallback_string r.text_source;
  attachments = [];
  truncation = cut_output r.truncation;
  truncated = true;
}

abbrev pub fallback_thread : {N U : Type 0} → GetThreadResult N U → GetThreadResult N U
fallback_thread r = record {
  id = fallback_string r.id;
  mailbox = fallback_string r.mailbox;
  nodes = [];
  truncated = true;
  unavailable_members = [];
}

abbrev pub fallback_attachments : {A : Type 0} → ListAttachmentsResult A → ListAttachmentsResult A
fallback_attachments r = record r {
  attachments = [];
  truncation = record (r.truncation) { output = true };
  truncated = true;
}

abbrev pub fallback_digest : {M : Type 0} → SelectDigestResult M → SelectDigestResult M
fallback_digest r = record r {
  mailbox = fallback_string r.mailbox;
  candidates = [];
  truncated = true;
}
