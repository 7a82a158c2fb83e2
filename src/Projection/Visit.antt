-- ===== src/Projection/Visit.antt =====
-- bridge/attachment_projection.go: the walk over a structure; bridge/mime.go: `truncateUTF8`.
use croton_mcp.Base.{
  ℕ, zero, suc, ◌+◌, Bool, true, false, not, ◌||◌, Option, none, some, List, [], ◌∷◌, ◌++◌, ltb,
  leb, if◌then◌else◌, Bytes, codes, length, take, ℤ, pos, abs,
}
use croton_mcp.Bounds.Normalize.{normalized_limits}
use croton_mcp.Projection.Entity.{
  Params, Structure, single, multi, neither, Children, no_child, child, Mime, Entity, single_entity,
  multi_entity,
}
use croton_mcp.Text.{equal, is_empty, valid_utf8}

-- The limits that count here.
pub record Limits : Type 0 where
  pub max_mime_parts : ℕ
  pub max_mime_depth : ℕ
  pub max_attachment_count : ℕ
  pub max_filename_bytes : ℕ
  pub max_content_type_bytes : ℕ
  pub max_disposition_bytes : ℕ

-- `AttachmentStructureEntry`; `none` is no declared size.
pub record Entry : Type 0 where
  pub filename : Bytes
  pub content_type : Bytes
  pub disposition : Bytes
  pub has_transfer_octets : Bool
  pub transfer_octets : ℕ
  pub declared_size : Option ℕ

-- `attachmentProjector`, with the flags of its truncation that are ever set.
pub record Projector : Type 0 where
  pub parts : ℕ
  pub attachments : List Entry
  pub mime_parts : Bool
  pub mime_depth : Bool
  pub attachments_cut : Bool

-- What a visit returns: no error, `errMIMEPartsLimit`, or malformed MIME.
pub data Outcome : Type 0 where
  finished parts_limit malformed : Outcome

-- The value of a key of a map, or the empty string.
unfoldable pub value_of : Bytes → Params → Bytes
value_of key [] = []
value_of key ((k, v) ∷ ps) = let rest = value_of key ps in if equal k key then v else rest

-- The loop of `truncateUTF8`, from a length down.
unfoldable pub longest_valid : ℕ → Bytes → Bytes
longest_valid zero value = []
longest_valid (suc n) value =
    let rest = longest_valid n value in
    if valid_utf8 (take (suc n) value) then take (suc n) value else rest

abbrev pub filename_of : Entity → Bytes
filename_of e =
    let name = value_of (codes "filename") e.disposition_parameters in
    if is_empty name then value_of (codes "name") e.parameters else name

abbrev pub is_listed : Entity → Bool
is_listed e = equal e.disposition (codes "attachment") || not (is_empty (filename_of e))

abbrev pub is_message : Entity → Bool
is_message e =
    equal e.media_type (codes "message/rfc822") || equal e.media_type (codes "message/global")

abbrev pub cut_depth : Projector → Projector
cut_depth p = record p { mime_depth = true }

module _ (mime : Mime) where
  -- `truncateUTF8`.
  unfoldable pub truncate_utf8 : Bytes → ℕ → Bytes × Bool
  unfolding longest_valid
  truncate_utf8 value limit =
      if leb (length value) limit
      then (mime.to_valid_utf8 value, false)
      else (mime.to_valid_utf8 (longest_valid limit value), true)

  module _ (limits : Limits) where
    abbrev pub entry_of : Entity → Entry
    entry_of e = record {
      filename = (truncate_utf8 (filename_of e) limits.max_filename_bytes).0;
      content_type = (truncate_utf8 e.media_type limits.max_content_type_bytes).0;
      disposition = (truncate_utf8 e.disposition limits.max_disposition_bytes).0;
      has_transfer_octets = e.has_transfer_octets;
      transfer_octets = e.transfer_octets;
      declared_size = mime.parse_size (value_of (codes "size") e.disposition_parameters);
    }

    abbrev pub is_entry_cut : Entity → Bool
    is_entry_cut e =
        (truncate_utf8 (filename_of e) limits.max_filename_bytes).1
        || (truncate_utf8 e.media_type limits.max_content_type_bytes).1
        || (truncate_utf8 e.disposition limits.max_disposition_bytes).1

    -- `appendAttachment`.
    unfoldable pub append_attachment : Entity → Projector → Projector
    append_attachment e p =
        if leb limits.max_attachment_count (length p.attachments)
        then record p { attachments_cut = true }
        else record p {
          attachments = p.attachments ++ entry_of e ∷ [];
          attachments_cut = p.attachments_cut || is_entry_cut e;
        }

    -- Behind the children of an entity that is not listed.
    abbrev pub close_entity : Entity → Projector × Outcome → Projector × Outcome
    close_entity e (p, finished) = (if is_message e then cut_depth p else p, finished)
    close_entity e (p, parts_limit) = (p, parts_limit)
    close_entity e (p, malformed) = (p, malformed)

    abbrev pub visit_entity :
        Option Entity → (Projector → Projector × Outcome) → Projector → Projector × Outcome
    visit_entity none children p = (p, malformed)
    visit_entity (some e) children p =
        if is_listed e then (append_attachment e p, finished) else close_entity e (children p)

    abbrev pub and_next :
        (Projector → Projector × Outcome) → Projector × Outcome → Projector × Outcome
    and_next next (p, finished) = next p
    and_next next (p, parts_limit) = (p, parts_limit)
    and_next next (p, malformed) = (p, malformed)

    abbrev pub within_depth :
        ℕ → (Projector → Projector × Outcome) → Projector → Projector × Outcome
    within_depth depth visit p =
        if ltb limits.max_mime_depth depth then (cut_depth p, finished) else visit p

    abbrev pub within_parts : (Projector → Projector × Outcome) → Projector → Projector × Outcome
    within_parts visit p =
        if leb limits.max_mime_parts p.parts
        then (record p { mime_parts = true }, parts_limit)
        else visit (record p { parts = p.parts + 1 })

    -- `visit`, and its loop over the children.
    unfoldable mutual
      unfolding append_attachment

      pub visit : ℕ → Structure → Projector → Projector × Outcome
      visit depth (single i) p =
          within_depth depth (visit_entity (single_entity mime i) (λ q. (q, finished))) p
      visit depth (multi i cs) p =
          within_depth depth (visit_entity (multi_entity mime i) (visit_children (depth + 1) cs)) p
      visit depth neither p = within_depth depth (λ q. (q, malformed)) p

      pub visit_children : ℕ → Children → Projector → Projector × Outcome
      visit_children depth no_child p = (p, finished)
      visit_children depth (child c cs) p =
          within_parts (λ q. and_next (visit_children depth cs) (visit depth c q)) p

-- What `projectAttachmentStructure` returns of a projector; `none` is its error.
abbrev pub projected : Projector × Outcome → Option Projector
projected (p, finished) = some p
projected (p, parts_limit) = some p
projected (p, malformed) = none

-- The default limits but for the parts and the attachments.
abbrev pub limits_of : ℤ → ℤ → Limits
limits_of max_parts max_attachments =
    let l = normalized_limits (record {
      limit_raw_bytes = pos 0;
      limit_header_bytes = pos 0;
      limit_header_count = pos 0;
      limit_mime_parts = max_parts;
      limit_mime_depth = pos 0;
      limit_decoded_text_bytes = pos 0;
      limit_attachment_count = max_attachments;
      limit_filename_bytes = pos 0;
      limit_content_type_bytes = pos 0;
      limit_disposition_bytes = pos 0;
      limit_reference_count = pos 0;
      limit_thread_depth = pos 0;
      limit_thread_messages = pos 0;
    }) in
    record {
      max_mime_parts = abs l.limit_mime_parts;
      max_mime_depth = abs l.limit_mime_depth;
      max_attachment_count = abs l.limit_attachment_count;
      max_filename_bytes = abs l.limit_filename_bytes;
      max_content_type_bytes = abs l.limit_content_type_bytes;
      max_disposition_bytes = abs l.limit_disposition_bytes;
    }

abbrev pub new_projector : Projector
new_projector = record {
  parts = 1;
  attachments = [];
  mime_parts = false;
  mime_depth = false;
  attachments_cut = false;
}

-- `projectAttachmentStructure`.
unfoldable pub project_attachments : Mime → ℤ → ℤ → Structure → Option Projector
unfolding visit
project_attachments mime max_parts max_attachments s =
    projected (visit mime (limits_of max_parts max_attachments) 0 s new_projector)
