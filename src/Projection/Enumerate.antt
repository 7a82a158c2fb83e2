-- ===== src/Projection/Enumerate.antt =====
-- The attachments of a structure without any limits, where they can be known, and when an entry is whole.
use croton_mcp.Base.{
  ℕ, Bool, false, ◌||◌, Option, none, some, List, [], ◌∷◌, ◌++◌, leb, if◌then◌else◌, Bytes, codes,
  length, ◌≡◌, refl, ap, ◌∙◌, arith, of_branches,
}
use croton_mcp.Projection.Entity.{
  Structure, single, multi, neither, Children, no_child, child, Mime, Entity, single_entity,
  multi_entity,
}
use croton_mcp.Projection.Visit.{
  Limits, Entry, Projector, value_of, filename_of, is_listed, truncate_utf8, entry_of, is_entry_cut,
  is_message,
}

-- No flag of the truncation is set.
abbrev pub IsClean : Projector → Type 0
IsClean p = (p.mime_parts ≡ false) × (p.mime_depth ≡ false) × (p.attachments_cut ≡ false)

module _ (mime : Mime) where
  -- The entry of an attachment with all of its fields whole.
  abbrev pub whole_entry : Entity → Entry
  whole_entry e = record {
    filename = mime.to_valid_utf8 (filename_of e);
    content_type = mime.to_valid_utf8 e.media_type;
    disposition = mime.to_valid_utf8 e.disposition;
    has_transfer_octets = e.has_transfer_octets;
    transfer_octets = e.transfer_octets;
    declared_size = mime.parse_size (value_of (codes "size") e.disposition_parameters);
  }

  -- The attachments of an entity, if they can be known: itself, if it is one; those below it, unless it
  -- is a message of its own, whose content the structure does not tell.
  abbrev pub entries_of : Option Entity → Option (List Entry) → Option (List Entry)
  entries_of none below = none
  entries_of (some e) below =
      if is_listed e then some (whole_entry e ∷ []) else if is_message e then none else below

  abbrev pub join : Option (List Entry) → Option (List Entry) → Option (List Entry)
  join (some a) (some b) = some (a ++ b)
  join _ _ = none

  -- The attachments of a structure, in order; `none` where it is malformed or holds a message that is
  -- itself no attachment.
  unfoldable mutual
    pub enumerate : Structure → Option (List Entry)
    enumerate (single i) = entries_of (single_entity mime i) (some [])
    enumerate (multi i cs) = entries_of (multi_entity mime i) (enumerate_children cs)
    enumerate neither = none

    pub enumerate_children : Children → Option (List Entry)
    enumerate_children no_child = some []
    enumerate_children (child c cs) = join (enumerate c) (enumerate_children cs)

  module _ (limits : Limits) where
    whole_field :
        (s : Bytes) (n : ℕ)
        → (truncate_utf8 mime s n).1 ≡ false
        → (truncate_utf8 mime s n).0 ≡ mime.to_valid_utf8 s
    unfolding truncate_utf8
    whole_field s n h =
        of_branches (λ (r : Bytes × Bool). r.1 ≡ false → r.0 ≡ mime.to_valid_utf8 s)
          (leb (length s) n) _ _ (λ e h. refl) (λ e h. absurd (cc h)) h

    or_parts : (a b c : Bool) → (a || b || c) ≡ false → (a ≡ false) × (b ≡ false) × (c ≡ false)
    or_parts a b c h = ground (arith, h)

    pub or_left : (a b : Bool) → (a || b) ≡ false → (a ≡ false) × (b ≡ false)
    or_left a b h = ground (arith, h)

    pub whole_entry-entry_of :
        (e : Entity) → is_entry_cut mime limits e ≡ false → entry_of mime limits e ≡ whole_entry e
    whole_entry-entry_of e h =
        let f =
          or_parts (truncate_utf8 mime (filename_of e) limits.max_filename_bytes).1
            (truncate_utf8 mime e.media_type limits.max_content_type_bytes).1
            (truncate_utf8 mime e.disposition limits.max_disposition_bytes).1 h in
        ap (λ (x : Bytes). record (entry_of mime limits e) { filename = x })
          (whole_field (filename_of e) limits.max_filename_bytes f.0)
        ∙ ap
            (λ (x : Bytes). record (entry_of mime limits e) {
              filename = mime.to_valid_utf8 (filename_of e);
              content_type = x;
            })
            (whole_field e.media_type limits.max_content_type_bytes f.1)
        ∙ ap (λ (x : Bytes). record (whole_entry e) { disposition = x })
            (whole_field e.disposition limits.max_disposition_bytes f.2)
