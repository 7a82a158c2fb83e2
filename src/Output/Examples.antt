-- ===== src/Output/Examples.antt =====
-- Runs of the bounded output.
use croton_mcp.Base.{
  ℕ, zero, suc, ◌*◌, false, Option, some, List, [], ◌∷◌, Bytes, codes, length, ◌≡◌, refl,
}
use croton_mcp.Output.Encode.{encoded, encode_from, encode_bounded}
use croton_mcp.Output.Faithful.{IsFaithful, encode_bounded-IsFaithful}
use croton_mcp.Output.Mail.{ListAttachmentsResult, rune_boundary, halve_runes}
use croton_mcp.Output.MailResults.{attachments_shape, attachments_shape-IsShrinking}

abbrev listing : List Bytes → ListAttachmentsResult Bytes
listing names = record {
  id = codes "i";
  mailbox = codes "m";
  uid_validity = 9;
  uid = 7;
  attachments = names;
  truncation = record {
    mime_parts = false;
    mime_depth = false;
    attachments = false;
    output = false;
  };
  truncated = false;
}

abbrev repeated : ℕ → Bytes
repeated zero = []
repeated (suc n) = b'x' ∷ repeated n

-- As many bytes as sixty thousand times the number of the attachments.
marshal_attachments : ListAttachmentsResult Bytes → Option Bytes
marshal_attachments r = some (repeated (60000 * length r.attachments))

abbrev two_names : ListAttachmentsResult Bytes
two_names = listing (codes "a" ∷ codes "b" ∷ [])

encode_bounded-IsFaithful_example : IsFaithful (attachments_shape marshal_attachments) two_names (
    encode_bounded
      (attachments_shape marshal_attachments)
      (attachments_shape-IsShrinking marshal_attachments).size
      two_names)
encode_bounded-IsFaithful_example =
    encode_bounded-IsFaithful (attachments_shape marshal_attachments)
      (attachments_shape-IsShrinking marshal_attachments) two_names

-- Each name is one byte here, and the listing fits.
abbrev marshal_short : ListAttachmentsResult Bytes → Option Bytes
marshal_short r = some (repeated (length r.attachments))

fits :
    encode_bounded (attachments_shape marshal_short) (λ r. length r.attachments) two_names
    ≡ encoded (codes "xx") false
unfolding encode_bounded encode_from
fits = refl

-- A rune of two bytes is not cut.
keeps_runes : halve_runes (b'a' ∷ 0xc3 ∷ 0xa9 ∷ b'b' ∷ []) ≡ b'a' ∷ []
unfolding halve_runes rune_boundary
keeps_runes = refl
