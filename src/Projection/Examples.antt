-- ===== src/Projection/Examples.antt =====
-- Runs of the projection, with a parser that takes a header without parameters as it stands.
use croton_mcp.Base.{
  ℕ, ◌≤◌, Bool, true, false, Option, none, some, [], ◌∷◌, codes, pos, length, ◌≡◌, refl,
}
use croton_mcp.Projection.Complete.{project_attachments-IsClean}
use croton_mcp.Projection.Enumerate.{IsClean, enumerate}
use croton_mcp.Projection.Entity.{
  Structure, single, multi, no_child, child, Mime, single_entity, multi_entity,
  parse_structure_media_type, write_params, sort_params, insert_param, all_token, escape,
  is_parameter_token,
}
use croton_mcp.Projection.Visit.{
  Projector, value_of, append_attachment, truncate_utf8, visit, limits_of, project_attachments,
}
use croton_mcp.Bounds.Normalize.{normalized_limits, bounded_limit}
use croton_mcp.Text.{equal, less, contains}

abbrev plain : Mime
plain = record {
  parse_media_type = λ h. some (h, []);
  to_valid_utf8 = λ s. s;
  parse_size = λ s. none;
}

abbrev note : Structure
note = single (record {
  kind = codes "text";
  subtype = codes "plain";
  params = [];
  octets = 5;
  disposition = none;
})

abbrev file : Structure
file = single (record {
  kind = codes "image";
  subtype = codes "png";
  params = [];
  octets = 9;
  disposition = some (codes "attachment", []);
})

abbrev letter : Structure
letter =
    multi (record { subtype = codes "mixed"; params = []; disposition = none })
      (child note (child file (child file no_child)))

abbrev count_of : Option Projector → ℕ × Bool × Bool × Bool
count_of none = (100, true, true, true)
count_of (some p) = (length p.attachments, p.mime_parts, p.mime_depth, p.attachments_cut)

unfoldable run : ℕ → ℕ → ℕ × Bool × Bool × Bool
unfolding project_attachments visit append_attachment truncate_utf8 single_entity multi_entity
    parse_structure_media_type write_params sort_params contains equal value_of normalized_limits
    bounded_limit
run parts attachments = count_of (project_attachments plain (pos parts) (pos attachments) letter)

lists_both : run 4 2 ≡ (2, false, false, false)
unfolding run
lists_both = refl

stops_at_the_parts : run 3 2 ≡ (1, true, false, false)
unfolding run
stops_at_the_parts = refl

stops_at_the_count : run 4 1 ≡ (1, false, false, true)
unfolding run
stops_at_the_count = refl

-- The header that is parsed has its parameters in order, and quoted.
writes_a_header :
    write_params (sort_params ((codes "size", codes "1") ∷ (codes "filename", codes "a\"b") ∷ []))
    ≡ some (codes "; filename=\"a\\\"b\"; size=\"1\"")
unfolding write_params sort_params insert_param is_parameter_token all_token contains escape less
writes_a_header = refl

abbrev is_projected : Option Projector → Bool
is_projected none = false
is_projected (some p) = true

abbrev found : Option Projector → Projector
found none = record {
  parts = 0;
  attachments = [];
  mime_parts = true;
  mime_depth = true;
  attachments_cut = true;
}
found (some p) = p

found-some : (o : Option Projector) → is_projected o ≡ true → o ≡ some (found o)
found-some none e = absurd (cc e)
found-some (some p) e = refl

projects_a_letter : is_projected (project_attachments plain (pos 4) (pos 2) letter) ≡ true
unfolding project_attachments visit append_attachment truncate_utf8 single_entity multi_entity
    parse_structure_media_type write_params sort_params contains equal value_of normalized_limits
    bounded_limit
projects_a_letter = refl

project_attachments-IsClean_example :
    let q = found (project_attachments plain (pos 4) (pos 2) letter) in
    (length q.attachments ≤ (limits_of (pos 4) (pos 2)).max_attachment_count)
    × (IsClean q → enumerate plain letter ≡ some q.attachments)
project_attachments-IsClean_example =
    project_attachments-IsClean plain (pos 4) (pos 2) letter
      (found (project_attachments plain (pos 4) (pos 2) letter))
      (found-some (project_attachments plain (pos 4) (pos 2) letter) projects_a_letter)
