-- ===== src/Bounds/Examples.antt =====
-- Runs of `mergeBounds`.
use croton_mcp.Base.{negsuc, pos, none, some, ◌≡◌, refl}
use croton_mcp.Bounds.Merge.{
  Bounds, BoundsPatch, default_bounds, clamp_bound, nonzero, merge_bounds,
}
use croton_mcp.Bounds.Normalize.{
  NormalizeLimits, normalized_limits, AreInForce, normalized_limits-AreInForce,
}
use croton_mcp.Bounds.Valid.{Within, merge_bounds-effective, merge_bounds-Within}
use croton_mcp.Triage.Result.{done, failed}
use croton_mcp.Codes.{bounds_exceeded}

abbrev no_patch : BoundsPatch
no_patch = record {
  search_results = none;
  folder_results = none;
  body_bytes = none;
  header_bytes = none;
  mime_parts = none;
  attachment_count = none;
  thread_messages = none;
  thread_fetches = none;
  preview_chars = none;
  output_bytes = none;
}

abbrev large_patch : BoundsPatch
large_patch = record no_patch { search_results = some (pos 7); output_bytes = some (pos 900000) }

abbrev large_bounds : Bounds
large_bounds = record default_bounds { max_search_results = 7; max_output_bytes = 400000 }

merges : merge_bounds large_patch ≡ done large_bounds
unfolding merge_bounds clamp_bound nonzero
merges = refl

merge_bounds-effective_example :
    merge_bounds (record large_patch { header_bytes = some (pos 0) }) ≡ failed bounds_exceeded
merge_bounds-effective_example =
    merge_bounds-effective (record large_patch { header_bytes = some (pos 0) })

merge_bounds-Within_example : Within large_bounds
merge_bounds-Within_example = merge_bounds-Within large_patch large_bounds merges

abbrev no_limits : NormalizeLimits
no_limits = record {
  limit_raw_bytes = pos 0;
  limit_header_bytes = negsuc 4;
  limit_header_count = pos 501;
  limit_mime_parts = pos 3;
  limit_mime_depth = pos 0;
  limit_decoded_text_bytes = pos 0;
  limit_attachment_count = pos 0;
  limit_filename_bytes = pos 0;
  limit_content_type_bytes = pos 0;
  limit_disposition_bytes = pos 0;
  limit_reference_count = pos 0;
  limit_thread_depth = pos 0;
  limit_thread_messages = pos 7;
}

normalized_limits-AreInForce_example :
    let limits = normalized_limits no_limits in
    AreInForce limits × (normalized_limits limits ≡ limits)
normalized_limits-AreInForce_example = normalized_limits-AreInForce no_limits
