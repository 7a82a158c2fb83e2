-- ===== src/Bounds/Merge.antt =====
-- bridge/bounds.go, bridge/types.go: `mergeBounds`.
use croton_mcp.Base.{ℕ, Option, none, some, ltb, ◌==◌, if◌then◌else◌, ℤ, pos, negsuc}
use croton_mcp.Codes.{bounds_exceeded}
use croton_mcp.Triage.Result.{Result, done, failed}

-- `Bounds`.
pub record Bounds : Type 0 where
  pub max_search_results : ℕ
  pub max_folder_results : ℕ
  pub max_body_bytes : ℕ
  pub max_header_bytes : ℕ
  pub max_mime_parts : ℕ
  pub max_attachment_count : ℕ
  pub max_thread_messages : ℕ
  pub max_thread_fetches : ℕ
  pub max_preview_chars : ℕ
  pub max_output_bytes : ℕ

-- `BoundsPatch`; `none` is a nil pointer, and an `int` may be negative.
pub record BoundsPatch : Type 0 where
  pub search_results : Option ℤ
  pub folder_results : Option ℤ
  pub body_bytes : Option ℤ
  pub header_bytes : Option ℤ
  pub mime_parts : Option ℤ
  pub attachment_count : Option ℤ
  pub thread_messages : Option ℤ
  pub thread_fetches : Option ℤ
  pub preview_chars : Option ℤ
  pub output_bytes : Option ℤ

abbrev pub default_bounds : Bounds
default_bounds = record {
  max_search_results = 50;
  max_folder_results = 200;
  max_body_bytes = 262144;
  max_header_bytes = 16384;
  max_mime_parts = 50;
  max_attachment_count = 20;
  max_thread_messages = 20;
  max_thread_fetches = 30;
  max_preview_chars = 200;
  max_output_bytes = 100000;
}

-- The `hardMax` and `maximumMax` constants, by their bound.
abbrev pub hard_bounds : Bounds
hard_bounds = record {
  max_search_results = 250;
  max_folder_results = 1000;
  max_body_bytes = 1048576;
  max_header_bytes = 65536;
  max_mime_parts = 200;
  max_attachment_count = 100;
  max_thread_messages = 100;
  max_thread_fetches = 100;
  max_preview_chars = 1000;
  max_output_bytes = 400000;
}

infixl 10 ◌>>=◌
abbrev pub ◌>>=◌ {ℓ m} : {A : Type ℓ} {B : Type m} → Result A → (A → Result B) → Result B
done x >>= f = f x
failed code >>= f = failed code

-- `clampBound`.
unfoldable pub clamp_bound : Option ℤ → ℕ → ℕ → Result ℕ
clamp_bound none fallback ceiling = done fallback
clamp_bound (some (negsuc n)) fallback ceiling = failed bounds_exceeded
clamp_bound (some (pos n)) fallback ceiling = if ltb ceiling n then done ceiling else done n

-- A header limit of zero is refused, not taken.
unfoldable pub nonzero : Option ℤ → Result (Unit {0})
nonzero (some (pos n)) = if n == 0 then failed bounds_exceeded else done tt
nonzero _ = done tt

-- `mergeBounds`.
unfoldable pub merge_bounds : BoundsPatch → Result Bounds
merge_bounds patch = do
  search ←
      clamp_bound patch.search_results default_bounds.max_search_results
        hard_bounds.max_search_results
  folders ←
      clamp_bound patch.folder_results default_bounds.max_folder_results
        hard_bounds.max_folder_results
  body ← clamp_bound patch.body_bytes default_bounds.max_body_bytes hard_bounds.max_body_bytes
  _ ← nonzero patch.header_bytes
  header ←
      clamp_bound patch.header_bytes default_bounds.max_header_bytes hard_bounds.max_header_bytes
  parts ← clamp_bound patch.mime_parts default_bounds.max_mime_parts hard_bounds.max_mime_parts
  attachments ←
      clamp_bound patch.attachment_count default_bounds.max_attachment_count
        hard_bounds.max_attachment_count
  messages ←
      clamp_bound patch.thread_messages default_bounds.max_thread_messages
        hard_bounds.max_thread_messages
  fetches ←
      clamp_bound patch.thread_fetches default_bounds.max_thread_fetches
        hard_bounds.max_thread_fetches
  preview ←
      clamp_bound patch.preview_chars default_bounds.max_preview_chars hard_bounds.max_preview_chars
  output ←
      clamp_bound patch.output_bytes default_bounds.max_output_bytes hard_bounds.max_output_bytes
  done record {
    max_search_results = search;
    max_folder_results = folders;
    max_body_bytes = body;
    max_header_bytes = header;
    max_mime_parts = parts;
    max_attachment_count = attachments;
    max_thread_messages = messages;
    max_thread_fetches = fetches;
    max_preview_chars = preview;
    max_output_bytes = output;
  }
