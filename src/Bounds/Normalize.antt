-- ===== src/Bounds/Normalize.antt =====
-- bridge/types.go: `normalizedLimits`, the limits under which messages are normalized.
use croton_mcp.Base.{
  ℕ, zero, suc, true, ◌≤◌, ◌≡◌, refl, arith, of_branches, ltb, leb, ◌&&◌, if◌then◌else◌, ℤ, pos,
  negsuc,
}

-- `NormalizeLimits`; an `int` may be negative.
pub record NormalizeLimits : Type 0 where
  pub limit_raw_bytes : ℤ
  pub limit_header_bytes : ℤ
  pub limit_header_count : ℤ
  pub limit_mime_parts : ℤ
  pub limit_mime_depth : ℤ
  pub limit_decoded_text_bytes : ℤ
  pub limit_attachment_count : ℤ
  pub limit_filename_bytes : ℤ
  pub limit_content_type_bytes : ℤ
  pub limit_disposition_bytes : ℤ
  pub limit_reference_count : ℤ
  pub limit_thread_depth : ℤ
  pub limit_thread_messages : ℤ

-- `boundedLimit`.
unfoldable pub bounded_limit : ℤ → ℕ → ℕ → ℤ
bounded_limit (negsuc n) default maximum = pos default
bounded_limit (pos zero) default maximum = pos default
bounded_limit (pos (suc n)) default maximum =
    if ltb maximum (suc n) then pos maximum else pos (suc n)

-- `normalizedLimits`.
unfoldable pub normalized_limits : NormalizeLimits → NormalizeLimits
normalized_limits l = record {
  limit_raw_bytes = bounded_limit l.limit_raw_bytes 262144 1048576;
  limit_header_bytes = bounded_limit l.limit_header_bytes 16384 65536;
  limit_header_count = bounded_limit l.limit_header_count 100 500;
  limit_mime_parts = bounded_limit l.limit_mime_parts 50 200;
  limit_mime_depth = bounded_limit l.limit_mime_depth 10 20;
  limit_decoded_text_bytes = bounded_limit l.limit_decoded_text_bytes 262144 1048576;
  limit_attachment_count = bounded_limit l.limit_attachment_count 20 100;
  limit_filename_bytes = bounded_limit l.limit_filename_bytes 255 1024;
  limit_content_type_bytes = bounded_limit l.limit_content_type_bytes 255 1024;
  limit_disposition_bytes = bounded_limit l.limit_disposition_bytes 127 512;
  limit_reference_count = bounded_limit l.limit_reference_count 50 200;
  limit_thread_depth = bounded_limit l.limit_thread_depth 20 100;
  limit_thread_messages = bounded_limit l.limit_thread_messages 20 100;
}

-- A value in force: positive, and at most its maximum.
abbrev pub InForce : ℕ → ℤ → Type 0
InForce maximum (pos n) = (1 ≤ n) × (n ≤ maximum)
InForce maximum (negsuc n) = ⊥

bounded_limit-InForce :
    (v : ℤ) (default maximum : ℕ)
    → 1 ≤ default
    → default ≤ maximum
    → InForce maximum (bounded_limit v default maximum)
unfolding bounded_limit
bounded_limit-InForce (negsuc n) default maximum p q = (p, q)
bounded_limit-InForce (pos zero) default maximum p q = (p, q)
bounded_limit-InForce (pos (suc n)) default maximum p q =
    of_branches (λ (v : ℤ). InForce maximum v) (ltb maximum (suc n)) _ _ (λ e. ground (arith, p, q))
      (λ e. ground (arith, e))

-- A limit in force is kept.
bounded_limit-kept :
    (v : ℤ) (default maximum : ℕ) → InForce maximum v → bounded_limit v default maximum ≡ v
unfolding bounded_limit
bounded_limit-kept (negsuc n) default maximum h = absurd h
bounded_limit-kept (pos zero) default maximum h = absurd (ground (arith, h))
bounded_limit-kept (pos (suc n)) default maximum h =
    of_branches (λ (v : ℤ). v ≡ pos (suc n)) (ltb maximum (suc n)) _ _
      (λ e. absurd (ground (arith, h, e))) (λ e. refl)

-- What a literal default and maximum come to.
in_force :
    (v : ℤ) (default maximum : ℕ)
    → (ltb 0 default && leb default maximum) ≡ true
    → InForce maximum (bounded_limit v default maximum)
in_force v default maximum h =
    bounded_limit-InForce v default maximum (ground (arith, h)) (ground (arith, h))

again :
    (v : ℤ) (default maximum : ℕ)
    → (ltb 0 default && leb default maximum) ≡ true
    → bounded_limit (bounded_limit v default maximum) default maximum
      ≡ bounded_limit v default maximum
again v default maximum h =
    bounded_limit-kept (bounded_limit v default maximum) default maximum
      (in_force v default maximum h)

-- Every limit is in force.
abbrev pub AreInForce : NormalizeLimits → Type 0
AreInForce l =
    InForce 1048576 l.limit_raw_bytes
    × InForce 65536 l.limit_header_bytes
    × InForce 500 l.limit_header_count
    × InForce 200 l.limit_mime_parts
    × InForce 20 l.limit_mime_depth
    × InForce 1048576 l.limit_decoded_text_bytes
    × InForce 100 l.limit_attachment_count
    × InForce 1024 l.limit_filename_bytes
    × InForce 1024 l.limit_content_type_bytes
    × InForce 512 l.limit_disposition_bytes
    × InForce 200 l.limit_reference_count
    × InForce 100 l.limit_thread_depth
    × InForce 100 l.limit_thread_messages

-- Whatever limits are asked for, those that come of them are positive and within the hard maxima,
-- and normalizing them again changes nothing.
pub normalized_limits-AreInForce :
    (l : NormalizeLimits)
    → AreInForce (normalized_limits l)
      × (normalized_limits (normalized_limits l) ≡ normalized_limits l)
unfolding normalized_limits
normalized_limits-AreInForce l = (
  (
    in_force l.limit_raw_bytes 262144 1048576 refl,
    in_force l.limit_header_bytes 16384 65536 refl,
    in_force l.limit_header_count 100 500 refl,
    in_force l.limit_mime_parts 50 200 refl,
    in_force l.limit_mime_depth 10 20 refl,
    in_force l.limit_decoded_text_bytes 262144 1048576 refl,
    in_force l.limit_attachment_count 20 100 refl,
    in_force l.limit_filename_bytes 255 1024 refl,
    in_force l.limit_content_type_bytes 255 1024 refl,
    in_force l.limit_disposition_bytes 127 512 refl,
    in_force l.limit_reference_count 50 200 refl,
    in_force l.limit_thread_depth 20 100 refl,
    in_force l.limit_thread_messages 20 100 refl,
  ),
  rw (
    again l.limit_raw_bytes 262144 1048576 refl,
    again l.limit_header_bytes 16384 65536 refl,
    again l.limit_header_count 100 500 refl,
    again l.limit_mime_parts 50 200 refl,
    again l.limit_mime_depth 10 20 refl,
    again l.limit_decoded_text_bytes 262144 1048576 refl,
    again l.limit_attachment_count 20 100 refl,
    again l.limit_filename_bytes 255 1024 refl,
    again l.limit_content_type_bytes 255 1024 refl,
    again l.limit_disposition_bytes 127 512 refl,
    again l.limit_reference_count 50 200 refl,
    again l.limit_thread_depth 20 100 refl,
    again l.limit_thread_messages 20 100 refl,
  ),
)
