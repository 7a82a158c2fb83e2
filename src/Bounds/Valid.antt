-- ===== src/Bounds/Valid.antt =====
-- What `mergeBounds` returns, told field by field, and its ceilings.
use croton_mcp.Base.{
  ℕ, Bool, true, false, ◌||◌, ◌==◌, ◌≤◌, ◌≡◌, refl, arith, Option, none, some, List, [], ◌∷◌, leb,
  subst, sym, ◌∙◌, min, if◌then◌else◌, ℤ, pos, negsuc,
}
use croton_mcp.Codes.{bounds_exceeded}
use croton_mcp.Triage.Result.{Result, done, failed}
use croton_mcp.Bounds.Merge.{Bounds, BoundsPatch, ◌>>=◌, clamp_bound, nonzero, merge_bounds}

abbrev is_refused : Option ℤ → Bool
is_refused (some (negsuc n)) = true
is_refused _ = false

abbrev is_zero : Option ℤ → Bool
is_zero (some (pos n)) = n == 0
is_zero _ = false

-- The value that a field comes to when it is not refused.
abbrev effective : Option ℤ → ℕ → ℕ → ℕ
effective (some (pos n)) fallback ceiling = min n ceiling
effective _ fallback ceiling = fallback

clamp_bound-effective :
    (v : Option ℤ) (fallback ceiling : ℕ)
    → clamp_bound v fallback ceiling
      ≡ (if is_refused v then failed bounds_exceeded else done (effective v fallback ceiling))
unfolding clamp_bound
clamp_bound-effective none fallback ceiling = refl
clamp_bound-effective (some (negsuc n)) fallback ceiling = refl
clamp_bound-effective (some (pos n)) fallback ceiling = ground arith

abbrev any_of : List Bool → Bool
any_of [] = false
any_of (b ∷ bs) = b || any_of bs

-- A patch is refused when a field of it is negative or the header limit is zero.
abbrev is_refused_patch : BoundsPatch → Bool
is_refused_patch p = any_of (
    is_refused p.search_results
    ∷ is_refused p.folder_results
    ∷ is_refused p.body_bytes
    ∷ is_zero p.header_bytes
    ∷ is_refused p.header_bytes
    ∷ is_refused p.mime_parts
    ∷ is_refused p.attachment_count
    ∷ is_refused p.thread_messages
    ∷ is_refused p.thread_fetches
    ∷ is_refused p.preview_chars
    ∷ is_refused p.output_bytes
    ∷ [])

abbrev effective_bounds : BoundsPatch → Bounds
effective_bounds p = record {
  max_search_results = effective p.search_results 50 250;
  max_folder_results = effective p.folder_results 200 1000;
  max_body_bytes = effective p.body_bytes 262144 1048576;
  max_header_bytes = effective p.header_bytes 16384 65536;
  max_mime_parts = effective p.mime_parts 50 200;
  max_attachment_count = effective p.attachment_count 20 100;
  max_thread_messages = effective p.thread_messages 20 100;
  max_thread_fetches = effective p.thread_fetches 30 100;
  max_preview_chars = effective p.preview_chars 200 1000;
  max_output_bytes = effective p.output_bytes 100000 400000;
}

nonzero-is_zero :
    (v : Option ℤ) → nonzero v ≡ (if is_zero v then failed bounds_exceeded else done tt)
unfolding nonzero
nonzero-is_zero none = refl
nonzero-is_zero (some (pos n)) = refl
nonzero-is_zero (some (negsuc n)) = refl

-- One step of a chain, over the verdict on the rest of it.
step {ℓ} :
    {A : Type ℓ} (c rest : Bool) (x : Result A) {a : A} (f : A → Result Bounds) (b : Bounds)
    → x ≡ (if c then failed bounds_exceeded else done a)
    → f a ≡ (if rest then failed bounds_exceeded else done b)
    → (x >>= f) ≡ (if c || rest then failed bounds_exceeded else done b)
step true rest x f b e r = rw (e)
step false rest x f b e r = rw (e, r)

-- `mergeBounds` fails with `bounds_exceeded` exactly where a value is negative or the header limit is
-- zero; otherwise each limit is the value given, at most its ceiling, or the default for no value.
pub merge_bounds-effective :
    (p : BoundsPatch)
    → merge_bounds p
      ≡ (if is_refused_patch p then failed bounds_exceeded else done (effective_bounds p))
unfolding merge_bounds
merge_bounds-effective p =
    step _ _ _ _ (effective_bounds p) (clamp_bound-effective p.search_results 50 250) (
      step _ _ _ _ (effective_bounds p) (clamp_bound-effective p.folder_results 200 1000) (
        step _ _ _ _ (effective_bounds p) (clamp_bound-effective p.body_bytes 262144 1048576) (
          step _ _ _ _ (effective_bounds p) (nonzero-is_zero p.header_bytes) (
            step _ _ _ _ (effective_bounds p) (clamp_bound-effective p.header_bytes 16384 65536) (
              step _ _ _ _ (effective_bounds p) (clamp_bound-effective p.mime_parts 50 200) (
                step _ _ _ _ (effective_bounds p) (clamp_bound-effective p.attachment_count 20 100)
                  (step _ _ _ _ (effective_bounds p)
                    (clamp_bound-effective p.thread_messages 20 100)
                    (step _ _ _ _ (effective_bounds p)
                      (clamp_bound-effective p.thread_fetches 30 100)
                      (step _ _ _ _ (effective_bounds p)
                        (clamp_bound-effective p.preview_chars 200 1000)
                        (step _ false _ _ (effective_bounds p)
                          (clamp_bound-effective p.output_bytes 100000 400000) (refl)))))))))))

-- Every limit is at most its ceiling.
abbrev pub Within : Bounds → Type 0
Within b =
    (b.max_search_results ≤ 250)
    × (b.max_folder_results ≤ 1000)
    × (b.max_body_bytes ≤ 1048576)
    × (b.max_header_bytes ≤ 65536)
    × (b.max_mime_parts ≤ 200)
    × (b.max_attachment_count ≤ 100)
    × (b.max_thread_messages ≤ 100)
    × (b.max_thread_fetches ≤ 100)
    × (b.max_preview_chars ≤ 1000)
    × (b.max_output_bytes ≤ 400000)

effective-ceiling :
    (v : Option ℤ) (fallback ceiling : ℕ)
    → leb fallback ceiling ≡ true
    → effective v fallback ceiling ≤ ceiling
effective-ceiling none fallback ceiling h = ground (arith, h)
effective-ceiling (some (negsuc n)) fallback ceiling h = ground (arith, h)
effective-ceiling (some (pos n)) fallback ceiling h = omega arith

effective_bounds-Within : (p : BoundsPatch) → Within (effective_bounds p)
effective_bounds-Within p = (
  effective-ceiling p.search_results _ _ refl,
  effective-ceiling p.folder_results _ _ refl,
  effective-ceiling p.body_bytes _ _ refl,
  effective-ceiling p.header_bytes _ _ refl,
  effective-ceiling p.mime_parts _ _ refl,
  effective-ceiling p.attachment_count _ _ refl,
  effective-ceiling p.thread_messages _ _ refl,
  effective-ceiling p.thread_fetches _ _ refl,
  effective-ceiling p.preview_chars _ _ refl,
  effective-ceiling p.output_bytes _ _ refl,
)

of_done :
    (c : Bool) (x b : Bounds) → (if c then failed bounds_exceeded else done x) ≡ done b → x ≡ b
of_done true x b e = absurd (ground (arith, e))
of_done false x b e = cc e

-- Whatever the caller asks for, the bounds that come into force are within the ceilings.
pub merge_bounds-Within : (p : BoundsPatch) (b : Bounds) → merge_bounds p ≡ done b → Within b
merge_bounds-Within p b e =
    subst Within
      (of_done (is_refused_patch p) (effective_bounds p) b (sym (merge_bounds-effective p) ∙ e))
      (effective_bounds-Within p)
