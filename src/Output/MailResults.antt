-- ===== src/Output/MailResults.antt =====
-- The results of the mail tools have the shape that the bounded output asks for.
use croton_mcp.Base.{
  ℕ, ◌+◌, ◌/◌, ◌<◌, true, false, Option, some, ltb, Bytes, length, length-take, take, ◌≡◌, refl,
  sym, ap, subst, arith, of_branches,
}
use croton_mcp.Output.Encode.{Shape, IsShrinking}
use croton_mcp.Output.Mail.{
  ListFoldersResult, SearchMailResult, GetMessageResult, ListAttachmentsResult, GetThreadResult,
  SelectDigestResult, first_half, is_nil, halve_runes, shrink_folders, shrink_search,
  shrink_message, shrink_thread, shrink_attachments, shrink_digest, fallback_folders,
  fallback_search, fallback_message, fallback_thread, fallback_attachments, fallback_digest,
  cut_output,
}
use croton_mcp.Text.{is_empty}
use croton_mcp.Output.Halves.{some-injective, of_choice, length-first_half, length-halve_runes}

module _ {F : Type 0} (marshal : ListFoldersResult F → Option Bytes) where
  abbrev pub folders_shape : Shape (ListFoldersResult F) (Unit {0})
  folders_shape = record {
    marshal = marshal;
    shrink = shrink_folders;
    fallback = λ r. some (fallback_folders r);
    is_selectable = false;
    identity = λ r. tt;
    is_truncated = λ r. r.truncated;
  }

  pub folders_shape-IsShrinking : IsShrinking folders_shape
  folders_shape-IsShrinking = record {
    size = λ r. length r.folders;
    smaller = λ a b e.
        of_choice (λ r. length r.folders < length a.folders) (is_nil a.folders) _ b
          (length-first_half a.folders) e;
    shrink_marks =
        λ a b e. of_choice (λ r. r.truncated ≡ true) (is_nil a.folders) _ b (λ c. refl) e;
    shrink_keeps = λ a b e. refl;
    fallback_marks = λ a b e. ap (λ r. r.truncated) (sym (some-injective e));
    fallback_keeps = λ a b s e. refl;
  }

module _ {M : Type 0} (marshal : SearchMailResult M → Option Bytes) where
  abbrev pub search_shape : Shape (SearchMailResult M) (Unit {0})
  search_shape = record {
    marshal = marshal;
    shrink = shrink_search;
    fallback = λ r. some (fallback_search r);
    is_selectable = false;
    identity = λ r. tt;
    is_truncated = λ r. r.truncated;
  }

  pub search_shape-IsShrinking : IsShrinking search_shape
  search_shape-IsShrinking = record {
    size = λ r. length r.results;
    smaller = λ a b e.
        of_choice (λ r. length r.results < length a.results) (is_nil a.results) _ b
          (length-first_half a.results) e;
    shrink_marks =
        λ a b e. of_choice (λ r. r.truncated ≡ true) (is_nil a.results) _ b (λ c. refl) e;
    shrink_keeps = λ a b e. refl;
    fallback_marks = λ a b e. ap (λ r. r.truncated) (sym (some-injective e));
    fallback_keeps = λ a b s e. refl;
  }

-- The identity that a client may select a message by: identifier, mailbox, generation and UID.
abbrev pub Identity : Type 0
Identity = Bytes × Bytes × ℕ × ℕ

module _ {H A : Type 0} (blank : H) (marshal : GetMessageResult H A → Option Bytes) where
  abbrev pub message_shape : Shape (GetMessageResult H A) Identity
  message_shape = record {
    marshal = marshal;
    shrink = shrink_message;
    fallback = λ r. some (fallback_message blank r);
    is_selectable = true;
    identity = λ r. (r.id, r.mailbox, r.uid_validity, r.uid);
    is_truncated = λ r. r.truncated;
  }

  -- What holds of both ways in which a message shrinks.
  of_message {ℓ} :
      (P : GetMessageResult H A → Type ℓ) (a b : GetMessageResult H A)
      → (is_empty a.text ≡ false
          → P (record a {
            text = halve_runes a.text;
            truncation = cut_output a.truncation;
            truncated = true;
          }))
      → (is_nil a.attachments ≡ false
          → P (record a {
            attachments = first_half a.attachments;
            truncation = cut_output a.truncation;
            truncated = true;
          }))
      → shrink_message a ≡ some b
      → P b
  of_message P a b p q e =
      of_branches (λ o. o ≡ some b → P b) (is_empty a.text) _ _
        (λ c d. of_choice P (is_nil a.attachments) _ b q d)
        (λ c d. subst P (some-injective d) (p c)) e

  pub message_shape-IsShrinking : IsShrinking message_shape
  message_shape-IsShrinking = record {
    size = λ r. length r.text + length r.attachments;
    smaller = λ a b e.
        of_message
          (λ r. length r.text + length r.attachments < length a.text + length a.attachments) a b
          (λ c. omega (arith, length-halve_runes a.text c))
          (λ c. omega (arith, length-first_half a.attachments c)) e;
    shrink_marks = λ a b e. of_message (λ r. r.truncated ≡ true) a b (λ c. refl) (λ c. refl) e;
    shrink_keeps = λ a b e.
        of_message (λ r. message_shape.identity r ≡ message_shape.identity a) a b (λ c. refl)
          (λ c. refl) e;
    fallback_marks = λ a b e. ap (λ r. r.truncated) (sym (some-injective e));
    fallback_keeps = λ a b s e. ap (λ r. message_shape.identity r) (sym (some-injective e));
  }

module _ {N U : Type 0} (marshal : GetThreadResult N U → Option Bytes) where
  abbrev pub thread_shape : Shape (GetThreadResult N U) (Unit {0})
  thread_shape = record {
    marshal = marshal;
    shrink = shrink_thread;
    fallback = λ r. some (fallback_thread r);
    is_selectable = false;
    identity = λ r. tt;
    is_truncated = λ r. r.truncated;
  }

  of_thread {ℓ} :
      (P : GetThreadResult N U → Type ℓ) (a b : GetThreadResult N U)
      → (is_nil a.unavailable_members ≡ false
          → P (record a {
            unavailable_members = first_half a.unavailable_members;
            truncated = true;
          }))
      → (ltb 1 (length a.nodes) ≡ true
          → P (record a { nodes = take ((length a.nodes + 1) / 2) a.nodes; truncated = true }))
      → shrink_thread a ≡ some b
      → P b
  of_thread P a b p q e =
      of_branches (λ o. o ≡ some b → P b) (is_nil a.unavailable_members) _ _
        (λ c d.
          of_branches (λ o. o ≡ some b → P b) (ltb 1 (length a.nodes)) _ _
            (λ f g. subst P (some-injective g) (q f)) (λ f g. absurd (cc g)) d)
        (λ c d. subst P (some-injective d) (p c)) e

  pub thread_shape-IsShrinking : IsShrinking thread_shape
  thread_shape-IsShrinking = record {
    size = λ r. length r.unavailable_members + length r.nodes;
    smaller = λ a b e.
        of_thread
          (λ r.
            length r.unavailable_members + length r.nodes
            < length a.unavailable_members + length a.nodes)
          a b (λ c. omega (arith, length-first_half a.unavailable_members c))
          (λ c. ground (arith, c, length-take ((length a.nodes + 1) / 2) a.nodes)) e;
    shrink_marks = λ a b e. of_thread (λ r. r.truncated ≡ true) a b (λ c. refl) (λ c. refl) e;
    shrink_keeps = λ a b e. refl;
    fallback_marks = λ a b e. ap (λ r. r.truncated) (sym (some-injective e));
    fallback_keeps = λ a b s e. refl;
  }

module _ {A : Type 0} (marshal : ListAttachmentsResult A → Option Bytes) where
  abbrev pub attachments_shape : Shape (ListAttachmentsResult A) Identity
  attachments_shape = record {
    marshal = marshal;
    shrink = shrink_attachments;
    fallback = λ r. some (fallback_attachments r);
    is_selectable = true;
    identity = λ r. (r.id, r.mailbox, r.uid_validity, r.uid);
    is_truncated = λ r. r.truncated;
  }

  pub attachments_shape-IsShrinking : IsShrinking attachments_shape
  attachments_shape-IsShrinking = record {
    size = λ r. length r.attachments;
    smaller = λ a b e.
        of_choice (λ r. length r.attachments < length a.attachments) (is_nil a.attachments) _ b
          (length-first_half a.attachments) e;
    shrink_marks =
        λ a b e. of_choice (λ r. r.truncated ≡ true) (is_nil a.attachments) _ b (λ c. refl) e;
    shrink_keeps = λ a b e.
        of_choice (λ r. attachments_shape.identity r ≡ attachments_shape.identity a)
          (is_nil a.attachments) _ b (λ c. refl) e;
    fallback_marks = λ a b e. ap (λ r. r.truncated) (sym (some-injective e));
    fallback_keeps = λ a b s e. ap (λ r. attachments_shape.identity r) (sym (some-injective e));
  }

module _ {M : Type 0} (marshal : SelectDigestResult M → Option Bytes) where
  abbrev pub digest_shape : Shape (SelectDigestResult M) (Unit {0})
  digest_shape = record {
    marshal = marshal;
    shrink = shrink_digest;
    fallback = λ r. some (fallback_digest r);
    is_selectable = false;
    identity = λ r. tt;
    is_truncated = λ r. r.truncated;
  }

  pub digest_shape-IsShrinking : IsShrinking digest_shape
  digest_shape-IsShrinking = record {
    size = λ r. length r.candidates;
    smaller = λ a b e.
        of_choice (λ r. length r.candidates < length a.candidates) (is_nil a.candidates) _ b
          (length-first_half a.candidates) e;
    shrink_marks =
        λ a b e. of_choice (λ r. r.truncated ≡ true) (is_nil a.candidates) _ b (λ c. refl) e;
    shrink_keeps = λ a b e. refl;
    fallback_marks = λ a b e. ap (λ r. r.truncated) (sym (some-injective e));
    fallback_keeps = λ a b s e. refl;
  }
