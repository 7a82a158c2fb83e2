-- ===== src/Output/DriveResults.antt =====
-- The results of the Drive tools have the shape that the bounded output asks for.
use croton_mcp.Base.{
  ℕ, ◌+◌, ◌<◌, Bool, true, false, Option, none, some, Bytes, length, ◌≡◌, refl, subst, arith,
  of_branches,
}
use croton_mcp.Output.Drive.{
  ListDriveResult, SharingStatusResult, Largest, proton, non_proton, all_members, shrink_drive,
  largest_of, list_of, halved, is_some, shrink_sharing,
}
use croton_mcp.Output.Encode.{Shape, IsShrinking}
use croton_mcp.Output.Mail.{first_half, is_nil}
use croton_mcp.Output.Halves.{some-injective, of_choice, length-first_half}

module _ {S D E : Type 0} (marshal : ListDriveResult S D E → Option Bytes) where
  abbrev pub drive_shape : Shape (ListDriveResult S D E) Bytes
  drive_shape = record {
    marshal = marshal;
    shrink = shrink_drive;
    fallback = λ r. none;
    is_selectable = false;
    identity = λ r. r.path;
    is_truncated = λ r. r.truncated;
  }

  of_drive {ℓ} :
      (P : ListDriveResult S D E → Type ℓ) (a b : ListDriveResult S D E)
      → (is_nil a.entries ≡ false
          → P (record a { entries = first_half a.entries; truncated = true }))
      → (is_nil a.devices ≡ false
          → P (record a { devices = first_half a.devices; truncated = true }))
      → (is_nil a.sections ≡ false
          → P (record a { sections = first_half a.sections; truncated = true }))
      → shrink_drive a ≡ some b
      → P b
  of_drive P a b p q r e =
      of_branches (λ o. o ≡ some b → P b) (is_nil a.entries) _ _
        (λ c d.
          of_branches (λ o. o ≡ some b → P b) (is_nil a.devices) _ _
            (λ f g. of_choice P (is_nil a.sections) _ b r g)
            (λ f g. subst P (some-injective g) (q f)) d)
        (λ c d. subst P (some-injective d) (p c)) e

  pub drive_shape-IsShrinking : IsShrinking drive_shape
  drive_shape-IsShrinking = record {
    size = λ r. length r.entries + length r.devices + length r.sections;
    smaller = λ a b e.
        of_drive
          (λ r.
            length r.entries + length r.devices + length r.sections
            < length a.entries + length a.devices + length a.sections)
          a b (λ c. omega (arith, length-first_half a.entries c))
          (λ c. omega (arith, length-first_half a.devices c))
          (λ c. omega (arith, length-first_half a.sections c)) e;
    shrink_marks =
        λ a b e. of_drive (λ r. r.truncated ≡ true) a b (λ c. refl) (λ c. refl) (λ c. refl) e;
    shrink_keeps =
        λ a b e. of_drive (λ r. r.path ≡ a.path) a b (λ c. refl) (λ c. refl) (λ c. refl) e;
    fallback_marks = λ a b e. absurd (cc e);
    fallback_keeps = λ a b s e. absurd (cc e);
  }

abbrev weight : {U : Type 0} → Option U → ℕ
weight none = 0
weight (some u) = 1

abbrev bulk : {M U : Type 0} → SharingStatusResult M U → ℕ
bulk r =
    length r.proton_invitations
    + length r.non_proton_invitations
    + length r.members
    + weight r.url_access

bulk-halved :
    {M U : Type 0} (l : Largest) (r : SharingStatusResult M U)
    → is_nil (list_of l r) ≡ false
    → bulk (halved l r) < bulk r
bulk-halved proton r c = omega (arith, length-first_half r.proton_invitations c)
bulk-halved non_proton r c = omega (arith, length-first_half r.non_proton_invitations c)
bulk-halved all_members r c = omega (arith, length-first_half r.members c)

weight-some : {U : Type 0} (o : Option U) → is_some o ≡ true → 0 < weight o
weight-some none c = absurd (cc c)
weight-some (some u) c = omega arith

module _ {M U : Type 0} (marshal : SharingStatusResult M U → Option Bytes) where
  abbrev pub sharing_shape : Shape (SharingStatusResult M U) Bool
  sharing_shape = record {
    marshal = marshal;
    shrink = shrink_sharing;
    fallback = λ r. none;
    is_selectable = false;
    identity = λ r. r.shared;
    is_truncated = λ r. r.truncated;
  }

  of_sharing {ℓ} :
      (P : SharingStatusResult M U → Type ℓ) (a b : SharingStatusResult M U)
      → (is_nil (list_of (largest_of a) a) ≡ false → P (halved (largest_of a) a))
      → (is_some a.url_access ≡ true → P (record a { url_access = none; truncated = true }))
      → shrink_sharing a ≡ some b
      → P b
  of_sharing P a b p q e =
      of_branches (λ o. o ≡ some b → P b) (is_nil (list_of (largest_of a) a)) _ _
        (λ c d.
          of_branches (λ o. o ≡ some b → P b) (is_some a.url_access) _ _
            (λ f g. subst P (some-injective g) (q f)) (λ f g. absurd (cc g)) d)
        (λ c d. subst P (some-injective d) (p c)) e

  halved-truncated : (l : Largest) (r : SharingStatusResult M U) → (halved l r).truncated ≡ true
  halved-truncated proton r = refl
  halved-truncated non_proton r = refl
  halved-truncated all_members r = refl

  halved-shared : (l : Largest) (r : SharingStatusResult M U) → (halved l r).shared ≡ r.shared
  halved-shared proton r = refl
  halved-shared non_proton r = refl
  halved-shared all_members r = refl

  pub sharing_shape-IsShrinking : IsShrinking sharing_shape
  sharing_shape-IsShrinking = record {
    size = bulk;
    smaller = λ a b e.
        of_sharing (λ r. bulk r < bulk a) a b (bulk-halved (largest_of a) a)
          (λ c. omega (arith, weight-some a.url_access c)) e;
    shrink_marks = λ a b e.
        of_sharing (λ r. r.truncated ≡ true) a b (λ c. halved-truncated (largest_of a) a)
          (λ c. refl) e;
    shrink_keeps = λ a b e.
        of_sharing (λ r. r.shared ≡ a.shared) a b (λ c. halved-shared (largest_of a) a) (λ c. refl)
          e;
    fallback_marks = λ a b e. absurd (cc e);
    fallback_keeps = λ a b s e. absurd (cc e);
  }
