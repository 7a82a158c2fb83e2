-- ===== src/Output/Halves.antt =====
-- What is halved is shorter.
use croton_mcp.Base.{
  ℕ, zero, suc, ◌/◌, ◌≤◌, ◌<◌, Bool, true, false, none, some, List, [], ◌∷◌, if◌then◌else◌, Bytes,
  length, length-take, ◌≡◌, refl, subst, arith, of_both,
}
use croton_mcp.Output.Mail.{first_half, is_nil, rune_boundary, halve_runes, is_rune_start, byte_at}
use croton_mcp.Text.{is_empty}

pub some-injective {ℓ} : {A : Type ℓ} {x y : A} → some x ≡ some y → x ≡ y
some-injective e = cc e

-- What a shrunk result comes to, where shrinking is a choice between none and one value.
pub of_choice {ℓ} :
    {A : Type 0} (P : A → Type ℓ) (c : Bool) (x b : A)
    → (c ≡ false → P x)
    → (if c then none else some x) ≡ some b
    → P b
of_choice P true x b p e = absurd (cc e)
of_choice P false x b p e = subst P (some-injective e) (p refl)

pub length-first_half {ℓ} :
    {A : Type ℓ} (xs : List A) → is_nil xs ≡ false → length (first_half xs) < length xs
length-first_half [] e = absurd (cc e)
length-first_half (x ∷ xs) e =
    let n = length (x ∷ xs) in omega (arith, length-take (n / 2) (x ∷ xs))

rune_boundary-le : (half : ℕ) (value : Bytes) → rune_boundary half value ≤ half
unfolding rune_boundary
rune_boundary-le zero value = omega arith
rune_boundary-le (suc half) value =
    of_both (λ n. n ≤ suc half) (is_rune_start (byte_at (suc half) value)) (suc half)
      (rune_boundary half value) (omega arith) (omega (arith, rune_boundary-le half value))

pub length-halve_runes :
    (value : Bytes) → is_empty value ≡ false → length (halve_runes value) < length value
unfolding halve_runes
length-halve_runes [] e = absurd (cc e)
length-halve_runes (c ∷ s) e =
    let n = length (c ∷ s) in
    omega
      (arith, length-take (rune_boundary (n / 2) (c ∷ s)) (c ∷ s), rune_boundary-le (n / 2) (c ∷ s))
