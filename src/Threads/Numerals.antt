-- ===== src/Threads/Numerals.antt =====
-- Suffixes of different numbers are different.
use croton_mcp.Base.{
  ℕ, zero, suc, ◌+◌, ◌*◌, ◌-◌, ◌/◌, ◌%◌, ◌≤◌, ◌<◌, true, some, [], ◌∷◌, ltb, Bytes, ◌≡◌, refl, sym,
  ap, ◌∙◌, arith, of_branches,
}
use croton_mcp.Quarantine.Lexical.{decimal, is_digit}
use croton_mcp.Text.{format_from, format_uint}

decimal-digit :
    (m n : ℕ) (s : Bytes) → m * 10 + n % 10 ≡ n → decimal m ((b'0' + n % 10) ∷ s) ≡ decimal n s
unfolding decimal
decimal-digit m n s e =
    let low : n % 10 < 10 = omega arith in
    let digit : is_digit (b'0' + n % 10) ≡ true = ground (arith, low) in
    let value : m * 10 + ((b'0' + n % 10) - b'0') ≡ n = omega (arith, e) in
    rw digit (ap (λ k. decimal k s) value)

decimal-format_from :
    (fuel n : ℕ) (s : Bytes) → n < fuel → decimal 0 (format_from fuel n s) ≡ decimal n s
unfolding format_from
decimal-format_from zero n s l = absurd (omega (arith, l))
decimal-format_from (suc fuel) n s l =
    of_branches (λ t. decimal 0 t ≡ decimal n s) (ltb n 10) ((b'0' + n % 10) ∷ s)
      (format_from fuel (n / 10) ((b'0' + n % 10) ∷ s))
      (λ e. let small : n < 10 = ground (arith, e) in decimal-digit 0 n s (omega (arith, small)))
      (λ e.
        let large : 10 ≤ n = ground (arith, e) in
        decimal-format_from fuel (n / 10) ((b'0' + n % 10) ∷ s) (omega (arith, large, l))
        ∙ decimal-digit (n / 10) n s (omega arith))

decimal-nil : (n : ℕ) → decimal n [] ≡ some n
unfolding decimal
decimal-nil n = refl

decimal-format_uint : (n : ℕ) → decimal 0 (format_uint n) ≡ some n
unfolding format_uint
decimal-format_uint n = decimal-format_from (suc n) n [] (omega arith) ∙ decimal-nil n

some-injective : {x y : ℕ} → some x ≡ some y → x ≡ y
some-injective e = cc e

pub format_uint-injective : (m n : ℕ) → format_uint m ≡ format_uint n → m ≡ n
format_uint-injective m n e =
    some-injective (sym (decimal-format_uint m) ∙ ap (decimal 0) e ∙ decimal-format_uint n)
