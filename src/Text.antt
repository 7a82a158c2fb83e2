-- ===== src/Text.antt =====
-- The functions of Go's `strings` that the program uses, over byte lists.
use croton_mcp.Base.{
  ℕ, ◌+◌, ◌/◌, ◌%◌, ◌-◌, Bool, true, false, ◌&&◌, ◌||◌, Option, none, some, List, [], ◌∷◌, ◌++◌,
  ◌≡◌, refl, arith, zero, suc, ◌==◌, ltb, leb, if◌then◌else◌, Bytes,
}

-- `==` on strings.
unfoldable pub equal : Bytes → Bytes → Bool
equal [] [] = true
equal (x ∷ xs) (y ∷ ys) = x == y && equal xs ys
equal _ _ = false

abbrev pub is_empty : Bytes → Bool
is_empty [] = true
is_empty (x ∷ xs) = false

-- `strings.IndexByte(s, c) >= 0`.
unfoldable pub contains : ℕ → Bytes → Bool
contains c [] = false
contains c (x ∷ xs) = x == c || contains c xs

-- `strings.Cut` at a separator of one byte: what stands before it, what stands behind it, found.
unfoldable pub cut : ℕ → Bytes → Bytes × Bytes × Bool
cut c [] = ([], [], false)
cut c (x ∷ xs) =
    let rest = cut c xs in if x == c then ([], xs, true) else (x ∷ rest.0, rest.1, rest.2)

-- `strings.Split` at a separator of one byte.
unfoldable pub split : ℕ → Bytes → List Bytes
split c [] = [] ∷ []
split c (x ∷ xs) =
    let rest = split c xs in
    if x == c then [] ∷ rest else (elim rest [ [] ↦ (x ∷ []) ∷ [] | w ∷ ws ↦ (x ∷ w) ∷ ws ])

-- `strings.CutPrefix`; `none` is the false result.
unfoldable pub cut_prefix : Bytes → Bytes → Option Bytes
cut_prefix [] s = some s
cut_prefix (p ∷ ps) [] = none
cut_prefix (p ∷ ps) (x ∷ xs) = let rest = cut_prefix ps xs in if x == p then rest else none

-- `strings.CutSuffix` at a suffix of one byte.
unfoldable pub cut_last : ℕ → Bytes → Option Bytes
cut_last c [] = none
cut_last c (x ∷ []) = if x == c then some [] else none
cut_last c (x ∷ y ∷ ys) = elim (cut_last c (y ∷ ys)) [ none ↦ none | some s ↦ some (x ∷ s) ]

abbrev pub upper : ℕ → ℕ
upper c = if leb b'a' c && leb c b'z' then c - 32 else c

-- The two runes outside ASCII whose upper case is ASCII: U+0131, "i" without its dot, and U+017F, long "s".
abbrev upper_rune : ℕ → ℕ → Option ℕ
upper_rune c d =
    if c == 0xc4 && d == 0xb1 then some b'I' else if c == 0xc5 && d == 0xbf then some b'S' else none

-- `strings.ToUpper`, exact where the result is ASCII: every other rune keeps a byte above 0x7f in
-- the result here as there, so a comparison with an ASCII keyword has the same answer.
unfoldable pub to_upper : Bytes → Bytes
to_upper [] = []
to_upper (c ∷ []) = upper c ∷ []
to_upper (c ∷ d ∷ s) = elim (upper_rune c d) [
  | none ↦ upper c ∷ to_upper (d ∷ s)
  | some u ↦ u ∷ to_upper s
]

abbrev long_s : ℕ → ℕ → Option ℕ
long_s c d = if c == 0xc5 && d == 0xbf then some b'S' else none

abbrev kelvin : ℕ → ℕ → ℕ → Option ℕ
kelvin c d e = if c == 0xe2 && d == 0x84 && e == 0xaa then some b'K' else none

-- The simple folding of Go, as far as it reaches ASCII: the letters, U+017F and U+212A.
unfoldable pub fold : Bytes → Bytes
fold [] = []
fold (c ∷ []) = upper c ∷ []
fold (c ∷ d ∷ []) = elim (long_s c d) [ none ↦ upper c ∷ upper d ∷ [] | some u ↦ u ∷ [] ]
fold (c ∷ d ∷ e ∷ s) = elim (long_s c d) [
  | some u ↦ u ∷ fold (e ∷ s)
  | none ↦ elim (kelvin c d e) [ some u ↦ u ∷ fold s | none ↦ upper c ∷ fold (d ∷ e ∷ s) ]
]

-- `strings.EqualFold`, exact where the second text is ASCII: all other runes keep a byte above 0x7f.
unfoldable pub equal_fold : Bytes → Bytes → Bool
unfolding equal fold
equal_fold s keyword = equal (fold s) (fold keyword)

-- `utf8.ValidString`: the continuation bytes that are due, and the range of the next one.
unfoldable pub valid_from : ℕ → ℕ → ℕ → Bytes → Bool
valid_from zero lo hi [] = true
valid_from (suc due) lo hi [] = false
valid_from (suc due) lo hi (c ∷ s) =
    let rest = valid_from due 0x80 0xbf s in if leb lo c && leb c hi then rest else false
valid_from zero lo hi (c ∷ s) =
    let due : ℕ =
      if leb c 0x7f
      then 0
      else if leb 0xc2 c && leb c 0xdf
      then 1
      else if leb 0xe0 c && leb c 0xef
      then 2
      else 3 in
    let from : ℕ = if c == 0xe0 then 0xa0 else if c == 0xf0 then 0x90 else 0x80 in
    let to : ℕ = if c == 0xed then 0x9f else if c == 0xf4 then 0x8f else 0xbf in
    let rest = valid_from due from to s in
    if leb c 0x7f || (leb 0xc2 c && leb c 0xf4) then rest else false

unfoldable pub valid_utf8 : Bytes → Bool
unfolding valid_from
valid_utf8 = valid_from 0 0x80 0xbf

-- `strings.HasPrefix`.
unfoldable pub has_prefix : Bytes → Bytes → Bool
has_prefix [] s = true
has_prefix (p ∷ ps) [] = false
has_prefix (p ∷ ps) (x ∷ xs) = x == p && has_prefix ps xs

-- `strconv.FormatUint(n, 10)`, on fuel: a number has no more digits than its value and one more.
unfoldable pub format_from : ℕ → ℕ → Bytes → Bytes
format_from zero n s = s
format_from (suc fuel) n s =
    let digits = (b'0' + n % 10) ∷ s in
    let rest = format_from fuel (n / 10) digits in if ltb n 10 then digits else rest

unfoldable pub format_uint : ℕ → Bytes
unfolding format_from
format_uint n = format_from (suc n) n []

-- `<` on strings.
unfoldable pub less : Bytes → Bytes → Bool
less s [] = false
less [] (d ∷ t) = true
less (c ∷ s) (d ∷ t) = let rest = less s t in if c == d then rest else ltb c d

pub equal-eq : (s t : Bytes) → equal s t ≡ true → s ≡ t
unfolding equal
equal-eq [] [] h = refl
equal-eq [] (y ∷ t) h = cc
equal-eq (x ∷ s) [] h = cc
equal-eq (x ∷ s) (y ∷ t) h = ground (arith, equal-eq s t)

pub equal_self : (s : Bytes) → equal s s ≡ true
unfolding equal
equal_self [] = refl
equal_self (x ∷ s) = ground (arith, equal_self s)

pub contains-append : (c : ℕ) (s t : Bytes) → contains c (s ++ t) ≡ (contains c s || contains c t)
unfolding contains
contains-append c [] t = refl
contains-append c (x ∷ s) t = ground (arith, contains-append c s t)

pub is_empty-eq : (s : Bytes) → is_empty s ≡ true → s ≡ []
is_empty-eq [] e = refl
is_empty-eq (c ∷ s) e = absurd (cc e)
