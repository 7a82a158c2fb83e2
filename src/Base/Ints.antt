-- ===== src/Base/Ints.antt =====
-- The integers, over the native numbers.
use croton_mcp.Base.Tests.{leb, if◌then◌else◌}
use Prim.Native.Nat.{ℕ, suc, ◌+◌, ◌-◌}
use mathlib.Core.Bool.{Bool, true, false}

pub data ℤ : Type 0 where
  pos : ℕ → ℤ
  negsuc : ℕ → ℤ

abbrev pub is_negative : ℤ → Bool
is_negative (pos n) = false
is_negative (negsuc n) = true

-- The value of an integer that is not negative.
abbrev pub abs : ℤ → ℕ
abs (pos n) = n
abs (negsuc n) = suc n

-- An integer less a natural number.
abbrev pub minus : ℤ → ℕ → ℤ
minus (pos a) n = if leb n a then pos (a - n) else negsuc (n - a - 1)
minus (negsuc a) n = negsuc (a + n)
