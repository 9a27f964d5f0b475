-- ===== src/Prelude/Int.antt =====
-- Signed distances over the native numbers, under the library's names, and C++'s `%` on them.
use Prim.Native.Nat.{ℕ, suc, ◌+◌, ◌-◌, ◌%◌}
use lseb.Prelude.Tests.{leb, if◌then◌else◌}

-- `negsuc n` is -(n + 1).
pub data ℤ : Type 0 where
  pos : ℕ → ℤ
  negsuc : ℕ → ℤ

abbrev pub pos_part : ℤ → ℕ
pos_part (pos n) = n
pos_part (negsuc n) = 0

abbrev pub neg_part : ℤ → ℕ
neg_part (pos n) = 0
neg_part (negsuc n) = suc n

-- a - b, as an integer.
abbrev pub sub_ℕ : ℕ → ℕ → ℤ
sub_ℕ a b = if leb b a then pos (a - b) else negsuc (b - a - 1)

infixl 65 ◌+ℤ◌
abbrev pub ◌+ℤ◌ : ℤ → ℤ → ℤ
a +ℤ b = sub_ℕ (pos_part a + pos_part b) (neg_part a + neg_part b)

-- The remainder has the sign of the dividend.
abbrev pub rem : ℤ → ℕ → ℤ
rem (pos n) m = pos (n % m)
rem (negsuc n) m = sub_ℕ 0 (suc n % m)
