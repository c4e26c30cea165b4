-- ===== src/Prelude/Int.antt =====
-- Signed integers over the native numbers, for the signed counts (ByteCount, LineCount) of the
-- source. The two parts of an integer are numbers that the arithmetic tactics read.
use kakoune.Prelude.{ℕ, suc, ◌+◌, ◌-◌, ◌≡◌, leb, if◌then◌else◌, arith}

-- `negsuc n` is -(n + 1).
pub data ℤ : Type 0 where
  pos : ℕ → ℤ
  negsuc : ℕ → ℤ

abbrev pub pos_part : ℤ → ℕ
pos_part (pos n) = n
pos_part (negsuc n) = 0

abbrev pub neg_part : ℤ → ℕ
neg_part (pos n) = 0
neg_part (negsuc n) = suc n

-- a - b, as an integer.
abbrev pub sub_ℕ : ℕ → ℕ → ℤ
sub_ℕ a b = if leb b a then pos (a - b) else negsuc (b - a - 1)

pub sub_ℕ_of_add : (a b : ℕ) → sub_ℕ (a + b) a ≡ pos b
sub_ℕ_of_add a b = ground arith
