-- ===== src/Common/Int.antt =====
-- Signed integers over the native numbers, under the library's names, as far as int64_t is used.
use fma_common.Common.{ℕ, zero, suc, ◌+◌, Bool, true, false, leb}

-- `negsuc n` is -(n + 1).
pub data ℤ : Type 0 where
  pos : ℕ → ℤ
  negsuc : ℕ → ℤ

abbrev pub pos_part : ℤ → ℕ
pos_part (pos n) = n
pos_part (negsuc n) = 0

abbrev pub neg_part : ℤ → ℕ
neg_part (pos n) = 0
neg_part (negsuc n) = suc n

-- `neg ? -d : d` for a number `d`.
abbrev pub with_sign : Bool → ℕ → ℤ
with_sign true zero = pos 0
with_sign true (suc n) = negsuc n
with_sign false n = pos n

abbrev pub leb_ℤ : ℤ → ℤ → Bool
leb_ℤ a b = leb (pos_part a + neg_part b) (pos_part b + neg_part a)

abbrev pub ltb_ℤ : ℤ → ℤ → Bool
ltb_ℤ a b = leb (suc (pos_part a + neg_part b)) (pos_part b + neg_part a)

abbrev pub magnitude : ℤ → ℕ
magnitude a = pos_part a + neg_part a
