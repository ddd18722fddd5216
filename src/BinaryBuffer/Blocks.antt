-- ===== src/BinaryBuffer/Blocks.antt =====
-- Bytes at an offset of a memory block, for the copies of fma-common/binary_buffer.h.
use fma_common.Common.{
  ℕ, zero, suc, ◌+◌, ◌≤◌, ◌≡◌, refl, ap, ap₂, [], ◌∷◌, ◌++◌, arith, Bytes, length, take, drop,
  take-append,
}
use fma_common.BinaryBuffer.{copy_to}

pub take_prefix : (xs ys : Bytes) (n : ℕ) → n ≡ length xs → take n (xs ++ ys) ≡ xs
take_prefix xs ys n e = rw e (take-append xs ys)

pub drop_prefix : (xs ys : Bytes) (n k : ℕ) → n ≡ length xs + k → drop n (xs ++ ys) ≡ drop k ys
drop_prefix [] ys n k e = rw e (ap (λ (m : ℕ). drop m ys) (omega arith))
drop_prefix (x ∷ xs) ys zero k e = absurd (omega arith)
drop_prefix (x ∷ xs) ys (suc n) k e = drop_prefix xs ys n k (omega arith)

pub take_all : (n : ℕ) (xs : Bytes) → length xs ≤ n → take n xs ≡ xs
take_all zero [] h = refl
take_all zero (x ∷ xs) h = absurd (omega arith)
take_all (suc n) [] h = refl
take_all (suc n) (x ∷ xs) h = ap (◌∷◌ x) (take_all n xs (omega arith))

pub take_inside : (n : ℕ) (xs ys : Bytes) → n ≤ length xs → take n (xs ++ ys) ≡ take n xs
take_inside zero xs ys h = refl
take_inside (suc n) [] ys h = absurd (omega arith)
take_inside (suc n) (x ∷ xs) ys h = ap (◌∷◌ x) (take_inside n xs ys (omega arith))

-- Bytes written behind a prefix replace what follows it.
pub copy_to_prefix :
    (xs ys bytes : Bytes) (at : ℕ)
    → at ≡ length xs
    → copy_to (xs ++ ys) at bytes ≡ xs ++ (bytes ++ drop (length bytes) ys)
unfolding copy_to
copy_to_prefix xs ys bytes at e =
    ap₂ ◌++◌ (take_prefix xs ys at e)
      (ap (◌++◌ bytes) (drop_prefix xs ys (at + length bytes) (length bytes) (rw e)))
