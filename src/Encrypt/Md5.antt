-- ===== src/Encrypt/Md5.antt =====
-- fma-common/encrypt.h, class `MD5`, on a little-endian machine (where `byteReverse` is nothing): a
-- uint32_t is a number below 2 ^ 32, `ctx->in` a list of 64 bytes.
pub mod Chunks
pub mod Pieces
mod Tests
use fma_common.Common.{
  ℕ, zero, suc, ◌+◌, ◌-◌, ◌*◌, ◌/◌, ◌%◌, ◌^◌, bit_and, bit_or, bit_xor, List, [], ◌∷◌, ◌++◌, Bytes,
  ltb, ◌==◌, if◌then◌else◌, length, get_or, set, take, drop, replicate,
}

-- `MD5Context::buf`
pub record Digest : Type 0 where
  pub a : ℕ
  pub b : ℕ
  pub c : ℕ
  pub d : ℕ

pub record Md5Context : Type 0 where
  pub buf : Digest
  pub bits0 : ℕ
  pub bits1 : ℕ
  pub input : Bytes

abbrev word : ℕ
word = 2 ^ 32

abbrev complement : ℕ → ℕ
complement z = word - 1 - z

md5_f1 : ℕ → ℕ → ℕ → ℕ
md5_f1 x y z = bit_xor z (bit_and x (bit_xor y z))

md5_f2 : ℕ → ℕ → ℕ → ℕ
unfolding md5_f1
md5_f2 x y z = md5_f1 z x y

md5_f3 : ℕ → ℕ → ℕ → ℕ
md5_f3 x y z = bit_xor (bit_xor x y) z

md5_f4 : ℕ → ℕ → ℕ → ℕ
md5_f4 x y z = bit_xor y (bit_or x (complement z))

rotate : ℕ → ℕ → ℕ
rotate w s = bit_or (w * 2 ^ s % word) (w / 2 ^ (32 - s))

-- `MD5STEP(f, a, b, c, d, in[k] + constant, s)`. The next step in the source has the registers one
-- place on, so the result does too.
md5_step : (ℕ → ℕ → ℕ → ℕ) → List ℕ → ℕ × ℕ × ℕ → Digest → Digest
unfolding rotate
md5_step f words (k, constant, s) r =
    let w = (r.a + (f r.b r.c r.d + (get_or words k 0 + constant))) % word in
    record { a = r.d; b = (rotate w s + r.b) % word; c = r.b; d = r.c }

md5_steps : (ℕ → ℕ → ℕ → ℕ) → List ℕ → List (ℕ × ℕ × ℕ) → Digest → Digest
md5_steps f words [] r = r
md5_steps f words (row ∷ rows) r = md5_steps f words rows (md5_step f words row r)

-- The steps of the four rounds: the index of the word, the constant and the shift.
round1 : List (ℕ × ℕ × ℕ)
round1 =
    (0, 0xd76aa478, 7)
    ∷ (1, 0xe8c7b756, 12)
    ∷ (2, 0x242070db, 17)
    ∷ (3, 0xc1bdceee, 22)
    ∷ (4, 0xf57c0faf, 7)
    ∷ (5, 0x4787c62a, 12)
    ∷ (6, 0xa8304613, 17)
    ∷ (7, 0xfd469501, 22)
    ∷ (8, 0x698098d8, 7)
    ∷ (9, 0x8b44f7af, 12)
    ∷ (10, 0xffff5bb1, 17)
    ∷ (11, 0x895cd7be, 22)
    ∷ (12, 0x6b901122, 7)
    ∷ (13, 0xfd987193, 12)
    ∷ (14, 0xa679438e, 17)
    ∷ (15, 0x49b40821, 22)
    ∷ []

round2 : List (ℕ × ℕ × ℕ)
round2 =
    (1, 0xf61e2562, 5)
    ∷ (6, 0xc040b340, 9)
    ∷ (11, 0x265e5a51, 14)
    ∷ (0, 0xe9b6c7aa, 20)
    ∷ (5, 0xd62f105d, 5)
    ∷ (10, 0x02441453, 9)
    ∷ (15, 0xd8a1e681, 14)
    ∷ (4, 0xe7d3fbc8, 20)
    ∷ (9, 0x21e1cde6, 5)
    ∷ (14, 0xc33707d6, 9)
    ∷ (3, 0xf4d50d87, 14)
    ∷ (8, 0x455a14ed, 20)
    ∷ (13, 0xa9e3e905, 5)
    ∷ (2, 0xfcefa3f8, 9)
    ∷ (7, 0x676f02d9, 14)
    ∷ (12, 0x8d2a4c8a, 20)
    ∷ []

round3 : List (ℕ × ℕ × ℕ)
round3 =
    (5, 0xfffa3942, 4)
    ∷ (8, 0x8771f681, 11)
    ∷ (11, 0x6d9d6122, 16)
    ∷ (14, 0xfde5380c, 23)
    ∷ (1, 0xa4beea44, 4)
    ∷ (4, 0x4bdecfa9, 11)
    ∷ (7, 0xf6bb4b60, 16)
    ∷ (10, 0xbebfbc70, 23)
    ∷ (13, 0x289b7ec6, 4)
    ∷ (0, 0xeaa127fa, 11)
    ∷ (3, 0xd4ef3085, 16)
    ∷ (6, 0x04881d05, 23)
    ∷ (9, 0xd9d4d039, 4)
    ∷ (12, 0xe6db99e5, 11)
    ∷ (15, 0x1fa27cf8, 16)
    ∷ (2, 0xc4ac5665, 23)
    ∷ []

round4 : List (ℕ × ℕ × ℕ)
round4 =
    (0, 0xf4292244, 6)
    ∷ (7, 0x432aff97, 10)
    ∷ (14, 0xab9423a7, 15)
    ∷ (5, 0xfc93a039, 21)
    ∷ (12, 0x655b59c3, 6)
    ∷ (3, 0x8f0ccc92, 10)
    ∷ (10, 0xffeff47d, 15)
    ∷ (1, 0x85845dd1, 21)
    ∷ (8, 0x6fa87e4f, 6)
    ∷ (15, 0xfe2ce6e0, 10)
    ∷ (6, 0xa3014314, 15)
    ∷ (13, 0x4e0811a1, 21)
    ∷ (4, 0xf7537e82, 6)
    ∷ (11, 0xbd3af235, 10)
    ∷ (2, 0x2ad7d2bb, 15)
    ∷ (9, 0xeb86d391, 21)
    ∷ []

-- The block as words: `(uint32_t*)ctx->in`.
block_words : Bytes → List ℕ
block_words (p ∷ q ∷ r ∷ s ∷ rest) = (p + 2 ^ 8 * q + 2 ^ 16 * r + 2 ^ 24 * s) ∷ block_words rest
block_words rest = []

pub md5_transform : Digest → Bytes → Digest
unfolding md5_step md5_steps md5_f1 md5_f2 md5_f3 md5_f4 round1 round2 round3 round4 block_words
md5_transform buf block =
    let words = block_words block in
    let r = md5_steps md5_f4 words round4 (
      md5_steps md5_f3 words round3
        (md5_steps md5_f2 words round2 (md5_steps md5_f1 words round1 buf))) in
    record {
      a = (buf.a + r.a) % word;
      b = (buf.b + r.b) % word;
      c = (buf.c + r.c) % word;
      d = (buf.d + r.d) % word;
    }

-- `ctx->in` has no value before the first copy: `block` is what the memory held.
pub md5_init : Bytes → Md5Context
md5_init block = record {
  buf = record { a = 0x67452301; b = 0xefcdab89; c = 0x98badcfe; d = 0x10325476 };
  bits0 = 0;
  bits1 = 0;
  input = block;
}

-- Bytes copied one after the other to `block` from the offset `at` on.
pub memcpy : Bytes → ℕ → Bytes → Bytes
memcpy block at [] = block
memcpy block at (x ∷ xs) = memcpy (set block at x) (suc at) xs

-- The two counters after `len` bytes more.
pub count_bits : Md5Context → ℕ → Md5Context
count_bits ctx len =
    let low = (ctx.bits0 + len * 2 ^ 3 % word) % word in
    record ctx {
      bits0 = low;
      bits1 = ((if ltb low ctx.bits0 then ctx.bits1 + 1 else ctx.bits1) + len / 2 ^ 29) % word;
    }

-- The loop over `n` whole chunks, and the copy of the bytes that remain.
pub md5_chunks : ℕ → Digest → Bytes → Bytes → Digest × Bytes
md5_chunks zero buf block bytes = (buf, memcpy block 0 bytes)
md5_chunks (suc n) buf block bytes =
    let filled = memcpy block 0 (take 64 bytes) in
    md5_chunks n (md5_transform buf filled) filled (drop 64 bytes)

-- What `MD5Update` does with a block that holds `t` bytes.
pub md5_blocks : ℕ → Digest → Bytes → Bytes → Digest × Bytes
md5_blocks t buf block bytes =
    let filled = memcpy block t (take (64 - t) bytes) in
    let rest = drop (64 - t) bytes in
    if t == 0
    then md5_chunks (length bytes / 64) buf block bytes
    else if ltb (length bytes) (64 - t)
    then (buf, memcpy block t bytes)
    else md5_chunks (length rest / 64) (md5_transform buf filled) filled rest

-- `len` is the size of the text.
pub md5_update : Md5Context → Bytes → Md5Context
unfolding count_bits
md5_update ctx bytes =
    let after = md5_blocks (ctx.bits0 / 2 ^ 3 % 64) ctx.buf ctx.input bytes in
    let counted = count_bits ctx (length bytes) in record counted { buf = after.0; input = after.1 }

store32 : ℕ → Bytes
store32 w = w % 256 ∷ w / 2 ^ 8 % 256 ∷ w / 2 ^ 16 % 256 ∷ w / 2 ^ 24 % 256 ∷ []

-- The zeros of the padding, in this block or in one more, behind `at` bytes and the 0x80.
pub pad_block : Digest → Bytes → ℕ → Digest × Bytes
pad_block buf block at =
    let count = 64 - 1 - at in
    let marked = set block at 0x80 in
    let full = memcpy marked (at + 1) (replicate count 0) in
    if ltb count 8
    then (md5_transform buf full, memcpy full 0 (replicate 56 0))
    else (buf, memcpy marked (at + 1) (replicate (count - 8) 0))

-- The digest; the context is zeroed afterwards.
pub md5_final : Md5Context → Bytes
unfolding store32 pad_block
md5_final ctx =
    let padded = pad_block ctx.buf ctx.input (ctx.bits0 / 2 ^ 3 % 64) in
    let last = memcpy (memcpy padded.1 56 (store32 ctx.bits0)) 60 (store32 ctx.bits1) in
    let r = md5_transform padded.0 last in
    store32 r.a ++ (store32 r.b ++ (store32 r.c ++ store32 r.d))

-- The static `Encrypt(str, salt)`, with `block` what the memory of the context held.
pub md5_encrypt : Bytes → Bytes → Bytes → Bytes
unfolding md5_update md5_init
md5_encrypt block str [] = md5_final (md5_update (md5_init block) str)
md5_encrypt block str (s ∷ salt) =
    md5_final (md5_update (md5_update (md5_init block) str) (s ∷ salt))
