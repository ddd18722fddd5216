-- ===== src/Encrypt/Md5/Pieces.antt =====
-- What a context of `MD5` (fma-common/encrypt.h) depends on: the bytes that it was given, in however
-- many pieces.
use fma_common.Common.{
  ℕ, ◌+◌, ◌*◌, ◌/◌, ◌%◌, ◌^◌, ◌<◌, ◌≡◌, sym, ◌∙◌, ap, [], ◌∷◌, ◌++◌, arith, Bytes, length,
  length-append, append-nil,
}
use fma_common.Encrypt.Md5.{
  Md5Context, md5_blocks, md5_update, count_bits, md5_final, md5_init, md5_encrypt,
}
use fma_common.Encrypt.Md5.Chunks.{Feeder, feeder, feed_all, feed_all-append, blocks-feed, of_pair}

-- The counters hold words.
pub record IsCounting (ctx : Md5Context) : Type 0 where
  pub low : ctx.bits0 < 2 ^ 32
  pub high : ctx.bits1 < 2 ^ 32

abbrev pub bit_count : Md5Context → ℕ
bit_count ctx = ctx.bits0 + 2 ^ 32 * ctx.bits1

-- The context as the machine that takes one byte at a time.
abbrev pub view : Md5Context → Feeder
view ctx = feeder ctx.buf ctx.input (ctx.bits0 / 2 ^ 3 % 64)

count_bits_lem :
    (ctx : Md5Context) (n : ℕ)
    → IsCounting ctx
    → n < 2 ^ 32
    → bit_count (count_bits ctx n) ≡ (bit_count ctx + 8 * n) % 2 ^ 64
unfolding count_bits
count_bits_lem ctx n h small = ground (arith, h.low, h.high)

count_bits-IsCounting : (ctx : Md5Context) (n : ℕ) → IsCounting (count_bits ctx n)
unfolding count_bits
count_bits-IsCounting ctx n = record { low = omega arith; high = omega arith }

count_bits-at :
    (ctx : Md5Context) (n : ℕ)
    → (count_bits ctx n).bits0 / 2 ^ 3 % 64 ≡ (ctx.bits0 / 2 ^ 3 % 64 + n) % 64
unfolding count_bits
count_bits-at ctx n = omega arith

-- `MD5Update` is the machine that takes the bytes one at a time and transforms each full block, and
-- the bits are counted modulo 2 ^ 64, for a text shorter than 2 ^ 32.
pub md5_update_lem :
    (ctx : Md5Context) (xs : Bytes)
    → IsCounting ctx
    → length xs < 2 ^ 32
    → (view (md5_update ctx xs) ≡ feed_all (view ctx) xs)
      × (bit_count (md5_update ctx xs) ≡ (bit_count ctx + 8 * length xs) % 2 ^ 64)
unfolding md5_update
md5_update_lem ctx xs h small = (
  ap (of_pair (md5_blocks (ctx.bits0 / 2 ^ 3 % 64) ctx.buf ctx.input xs))
        (count_bits-at ctx (length xs))
      ∙ sym (blocks-feed (ctx.bits0 / 2 ^ 3 % 64) ctx.buf ctx.input xs (omega arith)),
  count_bits_lem ctx (length xs) h small,
)

md5_update-IsCounting : (ctx : Md5Context) (xs : Bytes) → IsCounting (md5_update ctx xs)
unfolding md5_update
md5_update-IsCounting ctx xs = record { low = omega arith; high = omega arith }

same_context :
    (c d : Md5Context)
    → IsCounting c
    → IsCounting d
    → view c ≡ view d
    → bit_count c ≡ bit_count d
    → c ≡ d
same_context c d hc hd v n =
    let b : c.buf ≡ d.buf = ap (λ (m : Feeder). m.state) v in
    let i : c.input ≡ d.input = ap (λ (m : Feeder). m.block) v in
    let l : c.bits0 ≡ d.bits0 = omega (arith, hc.low, hc.high, hd.low, hd.high) in
    let h : c.bits1 ≡ d.bits1 = omega (arith, hc.low, hc.high, hd.low, hd.high) in cc

-- Two texts given one after the other leave the context that their concatenation does, counters and
-- block included, if it is shorter than 2 ^ 32.
pub md5_update-append :
    (ctx : Md5Context) (xs ys : Bytes)
    → IsCounting ctx
    → length xs + length ys < 2 ^ 32
    → md5_update (md5_update ctx xs) ys ≡ md5_update ctx (xs ++ ys)
md5_update-append ctx xs ys h small =
    let size = length-append xs ys in
    let (v₁, n₁) = md5_update_lem ctx xs h (omega arith) in
    let mid = md5_update ctx xs in
    let (v₂, n₂) = md5_update_lem mid ys (md5_update-IsCounting ctx xs) (omega arith) in
    let (v₃, n₃) = md5_update_lem ctx (xs ++ ys) h (omega (arith, size)) in
    same_context _ _ (md5_update-IsCounting mid ys) (md5_update-IsCounting ctx (xs ++ ys))
      (v₂ ∙ ap (λ (m : Feeder). feed_all m ys) v₁ ∙ sym (feed_all-append (view ctx) xs ys) ∙ sym v₃)
      (omega (arith, n₁, n₂, n₃, size))

-- A salted digest is the digest of the text with the salt behind it, if both together are shorter
-- than 2 ^ 32.
pub md5_encrypt_salt :
    (block str salt : Bytes)
    → length str + length salt < 2 ^ 32
    → md5_encrypt block str salt ≡ md5_encrypt block (str ++ salt) []
unfolding md5_encrypt md5_init
md5_encrypt_salt block str [] h =
    ap (λ (t : Bytes). md5_final (md5_update (md5_init block) t)) (sym (append-nil str))
md5_encrypt_salt block str (s ∷ salt) h = ap md5_final (
    md5_update-append (md5_init block) str (s ∷ salt)
      (record { low = omega arith; high = omega arith }) h)
