-- ===== src/Encrypt/Base64/Groups.antt =====
-- One group of fma-common/encrypt.h, `Base64`: three bytes as four letters, and back.
use fma_common.Common.{
  ℕ, ◌+◌, ◌*◌, ◌/◌, ◌%◌, ◌^◌, ◌<◌, bit_and, bit_or, ◌≡◌, refl, ◌≢◌, Bool, true, not, ◌&&◌, some,
  arith, IsByte, ◌==◌, all_below, all_below_sound,
}
use fma_common.Common.Bits.{bit_or-lt}
use fma_common.Encrypt.Base64.{letter, value, decode_group}

-- The two tables undo one another on six-bit values, and no letter is '='.
sextet : ℕ → Bool
sextet i = value (letter i) == i && not (letter i == b'=')

sextet_table : all_below 64 sextet ≡ true
unfolding all_below sextet letter value
sextet_table = refl

pub value-letter : (i : ℕ) → i < 64 → value (letter i) ≡ i
unfolding sextet
value-letter i h = ground (arith, all_below_sound 64 sextet i sextet_table h)

pub letter-ne-pad : (i : ℕ) → i < 64 → letter i ≢ b'='
unfolding sextet
letter-ne-pad i h = ground (arith, all_below_sound 64 sextet i sextet_table h)

pub value_pad : value b'=' ≡ 0
unfolding value
value_pad = refl

-- The masks of the code, as quotients and remainders.
masked_byte : ℕ → Bool
masked_byte b =
    bit_and b 0x3 == b % 4
    && bit_and b 0xf0 / 2 ^ 4 == b / 16
    && bit_and b 0x0f == b % 16
    && bit_and b 0x3f == b % 64

masked_byte_table : all_below 256 masked_byte ≡ true
unfolding all_below masked_byte
masked_byte_table = refl

pub byte_masks :
    (b : ℕ)
    → IsByte b
    → (bit_and b 0x3 ≡ b % 4)
      × (bit_and b 0xf0 / 2 ^ 4 ≡ b / 16)
      × (bit_and b 0x0f ≡ b % 16)
      × (bit_and b 0x3f ≡ b % 64)
unfolding masked_byte
byte_masks b h = ground (arith, all_below_sound 256 masked_byte b masked_byte_table h)

masked_value : ℕ → Bool
masked_value v =
    bit_and v 0x30 / 2 ^ 4 == v / 16
    && bit_and v 0x0f == v % 16
    && bit_and v 0x3c / 2 ^ 2 == v / 4
    && bit_and v 0x03 == v % 4

masked_value_table : all_below 64 masked_value ≡ true
unfolding all_below masked_value
masked_value_table = refl

value_masks :
    (v : ℕ)
    → v < 64
    → (bit_and v 0x30 / 2 ^ 4 ≡ v / 16)
      × (bit_and v 0x0f ≡ v % 16)
      × (bit_and v 0x3c / 2 ^ 2 ≡ v / 4)
      × (bit_and v 0x03 ≡ v % 4)
unfolding masked_value
value_masks v h = ground (arith, all_below_sound 64 masked_value v masked_value_table h)

-- Four six-bit values are taken for letters, and give three bytes.
pub decode_group_lem :
    (s0 s1 s2 s3 : ℕ)
    → s0 < 64
    → s1 < 64
    → s2 < 64
    → s3 < 64
    → decode_group s0 s1 s2 s3 ≡ some (s0 * 4 + s1 / 16, s1 % 16 * 16 + s2 / 4, s2 % 4 * 64 + s3)
unfolding decode_group
decode_group_lem s0 s1 s2 s3 h0 h1 h2 h3 = ground (
  arith,
  bit_or-lt 6 s0 s1 h0 h1,
  bit_or-lt 6 (bit_or s0 s1) s2 (bit_or-lt 6 s0 s1 h0 h1) h2,
  bit_or-lt 6 (bit_or (bit_or s0 s1) s2) s3
      (bit_or-lt 6 (bit_or s0 s1) s2 (bit_or-lt 6 s0 s1 h0 h1) h2) h3,
  value_masks s1 h1,
  value_masks s2 h2,
)

-- The group of the bytes `a`, `b`, `c` is read back.
pub decode_group-bytes :
    (a b c : ℕ)
    → IsByte a
    → IsByte b
    → IsByte c
    → decode_group (a / 4) (a % 4 * 16 + b / 16) (b % 16 * 4 + c / 64) (c % 64) ≡ some (a, b, c)
decode_group-bytes a b c ha hb hc =
    rw
      (decode_group_lem (a / 4) (a % 4 * 16 + b / 16) (b % 16 * 4 + c / 64) (c % 64) (omega arith)
        (omega arith) (omega arith) (omega arith))
      (ground arith)
