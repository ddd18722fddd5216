-- ===== src/Encrypt/Base64.antt =====
-- fma-common/encrypt.h, class `Base64`.
pub mod Groups
pub mod Laws
use fma_common.Common.{
  ℕ, suc, ◌+◌, ◌-◌, ◌*◌, ◌/◌, ◌%◌, ◌^◌, bit_and, bit_or, List, [], ◌∷◌, ◌++◌, Option, none, some,
  Bytes, codes, ◌==◌, leb, if◌then◌else◌, ◌>>=◌, length, get_or, take,
}

unfoldable pub letters : Bytes
letters = codes "ABCDEFGHIJKLMNOPQRSTUVWXYZabcdefghijklmnopqrstuvwxyz0123456789+/"

-- `tbl` of `TryDecode`: the value of a letter, 0 for '=', and 128 for every other byte.
unfoldable pub values : List ℕ
values =
    128 ∷ 128 ∷ 128 ∷ 128 ∷ 128 ∷ 128 ∷ 128 ∷ 128 ∷ 128 ∷ 128 ∷ 128 ∷ 128 ∷ 128 ∷ 128 ∷ 128 ∷ 128
    ∷ 128 ∷ 128 ∷ 128 ∷ 128 ∷ 128 ∷ 128 ∷ 128 ∷ 128 ∷ 128 ∷ 128 ∷ 128 ∷ 128 ∷ 128 ∷ 128 ∷ 128 ∷ 128
    ∷ 128 ∷ 128 ∷ 128 ∷ 128 ∷ 128 ∷ 128 ∷ 128 ∷ 128 ∷ 128 ∷ 128 ∷ 128 ∷ 62 ∷ 128 ∷ 128 ∷ 128 ∷ 63
    ∷ 52 ∷ 53 ∷ 54 ∷ 55 ∷ 56 ∷ 57 ∷ 58 ∷ 59 ∷ 60 ∷ 61 ∷ 128 ∷ 128 ∷ 128 ∷ 0 ∷ 128 ∷ 128 ∷ 128 ∷ 0
    ∷ 1 ∷ 2 ∷ 3 ∷ 4 ∷ 5 ∷ 6 ∷ 7 ∷ 8 ∷ 9 ∷ 10 ∷ 11 ∷ 12 ∷ 13 ∷ 14 ∷ 15 ∷ 16 ∷ 17 ∷ 18 ∷ 19 ∷ 20 ∷ 21
    ∷ 22 ∷ 23 ∷ 24 ∷ 25 ∷ 128 ∷ 128 ∷ 128 ∷ 128 ∷ 128 ∷ 128 ∷ 26 ∷ 27 ∷ 28 ∷ 29 ∷ 30 ∷ 31 ∷ 32 ∷ 33
    ∷ 34 ∷ 35 ∷ 36 ∷ 37 ∷ 38 ∷ 39 ∷ 40 ∷ 41 ∷ 42 ∷ 43 ∷ 44 ∷ 45 ∷ 46 ∷ 47 ∷ 48 ∷ 49 ∷ 50 ∷ 51 ∷ 128
    ∷ 128 ∷ 128 ∷ 128 ∷ 128 ∷ 128 ∷ 128 ∷ 128 ∷ 128 ∷ 128 ∷ 128 ∷ 128 ∷ 128 ∷ 128 ∷ 128 ∷ 128 ∷ 128
    ∷ 128 ∷ 128 ∷ 128 ∷ 128 ∷ 128 ∷ 128 ∷ 128 ∷ 128 ∷ 128 ∷ 128 ∷ 128 ∷ 128 ∷ 128 ∷ 128 ∷ 128 ∷ 128
    ∷ 128 ∷ 128 ∷ 128 ∷ 128 ∷ 128 ∷ 128 ∷ 128 ∷ 128 ∷ 128 ∷ 128 ∷ 128 ∷ 128 ∷ 128 ∷ 128 ∷ 128 ∷ 128
    ∷ 128 ∷ 128 ∷ 128 ∷ 128 ∷ 128 ∷ 128 ∷ 128 ∷ 128 ∷ 128 ∷ 128 ∷ 128 ∷ 128 ∷ 128 ∷ 128 ∷ 128 ∷ 128
    ∷ 128 ∷ 128 ∷ 128 ∷ 128 ∷ 128 ∷ 128 ∷ 128 ∷ 128 ∷ 128 ∷ 128 ∷ 128 ∷ 128 ∷ 128 ∷ 128 ∷ 128 ∷ 128
    ∷ 128 ∷ 128 ∷ 128 ∷ 128 ∷ 128 ∷ 128 ∷ 128 ∷ 128 ∷ 128 ∷ 128 ∷ 128 ∷ 128 ∷ 128 ∷ 128 ∷ 128 ∷ 128
    ∷ 128 ∷ 128 ∷ 128 ∷ 128 ∷ 128 ∷ 128 ∷ 128 ∷ 128 ∷ 128 ∷ 128 ∷ 128 ∷ 128 ∷ 128 ∷ 128 ∷ 128 ∷ 128
    ∷ 128 ∷ 128 ∷ 128 ∷ 128 ∷ 128 ∷ 128 ∷ 128 ∷ 128 ∷ 128 ∷ 128 ∷ 128 ∷ 128 ∷ 128 ∷ 128 ∷ 128 ∷ 128
    ∷ 128 ∷ 128 ∷ 128 ∷ 128 ∷ []

unfoldable pub letter : ℕ → ℕ
unfolding letters
letter i = get_or letters i 0

unfoldable pub value : ℕ → ℕ
unfolding values
value c = get_or values c 0

-- `Encode`: the whole groups of three bytes, then one or two left over, the rest of the last
-- group staying '='.
pub encode : Bytes → Bytes
encode (a ∷ b ∷ c ∷ rest) =
    letter (a / 2 ^ 2)
    ∷ letter (bit_and a 0x3 * 2 ^ 4 + bit_and b 0xf0 / 2 ^ 4)
    ∷ letter (bit_and b 0x0f * 2 ^ 2 + c / 2 ^ 6)
    ∷ letter (bit_and c 0x3f)
    ∷ encode rest
encode (a ∷ b ∷ []) =
    letter (a / 2 ^ 2)
    ∷ letter (bit_and a 0x3 * 2 ^ 4 + bit_and b 0xf0 / 2 ^ 4)
    ∷ letter (bit_and b 0x0f * 2 ^ 2)
    ∷ b'='
    ∷ []
encode (a ∷ []) = letter (a / 2 ^ 2) ∷ letter (bit_and a 0x3 * 2 ^ 4) ∷ b'=' ∷ b'=' ∷ []
encode [] = []

-- `npad`, for a text of four bytes or more.
pub padding : Bytes → ℕ
padding p =
    if get_or p (length p - 1) 0 == b'='
    then (if get_or p (length p - 2) 0 == b'=' then 2 else 1)
    else 0

-- The three bytes of one group, as uint8_t values; `none` where a byte is no letter.
pub decode_group : ℕ → ℕ → ℕ → ℕ → Option (ℕ × ℕ × ℕ)
decode_group s0 s1 s2 s3 =
    if leb 128 (bit_or (bit_or (bit_or s0 s1) s2) s3)
    then none
    else some (
      (s0 * 2 ^ 2 + bit_and s1 0x30 / 2 ^ 4) % 256,
      (bit_and s1 0x0f * 2 ^ 4 + bit_and s2 0x3c / 2 ^ 2) % 256,
      (bit_and s2 0x03 * 2 ^ 6 + s3) % 256,
    )

-- The loop of `TryDecode` over its groups of four.
pub decode_groups : Bytes → Option Bytes
decode_groups (a ∷ b ∷ c ∷ d ∷ rest) = do
  (x, y, z) ← decode_group (value a) (value b) (value c) (value d)
  more ← decode_groups rest
  some (x ∷ y ∷ z ∷ more)
decode_groups rest = some []

-- `none` is the result `false`; what the out-parameter holds then is not modelled.
pub try_decode : Bytes → Option Bytes
try_decode [] = some []
try_decode (c ∷ p) =
    if length (c ∷ p) % 4 == 0
    then (do ret ← decode_groups (c ∷ p); some (take (length ret - padding (c ∷ p)) ret))
    else none
