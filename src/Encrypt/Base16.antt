-- ===== src/Encrypt/Base16.antt =====
-- fma-common/encrypt.h, class `Base16`: two hexadecimal digits for each byte.
pub mod Laws
use fma_common.Common.{
  ℕ, suc, ◌+◌, ◌*◌, ◌/◌, ◌%◌, bit_and, List, [], ◌∷◌, ◌||◌, Bytes, codes, ◌==◌, if◌then◌else◌,
  length, get_or, ◌^◌, ◌++◌,
}

-- The two `std::runtime_error`s of `Decode`, and its result.
pub data Decoded : Type 0 where
  ok : Bytes → Decoded
  odd_size : Decoded
  illegal_chars : Decoded

unfoldable pub digits : Bytes
digits = codes "0123456789ABCDEF"

-- `tbl` of `Decode`: the value of a digit, 255 for every other byte.
unfoldable pub values : List ℕ
values =
    255 ∷ 255 ∷ 255 ∷ 255 ∷ 255 ∷ 255 ∷ 255 ∷ 255 ∷ 255 ∷ 255 ∷ 255 ∷ 255 ∷ 255 ∷ 255 ∷ 255 ∷ 255
    ∷ 255 ∷ 255 ∷ 255 ∷ 255 ∷ 255 ∷ 255 ∷ 255 ∷ 255 ∷ 255 ∷ 255 ∷ 255 ∷ 255 ∷ 255 ∷ 255 ∷ 255 ∷ 255
    ∷ 255 ∷ 255 ∷ 255 ∷ 255 ∷ 255 ∷ 255 ∷ 255 ∷ 255 ∷ 255 ∷ 255 ∷ 255 ∷ 255 ∷ 255 ∷ 255 ∷ 255 ∷ 255
    ∷ 0 ∷ 1 ∷ 2 ∷ 3 ∷ 4 ∷ 5 ∷ 6 ∷ 7 ∷ 8 ∷ 9 ∷ 255 ∷ 255 ∷ 255 ∷ 255 ∷ 255 ∷ 255 ∷ 255 ∷ 10 ∷ 11 ∷ 12
    ∷ 13 ∷ 14 ∷ 15 ∷ 255 ∷ 255 ∷ 255 ∷ 255 ∷ 255 ∷ 255 ∷ 255 ∷ 255 ∷ 255 ∷ 255 ∷ 255 ∷ 255 ∷ 255
    ∷ 255 ∷ 255 ∷ 255 ∷ 255 ∷ 255 ∷ 255 ∷ 255 ∷ 255 ∷ 255 ∷ 255 ∷ 255 ∷ 255 ∷ 255 ∷ 10 ∷ 11 ∷ 12
    ∷ 13 ∷ 14 ∷ 15 ∷ 255 ∷ 255 ∷ 255 ∷ 255 ∷ 255 ∷ 255 ∷ 255 ∷ 255 ∷ 255 ∷ 255 ∷ 255 ∷ 255 ∷ 255
    ∷ 255 ∷ 255 ∷ 255 ∷ 255 ∷ 255 ∷ 255 ∷ 255 ∷ 255 ∷ 255 ∷ 255 ∷ 255 ∷ 255 ∷ 255 ∷ 255 ∷ 255 ∷ 255
    ∷ 255 ∷ 255 ∷ 255 ∷ 255 ∷ 255 ∷ 255 ∷ 255 ∷ 255 ∷ 255 ∷ 255 ∷ 255 ∷ 255 ∷ 255 ∷ 255 ∷ 255 ∷ 255
    ∷ 255 ∷ 255 ∷ 255 ∷ 255 ∷ 255 ∷ 255 ∷ 255 ∷ 255 ∷ 255 ∷ 255 ∷ 255 ∷ 255 ∷ 255 ∷ 255 ∷ 255 ∷ 255
    ∷ 255 ∷ 255 ∷ 255 ∷ 255 ∷ 255 ∷ 255 ∷ 255 ∷ 255 ∷ 255 ∷ 255 ∷ 255 ∷ 255 ∷ 255 ∷ 255 ∷ 255 ∷ 255
    ∷ 255 ∷ 255 ∷ 255 ∷ 255 ∷ 255 ∷ 255 ∷ 255 ∷ 255 ∷ 255 ∷ 255 ∷ 255 ∷ 255 ∷ 255 ∷ 255 ∷ 255 ∷ 255
    ∷ 255 ∷ 255 ∷ 255 ∷ 255 ∷ 255 ∷ 255 ∷ 255 ∷ 255 ∷ 255 ∷ 255 ∷ 255 ∷ 255 ∷ 255 ∷ 255 ∷ 255 ∷ 255
    ∷ 255 ∷ 255 ∷ 255 ∷ 255 ∷ 255 ∷ 255 ∷ 255 ∷ 255 ∷ 255 ∷ 255 ∷ 255 ∷ 255 ∷ 255 ∷ 255 ∷ 255 ∷ 255
    ∷ 255 ∷ 255 ∷ 255 ∷ 255 ∷ 255 ∷ 255 ∷ 255 ∷ 255 ∷ 255 ∷ 255 ∷ 255 ∷ 255 ∷ 255 ∷ 255 ∷ 255 ∷ 255
    ∷ 255 ∷ 255 ∷ 255 ∷ 255 ∷ 255 ∷ 255 ∷ 255 ∷ 255 ∷ 255 ∷ 255 ∷ 255 ∷ 255 ∷ []

-- `tbl[(c & 0xF0) >> 4]` and `tbl[c & 0xF]`
unfoldable pub upper_digit : ℕ → ℕ
unfolding digits
upper_digit c = get_or digits (bit_and c 0xf0 / 2 ^ 4) 0

unfoldable pub lower_digit : ℕ → ℕ
unfolding digits
lower_digit c = get_or digits (bit_and c 0xf) 0

unfoldable pub encode : Bytes → Bytes
encode [] = []
encode (c ∷ str) = upper_digit c ∷ lower_digit c ∷ encode str

-- The byte that `tbl` gives, `char` arithmetic with its wrap-around included.
unfoldable pub join_digits : ℕ → ℕ → ℕ
join_digits upper lower = (upper * 2 ^ 4 + lower) % 256

-- The loop over the pairs of an even text.
unfoldable pub decode_pairs : Bytes → Bytes → Decoded
decode_pairs (a ∷ b ∷ rest) ret =
    let upper = get_or values a 0 in
    let lower = get_or values b 0 in
    let more = decode_pairs rest (ret ++ join_digits upper lower ∷ []) in
    if upper == 255 || lower == 255 then illegal_chars else more
decode_pairs rest ret = ok ret

unfoldable pub decode : Bytes → Decoded
decode encrypted = if length encrypted % 2 == 0 then decode_pairs encrypted [] else odd_size
