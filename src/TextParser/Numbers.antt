-- ===== src/TextParser/Numbers.antt =====
-- `ParseInt64`, `ParseBool` and `ParseDigit` of fma-common/text_parser.h. `ParseDouble` is not here:
-- there are no floats. An int64_t is an integer; `overflow` marks the signed overflow of
-- `d * 10 + digit`, which the source leaves undefined.
pub mod Value
pub mod Words
pub mod Bounds
use fma_common.Common.{
  ℕ, zero, suc, ◌+◌, ◌-◌, ◌*◌, ◌^◌, List, [], ◌∷◌, Bool, true, false, not, ◌&&◌, ◌||◌, Option, none,
  some, Bytes, codes, ◌==◌, leb, if◌then◌else◌, ◌>>=◌,
}
use fma_common.Common.Int.{ℤ, pos, negsuc, with_sign, leb_ℤ}
use fma_common.TextParser.Chars.{is_digits, to_lower}

-- `failed` is the result 0; otherwise the bytes consumed and the value of the out-parameter.
pub data Parsed (A : Type 0) : Type 0 where
  failed : Parsed A
  parsed : ℕ → A → Parsed A
  overflow : Parsed A

abbrev pub max_int64 : ℕ
max_int64 = 2 ^ 63 - 1

-- `while (b != e && IsDigits(*b)) d = d * 10 + (*b++ - '0')`, `n` bytes after the start.
pub scan_digits : Bytes → ℕ → ℕ → Option (ℕ × ℕ)
scan_digits [] n d = some (n, d)
scan_digits (c ∷ b) n d =
    let rest = scan_digits b (suc n) (d * 10 + (c - b'0')) in
    if is_digits c
    then (if leb (d * 10 + (c - b'0')) max_int64 then rest else none)
    else some (n, d)

finish : Bool → Option (ℕ × ℕ) → Parsed ℤ
finish neg none = overflow
finish neg (some (n, d)) = parsed n (with_sign neg d)

-- What follows the sign.
pub parse_unsigned : Bool → Bytes → ℕ → Parsed ℤ
unfolding finish
parse_unsigned neg [] n = failed
parse_unsigned neg (c ∷ b) n = if is_digits c then finish neg (scan_digits (c ∷ b) n 0) else failed

pub parse_int64 : Bytes → Parsed ℤ
parse_int64 [] = failed
parse_int64 (c ∷ b) =
    if c == b'-'
    then parse_unsigned true b 1
    else if c == b'+'
    then parse_unsigned false b 1
    else parse_unsigned false (c ∷ b) 0

-- The loop over "false" or "true": whether it reaches the end of the word.
pub match_word : Bytes → Bytes → Bool
match_word b [] = true
match_word [] (p ∷ word) = false
match_word (c ∷ b) (p ∷ word) =
    let rest = match_word b word in if to_lower c == p then rest else false

parse_word : Bytes → Parsed Bool
parse_word [] = failed
parse_word (c ∷ b) =
    if c == b'f' || c == b'F'
    then (if match_word (c ∷ b) (codes "false") then parsed 5 false else failed)
    else if c == b't' || c == b'T'
    then (if match_word (c ∷ b) (codes "true") then parsed 4 true else failed)
    else failed

abbrev pub is_nonzero : ℤ → Bool
is_nonzero (pos zero) = false
is_nonzero (pos (suc n)) = true
is_nonzero (negsuc n) = true

pub parse_bool : Bytes → Parsed Bool
unfolding parse_word
parse_bool b = elim (parse_int64 b) [
  | failed ↦ parse_word b
  | parsed n i ↦ parsed n (is_nonzero i)
  | overflow ↦ overflow
]

-- `ParseDigit` for an integer type with the limits `lo` and `hi`.
pub parse_digit : ℤ → ℤ → Bytes → Parsed ℤ
parse_digit lo hi b = elim (parse_int64 b) [
  | failed ↦ failed
  | parsed n i ↦ if leb_ℤ lo i && leb_ℤ i hi then parsed n i else failed
  | overflow ↦ overflow
]
