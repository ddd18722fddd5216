-- ===== src/TextParser/Numbers/Bounds.antt =====
-- The parsers of numbers (fma-common/text_parser.h) consume no more than the buffer holds.
use fma_common.Common.{
  ℕ, ◌+◌, ◌≤◌, ◌≡◌, refl, sym, ◌∙◌, ap, [], ◌∷◌, ◌++◌, Bytes, Bool, true, arith, length,
  length-append, codes,
}
use fma_common.Common.Int.{ℤ}
use fma_common.TextParser.Numbers.{
  Parsed, failed, parsed, overflow, parse_int64, parse_digit, parse_bool, parse_word, match_word,
  is_nonzero,
}
use fma_common.TextParser.Numbers.Value.{parse_int64-cases}
use fma_common.TextParser.Numbers.Words.{parse_digit_lem}

pub parse_int64-le : (b : Bytes) {n : ℕ} {i : ℤ} → parse_int64 b ≡ parsed n i → n ≤ length b
parse_int64-le b e =
    let (neg, sign, ds, rest, s, split, are, stops, result) = parse_int64-cases b in
    let size : length b ≡ length sign + (length ds + length rest) =
      ap length split
      ∙ length-append sign (ds ++ rest)
      ∙ ap (λ (k : ℕ). length sign + k) (length-append ds rest) in
    ground (arith, size, result)

match_word-le : (b word : Bytes) → match_word b word ≡ true → length word ≤ length b
unfolding match_word
match_word-le b [] h = omega arith
match_word-le [] (p ∷ word) h = absurd cc
match_word-le (c ∷ b) (p ∷ word) h = ground (arith, match_word-le b word)

parse_word-le : (b : Bytes) {n : ℕ} {d : Bool} → parse_word b ≡ parsed n d → n ≤ length b
unfolding parse_word
parse_word-le [] e = absurd cc
parse_word-le (c ∷ b) e =
    ground (arith, match_word-le (c ∷ b) (codes "false"), match_word-le (c ∷ b) (codes "true"))

pub parse_digit-le :
    (lo hi : ℤ) (b : Bytes) {n : ℕ} {i : ℤ} → parse_digit lo hi b ≡ parsed n i → n ≤ length b
parse_digit-le lo hi b {n} {i} e = parse_int64-le b ((parse_digit_lem lo hi i b n).0 e).0

pub parse_bool-le : (b : Bytes) {n : ℕ} {d : Bool} → parse_bool b ≡ parsed n d → n ≤ length b
unfolding parse_bool
parse_bool-le b {n} {d} e = from (parse_int64 b) refl
  where
    from : (r : Parsed ℤ) → parse_int64 b ≡ r → n ≤ length b
    from failed h = parse_word-le b (rw (parse_bool, h) at e)
    from overflow h = absurd (let gone : overflow ≡ parsed n d = rw (parse_bool, h) at e in cc)
    from (parsed m i) h =
        let same : parsed m (is_nonzero i) ≡ parsed n d = rw (parse_bool, h) at e in
        let size : m ≡ n = cc in rw (sym size) (parse_int64-le b h)
