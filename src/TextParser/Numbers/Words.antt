-- ===== src/TextParser/Numbers/Words.antt =====
-- `ParseBool` and the limits of `ParseDigit`.
use fma_common.Common.{
  length, ◌+◌, leb, ◌&&◌, ◌==◌, if◌then◌else◌, Bool, ℕ, ◌≡◌, refl, [], ◌∷◌, ◌++◌, true, arith,
  Bytes, map, ◌↔◌, ap, ap₂,
}
use fma_common.Common.Int.{ℤ, leb_ℤ, with_sign}
use fma_common.TextParser.Chars.{to_lower}
use fma_common.TextParser.Numbers.{
  failed, parsed, overflow, max_int64, parse_int64, match_word, parse_digit,
}
use fma_common.TextParser.Numbers.Value.{Sign, AreDigits, StopsDigits, value, parse_int64-cases}

-- A value that `ParseDigit` returns is one that `ParseInt64` read, and is within the limits.
pub parse_digit_lem :
    (lo hi i : ℤ) (b : Bytes) (n : ℕ)
    → (parse_digit lo hi b ≡ parsed n i)
      ↔ (parse_int64 b ≡ parsed n i) × (leb_ℤ lo i ≡ true) × (leb_ℤ i hi ≡ true)
unfolding parse_digit
parse_digit_lem lo hi i b n = (λ e. ground arith, λ h. ground arith)

-- Whatever the buffer, it is a sign or none, digits, and a rest that does not begin with a digit.
-- `ParseDigit` fails if there are no digits, or if they spell a number outside the limits of the type;
-- within them it gives the number; a number of 2 ^ 63 or more overflows before the limits are tested.
pub parse_digit-cases :
    (lo hi : ℤ) (b : Bytes)
    → (neg : Bool) × (sign : Bytes) × (ds : Bytes) × (rest : Bytes) × Sign sign neg
      × (b ≡ sign ++ (ds ++ rest))
      × AreDigits ds
      × StopsDigits rest
      × (parse_digit lo hi b ≡ (
          if length ds == 0
          then failed
          else if leb (value 0 ds) max_int64
          then (if leb_ℤ lo (with_sign neg (value 0 ds)) && leb_ℤ (with_sign neg (value 0 ds)) hi
              then parsed (length sign + length ds) (with_sign neg (value 0 ds))
              else failed)
          else overflow))
unfolding parse_digit
parse_digit-cases lo hi b =
    let (neg, sign, ds, rest, s, split, are, stops, result) = parse_int64-cases b in
    (neg, sign, ds, rest, s, split, are, stops, ground (arith, result))

match_word_complete : (head rest : Bytes) → match_word (head ++ rest) (map to_lower head) ≡ true
unfolding match_word
match_word_complete [] [] = refl
match_word_complete [] (c ∷ rest) = refl
match_word_complete (c ∷ head) rest = ground (arith, match_word_complete head rest)

abbrev Begins : Bytes → Bytes → Type 0
Begins b word = (head : Bytes) × (rest : Bytes) × (b ≡ head ++ rest) × (map to_lower head ≡ word)

match_word_sound : (b word : Bytes) → match_word b word ≡ true → Begins b word
match_word_sound b [] h = ([], b, refl, refl)
match_word_sound [] (p ∷ word) h = absurd (unfold match_word in cc)
match_word_sound (c ∷ b) (p ∷ word) h =
    let (same, more) = both h in
    let (head, rest, e, m) = match_word_sound b word more in
    (c ∷ head, rest, ap (◌∷◌ c) e, ap₂ ◌∷◌ same m)
  where
    both : match_word (c ∷ b) (p ∷ word) ≡ true → (to_lower c ≡ p) × (match_word b word ≡ true)
    both h = unfold match_word in ground arith

-- The loop of `ParseBool` accepts exactly the texts that begin with the word, in any case.
pub match_word_lem :
    (b word : Bytes)
    → (match_word b word ≡ true)
      ↔ ((head : Bytes) × (rest : Bytes) × (b ≡ head ++ rest) × (map to_lower head ≡ word))
match_word_lem b word =
    (match_word_sound b word, λ (head, rest, e, m). rw (e, ← m) (match_word_complete head rest))
