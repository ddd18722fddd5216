-- ===== src/StringUtil/Print.antt =====
-- Printing of integers (fma-common/string_util.h), which `ParseInt64` of text_parser.h reads back.
use native.Mathlib.Nat.{pow-le-pow_right}
use fma_common.Common.{
  ℕ, zero, suc, ◌+◌, ◌-◌, ◌*◌, ◌/◌, ◌%◌, ◌^◌, ◌≤◌, ◌<◌, ◌≡◌, refl, ◌≢◌, ◌∙◌, ap, sym, [], ◌∷◌, ◌++◌,
  arith, Bytes, Bool, true, false, ◌==◌, leb, if◌then◌else◌, length, reverse, reverse-cons,
  append-nil, All-append, length-append,
}
use fma_common.Common.Int.{ℤ, pos, negsuc, with_sign, magnitude}
use fma_common.TextParser.Chars.{is_digits}
use fma_common.TextParser.Numbers.{parsed, parse_int64, max_int64}
use fma_common.TextParser.Numbers.Value.{value, AreDigits, Sign, minus, bare, parse_int64_complete}

-- The loop of `PrintUintToBuffer`, on fuel of the number itself: the digits, the last one first. In
-- the source a digit is `'0' + number % 10`, where a negative number has negative remainders.
unfoldable pub reversed_digits : Bool → ℕ → ℕ → Bytes
reversed_digits negative zero number = []
reversed_digits negative (suc fuel) number =
    let rest = reversed_digits negative fuel (number / 10) in
    if number == 0 then [] else (if negative then b'0' - number % 10 else b'0' + number % 10) ∷ rest

-- `PrintUintToBuffer` on a number with this sign and size.
unfoldable pub print_uint : Bool → ℕ → Bytes
print_uint negative zero = b'0' ∷ []
print_uint negative (suc n) = reverse (reversed_digits negative (suc n) (suc n))

-- `PrintSigned` at a type of `w` bits, where `number = -number` leaves the least number negative.
unfoldable pub print_signed : ℕ → ℤ → Bytes
print_signed w (pos n) = print_uint false n
print_signed w (negsuc n) =
    if suc n == 2 ^ (w - 1) then b'-' ∷ print_uint true (suc n) else b'-' ∷ print_uint false (suc n)

-- The value of digits, the last one first.
abbrev reversed_value : Bytes → ℕ
reversed_value [] = 0
reversed_value (c ∷ ds) = reversed_value ds * 10 + (c - b'0')

reversed_digits-value : (fuel n : ℕ) → n ≤ fuel → reversed_value (reversed_digits false fuel n) ≡ n
unfolding reversed_digits
reversed_digits-value zero n h = omega arith
reversed_digits-value (suc fuel) n h = ground (arith, reversed_digits-value fuel (n / 10))

digit-is_digits : (r : ℕ) → r < 10 → is_digits (b'0' + r) ≡ true
unfolding is_digits
digit-is_digits r h = ground arith

reversed_digits-AreDigits : (fuel n : ℕ) → AreDigits (reversed_digits false fuel n)
unfolding reversed_digits
reversed_digits-AreDigits zero n = tt
reversed_digits-AreDigits (suc fuel) n =
    ground (arith, reversed_digits-AreDigits fuel (n / 10), digit-is_digits (n % 10))

value-snoc : (d : ℕ) (ds : Bytes) (c : ℕ) → value d (ds ++ c ∷ []) ≡ value d ds * 10 + (c - b'0')
value-snoc d [] c = refl
value-snoc d (x ∷ ds) c = value-snoc (d * 10 + (x - b'0')) ds c

value-reverse : (ds : Bytes) → value 0 (reverse ds) ≡ reversed_value ds
value-reverse [] = refl
value-reverse (c ∷ ds) = rw (reverse-cons c ds, value-snoc 0 (reverse ds) c, value-reverse ds) refl

AreDigits-reverse : (ds : Bytes) → AreDigits ds → AreDigits (reverse ds)
AreDigits-reverse [] h = tt
AreDigits-reverse (c ∷ ds) (hc, h) =
    rw (reverse-cons c ds) (All-append _ (reverse ds) (c ∷ []) (AreDigits-reverse ds h) (hc, tt))

print_uint-value : (n : ℕ) → value 0 (print_uint false n) ≡ n
unfolding print_uint
print_uint-value zero = refl
print_uint-value (suc n) =
    value-reverse (reversed_digits false (suc n) (suc n))
    ∙ reversed_digits-value (suc n) (suc n) (omega arith)

print_uint-AreDigits : (n : ℕ) → AreDigits (print_uint false n)
unfolding print_uint is_digits
print_uint-AreDigits zero = (refl, tt)
print_uint-AreDigits (suc n) = AreDigits-reverse _ (reversed_digits-AreDigits (suc n) (suc n))

print_uint-ne-nil : (n : ℕ) → print_uint false n ≢ []
print_uint-ne-nil zero e = unfold print_uint in cc
print_uint-ne-nil (suc n) e =
    let v = print_uint-value (suc n) in absurd (omega (arith, sym v ∙ ap (value 0) e))

parse_digits :
    {neg : Bool} {sign : Bytes} (s : Sign sign neg) (n : ℕ)
    → n ≤ max_int64
    → parse_int64 (sign ++ print_uint false n)
      ≡ parsed (length (sign ++ print_uint false n)) (with_sign neg n)
parse_digits {neg} {sign} s n h =
    let ds = print_uint false n in
    let fits : leb n max_int64 ≡ true = ground arith in
    ap (λ (x : Bytes). parse_int64 (sign ++ x)) (sym (append-nil ds))
    ∙ parse_int64_complete s ds [] (print_uint-ne-nil n) (print_uint-AreDigits n) tt
    ∙ rw (print_uint-value n, fits, length-append sign ds) refl

pow_bound : (w : ℕ) → w ≤ 64 → 2 ^ (w - 1) ≤ 2 ^ 63
pow_bound w h = pow-le-pow_right {n = 2} (omega arith) {j = 63} (omega arith)

-- What `PrintSigned` prints at a type of `w` bits, at most 64, is read back by `ParseInt64` to its
-- end, except for the least number of the type.
pub parse_int64-print_signed :
    (w : ℕ) (i : ℤ)
    → w ≤ 64
    → magnitude i < 2 ^ (w - 1)
    → parse_int64 (print_signed w i) ≡ parsed (length (print_signed w i)) i
unfolding print_signed
parse_int64-print_signed w (pos n) h fits = parse_digits bare n (omega (arith, pow_bound w h))
parse_int64-print_signed w (negsuc n) h fits =
    let inside : (suc n == 2 ^ (w - 1)) ≡ false = ground arith in
    rw inside (parse_digits minus (suc n) (omega (arith, pow_bound w h)))
