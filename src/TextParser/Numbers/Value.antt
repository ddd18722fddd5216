-- ===== src/TextParser/Numbers/Value.antt =====
-- What `ParseInt64` reads: a sign, digits up to the first other byte, and their value.
use fma_common.Common.{
  ℕ, suc, ◌+◌, ◌-◌, ◌*◌, ◌≤◌, ◌≡◌, refl, ◌≢◌, ◌∙◌, ==_iff, inl, inr, [], ◌∷◌, ◌++◌, Bool, true,
  false, none, some, arith, Bytes, Bool-cases, ap, ◌==◌, leb, if◌then◌else◌, All, length,
}
use fma_common.Common.Int.{with_sign}
use fma_common.TextParser.Chars.{is_digits}
use fma_common.TextParser.Numbers.{
  failed, parsed, overflow, max_int64, scan_digits, parse_unsigned, parse_int64,
}

-- The number that digits spell behind `d`, with no bound.
abbrev pub value : ℕ → Bytes → ℕ
value d [] = d
value d (c ∷ ds) = value (d * 10 + (c - b'0')) ds

abbrev pub AreDigits : Bytes → Type 0
AreDigits = All (λ c. is_digits c ≡ true)

-- The digits before `rest` end there.
abbrev pub StopsDigits : Bytes → Type 0
StopsDigits [] = Unit {0}
StopsDigits (c ∷ rest) = is_digits c ≡ false

le-value : (ds : Bytes) (d : ℕ) → d ≤ value d ds
le-value [] d = omega arith
le-value (c ∷ ds) d = omega (arith, le-value ds (d * 10 + (c - b'0')))

-- The scan of digits `ds` gives their value if that fits, and overflows if not.
scan_digits_complete :
    (ds rest : Bytes) (n d : ℕ)
    → AreDigits ds
    → StopsDigits rest
    → d ≤ max_int64
    → scan_digits (ds ++ rest) n d
      ≡ (if leb (value d ds) max_int64 then some (n + length ds, value d ds) else none)
unfolding scan_digits
scan_digits_complete [] [] n d hd hs fits = ground arith
scan_digits_complete [] (c ∷ rest) n d hd hs fits = ground arith
scan_digits_complete (c ∷ ds) rest n d (hc, hd) hs fits = ground (
  arith,
  le-value ds (d * 10 + (c - b'0')),
  scan_digits_complete ds rest (suc n) (d * 10 + (c - b'0')) hd hs,
)

-- Every buffer is digits and a rest that does not begin with one.
abbrev Digits : Bytes → Type 0
Digits b = (ds : Bytes) × (rest : Bytes) × (b ≡ ds ++ rest) × AreDigits ds × StopsDigits rest

split-Digits : (b : Bytes) → Digits b
split-Digits [] = ([], [], refl, tt, tt)
split-Digits (c ∷ b) =
    let (ds, rest, e, hd, hs) = split-Digits b in
    elim (Bool-cases (is_digits c)) [
      | inl hit ↦ (c ∷ ds, rest, ap (◌∷◌ c) e, (hit, hd), hs)
      | inr miss ↦ ([], c ∷ b, refl, tt, miss)
    ]

-- How a number is written: the sign, and whether it stands for a negative number.
pub data Sign : Bytes → Bool → Type 0 where
  minus : Sign (b'-' ∷ []) true
  plus : Sign (b'+' ∷ []) false
  bare : Sign [] false

parse_unsigned_complete :
    (neg : Bool) (ds rest : Bytes) (n : ℕ)
    → ds ≢ []
    → AreDigits ds
    → StopsDigits rest
    → parse_unsigned neg (ds ++ rest) n ≡ (
        if leb (value 0 ds) max_int64
        then parsed (n + length ds) (with_sign neg (value 0 ds))
        else overflow)
unfolding parse_unsigned
parse_unsigned_complete neg [] rest n h hd hs = absurd (h refl)
parse_unsigned_complete neg (c ∷ ds) rest n h (hc, hd) hs =
    ground (arith, scan_digits_complete (c ∷ ds) rest n 0 (hc, hd) hs (omega arith))

digit_bounds : (c : ℕ) → is_digits c ≡ true → (b'0' ≤ c) × (c ≤ b'9')
unfolding is_digits
digit_bounds c h = ground arith

-- A sign (or none), one digit or more, and a rest that does not begin with a digit: `ParseInt64`
-- consumes the sign and the digits and gives their value, if it is below 2 ^ 63; otherwise it
-- overflows.
pub parse_int64_complete :
    {neg : Bool} {sign : Bytes} (s : Sign sign neg) (ds rest : Bytes)
    → ds ≢ []
    → AreDigits ds
    → StopsDigits rest
    → parse_int64 (sign ++ (ds ++ rest)) ≡ (
        if leb (value 0 ds) max_int64
        then parsed (length sign + length ds) (with_sign neg (value 0 ds))
        else overflow)
unfolding parse_int64
parse_int64_complete minus ds rest h hd hs = parse_unsigned_complete true ds rest 1 h hd hs
parse_int64_complete plus ds rest h hd hs = parse_unsigned_complete false ds rest 1 h hd hs
parse_int64_complete bare [] rest h hd hs = absurd (h refl)
parse_int64_complete bare (c ∷ ds) rest h (hc, hd) hs =
    ground (arith, digit_bounds c hc, parse_unsigned_complete false (c ∷ ds) rest 0 h (hc, hd) hs)

parse_unsigned_failed :
    (neg : Bool) (b : Bytes) (n : ℕ) → StopsDigits b → parse_unsigned neg b n ≡ failed
unfolding parse_unsigned
parse_unsigned_failed neg [] n h = refl
parse_unsigned_failed neg (c ∷ b) n h = rw h refl

-- A buffer is a sign, or none, and what `ParseInt64` reads as a number without one.
abbrev Signed : Bytes → Type 0
Signed b =
    (neg : Bool) × (sign : Bytes) × (number : Bytes) × Sign sign neg
    × (b ≡ sign ++ number)
    × (parse_int64 b ≡ parse_unsigned neg number (length sign))

split_sign : (b : Bytes) → Signed b
unfolding parse_int64 parse_unsigned
split_sign [] = (false, [], [], bare, refl, refl)
split_sign (c ∷ b) = elim (Bool-cases (c == b'-')) [
  | inl e ↦
      let at : c ≡ b'-' = (==_iff c b'-').0 e in
      (true, b'-' ∷ [], b, minus, ap (λ (x : ℕ). x ∷ b) at, rw e refl)
  | inr no_minus ↦ elim (Bool-cases (c == b'+')) [
    | inl e ↦
        let at : c ≡ b'+' = (==_iff c b'+').0 e in
        (false, b'+' ∷ [], b, plus, ap (λ (x : ℕ). x ∷ b) at, rw (no_minus, e) refl)
    | inr no_plus ↦ (false, [], c ∷ b, bare, refl, rw (no_minus, no_plus) refl)
  ]
]

parse_unsigned-cases :
    (neg : Bool) (ds rest : Bytes) (n : ℕ)
    → AreDigits ds
    → StopsDigits rest
    → parse_unsigned neg (ds ++ rest) n ≡ (
        if length ds == 0
        then failed
        else if leb (value 0 ds) max_int64
        then parsed (n + length ds) (with_sign neg (value 0 ds))
        else overflow)
parse_unsigned-cases neg [] rest n hd hs = parse_unsigned_failed neg rest n hs
parse_unsigned-cases neg (c ∷ ds) rest n hd hs =
    ground (arith, parse_unsigned_complete neg (c ∷ ds) rest n (λ z. cc) hd hs)

-- Whatever the buffer, it is a sign or none, digits, and a rest that does not begin with a digit;
-- `ParseInt64` fails exactly if there are no digits, gives what they spell with the sign if that is
-- below 2 ^ 63 without it, and otherwise overflows, which is undefined, also on the least int64_t.
pub parse_int64-cases :
    (b : Bytes)
    → (neg : Bool) × (sign : Bytes) × (ds : Bytes) × (rest : Bytes) × Sign sign neg
      × (b ≡ sign ++ (ds ++ rest))
      × AreDigits ds
      × StopsDigits rest
      × (parse_int64 b ≡ (
          if length ds == 0
          then failed
          else if leb (value 0 ds) max_int64
          then parsed (length sign + length ds) (with_sign neg (value 0 ds))
          else overflow))
parse_int64-cases b =
    let (neg, sign, number, s, e, step) = split_sign b in
    let (ds, rest, e', hd, hs) = split-Digits number in
    (
      neg,
      sign,
      ds,
      rest,
      s,
      e ∙ ap (◌++◌ sign) e',
      hd,
      hs,
      step
          ∙ (ap (λ (x : Bytes). parse_unsigned neg x (length sign)) e'
              ∙ parse_unsigned-cases neg ds rest (length sign) hd hs),
    )
