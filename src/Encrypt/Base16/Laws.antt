-- ===== src/Encrypt/Base16/Laws.antt =====
-- `Decode` and `Encode` of fma-common/encrypt.h, `Base16`, undo one another.
use fma_common.Common.{
  ℕ, ◌*◌, ◌%◌, ◌<◌, ◌≡◌, refl, ◌≢◌, Bool, true, ◌||◌, not, [], ◌∷◌, ◌++◌, arith, Bytes, IsByte,
  IsBytes, ◌==◌, ltb, leb, if◌then◌else◌, length, get_or, all_below, all_below_sound, append_assoc,
  append-nil, map, ◌∙◌, ℕ_discrete, ◌⊎◌, inl, inr, ◌&&◌, ◌-◌,
}
use fma_common.Encrypt.Base16.{
  ok, values, upper_digit, lower_digit, encode, join_digits, decode_pairs, decode,
}

-- What the two tables say of one byte, over all 256 of them.
read_back : ℕ → Bool
read_back c =
    not (get_or values (upper_digit c) 0 == 255 || get_or values (lower_digit c) 0 == 255)
    && join_digits (get_or values (upper_digit c) 0) (get_or values (lower_digit c) 0) == c

read_back_table : all_below 256 read_back ≡ true
unfolding all_below read_back values upper_digit lower_digit join_digits
read_back_table = refl

decode_pairs_step :
    (c : ℕ) (rest ret : Bytes)
    → IsByte c
    → decode_pairs (upper_digit c ∷ lower_digit c ∷ rest) ret ≡ decode_pairs rest (ret ++ c ∷ [])
unfolding decode_pairs read_back
decode_pairs_step c rest ret h = ground (arith, all_below_sound 256 read_back c read_back_table h)

decode_pairs-encode :
    (str ret : Bytes) → IsBytes str → decode_pairs (encode str) ret ≡ ok (ret ++ str)
unfolding encode
decode_pairs-encode [] ret h = unfold decode_pairs in rw (append-nil ret) refl
decode_pairs-encode (c ∷ str) ret (hc, hs) =
    rw
      (
        decode_pairs_step c (encode str) ret hc,
        decode_pairs-encode str (ret ++ c ∷ []) hs,
        append_assoc ret (c ∷ []) str,
      )
      refl

length-encode : (str : Bytes) → length (encode str) ≡ 2 * length str
unfolding encode
length-encode [] = refl
length-encode (c ∷ str) = omega (arith, length-encode str)

-- Decoding an encoded text of bytes gives the text back.
pub decode-encode : (str : Bytes) → IsBytes str → decode (encode str) ≡ ok str
unfolding decode
decode-encode str h =
    let even : length (encode str) % 2 ≡ 0 = omega (arith, length-encode str) in
    rw (even, decode_pairs-encode str [] h) refl

-- Hexadecimal digits in the case that `Encode` writes.
abbrev pub upper_case : ℕ → ℕ
upper_case c = if leb b'a' c && leb c b'f' then c - 32 else c

-- What one byte of the input means, over all 256 of them.
abbrev digit_at : ℕ → ℕ → Bool
digit_at v c =
    v == 255 || ltb v 16 && upper_digit (v * 16) == upper_case c && lower_digit v == upper_case c

digit_table : all_below 256 (λ c. digit_at (get_or values c 0) c) ≡ true
unfolding all_below values upper_digit lower_digit
digit_table = refl

-- Joining two values puts the first into the high digit and the second into the low one.
joined : ℕ → ℕ → Bool
joined u l =
    upper_digit (join_digits u l) == upper_digit (u * 16)
    && lower_digit (join_digits u l) == lower_digit l
    && ltb (join_digits u l) 256

joined_table : all_below 16 (λ u. all_below 16 (joined u)) ≡ true
unfolding all_below joined upper_digit lower_digit join_digits
joined_table = refl

encode-append : (s t : Bytes) → encode (s ++ t) ≡ encode s ++ encode t
unfolding encode
encode-append [] t = refl
encode-append (c ∷ s) t = rw (encode-append s t) refl

encode-join :
    (u l : ℕ)
    → u < 16
    → l < 16
    → encode (join_digits u l ∷ []) ≡ upper_digit (u * 16) ∷ lower_digit l ∷ []
unfolding encode joined
encode-join u l hu hl = ground (
  arith,
  all_below_sound 16 (joined u) l
      (all_below_sound 16 (λ v. all_below 16 (joined v)) u joined_table hu) hl,
)

digit-cases :
    (c : ℕ)
    → IsByte c
    → (get_or values c 0 ≡ 255)
      ⊎ ((get_or values c 0 < 16)
          × (upper_digit (get_or values c 0 * 16) ≡ upper_case c)
          × (lower_digit (get_or values c 0) ≡ upper_case c))
digit-cases c h =
    ground (arith, all_below_sound 256 (λ d. digit_at (get_or values d 0) d) c digit_table h)

decode_pairs-ok :
    (a b : ℕ) (rest ret : Bytes) {s : Bytes}
    → decode_pairs (a ∷ b ∷ rest) ret ≡ ok s
    → (get_or values a 0 ≢ 255)
      × (get_or values b 0 ≢ 255)
      × (decode_pairs rest (ret ++ join_digits (get_or values a 0) (get_or values b 0) ∷ []) ≡ ok s)
unfolding decode_pairs
decode_pairs-ok a b rest ret e = ground arith

decode_pairs_sound :
    (t ret : Bytes) {s : Bytes}
    → IsBytes t
    → length t % 2 ≡ 0
    → decode_pairs t ret ≡ ok s
    → encode s ≡ encode ret ++ map upper_case t
decode_pairs_sound [] ret {s} h n e =
    let same : ret ≡ s = unfold decode_pairs in cc in rw (append-nil (encode ret), same) refl
decode_pairs_sound (a ∷ []) ret h n e = absurd (omega arith)
decode_pairs_sound (a ∷ b ∷ rest) ret {s} (ha, (hb, hr)) n e =
    let (na, nb, more) = decode_pairs-ok a b rest ret e in
    let ih = decode_pairs_sound rest _ hr (omega arith) more in
    elim (digit-cases a ha) [
      | inl bad ↦ absurd (na bad)
      | inr (la, ua, _) ↦ elim (digit-cases b hb) [
        | inl bad ↦ absurd (nb bad)
        | inr (lb, _, ub) ↦
            ih
            ∙ rw
                (
                  encode-append ret (join_digits (get_or values a 0) (get_or values b 0) ∷ []),
                  encode-join (get_or values a 0) (get_or values b 0) la lb,
                  ua,
                  ub,
                  append_assoc (encode ret) (upper_case a ∷ upper_case b ∷ [])
                      (map upper_case rest),
                )
                refl
      ]
    ]

-- A text of bytes that decodes is the encoding of its result, up to the case of its digits.
pub encode-decode :
    (t : Bytes) {s : Bytes} → IsBytes t → decode t ≡ ok s → encode s ≡ map upper_case t
unfolding decode encode
encode-decode t {s} h e = elim (ℕ_discrete (length t % 2) 0) [
  | yes even ↦ decode_pairs_sound t [] h even (ground arith)
  | no odd ↦ absurd (ground arith)
]
