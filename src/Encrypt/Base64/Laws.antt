-- ===== src/Encrypt/Base64/Laws.antt =====
-- `TryDecode` undoes `Encode` (fma-common/encrypt.h, `Base64`).
use fma_common.Common.{
  ℕ, suc, ◌+◌, ◌-◌, ◌*◌, ◌/◌, ◌%◌, ◌≡◌, refl, ◌∙◌, ◌≢◌, some, [], ◌∷◌, ◌++◌, arith, Bytes, IsByte,
  IsBytes, length, take, take-append, length-append, ◌>>=◌, length-replicate, replicate,
}
use fma_common.Encrypt.Base64.{letter, value, encode, padding, decode_groups, try_decode}
use fma_common.Encrypt.Base64.Groups.{
  value-letter, letter-ne-pad, value_pad, byte_masks, decode_group-bytes,
}

-- The letters of the group of `a`, `b` and `c`.
abbrev group : ℕ → ℕ → ℕ → Bytes → Bytes
group a b c rest =
    letter (a / 4)
    ∷ letter (a % 4 * 16 + b / 16)
    ∷ letter (b % 16 * 4 + c / 64)
    ∷ letter (c % 64)
    ∷ rest

encode_step :
    (a b c : ℕ) (rest : Bytes)
    → IsByte a
    → IsByte b
    → IsByte c
    → encode (a ∷ b ∷ c ∷ rest) ≡ group a b c (encode rest)
unfolding encode
encode_step a b c rest ha hb hc =
    rw ((byte_masks a ha).0, (byte_masks b hb).1, (byte_masks b hb).2, (byte_masks c hc).3) refl

encode_two :
    (a b : ℕ)
    → IsByte a
    → IsByte b
    → encode (a ∷ b ∷ [])
      ≡ letter (a / 4) ∷ letter (a % 4 * 16 + b / 16) ∷ letter (b % 16 * 4) ∷ b'=' ∷ []
unfolding encode
encode_two a b ha hb = rw ((byte_masks a ha).0, (byte_masks b hb).1, (byte_masks b hb).2) refl

encode_one :
    (a : ℕ) → IsByte a → encode (a ∷ []) ≡ letter (a / 4) ∷ letter (a % 4 * 16) ∷ b'=' ∷ b'=' ∷ []
unfolding encode
encode_one a ha = rw (byte_masks a ha).0 refl

encode-nil : encode [] ≡ []
unfolding encode
encode-nil = refl

-- The '=' signs that `Encode` leaves at the end.
abbrev pads : Bytes → ℕ
pads [] = 0
pads (a ∷ []) = 2
pads (a ∷ b ∷ []) = 1
pads (a ∷ b ∷ c ∷ rest) = pads rest

-- Four bytes with the values of a group are decoded to its bytes.
decode_groups_values :
    (p q r t a b c : ℕ) (rest : Bytes)
    → IsByte a
    → IsByte b
    → IsByte c
    → (value p ≡ a / 4)
      × (value q ≡ a % 4 * 16 + b / 16)
      × (value r ≡ b % 16 * 4 + c / 64)
      × (value t ≡ c % 64)
    → decode_groups (p ∷ q ∷ r ∷ t ∷ rest)
      ≡ (decode_groups rest >>= λ more. some (a ∷ b ∷ c ∷ more))
unfolding decode_groups
decode_groups_values p q r t a b c rest ha hb hc (vp, vq, vr, vt) =
    rw (vp, vq, vr, vt, decode_group-bytes a b c ha hb hc) refl

decode_groups-nil : decode_groups [] ≡ some []
unfolding decode_groups
decode_groups-nil = refl

decode_groups-encode :
    (s : Bytes) → IsBytes s → decode_groups (encode s) ≡ some (s ++ replicate (pads s) 0)
decode_groups-encode [] h = unfold encode decode_groups in refl
decode_groups-encode (a ∷ []) (ha, _) =
    rw
      (
        encode_one a ha,
        decode_groups_values _ _ b'=' b'=' a 0 0 [] ha (omega arith) (omega arith) (
          value-letter (a / 4) (omega arith),
          value-letter (a % 4 * 16) (omega arith) ∙ omega arith,
          value_pad,
          value_pad,
        ),
        decode_groups-nil,
      )
      refl
decode_groups-encode (a ∷ b ∷ []) (ha, (hb, _)) =
    rw
      (
        encode_two a b ha hb,
        decode_groups_values _ _ _ b'=' a b 0 [] ha hb (omega arith) (
          value-letter (a / 4) (omega arith),
          value-letter (a % 4 * 16 + b / 16) (omega arith),
          value-letter (b % 16 * 4) (omega arith) ∙ omega arith,
          value_pad,
        ),
        decode_groups-nil,
      )
      refl
decode_groups-encode (a ∷ b ∷ c ∷ rest) (ha, (hb, (hc, hr))) =
    rw
      (
        encode_step a b c rest ha hb hc,
        decode_groups_values _ _ _ _ a b c (encode rest) ha hb hc (
          value-letter (a / 4) (omega arith),
          value-letter (a % 4 * 16 + b / 16) (omega arith),
          value-letter (b % 16 * 4 + c / 64) (omega arith),
          value-letter (c % 64) (omega arith),
        ),
        decode_groups-encode rest hr,
      )
      refl

-- Only the last two bytes of a text decide its padding.
padding_last :
    (p q r t x y : ℕ) (rest : Bytes)
    → padding (p ∷ q ∷ r ∷ t ∷ x ∷ y ∷ rest) ≡ padding (x ∷ y ∷ rest)
unfolding padding
padding_last p q r t x y rest =
    let n = length rest in
    let far₁ : suc (suc (suc (suc (suc (suc n))))) - 1 ≡ suc (suc (suc (suc (suc n)))) =
      omega arith in
    let far₂ : suc (suc (suc (suc (suc (suc n))))) - 2 ≡ suc (suc (suc (suc n))) = omega arith in
    let near₁ : suc (suc n) - 1 ≡ suc n = omega arith in
    let near₂ : suc (suc n) - 2 ≡ n = omega arith in rw (far₁, far₂, near₁, near₂) refl

encode_head :
    (x : ℕ) (xs : Bytes) → (p : ℕ) × (q : ℕ) × (rest : Bytes) × (encode (x ∷ xs) ≡ p ∷ q ∷ rest)
unfolding encode
encode_head x [] = (_, _, _, refl)
encode_head x (y ∷ []) = (_, _, _, refl)
encode_head x (y ∷ z ∷ xs) = (_, _, _, refl)

padding_group : (p q r t : ℕ) → t ≢ b'=' → padding (p ∷ q ∷ r ∷ t ∷ []) ≡ 0
unfolding padding
padding_group p q r t h = ground arith

padding-encode : (s : Bytes) → s ≢ [] → IsBytes s → padding (encode s) ≡ pads s
padding-encode [] n h = absurd (n refl)
padding-encode (a ∷ []) n (ha, _) = rw (encode_one a ha) (unfold padding in refl)
padding-encode (a ∷ b ∷ []) n (ha, (hb, _)) =
    rw (encode_two a b ha hb)
      (two_pads _ _ (letter (b % 16 * 4)) (letter-ne-pad (b % 16 * 4) (omega arith)))
  where
    two_pads : (p q r : ℕ) → r ≢ b'=' → padding (p ∷ q ∷ r ∷ b'=' ∷ []) ≡ 1
    two_pads p q r h = unfold padding in ground arith
padding-encode (a ∷ b ∷ c ∷ []) n (ha, (hb, (hc, _))) =
    rw (encode_step a b c [] ha hb hc, encode-nil)
      (padding_group _ _ _ _ (letter-ne-pad (c % 64) (omega arith)))
padding-encode (a ∷ b ∷ c ∷ x ∷ xs) n (ha, (hb, (hc, hr))) =
    let (p, q, rest, e) = encode_head x xs in
    rw (encode_step a b c (x ∷ xs) ha hb hc, e, padding_last, ← e)
      (padding-encode (x ∷ xs) (λ z. cc) hr)

-- Three bytes make four letters, and a rest of one or two bytes makes four more.
pub length-encode : (s : Bytes) → length (encode s) ≡ (length s + 2) / 3 * 4
unfolding encode
length-encode [] = refl
length-encode (a ∷ []) = refl
length-encode (a ∷ b ∷ []) = refl
length-encode (a ∷ b ∷ c ∷ rest) = omega (arith, length-encode rest)

try_decode_cons :
    (t ret : Bytes)
    → t ≢ []
    → length t % 4 ≡ 0
    → decode_groups t ≡ some ret
    → try_decode t ≡ some (take (length ret - padding t) ret)
unfolding try_decode
try_decode_cons [] ret n h e = absurd (n refl)
try_decode_cons (c ∷ t) ret n h e = rw (h, e) refl

encode-ne-nil : (s : Bytes) → s ≢ [] → encode s ≢ []
encode-ne-nil [] n e = n refl
encode-ne-nil (x ∷ xs) n e = let (p, q, rest, shape) = encode_head x xs in cc

-- Decoding an encoded text of bytes gives the text back.
pub try_decode-encode : (s : Bytes) → IsBytes s → try_decode (encode s) ≡ some s
try_decode-encode [] h = unfold try_decode encode in refl
try_decode-encode (x ∷ xs) h =
    let s = x ∷ xs in
    let cut : length (s ++ replicate (pads s) 0) - pads s ≡ length s =
      omega (arith, length-append s (replicate (pads s) 0), length-replicate {A = ℕ} (pads s) 0) in
    rw
      (
        try_decode_cons (encode s) _ (encode-ne-nil s (λ z. cc)) (omega (arith, length-encode s))
            (decode_groups-encode s h),
        padding-encode s (λ z. cc) h,
        cut,
        take-append s (replicate (pads s) 0),
      )
      refl
