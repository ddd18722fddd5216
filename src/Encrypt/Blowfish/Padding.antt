-- ===== src/Encrypt/Blowfish/Padding.antt =====
-- The padding that `Encrypt` appends and `PKCS5PaddingLength` measures.
use fma_common.Common.{
  ℕ, zero, suc, ◌+◌, ◌-◌, ◌%◌, ◌≤◌, ◌<◌, ◌≡◌, refl, ap, ◌≢◌, dec_lt, true, none, some, [], ◌∷◌,
  ◌++◌, arith, Bytes, length, get_or, replicate, length-append, length-replicate,
}
use fma_common.Encrypt.Blowfish.{padding_length, all_padding, pkcs5_padding_length}

pub padding_length_bounds :
    (size : ℕ)
    → (0 < padding_length size) × (padding_length size ≤ 8) × ((size + padding_length size) % 8 ≡ 0)
unfolding padding_length
padding_length_bounds size = ground arith

get_or-append : (xs ys : Bytes) (i d : ℕ) → get_or (xs ++ ys) (length xs + i) d ≡ get_or ys i d
get_or-append [] ys i d = ap (λ (j : ℕ). get_or ys j d) (omega arith)
get_or-append (x ∷ xs) ys i d =
    let out : suc (length xs) + i ≡ suc (length xs + i) = omega arith in
    rw out (get_or-append xs ys i d)

get_or-replicate : (n i v d : ℕ) → i < n → get_or (replicate n v) i d ≡ v
get_or-replicate zero i v d h = absurd (omega arith)
get_or-replicate (suc n) zero v d h = refl
get_or-replicate (suc n) (suc i) v d h = get_or-replicate n i v d (omega arith)

-- The byte `i` places before the end of a padded text is the padding byte.
get_or_pad :
    (xs : Bytes) (n i : ℕ)
    → i < n
    → get_or (xs ++ replicate n n) (length (xs ++ replicate n n) - i - 1) 0 ≡ n
get_or_pad xs n i h =
    let idx : length (xs ++ replicate n n) - i - 1 ≡ length xs + (n - i - 1) =
      omega (arith, length-append xs (replicate n n), length-replicate n n) in
    rw (idx, get_or-append xs (replicate n n)) (get_or-replicate n (n - i - 1) n 0 (omega arith))

all_padding_pad : (xs : Bytes) (n k : ℕ) → k ≤ n → all_padding (xs ++ replicate n n) n k ≡ some true
unfolding all_padding
all_padding_pad xs n zero h = refl
all_padding_pad xs n (suc k) h = ground (
  arith,
  all_padding_pad xs n k,
  get_or_pad xs n k,
  length-append xs (replicate n n),
  length-replicate n n,
)

pkcs5-cons :
    (str : Bytes) (n : ℕ)
    → 0 < length str
    → get_or str (length str - 0 - 1) 0 ≡ n
    → 0 < n
    → n ≤ 8
    → all_padding str n n ≡ some true
    → pkcs5_padding_length str ≡ some n
unfolding pkcs5_padding_length
pkcs5-cons [] n h e p q all = absurd (omega arith)
pkcs5-cons (x ∷ str) n h e p q all =
    let idx : suc (length str) - 0 - 1 ≡ length str = omega arith in
    let last : get_or (x ∷ str) (length str) 0 ≡ n = rw idx at e in rw (last, all) (ground arith)

-- Behind any text, `n` bytes that each say `n`, from one to eight of them, are measured as `n`.
pub pkcs5_padding_length_pad :
    (xs : Bytes) (n : ℕ) → 0 < n → n ≤ 8 → pkcs5_padding_length (xs ++ replicate n n) ≡ some n
pkcs5_padding_length_pad xs n p q =
    pkcs5-cons (xs ++ replicate n n) n
      (omega (arith, length-append xs (replicate n n), length-replicate n n)) (get_or_pad xs n 0 p)
      p q (all_padding_pad xs n n (omega arith))

-- On a text as long as the padding byte says the measuring loop reads inside the text.
all_padding-ne-none : (str : Bytes) (len n : ℕ) → n ≤ length str → all_padding str len n ≢ none
unfolding all_padding
all_padding-ne-none str len zero h = ground arith
all_padding-ne-none str len (suc n) h = ground (arith, all_padding-ne-none str len n)

-- A text of eight bytes or more has a padding length: no read is outside it.
pub pkcs5_padding_length-ne-none : (str : Bytes) → 8 ≤ length str → pkcs5_padding_length str ≢ none
unfolding pkcs5_padding_length
pkcs5_padding_length-ne-none [] h = absurd (omega arith)
pkcs5_padding_length-ne-none (x ∷ str) h =
    let len = get_or (x ∷ str) (length str) 0 in
    ground (arith, all_padding-ne-none (x ∷ str) len len)

get_or_same : (m n i : ℕ) → i < m → get_or (replicate m n) (length (replicate m n) - i - 1) 0 ≡ n
get_or_same m n i h =
    let idx : length (replicate m n) - i - 1 ≡ m - i - 1 = rw (length-replicate m n) in
    rw idx (get_or-replicate m (m - i - 1) n 0 (omega arith))

all_padding_same : (m n k : ℕ) → k ≤ m → all_padding (replicate m n) n k ≡ some true
unfolding all_padding
all_padding_same m n zero h = refl
all_padding_same m n (suc k) h =
    ground (arith, all_padding_same m n k, get_or_same m n k, length-replicate m n)

all_padding_short : (m n k : ℕ) → m < k → all_padding (replicate m n) n k ≡ none
unfolding all_padding
all_padding_short m n zero h = absurd (omega arith)
all_padding_short m n (suc k) h = elim (dec_lt m k) [
  | yes later ↦ rw (all_padding_short m n k later)
  | no here ↦
      let e : k ≡ m = omega arith in
      rw (e, all_padding_same m n m (omega arith)) (ground (arith, length-replicate m n))
]

-- A text of fewer bytes than each of them says is read before its start.
pub pkcs5_padding_length_short :
    (m n : ℕ) → 0 < m → m < n → n ≤ 8 → pkcs5_padding_length (replicate m n) ≡ none
unfolding pkcs5_padding_length
pkcs5_padding_length_short zero n p q r = absurd (omega arith)
pkcs5_padding_length_short (suc m) n p q r =
    let idx : suc m - 0 - 1 ≡ m = omega arith in
    let last : get_or (n ∷ replicate m n) (length (replicate m n)) 0 ≡ n =
      rw (length-replicate m n) (get_or-replicate (suc m) m n 0 (omega arith)) in
    rw (last, all_padding_short (suc m) n n q) (ground arith)
